-- ===== src/Tabs/RefreshRun.antt =====
-- One refresh of a window's tabs (roamux/browser/tabs/initial_url_refresh_run.{h,cc}), which the
-- scheduler asks to load an item and which tells it what settled. Handles, contents and navigations are
-- numbers. What a call finds in the browser is an argument, and a message of the observed contents
-- names them, as only those are delivered.
pub mod Settles
pub mod Started
pub mod Snapshot
mod Examples
use roamux.Base.{
  ℕ, ◌+◌, Bool, true, false, not, Option, none, some, List, [], ◌∷◌, ◌++◌, leb, ◌==◌, if◌then◌else◌,
  length, get_elem?,
}
use roamux.Tabs.SettleGate.{
  NavigationSettleGate, new_gate, begin_attempt, attempt_issued, on_navigation_started,
  on_stop_loading, on_attempt_discarded, reset,
}

pub record RefreshRun : Type 0 where
  pub snapshot : List ℕ
  pub current_index : ℕ
  pub pending_handle : Option ℕ
  pub settle_gate : NavigationSettleGate
  pub observed : Option ℕ

-- What `StartItem` finds of a handle: the contents of its tab, if both are there, and whether they are
-- in the window's strip, are audible and can be reloaded; of the load, the navigations of the main
-- frame that start inside the call, and the id of the one that it returns.
pub record Found : Type 0 where
  pub contents : Option ℕ
  pub in_strip : Bool
  pub audible : Bool
  pub can_reload : Bool
  pub started_inside : List ℕ
  pub handle : Option ℕ

-- The loop over the strip that passes over the active index.
unfoldable pub all_but : Option ℕ → ℕ → List ℕ → List ℕ
all_but active i [] = []
all_but none i (h ∷ hs) = h ∷ all_but none (i + 1) hs
all_but (some a) i (h ∷ hs) =
    let rest = all_but (some a) (i + 1) hs in if i == a then rest else h ∷ rest

abbrev pub first_of : Option ℕ → List ℕ
first_of none = []
first_of (some h) = h ∷ []

abbrev pub active_of : Option ℕ → List ℕ → Option ℕ
active_of none strip = none
active_of (some a) strip = get_elem? strip a

-- `active_index` is none for -1.
unfoldable pub snapshot_tabs : List ℕ → Option ℕ → List ℕ
unfolding all_but
snapshot_tabs strip active = first_of (active_of active strip) ++ all_but active 0 strip

unfoldable pub new_run : List ℕ → Option ℕ → RefreshRun
unfolding snapshot_tabs
new_run strip active = record {
  snapshot = snapshot_tabs strip active;
  current_index = 0;
  pending_handle = none;
  settle_gate = new_gate;
  observed = none;
}

unfoldable pub started_all : NavigationSettleGate → List ℕ → NavigationSettleGate
started_all g [] = g
started_all g (id ∷ ids) = started_all (on_navigation_started g id) ids

-- From the load on.
abbrev pub load : RefreshRun → ℕ → List ℕ → Option ℕ → RefreshRun × Bool
load r contents ids none = (
  record r {
    settle_gate = attempt_issued (started_all (begin_attempt r.settle_gate) ids) 0;
    observed = none;
  },
  false,
)
load r contents ids (some id) = (
  record r {
    settle_gate = attempt_issued (started_all (begin_attempt r.settle_gate) ids) id;
    pending_handle = some id;
    observed = some contents;
  },
  true,
)

abbrev pub load_found : RefreshRun → Found → Option ℕ → RefreshRun × Bool
load_found r found none = (r, false)
load_found r found (some contents) =
    if not found.in_strip
    then (r, false)
    else if found.audible
    then (r, false)
    else if not found.can_reload
    then (r, false)
    else load r contents found.started_inside found.handle

unfoldable pub start_item : RefreshRun → ℕ → Found → RefreshRun × Bool
unfolding started_all
start_item r index found =
    let cleared : RefreshRun = record r {
      current_index = index;
      pending_handle = none;
      settle_gate = reset r.settle_gate;
      observed = none;
    } in
    if leb (length r.snapshot) index then (r, false) else load_found cleared found found.contents

unfoldable pub did_start_navigation : RefreshRun → Bool → ℕ → RefreshRun
did_start_navigation r in_primary_main_frame id =
    if not in_primary_main_frame
    then r
    else record r { settle_gate = on_navigation_started r.settle_gate id }

abbrev pub is_alive : Option ℕ → Bool → Bool
is_alive none still_there = false
is_alive (some id) still_there = still_there

-- The index that is reported settled, if one is. A handle that is held may be gone.
unfoldable pub did_stop_loading : RefreshRun → Bool → RefreshRun × Option ℕ
did_stop_loading r still_there =
    let gate =
      if not (is_alive r.pending_handle still_there)
      then on_attempt_discarded r.settle_gate
      else r.settle_gate in
    let stopped = on_stop_loading gate in
    if not stopped.1 then (record r { settle_gate = stopped.0 }, none) else (
      record r { settle_gate = stopped.0; pending_handle = none; observed = none },
      some r.current_index,
    )

-- `OnRunFinished` and `OnBrowserClosing`, as far as the run itself.
unfoldable pub stop_observing : RefreshRun → RefreshRun
stop_observing r = record r { observed = none }

pub data Message : Type 0 where
  starts_item : ℕ → Found → Message
  navigation_starts : ℕ → Bool → ℕ → Message
  loading_stops : ℕ → Bool → Message
  ends : Message

abbrev pub is_observed : Option ℕ → ℕ → Bool
is_observed none contents = false
is_observed (some c) contents = c == contents

-- Whether a load began, and the index that is reported settled.
unfoldable pub receive : RefreshRun → Message → RefreshRun × (Bool × Option ℕ)
unfolding start_item did_start_navigation did_stop_loading stop_observing
receive r (starts_item index found) =
    let began = start_item r index found in (began.0, (began.1, none))
receive r (navigation_starts contents primary id) =
    if is_observed r.observed contents
    then (did_start_navigation r primary id, (false, none))
    else (r, (false, none))
receive r (loading_stops contents still_there) =
    let stopped = did_stop_loading r still_there in
    if is_observed r.observed contents then (stopped.0, (false, stopped.1)) else (r, (false, none))
receive r ends = (stop_observing r, (false, none))
