-- ===== src/TabVisit/Coordinator.antt =====
-- The coordinator of one profile's tab traversal
-- (roamux/browser/tab_visit/tab_visit_traversal_coordinator.{h,cc}). What it asks of the browser is
-- an argument of the call (`Browser`), what it does to the browser or to the journal a list of
-- effects; a tab location is the uid that it was resolved from. The maps are lists of rows or pairs
-- with the key's first entry in force.
pub mod Steps
pub mod Sidecar
pub mod Inputs
pub mod Log
pub mod Gestures
pub mod Removal
mod Examples
use roamux.Base.{
  ℕ, String, Bool, true, false, not, ◌&&◌, ◌||◌, Option, none, some, List, [], ◌∷◌, ◌++◌,
  if◌then◌else◌, str_eq, is_empty, contains,
}
use roamux.TabVisit.Traversal.{Controller, new_controller}
use roamux.TabVisit.Store.{VisitRow, TabStateRow}

pub record Coordinator : Type 0 where
  pub controller : Controller
  pub settled_uid_log : List String
  pub anchor_uid : String
  pub traversal_active : Bool
  pub journal_loaded : Bool
  pub reopenable : List TabStateRow
  pub recently_reopened : List String
  pub reopenable_generation : ℕ
  pub reopened_url_by_uid : List (String × String)
  pub debounce_armed : Bool

-- The feature, the pref, the uids of the profile's open tabs, whether a journal and a window to
-- reopen in exist, what the reopening of a uid at a url answers (the open uids after it, if it
-- succeeds), and the urls.
pub record Browser : Type 0 where
  pub nav_enabled : Bool
  pub reopen_closed : Bool
  pub has_reopen_fn : Bool
  pub has_journal : Bool
  pub has_target : Bool
  pub live_uids : List String
  pub reopen_fn : String → String → Option (List String)
  pub committed_url : String → String
  pub is_recordable : String → Bool

pub data Effect : Type 0 where
  notify : Effect
  activate : String → Effect
  record_visit : String → String → Effect
  set_tab_state : TabStateRow → Effect
  get_all_tab_states : ℕ → Effect

pub new_coordinator : Coordinator
new_coordinator = record {
  controller = new_controller;
  settled_uid_log = [];
  anchor_uid = "";
  traversal_active = false;
  journal_loaded = false;
  reopenable = [];
  recently_reopened = [];
  reopenable_generation = 0;
  reopened_url_by_uid = [];
  debounce_armed = false;
}

-- `!log.empty() && log.back() == uid`.
abbrev pub last_is : List String → String → Bool
last_is [] uid = false
last_is (x ∷ []) uid = str_eq x uid
last_is (x ∷ (y ∷ ys)) uid = last_is (y ∷ ys) uid

pub push_unless_last : List String → String → List String
push_unless_last log uid = if last_is log uid then log else log ++ uid ∷ []

pub coalesce : List String → List String → List String
coalesce log [] = log
coalesce log (uid ∷ uids) = coalesce (push_unless_last log uid) uids

pub nonempty_uids : List VisitRow → List String
nonempty_uids [] = []
nonempty_uids (r ∷ rs) =
    let rest = nonempty_uids rs in if is_empty r.tab_uid then rest else r.tab_uid ∷ rest

pub on_journal_loaded : Coordinator → List VisitRow → Coordinator × List Effect
unfolding coalesce nonempty_uids
on_journal_loaded c rows = (
  record c {
    settled_uid_log = coalesce [] (nonempty_uids rows ++ c.settled_uid_log);
    journal_loaded = true;
  },
  notify ∷ [],
)

abbrev pub on_reachability_maybe_changed : Coordinator → List Effect
on_reachability_maybe_changed c = if c.journal_loaded then notify ∷ [] else []

unfoldable pub record_settled_uid : Coordinator → String → Coordinator
record_settled_uid c uid =
    if is_empty uid
    then c
    else if last_is c.settled_uid_log uid
    then c
    else record c { settled_uid_log = c.settled_uid_log ++ uid ∷ [] }

abbrev pub restore_keys : List TabStateRow → List String
restore_keys [] = []
restore_keys (r ∷ rs) = r.restore_key ∷ restore_keys rs

pub collect_reachable_uids : Coordinator → Browser → List String
collect_reachable_uids c b =
    if b.reopen_closed then b.live_uids ++ restore_keys c.reopenable else b.live_uids

pub find_row : String → List TabStateRow → Option TabStateRow
find_row uid [] = none
find_row uid (r ∷ rs) = if str_eq r.restore_key uid then some r else find_row uid rs

unfoldable pub erase_row : String → List TabStateRow → List TabStateRow
erase_row uid [] = []
erase_row uid (r ∷ rs) =
    let rest = erase_row uid rs in if str_eq r.restore_key uid then rest else r ∷ rest

-- `TryReopenClosedUid`, with the rebinding of the sidecar: whether it reopened, and the open uids
-- after it.
pub try_reopen_closed_uid :
    Coordinator → Browser → String → (Coordinator × Browser) × (Bool × List Effect)
unfolding find_row erase_row
try_reopen_closed_uid c b uid =
    if not b.reopen_closed || not b.has_reopen_fn
    then ((c, b), (false, []))
    else reopen_row (find_row uid c.reopenable)
  where
    reopened : TabStateRow → List String → (Coordinator × Browser) × (Bool × List Effect)
    reopened row live = (
      (
        record c {
          reopenable = erase_row row.restore_key c.reopenable;
          recently_reopened = row.restore_key ∷ c.recently_reopened;
          reopened_url_by_uid = (uid, row.last_known_url) ∷ c.reopened_url_by_uid;
        },
        record b { live_uids = live },
      ),
      (true, if b.has_journal then set_tab_state (record row { closed = false }) ∷ [] else []),
    )

    after_run : TabStateRow → Option (List String) → (Coordinator × Browser) × (Bool × List Effect)
    after_run row none = ((c, b), (false, []))
    after_run row (some live) = reopened row live

    reopen_row : Option TabStateRow → (Coordinator × Browser) × (Bool × List Effect)
    reopen_row none = ((c, b), (false, []))
    reopen_row (some row) =
        if not b.has_target
        then ((c, b), (false, []))
        else after_run row (b.reopen_fn uid row.last_known_url)

-- `ResolveUid`, as the test whether the uid is that of an open tab.
pub resolves : Browser → String → Bool
resolves b uid = not (is_empty uid) && contains b.live_uids uid

-- `ResolveUid`, and after a reopening again.
pub resolve_or_reopen :
    Coordinator → Browser → String → (Coordinator × Browser) × (Bool × List Effect)
unfolding resolves
resolve_or_reopen c b uid =
    let r = try_reopen_closed_uid c b uid in
    if resolves b uid
    then ((c, b), (true, []))
    else if r.1.0
    then (r.0, (resolves r.0.1 uid, r.1.1))
    else ((c, b), (false, []))
