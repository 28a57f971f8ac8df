-- ===== src/Tabs/SettleGate.antt =====
-- The completion gate of one tab's refresh (roamux/browser/tabs/navigation_settle_gate.{h,cc}).
-- Navigation ids are only compared, so they are plain numbers; 0 is no navigation.
pub mod Phases
pub mod Counts
mod Examples
use roamux.Base.{ℕ, Bool, true, false, not, ◌&&◌, ◌==◌, if◌then◌else◌}

pub record NavigationSettleGate : Type 0 where
  pub in_load_call : Bool
  pub buffered_start_id : ℕ
  pub navigation_id : ℕ
  pub started : Bool

unfoldable pub new_gate : NavigationSettleGate
new_gate = record {
  in_load_call = false;
  buffered_start_id = 0;
  navigation_id = 0;
  started = false;
}

unfoldable pub begin_attempt : NavigationSettleGate → NavigationSettleGate
begin_attempt g = record {
  in_load_call = true;
  buffered_start_id = 0;
  navigation_id = 0;
  started = false;
}

unfoldable pub attempt_issued : NavigationSettleGate → ℕ → NavigationSettleGate
attempt_issued g id =
    let g' = record g { in_load_call = false; navigation_id = id; buffered_start_id = 0 } in
    if id == 0
    then g'
    else if not (g.buffered_start_id == 0) && g.buffered_start_id == id
    then record g' { started = true }
    else g'

unfoldable pub on_navigation_started : NavigationSettleGate → ℕ → NavigationSettleGate
on_navigation_started g id =
    if g.in_load_call
    then record g { buffered_start_id = id }
    else if not (g.navigation_id == 0) && id == g.navigation_id
    then record g { started = true }
    else g

unfoldable pub on_stop_loading : NavigationSettleGate → NavigationSettleGate × Bool
on_stop_loading g =
    if g.in_load_call
    then (g, false)
    else if not g.started
    then (g, false)
    else (record g { started = false; navigation_id = 0 }, true)

unfoldable pub on_attempt_discarded : NavigationSettleGate → NavigationSettleGate
on_attempt_discarded g = if not g.started then record g { navigation_id = 0 } else g

unfoldable pub reset : NavigationSettleGate → NavigationSettleGate
reset g = record { in_load_call = false; buffered_start_id = 0; navigation_id = 0; started = false }

pub is_pending : NavigationSettleGate → Bool
is_pending g = not (g.navigation_id == 0) && not g.started

-- The calls that the gate receives. A load is one call, so `issued` closes what `begins` opened.
pub data Call : Type 0 where
  begins : Call
  issued : ℕ → Call
  starts : ℕ → Call
  stops discards resets : Call

pub step : NavigationSettleGate → Call → NavigationSettleGate × Bool
unfolding begin_attempt attempt_issued on_navigation_started on_stop_loading on_attempt_discarded
    reset
step g begins = (begin_attempt g, false)
step g (issued id) = (attempt_issued g id, false)
step g (starts id) = (on_navigation_started g id, false)
step g stops = on_stop_loading g
step g discards = (on_attempt_discarded g, false)
step g resets = (reset g, false)
