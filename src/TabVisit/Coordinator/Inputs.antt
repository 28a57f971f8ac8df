-- ===== src/TabVisit/Coordinator/Inputs.antt =====
-- What can happen to a coordinator, one call after another: the calls of its clients, its timer and
-- the replies of the journal. Each call that looks at the browser carries what it finds there.
use roamux.Base.{ℕ, String, Bool, List, [], ◌∷◌, ◌++◌, if◌then◌else◌}
use roamux.TabVisit.Store.{VisitRow, TabStateRow}
use roamux.TabVisit.Coordinator.{
  Coordinator, Browser, Effect, on_journal_loaded, record_settled_uid,
}
use roamux.TabVisit.Coordinator.Steps.{step_back, step_forward, settle_gesture, cancel_gesture}
use roamux.TabVisit.Coordinator.Sidecar.{
  add_reopenable, prepare_for_browsing_data_clear, on_browsing_data_cleared, on_reopenable_loaded,
}

pub data Input : Type 0 where
  loads_journal : List VisitRow → Input
  settles_uid : String → Input
  steps : Bool → Browser → Input
  settles : Browser → Input
  cancels : Input
  closes : TabStateRow → Input
  prepares_clear : Input
  was_cleared : Browser → Input
  loads_reopenable : ℕ → List TabStateRow → Input

unfoldable pub apply : Coordinator → Input → Coordinator × List Effect
apply c (loads_journal rows) = on_journal_loaded c rows
apply c (settles_uid uid) = (record_settled_uid c uid, [])
apply c (steps forwards b) =
    let r = if forwards then step_forward c b else step_back c b in (r.0.0, r.1)
apply c (settles b) = let r = settle_gesture c b in (r.0.0, r.1)
apply c cancels = (cancel_gesture c, [])
apply c (closes row) = add_reopenable c row
apply c prepares_clear = (prepare_for_browsing_data_clear c, [])
apply c (was_cleared b) = (c, on_browsing_data_cleared c b)
apply c (loads_reopenable generation rows) = on_reopenable_loaded c generation rows

unfoldable pub run : Coordinator → List Input → Coordinator × List Effect
unfolding apply
run c [] = (c, [])
run c (i ∷ inputs) = let rest = run (apply c i).0 inputs in (rest.0, (apply c i).1 ++ rest.1)
