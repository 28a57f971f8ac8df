-- ===== src/TabVisit/Coordinator/Examples.antt =====
-- The theorems about the coordinator over a journal of two tabs, a gesture and a clear.
use roamux.Base.{◌+◌, ◌≤◌, ◌≡◌, refl, true, false, not, some, List, [], ◌∷◌, arith, is_empty, pos}
use roamux.TabVisit.Store.{VisitRow, TabStateRow}
use roamux.TabVisit.Coordinator.{
  Coordinator, Browser, new_coordinator, push_unless_last, coalesce, nonempty_uids,
  on_journal_loaded, record_settled_uid,
}
use roamux.TabVisit.Coordinator.Sidecar.{prepare_for_browsing_data_clear}
use roamux.TabVisit.Coordinator.Inputs.{
  Input, loads_journal, settles_uid, steps, settles, loads_reopenable, apply, run,
}
use roamux.TabVisit.Coordinator.Log.{Coalesced, run-Coalesced}
use roamux.TabVisit.Coordinator.Gestures.{visits_in, count, gestures, visits-le-gestures}
use roamux.TabVisit.Coordinator.Removal.{prepare-run-empty}

abbrev window : Browser
window = record {
  nav_enabled = true;
  reopen_closed = true;
  has_reopen_fn = true;
  has_journal = true;
  has_target = true;
  live_uids = "a" ∷ "b" ∷ [];
  reopen_fn = λ uid url. some (uid ∷ "a" ∷ "b" ∷ []);
  committed_url = λ uid. uid;
  is_recordable = λ url. not (is_empty url);
}

abbrev row_a : VisitRow
row_a = record { id = 1; tab_uid = "a"; url = "a"; visited_at = pos 1 }

abbrev row_b : VisitRow
row_b = record { id = 2; tab_uid = "b"; url = "b"; visited_at = pos 2 }

abbrev closed_c : TabStateRow
closed_c = record { restore_key = "c"; closed = true; window_id = pos 1; last_known_url = "c" }

abbrev session : List Input
session =
    loads_journal (row_a ∷ row_b ∷ row_b ∷ [])
    ∷ steps false window
    ∷ settles window
    ∷ settles_uid "a"
    ∷ settles_uid "b"
    ∷ []

run-logs :
    (run new_coordinator (
      loads_journal (row_a ∷ row_b ∷ row_b ∷ [])
      ∷ settles_uid "a"
      ∷ settles_uid "a"
      ∷ [])).0.settled_uid_log
    ≡ "a" ∷ "b" ∷ "a" ∷ []
unfolding run apply new_coordinator on_journal_loaded coalesce push_unless_last nonempty_uids
    record_settled_uid
run-logs = refl

run-Coalesced_example : Coalesced (run new_coordinator session).0.settled_uid_log
run-Coalesced_example = run-Coalesced new_coordinator session (unfold new_coordinator in tt)

visits-le-gestures_example :
    visits_in (run new_coordinator session).1
    ≤ count new_coordinator.traversal_active + gestures new_coordinator session
visits-le-gestures_example = visits-le-gestures new_coordinator session

abbrev with_closed : Coordinator
with_closed = record new_coordinator { reopenable = closed_c ∷ []; reopenable_generation = 4 }

abbrev late_reply : List Input
late_reply = loads_reopenable 4 (closed_c ∷ []) ∷ steps false window ∷ []

prepare-run-empty_example :
    ((run (prepare_for_browsing_data_clear with_closed) late_reply).0.reopenable ≡ [])
    × ((run (prepare_for_browsing_data_clear with_closed) late_reply).0.reopened_url_by_uid ≡ [])
prepare-run-empty_example = prepare-run-empty with_closed late_reply (omega arith, tt)
