-- ===== src/Updates/Machine/Examples.antt =====
-- The theorems about the update state machine at concrete inputs, over a scaled `double`.
use Prim.Native.Nat.{◌/◌}
use roamux.Base.{ℕ, ◌*◌, String, ◌≡◌, refl, ◌≢◌, true, List, [], ◌∷◌, ◌++◌, ltb, ℤ, pos}
use roamux.Updates.Machine.{
  UpdateEventType, on_check_started, on_update_found, on_download_started, on_download_progress,
  UpdateEvent, DoubleOps, new_machine, set_skipped_version, on_event, run,
}
use roamux.Updates.Machine.Progress.{InUnit, run-InUnit}
use roamux.Updates.Machine.Skipped.{run-skipped_never_offered}
use roamux.Updates.Machine.History.{found_in, run-offered_was_found}

-- Percentages stand for the quotients; only the order and the end points matter here.
abbrev percent : ℤ → ℤ → ℕ
percent (pos a) (pos b) = a * 100 / b
percent _ _ = 0

abbrev percents : DoubleOps ℕ
percents = record { zero_point = 0; one_point = 100; quotient = percent; less = ltb }

abbrev event : UpdateEventType → String → UpdateEvent
event t v = record {
  type = t;
  version = v;
  date = "2026-08-01";
  notes = "";
  error_text = "";
  received = pos 30;
  total = pos 40;
}

abbrev history : List UpdateEvent
history =
    event on_check_started "" ∷ event on_update_found "2.0" ∷ event on_download_started "" ∷ []

half_way :
    (run percents
      (new_machine percents)
      (history ++ event on_download_progress "" ∷ [])).snapshot.progress
    ≡ 75
unfolding run new_machine on_event
half_way = refl

run-InUnit_example : InUnit percents (run percents (new_machine percents) history).snapshot.progress
unfolding new_machine
run-InUnit_example = run-InUnit percents refl refl refl (new_machine percents) history (refl, refl)

run-skipped_never_offered_example :
    (run percents
      (set_skipped_version percents (new_machine percents) "1.9")
      history).snapshot.version
    ≢ "1.9"
unfolding run new_machine set_skipped_version on_event
run-skipped_never_offered_example = run-skipped_never_offered percents "1.9" history refl refl

run-offered_was_found_example : found_in "2.0" history ≡ true
unfolding run new_machine on_event
run-offered_was_found_example = run-offered_was_found percents history refl
