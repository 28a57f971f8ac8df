-- ===== src/Ui/PinController/Examples.antt =====
-- The theorems about the pin controller: a pin, an interaction with the pointer inside, the exit.
use roamux.Base.{◌≡◌, refl, true, false, some, List, [], ◌∷◌}
use roamux.Ui.PinController.{
  acquire_keep_expanded, release_keep_expanded, focus_strip, Answers, pin_peek,
  TabStripPinController, new_controller, Input, shortcut, completed_interaction, pointer_exit,
  focus_changed, step, run, effects,
}
use roamux.Ui.PinController.Locks.{replay, held, run-replay}
use roamux.Ui.PinController.Predicate.{pin_dissolves_iff}

abbrev inside : Answers
inside = record {
  external_keep_open_lock_count = 0;
  is_pointer_inside_strip = true;
  is_focus_inside_strip = false;
}

abbrev outside : Answers
outside = record {
  external_keep_open_lock_count = 0;
  is_pointer_inside_strip = false;
  is_focus_inside_strip = false;
}

abbrev visit : List (Input × Answers)
visit =
    (shortcut pin_peek, outside) ∷ (completed_interaction, inside) ∷ (pointer_exit, outside) ∷ []

effects-visit :
    effects new_controller visit ≡ acquire_keep_expanded ∷ focus_strip ∷ release_keep_expanded ∷ []
unfolding effects new_controller step
effects-visit = refl

abbrev armed_pin : TabStripPinController
armed_pin = record { pinned = true; armed = true; suppressing = false }

run-replay_example :
    replay (some (record { keep = false; collapse = false })) (effects new_controller visit)
    ≡ some (held (run new_controller visit))
run-replay_example = run-replay visit

pin_dissolves_iff_example : (step armed_pin (focus_changed, outside)).0.pinned ≡ false
pin_dissolves_iff_example = (pin_dissolves_iff armed_pin focus_changed outside refl).0
