-- ===== src/Ui/PinController/Predicate.antt =====
-- When a pin dissolves, and when the suppression ends.
use roamux.Base.{◌≡◌, Bool, true, false, not, ◌&&◌, ◌||◌, arith, ltb}
use roamux.Ui.PinController.{
  Answers, TabStripPinController, Input, completed_interaction, pointer_exit, focus_changed,
  external_lock_released, step,
}

-- Something holds the strip open.
abbrev pub in_use : Answers → Bool
in_use q =
    q.is_pointer_inside_strip || q.is_focus_inside_strip || ltb 0 q.external_keep_open_lock_count

-- The inputs at which the controller looks at the predicate.
abbrev pub evaluates : Input → Bool
evaluates completed_interaction = true
evaluates pointer_exit = true
evaluates focus_changed = true
evaluates external_lock_released = true
evaluates _ = false

-- Whether the pin is armed when the predicate is read: a completed interaction arms it first.
abbrev pub armed_at : Input → Bool → Bool
armed_at completed_interaction armed = true
armed_at _ armed = armed

-- The suppression after an input that looks at the predicate: a pointer exit ends it.
abbrev pub suppressed_after : Input → Bool → Bool
suppressed_after pointer_exit s = false
suppressed_after _ s = s

-- At an input that looks at the predicate, a pin stays exactly if it is not armed (by this input
-- or before) or something holds the strip open, and the suppression ends exactly at a pointer exit.
pub pin_dissolves_iff :
    (c : TabStripPinController) (i : Input) (q : Answers)
    → evaluates i ≡ true
    → ((step c (i, q)).0.pinned ≡ (c.pinned && (not (armed_at i c.armed) || in_use q)))
      × ((step c (i, q)).0.suppressing ≡ suppressed_after i c.suppressing)
unfolding step
pin_dissolves_iff c completed_interaction q h = ground arith
pin_dissolves_iff c _ q h = ground arith
