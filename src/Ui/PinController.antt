-- ===== src/Ui/PinController.antt =====
-- The pin/peek state machine of the auto-hide vertical tab strip
-- (roamux/browser/ui/views/tabs/tab_strip_pin_controller.{h,cc}). A call of the delegate that has
-- an effect is an entry of the list that a method returns, in the order of the calls; what the
-- delegate answers to the queries of one method is its `Answers` argument.
pub mod Locks
pub mod Predicate
mod Examples
use roamux.Base.{ℕ, Bool, true, false, not, ◌||◌, List, [], ◌∷◌, ◌++◌, ltb, if◌then◌else◌}

pub data Effect : Type 0 where
  acquire_keep_expanded release_keep_expanded : Effect
  acquire_force_collapse release_force_collapse : Effect
  focus_strip force_collapse_now toggle_collapse_via_button_semantics : Effect

pub record Answers : Type 0 where
  pub external_keep_open_lock_count : ℕ
  pub is_pointer_inside_strip : Bool
  pub is_focus_inside_strip : Bool

pub data Mode : Type 0 where
  pin_peek plain_toggle disabled : Mode

pub record TabStripPinController : Type 0 where
  pub pinned : Bool
  pub armed : Bool
  pub suppressing : Bool

pub new_controller : TabStripPinController
new_controller = record { pinned = false; armed = false; suppressing = false }

pub explicit_unpin : TabStripPinController → Answers → TabStripPinController × List Effect
explicit_unpin c q =
    let c' = record c { pinned = false; armed = false } in
    if q.is_pointer_inside_strip
    then (
      record c' { suppressing = true },
      release_keep_expanded ∷ acquire_force_collapse ∷ force_collapse_now ∷ [],
    )
    else (c', release_keep_expanded ∷ force_collapse_now ∷ [])

pub maybe_unpin : TabStripPinController → Answers → TabStripPinController × List Effect
maybe_unpin c q =
    if not c.pinned || not c.armed
    then (c, [])
    else if q.is_pointer_inside_strip
        || q.is_focus_inside_strip
        || ltb 0 q.external_keep_open_lock_count
    then (c, [])
    else (record c { pinned = false; armed = false }, release_keep_expanded ∷ [])

pub on_shortcut : TabStripPinController → Mode → Answers → TabStripPinController × List Effect
unfolding explicit_unpin
on_shortcut c pin_peek q =
    if not c.pinned
    then (
      record c { pinned = true; armed = false; suppressing = false },
      (if c.suppressing then release_force_collapse ∷ [] else [])
          ++ acquire_keep_expanded ∷ focus_strip ∷ [],
    )
    else explicit_unpin c q
on_shortcut c plain_toggle q = (c, toggle_collapse_via_button_semantics ∷ [])
on_shortcut c disabled q = (c, [])

pub on_esc_in_strip : TabStripPinController → Answers → TabStripPinController × List Effect
unfolding explicit_unpin
on_esc_in_strip c q = if c.pinned then explicit_unpin c q else (c, [])

pub on_completed_interaction : TabStripPinController → Answers → TabStripPinController × List Effect
unfolding maybe_unpin
on_completed_interaction c q =
    if not c.pinned then (c, []) else maybe_unpin (record c { armed = true }) q

pub on_pointer_exit : TabStripPinController → Answers → TabStripPinController × List Effect
unfolding maybe_unpin
on_pointer_exit c q =
    let r = maybe_unpin (record c { suppressing = false }) q in
    (r.0, (if c.suppressing then release_force_collapse ∷ [] else []) ++ r.1)

pub on_focus_changed : TabStripPinController → Answers → TabStripPinController × List Effect
unfolding maybe_unpin
on_focus_changed c q = maybe_unpin c q

pub on_external_lock_released :
    TabStripPinController → Answers → TabStripPinController × List Effect
unfolding maybe_unpin
on_external_lock_released c q = maybe_unpin c q

pub on_lifecycle_reset : TabStripPinController → TabStripPinController × List Effect
on_lifecycle_reset c = (
  record { pinned = false; armed = false; suppressing = false },
  (if c.pinned then release_keep_expanded ∷ [] else [])
      ++ (if c.suppressing then release_force_collapse ∷ [] else []),
)

pub on_region_detached : TabStripPinController → TabStripPinController × List Effect
unfolding on_lifecycle_reset
on_region_detached c = on_lifecycle_reset c

pub data Input : Type 0 where
  shortcut : Mode → Input
  esc_in_strip completed_interaction pointer_exit focus_changed : Input
  external_lock_released lifecycle_reset region_detached : Input

pub step : TabStripPinController → Input × Answers → TabStripPinController × List Effect
unfolding on_shortcut on_esc_in_strip on_completed_interaction on_pointer_exit on_focus_changed
    on_external_lock_released on_lifecycle_reset on_region_detached
step c (shortcut m, q) = on_shortcut c m q
step c (esc_in_strip, q) = on_esc_in_strip c q
step c (completed_interaction, q) = on_completed_interaction c q
step c (pointer_exit, q) = on_pointer_exit c q
step c (focus_changed, q) = on_focus_changed c q
step c (external_lock_released, q) = on_external_lock_released c q
step c (lifecycle_reset, q) = on_lifecycle_reset c
step c (region_detached, q) = on_region_detached c

pub run : TabStripPinController → List (Input × Answers) → TabStripPinController
run c [] = c
run c (i ∷ is) = run (step c i).0 is

-- All effects of a run, in order.
pub effects : TabStripPinController → List (Input × Answers) → List Effect
effects c [] = []
effects c (i ∷ is) = (step c i).1 ++ effects (step c i).0 is
