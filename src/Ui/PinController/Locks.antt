-- ===== src/Ui/PinController/Locks.antt =====
-- The two locks of the controller: taken and released in balance, and held as the flags say.
use roamux.Base.{
  ◌≡◌, refl, ap, ◌∙◌, ◌⊎◌, inl, inr, Bool, true, false, Option, none, some, List, [], ◌∷◌, ◌++◌,
  arith, if◌then◌else◌,
}
use roamux.Ui.PinController.{
  Effect, acquire_keep_expanded, release_keep_expanded, acquire_force_collapse,
  release_force_collapse, Answers, pin_peek, TabStripPinController, new_controller, Input, shortcut,
  lifecycle_reset, region_detached, step, run, effects,
}

-- The locks as the delegate holds them: the keep-expanded one and the force-collapse one.
pub record Held : Type 0 where
  pub keep : Bool
  pub collapse : Bool

-- One effect on the locks; to take a lock that is held or release one that is not is a fault.
unfoldable pub replay_one : Held → Effect → Option Held
replay_one h acquire_keep_expanded = if h.keep then none else some (record h { keep = true })
replay_one h release_keep_expanded = if h.keep then some (record h { keep = false }) else none
replay_one h acquire_force_collapse =
    if h.collapse then none else some (record h { collapse = true })
replay_one h release_force_collapse =
    if h.collapse then some (record h { collapse = false }) else none
replay_one h _ = some h

-- Effects in order, up to the first fault.
unfoldable pub replay : Option Held → List Effect → Option Held
unfolding replay_one
replay none es = none
replay (some h) [] = some h
replay (some h) (e ∷ es) = replay (replay_one h e) es

-- The locks that the flags stand for.
abbrev pub held : TabStripPinController → Held
held c = record { keep = c.pinned; collapse = c.suppressing }

pub record Inv (c : TabStripPinController) : Type 0 where
  pub armed_is_pinned : c.armed ≡ true → c.pinned ≡ true
  pub not_both : c.pinned ≡ true → c.suppressing ≡ false

-- An input keeps the invariant: only a pin is armed, and no pin is suppressed.
pub step-Inv : (c : TabStripPinController) (i : Input × Answers) → Inv c → Inv (step c i).0
unfolding step
step-Inv c (shortcut pin_peek, q) v = ground arith
step-Inv c (shortcut _, q) v = ground arith
step-Inv c (_, q) v = ground arith

-- The effects of one input lead from the locks of the old flags to those of the new.
step-replay :
    (c : TabStripPinController) (i : Input × Answers)
    → Inv c
    → replay (some (held c)) (step c i).1 ≡ some (held (step c i).0)
unfolding step replay
step-replay c (shortcut pin_peek, q) v = ground arith
step-replay c (shortcut _, q) v = ground arith
step-replay c (_, q) v = ground arith

replay-none : (es : List Effect) → replay none es ≡ none
unfolding replay
replay-none es = refl

replay-append :
    (h : Option Held) (es fs : List Effect) → replay h (es ++ fs) ≡ replay (replay h es) fs
unfolding replay
replay-append none es fs = refl
replay-append (some h) [] fs = refl
replay-append (some h) (e ∷ es) fs = replay-append (replay_one h e) es fs

replay_from :
    (c : TabStripPinController) (is : List (Input × Answers))
    → Inv c
    → replay (some (held c)) (effects c is) ≡ some (held (run c is))
unfolding effects run
replay_from c [] v = unfold replay in refl
replay_from c (i ∷ is) v =
    rw (replay-append (some (held c)) (step c i).1 (effects (step c i).0 is), step-replay c i v)
      (replay_from (step c i).0 is (step-Inv c i v))

-- Over any inputs and any answers of the delegate, from a new controller, no lock is taken twice
-- and none is released that is not held; at the end the keep-expanded lock is held exactly if the
-- strip is pinned, and the force-collapse lock exactly while the suppression lasts.
pub run-replay :
    (is : List (Input × Answers))
    → replay (some (record { keep = false; collapse = false })) (effects new_controller is)
      ≡ some (held (run new_controller is))
unfolding new_controller
run-replay is = replay_from new_controller is (ground arith)

run_from-Inv : (c : TabStripPinController) (is : List (Input × Answers)) → Inv c → Inv (run c is)
unfolding run
run_from-Inv c [] v = v
run_from-Inv c (i ∷ is) v = run_from-Inv (step c i).0 is (step-Inv c i v)

pub run-Inv : (is : List (Input × Answers)) → Inv (run new_controller is)
unfolding new_controller
run-Inv is = run_from-Inv new_controller is (ground arith)

reset_step :
    (c : TabStripPinController) (q : Answers) (i : Input)
    → (i ≡ lifecycle_reset) ⊎ (i ≡ region_detached)
    → (step c (i, q)).0 ≡ new_controller
unfolding step new_controller
reset_step c q i (inl e) = rw e
reset_step c q i (inr e) = rw e

-- Whatever came before, after a lifecycle reset or a detached region no lock is held and no pin,
-- arming or suppression is left.
reset-releases :
    (is : List (Input × Answers)) (q : Answers) (i : Input)
    → (i ≡ lifecycle_reset) ⊎ (i ≡ region_detached)
    → let es = effects new_controller is ++ (step (run new_controller is) (i, q)).1 in
      ((step (run new_controller is) (i, q)).0 ≡ new_controller)
      × (replay (some (record { keep = false; collapse = false })) es
          ≡ some (record { keep = false; collapse = false }))
unfolding new_controller
reset-releases is q i w =
    let before = run-replay is in
    let back = reset_step (run new_controller is) q i w in
    (
      back,
      rw (replay-append _ (effects new_controller is) _, before)
          (step-replay (run new_controller is) (i, q) (run-Inv is) ∙ ap (λ c. some (held c)) back),
    )
