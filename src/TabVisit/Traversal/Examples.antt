-- ===== src/TabVisit/Traversal/Examples.antt =====
-- The theorems about the traversal at a journal of five visits over three tabs.
use roamux.Base.{String, ◌≡◌, refl, inr, true, some, List, [], ◌∷◌, has_value, length, drop}
use roamux.TabVisit.Traversal.{
  derive_mru_order, can_begin_back_traversal, Controller, new_controller, begin_gesture,
  next_landable_after, back, forward, current,
}
use roamux.TabVisit.Traversal.Mru.{move_to_front, derive_mru_order-eq-move_to_front}
use roamux.TabVisit.Traversal.Search.{Inv}
use roamux.TabVisit.Traversal.Inverse.{forward-back}
use roamux.TabVisit.Traversal.Walk.{
  visits_back, only_reachable, visits_back-eq-only_reachable, can_begin_back_traversal-eq-back,
}

abbrev journal : List String
journal = "a" ∷ "b" ∷ "a" ∷ "c" ∷ "b" ∷ []

abbrev live : List String
live = "a" ∷ "b" ∷ "c" ∷ []

abbrev walking : Controller
walking = record {
  frozen_order = "b" ∷ "c" ∷ "a" ∷ [];
  landable = true ∷ true ∷ true ∷ [];
  cursor = 1;
  active = true;
}

walking-Inv : Inv walking
walking-Inv = record { lengths = refl; rests = inr refl }

mru_of_journal : derive_mru_order journal ≡ "b" ∷ "c" ∷ "a" ∷ []
unfolding derive_mru_order
mru_of_journal = refl

derive_mru_order-eq-move_to_front_example : derive_mru_order journal ≡ move_to_front [] journal
derive_mru_order-eq-move_to_front_example = derive_mru_order-eq-move_to_front journal

forward-back_example : forward (back walking).0 ≡ (walking, some "c")
unfolding back current next_landable_after
forward-back_example = forward-back walking "c" "a" walking-Inv refl refl

visits_back-eq-only_reachable_example :
    visits_back
      (length (derive_mru_order journal))
      (begin_gesture new_controller journal ("a" ∷ []))
    ≡ only_reachable ("a" ∷ []) (drop 1 (derive_mru_order journal))
unfolding new_controller
visits_back-eq-only_reachable_example =
    visits_back-eq-only_reachable new_controller journal ("a" ∷ []) refl

can_begin_back_traversal-eq-back_example :
    can_begin_back_traversal journal live
    ≡ has_value (back (begin_gesture new_controller journal live)).1
unfolding new_controller
can_begin_back_traversal-eq-back_example =
    can_begin_back_traversal-eq-back new_controller journal live refl
