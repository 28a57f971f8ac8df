-- ===== src/TabVisit/Traversal/Inverse.antt =====
-- Back and Forward undo one another, and every operation keeps the invariant.
use roamux.Base.{
  suc, ◌-◌, String, ◌≡◌, refl, inl, inr, some, List, arith, Option-cases, length, length-map,
  contains,
}
use roamux.TabVisit.Traversal.{
  derive_mru_order, Controller, begin_gesture, next_from, next_landable_after, prev_below,
  prev_landable_before, back, forward, current, settle,
}
use roamux.TabVisit.Traversal.Search.{
  Inv, get_or-lt, next_from_sound, prev_below_sound, next_from_complete, prev_below_complete,
}

-- The operations of a gesture, as a client makes them.
pub data Op : Type 0 where
  begins : List String → List String → Op
  goes_back goes_forward settles : Op

pub apply : Controller → Op → Controller
apply c (begins journal reachable) = begin_gesture c journal reachable
apply c goes_back = (back c).0
apply c goes_forward = (forward c).0
apply c settles = (settle c).0

pub back-Inv : {c : Controller} → Inv c → Inv (back c).0
unfolding back next_landable_after
back-Inv {c} v =
    elim (Option-cases (next_from c.landable (suc c.cursor) (length c.landable - suc c.cursor))) [
      | inl e ↦ rw e v
      | inr (k, e) ↦
          rw e (record { lengths = v.lengths; rests = inr (next_from_sound c.landable _ _ k e).1 })
    ]

pub forward-Inv : {c : Controller} → Inv c → Inv (forward c).0
unfolding forward prev_landable_before
forward-Inv {c} v = elim (Option-cases (prev_below c.landable c.cursor)) [
  | inl e ↦ rw e v
  | inr (k, e) ↦
      rw e (record { lengths = v.lengths; rests = inr (prev_below_sound c.landable _ k e).1 })
]

pub begin_gesture-Inv :
    (c : Controller) (journal reachable : List String)
    → Inv c
    → Inv (begin_gesture c journal reachable)
unfolding begin_gesture
begin_gesture-Inv c journal reachable v =
    ground (arith, length-map (contains reachable) (derive_mru_order journal))

-- Every operation keeps the flags as long as the order, and the cursor on the anchor or on a
-- landable index.
apply-Inv : (c : Controller) (o : Op) → Inv c → Inv (apply c o)
unfolding apply
apply-Inv c (begins journal reachable) v = begin_gesture-Inv c journal reachable v
apply-Inv c goes_back v = back-Inv v
apply-Inv c goes_forward v = forward-Inv v
apply-Inv c settles v = unfold settle in record { lengths = refl; rests = inl refl }

-- Forward undoes Back: where a gesture rests on a landable tab, a Back that lands can be undone
-- by one Forward, which lands on that tab again and restores the whole gesture.
pub forward-back :
    (c : Controller) (u v : String)
    → Inv c
    → current c ≡ some u
    → (back c).1 ≡ some v
    → forward (back c).0 ≡ (c, some u)
unfolding back forward next_landable_after prev_landable_before current
forward-back c u v i here step =
    elim (Option-cases (next_from c.landable (suc c.cursor) (length c.landable - suc c.cursor))) [
      | inl e ↦ absurd (ground arith)
      | inr (k, e) ↦
          let (lo, _, gap) = next_from_sound c.landable (suc c.cursor) _ k e in
          let found = prev_below_complete c.landable k c.cursor (omega arith) (ground arith) gap in
          ground arith
    ]

-- Back undoes Forward in the same way, from every gesture.
back-forward :
    (c : Controller) (u v : String)
    → Inv c
    → current c ≡ some u
    → (forward c).1 ≡ some v
    → back (forward c).0 ≡ (c, some u)
unfolding back forward next_landable_after prev_landable_before current
back-forward c u v i here step = elim (Option-cases (prev_below c.landable c.cursor)) [
  | inl e ↦ absurd (ground arith)
  | inr (k, e) ↦
      let (lo, _, gap) = prev_below_sound c.landable c.cursor k e in
      let inside = get_or-lt c.landable c.cursor (ground arith) in
      let found =
        next_from_complete c.landable (suc k) (length c.landable - suc k) c.cursor lo (omega arith)
          (ground arith) gap in
      ground arith
]
