-- ===== src/TabVisit/Traversal/Walk.antt =====
-- A whole gesture: what stepping Back to the end visits.
use roamux.Base.{
  ℕ, zero, suc, ◌+◌, ◌-◌, ◌≤◌, ◌<◌, String, ◌≡◌, refl, sym, ap, ◌∙◌, ◌≢◌, ◌⊎◌, inl, inr, true,
  false, none, some, List, [], ◌∷◌, map, arith, if◌then◌else◌, Bool-cases, has_value, length,
  get_or, drop, drop-cons, length-drop, length-map, drop-map, contains,
}
use roamux.TabVisit.Traversal.{
  derive_mru_order, any_reachable, can_begin_back_traversal, Controller, begin_gesture, next_from,
  next_landable_after, back,
}

-- The identities that stepping Back visits until it is disabled, on fuel.
pub visits_back : ℕ → Controller → List String
visits_back zero c = []
visits_back (suc fuel) c =
    let rest = visits_back fuel (back c).0 in elim (back c).1 [ none ↦ [] | some v ↦ v ∷ rest ]

-- The reachable identities of a list, in its order.
pub only_reachable : List String → List String → List String
only_reachable reachable [] = []
only_reachable reachable (x ∷ xs) =
    if contains reachable x then x ∷ only_reachable reachable xs else only_reachable reachable xs

-- The search from an index against the elements behind it.
next_from-Finds :
    (reachable xs order : List String) (j n : ℕ)
    → drop j order ≡ xs
    → length xs ≡ n
    → let r = next_from (map (contains reachable) order) j n in
      ((r ≡ none) × (only_reachable reachable xs ≡ []))
      ⊎ ((k : ℕ) × (r ≡ some k)
          × (j ≤ k)
          × (k < j + n)
          × (only_reachable reachable xs
              ≡ get_or order k "" ∷ only_reachable reachable (drop (suc k) order)))
unfolding next_from only_reachable
next_from-Finds reachable [] order j zero e l = inl (refl, refl)
next_from-Finds reachable [] order j (suc n) e l = absurd (omega arith)
next_from-Finds reachable (x ∷ xs) order j zero e l = absurd (omega arith)
next_from-Finds reachable (x ∷ xs) order j (suc n) e l =
    let (here, behind) = drop-cons j order "" x xs e in
    let flag =
      (drop-cons j (map (contains reachable) order) false (contains reachable x)
        (map (contains reachable) xs)
        (drop-map (contains reachable) j order ∙ ap (map (contains reachable)) e)).0 in
    elim (Bool-cases (contains reachable x)) [
      | inl hit ↦ inr (j, ground arith, omega arith, omega arith, ground arith)
      | inr miss ↦ elim (next_from-Finds reachable xs order (suc j) n behind (omega arith)) [
        | inl (a, b) ↦ inl (ground arith, ground arith)
        | inr (k, a, lo, hi, b) ↦ inr (k, ground arith, omega arith, omega arith, ground arith)
      ]
    ]

-- A gesture over an order and a set, with the cursor at an index.
abbrev pub frozen : List String → List String → ℕ → Controller
frozen reachable order i = record {
  frozen_order = order;
  landable = map (contains reachable) order;
  cursor = i;
  active = true;
}

back-Finds :
    (reachable order : List String) (i : ℕ)
    → ((back (frozen reachable order i) ≡ (frozen reachable order i, none))
        × (only_reachable reachable (drop (suc i) order) ≡ []))
      ⊎ ((k : ℕ) × (v : String) × (back (frozen reachable order i)
            ≡ (frozen reachable order k, some v))
          × (i < k)
          × (k < length order)
          × (only_reachable reachable (drop (suc i) order)
              ≡ v ∷ only_reachable reachable (drop (suc k) order)))
unfolding back next_landable_after
back-Finds reachable order i =
    let n = length order - suc i in
    let e = length-map (contains reachable) order in
    elim (next_from-Finds reachable (drop (suc i) order) order (suc i) n refl
      (length-drop (suc i) order)) [
        | inl (a, b) ↦ inl (rw (e, a) refl, b)
        | inr (k, a, lo, hi, b) ↦
            inr (k, get_or order k "", rw (e, a) refl, omega arith, omega arith, b)
      ]

visits_back-frozen :
    (reachable order : List String) (fuel i : ℕ)
    → length order ≤ i + fuel
    → visits_back fuel (frozen reachable order i) ≡ only_reachable reachable (drop (suc i) order)
unfolding visits_back
visits_back-frozen reachable order zero i h = elim (back-Finds reachable order i) [
  | inl (a, b) ↦ sym b
  | inr (k, v, a, lo, hi, b) ↦ absurd (omega arith)
]
visits_back-frozen reachable order (suc fuel) i h = elim (back-Finds reachable order i) [
  | inl (a, b) ↦ rw (a, visits_back) (sym b)
  | inr (k, v, a, lo, hi, b) ↦
      ground (arith, visits_back-frozen reachable order fuel k (omega arith))
]

-- From an idle controller, a gesture stepped Back to the end lands on every reachable tab of the
-- derived order behind the anchor, in that order, each once, and on nothing else; the length of
-- the order is fuel enough.
pub visits_back-eq-only_reachable :
    (c : Controller) (journal reachable : List String)
    → c.active ≡ false
    → let order = derive_mru_order journal in
      visits_back (length order) (begin_gesture c journal reachable)
      ≡ only_reachable reachable (drop 1 order)
unfolding begin_gesture
visits_back-eq-only_reachable c journal reachable idle = rw idle (
    visits_back-frozen reachable (derive_mru_order journal) (length (derive_mru_order journal)) 0
      (omega arith))

any_reachable-only_reachable :
    (reachable xs : List String)
    → ((any_reachable reachable xs ≡ true) × (only_reachable reachable xs ≢ []))
      ⊎ ((any_reachable reachable xs ≡ false) × (only_reachable reachable xs ≡ []))
unfolding only_reachable
any_reachable-only_reachable reachable [] = inr (refl, refl)
any_reachable-only_reachable reachable (x ∷ xs) =
    ground (arith, any_reachable-only_reachable reachable xs)

-- The command is enabled before a gesture exactly when a first Back of that gesture lands.
pub can_begin_back_traversal-eq-back :
    (c : Controller) (journal reachable : List String)
    → c.active ≡ false
    → can_begin_back_traversal journal reachable
      ≡ has_value (back (begin_gesture c journal reachable)).1
unfolding can_begin_back_traversal begin_gesture
can_begin_back_traversal-eq-back c journal reachable idle =
    let spec = any_reachable-only_reachable reachable (drop 1 (derive_mru_order journal)) in
    rw idle (elim (back-Finds reachable (derive_mru_order journal) 0) [
      | inl (a, b) ↦ rw a (ground arith)
      | inr (k, v, a, lo, hi, b) ↦ rw a (ground arith)
    ])
