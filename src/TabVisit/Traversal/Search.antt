-- ===== src/TabVisit/Traversal/Search.antt =====
-- What the two index searches of the controller find, and the invariant of a gesture.
use roamux.Base.{
  ℕ, zero, suc, ◌+◌, ◌≤◌, ◌<◌, ◌≡◌, ◌⊎◌, inl, inr, Bool, true, false, some, List, [], ◌∷◌, arith,
  ◌==◌, Bool-cases, length, get_or,
}
use roamux.TabVisit.Traversal.{Controller, next_from, prev_below}

-- Between two gestures the controller is empty; during one the flags match the order, and the
-- cursor rests on the anchor or on a landable index.
pub record Inv (c : Controller) : Type 0 where
  pub lengths : length c.landable ≡ length c.frozen_order
  pub rests : (c.cursor ≡ 0) ⊎ (get_or c.landable c.cursor false ≡ true)

pub get_or-lt : (l : List Bool) (i : ℕ) → get_or l i false ≡ true → i < length l
get_or-lt [] i h = cc
get_or-lt (x ∷ l) zero h = omega arith
get_or-lt (x ∷ l) (suc i) h = omega (arith, get_or-lt l i h)

-- No index from `i` up to `j` is landable.
abbrev pub Gap : List Bool → ℕ → ℕ → Type 0
Gap l i j = (k : ℕ) → i ≤ k → k < j → get_or l k false ≡ false

pub next_from_sound :
    (l : List Bool) (j n k : ℕ)
    → next_from l j n ≡ some k
    → (j ≤ k) × (get_or l k false ≡ true) × Gap l j k
unfolding next_from
next_from_sound l j zero k h = cc
next_from_sound l j (suc n) k h = elim (Bool-cases (get_or l j false)) [
  | inl hit ↦ (ground arith, ground arith, λ m lo hi. ground arith)
  | inr miss ↦
      let ih = next_from_sound l (suc j) n k (ground arith) in
      (
        omega arith,
        ih.1,
        λ m lo hi. elim (Bool-cases (m == j)) [
          | inl e ↦ ground arith
          | inr ne ↦ ih.2 m (ground arith) hi
        ],
      )
]

pub prev_below_sound :
    (l : List Bool) (j k : ℕ)
    → prev_below l j ≡ some k
    → (k < j) × (get_or l k false ≡ true) × Gap l (suc k) j
unfolding prev_below
prev_below_sound l zero k h = cc
prev_below_sound l (suc j) k h = elim (Bool-cases (get_or l j false)) [
  | inl hit ↦ (ground arith, ground arith, λ m lo hi. ground arith)
  | inr miss ↦
      let ih = prev_below_sound l j k (ground arith) in
      (
        omega arith,
        ih.1,
        λ m lo hi. elim (Bool-cases (m == j)) [
          | inl e ↦ ground arith
          | inr ne ↦ ih.2 m lo (ground arith)
        ],
      )
]

-- The searches are complete: a landable index behind a gap is the one that they find.
pub next_from_complete :
    (l : List Bool) (j n k : ℕ)
    → j ≤ k
    → k < j + n
    → get_or l k false ≡ true
    → Gap l j k
    → next_from l j n ≡ some k
unfolding next_from
next_from_complete l j zero k lo hi h g = absurd (omega arith)
next_from_complete l j (suc n) k lo hi h g = elim (Bool-cases (k == j)) [
  | inl e ↦ ground arith
  | inr ne ↦
      let skip = g j (omega arith) (ground arith) in
      let rest =
        next_from_complete l (suc j) n k (ground arith) (omega arith) h
          (λ m a b. g m (omega arith) b) in
      ground arith
]

pub prev_below_complete :
    (l : List Bool) (j k : ℕ)
    → k < j
    → get_or l k false ≡ true
    → Gap l (suc k) j
    → prev_below l j ≡ some k
unfolding prev_below
prev_below_complete l zero k lt h g = absurd (omega arith)
prev_below_complete l (suc j) k lt h g = elim (Bool-cases (k == j)) [
  | inl e ↦ ground arith
  | inr ne ↦
      let skip = g j (ground arith) (omega arith) in
      let rest = prev_below_complete l j k (ground arith) h (λ m a b. g m a (omega arith)) in
      ground arith
]
