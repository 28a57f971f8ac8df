-- ===== src/Base/Sorting.antt =====
-- A list sorted by a comparison has the same members, and the first that passes a test is the least.
use mathlib.Core.Path.{◌≡◌, subst, sym}
use mathlib.Core.Logic.{◌↔◌, ◌⊎◌, inl, inr}
use mathlib.Core.Bool.{Bool, true, false}
use mathlib.Core.List.{List, [], ◌∷◌, Memᴰ}
use mathlib.Core.List.Memᴰ
use mathlib.Core.Option.{Option, none, some}
use native.Mathlib.Omega.{arith}
use roamux.Base.Tests.{Bool-cases, if_intro}
use roamux.Base.Orders.{StrictWeak, insert, sort}

-- The loop that returns the first element that passes.
unfoldable pub find_first {ℓ} : {A : Type ℓ} → (A → Bool) → List A → Option A
find_first p [] = none
find_first p (x ∷ xs) = elim (p x) [ true ↦ some x | false ↦ find_first p xs ]

module _ {A : Type 0} (less : A → A → Bool) where
  insert-cases : (x c : A) (ys : List A) → Memᴰ c (insert less x ys) → (c ≡ x) ⊎ Memᴰ c ys
  unfolding insert
  insert-cases x c [] = λ m. Memᴰ.cases_cons m
  insert-cases x c (y ∷ ys) =
      if_intro (λ (r : List A). Memᴰ c r → (c ≡ x) ⊎ Memᴰ c (y ∷ ys)) (less x y) (x ∷ (y ∷ ys))
        (y ∷ insert less x ys) (λ e m. Memᴰ.cases_cons m)
        (λ e m. elim (Memᴰ.cases_cons m) [
          | inl k ↦ inr (Memᴰ.head k)
          | inr k ↦ elim (insert-cases x c ys k) [ inl n ↦ inl n | inr n ↦ inr (Memᴰ.tail n) ]
        ])

  insert-has : (x c : A) (ys : List A) → (c ≡ x) ⊎ Memᴰ c ys → Memᴰ c (insert less x ys)
  unfolding insert
  insert-has x c [] (inl e) = Memᴰ.head e
  insert-has x c [] (inr m) = absurd (Memᴰ.not-nil m)
  insert-has x c (y ∷ ys) (inl e) =
      if_intro (Memᴰ c) (less x y) (x ∷ (y ∷ ys)) (y ∷ insert less x ys) (λ k. Memᴰ.head e)
        (λ k. Memᴰ.tail (insert-has x c ys (inl e)))
  insert-has x c (y ∷ ys) (inr (Memᴰ.head e)) =
      if_intro (Memᴰ c) (less x y) (x ∷ (y ∷ ys)) (y ∷ insert less x ys)
        (λ k. Memᴰ.tail (Memᴰ.head e)) (λ k. Memᴰ.head e)
  insert-has x c (y ∷ ys) (inr (Memᴰ.tail m)) =
      if_intro (Memᴰ c) (less x y) (x ∷ (y ∷ ys)) (y ∷ insert less x ys)
        (λ k. Memᴰ.tail (Memᴰ.tail m)) (λ k. Memᴰ.tail (insert-has x c ys (inr m)))

  pub sort-mem_iff : (xs : List A) (c : A) → Memᴰ c (sort less xs) ↔ Memᴰ c xs
  unfolding sort
  sort-mem_iff [] c = (λ m. m, λ m. m)
  sort-mem_iff (x ∷ xs) c = (
    λ m. elim (insert-cases x c (sort less xs) m) [
      | inl e ↦ Memᴰ.head e
      | inr k ↦ Memᴰ.tail ((sort-mem_iff xs c).0 k)
    ],
    λ m. elim (Memᴰ.cases_cons m) [
      | inl e ↦ insert-has x c (sort less xs) (inl e)
      | inr k ↦ insert-has x c (sort less xs) (inr ((sort-mem_iff xs c).1 k))
    ],
  )

  abbrev pub IsSorted : List A → Type 0
  IsSorted [] = Unit
  IsSorted (x ∷ xs) = ((c : A) → Memᴰ c xs → less c x ≡ false) × IsSorted xs

  insert-IsSorted :
      (order : StrictWeak less) (x : A) (ys : List A) → IsSorted ys → IsSorted (insert less x ys)
  unfolding insert
  insert-IsSorted order x [] v = (λ c m. absurd (Memᴰ.not-nil m), tt)
  insert-IsSorted order x (y ∷ ys) v =
      if_intro IsSorted (less x y) (x ∷ (y ∷ ys)) (y ∷ insert less x ys)
        (λ e. (
          λ c m. elim (Memᴰ.cases_cons m) [
            | inl k ↦ subst (λ z. less z x ≡ false) (sym k) (order.asym x y e)
            | inr k ↦ ground (arith, v.0 c k, order.asym x y e, order.cotrans c y x)
          ],
          v,
        ))
        (λ e. (
          λ c m. elim (insert-cases x c ys m) [
            | inl k ↦ subst (λ z. less z y ≡ false) (sym k) e
            | inr k ↦ v.0 c k
          ],
          insert-IsSorted order x ys v.1,
        ))

  pub sort-IsSorted : (order : StrictWeak less) (xs : List A) → IsSorted (sort less xs)
  unfolding sort
  sort-IsSorted order [] = tt
  sort-IsSorted order (x ∷ xs) = insert-IsSorted order x (sort less xs) (sort-IsSorted order xs)

module _ {A : Type 0} (p : A → Bool) where
  pub find_first-none : (xs : List A) → find_first p xs ≡ none → (c : A) → Memᴰ c xs → p c ≡ false
  unfolding find_first
  find_first-none [] h c m = absurd (Memᴰ.not-nil m)
  find_first-none (x ∷ xs) h c m = elim (Bool-cases (p x)) [
    | inl e ↦ absurd (ground (arith, h, e))
    | inr e ↦ elim (Memᴰ.cases_cons m) [
      | inl k ↦ subst (λ z. p z ≡ false) (sym k) e
      | inr k ↦ find_first-none xs (ground (arith, h, e)) c k
    ]
  ]

  pub find_first-passes :
      (xs : List A) (d : A) → find_first p xs ≡ some d → (p d ≡ true) × Memᴰ d xs
  unfolding find_first
  find_first-passes [] d h = absurd (ground (arith, h))
  find_first-passes (x ∷ xs) d h = elim (Bool-cases (p x)) [
    | inl e ↦ same x xs d e (ground (arith, h, e))
    | inr e ↦ let rest = find_first-passes xs d (ground (arith, h, e)) in (rest.0, Memᴰ.tail rest.1)
  ]
    where
      same : (x : A) (xs : List A) (d : A) → p x ≡ true → x ≡ d → (p d ≡ true) × Memᴰ d (x ∷ xs)
      same x xs d e k = (subst (λ z. p z ≡ true) k e, Memᴰ.head (sym k))

  -- In a sorted list the first that passes is not above any other that does.
  pub find_first-IsSorted :
      (less : A → A → Bool) (irreflexive : (a : A) → less a a ≡ false) (xs : List A) (d : A)
      → IsSorted less xs
      → find_first p xs ≡ some d
      → (c : A) → Memᴰ c xs
      → p c ≡ true
      → less c d ≡ false
  unfolding find_first
  find_first-IsSorted less irreflexive [] d v h c m k = absurd (Memᴰ.not-nil m)
  find_first-IsSorted less irreflexive (x ∷ xs) d v h c m k = elim (Bool-cases (p x)) [
    | inl e ↦
        subst (λ z. less c z ≡ false) (first_is x xs d e h)
          (elim (Memᴰ.cases_cons m) [
            | inl n ↦ subst (λ z. less z x ≡ false) (sym n) (irreflexive x)
            | inr n ↦ v.0 c n
          ])
    | inr e ↦ elim (Memᴰ.cases_cons m) [
      | inl n ↦ absurd (contradicts x c n e k)
      | inr n ↦ find_first-IsSorted less irreflexive xs d v.1 (ground (arith, h, e)) c n k
    ]
  ]
    where
      first_is : (x : A) (xs : List A) (d : A) → p x ≡ true → find_first p (x ∷ xs) ≡ some d → x ≡ d
      first_is x xs d e h = ground (arith, h, e)

      contradicts : (x c : A) → c ≡ x → p x ≡ false → p c ≡ true → ⊥
      contradicts x c n e k = cc
