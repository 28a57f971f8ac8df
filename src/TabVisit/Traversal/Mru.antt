-- ===== src/TabVisit/Traversal/Mru.antt =====
-- `DeriveMruOrder` against move-to-front.
use mathlib.Core.List.{reverse, reverse-append, append-nil, append_assoc}
use roamux.Base.{
  String, ◌≡◌, refl, sym, ap, ◌∙◌, false, not, ◌&&◌, ◌||◌, List, [], ◌∷◌, ◌++◌, arith,
  if◌then◌else◌, str_eq, str_eq_iff, str_eq_refl, contains, contains-append,
}
use roamux.TabVisit.Traversal.{mru_loop, derive_mru_order}

-- The list without an identity.
pub without : String → List String → List String
without x [] = []
without x (y ∷ ys) = if str_eq y x then without x ys else y ∷ without x ys

-- The order as a user reads it: every visit moves its tab to the front.
pub move_to_front : List String → List String → List String
unfolding without
move_to_front order [] = order
move_to_front order (x ∷ xs) = move_to_front (x ∷ without x order) xs

-- A list whose identities are distinct.
abbrev pub Distinct : List String → Type 0
Distinct [] = Unit
Distinct (x ∷ xs) = (contains xs x ≡ false) × Distinct xs

-- The set matters only up to membership.
mru_loop-congr :
    (s t xs : List String)
    → ((x : String) → contains s x ≡ contains t x)
    → mru_loop s xs ≡ mru_loop t xs
unfolding mru_loop
mru_loop-congr s t [] h = refl
mru_loop-congr s t (x ∷ xs) h =
    let more = mru_loop-congr (x ∷ s) (x ∷ t) xs (λ y. ap (λ b. str_eq x y || b) (h y)) in
    ground (arith, h x, mru_loop-congr s t xs h, more)

contains-mru_loop :
    (s xs : List String) (y : String)
    → contains (mru_loop s xs) y ≡ (not (contains s y) && contains xs y)
unfolding mru_loop
contains-mru_loop s [] y = ground arith
contains-mru_loop s (x ∷ xs) y =
    ground (arith, contains-mru_loop s xs y, contains-mru_loop (x ∷ s) xs y, str_eq_iff x y)

-- One more identity in the set takes it out of the order.
mru_loop-without :
    (x : String) (s xs : List String) → mru_loop (x ∷ s) xs ≡ without x (mru_loop s xs)
unfolding mru_loop without
mru_loop-without x s [] = refl
mru_loop-without x s (y ∷ ys) =
    let again = mru_loop-congr (x ∷ x ∷ s) (x ∷ s) ys (λ z. ground arith) in
    let swap = mru_loop-congr (x ∷ y ∷ s) (y ∷ x ∷ s) ys (λ z. ground arith) in
    ground (
      arith,
      again,
      swap,
      str_eq_iff x y,
      str_eq_iff y x,
      mru_loop-without x s ys,
      mru_loop-without x (y ∷ s) ys,
    )

-- A settled visit moves its tab to the front of the derived order, and leaves the other tabs in
-- their order.
pub derive_mru_order-append :
    (journal : List String) (x : String)
    → derive_mru_order (journal ++ x ∷ []) ≡ x ∷ without x (derive_mru_order journal)
unfolding derive_mru_order
derive_mru_order-append journal x =
    rw (reverse-append journal (x ∷ []))
      (unfold mru_loop in ap (◌∷◌ x) (mru_loop-without x [] (reverse journal)))

derive_mru_order-append_all :
    (journal xs : List String)
    → derive_mru_order (journal ++ xs) ≡ move_to_front (derive_mru_order journal) xs
unfolding move_to_front
derive_mru_order-append_all journal [] = ap derive_mru_order (append-nil journal)
derive_mru_order-append_all journal (x ∷ xs) = rw (← derive_mru_order-append journal x) (
    rw (← derive_mru_order-append_all (journal ++ x ∷ []) xs)
      (ap derive_mru_order (sym (append_assoc journal (x ∷ []) xs))))

-- The order that `DeriveMruOrder` scans out of the journal, newest first and the first occurrence
-- of each identity, is what moving each visited tab to the front of an empty list gives.
pub derive_mru_order-eq-move_to_front :
    (journal : List String) → derive_mru_order journal ≡ move_to_front [] journal
derive_mru_order-eq-move_to_front journal =
    derive_mru_order-append_all [] journal
    ∙ ap (λ o. move_to_front o journal) (unfold derive_mru_order mru_loop in refl)

mru_loop-Distinct : (s xs : List String) → Distinct (mru_loop s xs)
unfolding mru_loop
mru_loop-Distinct s [] = tt
mru_loop-Distinct s (x ∷ xs) = ground (
  arith,
  str_eq_refl x,
  contains-mru_loop (x ∷ s) xs x,
  mru_loop-Distinct s xs,
  mru_loop-Distinct (x ∷ s) xs,
)

contains-reverse : (xs : List String) (y : String) → contains (reverse xs) y ≡ contains xs y
contains-reverse [] y = refl
contains-reverse (x ∷ xs) y =
    rw (reverse-append (x ∷ []) xs)
      (ground (arith, contains-append (reverse xs) (x ∷ []) y, contains-reverse xs y))

-- The derived order holds each identity of the journal once, and nothing else.
derive_mru_order-Distinct :
    (journal : List String)
    → Distinct (derive_mru_order journal)
      × ((y : String) → contains (derive_mru_order journal) y ≡ contains journal y)
unfolding derive_mru_order
derive_mru_order-Distinct journal = (
  mru_loop-Distinct [] (reverse journal),
  λ y. ground (arith, contains-mru_loop [] (reverse journal) y, contains-reverse journal y),
)
