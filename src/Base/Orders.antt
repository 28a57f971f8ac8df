-- ===== src/Base/Orders.antt =====
-- Comparisons as Boolean tests, as a sort takes them, and the insertion sort by one.
use mathlib.Core.Path.{◌≡◌, refl}
use mathlib.Core.Bool.{Bool, true, false, not, ◌&&◌, ◌||◌}
use mathlib.Core.List.{List, [], ◌∷◌}
use native.Mathlib.Omega.{arith}
use Prim.Native.Nat.{ℕ}
use roamux.Base.Tests.{ltb, if◌then◌else◌}
use roamux.Base.Ints.{ℤ, pos, negsuc, ltb_ℤ}

-- What `std::sort` asks of its comparison.
pub record StrictWeak {ℓ} {A : Type ℓ} (less : A → A → Bool) : Type ℓ where
  pub asym : (a b : A) → less a b ≡ true → less b a ≡ false
  pub cotrans : (a b c : A) → less a c ≡ true → (less a b || less b c) ≡ true

pub StrictWeak-irreflexive {ℓ} :
    {A : Type ℓ} (less : A → A → Bool) → StrictWeak less → (a : A) → less a a ≡ false
StrictWeak-irreflexive less order a = ground (arith, order.asym a a)

pub ltb-StrictWeak : StrictWeak ltb
ltb-StrictWeak = record {
  asym = λ a b h. ground (arith, h);
  cotrans = λ a b c h. ground (arith, h);
}

ltb_ℤ_asym : (a b : ℤ) → ltb_ℤ a b ≡ true → ltb_ℤ b a ≡ false
ltb_ℤ_asym (pos a) (pos b) h = ground (arith, h)
ltb_ℤ_asym (pos a) (negsuc b) h = absurd (ground (arith, h))
ltb_ℤ_asym (negsuc a) (pos b) h = refl
ltb_ℤ_asym (negsuc a) (negsuc b) h = ground (arith, h)

ltb_ℤ_cotrans : (a b c : ℤ) → ltb_ℤ a c ≡ true → (ltb_ℤ a b || ltb_ℤ b c) ≡ true
ltb_ℤ_cotrans (pos a) (pos b) (pos c) h = ground (arith, h)
ltb_ℤ_cotrans (pos a) (negsuc b) (pos c) h = ground (arith, h)
ltb_ℤ_cotrans (pos a) b (negsuc c) h = absurd (ground (arith, h))
ltb_ℤ_cotrans (negsuc a) (pos b) c h = refl
ltb_ℤ_cotrans (negsuc a) (negsuc b) (pos c) h = ground (arith, h)
ltb_ℤ_cotrans (negsuc a) (negsuc b) (negsuc c) h = ground (arith, h)

pub ltb_ℤ-StrictWeak : StrictWeak ltb_ℤ
ltb_ℤ-StrictWeak = record { asym = ltb_ℤ_asym; cotrans = ltb_ℤ_cotrans }

-- The order of `std::tuple`: by the first test, and where it does not decide, by the second.
abbrev pub then_by {ℓ} : {A : Type ℓ} → (A → A → Bool) → (A → A → Bool) → A → A → Bool
then_by f g a b = f a b || (not (f b a) && g a b)

then_by_table :
    (fab fba fbc fcb fac fca gab gbc gac : Bool)
    → (fac ≡ true → (fab || fbc) ≡ true)
    → (fca ≡ true → fac ≡ false)
    → (fba ≡ true → (fbc || fca) ≡ true)
    → (fcb ≡ true → (fca || fab) ≡ true)
    → (gac ≡ true → (gab || gbc) ≡ true)
    → (fac || (not fca && gac)) ≡ true
    → ((fab || (not fba && gab)) || (fbc || (not fcb && gbc))) ≡ true
then_by_table fab fba fbc fcb fac fca gab gbc gac h1 h2 h3 h4 h5 h =
    ground (arith, h, h1, h2, h3, h4, h5)

pub then_by-StrictWeak {ℓ} :
    {A : Type ℓ} (f g : A → A → Bool) → StrictWeak f → StrictWeak g → StrictWeak (then_by f g)
then_by-StrictWeak f g u v = record {
  asym = λ a b h. ground (arith, h, u.asym a b, u.asym b a, v.asym a b);
  cotrans = λ a b c h.
      then_by_table (f a b) (f b a) (f b c) (f c b) (f a c) (f c a) (g a b) (g b c) (g a c)
        (u.cotrans a b c) (u.asym c a) (u.cotrans b c a) (u.cotrans c a b) (v.cotrans a b c) h;
}

-- The order of `std::string`, on the codes.
unfoldable pub lex_ltb : List ℕ → List ℕ → Bool
lex_ltb [] [] = false
lex_ltb [] (y ∷ ys) = true
lex_ltb (x ∷ xs) [] = false
lex_ltb (x ∷ xs) (y ∷ ys) = let rest = lex_ltb xs ys in ltb x y || (not (ltb y x) && rest)

lex_ltb_asym : (xs ys : List ℕ) → lex_ltb xs ys ≡ true → lex_ltb ys xs ≡ false
unfolding lex_ltb
lex_ltb_asym [] [] h = refl
lex_ltb_asym [] (y ∷ ys) h = refl
lex_ltb_asym (x ∷ xs) [] h = absurd (ground (arith, h))
lex_ltb_asym (x ∷ xs) (y ∷ ys) h = ground (arith, h, lex_ltb_asym xs ys)

lex_ltb_cotrans :
    (xs ys zs : List ℕ) → lex_ltb xs zs ≡ true → (lex_ltb xs ys || lex_ltb ys zs) ≡ true
unfolding lex_ltb
lex_ltb_cotrans [] [] [] h = h
lex_ltb_cotrans [] (y ∷ ys) [] h = refl
lex_ltb_cotrans (x ∷ xs) [] [] h = h
lex_ltb_cotrans (x ∷ xs) (y ∷ ys) [] h = absurd (ground (arith, h))
lex_ltb_cotrans [] [] (z ∷ zs) h = refl
lex_ltb_cotrans [] (y ∷ ys) (z ∷ zs) h = refl
lex_ltb_cotrans (x ∷ xs) [] (z ∷ zs) h = refl
lex_ltb_cotrans (x ∷ xs) (y ∷ ys) (z ∷ zs) h = ground (arith, h, lex_ltb_cotrans xs ys zs)

pub lex_ltb-StrictWeak : StrictWeak lex_ltb
lex_ltb-StrictWeak = record { asym = lex_ltb_asym; cotrans = lex_ltb_cotrans }

module _ {ℓ} {A : Type ℓ} (less : A → A → Bool) where
  unfoldable pub insert : A → List A → List A
  insert x [] = x ∷ []
  insert x (y ∷ ys) = let rest = insert x ys in if less x y then x ∷ y ∷ ys else y ∷ rest

  unfoldable pub sort : List A → List A
  sort [] = []
  sort (x ∷ xs) = insert x (sort xs)
