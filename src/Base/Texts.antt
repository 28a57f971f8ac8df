-- ===== src/Base/Texts.antt =====
-- Texts that the program compares whole or by their codes: equality, emptiness, sets of texts as lists.
use Prim.Native.Char.{code}
use Prim.Native.Nat.{ℕ}
use Prim.Native.String.{String}
use mathlib.Core.Path.{◌≡◌, refl}
use mathlib.Core.Logic.{◌⊎◌, inl, inr}
use mathlib.Core.Bool.{Bool, true, false, ◌||◌}
use mathlib.Core.List.{List, [], ◌∷◌, ◌++◌}
use native.Mathlib.Omega.{arith}
use text.Mathlib.TextPositions.{eq_refl}
use roamux.Base.Tests.{Bool-cases}
pub use text.Mathlib.Text.{◌==◌ as str_eq}
pub use text.Mathlib.TextEquality.{eq_iff as str_eq_iff}

pub str_eq_refl : (s : String) → str_eq s s ≡ true
str_eq_refl = eq_refl

-- `s.empty()`.
abbrev pub is_empty : String → Bool
is_empty s = str_eq s ""

-- `set.contains(s)` on a set held as a list.
abbrev pub contains : List String → String → Bool
contains [] s = false
contains (x ∷ xs) s = str_eq x s || contains xs s

pub contains-append :
    (xs ys : List String) (s : String) → contains (xs ++ ys) s ≡ (contains xs s || contains ys s)
contains-append [] ys s = refl
contains-append (x ∷ xs) ys s = ground (arith, contains-append xs ys s)

-- The code points of a text.
abbrev pub codes : String → List ℕ
codes String.[] = []
codes (String.◌∷◌ c s) = code c ∷ codes s

-- Whether a code of a list passes a test.
abbrev pub any_code : (ℕ → Bool) → List ℕ → Bool
any_code p [] = false
any_code p (c ∷ cs) = p c || any_code p cs

-- Every code of a text fits.
abbrev pub AllCodes : (ℕ → Type 0) → List ℕ → Type 0
AllCodes P [] = Unit
AllCodes P (c ∷ cs) = P c × AllCodes P cs

-- Some code of a text fits.
abbrev pub SomeCode : (ℕ → Type 0) → List ℕ → Type 0
SomeCode P [] = ⊥
SomeCode P (c ∷ cs) = P c ⊎ SomeCode P cs

pub any_code-false :
    (p : ℕ → Bool) (P : ℕ → Type 0) (cs : List ℕ)
    → ((c : ℕ) → p c ≡ false → P c)
    → any_code p cs ≡ false
    → AllCodes P cs
any_code-false p P [] k h = tt
any_code-false p P (c ∷ cs) k h =
    (k c (ground (arith, h)), any_code-false p P cs k (ground (arith, h)))

pub AllCodes-any :
    (p : ℕ → Bool) (P : ℕ → Type 0) (cs : List ℕ)
    → ((c : ℕ) → P c → p c ≡ false)
    → AllCodes P cs
    → any_code p cs ≡ false
AllCodes-any p P [] k h = refl
AllCodes-any p P (c ∷ cs) k h = ground (arith, k c h.0, AllCodes-any p P cs k h.1)

pub any_code-true :
    (p : ℕ → Bool) (P : ℕ → Type 0) (cs : List ℕ)
    → ((c : ℕ) → p c ≡ true → P c)
    → any_code p cs ≡ true
    → SomeCode P cs
any_code-true p P [] k h = absurd (ground (arith, h))
any_code-true p P (c ∷ cs) k h = elim (Bool-cases (p c)) [
  | inl e ↦ inl (k c e)
  | inr e ↦ inr (any_code-true p P cs k (ground (arith, h, e)))
]
