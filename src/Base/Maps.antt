-- ===== src/Base/Maps.antt =====
-- Maps as lists of pairs, of which the first with a key is in force.
use mathlib.Core.Path.{◌≡◌, refl, subst, sym}
use mathlib.Core.Bool.{Bool, true, false}
use mathlib.Core.List.{List, [], ◌∷◌}
use mathlib.Core.Option.{Option, none, some}
use native.Mathlib.Omega.{arith}
use roamux.Base.Tests.{if◌then◌else◌}

module _ {ℓ κ} {K : Type ℓ} {V : Type κ} (eq : K → K → Bool) where
  abbrev pub lookup : K → List (K × V) → Option V
  lookup k [] = none
  lookup k ((j, v) ∷ ps) = if eq j k then some v else lookup k ps

  abbrev pub erase : K → List (K × V) → List (K × V)
  erase k [] = []
  erase k ((j, v) ∷ ps) = let rest = erase k ps in if eq j k then rest else (j, v) ∷ rest

  pub lookup-erase_same : (k : K) (ps : List (K × V)) → lookup k (erase k ps) ≡ none
  lookup-erase_same k [] = refl
  lookup-erase_same k ((j, v) ∷ ps) = ground (arith, lookup-erase_same k ps)

  pub lookup-erase_other :
      ((a b : K) → eq a b ≡ true → a ≡ b)
      → (k i : K) (ps : List (K × V)) → eq k i ≡ false
      → lookup i (erase k ps) ≡ lookup i ps
  lookup-erase_other sound k i [] h = refl
  lookup-erase_other sound k i ((j, v) ∷ ps) h =
      ground (arith, lookup-erase_other sound k i ps h, by_key)
    where
      by_key : eq j k ≡ true → eq j i ≡ false
      by_key e = subst (λ x. eq x i ≡ false) (sym (sound j k e)) h
