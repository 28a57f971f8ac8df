-- ===== src/Tabs/RefreshRun/Snapshot.antt =====
-- The order in which a refresh visits the tabs of its window.
use mathlib.Core.Path.{subst}
use mathlib.Core.List.{Perm}
use mathlib.Core.List.Perm
use roamux.Base.{
  ℕ, zero, suc, ◌+◌, ◌<◌, ◌≡◌, refl, sym, ap, Option, none, some, List, [], ◌∷◌, ◌++◌, arith, ◌==◌,
  if_intro, get_elem?,
}
use roamux.Tabs.RefreshRun.{all_but, first_of, snapshot_tabs}

all_but-past : (a i : ℕ) (hs : List ℕ) → a < i → all_but (some a) i hs ≡ hs
unfolding all_but
all_but-past a i [] h = refl
all_but-past a i (x ∷ hs) h = ground (arith, h, all_but-past a (i + 1) hs (omega (arith, h)))

all_but-none : (i : ℕ) (hs : List ℕ) → all_but none i hs ≡ hs
unfolding all_but
all_but-none i [] = refl
all_but-none i (x ∷ hs) = ap (λ r. x ∷ r) (all_but-none (i + 1) hs)

move_front :
    (o : Option ℕ) (x : ℕ) (rest hs : List ℕ)
    → Perm (first_of o ++ rest) hs
    → Perm (first_of o ++ x ∷ rest) (x ∷ hs)
move_front none x rest hs p = Perm.cons x p
move_front (some y) x rest hs p = Perm.trans (Perm.swap x y rest) (Perm.cons x p)

all_but-perm :
    (a i k : ℕ) (hs : List ℕ)
    → a ≡ i + k
    → Perm (first_of (get_elem? hs k) ++ all_but (some a) i hs) hs
unfolding all_but
all_but-perm a i k [] h = Perm.refl []
all_but-perm a i zero (x ∷ hs) h =
    subst (λ r. Perm (x ∷ r) (x ∷ hs))
      (ground (arith, h, all_but-past a (i + 1) hs (omega (arith, h)))) (Perm.refl (x ∷ hs))
all_but-perm a i (suc k) (x ∷ hs) h =
    let rest = all_but (some a) (i + 1) hs in
    let ih = all_but-perm a (i + 1) k hs (omega (arith, h)) in
    if_intro (λ r. Perm (first_of (get_elem? hs k) ++ r) (x ∷ hs)) (i == a) rest (x ∷ rest)
      (λ e. absurd (ground (arith, e, h))) (λ e. move_front (get_elem? hs k) x rest hs ih)

-- The snapshot has every tab of the strip once, whichever is active.
pub snapshot_tabs-perm :
    (strip : List ℕ) (active : Option ℕ) → Perm (snapshot_tabs strip active) strip
unfolding snapshot_tabs
snapshot_tabs-perm strip none =
    subst (λ r. Perm r strip) (sym (all_but-none 0 strip)) (Perm.refl strip)
snapshot_tabs-perm strip (some a) = all_but-perm a 0 a strip (omega arith)
