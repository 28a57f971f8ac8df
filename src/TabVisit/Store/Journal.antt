-- ===== src/TabVisit/Store/Journal.antt =====
-- The journal as a bounded queue: what `append` keeps, on every outcome of its transaction.
use roamux.Base.{ℕ, zero, suc, ◌≤◌, ◌<◌, ◌≡◌, refl, true, List, [], ◌∷◌, ◌++◌, arith, length, drop}
use roamux.TabVisit.Store.{VisitRow, VisitsStore, insert_by_id, order_by_id, read_all}
use roamux.TabVisit.Store.Trim.{AscFrom, AscFrom-mono}

-- Every id is below the bound.
abbrev pub Below : ℕ → List VisitRow → Type 0
Below hi [] = Unit
Below hi (r ∷ rs) = (r.id < hi) × Below hi rs

-- The rows stand in the order of their ids, AUTOINCREMENT is past them all, and the trim held.
pub record Inv (s : VisitsStore) : Type 0 where
  pub ascending : AscFrom 0 s.visits
  pub below : Below s.next_id s.visits
  pub few : length s.visits ≤ 999

pub AscFrom-snoc :
    (lo : ℕ) (rs : List VisitRow) (r : VisitRow)
    → AscFrom lo rs
    → Below r.id rs
    → lo ≤ r.id
    → AscFrom lo (rs ++ r ∷ [])
AscFrom-snoc lo [] r a b h = (h, tt)
AscFrom-snoc lo (x ∷ xs) r a b h = (a.0, AscFrom-snoc (suc x.id) xs r a.1 b.1 (omega (arith, b.0)))

pub Below-snoc :
    (hi : ℕ) (rs : List VisitRow) (r : VisitRow)
    → Below hi rs
    → r.id < suc hi
    → Below (suc hi) (rs ++ r ∷ [])
Below-snoc hi [] r b h = (h, tt)
Below-snoc hi (x ∷ xs) r b h = (omega (arith, b.0), Below-snoc hi xs r b.1 h)

pub AscFrom-drop : (n lo : ℕ) (rs : List VisitRow) → AscFrom lo rs → AscFrom lo (drop n rs)
AscFrom-drop zero lo rs a = a
AscFrom-drop (suc n) lo [] a = tt
AscFrom-drop (suc n) lo (r ∷ rs) a =
    AscFrom-mono lo (suc r.id) (drop n rs) (omega (arith, a.0)) (AscFrom-drop n (suc r.id) rs a.1)

pub Below-drop : (n hi : ℕ) (rs : List VisitRow) → Below hi rs → Below hi (drop n rs)
Below-drop zero hi rs b = b
Below-drop (suc n) hi [] b = tt
Below-drop (suc n) hi (r ∷ rs) b = Below-drop n hi rs b.1

insert_first :
    (lo : ℕ) (r : VisitRow) (rs : List VisitRow)
    → AscFrom lo rs
    → r.id < lo
    → insert_by_id r rs ≡ r ∷ rs
unfolding insert_by_id
insert_first lo r [] a h = refl
insert_first lo r (x ∷ xs) a h = ground (arith, a.0)

order_by_id-ascending : (lo : ℕ) (rs : List VisitRow) → AscFrom lo rs → order_by_id rs ≡ rs
unfolding order_by_id
order_by_id-ascending lo [] a = refl
order_by_id-ascending lo (r ∷ rs) a =
    rw (order_by_id-ascending (suc r.id) rs a.1) (insert_first (suc r.id) r rs a.1 (omega arith))

-- Under the invariant the rows are read in the order in which they stand.
pub read_all-eq-visits : (s : VisitsStore) → Inv s → s.is_open ≡ true → read_all s ≡ s.visits
unfolding read_all
read_all-eq-visits s v o = rw o (order_by_id-ascending 0 s.visits v.ascending)
