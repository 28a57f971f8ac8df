-- ===== src/TabVisit/Store/Trim.antt =====
-- The FIFO trim: of a table in id order it keeps the newest rows.
use roamux.Base.{
  ℕ, suc, ◌-◌, ◌≤◌, ◌<◌, ◌≡◌, refl, sym, inl, inr, true, false, List, [], ◌∷◌, arith, ltb,
  if◌then◌else◌, Bool-cases, length, drop, drop-nil, drop-eq,
}
use roamux.TabVisit.Store.{VisitRow, rank, keep_newest}

-- The ids rise along the list, and the first is not below the bound.
abbrev pub AscFrom : ℕ → List VisitRow → Type 0
AscFrom lo [] = Unit
AscFrom lo (r ∷ rs) = (lo ≤ r.id) × AscFrom (suc r.id) rs

pub AscFrom-mono : (lo lo' : ℕ) (rs : List VisitRow) → lo ≤ lo' → AscFrom lo' rs → AscFrom lo rs
AscFrom-mono lo lo' [] h a = tt
AscFrom-mono lo lo' (r ∷ rs) h a = (omega arith, a.1)

rank_of_lt : (x lo : ℕ) (rs : List VisitRow) → AscFrom lo rs → x < lo → rank x rs ≡ length rs
unfolding rank
rank_of_lt x lo [] a h = refl
rank_of_lt x lo (r ∷ rs) a h = ground (arith, rank_of_lt x (suc r.id) rs a.1 (omega arith))

keep_newest-cons :
    (k lo : ℕ) (p : VisitRow) (table rs : List VisitRow)
    → AscFrom lo rs
    → p.id < lo
    → keep_newest k (p ∷ table) rs ≡ keep_newest k table rs
unfolding keep_newest
keep_newest-cons k lo p table [] a h = refl
keep_newest-cons k lo p table (r ∷ rs) a h =
    ground (arith, keep_newest-cons k (suc r.id) p table rs a.1 (omega arith))

rank_self :
    (r : VisitRow) (rs : List VisitRow) → AscFrom (suc r.id) rs → rank r.id (r ∷ rs) ≡ length rs
unfolding rank
rank_self r rs a = ground (arith, rank_of_lt r.id (suc r.id) rs a (omega arith))

kept :
    (k : ℕ) (r : VisitRow) (rs : List VisitRow)
    → ltb (length rs) k ≡ true
    → length rs < k
    → (if ltb (length rs) k then r ∷ drop (length rs - k) rs else drop (length rs - k) rs)
      ≡ drop (suc (length rs) - k) (r ∷ rs)
kept k r rs e h =
    rw
      (
        e,
        drop-eq (length rs - k) 0 rs (omega (arith, h)),
        drop-eq (suc (length rs) - k) 0 (r ∷ rs) (omega (arith, h)),
      )
      refl

dropped :
    (k : ℕ) (r : VisitRow) (rs : List VisitRow)
    → ltb (length rs) k ≡ false
    → k ≤ length rs
    → (if ltb (length rs) k then r ∷ drop (length rs - k) rs else drop (length rs - k) rs)
      ≡ drop (suc (length rs) - k) (r ∷ rs)
dropped k r rs e h =
    rw (e, drop-eq (suc (length rs) - k) (suc (length rs - k)) (r ∷ rs) (omega (arith, h))) refl

kept_or_dropped :
    (k : ℕ) (r : VisitRow) (rs : List VisitRow)
    → (if ltb (length rs) k then r ∷ drop (length rs - k) rs else drop (length rs - k) rs)
      ≡ drop (suc (length rs) - k) (r ∷ rs)
kept_or_dropped k r rs = elim (Bool-cases (ltb (length rs) k)) [
  | inl e ↦ kept k r rs e (ground arith)
  | inr e ↦ dropped k r rs e (ground arith)
]

keep_newest-eq-drop_cons :
    (k : ℕ) (r : VisitRow) (rs : List VisitRow)
    → AscFrom (suc r.id) rs
    → keep_newest k rs rs ≡ drop (length rs - k) rs
    → keep_newest k (r ∷ rs) (r ∷ rs) ≡ drop (suc (length rs) - k) (r ∷ rs)
unfolding keep_newest
keep_newest-eq-drop_cons k r rs a ih =
    rw (rank_self r rs a, keep_newest-cons k (suc r.id) r rs rs a (omega arith), ih)
      (kept_or_dropped k r rs)

-- The SQL trim by ids is the drop of the oldest rows.
pub keep_newest-eq-drop :
    (k lo : ℕ) (rs : List VisitRow) → AscFrom lo rs → keep_newest k rs rs ≡ drop (length rs - k) rs
keep_newest-eq-drop k lo [] a = unfold keep_newest in sym (drop-nil (0 - k))
keep_newest-eq-drop k lo (r ∷ rs) a =
    keep_newest-eq-drop_cons k r rs a.1 (keep_newest-eq-drop k (suc r.id) rs a.1)
