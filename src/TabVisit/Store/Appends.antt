-- ===== src/TabVisit/Store/Appends.antt =====
-- The journal over any appends, whatever fails: the newest 999 of what was committed.
use mathlib.Core.Path.{subst}
use roamux.Base.{
  ◌+◌, ◌-◌, ◌≤◌, String, ◌≡◌, refl, sym, ap, ◌∙◌, Bool, true, false, not, ◌||◌, List, [], ◌∷◌, ◌++◌,
  map, arith, if◌then◌else◌, if_intro, length, length-append, drop, length-drop, drop-eq, drop-drop,
  append_nil, append_assoc, drop-append, map-append, length-map, drop-map, ℤ,
}
use roamux.TabVisit.Store.{VisitRow, VisitsStore, Faults, max_visits, keep_newest, append, read_all}
use roamux.TabVisit.Store.Trim.{AscFrom, keep_newest-eq-drop}
use roamux.TabVisit.Store.Journal.{
  Below, Inv, AscFrom-snoc, Below-snoc, AscFrom-drop, Below-drop, read_all-eq-visits,
}

-- What a caller of the journal gives.
pub record Visit : Type 0 where
  pub tab_uid : String
  pub url : String
  pub visited_at : ℤ

abbrev pub visit_of : VisitRow → Visit
visit_of r = record { tab_uid = r.tab_uid; url = r.url; visited_at = r.visited_at }

abbrev pub newest : {A : Type 0} → List A → List A
newest xs = drop (length xs - 999) xs

abbrev pub commits : Faults → Bool
commits f = not (f.begin_fails || (f.first_fails || (f.second_fails || f.commit_fails)))

-- The store after a transaction that committed.
abbrev stored : VisitsStore → Visit → VisitsStore
stored s w =
    let row : VisitRow = record {
      id = s.next_id;
      tab_uid = w.tab_uid;
      url = w.url;
      visited_at = w.visited_at;
    } in
    let inserted = s.visits ++ row ∷ [] in
    record s { visits = keep_newest max_visits inserted inserted; next_id = s.next_id + 1 }

four_returns :
    (a b c d : Bool) (x y : VisitsStore)
    → (if a then x else if b then x else if c then x else if d then x else y)
      ≡ (if not (a || (b || (c || d))) then y else x)
four_returns true b c d x y = refl
four_returns false true c d x y = refl
four_returns false false true d x y = refl
four_returns false false false true x y = refl
four_returns false false false false x y = refl

pub five_returns :
    (o a b c d : Bool) (x y : VisitsStore)
    → o ≡ true
    → (if not o then x else if a then x else if b then x else if c then x else if d then x else y)
      ≡ (if not (a || (b || (c || d))) then y else x)
five_returns true a b c d x y e = four_returns a b c d x y
five_returns false a b c d x y e = ground arith

append-eq-stored :
    (s : VisitsStore) (f : Faults) (w : Visit)
    → s.is_open ≡ true
    → append s f w.tab_uid w.url w.visited_at ≡ (if commits f then stored s w else s)
unfolding append
append-eq-stored s f w o =
    five_returns s.is_open f.begin_fails f.first_fails f.second_fails f.commit_fails s (stored s w)
      o

row_of : VisitsStore → Visit → VisitRow
row_of s w = record { id = s.next_id; tab_uid = w.tab_uid; url = w.url; visited_at = w.visited_at }

stored-visits :
    (s : VisitsStore) (w : Visit)
    → Inv s
    → (stored s w).visits ≡ newest (s.visits ++ row_of s w ∷ [])
unfolding row_of
stored-visits s w v =
    keep_newest-eq-drop 999 0 (s.visits ++ row_of s w ∷ [])
      (AscFrom-snoc 0 s.visits (row_of s w) v.ascending v.below (omega arith))

Below-next :
    (s : VisitsStore) (w : Visit) → Inv s → Below (s.next_id + 1) (s.visits ++ row_of s w ∷ [])
unfolding row_of
Below-next s w v =
    subst (λ k. Below k (s.visits ++ row_of s w ∷ [])) (omega arith)
      (Below-snoc s.next_id s.visits (row_of s w) v.below (omega arith))

stored-Inv : (s : VisitsStore) (w : Visit) → Inv s → Inv (stored s w)
unfolding row_of
stored-Inv s w v =
    let n = length (s.visits ++ row_of s w ∷ []) - 999 in
    let e = stored-visits s w v in
    record {
      ascending = subst (AscFrom 0) (sym e) (
          AscFrom-drop n 0 (s.visits ++ row_of s w ∷ [])
            (AscFrom-snoc 0 s.visits (row_of s w) v.ascending v.below (omega arith)));
      below =
          subst (Below (s.next_id + 1)) (sym e)
            (Below-drop n (s.next_id + 1) (s.visits ++ row_of s w ∷ []) (Below-next s w v));
      few =
          subst (λ l. length l ≤ 999) (sym e)
            (ground (arith, length-drop n (s.visits ++ row_of s w ∷ [])));
    }

newest-map : (rs : List VisitRow) → map visit_of (newest rs) ≡ newest (map visit_of rs)
newest-map rs =
    sym (drop-map visit_of (length rs - 999) rs)
    ∙ drop-eq (length rs - 999) (length (map visit_of rs) - 999) (map visit_of rs)
        (omega (arith, length-map visit_of rs))

newest-append : {A : Type 0} (xs ys : List A) → newest (newest xs ++ ys) ≡ newest (xs ++ ys)
newest-append xs ys =
    let n = length xs - 999 in
    let k = length (drop n (xs ++ ys)) - 999 in
    ap newest (sym (drop-append n xs ys (omega arith)))
    ∙ (drop-drop k n (xs ++ ys)
        ∙ drop-eq (n + k) (length (xs ++ ys) - 999) (xs ++ ys)
            (omega (arith, length-append xs ys, length-drop n (xs ++ ys))))

-- Appends one after the other, each with what fails in it.
pub append_all : VisitsStore → List (Faults × Visit) → VisitsStore
append_all s [] = s
append_all s ((f, w) ∷ cs) = append_all (append s f w.tab_uid w.url w.visited_at) cs

pub committed : List (Faults × Visit) → List Visit
committed [] = []
committed ((f, w) ∷ cs) = let rest = committed cs in if commits f then w ∷ rest else rest

append-Inv :
    (s : VisitsStore) (f : Faults) (w : Visit)
    → Inv s
    → s.is_open ≡ true
    → Inv (append s f w.tab_uid w.url w.visited_at)
append-Inv s f w v o =
    subst Inv (sym (append-eq-stored s f w o))
      (if_intro Inv (commits f) (stored s w) s (λ e. stored-Inv s w v) (λ e. v))

append-is_open :
    (s : VisitsStore) (f : Faults) (w : Visit)
    → s.is_open ≡ true
    → (append s f w.tab_uid w.url w.visited_at).is_open ≡ true
append-is_open s f w o =
    subst (λ (t : VisitsStore). t.is_open ≡ true) (sym (append-eq-stored s f w o))
      (if_intro (λ (t : VisitsStore). t.is_open ≡ true) (commits f) (stored s w) s (λ e. o)
        (λ e. o))

abbrev after_one : Bool → List Visit → Visit → List Visit
after_one b xs w = if b then newest (xs ++ w ∷ []) else xs

stored-map :
    (s : VisitsStore) (w : Visit)
    → Inv s
    → map visit_of (stored s w).visits ≡ newest (map visit_of s.visits ++ w ∷ [])
unfolding row_of
stored-map s w v =
    ap (map visit_of) (stored-visits s w v)
    ∙ (newest-map (s.visits ++ row_of s w ∷ [])
        ∙ ap newest (map-append visit_of s.visits (row_of s w ∷ [])))

append-map :
    (s : VisitsStore) (f : Faults) (w : Visit)
    → Inv s
    → s.is_open ≡ true
    → map visit_of (append s f w.tab_uid w.url w.visited_at).visits
      ≡ after_one (commits f) (map visit_of s.visits) w
append-map s f w v o =
    ap (λ t. map visit_of t.visits) (append-eq-stored s f w o) ∙ by_outcome (commits f)
  where
    by_outcome :
        (b : Bool)
        → map visit_of (if b then stored s w else s).visits ≡ after_one b (map visit_of s.visits) w
    by_outcome true = stored-map s w v
    by_outcome false = refl

newest-after_one :
    (b : Bool) (xs : List Visit) (w : Visit) (rest : List Visit)
    → newest (after_one b xs w ++ rest) ≡ newest (xs ++ (if b then w ∷ rest else rest))
newest-after_one true xs w rest =
    newest-append (xs ++ w ∷ []) rest ∙ ap newest (append_assoc xs (w ∷ []) rest)
newest-after_one false xs w rest = refl

newest-few : (xs : List Visit) → length xs ≤ 999 → newest (xs ++ []) ≡ xs
newest-few xs h = ap newest (append_nil xs) ∙ drop-eq (length xs - 999) 0 xs (omega arith)

append_all-visits :
    (s : VisitsStore) (cs : List (Faults × Visit))
    → Inv s
    → s.is_open ≡ true
    → map visit_of (append_all s cs).visits ≡ newest (map visit_of s.visits ++ committed cs)
unfolding append_all committed
append_all-visits s [] v o =
    sym (newest-few (map visit_of s.visits) (omega (arith, length-map visit_of s.visits, v.few)))
append_all-visits s ((f, w) ∷ cs) v o =
    append_all-visits (append s f w.tab_uid w.url w.visited_at) cs (append-Inv s f w v o)
      (append-is_open s f w o)
    ∙ (ap (λ xs. newest (xs ++ committed cs)) (append-map s f w v o)
        ∙ newest-after_one (commits f) (map visit_of s.visits) w (committed cs))

-- The invariant holds after any appends to an open store on which it holds, whatever fails.
append_all-Inv :
    (s : VisitsStore) (cs : List (Faults × Visit))
    → Inv s
    → s.is_open ≡ true
    → Inv (append_all s cs) × ((append_all s cs).is_open ≡ true)
unfolding append_all
append_all-Inv s [] v o = (v, o)
append_all-Inv s ((f, w) ∷ cs) v o =
    append_all-Inv (append s f w.tab_uid w.url w.visited_at) cs (append-Inv s f w v o)
      (append-is_open s f w o)

-- From an open store with the invariant, whatever fails in whichever append, the journal reads as
-- the newest 999 of what it held and the visits whose transactions committed, in the order of the
-- appends.
pub read_all-append_all :
    (s : VisitsStore) (cs : List (Faults × Visit))
    → Inv s
    → s.is_open ≡ true
    → map visit_of (read_all (append_all s cs)) ≡ newest (map visit_of (read_all s) ++ committed cs)
read_all-append_all s cs v o =
    let after = append_all-Inv s cs v o in
    ap (map visit_of) (read_all-eq-visits (append_all s cs) after.0 after.1)
    ∙ (append_all-visits s cs v o
        ∙ ap (λ rs. newest (map visit_of rs ++ committed cs)) (sym (read_all-eq-visits s v o)))
