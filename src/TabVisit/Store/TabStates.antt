-- ===== src/TabVisit/Store/TabStates.antt =====
-- The sidecar as a map from restore keys to rows.
use mathlib.Core.Path.{subst}
use roamux.Base.{
  String, ◌≡◌, refl, ap, Bool, true, false, not, ◌&&◌, ◌||◌, Option, none, some, List, [], ◌∷◌,
  ◌++◌, arith, if◌then◌else◌, if_intro, str_eq, str_eq_iff, str_eq_refl, contains,
}
use roamux.TabVisit.Store.{
  TabStateRow, VisitsStore, delete_orphans, without_key, upsert_tab_state, select_key,
  get_tab_state,
}

abbrev pub Absent : String → List TabStateRow → Type 0
Absent k [] = Unit
Absent k (r ∷ rs) = (str_eq r.restore_key k ≡ false) × Absent k rs

-- The primary key: no two rows have the same.
abbrev pub OneRowPerKey : List TabStateRow → Type 0
OneRowPerKey [] = Unit
OneRowPerKey (r ∷ rs) = Absent r.restore_key rs × OneRowPerKey rs

same_key : (a b k : String) → str_eq a b ≡ true → str_eq a k ≡ str_eq b k
same_key a b k e = ap (λ x. str_eq x k) ((str_eq_iff a b).0 e)

other_key : (a b k : String) → str_eq a b ≡ false → str_eq b k ≡ true → str_eq a k ≡ false
other_key a b k e h = subst (λ x. str_eq a x ≡ false) ((str_eq_iff b k).0 h) e

select_key-snoc :
    (k : String) (rs : List TabStateRow) (row : TabStateRow)
    → select_key k (without_key row.restore_key rs ++ row ∷ [])
      ≡ (if str_eq row.restore_key k then some row else select_key k rs)
unfolding select_key without_key
select_key-snoc k [] row = refl
select_key-snoc k (r ∷ rs) row = ground (
  arith,
  select_key-snoc k rs row,
  same_key r.restore_key row.restore_key k,
  other_key r.restore_key row.restore_key k,
)

-- In an open store an upsert that succeeds is what a look-up of its key finds, and no other key's
-- row changes; one that fails changes nothing.
pub get_tab_state-upsert_tab_state :
    (s : VisitsStore) (fails : Bool) (row : TabStateRow) (k : String)
    → s.is_open ≡ true
    → get_tab_state (upsert_tab_state s fails row) k
      ≡ (if not fails && str_eq row.restore_key k then some row else get_tab_state s k)
unfolding get_tab_state upsert_tab_state
get_tab_state-upsert_tab_state s fails row k o = ground (arith, select_key-snoc k s.tab_state row)

Absent-without_key :
    (k j : String) (rs : List TabStateRow) → Absent j rs → Absent j (without_key k rs)
unfolding without_key
Absent-without_key k j [] a = tt
Absent-without_key k j (r ∷ rs) a =
    if_intro (Absent j) (str_eq r.restore_key k) (without_key k rs) (r ∷ without_key k rs)
      (λ e. Absent-without_key k j rs a.1) (λ e. (a.0, Absent-without_key k j rs a.1))

without_key-Absent : (k : String) (rs : List TabStateRow) → Absent k (without_key k rs)
unfolding without_key
without_key-Absent k [] = tt
without_key-Absent k (r ∷ rs) =
    if_intro (Absent k) (str_eq r.restore_key k) (without_key k rs) (r ∷ without_key k rs)
      (λ e. without_key-Absent k rs) (λ e. (e, without_key-Absent k rs))

select_none :
    (j k : String) (rs : List TabStateRow)
    → Absent j rs
    → str_eq j k ≡ true
    → select_key k rs ≡ none
unfolding select_key
select_none j k [] a e = refl
select_none j k (r ∷ rs) a e =
    rw (subst (λ x. str_eq r.restore_key x ≡ false) ((str_eq_iff j k).0 e) a.0)
      (select_none j k rs a.1 e)

-- What is left of a row after the collection.
abbrev pub if_kept : List String → Option TabStateRow → Option TabStateRow
if_kept uids none = none
if_kept uids (some r) = if r.closed && not (contains uids r.restore_key) then none else some r

pub select_key-delete_orphans :
    (uids : List String) (k : String) (rs : List TabStateRow)
    → OneRowPerKey rs
    → select_key k (delete_orphans uids rs) ≡ if_kept uids (select_key k rs)
unfolding select_key delete_orphans
select_key-delete_orphans uids k [] o = refl
select_key-delete_orphans uids k (r ∷ rs) o =
    ground (arith, select_key-delete_orphans uids k rs o.1, select_none r.restore_key k rs o.0)

OneRowPerKey-without_key :
    (k : String) (rs : List TabStateRow) → OneRowPerKey rs → OneRowPerKey (without_key k rs)
unfolding without_key
OneRowPerKey-without_key k [] o = tt
OneRowPerKey-without_key k (r ∷ rs) o =
    if_intro OneRowPerKey (str_eq r.restore_key k) (without_key k rs) (r ∷ without_key k rs)
      (λ e. OneRowPerKey-without_key k rs o.1)
      (λ e. (Absent-without_key k r.restore_key rs o.0, OneRowPerKey-without_key k rs o.1))

Absent-snoc :
    (j : String) (rs : List TabStateRow) (row : TabStateRow)
    → Absent j rs
    → str_eq row.restore_key j ≡ false
    → Absent j (rs ++ row ∷ [])
Absent-snoc j [] row a e = (e, tt)
Absent-snoc j (r ∷ rs) row a e = (a.0, Absent-snoc j rs row a.1 e)

str_eq_sym : (a b : String) → str_eq a b ≡ false → str_eq b a ≡ false
str_eq_sym a b e = ground (arith, other_key a b a, str_eq_refl a)

OneRowPerKey-snoc :
    (rs : List TabStateRow) (row : TabStateRow)
    → OneRowPerKey rs
    → Absent row.restore_key rs
    → OneRowPerKey (rs ++ row ∷ [])
OneRowPerKey-snoc [] row o a = (tt, tt)
OneRowPerKey-snoc (r ∷ rs) row o a = (
  Absent-snoc r.restore_key rs row o.0 (str_eq_sym r.restore_key row.restore_key a.0),
  OneRowPerKey-snoc rs row o.1 a.1,
)

-- An upsert keeps one row for each key.
pub upsert_tab_state-OneRowPerKey :
    (s : VisitsStore) (fails : Bool) (row : TabStateRow)
    → OneRowPerKey s.tab_state
    → OneRowPerKey (upsert_tab_state s fails row).tab_state
unfolding upsert_tab_state
upsert_tab_state-OneRowPerKey s fails row o =
    if_intro (λ (t : VisitsStore). OneRowPerKey t.tab_state) (not s.is_open || fails) s
      (record s { tab_state = without_key row.restore_key s.tab_state ++ row ∷ [] }) (λ e. o)
      (λ e.
        OneRowPerKey-snoc (without_key row.restore_key s.tab_state) row
          (OneRowPerKey-without_key row.restore_key s.tab_state o)
          (without_key-Absent row.restore_key s.tab_state))
