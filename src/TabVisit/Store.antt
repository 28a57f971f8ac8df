-- ===== src/TabVisit/Store.antt =====
-- The settled-visit journal's tables (roamux/browser/tab_visit/visits_store.{h,cc}). SQLite itself
-- is not modelled: a table is the list of its rows, and each SQL statement of the source is a
-- function on it. Whether a statement fails is an argument (`Faults`); a transaction that is not
-- committed leaves the tables as they were. Times are microseconds in an `int64_t`; 0 is the null
-- time, and `int64_max` the greatest.
pub mod Trim
pub mod Journal
pub mod Appends
pub mod Clear
pub mod TabStates
mod Examples
use roamux.Base.{
  ℕ, ◌+◌, String, Bool, false, not, ◌&&◌, ◌||◌, Option, none, some, List, [], ◌∷◌, ◌++◌, ltb, ◌==◌,
  if◌then◌else◌, length, str_eq, is_empty, contains, ℤ, pos, negsuc, ltb_ℤ,
}

pub record VisitRow : Type 0 where
  pub id : ℕ
  pub tab_uid : String
  pub url : String
  pub visited_at : ℤ

pub record TabStateRow : Type 0 where
  pub restore_key : String
  pub closed : Bool
  pub window_id : ℤ
  pub last_known_url : String

-- `next_id` is what AUTOINCREMENT hands out next.
pub record VisitsStore : Type 0 where
  pub is_open : Bool
  pub visits : List VisitRow
  pub next_id : ℕ
  pub tab_state : List TabStateRow

-- Which step of a transaction fails.
pub record Faults : Type 0 where
  pub begin_fails : Bool
  pub first_fails : Bool
  pub second_fails : Bool
  pub commit_fails : Bool

abbrev pub max_visits : ℕ
max_visits = 999

-- How many rows have a greater id.
pub rank : ℕ → List VisitRow → ℕ
rank i [] = 0
rank i (r ∷ rs) = (if ltb i r.id then 1 else 0) + rank i rs

-- `id NOT IN (SELECT id FROM visits ORDER BY id DESC LIMIT limit)`, negated, for each of the rows.
pub keep_newest : ℕ → List VisitRow → List VisitRow → List VisitRow
unfolding rank
keep_newest limit table [] = []
keep_newest limit table (r ∷ rs) =
    let rest = keep_newest limit table rs in if ltb (rank r.id table) limit then r ∷ rest else rest

pub append : VisitsStore → Faults → String → String → ℤ → VisitsStore
append s f tab_uid url visited_at =
    let row : VisitRow = record {
      id = s.next_id;
      tab_uid = tab_uid;
      url = url;
      visited_at = visited_at;
    } in
    let inserted = s.visits ++ row ∷ [] in
    if not s.is_open
    then s
    else if f.begin_fails
    then s
    else if f.first_fails
    then s
    else if f.second_fails
    then s
    else if f.commit_fails
    then s
    else record s { visits = keep_newest max_visits inserted inserted; next_id = s.next_id + 1 }

-- `ORDER BY id ASC`.
pub insert_by_id : VisitRow → List VisitRow → List VisitRow
insert_by_id r [] = r ∷ []
insert_by_id r (x ∷ xs) = if ltb r.id x.id then r ∷ x ∷ xs else x ∷ insert_by_id r xs

pub order_by_id : List VisitRow → List VisitRow
unfolding insert_by_id
order_by_id [] = []
order_by_id (r ∷ rs) = insert_by_id r (order_by_id rs)

pub read_all : VisitsStore → List VisitRow
read_all s = if not s.is_open then [] else order_by_id s.visits

pub row_count : VisitsStore → ℕ
row_count s = if not s.is_open then 0 else length s.visits

abbrev pub int64_max : ℤ
int64_max = pos 9223372036854775807

abbrev pub int64_min : ℤ
int64_min = negsuc 9223372036854775807

abbrev pub is_null : ℤ → Bool
is_null (pos n) = n == 0
is_null (negsuc n) = false

abbrev pub is_max : ℤ → Bool
is_max (pos n) = n == 9223372036854775807
is_max (negsuc n) = false

abbrev pub lower_bound : ℤ → ℤ
lower_bound begin = if is_null begin then int64_min else begin

abbrev pub upper_bound : ℤ → ℤ
upper_bound end = if is_max end then int64_max else end

-- `visited_at >= ? AND visited_at < ?`.
pub in_range : ℤ → ℤ → VisitRow → Bool
in_range begin end r =
    not (ltb_ℤ r.visited_at (lower_bound begin)) && ltb_ℤ r.visited_at (upper_bound end)

pub delete_visits : ℤ → ℤ → List VisitRow → List VisitRow
unfolding in_range
delete_visits begin end [] = []
delete_visits begin end (r ∷ rs) =
    let rest = delete_visits begin end rs in if in_range begin end r then rest else r ∷ rest

-- `SELECT DISTINCT tab_uid FROM visits WHERE tab_uid<>''`, up to order and repetition.
pub referenced_uids : List VisitRow → List String
referenced_uids [] = []
referenced_uids (r ∷ rs) =
    let rest = referenced_uids rs in if is_empty r.tab_uid then rest else r.tab_uid ∷ rest

-- `closed=1 AND restore_key NOT IN (…)`.
pub delete_orphans : List String → List TabStateRow → List TabStateRow
delete_orphans uids [] = []
delete_orphans uids (r ∷ rs) =
    let rest = delete_orphans uids rs in
    if r.closed && not (contains uids r.restore_key) then rest else r ∷ rest

pub clear_for_browsing_data_removal : VisitsStore → Faults → ℤ → ℤ → VisitsStore
clear_for_browsing_data_removal s f begin end =
    let kept = delete_visits begin end s.visits in
    if not s.is_open
    then s
    else if f.begin_fails
    then s
    else if f.first_fails
    then s
    else if f.second_fails
    then s
    else if f.commit_fails
    then s
    else record s { visits = kept; tab_state = delete_orphans (referenced_uids kept) s.tab_state }

-- `INSERT OR REPLACE` on the primary key: the old row goes, the new one is added.
pub without_key : String → List TabStateRow → List TabStateRow
without_key k [] = []
without_key k (r ∷ rs) =
    let rest = without_key k rs in if str_eq r.restore_key k then rest else r ∷ rest

pub upsert_tab_state : VisitsStore → Bool → TabStateRow → VisitsStore
unfolding without_key
upsert_tab_state s fails row =
    if not s.is_open || fails
    then s
    else record s { tab_state = without_key row.restore_key s.tab_state ++ row ∷ [] }

pub select_key : String → List TabStateRow → Option TabStateRow
select_key k [] = none
select_key k (r ∷ rs) = if str_eq r.restore_key k then some r else select_key k rs

pub get_tab_state : VisitsStore → String → Option TabStateRow
unfolding select_key
get_tab_state s restore_key = if not s.is_open then none else select_key restore_key s.tab_state
