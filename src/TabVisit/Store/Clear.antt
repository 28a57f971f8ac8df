-- ===== src/TabVisit/Store/Clear.antt =====
-- The removal of browsing data: what stays of the journal and of the sidecar.
use mathlib.Core.Path.{subst}
use roamux.Base.{
  ℕ, suc, ◌≤◌, String, ◌≡◌, refl, sym, ap, ◌∙◌, Bool, true, false, not, Option, none, some, List,
  [], ◌∷◌, arith, if◌then◌else◌, if_intro, length, ℤ, pos, ltb_ℤ,
}
use roamux.TabVisit.Store.{
  VisitRow, TabStateRow, VisitsStore, Faults, order_by_id, read_all, int64_max, int64_min, in_range,
  delete_visits, referenced_uids, delete_orphans, clear_for_browsing_data_removal, get_tab_state,
}
use roamux.TabVisit.Store.Trim.{AscFrom, AscFrom-mono}
use roamux.TabVisit.Store.Journal.{Below, Inv}
use roamux.TabVisit.Store.Appends.{commits, five_returns}
use roamux.TabVisit.Store.TabStates.{OneRowPerKey, if_kept, select_key-delete_orphans}

abbrev cleared : VisitsStore → ℤ → ℤ → VisitsStore
cleared s begin end =
    let left = delete_visits begin end s.visits in
    record s { visits = left; tab_state = delete_orphans (referenced_uids left) s.tab_state }

clear-eq-cleared :
    (s : VisitsStore) (f : Faults) (begin end : ℤ)
    → s.is_open ≡ true
    → clear_for_browsing_data_removal s f begin end ≡ (if commits f then cleared s begin end else s)
unfolding clear_for_browsing_data_removal
clear-eq-cleared s f begin end o =
    five_returns s.is_open f.begin_fails f.first_fails f.second_fails f.commit_fails s
      (cleared s begin end) o

AscFrom-delete :
    (begin end : ℤ) (lo : ℕ) (rs : List VisitRow)
    → AscFrom lo rs
    → AscFrom lo (delete_visits begin end rs)
unfolding delete_visits
AscFrom-delete begin end lo [] a = tt
AscFrom-delete begin end lo (r ∷ rs) a =
    let rest = AscFrom-delete begin end (suc r.id) rs a.1 in
    if_intro (AscFrom lo) (in_range begin end r) (delete_visits begin end rs)
      (r ∷ delete_visits begin end rs)
      (λ e. AscFrom-mono lo (suc r.id) (delete_visits begin end rs) (omega (arith, a.0)) rest)
      (λ e. (a.0, rest))

Below-delete :
    (begin end : ℤ) (hi : ℕ) (rs : List VisitRow)
    → Below hi rs
    → Below hi (delete_visits begin end rs)
unfolding delete_visits
Below-delete begin end hi [] b = tt
Below-delete begin end hi (r ∷ rs) b =
    let rest = Below-delete begin end hi rs b.1 in
    if_intro (Below hi) (in_range begin end r) (delete_visits begin end rs)
      (r ∷ delete_visits begin end rs) (λ e. rest) (λ e. (b.0, rest))

length-delete_visits :
    (begin end : ℤ) (rs : List VisitRow) → length (delete_visits begin end rs) ≤ length rs
unfolding delete_visits
length-delete_visits begin end [] = omega arith
length-delete_visits begin end (r ∷ rs) = ground (arith, length-delete_visits begin end rs)

-- A clear keeps the invariant of an open store, whatever fails in it.
clear-Inv :
    (s : VisitsStore) (f : Faults) (begin end : ℤ)
    → Inv s
    → s.is_open ≡ true
    → Inv (clear_for_browsing_data_removal s f begin end)
clear-Inv s f begin end v o = subst Inv (sym (clear-eq-cleared s f begin end o)) (
    if_intro Inv (commits f) (cleared s begin end) s
      (λ e. record {
        ascending = AscFrom-delete begin end 0 s.visits v.ascending;
        below = Below-delete begin end s.next_id s.visits v.below;
        few = omega (arith, length-delete_visits begin end s.visits, v.few);
      })
      (λ e. v))

get-cleared :
    (s : VisitsStore) (begin end : ℤ) (k : String)
    → OneRowPerKey s.tab_state
    → s.is_open ≡ true
    → get_tab_state (cleared s begin end) k
      ≡ if_kept (referenced_uids (delete_visits begin end s.visits)) (get_tab_state s k)
unfolding get_tab_state
get-cleared s begin end k u o = ground (
  arith,
  o,
  select_key-delete_orphans (referenced_uids (delete_visits begin end s.visits)) k s.tab_state u,
)

-- In an open store with one row for each key, a clear that commits removes exactly the closed tab
-- states whose key no visit that is left refers to, and leaves every other look-up as it was; one
-- that fails leaves them all.
get_tab_state-clear :
    (s : VisitsStore) (f : Faults) (begin end : ℤ) (k : String)
    → OneRowPerKey s.tab_state
    → s.is_open ≡ true
    → get_tab_state (clear_for_browsing_data_removal s f begin end) k ≡ (
        if commits f
        then if_kept (referenced_uids (delete_visits begin end s.visits)) (get_tab_state s k)
        else get_tab_state s k)
get_tab_state-clear s f begin end k u o =
    subst
      (λ t. get_tab_state t k ≡ (
        if commits f
        then if_kept (referenced_uids (delete_visits begin end s.visits)) (get_tab_state s k)
        else get_tab_state s k))
      (sym (clear-eq-cleared s f begin end o)) (by_outcome (commits f))
  where
    by_outcome :
        (b : Bool)
        → get_tab_state (if b then cleared s begin end else s) k ≡ (
            if b
            then if_kept (referenced_uids (delete_visits begin end s.visits)) (get_tab_state s k)
            else get_tab_state s k)
    by_outcome true = get-cleared s begin end k u o
    by_outcome false = refl

abbrev pub WithinInt64 : List VisitRow → Type 0
WithinInt64 [] = Unit
WithinInt64 (r ∷ rs) =
    (ltb_ℤ r.visited_at int64_min ≡ false)
    × ((ltb_ℤ r.visited_at int64_max ≡ true) × WithinInt64 rs)

delete-all : (rs : List VisitRow) → WithinInt64 rs → delete_visits (pos 0) int64_max rs ≡ []
unfolding delete_visits in_range
delete-all [] h = refl
delete-all (r ∷ rs) h = rw (h.0, h.1.0) (delete-all rs h.1.1)

read_all-cleared :
    (s : VisitsStore)
    → s.is_open ≡ true
    → WithinInt64 s.visits
    → read_all (cleared s (pos 0) int64_max) ≡ []
unfolding read_all order_by_id
read_all-cleared s o h =
    if_intro (λ (rs : List VisitRow). rs ≡ []) (not s.is_open) []
      (order_by_id (delete_visits (pos 0) int64_max s.visits)) (λ e. refl)
      (λ e. ap order_by_id (delete-all s.visits h))

abbrev pub live_only : Option TabStateRow → Option TabStateRow
live_only none = none
live_only (some r) = if r.closed then none else some r

if_kept-none : (r : Option TabStateRow) → if_kept (referenced_uids []) r ≡ live_only r
unfolding referenced_uids
if_kept-none none = refl
if_kept-none (some r) = ground arith

-- A clear of all time that commits in an open store with one row for each key, where no visit is at
-- the greatest time: no visit is left, no closed tab state, and every live one as it was.
pub clear-all_time :
    (s : VisitsStore) (f : Faults)
    → OneRowPerKey s.tab_state
    → s.is_open ≡ true
    → commits f ≡ true
    → WithinInt64 s.visits
    → (read_all (clear_for_browsing_data_removal s f (pos 0) int64_max) ≡ [])
      × ((k : String)
          → get_tab_state (clear_for_browsing_data_removal s f (pos 0) int64_max) k
            ≡ live_only (get_tab_state s k))
clear-all_time s f u o c h =
    subst
      (λ t. (read_all t ≡ []) × ((k : String) → get_tab_state t k ≡ live_only (get_tab_state s k)))
      (sym (clear-eq-cleared s f (pos 0) int64_max o ∙ committed_clear (commits f) c))
      (
        read_all-cleared s o h,
        λ k.
            get-cleared s (pos 0) int64_max k u o
            ∙ (ap (λ rs. if_kept (referenced_uids rs) (get_tab_state s k)) (delete-all s.visits h)
                ∙ if_kept-none (get_tab_state s k)),
      )
  where
    committed_clear :
        (b : Bool)
        → b ≡ true
        → (if b then cleared s (pos 0) int64_max else s) ≡ cleared s (pos 0) int64_max
    committed_clear true e = refl
    committed_clear false e = ground arith
