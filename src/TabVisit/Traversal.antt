-- ===== src/TabVisit/Traversal.antt =====
-- The frozen-gesture walk over the derived most-recently-used order
-- (roamux/browser/tab_visit/tab_traversal_controller.{h,cc}). `TabIdentity` is a `String`, a
-- `flat_set` of identities a list read by `contains`, and the index -1 of the two searches `none`.
-- A method that changes the controller returns the new one beside its result.
pub mod Mru
pub mod Search
pub mod Walk
pub mod Inverse
mod Examples
use mathlib.Core.List.{reverse}
use roamux.Base.{
  ℕ, zero, suc, ◌-◌, String, Bool, true, false, ◌&&◌, ◌||◌, Option, none, some, List, [], ◌∷◌, map,
  ltb, if◌then◌else◌, has_value, length, get_or, drop, contains,
}

-- The loop of `DeriveMruOrder` over the reversed journal; `seen` is the set so far.
pub mru_loop : List String → List String → List String
mru_loop seen [] = []
mru_loop seen (x ∷ xs) =
    let old = contains seen x in
    let rest = mru_loop (if old then seen else x ∷ seen) xs in if old then rest else x ∷ rest

pub derive_mru_order : List String → List String
unfolding mru_loop
derive_mru_order journal = mru_loop [] (reverse journal)

-- The loop of `CanBeginBackTraversal` from index 1.
abbrev pub any_reachable : List String → List String → Bool
any_reachable reachable [] = false
any_reachable reachable (x ∷ xs) = contains reachable x || any_reachable reachable xs

pub can_begin_back_traversal : List String → List String → Bool
can_begin_back_traversal journal reachable =
    any_reachable reachable (drop 1 (derive_mru_order journal))

pub record Controller : Type 0 where
  pub frozen_order : List String
  pub landable : List Bool
  pub cursor : ℕ
  pub active : Bool

pub new_controller : Controller
new_controller = record { frozen_order = []; landable = []; cursor = 0; active = false }

pub begin_gesture : Controller → List String → List String → Controller
begin_gesture c journal reachable = if c.active then c else record {
  frozen_order = derive_mru_order journal;
  landable = map (contains reachable) (derive_mru_order journal);
  cursor = 0;
  active = true;
}

-- The loop of `NextLandableAfter`: `n` rounds are left, and `j` is the index of the next.
pub next_from : List Bool → ℕ → ℕ → Option ℕ
next_from landable j zero = none
next_from landable j (suc n) =
    if get_or landable j false then some j else next_from landable (suc j) n

pub next_landable_after : Controller → ℕ → Option ℕ
unfolding next_from
next_landable_after c index = next_from c.landable (suc index) (length c.landable - suc index)

-- The loop of `PrevLandableBefore`, downwards from the index below `j`.
pub prev_below : List Bool → ℕ → Option ℕ
prev_below landable zero = none
prev_below landable (suc j) = if get_or landable j false then some j else prev_below landable j

pub prev_landable_before : Controller → ℕ → Option ℕ
unfolding prev_below
prev_landable_before c index = prev_below c.landable index

pub can_go_back : Controller → Bool
can_go_back c = has_value (next_landable_after c c.cursor)

pub can_go_forward : Controller → Bool
can_go_forward c = has_value (prev_landable_before c c.cursor)

-- The common end of `Back` and `Forward`.
abbrev pub land : Controller → Option ℕ → Controller × Option String
land c none = (c, none)
land c (some j) = (record c { cursor = j }, some (get_or c.frozen_order j ""))

pub back : Controller → Controller × Option String
back c = land c (next_landable_after c c.cursor)

pub forward : Controller → Controller × Option String
forward c = land c (prev_landable_before c c.cursor)

pub current : Controller → Option String
current c =
    if ltb c.cursor (length c.frozen_order) && get_or c.landable c.cursor false
    then some (get_or c.frozen_order c.cursor "")
    else none

pub settle : Controller → Controller × Option String
unfolding current new_controller
settle c = (new_controller, current c)
