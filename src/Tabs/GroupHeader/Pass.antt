-- ===== src/Tabs/GroupHeader/Pass.antt =====
-- The bulk pass on a window that does what its controller is told.
use roamux.Base.{
  ℕ, ◌≡◌, refl, ap, ◌∙◌, inl, inr, Bool, true, false, not, ◌&&◌, ◌||◌, none, some, List, [], ◌∷◌,
  ◌++◌, arith, ◌==◌, ==_iff, ==_refl, Bool-cases, Option-cases,
}
use roamux.Tabs.GroupHeader.{
  GroupState, Snapshot, find_group, bool_eq, all_expanded_before, scan_plan, push_last, completed,
  Callbacks, pass_loop, run_double_click_all,
}
use roamux.Tabs.GroupHeader.Plans.{
  needing, OneActive, scan_plan-NoActive, push_last-cons, NoActive-behind, scan_step,
  OneActive-tail, before_gesture, any_collapsed, all_expanded_before-eq-not,
}
use roamux.Tabs.GroupHeader.Flipped.{has_group, DistinctIds, flip_group, flip_group-DistinctIds}

-- The window's groups are the whole state, and a toggle flips one group.
abbrev pub obedient : Callbacks Snapshot
obedient = record { snapshot = λ w. (w, some w); toggle = λ id w. (flip_group id w, true) }

pub listed : List ℕ → ℕ → Bool
listed [] id = false
listed (x ∷ xs) id = x == id || listed xs id

-- Every group is at the target or still to be visited.
pub covered : Bool → List ℕ → Snapshot → Bool
covered target ids [] = true
covered target ids (g ∷ gs) =
    (bool_eq g.collapsed target || listed ids g.id) && covered target ids gs

-- Every group is at the target.
unfoldable pub all_at : Bool → Snapshot → Bool
all_at target [] = true
all_at target (g ∷ gs) = bool_eq g.collapsed target && all_at target gs

covered_end :
    (target : Bool) (gs : Snapshot) → covered target [] gs ≡ true → all_at target gs ≡ true
unfolding covered listed all_at
covered_end target [] h = refl
covered_end target (g ∷ gs) h = ground (arith, covered_end target gs)

covered_absent :
    (target : Bool) (id : ℕ) (ids : List ℕ) (gs : Snapshot)
    → has_group gs id ≡ false
    → covered target (id ∷ ids) gs ≡ true
    → covered target ids gs ≡ true
unfolding covered listed has_group
covered_absent target id ids [] n h = refl
covered_absent target id ids (g ∷ gs) n h = ground (arith, covered_absent target id ids gs)

find_group-none : (gs : Snapshot) (id : ℕ) → find_group gs id ≡ none → has_group gs id ≡ false
unfolding find_group has_group
find_group-none [] id h = refl
find_group-none (g ∷ gs) id h = ground (arith, find_group-none gs id)

covered_done :
    (target : Bool) (id : ℕ) (ids : List ℕ) (gs : Snapshot) (g : GroupState)
    → DistinctIds gs
    → find_group gs id ≡ some g
    → bool_eq g.collapsed target ≡ true
    → covered target (id ∷ ids) gs ≡ true
    → covered target ids gs ≡ true
unfolding covered listed find_group
covered_done target id ids [] g d e b h = refl
covered_done target id ids (x ∷ gs) g d e b h =
    ground
      (arith, covered_absent target id ids gs, covered_done target id ids gs g d.1, ==_iff x.id id)

flip_group-absent : (id : ℕ) (gs : Snapshot) → has_group gs id ≡ false → flip_group id gs ≡ gs
unfolding has_group flip_group
flip_group-absent id [] h = refl
flip_group-absent id (g ∷ gs) h = ground (arith, flip_group-absent id gs)

covered_flip :
    (target : Bool) (id : ℕ) (ids : List ℕ) (gs : Snapshot) (g : GroupState)
    → DistinctIds gs
    → find_group gs id ≡ some g
    → bool_eq g.collapsed target ≡ false
    → covered target (id ∷ ids) gs ≡ true
    → covered target ids (flip_group id gs) ≡ true
unfolding covered listed find_group flip_group
covered_flip target id ids [] g d e b h = refl
covered_flip target id ids (x ∷ gs) g d e b h = ground (
  arith,
  covered_absent target id ids gs,
  flip_group-absent id gs,
  covered_flip target id ids gs g d.1,
  ==_iff x.id id,
)

pass_loop-all_at :
    (target : Bool) (ids : List ℕ) (w : Snapshot)
    → DistinctIds w
    → covered target ids w ≡ true
    → ((pass_loop obedient target ids w).1 ≡ completed)
      × (all_at target (pass_loop obedient target ids w).0 ≡ true)
unfolding pass_loop
pass_loop-all_at target [] w d h = (refl, covered_end target w h)
pass_loop-all_at target (id ∷ ids) w d h = elim (Option-cases (find_group w id)) [
  | inl e ↦ ground (
    arith,
    covered_absent target id ids w (find_group-none w id e) h,
    pass_loop-all_at target ids w d,
  )
  | inr (g, e) ↦ elim (Bool-cases (bool_eq g.collapsed target)) [
    | inl b ↦
        ground (arith, covered_done target id ids w g d e b h, pass_loop-all_at target ids w d)
    | inr b ↦ ground (
      arith,
      covered_flip target id ids w g d e b h,
      pass_loop-all_at target ids (flip_group id w) (flip_group-DistinctIds id w d),
    )
  ]
]

listed-append_one : (ids : List ℕ) (x y : ℕ) → listed (ids ++ x ∷ []) y ≡ (x == y || listed ids y)
unfolding listed
listed-append_one [] x y = ground arith
listed-append_one (i ∷ ids) x y = ground (arith, listed-append_one ids x y)

listed-scan_plan :
    (target : Bool) (gs : Snapshot) (x : ℕ)
    → OneActive gs
    → listed (push_last (scan_plan target gs none)) x ≡ listed (needing target gs) x
listed-scan_plan target [] x o = unfold scan_plan needing in refl
listed-scan_plan target (g ∷ gs) x o =
    let ih = listed-scan_plan target gs x (OneActive-tail g gs o) in
    elim (scan_step target g gs none) [
      | inl (s, n) ↦ rw (s, n) ih
      | inr (inl (a, s, n)) ↦
          rw (s, n, scan_plan-NoActive target gs (some g.id) (NoActive-behind g gs a o))
            (unfold listed in listed-append_one (needing target gs) g.id x)
      | inr (inr (s, n)) ↦
          rw (s, n, push_last-cons g.id (scan_plan target gs none))
            (cons_case g.id x (push_last (scan_plan target gs none)) (needing target gs) ih)
    ]
  where
    cons_case :
        (y x : ℕ) (ids js : List ℕ)
        → listed ids x ≡ listed js x
        → listed (y ∷ ids) x ≡ listed (y ∷ js) x
    cons_case y x ids js e = unfold listed in ap (λ b. y == x || b) e

covered-cons :
    (target : Bool) (id : ℕ) (ids : List ℕ) (gs : Snapshot)
    → covered target ids gs ≡ true
    → covered target (id ∷ ids) gs ≡ true
unfolding covered listed
covered-cons target id ids [] h = refl
covered-cons target id ids (g ∷ gs) h = ground (arith, covered-cons target id ids gs)

covered-needing : (target : Bool) (gs : Snapshot) → covered target (needing target gs) gs ≡ true
unfolding covered listed needing
covered-needing target [] = refl
covered-needing target (g ∷ gs) = ground (
  arith,
  covered-needing target gs,
  covered-cons target g.id (needing target gs) gs,
  ==_refl g.id,
)

covered-congr :
    (target : Bool) (ids js : List ℕ) (gs : Snapshot)
    → ((x : ℕ) → listed ids x ≡ listed js x)
    → covered target ids gs ≡ covered target js gs
unfolding covered
covered-congr target ids js [] h = refl
covered-congr target ids js (g ∷ gs) h = ground (arith, h g.id, covered-congr target ids js gs h)

-- In a window with distinct ids and at most one group with the active tab, whose controller does
-- what it is told, a bulk pass that is not nested completes, and every group ends at the target:
-- all collapsed if no group was collapsed before the gesture, all expanded otherwise.
pub run_double_click_all-all_at :
    (w : Snapshot) (clicked : ℕ) (pre : Bool)
    → DistinctIds w
    → OneActive w
    → ((run_double_click_all obedient false clicked pre w).1 ≡ completed)
      × (all_at
            (not (any_collapsed (before_gesture clicked pre w)))
            (run_double_click_all obedient false clicked pre w).0
          ≡ true)
unfolding run_double_click_all
run_double_click_all-all_at w clicked pre d o =
    let target = all_expanded_before w clicked pre in
    let cover =
      covered-congr target (push_last (scan_plan target w none)) (needing target w) w
        (λ x. listed-scan_plan target w x o)
      ∙ covered-needing target w in
    let r = pass_loop-all_at target (push_last (scan_plan target w none)) w d cover in
    rw (← all_expanded_before-eq-not w clicked pre) r
