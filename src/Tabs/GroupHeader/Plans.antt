-- ===== src/Tabs/GroupHeader/Plans.antt =====
-- The plan of a bulk pass: which groups it toggles and in which order.
use mathlib.Core.List.{Perm, perm_append_singleton}
use mathlib.Core.List.Perm
use roamux.Base.{
  ℕ, ◌≡◌, refl, ◌⊎◌, inl, inr, Bool, true, false, not, ◌&&◌, ◌||◌, Option, none, some, List, [],
  ◌∷◌, ◌++◌, arith, ◌==◌, if◌then◌else◌,
}
use roamux.Tabs.GroupHeader.{
  GroupState, Snapshot, bool_eq, all_expanded_before, scan_plan, push_last, plan_double_click_all,
}

-- The ids of the groups whose state is not the target, in the window's order.
unfoldable pub needing : Bool → Snapshot → List ℕ
needing target [] = []
needing target (g ∷ gs) =
    if bool_eq g.collapsed target then needing target gs else g.id ∷ needing target gs

abbrev pub NoActive : Snapshot → Type 0
NoActive [] = Unit
NoActive (g ∷ gs) = (g.contains_active_tab ≡ false) × NoActive gs

-- At most one group holds the active tab.
abbrev pub OneActive : Snapshot → Type 0
OneActive [] = Unit
OneActive (g ∷ gs) =
    ((g.contains_active_tab ≡ true) × NoActive gs)
    ⊎ ((g.contains_active_tab ≡ false) × OneActive gs)

pub scan_plan-NoActive :
    (target : Bool) (gs : Snapshot) (last : Option ℕ)
    → NoActive gs
    → scan_plan target gs last ≡ (needing target gs, last)
unfolding scan_plan needing
scan_plan-NoActive target [] last n = refl
scan_plan-NoActive target (g ∷ gs) last n = ground (arith, scan_plan-NoActive target gs last n.1)

pub push_last-cons : (id : ℕ) (r : List ℕ × Option ℕ) → push_last (id ∷ r.0, r.1) ≡ id ∷ push_last r
push_last-cons id (ids, none) = refl
push_last-cons id (ids, some l) = refl

OneActive-NoActive : (gs : Snapshot) → NoActive gs → OneActive gs
OneActive-NoActive [] n = tt
OneActive-NoActive (g ∷ gs) n = inr (n.0, OneActive-NoActive gs n.1)

pub NoActive-behind :
    (g : GroupState) (gs : Snapshot)
    → g.contains_active_tab ≡ true
    → OneActive (g ∷ gs)
    → NoActive gs
NoActive-behind g gs a (inl (b, n)) = n
NoActive-behind g gs a (inr (b, o)) = cc

-- What the scan does with one group: skip it, keep it for last, or push it.
pub scan_step :
    (target : Bool) (g : GroupState) (gs : Snapshot) (last : Option ℕ)
    → ((scan_plan target (g ∷ gs) last ≡ scan_plan target gs last)
        × (needing target (g ∷ gs) ≡ needing target gs))
      ⊎ ((g.contains_active_tab ≡ true)
          × (scan_plan target (g ∷ gs) last ≡ scan_plan target gs (some g.id))
          × (needing target (g ∷ gs) ≡ g.id ∷ needing target gs))
      ⊎ ((scan_plan target (g ∷ gs) last
            ≡ (g.id ∷ (scan_plan target gs last).0, (scan_plan target gs last).1))
          × (needing target (g ∷ gs) ≡ g.id ∷ needing target gs))
unfolding scan_plan needing
scan_step target g gs last = ground arith

pub OneActive-tail : (g : GroupState) (gs : Snapshot) → OneActive (g ∷ gs) → OneActive gs
OneActive-tail g [] o = tt
OneActive-tail g (x ∷ gs) (inl (a, (n, ns))) = inr (n, OneActive-NoActive gs ns)
OneActive-tail g (x ∷ gs) (inr (a, o)) = o

scan_plan-perm :
    (target : Bool) (gs : Snapshot)
    → OneActive gs
    → Perm (push_last (scan_plan target gs none)) (needing target gs)
scan_plan-perm target [] o = unfold scan_plan needing in Perm.refl []
scan_plan-perm target (g ∷ gs) o =
    let ih = scan_plan-perm target gs (OneActive-tail g gs o) in
    elim (scan_step target g gs none) [
      | inl (s, n) ↦ rw (s, n) ih
      | inr (inl (a, s, n)) ↦
          rw (s, n, scan_plan-NoActive target gs (some g.id) (NoActive-behind g gs a o))
            (perm_append_singleton g.id (needing target gs))
      | inr (inr (s, n)) ↦
          rw (s, n, push_last-cons g.id (scan_plan target gs none)) (Perm.cons g.id ih)
    ]

-- The pass visits exactly the groups whose state differs from the target, each as often as it
-- stands in the window, if at most one group holds the active tab.
plan_double_click_all-perm :
    (gs : Snapshot) (clicked : ℕ) (pre : Bool)
    → OneActive gs
    → let plan = plan_double_click_all gs clicked pre in
      Perm plan.to_toggle (needing plan.target_collapsed gs)
unfolding plan_double_click_all
plan_double_click_all-perm gs clicked pre o =
    scan_plan-perm (all_expanded_before gs clicked pre) gs o

-- The window before the gesture: only the clicked group may differ from what is seen now.
unfoldable pub before_gesture : ℕ → Bool → Snapshot → Snapshot
before_gesture clicked pre [] = []
before_gesture clicked pre (g ∷ gs) =
    (if g.id == clicked then record g { collapsed = pre } else g) ∷ before_gesture clicked pre gs

unfoldable pub any_collapsed : Snapshot → Bool
any_collapsed [] = false
any_collapsed (g ∷ gs) = g.collapsed || any_collapsed gs

pub all_expanded_before-eq-not :
    (gs : Snapshot) (clicked : ℕ) (pre : Bool)
    → all_expanded_before gs clicked pre ≡ not (any_collapsed (before_gesture clicked pre gs))
unfolding all_expanded_before any_collapsed before_gesture
all_expanded_before-eq-not [] clicked pre = refl
all_expanded_before-eq-not (g ∷ gs) clicked pre =
    ground (arith, all_expanded_before-eq-not gs clicked pre)

-- The target is to collapse exactly if no group was collapsed before the gesture.
pub plan_double_click_all-target :
    (gs : Snapshot) (clicked : ℕ) (pre : Bool)
    → (plan_double_click_all gs clicked pre).target_collapsed
      ≡ not (any_collapsed (before_gesture clicked pre gs))
unfolding plan_double_click_all
plan_double_click_all-target gs clicked pre = all_expanded_before-eq-not gs clicked pre

-- The group with the active tab, if it must change.
unfoldable pub active_needing : Snapshot → Option ℕ
active_needing [] = none
active_needing (g ∷ gs) =
    if g.contains_active_tab && not g.collapsed then some g.id else active_needing gs

active_needing-NoActive : (gs : Snapshot) → NoActive gs → active_needing gs ≡ none
unfolding active_needing
active_needing-NoActive [] n = refl
active_needing-NoActive (g ∷ gs) n = ground (arith, active_needing-NoActive gs n.1)

scan_plan-last : (gs : Snapshot) → OneActive gs → (scan_plan true gs none).1 ≡ active_needing gs
unfolding scan_plan active_needing
scan_plan-last [] o = refl
scan_plan-last (g ∷ gs) (inl (a, n)) = ground (
  arith,
  active_needing-NoActive gs n,
  scan_plan-NoActive true gs none n,
  scan_plan-NoActive true gs (some g.id) n,
)
scan_plan-last (g ∷ gs) (inr (a, o)) = ground (arith, scan_plan-last gs o)

-- On a pass that collapses, the group with the active tab, if it must change, is toggled last.
plan_double_click_all-active_last :
    (gs : Snapshot) (clicked : ℕ) (pre : Bool) (id : ℕ)
    → OneActive gs
    → (plan_double_click_all gs clicked pre).target_collapsed ≡ true
    → active_needing gs ≡ some id
    → (ids : List ℕ) × ((plan_double_click_all gs clicked pre).to_toggle ≡ ids ++ id ∷ [])
unfolding plan_double_click_all
plan_double_click_all-active_last gs clicked pre id o t a =
    ((scan_plan true gs none).0, rw t (ground (arith, scan_plan-last gs o)))
