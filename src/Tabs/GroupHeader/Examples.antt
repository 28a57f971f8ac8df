-- ===== src/Tabs/GroupHeader/Examples.antt =====
-- The theorems about the double-click at a window of three groups, the second one active.
use roamux.Base.{◌≡◌, refl, inl, inr, true, false, not, some, [], ◌∷◌}
use roamux.Tabs.GroupHeader.{
  Snapshot, find_group, all_as_expected, equal_except_clicked_flipped, all_expanded_before,
  scan_plan, plan_double_click_all, run_double_click_all, idle_gesture, on_left_press,
  record_single_toggle, consume_on_double_click_release,
}
use roamux.Tabs.GroupHeader.Flipped.{has_group, DistinctIds, flip_group}
use roamux.Tabs.GroupHeader.Plans.{OneActive, before_gesture, any_collapsed}
use roamux.Tabs.GroupHeader.Pass.{obedient, all_at, run_double_click_all-all_at}
use roamux.Tabs.GroupHeader.Gesture.{double_click-runs_iff}

abbrev window : Snapshot
window =
    record { id = 4; collapsed = false; contains_active_tab = false }
    ∷ record { id = 5; collapsed = false; contains_active_tab = true }
    ∷ record { id = 6; collapsed = false; contains_active_tab = false }
    ∷ []

window-DistinctIds : DistinctIds window
unfolding has_group
window-DistinctIds = (refl, (refl, (refl, tt)))

window-OneActive : OneActive window
window-OneActive = inr (refl, inl (refl, (refl, tt)))

active_goes_last : (plan_double_click_all window 4 false).to_toggle ≡ 4 ∷ 6 ∷ 5 ∷ []
unfolding plan_double_click_all scan_plan all_expanded_before
active_goes_last = refl

run_double_click_all-all_at_example :
    all_at
      (not (any_collapsed (before_gesture 4 false window)))
      (run_double_click_all obedient false 4 false window).0
    ≡ true
run_double_click_all-all_at_example =
    (run_double_click_all-all_at window 4 false window-DistinctIds window-OneActive).1

double_click-runs_iff_example :
    consume_on_double_click_release
      (on_left_press
        (record_single_toggle idle_gesture 5 (some window) 100)
        true
        250
        500
        (some (flip_group 5 window)))
      5
      (some (flip_group 5 window))
    ≡ (idle_gesture, some false)
unfolding equal_except_clicked_flipped all_as_expected find_group flip_group
double_click-runs_iff_example =
    double_click-runs_iff idle_gesture 5 5 100 250 500 true (some window)
      (some (flip_group 5 window)) (some (flip_group 5 window))
