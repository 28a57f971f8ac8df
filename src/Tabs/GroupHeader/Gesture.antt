-- ===== src/Tabs/GroupHeader/Gesture.antt =====
-- The per-header gesture: what a click, a press and a release decide together.
use roamux.Base.{
  ℕ, ◌+◌, ◌≡◌, Bool, false, ◌&&◌, Option, none, some, arith, leb, ◌==◌, if◌then◌else◌, ==_iff,
}
use roamux.Tabs.GroupHeader.{
  Snapshot, find_group, equal_except_clicked_flipped, GestureState, idle_gesture, on_left_press,
  record_single_toggle, consume_on_double_click_release,
}

-- The recorded group's state, if the window was there and had it.
abbrev recorded_state : Option Snapshot → ℕ → Option Bool
recorded_state none clicked = none
recorded_state (some groups) clicked = elim (find_group groups clicked) [
  | none ↦ none
  | some g ↦ some g.collapsed
]

abbrev matches : Option Snapshot → Option Snapshot → ℕ → Bool
matches (some before) (some now) clicked = equal_except_clicked_flipped before now clicked
matches _ _ clicked = false

-- From any state of the header: a single click on a group, a left press and a release with the
-- double-click flag run the bulk pass exactly if the clicked group was in the window at the first
-- click, the press carried the flag and came in time, the release is on the same group, and at
-- both the press and the release the window was the recorded one with that group alone flipped;
-- the pass is then told the group's state before the first click. The header ends idle always.
pub double_click-runs_iff :
    (s : GestureState) (clicked released t_release t_press max_age : ℕ) (flag : Bool)
    (at_click at_press at_release : Option Snapshot)
    → let s₁ = record_single_toggle s clicked at_click t_release in
      let s₂ = on_left_press s₁ flag t_press max_age at_press in
      consume_on_double_click_release s₂ released at_release ≡ (
        idle_gesture,
        if flag
              && (leb t_press (t_release + max_age)
                  && (clicked == released
                      && (matches at_click at_press clicked
                          && matches at_click at_release clicked)))
            then recorded_state at_click clicked
            else none,
      )
unfolding record_single_toggle on_left_press consume_on_double_click_release
double_click-runs_iff s clicked released t_release t_press max_age flag none at_press at_release =
    ground arith
double_click-runs_iff s clicked released t_release t_press max_age flag (some before) none
      at_release =
    ground arith
double_click-runs_iff s clicked released t_release t_press max_age flag (some before) (some p)
      none =
    ground arith
double_click-runs_iff s clicked released t_release t_press max_age flag (some before) (some p)
      (some r) =
    ground (arith, ==_iff clicked released)
