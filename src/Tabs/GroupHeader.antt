-- ===== src/Tabs/GroupHeader.antt =====
-- Double-click on a tab group header (roamux/browser/tabs/group_header_double_click.{h,cc}).
-- A `TabGroupId` is a token that is only compared, so a number; `std::optional` is `Option`, and a
-- null pointer of `FindGroup` is `none`. Times are numbers of ticks.
pub mod Flipped
pub mod Plans
pub mod Pass
pub mod Gesture
mod Examples
use roamux.Base.{
  ℕ, ◌+◌, Bool, true, false, not, ◌&&◌, ◌||◌, Option, none, some, List, [], ◌∷◌, ◌++◌, leb, ◌==◌,
  if◌then◌else◌, length,
}

pub record GroupState : Type 0 where
  pub id : ℕ
  pub collapsed : Bool
  pub contains_active_tab : Bool

abbrev pub Snapshot : Type 0
Snapshot = List GroupState

pub find_group : Snapshot → ℕ → Option GroupState
find_group [] id = none
find_group (g ∷ gs) id = if g.id == id then some g else find_group gs id

abbrev pub bool_eq : Bool → Bool → Bool
bool_eq true b = b
bool_eq false b = not b

-- The test of one group of `before` in the loop of `EqualExceptClickedFlipped`.
pub as_expected : GroupState → Option GroupState → ℕ → Bool
as_expected b none clicked = false
as_expected b (some n) clicked =
    bool_eq n.collapsed (if b.id == clicked then not b.collapsed else b.collapsed)

pub all_as_expected : Snapshot → Snapshot → ℕ → Bool
unfolding as_expected
all_as_expected [] now clicked = true
all_as_expected (b ∷ before) now clicked =
    as_expected b (find_group now b.id) clicked && all_as_expected before now clicked

pub equal_except_clicked_flipped : Snapshot → Snapshot → ℕ → Bool
equal_except_clicked_flipped before now clicked =
    if not (length before == length now) then false else all_as_expected before now clicked

pub record Plan : Type 0 where
  pub target_collapsed : Bool
  pub to_toggle : List ℕ

-- The first loop of `PlanDoubleClickAll`.
pub all_expanded_before : Snapshot → ℕ → Bool → Bool
all_expanded_before [] clicked pre = true
all_expanded_before (g ∷ gs) clicked pre =
    if (if g.id == clicked then pre else g.collapsed)
    then false
    else all_expanded_before gs clicked pre

-- The second loop: what it pushes, and the group that is kept for last.
pub scan_plan : Bool → Snapshot → Option ℕ → List ℕ × Option ℕ
scan_plan target [] last = ([], last)
scan_plan target (g ∷ gs) last =
    let skips = bool_eq g.collapsed target in
    let keeps = not skips && (target && g.contains_active_tab) in
    let rest = scan_plan target gs (if keeps then some g.id else last) in
    if skips || keeps then rest else (g.id ∷ rest.0, rest.1)

abbrev pub push_last : List ℕ × Option ℕ → List ℕ
push_last (ids, none) = ids
push_last (ids, some id) = ids ++ id ∷ []

pub plan_double_click_all : Snapshot → ℕ → Bool → Plan
plan_double_click_all groups clicked pre =
    let target = all_expanded_before groups clicked pre in
    record { target_collapsed = target; to_toggle = push_last (scan_plan target groups none) }

pub data PassResult : Type 0 where
  completed stopped ignored_nested : PassResult

-- The two callbacks, over the state of the window and whatever else they reach.
pub record Callbacks (W : Type 0) : Type 0 where
  pub snapshot : W → W × Option Snapshot
  pub toggle : ℕ → W → W × Bool

module _ {W : Type 0} (cb : Callbacks W) where
  -- The loop of `RunDoubleClickAll`.
  pub pass_loop : Bool → List ℕ → W → W × PassResult
  pass_loop target [] w = (w, completed)
  pass_loop target (id ∷ ids) w =
      let (w', now) = cb.snapshot w in
      let (w'', done) = cb.toggle id w' in
      let skip = pass_loop target ids w' in
      let next = pass_loop target ids w'' in
      elim now [
        | none ↦ (w', stopped)
        | some groups ↦ elim (find_group groups id) [
          | none ↦ skip
          | some g ↦
              if bool_eq g.collapsed target then skip else if not done then (w'', stopped) else next
        ]
      ]

  -- `g_pass_running` is the first argument.
  pub run_double_click_all : Bool → ℕ → Bool → W → W × PassResult
  unfolding pass_loop plan_double_click_all
  run_double_click_all true clicked pre w = (w, ignored_nested)
  run_double_click_all false clicked pre w =
      let (w', groups) = cb.snapshot w in
      elim groups [
        | none ↦ (w', stopped)
        | some gs ↦
            let plan = plan_double_click_all gs clicked pre in
            pass_loop plan.target_collapsed plan.to_toggle w'
      ]

pub data GesturePhase : Type 0 where
  idle recorded latched : GesturePhase

pub record GestureState : Type 0 where
  pub phase : GesturePhase
  pub clicked : Option ℕ
  pub clicked_pre_collapsed : Bool
  pub before : Snapshot
  pub release_time : ℕ

abbrev pub is_recorded : GesturePhase → Bool
is_recorded recorded = true
is_recorded _ = false

abbrev pub is_latched : GesturePhase → Bool
is_latched latched = true
is_latched _ = false

-- `Reset`, which is also the state of a new gesture.
pub idle_gesture : GestureState
idle_gesture = record {
  phase = idle;
  clicked = none;
  clicked_pre_collapsed = false;
  before = [];
  release_time = 0;
}

-- The window matches the recorded one: both are there, and only `clicked` is flipped.
pub still_matches : Snapshot → Option Snapshot → Option ℕ → Bool
still_matches before (some groups) (some clicked) =
    equal_except_clicked_flipped before groups clicked
still_matches before _ _ = false

-- `press_time - release_time_ <= max_age` on signed ticks.
pub on_left_press : GestureState → Bool → ℕ → ℕ → Option Snapshot → GestureState
unfolding still_matches idle_gesture
on_left_press s double_click_flag press_time max_age groups =
    if is_recorded s.phase
      && (double_click_flag
          && (leb press_time (s.release_time + max_age) && still_matches s.before groups s.clicked))
    then record s { phase = latched }
    else idle_gesture

pub record_single_toggle : GestureState → ℕ → Option Snapshot → ℕ → GestureState
unfolding idle_gesture
record_single_toggle s clicked none release_time = idle_gesture
record_single_toggle s clicked (some groups) release_time = elim (find_group groups clicked) [
  | none ↦ idle_gesture
  | some g ↦ record {
    phase = recorded;
    clicked = some clicked;
    clicked_pre_collapsed = g.collapsed;
    before = groups;
    release_time = release_time;
  }
]

abbrev pub is_clicked : Option ℕ → ℕ → Bool
is_clicked none id = false
is_clicked (some c) id = c == id

pub consume_on_double_click_release :
    GestureState → ℕ → Option Snapshot → GestureState × Option Bool
unfolding still_matches idle_gesture
consume_on_double_click_release s clicked groups = (
  idle_gesture,
  if is_latched s.phase
        && (is_clicked s.clicked clicked && still_matches s.before groups (some clicked))
      then some s.clicked_pre_collapsed
      else none,
)
