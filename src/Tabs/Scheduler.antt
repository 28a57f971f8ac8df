-- ===== src/Tabs/Scheduler.antt =====
-- The pacing engine of "refresh all tabs to their initial URLs"
-- (roamux/browser/tabs/initial_url_refresh_scheduler.{h,cc}). Times are numbers of milliseconds.
-- The delegate and the clock are a parameter over a world `W`. A settle that is posted waits in
-- `posted`, and the one-shot timer holds its deadline and its callback; `Event` lists what the
-- message loop and the outside do, in any order. The log keeps the loads that began and the end of
-- the run, newest first.
pub mod Bounds
pub mod Loop
pub mod Order
pub mod Pacing
pub mod Progress
mod Examples
use roamux.Base.{
  ℕ, zero, suc, ◌+◌, ◌-◌, max, Bool, true, false, not, ◌||◌, Option, none, some, List, [], ◌∷◌,
  ◌++◌, ltb, leb, ◌==◌, if◌then◌else◌, ℤ, pos, negsuc,
}

pub record Params : Type 0 where
  pub interval : ℕ
  pub min_spacing : ℕ

-- `x < lo || x > hi ? d : x` on an `int`.
abbrev pub in_range_or : ℕ → ℕ → ℕ → ℤ → ℕ
in_range_or lo hi d (pos x) = if ltb x lo || ltb hi x then d else x
in_range_or lo hi d (negsuc x) = d

abbrev pub min_of : ℕ → ℕ → ℕ
min_of a b = if ltb b a then b else a

pub from_milliseconds : ℤ → ℤ → Params
from_milliseconds interval_ms min_spacing_ms =
    let interval = in_range_or 250 600000 5000 interval_ms in
    let spacing = in_range_or 100 600000 750 min_spacing_ms in
    record { interval = interval; min_spacing = min_of spacing interval }

-- What a call of `StartItem` comes to: whether a load began, the items that it reported settled
-- before it returned, and the world after it.
pub record StartResult (W : Type 0) : Type 0 where
  pub began : Bool
  pub notified : List ℕ
  pub after : W

pub record Delegate (W : Type 0) : Type 0 where
  pub now : W → ℕ
  pub should_defer : W → Bool
  pub start_item : ℕ → W → StartResult W

pub data Callback : Type 0 where
  start_from_cursor_task interval_elapsed_task defer_elapsed_task : Callback

pub data Entry : Type 0 where
  began_at : ℕ → ℕ → Entry
  run_finished : Entry

pub record Scheduler (W : Type 0) : Type 0 where
  pub params : Params
  pub timer : Option (ℕ × Callback)
  pub item_count : ℕ
  pub cursor : ℕ
  pub running : Bool
  pub waiting : Bool
  pub last_start : ℕ
  pub posted : List ℕ
  pub world : W
  pub log : List Entry

module _ {W : Type 0} (d : Delegate W) where
  pub notify_item_settled : Scheduler W → ℕ → Scheduler W
  notify_item_settled s index =
      if not s.running || not s.waiting || not (index == s.cursor)
      then s
      else record s { posted = s.posted ++ index ∷ [] }

  pub notify_all : Scheduler W → List ℕ → Scheduler W
  notify_all s [] = s
  notify_all s (i ∷ is) = notify_all (notify_item_settled s i) is

  pub finish : Scheduler W → Scheduler W
  finish s = record s {
    running = false;
    waiting = false;
    timer = none;
    posted = [];
    log = run_finished ∷ s.log;
  }

  -- One round of the loop up to the return of `StartItem`.
  pub call_start_item : Scheduler W → Scheduler W
  call_start_item s =
      let r = d.start_item s.cursor s.world in
      record (notify_all (record s { last_start = d.now s.world; waiting = true }) r.notified) {
        world = r.after;
      }

  -- The load of the item at the cursor has begun.
  pub item_began : Scheduler W → Scheduler W
  unfolding finish
  item_began s =
      let s' = record s { log = began_at s.cursor s.last_start ∷ s.log } in
      if s.cursor + 1 == s.item_count then finish s' else record s' {
        timer =
            some (max (d.now s.world) (s.last_start + s.params.interval), interval_elapsed_task);
      }

  -- The loop of `StartFromCursor`, with the rounds that are left.
  pub start_loop : ℕ → Scheduler W → Scheduler W
  start_loop zero s = if s.running then finish s else s
  start_loop (suc rounds) s =
      let r = d.start_item s.cursor s.world in
      let s' = call_start_item s in
      let rest =
        start_loop rounds
          (record s' { waiting = false; last_start = s.last_start; cursor = s.cursor + 1 }) in
      if not s.running
      then s
      else if d.should_defer s.world
      then record s { timer = some (d.now s.world + s.params.interval, defer_elapsed_task) }
      else if r.began
      then item_began s'
      else rest

  pub start_from_cursor : Scheduler W → Scheduler W
  start_from_cursor s = start_loop (s.item_count - s.cursor) s

  pub start : Scheduler W → ℕ → Scheduler W
  start s item_count = start_from_cursor (record s {
    item_count = item_count;
    cursor = 0;
    waiting = false;
    running = true;
    last_start = 0;
  })

  pub cancel : Scheduler W → Scheduler W
  cancel s = if not s.running then s else finish s

  pub advance_and_schedule_next : Scheduler W → ℕ → Scheduler W
  advance_and_schedule_next s not_before =
      let s' = record s { waiting = false; cursor = s.cursor + 1 } in
      let next = start_from_cursor s' in
      if leb s.item_count (s.cursor + 1)
      then finish s'
      else if ltb (d.now s.world) not_before
      then record s' { timer = some (not_before, start_from_cursor_task) }
      else next

  pub on_settled : Scheduler W → ℕ → Scheduler W
  on_settled s index =
      if not s.running || not s.waiting || not (index == s.cursor)
      then s
      else advance_and_schedule_next s (s.last_start + s.params.min_spacing)

  pub on_interval_elapsed : Scheduler W → Scheduler W
  on_interval_elapsed s = if not s.running then s else advance_and_schedule_next s (d.now s.world)

  pub on_defer_elapsed : Scheduler W → Scheduler W
  on_defer_elapsed s = if not s.running then s else start_from_cursor s

  pub run_callback : Callback → Scheduler W → Scheduler W
  run_callback start_from_cursor_task s = start_from_cursor s
  run_callback interval_elapsed_task s = on_interval_elapsed s
  run_callback defer_elapsed_task s = on_defer_elapsed s

  -- The message loop runs the timer's task, if it is due.
  pub fire : Scheduler W → Option (ℕ × Callback) → Scheduler W
  fire s none = s
  fire s (some (deadline, task)) =
      let next = run_callback task (record s { timer = none }) in
      if leb deadline (d.now s.world) then next else s

  -- The message loop runs the oldest posted settle.
  pub deliver : Scheduler W → List ℕ → Scheduler W
  deliver s [] = s
  deliver s (i ∷ is) = on_settled (record s { posted = is }) i

pub data Event (W : Type 0) : Type 0 where
  fires delivers cancels : Event W
  notifies : ℕ → Event W
  passes : W → Event W

module _ {W : Type 0} (d : Delegate W) where
  pub step : Scheduler W → Event W → Scheduler W
  step s fires = fire d s s.timer
  step s delivers = deliver d s s.posted
  step s cancels = cancel d s
  step s (notifies i) = notify_item_settled d s i
  step s (passes w) = record s { world = w }

  pub run : Scheduler W → List (Event W) → Scheduler W
  run s [] = s
  run s (e ∷ es) = run (step s e) es

  -- A scheduler that was just built.
  pub new_scheduler : Params → W → Scheduler W
  new_scheduler p w = record {
    params = p;
    timer = none;
    item_count = 0;
    cursor = 0;
    running = false;
    waiting = false;
    last_start = 0;
    posted = [];
    world = w;
    log = [];
  }
