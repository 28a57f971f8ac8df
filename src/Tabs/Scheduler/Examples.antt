-- ===== src/Tabs/Scheduler/Examples.antt =====
-- The theorems about the pacing engine at a run of three items over a world that is a clock; item 1
-- is skipped, and each start takes ten milliseconds.
use roamux.Base.{
  ℕ, ◌+◌, ◌*◌, ◌≤◌, max, ◌≡◌, refl, false, not, List, [], ◌∷◌, arith, ◌==◌, if◌then◌else◌,
  has_value, pos, negsuc,
}
use roamux.Tabs.Scheduler.{
  Params, from_milliseconds, Delegate, began_at, run_finished, Scheduler, notify_item_settled,
  notify_all, call_start_item, item_began, start_loop, start_from_cursor, start,
  advance_and_schedule_next, on_settled, run_callback, fire, deliver, Event, fires, delivers,
  passes, step, run, new_scheduler,
}
use roamux.Tabs.Scheduler.Bounds.{from_milliseconds_bounds}
use roamux.Tabs.Scheduler.Loop.{Spaced, ends}
use roamux.Tabs.Scheduler.Pacing.{run-Spaced, run-ends_once}
use roamux.Tabs.Scheduler.Progress.{timer_only, run_ends_by_timer}

abbrev strip : Delegate ℕ
strip = record {
  now = λ w. w;
  should_defer = λ w. false;
  start_item = λ i w. record { began = not (i == 1); notified = i ∷ []; after = w + 10 };
}

strip_clock : (i : ℕ) (w : ℕ) → strip.now w ≤ strip.now (strip.start_item i w).after
strip_clock i w = omega arith

sleep_until : ℕ → ℕ → ℕ
sleep_until t w = max t w

slept_until : (t : ℕ) (w : ℕ) → t ≤ strip.now (sleep_until t w)
unfolding sleep_until
slept_until t w = omega arith

abbrev defaults : Params
defaults = record { interval = 5000; min_spacing = 750 }

abbrev events : List (Event ℕ)
events = delivers ∷ passes 900 ∷ fires ∷ delivers ∷ []

log_of_run :
    (run strip (start strip (new_scheduler strip defaults 100) 3) events).log
    ≡ run_finished ∷ began_at 2 910 ∷ began_at 0 100 ∷ []
unfolding run step start new_scheduler roamux.Tabs.Scheduler.deliver roamux.Tabs.Scheduler.fire
    roamux.Tabs.Scheduler.start_from_cursor roamux.Tabs.Scheduler.start_loop
    roamux.Tabs.Scheduler.item_began roamux.Tabs.Scheduler.call_start_item
    roamux.Tabs.Scheduler.notify_all roamux.Tabs.Scheduler.notify_item_settled
    roamux.Tabs.Scheduler.on_settled roamux.Tabs.Scheduler.advance_and_schedule_next
    roamux.Tabs.Scheduler.run_callback
log_of_run = refl

from_milliseconds_bounds_example : 100 ≤ (from_milliseconds (pos 300) (negsuc 4)).min_spacing
from_milliseconds_bounds_example = (from_milliseconds_bounds (pos 300) (negsuc 4)).4

run-Spaced_example :
    Spaced 750 (run strip (start strip (new_scheduler strip defaults 100) 3) events).log
run-Spaced_example = run-Spaced strip strip_clock defaults 100 3 events (omega arith)

run-ends_once_example :
    let s = run strip (start strip (new_scheduler strip defaults 100) 3) events in
    (ends s.log ≡ (if s.running then 0 else 1)) × (has_value s.timer ≡ s.running)
run-ends_once_example = run-ends_once strip strip_clock defaults 100 3 events (omega arith)

run_ends_by_timer_example :
    (timer_only strip strip_clock
      (λ w. refl)
      sleep_until
      slept_until
      (2 * 3)
      (start strip (new_scheduler strip defaults 100) 3)).running
    ≡ false
run_ends_by_timer_example =
    run_ends_by_timer strip strip_clock (λ w. refl) sleep_until slept_until defaults 100 3
      (omega arith)
