-- ===== src/Tabs/Scheduler/Pacing.antt =====
-- What a run promises: spacing and order of the starts, one end, and progress.
use mathlib.Core.Path.{subst}
use roamux.Base.{
  ℕ, zero, suc, ◌+◌, ◌-◌, ◌≤◌, ◌≡◌, refl, sym, ap, ◌∙◌, inl, inr, true, false, Option, none, some,
  List, [], ◌∷◌, arith, if◌then◌else◌, Bool-cases, has_value,
}
use roamux.Tabs.Scheduler.{
  Params, Delegate, Callback, start_from_cursor_task, interval_elapsed_task, defer_elapsed_task,
  Scheduler, notify_item_settled, finish, item_began, start_loop, start_from_cursor, start, cancel,
  advance_and_schedule_next, on_settled, on_interval_elapsed, on_defer_elapsed, run_callback, fire,
  deliver, Event, fires, delivers, cancels, notifies, passes, step, run, new_scheduler,
}
use roamux.Tabs.Scheduler.Order.{run-Inv, start-Inv}
use roamux.Tabs.Scheduler.Loop.{Spaced, ends, TimerOk, Inv, call_start_item_lem}

module _ {W : Type 0} (d : Delegate W) where
  start_loop-params : (n : ℕ) (s : Scheduler W) → (start_loop d n s).params ≡ s.params
  unfolding start_loop item_began finish
  start_loop-params zero s = ground arith
  start_loop-params (suc n) s =
      let (p, e) = call_start_item_lem d s in
      let ih = start_loop-params n (record s {
        waiting = false;
        cursor = s.cursor + 1;
        posted = p;
        world = (d.start_item s.cursor s.world).after;
      }) in
      rw e (ground arith)

  advance-params : (s : Scheduler W) (t : ℕ) → (advance_and_schedule_next d s t).params ≡ s.params
  unfolding advance_and_schedule_next start_from_cursor finish
  advance-params s t =
      let s' = record s { waiting = false; cursor = s.cursor + 1 } in
      ground (arith, start_loop-params (s.item_count - (s.cursor + 1)) s')

  callback-params :
      (k : Callback) (s : Scheduler W)
      → (run_callback d k (record s { timer = none })).params ≡ s.params
  unfolding run_callback on_defer_elapsed on_interval_elapsed start_from_cursor
  callback-params start_from_cursor_task s =
      start_loop-params (s.item_count - s.cursor) (record s { timer = none })
  callback-params defer_elapsed_task s =
      ground (arith, start_loop-params (s.item_count - s.cursor) (record s { timer = none }))
  callback-params interval_elapsed_task s =
      ground (arith, advance-params (record s { timer = none }) (d.now s.world))

  fire-params : (s : Scheduler W) (t : Option (ℕ × Callback)) → (fire d s t).params ≡ s.params
  unfolding fire
  fire-params s none = refl
  fire-params s (some (at, k)) = ground (arith, callback-params k s)

  deliver-params : (s : Scheduler W) (is : List ℕ) → (deliver d s is).params ≡ s.params
  unfolding deliver on_settled
  deliver-params s [] = refl
  deliver-params s (i ∷ is) =
      ground
        (arith, advance-params (record s { posted = is }) (s.last_start + s.params.min_spacing))

  step-params : (s : Scheduler W) (e : Event W) → (step d s e).params ≡ s.params
  unfolding step cancel finish notify_item_settled
  step-params s fires = fire-params s s.timer
  step-params s delivers = deliver-params s s.posted
  step-params s cancels = ground arith
  step-params s (notifies i) = ground arith
  step-params s (passes w) = refl

  run-params : (s : Scheduler W) (es : List (Event W)) → (run d s es).params ≡ s.params
  unfolding run
  run-params s [] = refl
  run-params s (e ∷ es) = run-params (step d s e) es ∙ step-params s e

  start-params : (p : Params) (w : W) (n : ℕ) → (start d (new_scheduler d p w) n).params ≡ p
  unfolding start start_from_cursor new_scheduler
  start-params p w n =
      ground (
        arith,
        start_loop-params n (record (new_scheduler d p w) { item_count = n; running = true }),
      )

  module _ (clock : (i : ℕ) (w : W) → d.now w ≤ d.now (d.start_item i w).after) where
    -- A run with valid parameters, whatever the delegate answers and whatever happens in whatever
    -- order: each load begins at least the minimal spacing after the load before it, in item order.
    pub run-Spaced :
        (p : Params) (w : W) (n : ℕ) (es : List (Event W))
        → p.min_spacing ≤ p.interval
        → Spaced p.min_spacing (run d (start d (new_scheduler d p w) n) es).log
    run-Spaced p w n es h =
        let v = run-Inv d clock (start d (new_scheduler d p w) n) es (start-Inv d clock p w n h) in
        let e = run-params (start d (new_scheduler d p w) n) es ∙ start-params p w n in
        subst
          (λ (q : Params). Spaced q.min_spacing (run d (start d (new_scheduler d p w) n) es).log) e
          v.spaced

    -- In the same runs the end is reported once if the run is over, and not before; and while it
    -- goes on the timer is armed, so that no item can wedge it.
    pub run-ends_once :
        (p : Params) (w : W) (n : ℕ) (es : List (Event W))
        → p.min_spacing ≤ p.interval
        → let s = run d (start d (new_scheduler d p w) n) es in
          (ends s.log ≡ (if s.running then 0 else 1)) × (has_value s.timer ≡ s.running)
    run-ends_once p w n es h =
        let v = run-Inv d clock (start d (new_scheduler d p w) n) es (start-Inv d clock p w n h) in
        (v.finishes, armed (run d (start d (new_scheduler d p w) n) es) v)
      where
        armed_timer :
            (s : Scheduler W) (t : Option (ℕ × Callback)) → TimerOk s t → has_value t ≡ true
        armed_timer s none o = absurd o
        armed_timer s (some t) o = refl

        armed : (s : Scheduler W) → Inv s → has_value s.timer ≡ s.running
        armed s v = elim (Bool-cases s.running) [
          | inl r ↦ armed_timer s s.timer (v.live r).1 ∙ sym r
          | inr r ↦ ap has_value (v.stopped r).0 ∙ sym r
        ]
