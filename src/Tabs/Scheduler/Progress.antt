-- ===== src/Tabs/Scheduler/Progress.antt =====
-- The interval timer alone brings a run to its end.
use mathlib.Core.Path.{subst}
use roamux.Base.{
  ℕ, zero, suc, ◌+◌, ◌-◌, ◌*◌, ◌≤◌, ◌<◌, ◌≡◌, refl, inl, inr, true, false, not, Option, none, some,
  arith, ltb, leb, if◌then◌else◌, Bool-cases, if_intro,
}
use roamux.Tabs.Scheduler.{
  Params, Delegate, Callback, start_from_cursor_task, interval_elapsed_task, defer_elapsed_task,
  Scheduler, finish, call_start_item, item_began, start_loop, start_from_cursor, start,
  advance_and_schedule_next, on_interval_elapsed, on_defer_elapsed, run_callback, fire, fires,
  passes, step, new_scheduler,
}
use roamux.Tabs.Scheduler.Order.{step-Inv, start-Inv}
use roamux.Tabs.Scheduler.Loop.{TimerOk, Inv, call_start_item_lem}

-- How many firings may still be needed for the timer's own task.
abbrev task_work : Option (ℕ × Callback) → ℕ
task_work (some (at, interval_elapsed_task)) = 0
task_work _ = 1

work : {W : Type 0} → Scheduler W → ℕ
work s = if s.running then 2 * (s.item_count - s.cursor) + task_work s.timer else 0

-- The time at which the timer is due.
abbrev pub due_time : Option (ℕ × Callback) → ℕ
due_time none = 0
due_time (some (at, k)) = at

module _ {W : Type 0} (d : Delegate W)
    (clock : (i : ℕ) (w : W) → d.now w ≤ d.now (d.start_item i w).after)
    (calm : (w : W) → d.should_defer w ≡ false) (sleep : ℕ → W → W)
    (slept : (t : ℕ) (w : W) → t ≤ d.now (sleep t w)) where
  -- Nothing happens but that the timer becomes due and fires.
  pub timer_only : ℕ → Scheduler W → Scheduler W
  timer_only zero s = s
  timer_only (suc n) s =
      timer_only n (step d (step d s (passes (sleep (due_time s.timer) s.world))) fires)

  item_began-work :
      (s : Scheduler W)
      → s.cursor < s.item_count
      → work (item_began d (call_start_item d s)) ≤ 2 * (s.item_count - s.cursor)
  unfolding work item_began finish
  item_began-work s h = let (p, e) = call_start_item_lem d s in rw e (ground arith)

  start_loop-work :
      (n : ℕ) (s : Scheduler W)
      → n ≡ s.item_count - s.cursor
      → s.running ≡ true
      → work (start_loop d n s) ≤ 2 * (s.item_count - s.cursor)
  unfolding start_loop
  start_loop-work zero s h r = unfold work finish in ground arith
  start_loop-work (suc n) s h r =
      let (p, e) = call_start_item_lem d s in
      let next = record s {
        waiting = false;
        cursor = s.cursor + 1;
        posted = p;
        world = (d.start_item s.cursor s.world).after;
      } in
      let ih = start_loop-work n next (omega arith) r in
      let P = λ (t : Scheduler W). work t ≤ 2 * (s.item_count - s.cursor) in
      if_intro P (not s.running) _ _ (λ h. absurd (ground arith))
        (λ _.
          if_intro P (d.should_defer s.world) _ _ (λ h. absurd (ground (arith, calm s.world)))
            (λ _.
              if_intro P (d.start_item s.cursor s.world).began _ _
                (λ _. item_began-work s (omega arith)) (λ _. rw e (omega (arith, ih)))))

  start_from_cursor-work :
      (s : Scheduler W)
      → s.running ≡ true
      → work (start_from_cursor d s) ≤ 2 * (s.item_count - s.cursor)
  unfolding start_from_cursor
  start_from_cursor-work s r = start_loop-work (s.item_count - s.cursor) s refl r

  advance-work :
      (s : Scheduler W) (t : ℕ)
      → s.running ≡ true
      → s.cursor < s.item_count
      → work (advance_and_schedule_next d s t) < 2 * (s.item_count - s.cursor)
  unfolding advance_and_schedule_next
  advance-work s t r h =
      let s' = record s { waiting = false; cursor = s.cursor + 1 } in
      let next = start_from_cursor-work s' r in
      let P = λ (u : Scheduler W). work u < 2 * (s.item_count - s.cursor) in
      if_intro P (leb s.item_count (s.cursor + 1)) _ _ (λ _. unfold work finish in omega arith)
        (λ _.
          if_intro P (ltb (d.now s.world) t) _ _ (λ _. unfold work in ground arith)
            (λ _. omega (arith, next)))

  fire-work :
      (at : ℕ) (k : Callback) (s : Scheduler W)
      → s.timer ≡ some (at, k)
      → s.running ≡ true
      → s.cursor < s.item_count
      → work (run_callback d k (record s { timer = none })) < work s
  unfolding run_callback on_defer_elapsed on_interval_elapsed
  fire-work at start_from_cursor_task s e r h =
      unfold work in ground (arith, start_from_cursor-work (record s { timer = none }) r)
  fire-work at defer_elapsed_task s e r h =
      unfold work in ground (arith, start_from_cursor-work (record s { timer = none }) r)
  fire-work at interval_elapsed_task s e r h =
      unfold work in ground (arith, advance-work (record s { timer = none }) (d.now s.world) r h)

  fired-work :
      (s : Scheduler W) (t : Option (ℕ × Callback))
      → Inv s
      → s.timer ≡ t
      → s.running ≡ true
      → work (fire d (record s { world = sleep (due_time t) s.world }) t) < work s
  unfolding fire
  fired-work s none v e r = absurd (subst (TimerOk s) e (v.live r).1)
  fired-work s (some (at, k)) v e r =
      let s' = record s { world = sleep at s.world } in
      let less = fire-work at k s' e r (v.live r).0 in
      let awake = slept at s.world in
      if_intro (λ (u : Scheduler W). work u < work s) (leb at (d.now (sleep at s.world))) _ _
        (λ _. unfold work in less) (λ late. absurd (ground arith))

  idle-work :
      (s : Scheduler W) (w : W) (t : Option (ℕ × Callback))
      → s.running ≡ false
      → t ≡ none
      → work (fire d (record s { world = w }) t) ≡ 0
  unfolding fire work
  idle-work s w none r e = ground arith
  idle-work s w (some t) r e = cc

  timer_only-ends :
      (n : ℕ) (s : Scheduler W) → Inv s → work s ≤ n → (timer_only n s).running ≡ false
  unfolding timer_only
  timer_only-ends zero s v h = elim (Bool-cases s.running) [
    | inl r ↦ absurd (omega (arith, fired-work s s.timer v refl r))
    | inr r ↦ r
  ]
  timer_only-ends (suc n) s v h =
      let s' = step d (step d s (passes (sleep (due_time s.timer) s.world))) fires in
      let v' =
        step-Inv d clock _ fires
          (step-Inv d clock s (passes (sleep (due_time s.timer) s.world)) v) in
      timer_only-ends n s' v' (less s v h)
    where
      less :
          (s : Scheduler W)
          → Inv s
          → work s ≤ suc n
          → work (step d (step d s (passes (sleep (due_time s.timer) s.world))) fires) ≤ n
      less s v h = elim (Bool-cases s.running) [
        | inl r ↦ unfold step in omega (arith, fired-work s s.timer v refl r)
        | inr r ↦ unfold step in omega (arith, idle-work s _ s.timer r (v.stopped r).0)
      ]

  start-work : (p : Params) (w : W) (n : ℕ) → work (start d (new_scheduler d p w) n) ≤ 2 * n
  unfolding start new_scheduler
  start-work p w n =
      let s = record (new_scheduler d p w) { item_count = n; running = true } in
      omega (arith, start_from_cursor-work s refl)

  -- If no dialog holds the queue, a run with valid parameters in which nothing happens but that the
  -- timer becomes due and fires is over after at most two firings for each item,
  -- whichever items the delegate skips or never reports settled.
  pub run_ends_by_timer :
      (p : Params) (w : W) (n : ℕ)
      → p.min_spacing ≤ p.interval
      → (timer_only (2 * n) (start d (new_scheduler d p w) n)).running ≡ false
  run_ends_by_timer p w n h =
      timer_only-ends (2 * n) (start d (new_scheduler d p w) n) (start-Inv d clock p w n h)
        (start-work p w n)
