-- ===== src/Tabs/Scheduler/Order.antt =====
-- Every event keeps the invariant.
use mathlib.Core.Path.{subst}
use roamux.Base.{
  ℕ, ◌+◌, ◌-◌, ◌≤◌, ◌≡◌, refl, inl, inr, true, false, not, ◌||◌, Option, none, some, List, [], ◌∷◌,
  arith, ltb, leb, ◌==◌, Bool-cases, if_intro,
}
use roamux.Tabs.Scheduler.{
  Params, Delegate, Callback, start_from_cursor_task, interval_elapsed_task, defer_elapsed_task,
  Entry, began_at, run_finished, Scheduler, notify_item_settled, start_from_cursor, start, cancel,
  advance_and_schedule_next, on_settled, on_interval_elapsed, on_defer_elapsed, run_callback, fire,
  deliver, Event, fires, delivers, cancels, notifies, passes, step, run, new_scheduler,
}
use roamux.Tabs.Scheduler.Loop.{
  start_loop-Inv, Floor, Spaced, HeadIs, ends, TimerOk, Inv, Floor-mono, Ready,
  notify_item_settled_lem, finish-Inv,
}

-- Where an item is waited on, it is the newest start of the log.
waited_head :
    {W : Type 0} (s : Scheduler W) (t : Option (ℕ × Callback))
    → TimerOk s t
    → s.waiting ≡ true
    → HeadIs s.cursor s.last_start s.log
waited_head s none t w = absurd t
waited_head s (some (at, start_from_cursor_task)) t w = cc
waited_head s (some (at, defer_elapsed_task)) t w = cc
waited_head s (some (at, interval_elapsed_task)) t w = t.1

Floor-head : (m i t u : ℕ) (l : List Entry) → HeadIs i t l → t + m ≤ u → Floor m u (i + 1) l
Floor-head m i t u [] h k = absurd h
Floor-head m i t u (began_at j v ∷ l) h k = omega arith
Floor-head m i t u (run_finished ∷ l) h k = absurd h

module _ {W : Type 0} (d : Delegate W)
    (clock : (i : ℕ) (w : W) → d.now w ≤ d.now (d.start_item i w).after) where
  start_from_cursor-Inv : (s : Scheduler W) → Ready d s → Inv (start_from_cursor d s)
  unfolding start_from_cursor
  start_from_cursor-Inv s r = start_loop-Inv d clock (s.item_count - s.cursor) s refl r

  advance-Inv :
      (s : Scheduler W) (not_before : ℕ)
      → s.params.min_spacing ≤ s.params.interval
      → Spaced s.params.min_spacing s.log
      → s.running ≡ true
      → ends s.log ≡ 0
      → Floor s.params.min_spacing not_before (s.cursor + 1) s.log
      → Inv (advance_and_schedule_next d s not_before)
  unfolding advance_and_schedule_next
  advance-Inv s not_before v p r u f =
      let s' = record s { waiting = false; cursor = s.cursor + 1 } in
      if_intro Inv (leb s.item_count (s.cursor + 1)) _ _ (λ _. finish-Inv d s' v p u)
        (λ more.
          if_intro Inv (ltb (d.now s.world) not_before) _ _
            (λ early. record {
              valid = v;
              spaced = p;
              live = λ _. (ground arith, (refl, f));
              stopped = λ h. ground arith;
              finishes = ground arith;
            })
            (λ late. start_from_cursor-Inv s' (record {
              valid = v;
              spaced = p;
              is_running = r;
              not_waiting = refl;
              due =
                  Floor-mono s.params.min_spacing not_before (d.now s.world) (s.cursor + 1)
                    (s.cursor + 1) s.log (ground arith) (omega arith) f;
              unfinished = u;
            })))

  on_settled-Inv : (s : Scheduler W) (i : ℕ) → Inv s → Inv (on_settled d s i)
  unfolding on_settled
  on_settled-Inv s i v =
      if_intro Inv (not s.running || not s.waiting || not (i == s.cursor)) _ _ (λ _. v)
        (λ h. advance-Inv s _ v.valid v.spaced (ground arith) (ground arith) (
          Floor-head s.params.min_spacing s.cursor s.last_start _ s.log
            (waited_head s s.timer (v.live (ground arith)).1 (ground arith)) (omega arith)))

  deliver-Inv : (s : Scheduler W) (is : List ℕ) → Inv s → Inv (deliver d s is)
  unfolding deliver
  deliver-Inv s [] v = v
  deliver-Inv s (i ∷ is) v =
      on_settled-Inv (record s { posted = is }) i
        (record {
          valid = v.valid;
          spaced = v.spaced;
          live = v.live;
          stopped = v.stopped;
          finishes = v.finishes;
        })

  due-Ready :
      (at : ℕ) (s : Scheduler W)
      → Inv s
      → s.running ≡ true
      → at ≤ d.now s.world
      → (s.waiting ≡ false) × Floor s.params.min_spacing at s.cursor s.log
      → Ready d (record s { timer = none })
  due-Ready at s v r h ok = record {
    valid = v.valid;
    spaced = v.spaced;
    is_running = r;
    not_waiting = ok.0;
    due =
        Floor-mono s.params.min_spacing at (d.now s.world) s.cursor s.cursor s.log h (omega arith)
          ok.1;
    unfinished = ground arith;
  }

  run_callback-Inv :
      (k : Callback) (at : ℕ) (s : Scheduler W)
      → Inv s
      → s.running ≡ true
      → at ≤ d.now s.world
      → TimerOk s (some (at, k))
      → Inv (run_callback d k (record s { timer = none }))
  unfolding run_callback on_defer_elapsed on_interval_elapsed
  run_callback-Inv start_from_cursor_task at s v r h ok =
      start_from_cursor-Inv (record s { timer = none }) (due-Ready at s v r h ok)
  run_callback-Inv defer_elapsed_task at s v r h ok =
      if_intro Inv (not s.running) _ _ (λ n. ground arith)
        (λ _. start_from_cursor-Inv (record s { timer = none }) (due-Ready at s v r h ok))
  run_callback-Inv interval_elapsed_task at s v r h ok =
      if_intro Inv (not s.running) _ _ (λ n. ground arith)
        (λ _.
          advance-Inv (record s { timer = none }) (d.now s.world) v.valid v.spaced r (ground arith)
            (Floor-head s.params.min_spacing s.cursor s.last_start _ s.log ok.1 (omega arith)))

  fire-Inv : (s : Scheduler W) (t : Option (ℕ × Callback)) → s.timer ≡ t → Inv s → Inv (fire d s t)
  unfolding fire
  fire-Inv s none e v = v
  fire-Inv s (some (at, k)) e v =
      if_intro Inv (leb at (d.now s.world)) _ _
        (λ h. elim (Bool-cases s.running) [
          | inl r ↦ run_callback-Inv k at s v r (ground arith) (subst (TimerOk s) e (v.live r).1)
          | inr r ↦ absurd (ground (arith, v.stopped r))
        ])
        (λ _. v)

  cancel-Inv : (s : Scheduler W) → Inv s → Inv (cancel d s)
  unfolding cancel
  cancel-Inv s v =
      if_intro Inv (not s.running) _ _ (λ _. v)
        (λ h. finish-Inv d s v.valid v.spaced (ground arith))

  notify-Inv : (s : Scheduler W) (i : ℕ) → Inv s → Inv (notify_item_settled d s i)
  notify-Inv s i v =
      let (p, e) = notify_item_settled_lem d s i in
      rw e (record {
        valid = v.valid;
        spaced = v.spaced;
        live = v.live;
        stopped = v.stopped;
        finishes = v.finishes;
      })

  -- Every event of the message loop and of the outside keeps the invariant of a run.
  pub step-Inv : (s : Scheduler W) (e : Event W) → Inv s → Inv (step d s e)
  unfolding step
  step-Inv s fires v = fire-Inv s s.timer refl v
  step-Inv s delivers v = deliver-Inv s s.posted v
  step-Inv s cancels v = cancel-Inv s v
  step-Inv s (notifies i) v = notify-Inv s i v
  step-Inv s (passes w) v = record {
    valid = v.valid;
    spaced = v.spaced;
    live = v.live;
    stopped = v.stopped;
    finishes = v.finishes;
  }

  pub run-Inv : (s : Scheduler W) (es : List (Event W)) → Inv s → Inv (run d s es)
  unfolding run
  run-Inv s [] v = v
  run-Inv s (e ∷ es) v = run-Inv (step d s e) es (step-Inv s e v)

  pub start-Inv :
      (p : Params) (w : W) (n : ℕ)
      → p.min_spacing ≤ p.interval
      → Inv (start d (new_scheduler d p w) n)
  unfolding start new_scheduler
  start-Inv p w n h = start_from_cursor-Inv _ (ground arith)
