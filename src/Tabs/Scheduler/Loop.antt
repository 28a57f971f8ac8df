-- ===== src/Tabs/Scheduler/Loop.antt =====
-- The invariant of a run, and the loop of `StartFromCursor`.
use roamux.Base.{
  ℕ, zero, suc, ◌+◌, ◌-◌, ◌≤◌, ◌<◌, ◌≡◌, refl, ap, ◌∙◌, true, false, not, ◌||◌, Option, none, some,
  List, [], ◌∷◌, ◌++◌, arith, ◌==◌, if◌then◌else◌, if_intro,
}
use roamux.Tabs.Scheduler.{
  Delegate, Callback, start_from_cursor_task, interval_elapsed_task, defer_elapsed_task, Entry,
  began_at, run_finished, Scheduler, notify_item_settled, notify_all, finish, call_start_item,
  item_began, start_loop,
}

-- An item `i` that starts at `t` comes `m` or more after the newest start of the log, and behind it
-- in index order.
abbrev pub Floor : ℕ → ℕ → ℕ → List Entry → Type 0
Floor m t i [] = Unit
Floor m t i (began_at j u ∷ l) = (u + m ≤ t) × (j < i)
Floor m t i (run_finished ∷ l) = Floor m t i l

abbrev pub Spaced : ℕ → List Entry → Type 0
Spaced m [] = Unit
Spaced m (began_at i t ∷ l) = Floor m t i l × Spaced m l
Spaced m (run_finished ∷ l) = Spaced m l

abbrev pub HeadIs : ℕ → ℕ → List Entry → Type 0
HeadIs i t (began_at j u ∷ l) = (j ≡ i) × (u ≡ t)
HeadIs i t _ = ⊥

abbrev pub ends : List Entry → ℕ
ends [] = 0
ends (began_at i t ∷ l) = ends l
ends (run_finished ∷ l) = suc (ends l)

-- What an armed timer promises of the moment at which it is due.
abbrev pub TimerOk : {W : Type 0} → Scheduler W → Option (ℕ × Callback) → Type 0
TimerOk s none = ⊥
TimerOk s (some (at, start_from_cursor_task)) =
    (s.waiting ≡ false) × Floor s.params.min_spacing at s.cursor s.log
TimerOk s (some (at, defer_elapsed_task)) =
    (s.waiting ≡ false) × Floor s.params.min_spacing at s.cursor s.log
TimerOk s (some (at, interval_elapsed_task)) =
    (s.last_start + s.params.min_spacing ≤ at) × HeadIs s.cursor s.last_start s.log

pub record Inv {W : Type 0} (s : Scheduler W) : Type 0 where
  pub valid : s.params.min_spacing ≤ s.params.interval
  pub spaced : Spaced s.params.min_spacing s.log
  pub live : s.running ≡ true → (s.cursor < s.item_count) × TimerOk s s.timer
  pub stopped : s.running ≡ false → (s.timer ≡ none) × (s.waiting ≡ false)
  pub finishes : ends s.log ≡ (if s.running then 0 else 1)

pub Floor-mono :
    (m t t' i i' : ℕ) (l : List Entry) → t ≤ t' → i ≤ i' → Floor m t i l → Floor m t' i' l
Floor-mono m t t' i i' [] h k f = tt
Floor-mono m t t' i i' (began_at j u ∷ l) h k f = omega arith
Floor-mono m t t' i i' (run_finished ∷ l) h k f = Floor-mono m t t' i i' l h k f

module _ {W : Type 0} (d : Delegate W) where
  -- The loop may run: the cursor's item is due.
  pub record Ready (s : Scheduler W) : Type 0 where
    pub valid : s.params.min_spacing ≤ s.params.interval
    pub spaced : Spaced s.params.min_spacing s.log
    pub is_running : s.running ≡ true
    pub not_waiting : s.waiting ≡ false
    pub due : Floor s.params.min_spacing (d.now s.world) s.cursor s.log
    pub unfinished : ends s.log ≡ 0

  pub notify_item_settled_lem :
      (s : Scheduler W) (i : ℕ)
      → (p : List ℕ) × (notify_item_settled d s i ≡ record s { posted = p })
  unfolding notify_item_settled
  notify_item_settled_lem s i = (
    if not s.running || not s.waiting || not (i == s.cursor) then s.posted else s.posted ++ i ∷ [],
    ground arith,
  )

  notify_all_lem :
      (s : Scheduler W) (is : List ℕ) → (p : List ℕ) × (notify_all d s is ≡ record s { posted = p })
  unfolding notify_all
  notify_all_lem s [] = (s.posted, refl)
  notify_all_lem s (i ∷ is) =
      let (p, e) = notify_item_settled_lem s i in
      let (q, f) = notify_all_lem (record s { posted = p }) is in
      (q, ap (λ r. notify_all d r is) e ∙ f)

  pub finish-Inv :
      (s : Scheduler W)
      → s.params.min_spacing ≤ s.params.interval
      → Spaced s.params.min_spacing s.log
      → ends s.log ≡ 0
      → Inv (finish d s)
  unfolding finish
  finish-Inv s v p e = ground arith

  pub call_start_item_lem :
      (s : Scheduler W)
      → (p : List ℕ) × (call_start_item d s ≡ record s {
        last_start = d.now s.world;
        waiting = true;
        posted = p;
        world = (d.start_item s.cursor s.world).after;
      })
  unfolding call_start_item
  call_start_item_lem s =
      let (p, e) =
        notify_all_lem (record s { last_start = d.now s.world; waiting = true })
          (d.start_item s.cursor s.world).notified in
      (p, ap (λ (r : Scheduler W). record r { world = (d.start_item s.cursor s.world).after }) e)

  module _ (clock : (i : ℕ) (w : W) → d.now w ≤ d.now (d.start_item i w).after) where
    item_began-Inv :
        (s : Scheduler W)
        → Ready s
        → s.cursor < s.item_count
        → Inv (item_began d (call_start_item d s))
    unfolding item_began finish
    item_began-Inv s r h = let (p, e) = call_start_item_lem s in rw e (ground arith)

    pub start_loop-Inv :
        (n : ℕ) (s : Scheduler W) → n ≡ s.item_count - s.cursor → Ready s → Inv (start_loop d n s)
    unfolding start_loop
    start_loop-Inv zero s h r = ground (arith, finish-Inv s)
    start_loop-Inv (suc n) s h r =
        let (p, e) = call_start_item_lem s in
        let later = clock s.cursor s.world in
        let next = record s {
          waiting = false;
          cursor = s.cursor + 1;
          posted = p;
          world = (d.start_item s.cursor s.world).after;
        } in
        let due =
          Floor-mono s.params.min_spacing (d.now s.world) (d.now next.world) s.cursor (s.cursor + 1)
            s.log later (omega arith) r.due in
        let ready : Ready next = record {
          valid = r.valid;
          spaced = r.spaced;
          is_running = r.is_running;
          not_waiting = refl;
          due = due;
          unfinished = r.unfinished;
        } in
        let skip = start_loop-Inv n next (omega arith) ready in
        let began = item_began-Inv s r (omega arith) in
        let defer : Inv
            (record s { timer = some (d.now s.world + s.params.interval, defer_elapsed_task) }) =
          record {
            valid = r.valid;
            spaced = r.spaced;
            live = λ _. (
              omega arith,
              (
                r.not_waiting,
                Floor-mono s.params.min_spacing (d.now s.world) _ s.cursor s.cursor s.log
                    (omega arith) (omega arith) r.due,
              ),
            );
            stopped = λ h. ground arith;
            finishes = ground arith;
          } in
        if_intro Inv (not s.running) _ _ (λ h. ground arith)
          (λ _.
            if_intro Inv (d.should_defer s.world) _ _ (λ _. defer)
              (λ _.
                if_intro Inv (d.start_item s.cursor s.world).began _ _ (λ _. began)
                  (λ _. rw e skip)))
