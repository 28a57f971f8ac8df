-- ===== src/TabVisit/Coordinator/Removal.antt =====
-- The removal of browsing data, as the coordinator sees it: what a clear took from memory no reply
-- to an earlier read brings back.
use mathlib.Core.Path.{subst}
use roamux.Base.{
  ℕ, ◌≤◌, ◌<◌, String, ◌≡◌, refl, ap, ◌∙◌, inl, inr, Bool, true, false, not, ◌||◌, none, List, [],
  ◌∷◌, arith, if◌then◌else◌, Bool-cases, Option-cases, if_intro,
}
use roamux.TabVisit.Traversal.{back, forward, settle}
use roamux.TabVisit.Coordinator.{
  Coordinator, Browser, Effect, on_journal_loaded, record_settled_uid, find_row,
  try_reopen_closed_uid, resolve_or_reopen,
}
use roamux.TabVisit.Coordinator.Steps.{
  ensure_gesture, can_go_back_now, can_go_forward_now, step_and_activate, step_back, step_forward,
  commit_visit, settle_gesture, cancel_gesture,
}
use roamux.TabVisit.Coordinator.Sidecar.{prepare_for_browsing_data_clear, on_reopenable_loaded}
use roamux.TabVisit.Coordinator.Inputs.{
  Input, loads_journal, settles_uid, steps, settles, cancels, closes, prepares_clear, was_cleared,
  loads_reopenable, apply, run,
}

-- No tab is closed, and every reply belongs to a read of a generation up to the one given.
abbrev pub Stale : ℕ → List Input → Type 0
Stale g [] = Unit
Stale g (closes row ∷ inputs) = ⊥
Stale g (loads_reopenable generation rows ∷ inputs) = (generation ≤ g) × Stale g inputs
Stale g (loads_journal rows ∷ inputs) = Stale g inputs
Stale g (settles_uid uid ∷ inputs) = Stale g inputs
Stale g (steps forwards b ∷ inputs) = Stale g inputs
Stale g (settles b ∷ inputs) = Stale g inputs
Stale g (cancels ∷ inputs) = Stale g inputs
Stale g (prepares_clear ∷ inputs) = Stale g inputs
Stale g (was_cleared b ∷ inputs) = Stale g inputs

record Empty (g : ℕ) (c : Coordinator) : Type 0 where
  pub rows : c.reopenable ≡ []
  pub urls : c.reopened_url_by_uid ≡ []
  pub later : g < c.reopenable_generation

find-empty : (c : Coordinator) (uid : String) → c.reopenable ≡ [] → find_row uid c.reopenable ≡ none
unfolding find_row
find-empty c uid e = ap (find_row uid) e

try_reopen-empty :
    (c : Coordinator) (b : Browser) (uid : String)
    → c.reopenable ≡ []
    → ((try_reopen_closed_uid c b uid).0.0 ≡ c) × ((try_reopen_closed_uid c b uid).1.0 ≡ false)
unfolding try_reopen_closed_uid
try_reopen-empty c b uid e = elim (Bool-cases (not b.reopen_closed || not b.has_reopen_fn)) [
  | inl k ↦ ground (arith, k)
  | inr k ↦ ground (arith, k, find-empty c uid e)
]

resolve-empty :
    (c : Coordinator) (b : Browser) (uid : String)
    → c.reopenable ≡ []
    → (resolve_or_reopen c b uid).0.0 ≡ c
unfolding resolve_or_reopen
resolve-empty c b uid e = ground (arith, try_reopen-empty c b uid e)

-- Two states that agree on what the removal is about.
same-Empty :
    (g : ℕ) (c d : Coordinator)
    → d.reopenable ≡ c.reopenable
    → d.reopened_url_by_uid ≡ c.reopened_url_by_uid
    → d.reopenable_generation ≡ c.reopenable_generation
    → Empty g c
    → Empty g d
same-Empty g c d r u l v = record {
  rows = r ∙ v.rows;
  urls = u ∙ v.urls;
  later = omega (arith, l, v.later);
}

step_and_activate-Empty :
    (g : ℕ) (c : Coordinator) (b : Browser) (forwards : Bool)
    → Empty g c
    → Empty g (step_and_activate c b forwards).0.0
unfolding step_and_activate
step_and_activate-Empty g c b forwards v =
    let moved = if forwards then forward c.controller else back c.controller in
    elim (Option-cases moved.1) [
      | inl n ↦
          same-Empty g c (step_and_activate c b forwards).0.0 (ground (arith, n))
            (ground (arith, n)) (ground (arith, n)) v
      | inr (uid, n) ↦
          let e = resolve-empty (record c { controller = moved.0 }) b uid v.rows in
          same-Empty g c (step_and_activate c b forwards).0.0 (ground (arith, n, e))
            (ground (arith, n, e)) (ground (arith, n, e)) v
    ]

ensure-Empty : (g : ℕ) (c : Coordinator) (b : Browser) → Empty g c → Empty g (ensure_gesture c b)
unfolding ensure_gesture
ensure-Empty g c b v =
    same-Empty g c (ensure_gesture c b) (ground arith) (ground arith) (ground arith) v

step_back-Empty : (g : ℕ) (c : Coordinator) (b : Browser) → Empty g c → Empty g (step_back c b).0.0
unfolding step_back ensure_gesture
step_back-Empty g c b v =
    if_intro (λ (r : (Coordinator × Browser) × List Effect). Empty g r.0.0) (not b.nav_enabled)
      ((c, b), [])
      (if not (can_go_back_now c b)
        then ((c, b), [])
        else step_and_activate (ensure_gesture c b) b false)
      (λ e. v)
      (λ e.
        if_intro (λ (r : (Coordinator × Browser) × List Effect). Empty g r.0.0)
          (not (can_go_back_now c b)) ((c, b), []) (step_and_activate (ensure_gesture c b) b false)
          (λ k. v)
          (λ k. step_and_activate-Empty g (ensure_gesture c b) b false (ensure-Empty g c b v)))

step_forward-Empty :
    (g : ℕ) (c : Coordinator) (b : Browser) → Empty g c → Empty g (step_forward c b).0.0
unfolding step_forward ensure_gesture
step_forward-Empty g c b v =
    if_intro (λ (r : (Coordinator × Browser) × List Effect). Empty g r.0.0) (not b.nav_enabled)
      ((c, b), [])
      (if not (can_go_forward_now c)
        then ((c, b), [])
        else step_and_activate (ensure_gesture c b) b true)
      (λ e. v)
      (λ e.
        if_intro (λ (r : (Coordinator × Browser) × List Effect). Empty g r.0.0)
          (not (can_go_forward_now c)) ((c, b), []) (step_and_activate (ensure_gesture c b) b true)
          (λ k. v)
          (λ k. step_and_activate-Empty g (ensure_gesture c b) b true (ensure-Empty g c b v)))

settle_gesture-Empty :
    (g : ℕ) (c : Coordinator) (b : Browser) → Empty g c → Empty g (settle_gesture c b).0.0
unfolding settle_gesture commit_visit record_settled_uid
settle_gesture-Empty g c b v = elim (Bool-cases (not c.traversal_active)) [
  | inl e ↦
      same-Empty g c (settle_gesture c b).0.0 (ground (arith, e)) (ground (arith, e))
        (ground (arith, e)) v
  | inr e ↦ elim (Option-cases (settle c.controller).1) [
    | inl n ↦
        same-Empty g c (settle_gesture c b).0.0 (ground (arith, e, n))
          (ground (arith, e, n, v.urls)) (ground (arith, e, n)) v
    | inr (uid, n) ↦
        let stopped : Coordinator = record c {
          controller = (settle c.controller).0;
          debounce_armed = false;
        } in
        let r = resolve-empty stopped b uid v.rows in
        same-Empty g c (settle_gesture c b).0.0 (ground (arith, e, n, r))
          (ground (arith, e, n, r, v.urls)) (ground (arith, e, n, r)) v
  ]
]

cancel_gesture-Empty : (g : ℕ) (c : Coordinator) → Empty g c → Empty g (cancel_gesture c)
unfolding cancel_gesture
cancel_gesture-Empty g c v =
    same-Empty g c (cancel_gesture c) (ground arith) (ground (arith, v.urls)) (ground arith) v

prepare-Empty :
    (g : ℕ) (c : Coordinator)
    → g ≤ c.reopenable_generation
    → Empty g (prepare_for_browsing_data_clear c)
unfolding prepare_for_browsing_data_clear
prepare-Empty g c h = record { rows = refl; urls = refl; later = omega arith }

apply-Empty :
    (g : ℕ) (c : Coordinator) (i : Input) → Stale g (i ∷ []) → Empty g c → Empty g (apply c i).0
unfolding apply on_journal_loaded on_reopenable_loaded record_settled_uid
apply-Empty g c (loads_journal rows) s v = record { rows = v.rows; urls = v.urls; later = v.later }
apply-Empty g c (settles_uid uid) s v =
    same-Empty g c (record_settled_uid c uid) (ground arith) (ground arith) (ground arith) v
apply-Empty g c (steps true b) s v = step_forward-Empty g c b v
apply-Empty g c (steps false b) s v = step_back-Empty g c b v
apply-Empty g c (settles b) s v = settle_gesture-Empty g c b v
apply-Empty g c cancels s v = cancel_gesture-Empty g c v
apply-Empty g c (closes row) s v = absurd s
apply-Empty g c prepares_clear s v = prepare-Empty g c (omega (arith, v.later))
apply-Empty g c (was_cleared b) s v = v
apply-Empty g c (loads_reopenable generation rows) s v =
    subst (λ (d : Coordinator). Empty g d) (ground (arith, s.0, v.later)) v

Stale-first :
    (g : ℕ) (i : Input) (inputs : List Input)
    → Stale g (i ∷ inputs)
    → Stale g (i ∷ []) × Stale g inputs
Stale-first g (loads_journal rows) inputs s = (tt, s)
Stale-first g (settles_uid uid) inputs s = (tt, s)
Stale-first g (steps forwards b) inputs s = (tt, s)
Stale-first g (settles b) inputs s = (tt, s)
Stale-first g cancels inputs s = (tt, s)
Stale-first g (closes row) inputs s = absurd s
Stale-first g prepares_clear inputs s = (tt, s)
Stale-first g (was_cleared b) inputs s = (tt, s)
Stale-first g (loads_reopenable generation rows) inputs s = ((s.0, tt), s.1)

run-Empty :
    (g : ℕ) (c : Coordinator) (inputs : List Input)
    → Stale g inputs
    → Empty g c
    → Empty g (run c inputs).0
unfolding run
run-Empty g c [] s v = v
run-Empty g c (i ∷ inputs) s v =
    let now = Stale-first g i inputs s in
    run-Empty g (apply c i).0 inputs now.1 (apply-Empty g c i now.0 v)

-- After the start of a clear, as long as no tab is closed and every reply answers a read from before
-- it, no closed tab is reopenable and no url of a reopened tab is held, whatever else happens in
-- whatever order.
pub prepare-run-empty :
    (c : Coordinator) (inputs : List Input)
    → Stale c.reopenable_generation inputs
    → ((run (prepare_for_browsing_data_clear c) inputs).0.reopenable ≡ [])
      × ((run (prepare_for_browsing_data_clear c) inputs).0.reopened_url_by_uid ≡ [])
prepare-run-empty c inputs s =
    let v =
      run-Empty c.reopenable_generation (prepare_for_browsing_data_clear c) inputs s
        (prepare-Empty c.reopenable_generation c (omega arith)) in
    (v.rows, v.urls)
