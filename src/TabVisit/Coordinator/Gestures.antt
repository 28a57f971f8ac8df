-- ===== src/TabVisit/Coordinator/Gestures.antt =====
-- The visits that the coordinator persists, against the gestures that it begins.
use roamux.Base.{
  ℕ, ◌+◌, ◌≤◌, String, ◌≡◌, refl, inl, inr, Bool, true, false, not, ◌||◌, List, [], ◌∷◌, ◌++◌,
  arith, if◌then◌else◌, Bool-cases, Option-cases, str_eq,
}
use roamux.TabVisit.Traversal.{back, forward, settle}
use roamux.TabVisit.Coordinator.{
  Coordinator, Browser, Effect, notify, activate, record_visit, set_tab_state, get_all_tab_states,
  on_journal_loaded, on_reachability_maybe_changed, find_row, try_reopen_closed_uid,
  resolve_or_reopen,
}
use roamux.TabVisit.Coordinator.Steps.{
  ensure_gesture, step_and_activate, step_back, step_forward, commit_visit, settle_gesture,
}
use roamux.TabVisit.Coordinator.Sidecar.{
  add_reopenable, load_reopenable_from_sidecar, on_browsing_data_cleared, on_reopenable_loaded,
}
use roamux.TabVisit.Coordinator.Inputs.{
  Input, loads_journal, settles_uid, steps, settles, cancels, closes, prepares_clear, was_cleared,
  loads_reopenable, apply, run,
}

abbrev pub visits_in : List Effect → ℕ
visits_in [] = 0
visits_in (notify ∷ es) = visits_in es
visits_in (activate uid ∷ es) = visits_in es
visits_in (record_visit uid url ∷ es) = 1 + visits_in es
visits_in (set_tab_state row ∷ es) = visits_in es
visits_in (get_all_tab_states generation ∷ es) = visits_in es

pub visits_in-append : (xs ys : List Effect) → visits_in (xs ++ ys) ≡ visits_in xs + visits_in ys
visits_in-append [] ys = omega arith
visits_in-append (notify ∷ es) ys = visits_in-append es ys
visits_in-append (activate uid ∷ es) ys = visits_in-append es ys
visits_in-append (record_visit uid url ∷ es) ys = omega (arith, visits_in-append es ys)
visits_in-append (set_tab_state row ∷ es) ys = visits_in-append es ys
visits_in-append (get_all_tab_states generation ∷ es) ys = visits_in-append es ys

try_reopen-silent :
    (c : Coordinator) (b : Browser) (uid : String)
    → visits_in (try_reopen_closed_uid c b uid).1.1 ≡ 0
unfolding try_reopen_closed_uid
try_reopen-silent c b uid = elim (Bool-cases (not b.reopen_closed || not b.has_reopen_fn)) [
  | inl e ↦ ground (arith, e)
  | inr e ↦ elim (Option-cases (find_row uid c.reopenable)) [
    | inl n ↦ ground (arith, e, n)
    | inr (row, n) ↦ elim (Option-cases (b.reopen_fn uid row.last_known_url)) [
      | inl m ↦ ground (arith, e, n, m)
      | inr (live, m) ↦ ground (arith, e, n, m)
    ]
  ]
]

resolve-silent :
    (c : Coordinator) (b : Browser) (uid : String) → visits_in (resolve_or_reopen c b uid).1.1 ≡ 0
unfolding resolve_or_reopen
resolve-silent c b uid = ground (arith, try_reopen-silent c b uid)

step_and_activate-silent :
    (c : Coordinator) (b : Browser) (forwards : Bool)
    → visits_in (step_and_activate c b forwards).1 ≡ 0
unfolding step_and_activate
step_and_activate-silent c b forwards =
    let moved = if forwards then forward c.controller else back c.controller in
    elim (Option-cases moved.1) [
      | inl n ↦ ground (arith, n)
      | inr (uid, n) ↦
          let r = resolve_or_reopen (record c { controller = moved.0 }) b uid in
          ground (
            arith,
            n,
            resolve-silent (record c { controller = moved.0 }) b uid,
            visits_in-append r.1.1 (if r.1.0 then activate uid ∷ [] else []),
          )
    ]

step_back-silent : (c : Coordinator) (b : Browser) → visits_in (step_back c b).1 ≡ 0
unfolding step_back
step_back-silent c b = ground (arith, step_and_activate-silent (ensure_gesture c b) b false)

step_forward-silent : (c : Coordinator) (b : Browser) → visits_in (step_forward c b).1 ≡ 0
unfolding step_forward
step_forward-silent c b = ground (arith, step_and_activate-silent (ensure_gesture c b) b true)

abbrev pub count : Bool → ℕ
count true = 1
count false = 0

commit_visit-once :
    (c : Coordinator) (b : Browser) (uid : String) → visits_in (commit_visit c b uid).1 ≤ 1
unfolding commit_visit
commit_visit-once c b uid = ground arith

settle_gesture-once :
    (c : Coordinator) (b : Browser)
    → visits_in (settle_gesture c b).1 + count (settle_gesture c b).0.0.traversal_active
      ≤ count c.traversal_active
unfolding settle_gesture
settle_gesture-once c b = elim (Bool-cases (not c.traversal_active)) [
  | inl e ↦ ground (arith, e)
  | inr e ↦ elim (Option-cases (settle c.controller).1) [
    | inl n ↦ ground (arith, e, n)
    | inr (uid, n) ↦
        let stopped : Coordinator = record c {
          controller = (settle c.controller).0;
          debounce_armed = false;
        } in
        let r = resolve_or_reopen stopped b uid in
        let v = commit_visit r.0.0 r.0.1 uid in
        elim (Bool-cases (str_eq uid c.anchor_uid)) [
          | inl a ↦ ground (arith, e, n, a)
          | inr a ↦ ground (
            arith,
            e,
            n,
            a,
            resolve-silent stopped b uid,
            visits_in-append r.1.1 v.1,
            commit_visit-once r.0.0 r.0.1 uid,
          )
        ]
  ]
]

-- Whether the input begins a gesture.
abbrev pub begins : Coordinator → Input → ℕ
begins c i = if c.traversal_active then 0 else count (apply c i).0.traversal_active

pub gestures : Coordinator → List Input → ℕ
gestures c [] = 0
gestures c (i ∷ inputs) = begins c i + gestures (apply c i).0 inputs

pub reachability-silent : (c : Coordinator) → visits_in (on_reachability_maybe_changed c) ≡ 0
reachability-silent c = ground arith

was_cleared-silent : (c : Coordinator) (b : Browser) → visits_in (on_browsing_data_cleared c b) ≡ 0
unfolding on_browsing_data_cleared load_reopenable_from_sidecar
was_cleared-silent c b = ground arith

paid : (v : ℕ) (a d : Bool) → v ≡ 0 → v + count d ≤ count a + (if a then 0 else count d)
paid v true true e = omega arith
paid v true false e = omega arith
paid v false d e = omega arith

-- An input that persists nothing is paid for by what it begins.
silent :
    (c : Coordinator) (i : Input)
    → visits_in (apply c i).1 ≡ 0
    → visits_in (apply c i).1 + count (apply c i).0.traversal_active
      ≤ count c.traversal_active + begins c i
silent c i e = paid (visits_in (apply c i).1) c.traversal_active (apply c i).0.traversal_active e

pub apply-paid :
    (c : Coordinator) (i : Input)
    → visits_in (apply c i).1 + count (apply c i).0.traversal_active
      ≤ count c.traversal_active + begins c i
apply-paid c (loads_journal rows) =
    silent c (loads_journal rows) (unfold apply on_journal_loaded in refl)
apply-paid c (settles_uid uid) = silent c (settles_uid uid) (unfold apply in refl)
apply-paid c (steps true b) = silent c (steps true b) (unfold apply in step_forward-silent c b)
apply-paid c (steps false b) = silent c (steps false b) (unfold apply in step_back-silent c b)
apply-paid c (settles b) = unfold apply in omega (arith, settle_gesture-once c b)
apply-paid c cancels = silent c cancels (unfold apply in refl)
apply-paid c (closes row) = silent c (closes row) (unfold apply add_reopenable in ground arith)
apply-paid c prepares_clear = silent c prepares_clear (unfold apply in refl)
apply-paid c (was_cleared b) = silent c (was_cleared b) (unfold apply in was_cleared-silent c b)
apply-paid c (loads_reopenable generation rows) =
    silent c (loads_reopenable generation rows) (unfold apply on_reopenable_loaded in ground arith)

run-paid :
    (c : Coordinator) (inputs : List Input)
    → visits_in (run c inputs).1 + count (run c inputs).0.traversal_active
      ≤ count c.traversal_active + gestures c inputs
unfolding run gestures
run-paid c [] = omega arith
run-paid c (i ∷ inputs) = omega (
  arith,
  visits_in-append (apply c i).1 (run (apply c i).0 inputs).1,
  apply-paid c i,
  run-paid (apply c i).0 inputs,
)

-- Whatever happens to a coordinator, it persists at most one visit for each gesture that begins,
-- and one for a gesture that was under way.
pub visits-le-gestures :
    (c : Coordinator) (inputs : List Input)
    → visits_in (run c inputs).1 ≤ count c.traversal_active + gestures c inputs
visits-le-gestures c inputs = omega (arith, run-paid c inputs)
