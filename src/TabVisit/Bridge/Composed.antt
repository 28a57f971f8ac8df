-- ===== src/TabVisit/Bridge/Composed.antt =====
-- The observer and the coordinator together: what is persisted in a session, by either.
use mathlib.Core.Path.{subst}
use roamux.Base.{
  ℕ, ◌+◌, ◌≤◌, String, ◌≡◌, refl, ap, ◌∙◌, inl, inr, Bool, ◌&&◌, Option, none, some, List, [], ◌∷◌,
  ◌++◌, arith, if◌then◌else◌, Bool-cases, if_intro,
}
use roamux.TabVisit.Store.{TabStateRow}
use roamux.TabVisit.Coordinator.{Coordinator, Effect, set_tab_state, record_settled_uid}
use roamux.TabVisit.Coordinator.Sidecar.{add_reopenable}
use roamux.TabVisit.Coordinator.Inputs.{Input, apply}
use roamux.TabVisit.Coordinator.Gestures.{
  visits_in, visits_in-append, count, begins, reachability-silent, apply-paid,
}
use roamux.TabVisit.Bridge.{
  Urls, should_commit_activation, is_removal, changes_tabs, uid_or_empty, is_traversal_active,
  add_closed, reachability_changed, record_uid, RemovedTab, Contents, Change, closed_row,
  is_persisted, persist_closed_tabs, commit_activation, on_tab_strip_model_changed,
}

add_closed-silent :
    (c : Option Coordinator) (row : TabStateRow)
    → (visits_in (add_closed c row).1 ≡ 0)
      × (is_traversal_active (add_closed c row).0 ≡ is_traversal_active c)
unfolding add_reopenable
add_closed-silent none row = (refl, refl)
add_closed-silent (some c) row = (ground arith, ground arith)

record_uid-is_traversal_active :
    (c : Option Coordinator) (uid : String)
    → is_traversal_active (record_uid c uid) ≡ is_traversal_active c
unfolding record_settled_uid
record_uid-is_traversal_active none uid = refl
record_uid-is_traversal_active (some c) uid = ground arith

told-silent : (c : Option Coordinator) → visits_in (reachability_changed c) ≡ 0
told-silent none = refl
told-silent (some c) = reachability-silent c

visits_in-parts :
    (x y z : List Effect) (n : ℕ)
    → visits_in x ≡ 0
    → visits_in y ≡ 0
    → visits_in z ≤ n
    → visits_in (x ++ y ++ z) ≤ n
visits_in-parts x y z n a b h =
    omega (arith, a, b, h, visits_in-append (x ++ y) z, visits_in-append x y)

module _ (lib : Urls) (has_journal : Bool) where
  -- The changes of the strips and the calls of the coordinator's other clients.
  pub data Event : Type 0 where
    strip : Change lib → Event
    calls : Input → Event

  unfoldable pub apply_event : Option Coordinator → Event → Option Coordinator × List Effect
  unfolding on_tab_strip_model_changed
  apply_event c (strip change) = on_tab_strip_model_changed lib has_journal c change
  apply_event none (calls i) = (none, [])
  apply_event (some c) (calls i) = let r = apply c i in (some r.0, r.1)

  unfoldable pub run_events : Option Coordinator → List Event → Option Coordinator × List Effect
  unfolding apply_event
  run_events c [] = (c, [])
  run_events c (e ∷ es) =
      let rest = run_events (apply_event c e).0 es in (rest.0, (apply_event c e).1 ++ rest.1)

  -- What may add a visit: the start of a gesture, or an activation by the user outside one.
  abbrev pub occasion : Option Coordinator → Event → ℕ
  occasion c (strip change) =
      if is_traversal_active c
      then 0
      else count (should_commit_activation change.type change.active_tab_changed)
  occasion none (calls i) = 0
  occasion (some c) (calls i) = begins c i

  pub occasions : Option Coordinator → List Event → ℕ
  occasions c [] = 0
  occasions c (e ∷ es) = occasion c e + occasions (apply_event c e).0 es

  persist_closed_tabs-silent :
      (c : Option Coordinator) (ts : List (RemovedTab lib))
      → (visits_in (persist_closed_tabs lib c ts).1 ≡ 0)
        × (is_traversal_active (persist_closed_tabs lib c ts).0 ≡ is_traversal_active c)
  unfolding persist_closed_tabs
  persist_closed_tabs-silent c [] = (refl, refl)
  persist_closed_tabs-silent c (t ∷ ts) =
      let added = add_closed c (closed_row lib t) in
      let after = persist_closed_tabs lib added.0 ts in
      let here = add_closed-silent c (closed_row lib t) in
      let there = persist_closed_tabs-silent added.0 ts in
      if_intro
        (λ (r : Option Coordinator × List Effect).
          (visits_in r.1 ≡ 0) × (is_traversal_active r.0 ≡ is_traversal_active c))
        (is_persisted lib t) (after.0, added.1 ++ set_tab_state (closed_row lib t) ∷ after.1)
        (persist_closed_tabs lib c ts)
        (λ e. (
          omega (
            arith,
            here.0,
            there.0,
            visits_in-append added.1 (set_tab_state (closed_row lib t) ∷ after.1),
          ),
          there.1 ∙ here.1,
        ))
        (λ e. persist_closed_tabs-silent c ts)

  commit_activation-once :
      (c : Option Coordinator) (contents : Option (Contents lib))
      → (visits_in (commit_activation lib has_journal c contents).1
          ≤ (if is_traversal_active c then 0 else 1))
        × (is_traversal_active (commit_activation lib has_journal c contents).0
            ≡ is_traversal_active c)
  unfolding commit_activation
  commit_activation-once c none = (ground arith, refl)
  commit_activation-once c (some contents) =
      let uid = uid_or_empty contents.uid in
      (ground arith, ground (arith, record_uid-is_traversal_active c uid))

  -- A change adds at most one visit, and that for an activation outside a gesture.
  on_tab_strip_model_changed-once :
      (c : Option Coordinator) (change : Change lib)
      → (visits_in (on_tab_strip_model_changed lib has_journal c change).1
          ≤ occasion c (strip change))
        × (is_traversal_active (on_tab_strip_model_changed lib has_journal c change).0
            ≡ is_traversal_active c)
  unfolding on_tab_strip_model_changed
  on_tab_strip_model_changed-once c change =
      let none_yet : Option Coordinator × List Effect = (c, []) in
      let persisted =
        if has_journal && is_removal change.type
        then persist_closed_tabs lib c change.removed_tabs
        else none_yet in
      let told = if changes_tabs change.type then reachability_changed persisted.0 else [] in
      let commits = should_commit_activation change.type change.active_tab_changed in
      let kept : Option Coordinator × List Effect = (persisted.0, []) in
      let committed =
        if commits
        then commit_activation lib has_journal persisted.0 change.new_contents
        else kept in
      let p : (visits_in persisted.1 ≡ 0)
          × (is_traversal_active persisted.0 ≡ is_traversal_active c) =
        if_intro
          (λ (r : Option Coordinator × List Effect).
            (visits_in r.1 ≡ 0) × (is_traversal_active r.0 ≡ is_traversal_active c))
          (has_journal && is_removal change.type) (persist_closed_tabs lib c change.removed_tabs)
          none_yet (λ e. persist_closed_tabs-silent c change.removed_tabs) (λ e. (refl, refl)) in
      let t : visits_in told ≡ 0 =
        if_intro (λ (es : List Effect). visits_in es ≡ 0) (changes_tabs change.type)
          (reachability_changed persisted.0) [] (λ e. told-silent persisted.0) (λ e. refl) in
      let k : (visits_in committed.1
            ≤ (if is_traversal_active persisted.0 then 0 else count commits))
          × (is_traversal_active committed.0 ≡ is_traversal_active persisted.0) =
        elim (Bool-cases commits) [
          | inl e ↦
              let once = commit_activation-once persisted.0 change.new_contents in
              (ground (arith, e, once.0), ground (arith, e, once.1))
          | inr e ↦ (ground (arith, e), ground (arith, e))
        ] in
      (
        visits_in-parts persisted.1 told committed.1 (occasion c (strip change)) p.0 t
            (subst (λ b. visits_in committed.1 ≤ (if b then 0 else count commits)) p.1 k.0),
        k.1 ∙ p.1,
      )

  apply_event-paid :
      (c : Option Coordinator) (e : Event)
      → visits_in (apply_event c e).1 + count (is_traversal_active (apply_event c e).0)
        ≤ count (is_traversal_active c) + occasion c e
  unfolding apply_event
  apply_event-paid c (strip change) =
      let once = on_tab_strip_model_changed-once c change in omega (arith, once.0, ap count once.1)
  apply_event-paid none (calls i) = omega arith
  apply_event-paid (some c) (calls i) = omega (arith, apply-paid c i)

  run_events-paid :
      (c : Option Coordinator) (es : List Event)
      → visits_in (run_events c es).1 + count (is_traversal_active (run_events c es).0)
        ≤ count (is_traversal_active c) + occasions c es
  unfolding run_events occasions
  run_events-paid c [] = omega arith
  run_events-paid c (e ∷ es) = omega (
    arith,
    visits_in-append (apply_event c e).1 (run_events (apply_event c e).0 es).1,
    apply_event-paid c e,
    run_events-paid (apply_event c e).0 es,
  )

  -- In a session of changes of the strips and calls of the coordinator, in any order, at most one visit
  -- is persisted for each gesture that begins and each activation outside a gesture, and one for a
  -- gesture under way.
  pub visits-le-occasions :
      (c : Option Coordinator) (es : List Event)
      → visits_in (run_events c es).1 ≤ count (is_traversal_active c) + occasions c es
  visits-le-occasions c es = omega (arith, run_events-paid c es)
