-- ===== src/TabVisit/Coordinator/Log.antt =====
-- The settled-uid log: no empty uid, and no uid twice in a row.
use mathlib.Core.Path.{subst}
use roamux.Base.{
  String, ◌≡◌, sym, ◌⊎◌, inl, inr, Bool, true, false, not, ◌||◌, List, [], ◌∷◌, ◌++◌, arith,
  if◌then◌else◌, Bool-cases, Option-cases, if_intro, str_eq, is_empty,
}
use roamux.TabVisit.Traversal.{back, forward, settle}
use roamux.TabVisit.Store.{VisitRow}
use roamux.TabVisit.Coordinator.Inputs.{
  Input, loads_journal, settles_uid, steps, settles, cancels, closes, prepares_clear, was_cleared,
  loads_reopenable, apply, run,
}
use roamux.TabVisit.Coordinator.{
  Coordinator, Browser, last_is, push_unless_last, coalesce, nonempty_uids, on_journal_loaded,
  record_settled_uid, find_row, try_reopen_closed_uid, resolve_or_reopen,
}
use roamux.TabVisit.Coordinator.Steps.{
  ensure_gesture, step_and_activate, step_back, step_forward, commit_visit, settle_gesture,
  cancel_gesture,
}
use roamux.TabVisit.Coordinator.Sidecar.{
  add_reopenable, prepare_for_browsing_data_clear, on_reopenable_loaded,
}

abbrev pub Coalesced : List String → Type 0
Coalesced [] = Unit
Coalesced (x ∷ []) = is_empty x ≡ false
Coalesced (x ∷ (y ∷ ys)) = (is_empty x ≡ false) × ((str_eq x y ≡ false) × Coalesced (y ∷ ys))

abbrev Filled : List String → Type 0
Filled [] = Unit
Filled (x ∷ xs) = (is_empty x ≡ false) × Filled xs

Coalesced-snoc :
    (log : List String) (uid : String)
    → Coalesced log
    → last_is log uid ≡ false
    → is_empty uid ≡ false
    → Coalesced (log ++ uid ∷ [])
Coalesced-snoc [] uid c l e = e
Coalesced-snoc (x ∷ []) uid c l e = (c, (l, e))
Coalesced-snoc (x ∷ (y ∷ ys)) uid c l e = (c.0, (c.1.0, Coalesced-snoc (y ∷ ys) uid c.1.1 l e))

push-Coalesced :
    (log : List String) (uid : String)
    → Coalesced log
    → is_empty uid ≡ false
    → Coalesced (push_unless_last log uid)
unfolding push_unless_last
push-Coalesced log uid c e =
    if_intro Coalesced (last_is log uid) log (log ++ uid ∷ []) (λ l. c)
      (λ l. Coalesced-snoc log uid c l e)

coalesce-Coalesced :
    (log uids : List String) → Coalesced log → Filled uids → Coalesced (coalesce log uids)
unfolding coalesce
coalesce-Coalesced log [] c f = c
coalesce-Coalesced log (uid ∷ uids) c f =
    coalesce-Coalesced (push_unless_last log uid) uids (push-Coalesced log uid c f.0) f.1

Coalesced-Filled : (log : List String) → Coalesced log → Filled log
Coalesced-Filled [] c = tt
Coalesced-Filled (x ∷ []) c = (c, tt)
Coalesced-Filled (x ∷ (y ∷ ys)) c = (c.0, Coalesced-Filled (y ∷ ys) c.1.1)

Filled-append : (xs ys : List String) → Filled xs → Filled ys → Filled (xs ++ ys)
Filled-append [] ys f g = g
Filled-append (x ∷ xs) ys f g = (f.0, Filled-append xs ys f.1 g)

nonempty_uids-Filled : (rows : List VisitRow) → Filled (nonempty_uids rows)
unfolding nonempty_uids
nonempty_uids-Filled [] = tt
nonempty_uids-Filled (r ∷ rs) =
    if_intro Filled (is_empty r.tab_uid) (nonempty_uids rs) (r.tab_uid ∷ nonempty_uids rs)
      (λ e. nonempty_uids-Filled rs) (λ e. (e, nonempty_uids-Filled rs))

abbrev Ok : Coordinator → Type 0
Ok c = Coalesced c.settled_uid_log

try_reopen-log :
    (c : Coordinator) (b : Browser) (uid : String)
    → (try_reopen_closed_uid c b uid).0.0.settled_uid_log ≡ c.settled_uid_log
unfolding try_reopen_closed_uid
try_reopen-log c b uid = elim (Bool-cases (not b.reopen_closed || not b.has_reopen_fn)) [
  | inl e ↦ ground (arith, e)
  | inr e ↦ elim (Option-cases (find_row uid c.reopenable)) [
    | inl n ↦ ground (arith, e, n)
    | inr (row, n) ↦ elim (Option-cases (b.reopen_fn uid row.last_known_url)) [
      | inl m ↦ ground (arith, e, n, m)
      | inr (live, m) ↦ ground (arith, e, n, m)
    ]
  ]
]

resolve-log :
    (c : Coordinator) (b : Browser) (uid : String)
    → (resolve_or_reopen c b uid).0.0.settled_uid_log ≡ c.settled_uid_log
unfolding resolve_or_reopen
resolve-log c b uid = ground (arith, try_reopen-log c b uid)

step_and_activate-log :
    (c : Coordinator) (b : Browser) (forwards : Bool)
    → (step_and_activate c b forwards).0.0.settled_uid_log ≡ c.settled_uid_log
unfolding step_and_activate
step_and_activate-log c b forwards =
    let moved = if forwards then forward c.controller else back c.controller in
    elim (Option-cases moved.1) [
      | inl n ↦ ground (arith, n)
      | inr (uid, n) ↦ ground (arith, n, resolve-log (record c { controller = moved.0 }) b uid)
    ]

ensure_gesture-log :
    (c : Coordinator) (b : Browser) → (ensure_gesture c b).settled_uid_log ≡ c.settled_uid_log
unfolding ensure_gesture
ensure_gesture-log c b = ground arith

step_back-log :
    (c : Coordinator) (b : Browser) → (step_back c b).0.0.settled_uid_log ≡ c.settled_uid_log
unfolding step_back
step_back-log c b =
    ground (arith, step_and_activate-log (ensure_gesture c b) b false, ensure_gesture-log c b)

step_forward-log :
    (c : Coordinator) (b : Browser) → (step_forward c b).0.0.settled_uid_log ≡ c.settled_uid_log
unfolding step_forward
step_forward-log c b =
    ground (arith, step_and_activate-log (ensure_gesture c b) b true, ensure_gesture-log c b)

cancel_gesture-log : (c : Coordinator) → (cancel_gesture c).settled_uid_log ≡ c.settled_uid_log
unfolding cancel_gesture
cancel_gesture-log c = ground arith

abbrev log_after : List String → String → List String
log_after log uid = if is_empty uid then log else if last_is log uid then log else log ++ uid ∷ []

record_settled_uid-log :
    (c : Coordinator) (uid : String)
    → (record_settled_uid c uid).settled_uid_log ≡ log_after c.settled_uid_log uid
unfolding record_settled_uid
record_settled_uid-log c uid = ground arith

log_after-Coalesced :
    (log : List String) (uid : String) → Coalesced log → Coalesced (log_after log uid)
log_after-Coalesced log uid o =
    if_intro Coalesced (is_empty uid) log (if last_is log uid then log else log ++ uid ∷ [])
      (λ e. o)
      (λ e.
        if_intro Coalesced (last_is log uid) log (log ++ uid ∷ []) (λ l. o)
          (λ l. Coalesced-snoc log uid o l e))

settle_gesture-log :
    (c : Coordinator) (b : Browser)
    → ((settle_gesture c b).0.0.settled_uid_log ≡ c.settled_uid_log)
      ⊎ ((uid : String) × ((settle_gesture c b).0.0.settled_uid_log
            ≡ log_after c.settled_uid_log uid))
unfolding settle_gesture commit_visit
settle_gesture-log c b = elim (Bool-cases (not c.traversal_active)) [
  | inl e ↦ inl (ground (arith, e))
  | inr e ↦ elim (Option-cases (settle c.controller).1) [
    | inl n ↦ inl (ground (arith, e, n))
    | inr (uid, n) ↦
        let stopped : Coordinator = record c {
          controller = (settle c.controller).0;
          debounce_armed = false;
        } in
        elim (Bool-cases (str_eq uid c.anchor_uid)) [
          | inl a ↦ inl (ground (arith, e, n, a))
          | inr a ↦ elim (Bool-cases (resolve_or_reopen stopped b uid).1.0) [
            | inl r ↦ inr (
              uid,
              ground (
                arith,
                e,
                n,
                a,
                r,
                resolve-log stopped b uid,
                record_settled_uid-log (resolve_or_reopen stopped b uid).0.0 uid,
              ),
            )
            | inr r ↦ inl (ground (arith, e, n, a, r, resolve-log stopped b uid))
          ]
        ]
  ]
]

settle_gesture-Ok : (c : Coordinator) (b : Browser) → Ok c → Ok (settle_gesture c b).0.0
settle_gesture-Ok c b o = elim (settle_gesture-log c b) [
  | inl e ↦ subst Coalesced (sym e) o
  | inr (uid, e) ↦ subst Coalesced (sym e) (log_after-Coalesced c.settled_uid_log uid o)
]

kept-Ok : (c d : Coordinator) → d.settled_uid_log ≡ c.settled_uid_log → Ok c → Ok d
kept-Ok c d e o = subst Coalesced (sym e) o

apply-Ok : (c : Coordinator) (i : Input) → Ok c → Ok (apply c i).0
unfolding apply on_journal_loaded add_reopenable prepare_for_browsing_data_clear
    on_reopenable_loaded
apply-Ok c (loads_journal rows) o =
    coalesce-Coalesced [] (nonempty_uids rows ++ c.settled_uid_log) tt (
      Filled-append (nonempty_uids rows) c.settled_uid_log (nonempty_uids-Filled rows)
        (Coalesced-Filled c.settled_uid_log o))
apply-Ok c (settles_uid uid) o =
    subst Coalesced (sym (record_settled_uid-log c uid))
      (log_after-Coalesced c.settled_uid_log uid o)
apply-Ok c (steps true b) o = kept-Ok c (step_forward c b).0.0 (step_forward-log c b) o
apply-Ok c (steps false b) o = kept-Ok c (step_back c b).0.0 (step_back-log c b) o
apply-Ok c (settles b) o = settle_gesture-Ok c b o
apply-Ok c cancels o = kept-Ok c (cancel_gesture c) (cancel_gesture-log c) o
apply-Ok c (closes row) o = kept-Ok c (add_reopenable c row).0 (ground arith) o
apply-Ok c prepares_clear o = kept-Ok c (prepare_for_browsing_data_clear c) (cancel_gesture-log c) o
apply-Ok c (was_cleared b) o = o
apply-Ok c (loads_reopenable generation rows) o =
    kept-Ok c (on_reopenable_loaded c generation rows).0 (ground arith) o

-- Whatever happens to a coordinator whose log has no empty uid and no uid twice in a row, in
-- whatever order, the log stays so.
pub run-Coalesced :
    (c : Coordinator) (inputs : List Input)
    → Coalesced c.settled_uid_log
    → Coalesced (run c inputs).0.settled_uid_log
unfolding run
run-Coalesced c [] o = o
run-Coalesced c (i ∷ inputs) o = run-Coalesced (apply c i).0 inputs (apply-Ok c i o)
