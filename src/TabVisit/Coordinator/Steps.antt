-- ===== src/TabVisit/Coordinator/Steps.antt =====
-- The gesture of the coordinator: its steps, its settlement and its end.
use roamux.Base.{
  String, Bool, true, false, not, ◌&&◌, Option, none, some, List, [], ◌∷◌, ◌++◌, if◌then◌else◌,
  str_eq,
}
use roamux.TabVisit.Traversal.{
  can_begin_back_traversal, Controller, begin_gesture, can_go_back, can_go_forward, back, forward,
  settle,
}
use roamux.TabVisit.Coordinator.{
  Coordinator, Browser, Effect, activate, record_visit, record_settled_uid, collect_reachable_uids,
  resolve_or_reopen,
}

abbrev pub last_or_empty : List String → String
last_or_empty [] = ""
last_or_empty (x ∷ []) = x
last_or_empty (x ∷ (y ∷ ys)) = last_or_empty (y ∷ ys)

unfoldable pub ensure_gesture : Coordinator → Browser → Coordinator
ensure_gesture c b = if c.traversal_active then c else record c {
  anchor_uid = last_or_empty c.settled_uid_log;
  controller = begin_gesture c.controller c.settled_uid_log (collect_reachable_uids c b);
  traversal_active = true;
}

unfoldable pub can_go_back_now : Coordinator → Browser → Bool
can_go_back_now c b =
    if c.traversal_active
    then can_go_back c.controller
    else can_begin_back_traversal c.settled_uid_log (collect_reachable_uids c b)

unfoldable pub can_go_forward_now : Coordinator → Bool
can_go_forward_now c = c.traversal_active && can_go_forward c.controller

unfoldable pub find_url : String → List (String × String) → Option String
find_url uid [] = none
find_url uid ((k, url) ∷ ps) = if str_eq k uid then some url else find_url uid ps

unfoldable pub step_and_activate :
    Coordinator → Browser → Bool → (Coordinator × Browser) × List Effect
unfolding resolve_or_reopen
step_and_activate c b forwards =
    land_on (if forwards then forward c.controller else back c.controller)
  where
    land_on : Controller × Option String → (Coordinator × Browser) × List Effect
    land_on (k, none) = ((record c { controller = k; debounce_armed = true }, b), [])
    land_on (k, some uid) =
        let r = resolve_or_reopen (record c { controller = k }) b uid in
        (
          (record r.0.0 { debounce_armed = true }, r.0.1),
          r.1.1 ++ (if r.1.0 then activate uid ∷ [] else []),
        )

unfoldable pub step_back : Coordinator → Browser → (Coordinator × Browser) × List Effect
unfolding can_go_back_now ensure_gesture step_and_activate
step_back c b =
    if not b.nav_enabled
    then ((c, b), [])
    else if not (can_go_back_now c b)
    then ((c, b), [])
    else step_and_activate (ensure_gesture c b) b false

unfoldable pub step_forward : Coordinator → Browser → (Coordinator × Browser) × List Effect
unfolding can_go_forward_now ensure_gesture step_and_activate
step_forward c b =
    if not b.nav_enabled
    then ((c, b), [])
    else if not (can_go_forward_now c)
    then ((c, b), [])
    else step_and_activate (ensure_gesture c b) b true

-- The url that `Settle` persists: the committed one, or the one that the tab had when it was closed.
unfoldable pub visit_url : Coordinator → Browser → String → String
unfolding find_url
visit_url c b uid =
    if b.is_recordable (b.committed_url uid)
    then b.committed_url uid
    else fallback (find_url uid c.reopened_url_by_uid)
  where
    fallback : Option String → String
    fallback none = b.committed_url uid
    fallback (some url) = url

unfoldable pub commit_visit : Coordinator → Browser → String → Coordinator × List Effect
unfolding record_settled_uid visit_url
commit_visit c b uid = (
  record_settled_uid c uid,
  activate uid
      ∷ (if b.is_recordable (visit_url c b uid) && b.has_journal
          then record_visit uid (visit_url c b uid) ∷ []
          else []),
)

abbrev pub end_gesture : Coordinator → Coordinator
end_gesture c = record c { reopened_url_by_uid = []; traversal_active = false }

unfoldable pub settle_gesture : Coordinator → Browser → (Coordinator × Browser) × List Effect
unfolding resolve_or_reopen commit_visit
settle_gesture c b = if not c.traversal_active then ((c, b), []) else commit (settle c.controller)
  where
    commit : Controller × Option String → (Coordinator × Browser) × List Effect
    commit (k, none) = ((end_gesture (record c { controller = k; debounce_armed = false }), b), [])
    commit (k, some uid) =
        let stopped : Coordinator = record c { controller = k; debounce_armed = false } in
        let r = resolve_or_reopen stopped b uid in
        let v = commit_visit r.0.0 r.0.1 uid in
        if str_eq uid c.anchor_uid
        then ((end_gesture stopped, b), [])
        else if r.1.0
        then ((end_gesture v.0, r.0.1), r.1.1 ++ v.1)
        else ((end_gesture r.0.0, r.0.1), r.1.1)

unfoldable pub cancel_gesture : Coordinator → Coordinator
cancel_gesture c =
    if c.traversal_active
    then record c {
      controller = (settle c.controller).0;
      reopened_url_by_uid = [];
      traversal_active = false;
      debounce_armed = false;
    }
    else record c { debounce_armed = false }
