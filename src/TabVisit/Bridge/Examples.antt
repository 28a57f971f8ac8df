-- ===== src/TabVisit/Bridge/Examples.antt =====
-- A session with an activation, a gesture whose preview is not recorded, and a close.
use roamux.Base.{
  ◌+◌, ◌≤◌, String, ◌≡◌, refl, true, false, ◌&&◌, ◌||◌, none, some, List, [], ◌∷◌, if◌then◌else◌,
  str_eq, is_empty, contains, pos,
}
use roamux.TabVisit.Coordinator.{Browser, new_coordinator, restore_keys}
use roamux.TabVisit.Coordinator.Inputs.{loads_journal, steps, settles}
use roamux.TabVisit.Coordinator.Gestures.{visits_in, count}
use roamux.TabVisit.Bridge.{
  Urls, selection_only, removed, deleted, other_reason, is_traversal_active, RemovedTab, Change,
  is_recordable_visit_url, on_tab_strip_model_changed,
}
use roamux.TabVisit.Bridge.Closes.{
  is_reopenable, rows_in, closed_rows, on_tab_strip_model_changed-closes,
}
use roamux.TabVisit.Bridge.Composed.{
  Event, strip, calls, run_events, occasions, visits-le-occasions,
}

abbrev plain_urls : Urls
plain_urls = record {
  Url = String;
  spec = λ url. url;
  url_is_empty = λ url. is_empty url;
  is_valid = λ url. true;
  is_about_blank = λ url. str_eq url "about:blank";
  scheme_is = λ url scheme. str_eq url "chrome://newtab/" && str_eq scheme "chrome";
  host = λ url. if str_eq url "chrome://newtab/" then "newtab" else url;
}

abbrev two_tabs : Browser
two_tabs = record {
  nav_enabled = true;
  reopen_closed = true;
  has_reopen_fn = false;
  has_journal = true;
  has_target = true;
  live_uids = "a" ∷ "b" ∷ [];
  reopen_fn = λ uid url. none;
  committed_url = λ uid. uid;
  is_recordable = λ url. true;
}

abbrev activates : String → String → Event plain_urls true
activates uid url = strip (record {
  type = selection_only;
  removed_tabs = [];
  active_tab_changed = true;
  new_contents = some (record { uid = some uid; url = url });
})

abbrev tab_closed : Event plain_urls true
tab_closed = strip (record {
  type = removed;
  removed_tabs =
      record { remove_reason = deleted; uid = some "b"; window_id = pos 1; url = "b" } ∷ [];
  active_tab_changed = true;
  new_contents = none;
})

abbrev events : List (Event plain_urls true)
events =
    calls (loads_journal [])
    ∷ activates "a" "a"
    ∷ activates "b" "chrome://newtab/"
    ∷ calls (steps false two_tabs)
    ∷ activates "a" "a"
    ∷ calls (settles two_tabs)
    ∷ tab_closed
    ∷ []

new_tab_not_recordable : is_recordable_visit_url plain_urls "chrome://newtab/" ≡ false
unfolding is_recordable_visit_url
new_tab_not_recordable = refl

visits-le-occasions_example :
    visits_in (run_events plain_urls true (some new_coordinator) events).1
    ≤ count (is_traversal_active (some new_coordinator))
      + occasions plain_urls true (some new_coordinator) events
visits-le-occasions_example = visits-le-occasions plain_urls true (some new_coordinator) events

abbrev closed_tabs : List (RemovedTab plain_urls)
closed_tabs =
    record { remove_reason = other_reason; uid = some "a"; window_id = pos 1; url = "a" }
    ∷ record { remove_reason = deleted; uid = some "b"; window_id = pos 1; url = "b" }
    ∷ []

on_tab_strip_model_changed-closes_example :
    let change : Change plain_urls = record {
      type = removed;
      removed_tabs = closed_tabs;
      active_tab_changed = true;
      new_contents = none;
    } in
    let r = on_tab_strip_model_changed plain_urls true (some new_coordinator) change in
    (rows_in r.1 ≡ closed_rows plain_urls closed_tabs)
    × ((uid : String)
        → is_reopenable r.0 uid ≡ (
            contains (restore_keys (closed_rows plain_urls closed_tabs)) uid
            || is_reopenable (some new_coordinator) uid))
on_tab_strip_model_changed-closes_example =
    on_tab_strip_model_changed-closes plain_urls new_coordinator closed_tabs true none
