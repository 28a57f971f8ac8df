-- ===== src/TabVisit/Bridge.antt =====
-- The observer of a profile's tab strips, with its two tests
-- (roamux/browser/tab_visit/tab_visit_observer_bridge.{h,cc}, tab_visit_activation_class.h and
-- visit_url_filter.cc). A change of a strip is a record of what the observer reads of it, GURL is the
-- parameter `Urls`, and the coordinator is `none` where the profile has none.
pub mod Composed
pub mod Closes
mod Examples
use roamux.Base.{
  String, Bool, true, false, not, ◌&&◌, ◌||◌, Option, none, some, List, [], ◌∷◌, ◌++◌,
  if◌then◌else◌, str_eq, is_empty, ℤ,
}
use roamux.TabVisit.Store.{TabStateRow}
use roamux.TabVisit.Coordinator.{
  Coordinator, Effect, record_visit, set_tab_state, on_reachability_maybe_changed,
  record_settled_uid,
}
use roamux.TabVisit.Coordinator.Sidecar.{add_reopenable}

pub record Urls : Type 1 where
  pub Url : Type 0
  pub spec : Url → String
  pub url_is_empty : Url → Bool
  pub is_valid : Url → Bool
  pub is_about_blank : Url → Bool
  pub scheme_is : Url → String → Bool
  pub host : Url → String

pub data TabActivationChange : Type 0 where
  selection_only inserted removed moved replaced : TabActivationChange

-- The reasons that mean a close, and any other.
pub data TabRemovedReason : Type 0 where
  deleted deleted_and_expand_side_panel other_reason : TabRemovedReason

abbrev pub should_commit_activation : TabActivationChange → Bool → Bool
should_commit_activation selection_only active_tab_changed = active_tab_changed
should_commit_activation inserted active_tab_changed = false
should_commit_activation removed active_tab_changed = false
should_commit_activation moved active_tab_changed = false
should_commit_activation replaced active_tab_changed = false

abbrev pub is_removal : TabActivationChange → Bool
is_removal selection_only = false
is_removal inserted = false
is_removal removed = true
is_removal moved = false
is_removal replaced = false

abbrev pub changes_tabs : TabActivationChange → Bool
changes_tabs selection_only = false
changes_tabs inserted = true
changes_tabs removed = true
changes_tabs moved = false
changes_tabs replaced = false

abbrev pub will_delete : TabRemovedReason → Bool
will_delete deleted = true
will_delete deleted_and_expand_side_panel = true
will_delete other_reason = false

-- The uid of a tab without contents or helper is none; in the code it is empty too.
abbrev pub uid_or_empty : Option String → String
uid_or_empty none = ""
uid_or_empty (some uid) = uid

abbrev pub is_traversal_active : Option Coordinator → Bool
is_traversal_active none = false
is_traversal_active (some c) = c.traversal_active

abbrev pub add_closed : Option Coordinator → TabStateRow → Option Coordinator × List Effect
add_closed none row = (none, [])
add_closed (some c) row = let r = add_reopenable c row in (some r.0, r.1)

abbrev pub reachability_changed : Option Coordinator → List Effect
reachability_changed none = []
reachability_changed (some c) = on_reachability_maybe_changed c

abbrev pub record_uid : Option Coordinator → String → Option Coordinator
record_uid none uid = none
record_uid (some c) uid = if is_empty uid then some c else some (record_settled_uid c uid)

module _ (lib : Urls) where
  open lib use {Url, spec, url_is_empty, is_valid, is_about_blank, scheme_is, host}

  pub record RemovedTab : Type 0 where
    pub remove_reason : TabRemovedReason
    pub uid : Option String
    pub window_id : ℤ
    pub url : Url

  pub record Contents : Type 0 where
    pub uid : Option String
    pub url : Url

  pub record Change : Type 0 where
    pub type : TabActivationChange
    pub removed_tabs : List RemovedTab
    pub active_tab_changed : Bool
    pub new_contents : Option Contents

  unfoldable pub is_recordable_visit_url : Url → Bool
  is_recordable_visit_url url =
      if url_is_empty url || not (is_valid url) || is_about_blank url
      then false
      else if scheme_is url "chrome-search"
      then false
      else if scheme_is url "chrome"
          && (str_eq (host url) "newtab"
              || str_eq (host url) "new-tab-page"
              || str_eq (host url) "new-tab-page-third-party")
      then false
      else true

  unfoldable pub closed_row : RemovedTab → TabStateRow
  closed_row t = record {
    restore_key = uid_or_empty t.uid;
    closed = true;
    window_id = t.window_id;
    last_known_url = spec t.url;
  }

  abbrev pub is_persisted : RemovedTab → Bool
  is_persisted t = will_delete t.remove_reason && not (is_empty (uid_or_empty t.uid))

  unfoldable pub persist_closed_tabs :
      Option Coordinator → List RemovedTab → Option Coordinator × List Effect
  unfolding closed_row
  persist_closed_tabs c [] = (c, [])
  persist_closed_tabs c (t ∷ ts) =
      let added = add_closed c (closed_row t) in
      let after = persist_closed_tabs added.0 ts in
      let skipped = persist_closed_tabs c ts in
      if is_persisted t
      then (after.0, added.1 ++ set_tab_state (closed_row t) ∷ after.1)
      else skipped

  -- From the test of the new contents on.
  unfoldable pub commit_activation :
      Bool → Option Coordinator → Option Contents → Option Coordinator × List Effect
  unfolding is_recordable_visit_url
  commit_activation has_journal c none = (c, [])
  commit_activation has_journal c (some contents) =
      let tab_uid = uid_or_empty contents.uid in
      if is_traversal_active c then (c, []) else (
        record_uid c tab_uid,
        if not (is_recordable_visit_url contents.url)
            then []
            else if has_journal
            then record_visit tab_uid (spec contents.url) ∷ []
            else [],
      )

  unfoldable pub on_tab_strip_model_changed :
      Bool → Option Coordinator → Change → Option Coordinator × List Effect
  unfolding persist_closed_tabs commit_activation
  on_tab_strip_model_changed has_journal c change =
      let persisted =
        if has_journal && is_removal change.type
        then persist_closed_tabs c change.removed_tabs
        else (c, []) in
      let told = if changes_tabs change.type then reachability_changed persisted.0 else [] in
      let committed =
        if should_commit_activation change.type change.active_tab_changed
        then commit_activation has_journal persisted.0 change.new_contents
        else (persisted.0, []) in
      (committed.0, persisted.1 ++ told ++ committed.1)
