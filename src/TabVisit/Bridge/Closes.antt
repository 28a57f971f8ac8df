-- ===== src/TabVisit/Bridge/Closes.antt =====
-- What a close leaves behind: a row in the journal's file and a tab that can be reopened.
use roamux.Base.{
  String, ◌≡◌, refl, sym, ap, ◌∙◌, Bool, true, false, not, ◌&&◌, ◌||◌, Option, none, some, List, [],
  ◌∷◌, ◌++◌, arith, if◌then◌else◌, if_intro, append_nil, str_eq, str_eq_iff, is_empty, contains,
}
use roamux.TabVisit.Store.{TabStateRow}
use roamux.TabVisit.Coordinator.{
  Coordinator, Effect, notify, activate, record_visit, set_tab_state, get_all_tab_states,
  restore_keys, erase_row,
}
use roamux.TabVisit.Coordinator.Sidecar.{add_reopenable}
use roamux.TabVisit.Bridge.{
  Urls, removed, TabRemovedReason, deleted, deleted_and_expand_side_panel, other_reason,
  will_delete, uid_or_empty, add_closed, reachability_changed, RemovedTab, Contents, Change,
  closed_row, is_persisted, persist_closed_tabs, on_tab_strip_model_changed,
}

abbrev pub is_reopenable : Option Coordinator → String → Bool
is_reopenable none uid = false
is_reopenable (some c) uid = contains (restore_keys c.reopenable) uid

abbrev pub rows_in : List Effect → List TabStateRow
rows_in [] = []
rows_in (notify ∷ es) = rows_in es
rows_in (activate uid ∷ es) = rows_in es
rows_in (record_visit uid url ∷ es) = rows_in es
rows_in (set_tab_state row ∷ es) = row ∷ rows_in es
rows_in (get_all_tab_states generation ∷ es) = rows_in es

rows_in-append : (xs ys : List Effect) → rows_in (xs ++ ys) ≡ rows_in xs ++ rows_in ys
rows_in-append [] ys = refl
rows_in-append (notify ∷ es) ys = rows_in-append es ys
rows_in-append (activate uid ∷ es) ys = rows_in-append es ys
rows_in-append (record_visit uid url ∷ es) ys = rows_in-append es ys
rows_in-append (set_tab_state row ∷ es) ys = ap (λ rs. row ∷ rs) (rows_in-append es ys)
rows_in-append (get_all_tab_states generation ∷ es) ys = rows_in-append es ys

same_key : (a b uid : String) → str_eq a b ≡ true → str_eq a uid ≡ str_eq b uid
same_key a b uid e = ap (λ s. str_eq s uid) ((str_eq_iff a b).0 e)

erase_row-others :
    (key uid : String) (rs : List TabStateRow)
    → str_eq key uid ≡ false
    → contains (restore_keys (erase_row key rs)) uid ≡ contains (restore_keys rs) uid
unfolding erase_row
erase_row-others key uid [] h = refl
erase_row-others key uid (r ∷ rs) h =
    ground (arith, h, erase_row-others key uid rs h, same_key r.restore_key key uid)

add_closed-is_reopenable :
    (c : Coordinator) (row : TabStateRow) (uid : String)
    → is_empty row.restore_key ≡ false
    → is_reopenable (add_closed (some c) row).0 uid
      ≡ (str_eq row.restore_key uid || contains (restore_keys c.reopenable) uid)
unfolding add_reopenable
add_closed-is_reopenable c row uid h =
    ground (arith, h, erase_row-others row.restore_key uid c.reopenable)

add_closed-rows : (c : Coordinator) (row : TabStateRow) → rows_in (add_closed (some c) row).1 ≡ []
unfolding add_reopenable
add_closed-rows c row = ground arith

reachability_changed-rows : (c : Option Coordinator) → rows_in (reachability_changed c) ≡ []
reachability_changed-rows none = refl
reachability_changed-rows (some c) = ground arith

module _ (lib : Urls) where
  -- A uid by which a tab can be found again.
  abbrev named : Option String → Bool
  named none = false
  named (some uid) = not (is_empty uid)

  -- A close is a deletion, with the side panel or without; a tab that moves on is none.
  abbrev is_closed : TabRemovedReason → Option String → Bool
  is_closed deleted uid = named uid
  is_closed deleted_and_expand_side_panel uid = named uid
  is_closed other_reason uid = false

  -- The rows of the tabs that are closed and have a uid.
  abbrev pub closed_rows : List (RemovedTab lib) → List TabStateRow
  closed_rows [] = []
  closed_rows (t ∷ ts) =
      let rest = closed_rows ts in
      if is_closed t.remove_reason t.uid then closed_row lib t ∷ rest else rest

  persisted-closed :
      (reason : TabRemovedReason) (uid : Option String)
      → (will_delete reason && not (is_empty (uid_or_empty uid))) ≡ is_closed reason uid
  persisted-closed deleted none = refl
  persisted-closed deleted (some uid) = refl
  persisted-closed deleted_and_expand_side_panel none = refl
  persisted-closed deleted_and_expand_side_panel (some uid) = refl
  persisted-closed other_reason uid = refl

  -- What the rows of some tabs leave after a coordinator.
  record Closes (c : Coordinator) (ts : List (RemovedTab lib))
      (r : Option Coordinator × List Effect) : Type 0 where
    rows : rows_in r.1 ≡ closed_rows ts
    known :
        (uid : String)
        → is_reopenable r.0 uid
          ≡ (contains (restore_keys (closed_rows ts)) uid || is_reopenable (some c) uid)

  kept :
      (c : Coordinator) (t : RemovedTab lib) (ts : List (RemovedTab lib))
      → is_persisted lib t ≡ true
      → Closes
          (add_reopenable c (closed_row lib t)).0
          ts
          (persist_closed_tabs lib (add_closed (some c) (closed_row lib t)).0 ts)
      → Closes c (t ∷ ts) (
        (persist_closed_tabs lib (add_closed (some c) (closed_row lib t)).0 ts).0,
        (add_closed (some c) (closed_row lib t)).1
            ++ set_tab_state (closed_row lib t)
              ∷ (persist_closed_tabs lib (add_closed (some c) (closed_row lib t)).0 ts).1,
      )
  unfolding closed_row
  kept c t ts e v =
      let closes = persisted-closed t.remove_reason t.uid in
      let row = closed_row lib t in
      let added = add_closed (some c) row in
      let after = persist_closed_tabs lib added.0 ts in
      record {
        rows =
            rw
              (
                rows_in-append added.1 (set_tab_state row ∷ after.1),
                add_closed-rows c row,
                v.rows,
                sym closes ∙ e,
              )
              refl;
        known = λ uid.
            ground (
              arith,
              e,
              closes,
              v.known uid,
              add_closed-is_reopenable c row uid (ground (arith, e)),
            );
      }

  persist_closed_tabs-Closes :
      (c : Coordinator) (ts : List (RemovedTab lib))
      → Closes c ts (persist_closed_tabs lib (some c) ts)
  unfolding persist_closed_tabs
  persist_closed_tabs-Closes c [] = record { rows = refl; known = λ uid. refl }
  persist_closed_tabs-Closes c (t ∷ ts) =
      let added = add_closed (some c) (closed_row lib t) in
      let after = persist_closed_tabs lib added.0 ts in
      let inner = persist_closed_tabs-Closes (add_reopenable c (closed_row lib t)).0 ts in
      let skipped = persist_closed_tabs-Closes c ts in
      if_intro (Closes c (t ∷ ts)) (is_persisted lib t)
        (after.0, added.1 ++ set_tab_state (closed_row lib t) ∷ after.1)
        (persist_closed_tabs lib (some c) ts) (λ e. kept c t ts e inner)
        (λ e. record {
          rows = ground (arith, e, persisted-closed t.remove_reason t.uid, skipped.rows);
          known =
              λ uid. ground (arith, e, persisted-closed t.remove_reason t.uid, skipped.known uid);
        })

  -- When tabs leave a strip of a profile with a journal, the rows that are written are those of the
  -- closed tabs with a uid, in their order, and a uid is reopenable afterwards exactly if it is one of
  -- them or was so before, whatever gesture is under way.
  pub on_tab_strip_model_changed-closes :
      (c : Coordinator) (ts : List (RemovedTab lib)) (active : Bool)
      (contents : Option (Contents lib))
      → let change : Change lib = record {
        type = removed;
        removed_tabs = ts;
        active_tab_changed = active;
        new_contents = contents;
      } in
        let r = on_tab_strip_model_changed lib true (some c) change in
        (rows_in r.1 ≡ closed_rows ts)
        × ((uid : String)
            → is_reopenable r.0 uid
              ≡ (contains (restore_keys (closed_rows ts)) uid || is_reopenable (some c) uid))
  unfolding on_tab_strip_model_changed
  on_tab_strip_model_changed-closes c ts active contents =
      let v = persist_closed_tabs-Closes c ts in
      let p = persist_closed_tabs lib (some c) ts in
      (
        rows_in-append (p.1 ++ reachability_changed p.0) []
            ∙ (append_nil (rows_in (p.1 ++ reachability_changed p.0))
                ∙ (rows_in-append p.1 (reachability_changed p.0)
                    ∙ (ap (λ rs. rows_in p.1 ++ rs) (reachability_changed-rows p.0)
                        ∙ (append_nil (rows_in p.1) ∙ v.rows)))),
        v.known,
      )
