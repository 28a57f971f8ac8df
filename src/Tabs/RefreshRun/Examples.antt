-- ===== src/Tabs/RefreshRun/Examples.antt =====
-- A run over three tabs, of which the second is audible.
use mathlib.Core.List.{Perm, Sublistᴰ}
use roamux.Base.{ℕ, ◌≡◌, refl, true, false, some, List, [], ◌∷◌, ◌++◌, arith}
use roamux.Tabs.SettleGate.{
  new_gate, begin_attempt, attempt_issued, on_navigation_started, on_stop_loading,
  on_attempt_discarded, reset,
}
use roamux.Tabs.RefreshRun.{
  Found, all_but, snapshot_tabs, new_run, started_all, start_item, did_stop_loading, Message,
  starts_item, loading_stops, receive,
}
use roamux.Tabs.RefreshRun.Settles.{owed, settled, begun, settled-sublist}
use roamux.Tabs.RefreshRun.Snapshot.{snapshot_tabs-perm}
use roamux.Tabs.RefreshRun.Started.{loadable_tab, starts_of, settled-iff_started}
use roamux.Tabs.SettleGate.Counts.{has}

abbrev loadable : ℕ → Found
loadable contents = record {
  contents = some contents;
  in_strip = true;
  audible = false;
  can_reload = true;
  started_inside = contents ∷ [];
  handle = some contents;
}

abbrev messages : List Message
messages =
    starts_item 0 (loadable 12)
    ∷ loading_stops 12 true
    ∷ loading_stops 12 true
    ∷ starts_item 1 (record (loadable 11) { audible = true })
    ∷ starts_item 2 (loadable 13)
    ∷ loading_stops 11 true
    ∷ loading_stops 13 false
    ∷ []

snapshot-active_first : snapshot_tabs (11 ∷ 12 ∷ 13 ∷ []) (some 1) ≡ 12 ∷ 11 ∷ 13 ∷ []
unfolding snapshot_tabs all_but
snapshot-active_first = refl

settled-both : settled (new_run (11 ∷ 12 ∷ 13 ∷ []) (some 1)) messages ≡ 0 ∷ 2 ∷ []
unfolding settled receive start_item new_run snapshot_tabs all_but started_all did_stop_loading
    new_gate begin_attempt on_navigation_started attempt_issued on_stop_loading on_attempt_discarded
    reset
settled-both = refl

settled-sublist_example : Sublistᴰ (settled (new_run (11 ∷ 12 ∷ 13 ∷ []) (some 1)) messages) (
    owed (new_run (11 ∷ 12 ∷ 13 ∷ []) (some 1))
    ++ begun (new_run (11 ∷ 12 ∷ 13 ∷ []) (some 1)) messages)
settled-sublist_example = settled-sublist (new_run (11 ∷ 12 ∷ 13 ∷ []) (some 1)) messages

snapshot_tabs-perm_example : Perm (snapshot_tabs (11 ∷ 12 ∷ 13 ∷ []) (some 1)) (11 ∷ 12 ∷ 13 ∷ [])
snapshot_tabs-perm_example = snapshot_tabs-perm (11 ∷ 12 ∷ 13 ∷ []) (some 1)

settled-iff_started_example :
    settled (new_run (11 ∷ 12 ∷ 13 ∷ []) (some 1)) (
      starts_item 2 (loadable_tab 13 (7 ∷ 8 ∷ []) 9)
      ∷ (starts_of 13 (9 ∷ []) ++ loading_stops 13 true ∷ []))
    ≡ 2 ∷ []
unfolding has roamux.Tabs.SettleGate.Counts.last_or
settled-iff_started_example =
    settled-iff_started (new_run (11 ∷ 12 ∷ 13 ∷ []) (some 1)) 2 13 9 (7 ∷ 8 ∷ []) (9 ∷ []) true
      (unfold new_run snapshot_tabs all_but in omega arith) (omega arith)
