-- ===== src/Tabs/RefreshRun/Started.antt =====
-- An item settles exactly when the navigation of its load started.
use roamux.Base.{
  ℕ, ◌<◌, ◌≡◌, refl, ap, ◌∙◌, Bool, true, false, ◌||◌, none, some, List, [], ◌∷◌, ◌++◌, arith, ◌==◌,
  if◌then◌else◌, length,
}
use roamux.Tabs.SettleGate.{
  NavigationSettleGate, begin_attempt, attempt_issued, on_navigation_started, on_stop_loading,
  on_attempt_discarded,
}
use roamux.Tabs.SettleGate.Counts.{last_or, has}
use roamux.Tabs.RefreshRun.{
  RefreshRun, Found, started_all, start_item, did_start_navigation, did_stop_loading, Message,
  starts_item, navigation_starts, loading_stops, receive,
}
use roamux.Tabs.RefreshRun.Settles.{cons_if, settled}

abbrev loading_gate : ℕ → NavigationSettleGate
loading_gate b = record {
  in_load_call = true;
  buffered_start_id = b;
  navigation_id = 0;
  started = false;
}

abbrev issued_gate : ℕ → Bool → NavigationSettleGate
issued_gate id started = record {
  in_load_call = false;
  buffered_start_id = 0;
  navigation_id = id;
  started = started;
}

-- The run that loads an item, and whether its navigation started.
abbrev loading_run : List ℕ → ℕ → ℕ → ℕ → Bool → RefreshRun
loading_run snapshot index contents id started = record {
  snapshot = snapshot;
  current_index = index;
  pending_handle = some id;
  settle_gate = issued_gate id started;
  observed = some contents;
}

started_all-loading :
    (b : ℕ) (ms : List ℕ) → started_all (loading_gate b) ms ≡ loading_gate (last_or b ms)
unfolding started_all on_navigation_started last_or
started_all-loading b [] = refl
started_all-loading b (m ∷ ms) = started_all-loading m ms

attempt_issued-loading :
    (b id : ℕ) → 0 < id → attempt_issued (loading_gate b) id ≡ issued_gate id (b == id)
unfolding attempt_issued
attempt_issued-loading b id h = ground (arith, h)

-- An item that can be loaded: its contents, the starts inside the call and the id of the load.
abbrev pub loadable_tab : ℕ → List ℕ → ℕ → Found
loadable_tab contents ms id = record {
  contents = some contents;
  in_strip = true;
  audible = false;
  can_reload = true;
  started_inside = ms;
  handle = some id;
}

abbrev pub starts_of : ℕ → List ℕ → List Message
starts_of contents [] = []
starts_of contents (n ∷ ns) = navigation_starts contents true n ∷ starts_of contents ns

start_item-loads :
    (r : RefreshRun) (index contents id : ℕ) (ms : List ℕ)
    → index < length r.snapshot
    → 0 < id
    → start_item r index (loadable_tab contents ms id)
      ≡ (loading_run r.snapshot index contents id (last_or 0 ms == id), true)
unfolding start_item begin_attempt
start_item-loads r index contents id ms b h = ground (
  arith,
  b,
  ap (λ g. attempt_issued g id) (started_all-loading 0 ms),
  attempt_issued-loading (last_or 0 ms) id h,
)

receive-start :
    (hs : List ℕ) (index contents id n : ℕ) (s : Bool)
    → 0 < id
    → receive (loading_run hs index contents id s) (navigation_starts contents true n)
      ≡ (loading_run hs index contents id (s || n == id), (false, none))
unfolding receive did_start_navigation on_navigation_started
receive-start hs index contents id n s h = ground (arith, h)

stops_once :
    (hs : List ℕ) (index contents id : ℕ) (s still_there : Bool)
    → settled (loading_run hs index contents id s) (loading_stops contents still_there ∷ [])
      ≡ (if s then index ∷ [] else [])
unfolding settled receive did_stop_loading on_stop_loading on_attempt_discarded
stops_once hs index contents id true true = ground arith
stops_once hs index contents id true false = ground arith
stops_once hs index contents id false true = ground arith
stops_once hs index contents id false false = ground arith

settled-starts :
    (hs : List ℕ) (index contents id : ℕ) (s still_there : Bool) (ns : List ℕ)
    → 0 < id
    → settled
        (loading_run hs index contents id s)
        (starts_of contents ns ++ loading_stops contents still_there ∷ [])
      ≡ (if s || has ns id then index ∷ [] else [])
unfolding settled has
settled-starts hs index contents id s still_there [] h =
    stops_once hs index contents id s still_there ∙ ground arith
settled-starts hs index contents id s still_there (n ∷ ns) h =
    ap
      (λ e.
        cons_if e.1.1
          (settled e.0 (starts_of contents ns ++ loading_stops contents still_there ∷ [])))
      (receive-start hs index contents id n s h)
    ∙ (settled-starts hs index contents id (s || n == id) still_there ns h ∙ ground arith)

-- Of an item that can be loaded, the stop of its contents is reported exactly if the navigation of its
-- load started, as the last one inside the call or as any after it, whether its handle is still there
-- or not.
pub settled-iff_started :
    (r : RefreshRun) (index contents id : ℕ) (ms ns : List ℕ) (still_there : Bool)
    → index < length r.snapshot
    → 0 < id
    → settled r (
        starts_item index (loadable_tab contents ms id)
        ∷ (starts_of contents ns ++ loading_stops contents still_there ∷ []))
      ≡ (if last_or 0 ms == id || has ns id then index ∷ [] else [])
unfolding settled receive
settled-iff_started r index contents id ms ns still_there b h =
    ap (λ e. settled e.0 (starts_of contents ns ++ loading_stops contents still_there ∷ []))
      (start_item-loads r index contents id ms b h)
    ∙ settled-starts r.snapshot index contents id (last_or 0 ms == id) still_there ns h
