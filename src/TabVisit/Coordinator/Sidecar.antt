-- ===== src/TabVisit/Coordinator/Sidecar.antt =====
-- The closed tabs that the coordinator can reopen: what adds them, and what a clear of browsing data
-- does to them.
use roamux.Base.{
  ℕ, ◌+◌, String, not, ◌||◌, List, [], ◌∷◌, ◌++◌, ◌==◌, if◌then◌else◌, has_value, str_eq, is_empty,
  contains,
}
use roamux.TabVisit.Store.{TabStateRow}
use roamux.TabVisit.Coordinator.{
  Coordinator, Browser, Effect, get_all_tab_states, on_reachability_maybe_changed, find_row,
  erase_row,
}
use roamux.TabVisit.Coordinator.Steps.{cancel_gesture}

unfoldable pub erase_uid : String → List String → List String
erase_uid uid [] = []
erase_uid uid (x ∷ xs) = let rest = erase_uid uid xs in if str_eq x uid then rest else x ∷ rest

unfoldable pub add_reopenable : Coordinator → TabStateRow → Coordinator × List Effect
unfolding erase_uid erase_row
add_reopenable c row = if is_empty row.restore_key then (c, []) else (
  record c {
    recently_reopened = erase_uid row.restore_key c.recently_reopened;
    reopenable = row ∷ erase_row row.restore_key c.reopenable;
  },
  on_reachability_maybe_changed c,
)

unfoldable pub prepare_for_browsing_data_clear : Coordinator → Coordinator
unfolding cancel_gesture
prepare_for_browsing_data_clear c = record (cancel_gesture c) {
  reopenable = [];
  reopened_url_by_uid = [];
  reopenable_generation = c.reopenable_generation + 1;
}

unfoldable pub load_reopenable_from_sidecar : Coordinator → Browser → List Effect
load_reopenable_from_sidecar c b =
    if b.has_journal then get_all_tab_states c.reopenable_generation ∷ [] else []

unfoldable pub on_browsing_data_cleared : Coordinator → Browser → List Effect
unfolding load_reopenable_from_sidecar
on_browsing_data_cleared c b = load_reopenable_from_sidecar c b ++ on_reachability_maybe_changed c

unfoldable pub add_loaded : List String → List TabStateRow → List TabStateRow → List TabStateRow
unfolding find_row
add_loaded tombs old [] = old
add_loaded tombs old (r ∷ rs) =
    add_loaded tombs
      (if not r.closed || (is_empty r.restore_key || contains tombs r.restore_key)
        then old
        else if has_value (find_row r.restore_key old)
        then old
        else r ∷ old)
      rs

unfoldable pub on_reopenable_loaded : Coordinator → ℕ → List TabStateRow → Coordinator × List Effect
unfolding add_loaded
on_reopenable_loaded c generation rows =
    if not (generation == c.reopenable_generation) then (c, []) else (
      record c { reopenable = add_loaded c.recently_reopened c.reopenable rows },
      on_reachability_maybe_changed c,
    )
