-- ===== src/TabVisit/Store/Examples.antt =====
-- The theorems about the store at a journal of two visits and a sidecar of three tabs.
use roamux.Base.{
  String, ◌≡◌, refl, true, false, not, ◌&&◌, some, [], ◌∷◌, ◌++◌, map, arith, if◌then◌else◌, str_eq,
  pos,
}
use roamux.TabVisit.Store.{
  TabStateRow, VisitsStore, Faults, read_all, int64_max, clear_for_browsing_data_removal,
  upsert_tab_state, get_tab_state,
}
use roamux.TabVisit.Store.Journal.{Inv}
use roamux.TabVisit.Store.Appends.{
  Visit, visit_of, newest, append_all, committed, read_all-append_all,
}
use roamux.TabVisit.Store.TabStates.{get_tab_state-upsert_tab_state}
use roamux.TabVisit.Store.Clear.{live_only, clear-all_time}

abbrev closed_tab : TabStateRow
closed_tab = record { restore_key = "a"; closed = true; window_id = pos 1; last_known_url = "x" }

abbrev gone_tab : TabStateRow
gone_tab = record { restore_key = "b"; closed = true; window_id = pos 1; last_known_url = "y" }

abbrev live_tab : TabStateRow
live_tab = record { restore_key = "c"; closed = false; window_id = pos 2; last_known_url = "z" }

abbrev used : VisitsStore
used = record {
  is_open = true;
  visits =
      record { id = 4; tab_uid = "b"; url = "y"; visited_at = pos 100 }
      ∷ record { id = 7; tab_uid = "a"; url = "x"; visited_at = pos 200 }
      ∷ [];
  next_id = 8;
  tab_state = closed_tab ∷ gone_tab ∷ live_tab ∷ [];
}

abbrev fine : Faults
fine = record {
  begin_fails = false;
  first_fails = false;
  second_fails = false;
  commit_fails = false;
}

abbrev broken : Faults
broken = record {
  begin_fails = false;
  first_fails = false;
  second_fails = true;
  commit_fails = false;
}

abbrev visit_c : Visit
visit_c = record { tab_uid = "c"; url = "z"; visited_at = pos 300 }

used-Inv : Inv used
used-Inv = record {
  ascending = (omega arith, (omega arith, tt));
  below = (omega arith, (omega arith, tt));
  few = omega arith;
}

read_all-append_all_example :
    map visit_of (read_all (append_all used ((broken, visit_c) ∷ (fine, visit_c) ∷ [])))
    ≡ newest (map visit_of (read_all used) ++ committed ((broken, visit_c) ∷ (fine, visit_c) ∷ []))
read_all-append_all_example =
    read_all-append_all used ((broken, visit_c) ∷ (fine, visit_c) ∷ []) used-Inv refl

get_tab_state-upsert_tab_state_example :
    get_tab_state (upsert_tab_state used false gone_tab) "b" ≡ (
      if not false && str_eq gone_tab.restore_key "b"
      then some gone_tab
      else get_tab_state used "b")
get_tab_state-upsert_tab_state_example = get_tab_state-upsert_tab_state used false gone_tab "b" refl

clear-all_time_example :
    (read_all (clear_for_browsing_data_removal used fine (pos 0) int64_max) ≡ [])
    × ((k : String)
        → get_tab_state (clear_for_browsing_data_removal used fine (pos 0) int64_max) k
          ≡ live_only (get_tab_state used k))
clear-all_time_example =
    clear-all_time used fine ((refl, (refl, tt)), ((refl, tt), (tt, tt))) refl refl
      (refl, (refl, (refl, (refl, tt))))
