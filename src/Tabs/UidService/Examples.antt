-- ===== src/Tabs/UidService/Examples.antt =====
-- The theorems about the uid service at a session of two tabs that share a restored uid.
use roamux.Base.{String, ◌≡◌, refl, ◌↔◌, Bool, not, some, List, [], ◌∷◌, arith, is_empty}
use roamux.Tabs.UidService.{
  TabUidService, new_service, get_uid_for_tab, tab_of_uid, is_live, unregister, bind,
  mint_and_register, adopt_or_restamp,
}
use roamux.Tabs.UidService.Bijection.{Inv, bind-Inv}
use roamux.Tabs.UidService.Runs.{Call, mints, adopts, unregisters, call, run, NewUids, run-inverse}

abbrev is_uuid : String → Bool
is_uuid s = not (is_empty s)

abbrev calls : List Call
calls = mints "u" 1 ∷ adopts "w" 2 "u" ∷ unregisters 1 ∷ []

new_service-Inv : Inv new_service
unfolding new_service get_uid_for_tab tab_of_uid
new_service-Inv = record {
  uids = λ tab uid e. ground (arith, e);
  tabs = λ tab uid e. ground (arith, e);
}

calls-NewUids : NewUids is_uuid new_service calls
unfolding new_service call mint_and_register is_live tab_of_uid unregister bind get_uid_for_tab
    adopt_or_restamp
calls-NewUids = (refl, (refl, (tt, tt)))

run-inverse_example :
    (get_uid_for_tab (run is_uuid new_service calls) 2 ≡ some "w")
    ↔ (tab_of_uid (run is_uuid new_service calls) "w" ≡ some 2)
run-inverse_example = run-inverse is_uuid new_service calls new_service-Inv calls-NewUids 2 "w"

abbrev one_tab : TabUidService
one_tab = record { uid_by_tab = (1, "u") ∷ []; tab_by_uid = ("u", 1) ∷ [] }

one_tab-Inv : Inv one_tab
unfolding bind new_service get_uid_for_tab tab_of_uid
one_tab-Inv = bind-Inv new_service 1 "u" new_service-Inv refl refl
