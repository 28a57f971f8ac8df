-- ===== src/Importer/Coordinator/Examples.antt =====
-- The theorems about an import of three carriers while Edge does not run.
use roamux.Base.{String, ◌≡◌, refl, true, false, some, List, [], ◌∷◌}
use roamux.Importer.Report.{
  EdgeCarrier, passwords, cookies, indexed_db, all_edge_carriers, imported, unsupported,
}
use roamux.Importer.Preflight.{EdgeImportPreflightResult, source_is_available, dest_is_initialized}
use roamux.Importer.Coordinator.{preflight_done, secret_done, new_coordinator, run}
use roamux.Importer.Coordinator.Expected.{Answers, expected_outcomes}
use roamux.Importer.Coordinator.Ends.{Ends}
use roamux.Importer.Coordinator.Stages.{no_stage, StageIsSafe, replies, replies-StageIsSafe}

abbrev found : EdgeImportPreflightResult String
found = record {
  user_data_dir = "/a/Microsoft Edge";
  profile_dir = "/a/Microsoft Edge/Default";
  version = some (150 ∷ 1 ∷ []);
  version_supported = true;
  running = record { running = false; lock_target = "" };
  source_available = (passwords, true) ∷ (cookies, false) ∷ (indexed_db, true) ∷ [];
  dest_initialized = (passwords, false) ∷ (cookies, false) ∷ (indexed_db, false) ∷ [];
}

abbrev answers : Answers String
answers = record {
  preflight = found;
  passwords_imported = 3;
  cookies_imported = 0;
  keychain_available = true;
  usage = 0;
  accepted = 0;
  stores = 2;
}

abbrev wanted : List EdgeCarrier
wanted = passwords ∷ cookies ∷ indexed_db ∷ []

expected_of_wanted :
    expected_outcomes answers wanted all_edge_carriers
    ≡ (passwords, (imported, 3)) ∷ (cookies, (unsupported, 0)) ∷ (indexed_db, (imported, 2)) ∷ []
unfolding expected_outcomes source_is_available dest_is_initialized
expected_of_wanted = refl

replies-StageIsSafe_example : StageIsSafe (
    replies
      (run true (new_coordinator "" wanted))
      (preflight_done found ∷ secret_done 3 0 true ∷ []))
unfolding run new_coordinator
replies-StageIsSafe_example =
    replies-StageIsSafe (run true (new_coordinator "" wanted))
      (preflight_done found ∷ secret_done 3 0 true ∷ []) (λ w. no_stage w)
