-- ===== src/Importer/Coordinator.antt =====
-- The coordinator of the browser side of an import
-- (roamux/browser/importer/roamux_edge_import_coordinator.{h,cc}). What it waits for, a task or a
-- stage that it started, is a field of its state, and the reply a later call. `delivered` has the
-- reports that the `done` callback was run with.
pub mod Expected
pub mod Delivers
pub mod Storage
pub mod Runs
pub mod Ends
pub mod Stages
mod Examples
use roamux.Base.{
  ℕ, String, Bool, false, not, ◌&&◌, none, List, [], ◌∷◌, ◌++◌, ltb, ◌==◌, if◌then◌else◌,
}
use roamux.Importer.Report.{
  EdgeCarrier, passwords, cookies, local_storage, indexed_db, all_edge_carriers, requested,
  CarrierStatus, imported, blocked, degraded, unsupported, feature_disabled, EdgeImportReport,
  empty_report, add,
}
use roamux.Importer.Preflight.{EdgeImportPreflightResult, source_is_available, dest_is_initialized}

pub data Wait : Type 0 where
  nothing preflight_task usage_query localstorage_stage indexeddb_stage : Wait
  secret_stage : Bool → Bool → Wait

module _ (FilePath : Type 0) where
  pub record ImportCoordinator : Type 0 where
    pub carriers : List EdgeCarrier
    pub preflight : EdgeImportPreflightResult FilePath
    pub waits : Wait
    pub report : EdgeImportReport
    pub delivered : List EdgeImportReport

  pub data Reply : Type 0 where
    preflight_done : EdgeImportPreflightResult FilePath → Reply
    secret_done : ℕ → ℕ → Bool → Reply
    usage_checked : ℕ → Reply
    localstorage_done : ℕ → Reply
    indexeddb_done : ℕ → Reply

-- The lambda `status_for` of `OnSecretDone`.
pub secret_status : Bool → Bool → ℕ → CarrierStatus × String
secret_status running keychain_available count =
    if not keychain_available
    then (degraded, "Edge keychain unavailable — secrets not imported")
    else if running
    then (degraded, "Edge was running; secrets imported best-effort")
    else if count == 0
    then (degraded, "source present but no entries imported (empty or unreadable)")
    else (imported, "")

module _ {FilePath : Type 0} where
  abbrev pub report_outcome :
      ImportCoordinator FilePath
      → EdgeCarrier
      → CarrierStatus
      → ℕ
      → String
      → ImportCoordinator FilePath
  report_outcome c carrier status count reason = record c {
    report =
        add c.report
          (record { carrier = carrier; status = status; count = count; reason = reason });
  }

  abbrev pub wait_for : ImportCoordinator FilePath → Wait → ImportCoordinator FilePath
  wait_for c w = record c { waits = w }

  -- The members as the constructor leaves them; `no_path` is the empty path.
  pub new_coordinator : FilePath → List EdgeCarrier → ImportCoordinator FilePath
  new_coordinator no_path carriers = record {
    carriers = carriers;
    preflight = record {
      user_data_dir = no_path;
      profile_dir = no_path;
      version = none;
      version_supported = false;
      running = record { running = false; lock_target = "" };
      source_available = [];
      dest_initialized = [];
    };
    waits = nothing;
    report = empty_report;
    delivered = [];
  }

  pub finish : ImportCoordinator FilePath → ImportCoordinator FilePath
  finish c = record c { waits = nothing; delivered = c.delivered ++ c.report ∷ [] }

  pub run_indexed_db_step : ImportCoordinator FilePath → ImportCoordinator FilePath
  unfolding finish
  run_indexed_db_step c =
      if not (requested c.carriers indexed_db)
      then finish c
      else if not (source_is_available c.preflight indexed_db)
      then finish (report_outcome c indexed_db unsupported 0 "no source IndexedDB")
      else if c.preflight.running.running
      then finish
          (report_outcome c indexed_db blocked 0 "Edge is running; IndexedDB snapshot is unsafe")
      else if dest_is_initialized c.preflight indexed_db
      then finish
          (report_outcome c indexed_db blocked 0 "destination IndexedDB already initialized")
      else wait_for c indexeddb_stage

  pub on_indexed_db_done : ImportCoordinator FilePath → ℕ → ImportCoordinator FilePath
  unfolding finish
  on_indexed_db_done c stores = finish (
      report_outcome c indexed_db (if ltb 0 stores then imported else degraded) stores
        (if ltb 0 stores then "" else "source present but no first-party stores imported"))

  pub on_local_storage_done : ImportCoordinator FilePath → ℕ → ImportCoordinator FilePath
  unfolding run_indexed_db_step
  on_local_storage_done c accepted = run_indexed_db_step (
      if c.preflight.running.running
      then report_outcome c local_storage degraded accepted
          "Edge was running; localStorage imported best-effort"
      else if ltb 0 accepted
      then report_outcome c local_storage imported accepted ""
      else report_outcome c local_storage degraded accepted
          "source present but no localStorage entries imported (empty or unreadable)")

  -- `usage` is the length of the list that the storage answers.
  pub on_local_storage_usage_checked : ImportCoordinator FilePath → ℕ → ImportCoordinator FilePath
  unfolding run_indexed_db_step
  on_local_storage_usage_checked c usage =
      if not (usage == 0)
      then run_indexed_db_step
          (report_outcome c local_storage blocked 0 "destination localStorage already initialized")
      else wait_for c localstorage_stage

  pub run_local_storage_step : ImportCoordinator FilePath → ImportCoordinator FilePath
  unfolding run_indexed_db_step
  run_local_storage_step c =
      if not (requested c.carriers local_storage)
      then run_indexed_db_step c
      else if not (source_is_available c.preflight local_storage)
      then run_indexed_db_step
          (report_outcome c local_storage unsupported 0 "no source localStorage")
      else wait_for c usage_query

  pub report_secret :
      Bool → EdgeCarrier → Bool → ℕ → ImportCoordinator FilePath → ImportCoordinator FilePath
  unfolding secret_status
  report_secret attempted carrier keychain_available count c =
      let s = secret_status c.preflight.running.running keychain_available count in
      if attempted then report_outcome c carrier s.0 count s.1 else c

  pub on_secret_done :
      ImportCoordinator FilePath → Bool → Bool → ℕ → ℕ → Bool → ImportCoordinator FilePath
  unfolding report_secret run_local_storage_step
  on_secret_done c attempted_passwords attempted_cookies passwords_count cookies_count
        keychain_available =
      run_local_storage_step (
        report_secret attempted_cookies cookies keychain_available cookies_count
          (report_secret attempted_passwords passwords keychain_available passwords_count c))

  -- The two tests of `RunSecretStep` for a requested source that is not there.
  pub report_missing :
      Bool → EdgeCarrier → String → ImportCoordinator FilePath → ImportCoordinator FilePath
  report_missing missing carrier reason c =
      if missing then report_outcome c carrier unsupported 0 reason else c

  pub run_secret_step : ImportCoordinator FilePath → ImportCoordinator FilePath
  unfolding report_missing run_local_storage_step
  run_secret_step c =
      let want_passwords = requested c.carriers passwords in
      let want_cookies = requested c.carriers cookies in
      let passwords_available = want_passwords && source_is_available c.preflight passwords in
      let cookies_available = want_cookies && source_is_available c.preflight cookies in
      let c' = report_missing (want_cookies && not cookies_available) cookies "no source Cookies" (
        report_missing (want_passwords && not passwords_available) passwords "no source Login Data"
          c) in
      if not want_passwords && not want_cookies
      then run_local_storage_step c
      else if not passwords_available && not cookies_available
      then run_local_storage_step c'
      else wait_for c' (secret_stage passwords_available cookies_available)

  pub on_preflight_done :
      ImportCoordinator FilePath → EdgeImportPreflightResult FilePath → ImportCoordinator FilePath
  unfolding run_secret_step
  on_preflight_done c preflight = run_secret_step (record c {
    preflight = preflight;
    report = record c.report {
      source_version = preflight.version;
      version_supported = preflight.version_supported;
      edge_running_detected = preflight.running.running;
    };
  })

  -- The loop of `Run` with the feature off.
  pub report_disabled : List EdgeCarrier → ImportCoordinator FilePath → ImportCoordinator FilePath
  report_disabled [] c = c
  report_disabled (carrier ∷ carriers) c = report_disabled carriers (
      if requested c.carriers carrier
      then report_outcome c carrier feature_disabled 0 "roamux::kEdgeImport disabled"
      else c)

  pub run : Bool → ImportCoordinator FilePath → ImportCoordinator FilePath
  unfolding report_disabled finish
  run feature_enabled c =
      if not feature_enabled
      then finish (report_disabled all_edge_carriers c)
      else wait_for c preflight_task

  -- A reply to what the coordinator waits for runs its callback; no other reply can come.
  pub on_reply : ImportCoordinator FilePath → Wait → Reply FilePath → ImportCoordinator FilePath
  unfolding on_preflight_done on_secret_done on_local_storage_usage_checked on_local_storage_done
      on_indexed_db_done
  on_reply c preflight_task (preflight_done p) = on_preflight_done c p
  on_reply c (secret_stage pw ck) (secret_done n m k) = on_secret_done c pw ck n m k
  on_reply c usage_query (usage_checked n) = on_local_storage_usage_checked c n
  on_reply c localstorage_stage (localstorage_done n) = on_local_storage_done c n
  on_reply c indexeddb_stage (indexeddb_done n) = on_indexed_db_done c n
  on_reply c w r = c

  pub reply : ImportCoordinator FilePath → Reply FilePath → ImportCoordinator FilePath
  unfolding on_reply
  reply c r = on_reply c c.waits r
