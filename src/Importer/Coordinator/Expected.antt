-- ===== src/Importer/Coordinator/Expected.antt =====
-- What an import should report: one outcome for each requested carrier, by what was found and
-- answered.
use roamux.Base.{ℕ, zero, suc, Bool, true, not, ◌&&◌, ◌||◌, List, [], ◌∷◌, ltb, if◌then◌else◌}
use roamux.Importer.Report.{
  EdgeCarrier, passwords, cookies, local_storage, indexed_db, requested, CarrierStatus, imported,
  blocked, degraded, unsupported, CarrierOutcome,
}
use roamux.Importer.Preflight.{EdgeImportPreflightResult, source_is_available, dest_is_initialized}
use roamux.Importer.Coordinator.{
  Wait, nothing, preflight_task, usage_query, localstorage_stage, indexeddb_stage, secret_stage,
  ImportCoordinator, Reply, preflight_done, secret_done, usage_checked, localstorage_done,
  indexeddb_done, reply,
}

-- What the tasks and stages of one import answer.
pub record Answers (FilePath : Type 0) : Type 0 where
  pub preflight : EdgeImportPreflightResult FilePath
  pub passwords_imported : ℕ
  pub cookies_imported : ℕ
  pub keychain_available : Bool
  pub usage : ℕ
  pub accepted : ℕ
  pub stores : ℕ

module _ {FilePath : Type 0} (a : Answers FilePath) where
  abbrev pub available : EdgeCarrier → Bool
  available c = source_is_available a.preflight c

  abbrev pub running_edge : Bool
  running_edge = a.preflight.running.running

  abbrev pub graded : Bool → ℕ → CarrierStatus × ℕ
  graded trusted n = (if trusted && ltb 0 n then imported else degraded, n)

  abbrev pub secret_outcome : Bool → ℕ → CarrierStatus × ℕ
  secret_outcome there n =
      if there then graded (a.keychain_available && not running_edge) n else (unsupported, 0)

  unfoldable pub expected : EdgeCarrier → CarrierStatus × ℕ
  expected passwords = secret_outcome (available passwords) a.passwords_imported
  expected cookies = secret_outcome (available cookies) a.cookies_imported
  expected local_storage =
      if not (available local_storage)
      then (unsupported, 0)
      else if ltb 0 a.usage
      then (blocked, 0)
      else graded (not running_edge) a.accepted
  expected indexed_db =
      if not (available indexed_db)
      then (unsupported, 0)
      else if running_edge || dest_is_initialized a.preflight indexed_db
      then (blocked, 0)
      else graded true a.stores

  -- For the requested ones among the carriers of a list, in its order.
  unfoldable pub expected_outcomes :
      List EdgeCarrier → List EdgeCarrier → List (EdgeCarrier × (CarrierStatus × ℕ))
  unfolding expected
  expected_outcomes wanted [] = []
  expected_outcomes wanted (c ∷ cs) =
      let rest = expected_outcomes wanted cs in
      if requested wanted c then (c, expected c) ∷ rest else rest

  abbrev pub answer_to : Wait → Reply FilePath
  answer_to nothing = preflight_done a.preflight
  answer_to preflight_task = preflight_done a.preflight
  answer_to (secret_stage pw ck) =
      secret_done a.passwords_imported a.cookies_imported a.keychain_available
  answer_to usage_query = usage_checked a.usage
  answer_to localstorage_stage = localstorage_done a.accepted
  answer_to indexeddb_stage = indexeddb_done a.stores

  -- So many replies, each to what the coordinator waits for then.
  unfoldable pub after_replies : ℕ → ImportCoordinator FilePath → ImportCoordinator FilePath
  after_replies zero c = c
  after_replies (suc n) c = after_replies n (reply c (answer_to c.waits))

abbrev pub summary : CarrierOutcome → EdgeCarrier × (CarrierStatus × ℕ)
summary o = (o.carrier, (o.status, o.count))
