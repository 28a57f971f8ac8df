-- ===== src/Importer/Coordinator/Stages.antt =====
-- When the snapshot stage of IndexedDB is started, whatever replies come.
use roamux.Base.{
  ◌≡◌, Bool, true, false, not, ◌&&◌, List, [], ◌∷◌, arith, ltb, ◌==◌, if◌then◌else◌, if_intro,
}
use roamux.Importer.Report.{
  passwords, cookies, local_storage, indexed_db, requested, imported, blocked, degraded,
  unsupported,
}
use roamux.Importer.Preflight.{source_is_available, dest_is_initialized}
use roamux.Importer.Coordinator.{
  Wait, nothing, preflight_task, usage_query, localstorage_stage, indexeddb_stage, secret_stage,
  ImportCoordinator, Reply, preflight_done, secret_done, usage_checked, localstorage_done,
  indexeddb_done, report_outcome, wait_for, finish, run_indexed_db_step, on_indexed_db_done,
  on_local_storage_done, on_local_storage_usage_checked, run_local_storage_step, report_secret,
  on_secret_done, report_missing, run_secret_step, on_preflight_done, on_reply, reply,
}

pub no_stage {ℓ} : {A : Type ℓ} → ◌≡◌ {A = Bool} false true → A
no_stage h = absurd (ground (arith, h))

abbrev waits_for_stage : Wait → Bool
waits_for_stage nothing = false
waits_for_stage preflight_task = false
waits_for_stage usage_query = false
waits_for_stage localstorage_stage = false
waits_for_stage indexeddb_stage = true
waits_for_stage (secret_stage pw ck) = false

module _ {FilePath : Type 0} where
  -- The stage runs only for a requested carrier with a source, while Edge does not run, into a
  -- profile that has no store.
  abbrev pub StageIsSafe : ImportCoordinator FilePath → Type 0
  StageIsSafe c =
      waits_for_stage c.waits ≡ true
      → (requested c.carriers indexed_db ≡ true)
        × (source_is_available c.preflight indexed_db ≡ true)
        × (c.preflight.running.running ≡ false)
        × (dest_is_initialized c.preflight indexed_db ≡ false)

  indexed_db-safe : (c : ImportCoordinator FilePath) → StageIsSafe (run_indexed_db_step c)
  unfolding run_indexed_db_step
  indexed_db-safe c =
      if_intro StageIsSafe (not (requested c.carriers indexed_db)) _ _ (λ r w. no_stage w)
        (λ r.
          if_intro StageIsSafe (not (source_is_available c.preflight indexed_db)) _ _
            (λ v w. no_stage w)
            (λ v.
              if_intro StageIsSafe c.preflight.running.running _ _ (λ e w. no_stage w)
                (λ e.
                  if_intro StageIsSafe (dest_is_initialized c.preflight indexed_db) _ _
                    (λ i w. no_stage w) (λ i w. (ground (arith, r), ground (arith, v), e, i)))))

  local_storage-safe : (c : ImportCoordinator FilePath) → StageIsSafe (run_local_storage_step c)
  unfolding run_local_storage_step
  local_storage-safe c =
      if_intro StageIsSafe (not (requested c.carriers local_storage)) _ _ (λ r. indexed_db-safe c)
        (λ r.
          if_intro StageIsSafe (not (source_is_available c.preflight local_storage)) _ _
            (λ v.
              indexed_db-safe
                (report_outcome c local_storage unsupported 0 "no source localStorage"))
            (λ v w. no_stage w))

  secret-safe : (c : ImportCoordinator FilePath) → StageIsSafe (run_secret_step c)
  unfolding run_secret_step
  secret-safe c =
      let wp = requested c.carriers passwords in
      let wc = requested c.carriers cookies in
      let pw = wp && source_is_available c.preflight passwords in
      let ck = wc && source_is_available c.preflight cookies in
      let c' =
        report_missing (wc && not ck) cookies "no source Cookies"
          (report_missing (wp && not pw) passwords "no source Login Data" c) in
      if_intro StageIsSafe (not wp && not wc) (run_local_storage_step c)
        (if not pw && not ck then run_local_storage_step c' else wait_for c' (secret_stage pw ck))
        (λ e. local_storage-safe c)
        (λ e.
          if_intro StageIsSafe (not pw && not ck) (run_local_storage_step c')
            (wait_for c' (secret_stage pw ck)) (λ u. local_storage-safe c') (λ u w. no_stage w))

  on_reply-safe :
      (c : ImportCoordinator FilePath) (w : Wait) (r : Reply FilePath)
      → StageIsSafe c
      → StageIsSafe (on_reply c w r)
  unfolding on_reply on_preflight_done on_secret_done on_local_storage_usage_checked
      on_local_storage_done on_indexed_db_done finish
  on_reply-safe c preflight_task (preflight_done p) h = secret-safe (record c {
    preflight = p;
    report = record c.report {
      source_version = p.version;
      version_supported = p.version_supported;
      edge_running_detected = p.running.running;
    };
  })
  on_reply-safe c (secret_stage pw ck) (secret_done n m k) h =
      local_storage-safe (report_secret ck cookies k m (report_secret pw passwords k n c))
  on_reply-safe c usage_query (usage_checked n) h =
      if_intro StageIsSafe (not (n == 0))
        (run_indexed_db_step
          (report_outcome c local_storage blocked 0 "destination localStorage already initialized"))
        (wait_for c localstorage_stage)
        (λ u.
          indexed_db-safe (
            report_outcome c local_storage blocked 0
              "destination localStorage already initialized"))
        (λ u w. no_stage w)
  on_reply-safe c localstorage_stage (localstorage_done n) h = indexed_db-safe (
      if c.preflight.running.running
      then report_outcome c local_storage degraded n
          "Edge was running; localStorage imported best-effort"
      else if ltb 0 n
      then report_outcome c local_storage imported n ""
      else report_outcome c local_storage degraded n
          "source present but no localStorage entries imported (empty or unreadable)")
  on_reply-safe c indexeddb_stage (indexeddb_done n) h = λ w. no_stage w
  on_reply-safe c w r h = h

  pub replies : ImportCoordinator FilePath → List (Reply FilePath) → ImportCoordinator FilePath
  replies c [] = c
  replies c (r ∷ rs) = replies (reply c r) rs

  -- Whatever replies come in whatever order, an import waits for its IndexedDB stage only for a
  -- requested carrier with a source, while Edge does not run, into a profile without a store, if that
  -- is so at the start.
  pub replies-StageIsSafe :
      (c : ImportCoordinator FilePath) (rs : List (Reply FilePath))
      → StageIsSafe c
      → StageIsSafe (replies c rs)
  unfolding replies reply
  replies-StageIsSafe c [] h = h
  replies-StageIsSafe c (r ∷ rs) h =
      replies-StageIsSafe (reply c r) rs (on_reply-safe c c.waits r h)
