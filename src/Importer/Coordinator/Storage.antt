-- ===== src/Importer/Coordinator/Storage.antt =====
-- The two carriers of origin storage: what the report has of them at the end.
use roamux.Base.{
  ℕ, suc, String, ◌≡◌, true, not, List, [], ◌∷◌, arith, ltb, ◌==◌, if◌then◌else◌, if_intro,
}
use roamux.Importer.Report.{
  EdgeCarrier, local_storage, indexed_db, requested, CarrierStatus, imported, blocked, degraded,
  unsupported,
}
use roamux.Importer.Preflight.{source_is_available, dest_is_initialized}
use roamux.Importer.Coordinator.{
  usage_query, localstorage_stage, indexeddb_stage, ImportCoordinator, report_outcome, wait_for,
  finish, run_indexed_db_step, on_indexed_db_done, on_local_storage_done,
  on_local_storage_usage_checked, run_local_storage_step, reply,
}
use roamux.Importer.Coordinator.Expected.{
  Answers, running_edge, graded, expected_outcomes, after_replies,
}
use roamux.Importer.Coordinator.Delivers.{
  Delivers, finish-Delivers, reported, unwaited, with_outcomes, finish_reported, replied,
}

module _ {FilePath : Type 0} (a : Answers FilePath) where
  stage_indexed_db :
      (n : ℕ) (c : ImportCoordinator FilePath) (s : List (EdgeCarrier × (CarrierStatus × ℕ)))
      → (indexed_db, graded a true a.stores) ∷ [] ≡ s
      → Delivers a (suc n) (wait_for c indexeddb_stage) c s
  unfolding reply on_indexed_db_done
  stage_indexed_db n c s e =
      let d = wait_for c indexeddb_stage in
      replied a n d c s (
        unwaited a n (on_indexed_db_done d a.stores) c indexeddb_stage s (
          finish_reported a n d indexed_db (if ltb 0 a.stores then imported else degraded) a.stores
            (if ltb 0 a.stores then "" else "source present but no first-party stores imported") s
            e))

  pub indexed_db-Delivers :
      (n : ℕ) (c : ImportCoordinator FilePath)
      → c.preflight ≡ a.preflight
      → Delivers a
          (suc n)
          (run_indexed_db_step c)
          c
          (expected_outcomes a c.carriers (indexed_db ∷ []))
  unfolding run_indexed_db_step expected_outcomes after_replies reply
  indexed_db-Delivers n c p =
      let s = expected_outcomes a c.carriers (indexed_db ∷ []) in
      if_intro (λ d. Delivers a (suc n) d c s) (not (requested c.carriers indexed_db)) _ _
        (λ r.
          with_outcomes a (suc n) (finish c) c [] s (ground (arith, r))
            (finish-Delivers a (suc n) c))
        (λ r.
          if_intro (λ d. Delivers a (suc n) d c s)
            (not (source_is_available c.preflight indexed_db)) _ _
            (λ v.
              finish_reported a (suc n) c indexed_db unsupported 0 "no source IndexedDB" s
                (ground (arith, r, v, p)))
            (λ v.
              if_intro (λ d. Delivers a (suc n) d c s) c.preflight.running.running _ _
                (λ e.
                  finish_reported a (suc n) c indexed_db blocked 0
                    "Edge is running; IndexedDB snapshot is unsafe" s (ground (arith, r, v, p, e)))
                (λ e.
                  if_intro (λ d. Delivers a (suc n) d c s)
                    (dest_is_initialized c.preflight indexed_db) _ _
                    (λ i.
                      finish_reported a (suc n) c indexed_db blocked 0
                        "destination IndexedDB already initialized" s
                        (ground (arith, r, v, p, e, i)))
                    (λ i. stage_indexed_db n c s (ground (arith, r, v, p, e, i))))))

  -- What follows the outcome of the local storage.
  local_storage_reported :
      (n : ℕ) (c : ImportCoordinator FilePath) (status : CarrierStatus) (count : ℕ)
      (reason : String) (s : List (EdgeCarrier × (CarrierStatus × ℕ)))
      → c.preflight ≡ a.preflight
      → (local_storage, (status, count)) ∷ expected_outcomes a c.carriers (indexed_db ∷ []) ≡ s
      → Delivers a
          (suc n)
          (run_indexed_db_step (report_outcome c local_storage status count reason))
          c
          s
  local_storage_reported n c status count reason s p e =
      let c' = report_outcome c local_storage status count reason in
      with_outcomes a (suc n) (run_indexed_db_step c') c
        ((local_storage, (status, count)) ∷ expected_outcomes a c.carriers (indexed_db ∷ [])) s e
        (reported a (suc n) (run_indexed_db_step c') c local_storage status count reason
          (expected_outcomes a c.carriers (indexed_db ∷ [])) (indexed_db-Delivers n c' p))

  stage_local_storage :
      (n : ℕ) (c : ImportCoordinator FilePath) (s : List (EdgeCarrier × (CarrierStatus × ℕ)))
      → c.preflight ≡ a.preflight
      → (local_storage, graded a (not (running_edge a)) a.accepted)
          ∷ expected_outcomes a c.carriers (indexed_db ∷ [])
        ≡ s
      → Delivers a (suc (suc n)) (wait_for c localstorage_stage) c s
  unfolding reply on_local_storage_done
  stage_local_storage n c s p e =
      let d = wait_for c localstorage_stage in
      replied a (suc n) d c s (
        unwaited a (suc n) (on_local_storage_done d a.accepted) c localstorage_stage s (
          if_intro (λ x. Delivers a (suc n) (run_indexed_db_step x) d s) c.preflight.running.running
            _ _
            (λ r.
              local_storage_reported n d degraded a.accepted
                "Edge was running; localStorage imported best-effort" s p (ground (arith, r, p, e)))
            (λ r.
              if_intro (λ x. Delivers a (suc n) (run_indexed_db_step x) d s) (ltb 0 a.accepted) _ _
                (λ k.
                  local_storage_reported n d imported a.accepted "" s p
                    (ground (arith, r, p, e, k)))
                (λ k.
                  local_storage_reported n d degraded a.accepted
                    "source present but no localStorage entries imported (empty or unreadable)" s p
                    (ground (arith, r, p, e, k))))))

  usage_answered :
      (n : ℕ) (c : ImportCoordinator FilePath) (s : List (EdgeCarrier × (CarrierStatus × ℕ)))
      → c.preflight ≡ a.preflight
      → (
        local_storage,
        (if ltb 0 a.usage then (blocked, 0) else graded a (not (running_edge a)) a.accepted),
      )
          ∷ expected_outcomes a c.carriers (indexed_db ∷ [])
        ≡ s
      → Delivers a (suc (suc (suc n))) (wait_for c usage_query) c s
  unfolding reply on_local_storage_usage_checked
  usage_answered n c s p e =
      let d = wait_for c usage_query in
      replied a (suc (suc n)) d c s (
        unwaited a (suc (suc n)) (on_local_storage_usage_checked d a.usage) c usage_query s (
          if_intro (λ x. Delivers a (suc (suc n)) x d s) (not (a.usage == 0)) _ _
            (λ u.
              local_storage_reported (suc n) d blocked 0
                "destination localStorage already initialized" s p (ground (arith, u, e)))
            (λ u. stage_local_storage n d s p (ground (arith, u, e)))))

  pub local_storage-Delivers :
      (n : ℕ) (c : ImportCoordinator FilePath)
      → c.preflight ≡ a.preflight
      → Delivers a
          (suc (suc (suc n)))
          (run_local_storage_step c)
          c
          (expected_outcomes a c.carriers (local_storage ∷ indexed_db ∷ []))
  unfolding run_local_storage_step expected_outcomes
  local_storage-Delivers n c p =
      let m = suc (suc n) in
      let s = expected_outcomes a c.carriers (local_storage ∷ indexed_db ∷ []) in
      let rest = expected_outcomes a c.carriers (indexed_db ∷ []) in
      if_intro (λ d. Delivers a (suc m) d c s) (not (requested c.carriers local_storage)) _ _
        (λ r.
          with_outcomes a (suc m) (run_indexed_db_step c) c rest s (ground (arith, r))
            (indexed_db-Delivers m c p))
        (λ r.
          if_intro (λ d. Delivers a (suc m) d c s)
            (not (source_is_available c.preflight local_storage)) _ _
            (λ v.
              local_storage_reported m c unsupported 0 "no source localStorage" s p
                (ground (arith, r, v, p)))
            (λ v. usage_answered n c s p (ground (arith, r, v, p))))
