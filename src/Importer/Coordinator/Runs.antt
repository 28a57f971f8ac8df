-- ===== src/Importer/Coordinator/Runs.antt =====
-- Every import ends, with the expected report.
use mathlib.Core.Path.{subst}
use roamux.Importer.Coordinator.Storage.{local_storage-Delivers}
use roamux.Base.{
  ℕ, suc, String, ◌≡◌, refl, Bool, true, false, not, ◌&&◌, List, [], ◌∷◌, arith, if◌then◌else◌,
  if_intro,
}
use roamux.Importer.Report.{
  EdgeCarrier, passwords, cookies, local_storage, indexed_db, requested, CarrierStatus, unsupported,
}
use roamux.Importer.Coordinator.{
  source_is_available, secret_stage, ImportCoordinator, secret_status, report_outcome, wait_for,
  run_local_storage_step, report_secret, on_secret_done, report_missing, run_secret_step, reply,
}
use roamux.Importer.Coordinator.Expected.{Answers, running_edge, graded, expected_outcomes}
use roamux.Importer.Coordinator.Delivers.{Delivers, reported, unwaited, with_outcomes, replied}

module _ {FilePath : Type 0} (a : Answers FilePath) where
  -- What a step does that depends on the state by its set of carriers and the preflight alone.
  abbrev Continues :
      ℕ
      → (ImportCoordinator FilePath → ImportCoordinator FilePath)
      → List EdgeCarrier
      → List (EdgeCarrier × (CarrierStatus × ℕ))
      → Type 0
  Continues n f carriers s =
      (c : ImportCoordinator FilePath)
      → c.carriers ≡ carriers
      → c.preflight ≡ a.preflight
      → Delivers a n (f c) c s

  -- The outcome of a carrier that has one.
  abbrev pub one_if :
      Bool
      → EdgeCarrier × (CarrierStatus × ℕ)
      → List (EdgeCarrier × (CarrierStatus × ℕ))
      → List (EdgeCarrier × (CarrierStatus × ℕ))
  one_if b x s = if b then x ∷ s else s

  missing_first :
      (n : ℕ) (f : ImportCoordinator FilePath → ImportCoordinator FilePath)
      (carriers : List EdgeCarrier) (s : List (EdgeCarrier × (CarrierStatus × ℕ))) (missing : Bool)
      (carrier : EdgeCarrier) (reason : String)
      → Continues n f carriers s
      → Continues n
          (λ c. f (report_missing missing carrier reason c))
          carriers
          (one_if missing (carrier, (unsupported, 0)) s)
  unfolding report_missing
  missing_first n f carriers s true carrier reason k c e p =
      reported a n (f (report_outcome c carrier unsupported 0 reason)) c carrier unsupported 0
        reason s (k (report_outcome c carrier unsupported 0 reason) e p)
  missing_first n f carriers s false carrier reason k c e p = k c e p

  secret_first :
      (n : ℕ) (f : ImportCoordinator FilePath → ImportCoordinator FilePath)
      (carriers : List EdgeCarrier) (s : List (EdgeCarrier × (CarrierStatus × ℕ)))
      (attempted : Bool) (carrier : EdgeCarrier) (count : ℕ)
      → Continues n f carriers s
      → Continues n
          (λ c. f (report_secret attempted carrier a.keychain_available count c))
          carriers
          (one_if attempted
            (carrier, graded a (a.keychain_available && not (running_edge a)) count)
            s)
  unfolding report_secret secret_status
  secret_first n f carriers s true carrier count k c e p =
      let t = secret_status c.preflight.running.running a.keychain_available count in
      let c' = report_outcome c carrier t.0 count t.1 in
      with_outcomes a n (f c') c ((carrier, (t.0, count)) ∷ s) _ (ground (arith, p))
        (reported a n (f c') c carrier t.0 count t.1 s (k c' e p))
  secret_first n f carriers s false carrier count k c e p = k c e p

  unfoldable pub origin_outcomes : List EdgeCarrier → List (EdgeCarrier × (CarrierStatus × ℕ))
  origin_outcomes carriers = expected_outcomes a carriers (local_storage ∷ indexed_db ∷ [])

  local_storage_last :
      (n : ℕ) (carriers : List EdgeCarrier)
      → Continues (suc (suc (suc n))) run_local_storage_step carriers (origin_outcomes carriers)
  unfolding origin_outcomes
  local_storage_last n carriers c e p =
      subst
        (λ cs.
          Delivers a (suc (suc (suc n))) (run_local_storage_step c) c
            (expected_outcomes a cs (local_storage ∷ indexed_db ∷ [])))
        e (local_storage-Delivers a n c p)

  unfoldable pub secret_graded : ℕ → CarrierStatus × ℕ
  secret_graded count = graded a (a.keychain_available && not (running_edge a)) count

  stage_secret :
      (n : ℕ) (carriers : List EdgeCarrier) (pw ck : Bool)
      → Continues
          (suc (suc (suc (suc n))))
          (λ c. wait_for c (secret_stage pw ck))
          carriers
          (one_if pw
            (passwords, secret_graded a.passwords_imported)
            (one_if ck (cookies, secret_graded a.cookies_imported) (origin_outcomes carriers)))
  unfolding reply on_secret_done secret_graded
  stage_secret n carriers pw ck c e p =
      let m = suc (suc (suc n)) in
      let d = wait_for c (secret_stage pw ck) in
      let s =
        one_if pw (passwords, secret_graded a.passwords_imported)
          (one_if ck (cookies, secret_graded a.cookies_imported) (origin_outcomes carriers)) in
      replied a m d c s (
        unwaited a m
          (on_secret_done d pw ck a.passwords_imported a.cookies_imported a.keychain_available) c
          (secret_stage pw ck) s
          (secret_first m
            (λ x.
              run_local_storage_step
                (report_secret ck cookies a.keychain_available a.cookies_imported x))
            carriers
            (one_if ck (cookies, secret_graded a.cookies_imported) (origin_outcomes carriers)) pw
            passwords a.passwords_imported
            (secret_first m run_local_storage_step carriers (origin_outcomes carriers) ck cookies
              a.cookies_imported (local_storage_last n carriers))
            d e p))

  -- The order of the report: a requested secret without a source stands before one that is read.
  abbrev pub in_order :
      Bool
      → Bool
      → Bool
      → Bool
      → List (EdgeCarrier × (CarrierStatus × ℕ))
      → List (EdgeCarrier × (CarrierStatus × ℕ))
  in_order wp vp wc vc s =
      one_if (wp && not (wp && vp)) (passwords, (unsupported, 0))
        (one_if (wc && not (wc && vc)) (cookies, (unsupported, 0))
          (one_if (wp && vp) (passwords, secret_graded a.passwords_imported)
            (one_if (wc && vc) (cookies, secret_graded a.cookies_imported) s)))

  pub run_secret_step-Delivers :
      (n : ℕ) (c : ImportCoordinator FilePath)
      → c.preflight ≡ a.preflight
      → Delivers a (suc (suc (suc (suc n)))) (run_secret_step c) c (
          in_order
            (requested c.carriers passwords)
            (source_is_available c.preflight passwords)
            (requested c.carriers cookies)
            (source_is_available c.preflight cookies)
            (origin_outcomes c.carriers))
  unfolding run_secret_step
  run_secret_step-Delivers n c p =
      let m = suc (suc (suc n)) in
      let wp = requested c.carriers passwords in
      let wc = requested c.carriers cookies in
      let pw = wp && source_is_available c.preflight passwords in
      let ck = wc && source_is_available c.preflight cookies in
      let o = origin_outcomes c.carriers in
      let s =
        in_order wp (source_is_available c.preflight passwords) wc
          (source_is_available c.preflight cookies) o in
      let mp = wp && not pw in
      let mc = wc && not ck in
      let c' =
        report_missing mc cookies "no source Cookies"
          (report_missing mp passwords "no source Login Data" c) in
      if_intro (λ d. Delivers a (suc m) d c s) (not wp && not wc) (run_local_storage_step c)
        (if not pw && not ck then run_local_storage_step c' else wait_for c' (secret_stage pw ck))
        (λ e.
          with_outcomes a (suc m) (run_local_storage_step c) c o s (ground (arith, e))
            (local_storage_last (suc n) c.carriers c refl p))
        (λ e.
          if_intro (λ d. Delivers a (suc m) d c s) (not pw && not ck) (run_local_storage_step c')
            (wait_for c' (secret_stage pw ck))
            (λ u.
              with_outcomes a (suc m) (run_local_storage_step c') c
                (one_if mp (passwords, (unsupported, 0)) (one_if mc (cookies, (unsupported, 0)) o))
                s (ground (arith, u))
                (missing_first (suc m)
                  (λ x. run_local_storage_step (report_missing mc cookies "no source Cookies" x))
                  c.carriers (one_if mc (cookies, (unsupported, 0)) o) mp passwords
                  "no source Login Data"
                  (missing_first (suc m) run_local_storage_step c.carriers o mc cookies
                    "no source Cookies" (local_storage_last (suc n) c.carriers))
                  c refl p))
            (λ u.
              missing_first (suc m)
                (λ x.
                  wait_for (report_missing mc cookies "no source Cookies" x) (secret_stage pw ck))
                c.carriers
                (one_if mc (cookies, (unsupported, 0))
                  (one_if pw (passwords, secret_graded a.passwords_imported)
                    (one_if ck (cookies, secret_graded a.cookies_imported) o)))
                mp passwords "no source Login Data"
                (missing_first (suc m) (λ x. wait_for x (secret_stage pw ck)) c.carriers
                  (one_if pw (passwords, secret_graded a.passwords_imported)
                    (one_if ck (cookies, secret_graded a.cookies_imported) o))
                  mc cookies "no source Cookies" (stage_secret n c.carriers pw ck))
                c refl p))
