-- ===== src/Importer/Coordinator/Delivers.antt =====
-- That a coordinator delivers one more report after so many replies, and how the steps build it.
use mathlib.Core.Path.{subst}
use roamux.Base.{
  ℕ, zero, suc, String, ◌≡◌, refl, sym, ap, ◌∙◌, List, [], ◌∷◌, ◌++◌, map, append_nil, append_assoc,
  map-append,
}
use roamux.Importer.Report.{EdgeCarrier, CarrierStatus, EdgeImportReport}
use roamux.Importer.Coordinator.{
  Wait, nothing, ImportCoordinator, Reply, preflight_done, secret_done, usage_checked,
  localstorage_done, indexeddb_done, report_outcome, wait_for, finish, on_reply, reply,
}
use roamux.Importer.Coordinator.Expected.{Answers, answer_to, after_replies, summary}

module _ {FilePath : Type 0} (a : Answers FilePath) where
  -- After `n` replies from `d`, one more report is delivered than at `c`: that of `c`, with so many
  -- more outcomes.
  pub record Delivers (n : ℕ) (d c : ImportCoordinator FilePath)
      (s : List (EdgeCarrier × (CarrierStatus × ℕ))) : Type 0 where
    pub final : EdgeImportReport
    pub once : (after_replies a n d).delivered ≡ c.delivered ++ final ∷ []
    pub outcomes : map summary final.carriers ≡ map summary c.report.carriers ++ s
    pub version : final.source_version ≡ c.report.source_version
    pub supported : final.version_supported ≡ c.report.version_supported
    pub detected : final.edge_running_detected ≡ c.report.edge_running_detected

  idle : (c : ImportCoordinator FilePath) (r : Reply FilePath) → on_reply c nothing r ≡ c
  unfolding on_reply
  idle c (preflight_done p) = refl
  idle c (secret_done n m k) = refl
  idle c (usage_checked n) = refl
  idle c (localstorage_done n) = refl
  idle c (indexeddb_done n) = refl

  finished_stays :
      (n : ℕ) (c : ImportCoordinator FilePath) → c.waits ≡ nothing → after_replies a n c ≡ c
  unfolding after_replies reply
  finished_stays zero c e = refl
  finished_stays (suc n) c e =
      ap (after_replies a n)
        (subst (λ w. on_reply c w (answer_to a c.waits) ≡ c) (sym e) (idle c (answer_to a c.waits)))
      ∙ finished_stays n c e

  pub finish-Delivers : (n : ℕ) (c : ImportCoordinator FilePath) → Delivers n (finish c) c []
  unfolding finish
  finish-Delivers n c = record {
    final = c.report;
    once = ap (λ (d : ImportCoordinator FilePath). d.delivered) (finished_stays n (finish c) refl);
    outcomes = sym (append_nil (map summary c.report.carriers));
    version = refl;
    supported = refl;
    detected = refl;
  }

  -- An outcome that was reported on the way.
  pub reported :
      (n : ℕ) (d c : ImportCoordinator FilePath) (carrier : EdgeCarrier) (status : CarrierStatus)
      (count : ℕ) (reason : String) (s : List (EdgeCarrier × (CarrierStatus × ℕ)))
      → Delivers n d (report_outcome c carrier status count reason) s
      → Delivers n d c ((carrier, (status, count)) ∷ s)
  reported n d c carrier status count reason s v = record {
    final = v.final;
    once = v.once;
    outcomes =
        v.outcomes
        ∙ (ap (λ (l : List (EdgeCarrier × (CarrierStatus × ℕ))). l ++ s)
              (map-append summary c.report.carriers (
                record { carrier = carrier; status = status; count = count; reason = reason } ∷ []))
            ∙ append_assoc (map summary c.report.carriers) ((carrier, (status, count)) ∷ []) s);
    version = v.version;
    supported = v.supported;
    detected = v.detected;
  }

  pub unwaited :
      (n : ℕ) (d c : ImportCoordinator FilePath) (w : Wait)
      (s : List (EdgeCarrier × (CarrierStatus × ℕ)))
      → Delivers n d (wait_for c w) s
      → Delivers n d c s
  unwaited n d c w s v = record {
    final = v.final;
    once = v.once;
    outcomes = v.outcomes;
    version = v.version;
    supported = v.supported;
    detected = v.detected;
  }

  pub with_outcomes :
      (n : ℕ) (d c : ImportCoordinator FilePath) (s t : List (EdgeCarrier × (CarrierStatus × ℕ)))
      → s ≡ t
      → Delivers n d c s
      → Delivers n d c t
  with_outcomes n d c s t e v = subst (Delivers n d c) e v

  pub finish_reported :
      (n : ℕ) (c : ImportCoordinator FilePath) (carrier : EdgeCarrier) (status : CarrierStatus)
      (count : ℕ) (reason : String) (s : List (EdgeCarrier × (CarrierStatus × ℕ)))
      → (carrier, (status, count)) ∷ [] ≡ s
      → Delivers n (finish (report_outcome c carrier status count reason)) c s
  finish_reported n c carrier status count reason s e =
      with_outcomes n (finish (report_outcome c carrier status count reason)) c
        ((carrier, (status, count)) ∷ []) s e
        (reported n (finish (report_outcome c carrier status count reason)) c carrier status count
          reason [] (finish-Delivers n (report_outcome c carrier status count reason)))

  -- One more reply.
  pub replied :
      (n : ℕ) (d c : ImportCoordinator FilePath) (s : List (EdgeCarrier × (CarrierStatus × ℕ)))
      → Delivers n (reply d (answer_to a d.waits)) c s
      → Delivers (suc n) d c s
  unfolding after_replies
  replied n d c s v = record {
    final = v.final;
    once = v.once;
    outcomes = v.outcomes;
    version = v.version;
    supported = v.supported;
    detected = v.detected;
  }
