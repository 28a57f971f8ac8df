-- ===== src/Importer/Coordinator/Ends.antt =====
-- The end of an import, from its start.
use mathlib.Core.List.{Perm}
use mathlib.Core.List.Perm
use roamux.Base.{ℕ, ◌≡◌, Bool, List, [], ◌∷◌, map, if◌then◌else◌}
use roamux.Importer.Report.{
  EdgeCarrier, all_edge_carriers, CarrierStatus, unsupported, EdgeImportReport,
}
use roamux.Importer.Coordinator.Expected.{Answers, expected_outcomes, summary}
use roamux.Importer.Coordinator.Runs.{secret_graded}

module _ {FilePath : Type 0} (a : Answers FilePath) where
  abbrev secret_expected :
      Bool
      → Bool
      → EdgeCarrier
      → ℕ
      → List (EdgeCarrier × (CarrierStatus × ℕ))
      → List (EdgeCarrier × (CarrierStatus × ℕ))
  secret_expected w v carrier count s =
      if w then (carrier, (if v then secret_graded a count else (unsupported, 0))) ∷ s else s

  -- What `done` is given.
  pub record Ends (wanted : List EdgeCarrier) (delivered : List EdgeImportReport) : Type 0 where
    pub final : EdgeImportReport
    pub once : delivered ≡ final ∷ []
    pub outcomes : Perm (map summary final.carriers) (expected_outcomes a wanted all_edge_carriers)
    pub version : final.source_version ≡ a.preflight.version
    pub supported : final.version_supported ≡ a.preflight.version_supported
    pub detected : final.edge_running_detected ≡ a.preflight.running.running
