-- ===== src/Importer/Report.antt =====
-- The carriers of an import and its report
-- (roamux/browser/importer/edge_import_types.h, edge_import_report.{h,cc}). The version of the
-- source is the list of its components.
use roamux.Base.{
  ℕ, ◌+◌, String, ◌≡◌, Bool, true, false, not, ◌||◌, Option, none, some, List, [], ◌∷◌, ◌++◌, arith,
  ◌==◌, if◌then◌else◌,
}

pub data EdgeCarrier : Type 0 where
  passwords cookies local_storage indexed_db : EdgeCarrier

-- The order of the enumeration.
abbrev carrier_code : EdgeCarrier → ℕ
carrier_code passwords = 0
carrier_code cookies = 1
carrier_code local_storage = 2
carrier_code indexed_db = 3

abbrev pub carrier_eq : EdgeCarrier → EdgeCarrier → Bool
carrier_eq c d = carrier_code c == carrier_code d

abbrev pub all_edge_carriers : List EdgeCarrier
all_edge_carriers = passwords ∷ cookies ∷ local_storage ∷ indexed_db ∷ []

-- Whether a carrier is in a set of carriers.
abbrev pub requested : List EdgeCarrier → EdgeCarrier → Bool
requested [] c = false
requested (d ∷ ds) c = carrier_eq d c || requested ds c

abbrev pub edge_carrier_name : EdgeCarrier → String
edge_carrier_name passwords = "passwords"
edge_carrier_name cookies = "cookies"
edge_carrier_name local_storage = "localStorage"
edge_carrier_name indexed_db = "indexedDB"

pub data CarrierStatus : Type 0 where
  imported skipped blocked failed degraded unsupported feature_disabled : CarrierStatus

abbrev pub carrier_status_name : CarrierStatus → String
carrier_status_name imported = "imported"
carrier_status_name skipped = "skipped"
carrier_status_name blocked = "blocked"
carrier_status_name failed = "failed"
carrier_status_name degraded = "degraded"
carrier_status_name unsupported = "unsupported"
carrier_status_name feature_disabled = "feature-disabled"

pub record CarrierOutcome : Type 0 where
  pub carrier : EdgeCarrier
  pub status : CarrierStatus
  pub count : ℕ
  pub reason : String

pub record EdgeImportReport : Type 0 where
  pub source_version : Option (List ℕ)
  pub version_supported : Bool
  pub edge_running_detected : Bool
  pub carriers : List CarrierOutcome

abbrev pub empty_report : EdgeImportReport
empty_report = record {
  source_version = none;
  version_supported = false;
  edge_running_detected = false;
  carriers = [];
}

abbrev pub add : EdgeImportReport → CarrierOutcome → EdgeImportReport
add r outcome = record r { carriers = r.carriers ++ outcome ∷ [] }

-- The loop of `Find`.
abbrev pub find_outcome : EdgeCarrier → List CarrierOutcome → Option CarrierOutcome
find_outcome c [] = none
find_outcome c (o ∷ os) = if carrier_eq o.carrier c then some o else find_outcome c os

abbrev pub find : EdgeImportReport → EdgeCarrier → Option CarrierOutcome
find r c = find_outcome c r.carriers

abbrev pub sum_counts : List CarrierOutcome → ℕ
sum_counts [] = 0
sum_counts (o ∷ os) = o.count + sum_counts os

pub total_imported : EdgeImportReport → ℕ
total_imported r = sum_counts r.carriers

abbrev pub is_clean : CarrierStatus → Bool
is_clean imported = true
is_clean skipped = true
is_clean blocked = false
is_clean failed = false
is_clean degraded = false
is_clean unsupported = false
is_clean feature_disabled = false

abbrev pub some_unclean : List CarrierOutcome → Bool
some_unclean [] = false
some_unclean (o ∷ os) = not (is_clean o.status) || some_unclean os

unfoldable pub any_degraded : EdgeImportReport → Bool
any_degraded r = some_unclean r.carriers

pub carrier_eq_sound : (c d : EdgeCarrier) → carrier_eq c d ≡ true → c ≡ d
carrier_eq_sound c d e = ground (arith, e)
