-- ===== src/Importer/Preflight.antt =====
-- The facts that an import is planned on
-- (roamux/browser/importer/edge_import_adapter.{h,cc} and edge_import_preflight.{h,cc}). The file
-- system is a parameter: what a path holds, and how paths and versions are read.
pub mod Facts
mod Examples
use roamux.Base.{
  ℕ, String, Bool, true, false, not, ◌&&◌, Option, none, some, List, [], ◌∷◌, ◌==◌, lookup, erase,
}
use roamux.Importer.Report.{EdgeCarrier, passwords, cookies, local_storage, indexed_db, carrier_eq}

pub record FileSystem : Type 1 where
  pub FilePath : Type 0
  pub append : FilePath → String → FilePath
  pub path_exists : FilePath → Bool
  pub directory_exists : FilePath → Bool
  pub is_directory_empty : FilePath → Bool
  pub read_symbolic_link : FilePath → Option String
  pub read_file_to_string : FilePath → Option String
  -- `base::Version` of the trimmed text, if it is valid.
  pub parse_version : String → Option (List ℕ)

pub record EdgeRunningStatus : Type 0 where
  pub running : Bool
  pub lock_target : String

pub record EdgeImportPreflightResult (FilePath : Type 0) : Type 0 where
  pub user_data_dir : FilePath
  pub profile_dir : FilePath
  pub version : Option (List ℕ)
  pub version_supported : Bool
  pub running : EdgeRunningStatus
  pub source_available : List (EdgeCarrier × Bool)
  pub dest_initialized : List (EdgeCarrier × Bool)

-- `it != end() && it->second`.
abbrev holds : Option Bool → Bool
holds none = false
holds (some b) = b

module _ {FilePath : Type 0} where
  unfoldable pub source_is_available : EdgeImportPreflightResult FilePath → EdgeCarrier → Bool
  source_is_available r c = holds (lookup carrier_eq c r.source_available)

  unfoldable pub dest_is_initialized : EdgeImportPreflightResult FilePath → EdgeCarrier → Bool
  dest_is_initialized r c = holds (lookup carrier_eq c r.dest_initialized)

-- `map[key] = value` for each key of a list, in its order.
pub assign_all :
    List EdgeCarrier → (EdgeCarrier → Bool) → List (EdgeCarrier × Bool) → List (EdgeCarrier × Bool)
assign_all [] f m = m
assign_all (c ∷ cs) f m = assign_all cs f ((c, f c) ∷ erase carrier_eq c m)

abbrev pub supported_milestone : ℕ
supported_milestone = 150

abbrev pub bind_option : Option String → (String → Option (List ℕ)) → Option (List ℕ)
bind_option none f = none
bind_option (some a) f = f a

abbrev pub first_is : ℕ → Option (List ℕ) → Bool
first_is n none = false
first_is n (some []) = false
first_is n (some (x ∷ xs)) = x == n

module _ (fs : FileSystem) where
  open fs use {
    FilePath, append, path_exists, directory_exists, is_directory_empty, read_symbolic_link,
    read_file_to_string, parse_version,
  }

  pub detect_edge_version : FilePath → Option (List ℕ)
  detect_edge_version user_data_dir =
      bind_option (read_file_to_string (append user_data_dir "Last Version")) parse_version

  pub record EdgeImportAdapter : Type 0 where
    pub user_data_dir : FilePath
    pub profile_dir : FilePath
    pub version : Option (List ℕ)
    pub version_supported : Bool

  pub detect : FilePath → FilePath → EdgeImportAdapter
  unfolding detect_edge_version
  detect app_data_root profile =
      let root = append app_data_root "Microsoft Edge" in
      record {
        user_data_dir = root;
        profile_dir = profile;
        version = detect_edge_version root;
        version_supported = first_is supported_milestone (detect_edge_version root);
      }

  pub carrier_available : FilePath → EdgeCarrier → Bool
  carrier_available profile passwords = path_exists (append profile "Login Data")
  carrier_available profile cookies = path_exists (append profile "Cookies")
  carrier_available profile local_storage =
      directory_exists (append (append profile "Local Storage") "leveldb")
  carrier_available profile indexed_db = directory_exists (append profile "IndexedDB")

  pub dir_has_entries : FilePath → Bool
  dir_has_entries dir = directory_exists dir && not (is_directory_empty dir)

  pub dest_carrier_initialized : FilePath → EdgeCarrier → Bool
  unfolding dir_has_entries
  dest_carrier_initialized dest indexed_db = dir_has_entries (append dest "IndexedDB")
  dest_carrier_initialized dest local_storage = false
  dest_carrier_initialized dest passwords = false
  dest_carrier_initialized dest cookies = false

  abbrev status_of_lock : Option String → EdgeRunningStatus
  status_of_lock none = record { running = false; lock_target = "" }
  status_of_lock (some target) = record { running = true; lock_target = target }

  pub detect_edge_running : FilePath → EdgeRunningStatus
  detect_edge_running user_data_dir =
      status_of_lock (read_symbolic_link (append user_data_dir "SingletonLock"))

  pub compute_edge_import_preflight :
      FilePath → FilePath → FilePath → List EdgeCarrier → EdgeImportPreflightResult FilePath
  unfolding detect carrier_available dest_carrier_initialized detect_edge_running assign_all
  compute_edge_import_preflight app_data_root profile dest carriers =
      let adapter = detect app_data_root profile in
      record {
        user_data_dir = adapter.user_data_dir;
        profile_dir = adapter.profile_dir;
        version = adapter.version;
        version_supported = adapter.version_supported;
        running = detect_edge_running adapter.user_data_dir;
        source_available = assign_all carriers (carrier_available adapter.profile_dir) [];
        dest_initialized = assign_all carriers (dest_carrier_initialized dest) [];
      }
