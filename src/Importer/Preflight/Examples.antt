-- ===== src/Importer/Preflight/Examples.antt =====
-- The preflight of a profile with passwords and a local storage, on a file system of texts.
use roamux.Base.{String, ◌≡◌, refl, true, false, none, some, [], ◌∷◌, if◌then◌else◌, str_eq}
use roamux.Importer.Preflight.{
  FileSystem, assign_all, detect_edge_version, detect, carrier_available,
  compute_edge_import_preflight,
}
use roamux.Importer.Report.{passwords}

abbrev disk : FileSystem
disk = record {
  FilePath = String;
  append = λ dir name.
      if str_eq name "Login Data"
      then "logins"
      else if str_eq name "IndexedDB"
      then "databases"
      else dir;
  path_exists = λ path. str_eq path "logins";
  directory_exists = λ path. str_eq path "databases";
  is_directory_empty = λ path. false;
  read_symbolic_link = λ path. none;
  read_file_to_string = λ path. some "150.1";
  parse_version = λ text. some (150 ∷ 1 ∷ []);
}

preflight-supported :
    (compute_edge_import_preflight disk "data" "profile" "destination"
      (passwords ∷ [])).version_supported
    ≡ true
unfolding compute_edge_import_preflight detect detect_edge_version
preflight-supported = refl

preflight-available :
    (compute_edge_import_preflight disk "data" "profile" "destination"
      (passwords ∷ [])).source_available
    ≡ (passwords, true) ∷ []
unfolding compute_edge_import_preflight detect assign_all carrier_available
preflight-available = refl
