-- ===== src/Importer/Profile.antt =====
-- Which profile of Edge is imported (roamux/utility/importer/edge_profile_reader.cc, from
-- HasEdgeProfileData to ResolveEdgeProfileDir). Paths, the file system and the JSON reader are the
-- parameter `Files`; an empty path as a result is `none`, as no path that is built is empty.
pub mod Usable
pub mod Order
pub mod LocalState
pub mod Resolved
mod Examples
use Prim.Native.Char.{code}
use roamux.Base.{
  ℕ, String, Bool, false, not, ◌&&◌, ◌||◌, Option, none, some, List, [], ◌∷◌, ltb, ◌==◌,
  if◌then◌else◌, str_eq, is_empty, codes, any_code, ℤ, pos, ltb_ℤ, then_by, lex_ltb, sort,
  find_first,
}

-- The dictionary `profile`: the text `last_used`, and the keys of the dictionary `info_cache`.
pub record ProfileDict : Type 0 where
  pub last_used : Option String
  pub info_cache : Option (List String)

pub record Files : Type 1 where
  pub FilePath : Type 0
  pub append : FilePath → String → FilePath
  pub append_path : FilePath → FilePath → FilePath
  pub from_utf8 : String → FilePath
  pub value : FilePath → String
  pub as_utf8 : FilePath → String
  pub base_name : FilePath → FilePath
  pub same_path : FilePath → FilePath → Bool
  pub references_parent : FilePath → Bool
  pub path_exists : FilePath → Bool
  pub directory_exists : FilePath → Bool
  pub is_link : FilePath → Bool
  pub read_file_with_max_size : FilePath → ℕ → Option String
  -- The dictionary `profile` of the text as JSON: none if it is no dictionary, none inside if it has
  -- no such entry.
  pub read_dict : String → Option (Option ProfileDict)
  pub string_to_int64 : String → Option ℤ
  -- The directories whose name fits the pattern, in the order of the enumerator.
  pub enumerate : FilePath → String → List FilePath

pub record ScanKey : Type 0 where
  pub rank : ℕ
  pub number : ℤ
  pub name : String

-- The rest of a text that begins with the first one.
unfoldable pub strip_prefix : String → String → Option String
strip_prefix String.[] s = some s
strip_prefix (String.◌∷◌ c p) String.[] = none
strip_prefix (String.◌∷◌ c p) (String.◌∷◌ d s) =
    let rest = strip_prefix p s in if code c == code d then rest else none

abbrev pub is_control : ℕ → Bool
is_control c = ltb c 0x20 || c == 0x7f

abbrev pub by_rank : ScanKey → ScanKey → Bool
by_rank a b = ltb a.rank b.rank

abbrev pub by_number : ScanKey → ScanKey → Bool
by_number a b = ltb_ℤ a.number b.number

abbrev pub by_name : ScanKey → ScanKey → Bool
by_name a b = lex_ltb (codes a.name) (codes b.name)

-- `operator<` of the tuple.
abbrev pub key_less : ScanKey → ScanKey → Bool
key_less = then_by by_rank (then_by by_number by_name)

abbrev numbered : String → Option ℤ → ScanKey
numbered name none = record { rank = 1; number = pos 0; name = name }
numbered name (some parsed) = record { rank = 0; number = parsed; name = name }

abbrev pub or_else {ℓ} : {A : Type ℓ} → Option A → Option A → Option A
or_else none o = o
or_else (some a) o = some a

abbrev pub max_local_state_bytes : ℕ
max_local_state_bytes = 1048576

module _ (files : Files) where
  open files use {
    FilePath, append, append_path, from_utf8, value, as_utf8, base_name, same_path,
    references_parent, path_exists, directory_exists, is_link, read_file_with_max_size, read_dict,
    string_to_int64, enumerate,
  }

  unfoldable pub has_edge_profile_data : FilePath → Bool
  has_edge_profile_data dir =
      path_exists (append dir "Bookmarks")
      || path_exists (append dir "History")
      || path_exists (append dir "Web Data")
      || path_exists (append dir "Login Data")
      || path_exists (append dir "Cookies")
      || directory_exists (append (append dir "Local Storage") "leveldb")
      || directory_exists (append dir "IndexedDB")

  unfoldable pub is_safe_profile_name : String → Bool
  is_safe_profile_name name =
      let component = from_utf8 name in
      if is_empty name
      then false
      else if any_code is_control (codes name)
      then false
      else str_eq (value component) name
        && same_path component (base_name component)
        && not (references_parent component)

  abbrev parsed_number : Option String → Option ℤ
  parsed_number none = none
  parsed_number (some digits) = string_to_int64 digits

  unfoldable pub profile_scan_key : FilePath → ScanKey
  unfolding strip_prefix
  profile_scan_key dir =
      let name = as_utf8 (base_name dir) in
      numbered name (parsed_number (strip_prefix "Profile " name))

  unfoldable pub candidate_usable : FilePath → Bool
  unfolding has_edge_profile_data
  candidate_usable dir = directory_exists dir && not (is_link dir) && has_edge_profile_data dir

  abbrev read_dict_of : Option String → Option (Option ProfileDict)
  read_dict_of none = none
  read_dict_of (some contents) = read_dict contents

  -- `ReadLocalState`.
  unfoldable pub read_local_state : FilePath → Option (Option ProfileDict)
  read_local_state user_data_dir =
      read_dict_of
        (read_file_with_max_size (append user_data_dir "Local State") max_local_state_bytes)

  -- The lambda `usable`.
  unfoldable pub usable : FilePath → String → Option FilePath
  unfolding is_safe_profile_name candidate_usable
  usable user_data_dir name =
      let dir = append_path user_data_dir (from_utf8 name) in
      if not (is_safe_profile_name name)
      then none
      else if candidate_usable dir
      then some dir
      else none

  abbrev pub usable_last : FilePath → Option String → Option FilePath
  usable_last user_data_dir none = none
  usable_last user_data_dir (some name) = usable user_data_dir name

  -- A cache of one entry.
  abbrev pub usable_sole : FilePath → Option (List String) → Option FilePath
  usable_sole user_data_dir none = none
  usable_sole user_data_dir (some []) = none
  usable_sole user_data_dir (some (name ∷ [])) = usable user_data_dir name
  usable_sole user_data_dir (some (name ∷ (other ∷ others))) = none

  abbrev pub from_local_state : FilePath → Option (Option ProfileDict) → Option FilePath
  from_local_state user_data_dir none = none
  from_local_state user_data_dir (some none) = none
  from_local_state user_data_dir (some (some profile)) =
      or_else (usable_last user_data_dir profile.last_used)
        (usable_sole user_data_dir profile.info_cache)

  abbrev pub scan_less : FilePath → FilePath → Bool
  scan_less a b = key_less (profile_scan_key a) (profile_scan_key b)

  unfoldable pub from_scan : FilePath → Option FilePath
  unfolding candidate_usable profile_scan_key
  from_scan user_data_dir =
      find_first candidate_usable (sort scan_less (enumerate user_data_dir "Profile *"))

  unfoldable pub resolve_edge_profile_dir : FilePath → Option FilePath
  unfolding from_scan candidate_usable read_local_state usable
  resolve_edge_profile_dir user_data_dir =
      let default_dir = append user_data_dir "Default" in
      or_else (from_local_state user_data_dir (read_local_state user_data_dir))
        (if candidate_usable default_dir then some default_dir else from_scan user_data_dir)
