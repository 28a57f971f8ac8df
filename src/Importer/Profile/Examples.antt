-- ===== src/Importer/Profile/Examples.antt =====
-- A folder with two profiles, where the last one that was used is gone.
use roamux.Base.{
  ◌-◌, String, ◌≡◌, refl, true, false, not, ◌&&◌, none, some, List, [], ◌∷◌, ◌++◌, ◌==◌,
  if◌then◌else◌, length, drop, str_eq, contains, codes, any_code, pos,
}
use roamux.Importer.Profile.{
  Files, strip_prefix, is_safe_profile_name, profile_scan_key, scan_less, resolve_edge_profile_dir,
}
use roamux.Importer.Profile.Resolved.{IsResolved, resolve_edge_profile_dir-IsResolved}

abbrev two_profiles : Files
two_profiles = record {
  FilePath = List String;
  append = λ dir name. dir ++ name ∷ [];
  append_path = λ dir more. dir ++ more;
  from_utf8 = λ s. s ∷ [];
  value = λ p. elim p [ [] ↦ "" | s ∷ rest ↦ s ];
  as_utf8 = λ p. elim p [ [] ↦ "" | s ∷ rest ↦ s ];
  base_name = λ p. drop (length p - 1) p;
  same_path = λ p q. true;
  references_parent = λ p. any_code (λ c. c == b'.') (codes (elim p [ [] ↦ "" | s ∷ rest ↦ s ]));
  path_exists = λ p. true;
  directory_exists = λ p. not (contains p "Default") && not (contains p "Profile 1");
  is_link = λ p. false;
  read_file_with_max_size = λ p limit. some "state";
  read_dict = λ s. some (some (record { last_used = some "Profile 1"; info_cache = none }));
  string_to_int64 = λ s. if str_eq s "10" then some (pos 10) else some (pos 9);
  enumerate = λ dir pattern. (dir ++ "Profile 10" ∷ []) ∷ (dir ++ "Profile 9" ∷ []) ∷ [];
}

unsafe_name : is_safe_profile_name two_profiles ".." ≡ false
unfolding is_safe_profile_name
unsafe_name = refl

number_first :
    scan_less two_profiles ("Edge" ∷ "Profile 9" ∷ []) ("Edge" ∷ "Profile 10" ∷ []) ≡ true
unfolding profile_scan_key strip_prefix
number_first = refl

resolve_edge_profile_dir-IsResolved_example :
    IsResolved two_profiles ("Edge" ∷ []) (resolve_edge_profile_dir two_profiles ("Edge" ∷ []))
resolve_edge_profile_dir-IsResolved_example =
    resolve_edge_profile_dir-IsResolved two_profiles ("Edge" ∷ [])
