-- ===== src/Importer/Profile/Resolved.antt =====
-- What the resolution of the profile finds, in each of its cases.
use mathlib.Core.List.{Memᴰ}
use roamux.Base.{
  ◌≡◌, refl, Bool, true, false, Option, none, some, List, arith, ltb, if◌then◌else◌, if_intro,
  codes, ltb_ℤ, StrictWeak, StrictWeak-irreflexive, ltb-StrictWeak, ltb_ℤ-StrictWeak, then_by,
  then_by-StrictWeak, lex_ltb, lex_ltb-StrictWeak, sort, sort-mem_iff, sort-IsSorted,
  find_first-none, find_first-passes, find_first-IsSorted,
}
use roamux.Importer.Profile.{
  Files, ScanKey, by_rank, by_number, by_name, key_less, or_else, profile_scan_key,
  candidate_usable, read_local_state, from_local_state, scan_less, from_scan,
  resolve_edge_profile_dir,
}
use roamux.Importer.Profile.Usable.{IsProfile, candidate_usable_iff}
use roamux.Importer.Profile.Order.{Precedes, Precedes-scan_less}
use roamux.Importer.Profile.LocalState.{Named, NoneNamed, LocalCase, from_local_state-LocalCase}

inverse-StrictWeak :
    {A B : Type 0} (f : A → B) (less : B → B → Bool)
    → StrictWeak less
    → StrictWeak (λ (a b : A). less (f a) (f b))
inverse-StrictWeak f less order = record {
  asym = λ a b. order.asym (f a) (f b);
  cotrans = λ a b c. order.cotrans (f a) (f b) (f c);
}

key_less-StrictWeak : StrictWeak key_less
key_less-StrictWeak =
    then_by-StrictWeak by_rank (then_by by_number by_name)
      (inverse-StrictWeak (λ (k : ScanKey). k.rank) ltb ltb-StrictWeak)
      (then_by-StrictWeak by_number by_name
        (inverse-StrictWeak (λ (k : ScanKey). k.number) ltb_ℤ ltb_ℤ-StrictWeak)
        (inverse-StrictWeak (λ (k : ScanKey). codes k.name) lex_ltb lex_ltb-StrictWeak))

module _ (files : Files) (root : Files.FilePath files) where
  abbrev default_dir : files.FilePath
  default_dir = files.append root "Default"

  abbrev scanned_dirs : List files.FilePath
  scanned_dirs = files.enumerate root "Profile *"

  -- The cases, each with what was not found before it.
  pub data IsResolved : Option files.FilePath → Type 0 where
    named : (dir : files.FilePath) → Named files root dir → IsResolved (some dir)
    historical : NoneNamed files root → IsProfile files default_dir → IsResolved (some default_dir)
    scanned :
        (dir : files.FilePath)
        → NoneNamed files root
        → ¬ IsProfile files default_dir
        → IsProfile files dir
        → Memᴰ dir scanned_dirs
        → ((c : files.FilePath) → Memᴰ c scanned_dirs → IsProfile files c → ¬ Precedes files c dir)
        → IsResolved (some dir)
    missing :
        NoneNamed files root
        → ¬ IsProfile files default_dir
        → ((c : files.FilePath) → Memᴰ c scanned_dirs → ¬ IsProfile files c)
        → IsResolved none

  usable_of : (dir : files.FilePath) → IsProfile files dir → candidate_usable files dir ≡ true
  usable_of dir = (candidate_usable_iff files dir).1

  unusable : (dir : files.FilePath) → candidate_usable files dir ≡ false → ¬ IsProfile files dir
  unusable dir h v = absurd (ground (arith, h, usable_of dir v))

  not_before : (a b : files.FilePath) → scan_less files a b ≡ false → ¬ Precedes files a b
  not_before a b h v = absurd (ground (arith, h, Precedes-scan_less files a b v))

  scan_less-StrictWeak : StrictWeak (scan_less files)
  scan_less-StrictWeak = inverse-StrictWeak (profile_scan_key files) key_less key_less-StrictWeak

  from_scan-IsResolved :
      (o : Option files.FilePath)
      → NoneNamed files root
      → ¬ IsProfile files default_dir
      → from_scan files root ≡ o
      → IsResolved o
  unfolding from_scan
  from_scan-IsResolved none n d h = missing n d (λ c m. unusable c (
      find_first-none (candidate_usable files) (sort (scan_less files) scanned_dirs) h c
        ((sort-mem_iff (scan_less files) scanned_dirs c).1 m)))
  from_scan-IsResolved (some dir) n d h =
      let sorted = sort (scan_less files) scanned_dirs in
      let passes = find_first-passes (candidate_usable files) sorted dir h in
      scanned dir n d ((candidate_usable_iff files dir).0 passes.0)
        ((sort-mem_iff (scan_less files) scanned_dirs dir).0 passes.1)
        (λ c m v. not_before c dir (
          find_first-IsSorted (candidate_usable files) (scan_less files)
            (StrictWeak-irreflexive (scan_less files) scan_less-StrictWeak) sorted dir
            (sort-IsSorted (scan_less files) scan_less-StrictWeak scanned_dirs) h c
            ((sort-mem_iff (scan_less files) scanned_dirs c).1 m) (usable_of c v)))

  or_else-IsResolved :
      (o rest : Option files.FilePath)
      → LocalCase files root o
      → (NoneNamed files root → IsResolved rest)
      → IsResolved (or_else o rest)
  or_else-IsResolved none rest n f = f n
  or_else-IsResolved (some dir) rest n f = named dir n

  -- What is resolved is the directory of the profile that the local state names as last used, if the
  -- name is safe and its directory a profile; or else so for the only entry of the cache; or else the
  -- default directory, if it is a profile; or else a profile of the scan that no other of them precedes
  -- by number and name; and nothing only if none of these is one. A profile is a directory that is no
  -- link and has something to import, and a safe name stays one component under the root.
  pub resolve_edge_profile_dir-IsResolved : IsResolved (resolve_edge_profile_dir files root)
  unfolding resolve_edge_profile_dir
  resolve_edge_profile_dir-IsResolved =
      let default_or_scan =
        if candidate_usable files default_dir then some default_dir else from_scan files root in
      or_else-IsResolved (from_local_state files root (read_local_state files root)) default_or_scan
        (from_local_state-LocalCase files root)
        (λ n.
          if_intro IsResolved (candidate_usable files default_dir) (some default_dir)
            (from_scan files root)
            (λ u. historical n ((candidate_usable_iff files default_dir).0 u))
            (λ u. from_scan-IsResolved (from_scan files root) n (unusable default_dir u) refl))
