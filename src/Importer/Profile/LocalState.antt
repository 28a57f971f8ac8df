-- ===== src/Importer/Profile/LocalState.antt =====
-- The directory that the local state of Edge gives.
use mathlib.Core.Path.{subst}
use roamux.Base.{
  String, ◌≡◌, refl, sym, ap, ◌∙◌, ◌⊎◌, inl, inr, Option, none, some, List, [], ◌∷◌, arith,
  Bool-cases, Option-cases,
}
use roamux.Importer.Profile.{
  ProfileDict, Files, or_else, is_safe_profile_name, candidate_usable, read_dict_of,
  read_local_state, usable, usable_last, usable_sole, from_local_state,
}
use roamux.Importer.Profile.Usable.{
  IsProfile, IsSafeName, candidate_usable_iff, is_safe_profile_name_iff,
}

module _ (files : Files) (root : Files.FilePath files) where
  abbrev pub place : String → files.FilePath
  place name = files.append_path root (files.from_utf8 name)

  -- A name that can be followed to a profile.
  pub record Follows (name : String) : Type 0 where
    pub safe : IsSafeName files name
    pub profile : IsProfile files (place name)

  -- The file, of at most one mebibyte, has this dictionary under `profile`.
  pub record StateIs (profile : ProfileDict) : Type 0 where
    pub contents : String
    pub reads :
        files.read_file_with_max_size (files.append root "Local State") 1048576 ≡ some contents
    pub parses : files.read_dict contents ≡ some (some profile)

  -- By the profile that was used last, or else by the only one in the cache.
  pub data Named : files.FilePath → Type 0 where
    by_last_used :
        (profile : ProfileDict) (name : String)
        → StateIs profile
        → profile.last_used ≡ some name
        → Follows name
        → Named (place name)
    by_sole_entry :
        (profile : ProfileDict) (name : String)
        → StateIs profile
        → ((last : String) → profile.last_used ≡ some last → ¬ Follows last)
        → profile.info_cache ≡ some (name ∷ [])
        → Follows name
        → Named (place name)

  -- Neither of the two can be followed.
  abbrev pub NoneNamed : Type 0
  NoneNamed =
      (profile : ProfileDict)
      → StateIs profile
      → ((name : String) → profile.last_used ≡ some name → ¬ Follows name)
        × ((name : String) → profile.info_cache ≡ some (name ∷ []) → ¬ Follows name)

  usable-Follows :
      (name : String) (dir : files.FilePath)
      → usable files root name ≡ some dir
      → Follows name × (place name ≡ dir)
  unfolding usable
  usable-Follows name dir h = elim (Bool-cases (is_safe_profile_name files name)) [
    | inr s ↦ absurd (ground (arith, h, s))
    | inl s ↦ elim (Bool-cases (candidate_usable files (place name))) [
      | inr u ↦ absurd (ground (arith, h, s, u))
      | inl u ↦ (
        record {
          safe = (is_safe_profile_name_iff files name).0 s;
          profile = (candidate_usable_iff files (place name)).0 u;
        },
        ground (arith, h, s, u),
      )
    ]
  ]

  usable-none : (name : String) → usable files root name ≡ none → ¬ Follows name
  unfolding usable
  usable-none name h v = absurd (
      ground (
        arith,
        h,
        (is_safe_profile_name_iff files name).1 v.safe,
        (candidate_usable_iff files (place name)).1 v.profile,
      ))

  same_name : {A : Type 0} (a b : A) → ◌≡◌ {A = Option A} (some a) (some b) → a ≡ b
  same_name a b h = cc

  usable_last-none :
      (o : Option String)
      → usable_last files root o ≡ none
      → (name : String) → o ≡ some name
      → ¬ Follows name
  usable_last-none none h name e = absurd (ground (arith, e))
  usable_last-none (some last) h name e =
      subst (λ n. ¬ Follows n) (same_name last name e) (usable-none last h)

  usable_sole-none :
      (o : Option (List String))
      → usable_sole files root o ≡ none
      → (name : String) → o ≡ some (name ∷ [])
      → ¬ Follows name
  usable_sole-none o h name e = usable-none name (ap (usable_sole files root) (sym e) ∙ h)

  usable_last-Named :
      (profile : ProfileDict) (s : StateIs profile) (o : Option String) (dir : files.FilePath)
      → profile.last_used ≡ o
      → usable_last files root o ≡ some dir
      → Named dir
  usable_last-Named profile s none dir e h = absurd (ground (arith, h))
  usable_last-Named profile s (some name) dir e h =
      let v = usable-Follows name dir h in subst Named v.1 (by_last_used profile name s e v.0)

  usable_sole-Named :
      (profile : ProfileDict) (s : StateIs profile) (o : Option (List String))
      (dir : files.FilePath)
      → ((last : String) → profile.last_used ≡ some last → ¬ Follows last)
      → profile.info_cache ≡ o
      → usable_sole files root o ≡ some dir
      → Named dir
  usable_sole-Named profile s none dir n e h = absurd (ground (arith, h))
  usable_sole-Named profile s (some []) dir n e h = absurd (ground (arith, h))
  usable_sole-Named profile s (some (name ∷ [])) dir n e h =
      let v = usable-Follows name dir h in subst Named v.1 (by_sole_entry profile name s n e v.0)
  usable_sole-Named profile s (some (name ∷ (other ∷ others))) dir n e h =
      absurd (ground (arith, h))

  read_local_state-StateIs :
      (profile : ProfileDict) → read_local_state files root ≡ some (some profile) → StateIs profile
  unfolding read_local_state
  read_local_state-StateIs profile h =
      elim (Option-cases
        (files.read_file_with_max_size (files.append root "Local State") 1048576)) [
          | inl e ↦ absurd (ground (arith, h, e))
          | inr (contents, e) ↦ record {
            contents = contents;
            reads = e;
            parses = ap (read_dict_of files) (sym e) ∙ h;
          }
        ]

  StateIs-read_local_state :
      (profile : ProfileDict) → StateIs profile → read_local_state files root ≡ some (some profile)
  unfolding read_local_state
  StateIs-read_local_state profile s = ap (read_dict_of files) s.reads ∙ s.parses

  -- What the two names of a state come to.
  abbrev pub LocalCase : Option files.FilePath → Type 0
  LocalCase none = NoneNamed
  LocalCase (some dir) = Named dir

  profile-LocalCase :
      (profile : ProfileDict)
      → read_local_state files root ≡ some (some profile)
      → LocalCase (from_local_state files root (some (some profile)))
  profile-LocalCase profile e =
      let s = read_local_state-StateIs profile e in
      let sole = usable_sole files root profile.info_cache in
      elim (Option-cases (usable_last files root profile.last_used)) [
        | inr (dir, h) ↦
            subst LocalCase (ap (λ o. or_else o sole) (sym h))
              (usable_last-Named profile s profile.last_used dir refl h)
        | inl h ↦ subst LocalCase (ap (λ o. or_else o sole) (sym h)) (
            sole_case profile e s (usable_last-none profile.last_used h)
              (Option-cases (usable_sole files root profile.info_cache)))
      ]
    where
      sole_case :
          (profile : ProfileDict)
          → read_local_state files root ≡ some (some profile)
          → StateIs profile
          → ((last : String) → profile.last_used ≡ some last → ¬ Follows last)
          → (usable_sole files root profile.info_cache ≡ none)
            ⊎ ((dir : files.FilePath) × (usable_sole files root profile.info_cache ≡ some dir))
          → LocalCase (usable_sole files root profile.info_cache)
      sole_case profile e s n (inr (dir, h)) =
          subst LocalCase (sym h) (usable_sole-Named profile s profile.info_cache dir n refl h)
      sole_case profile e s n (inl h) = subst LocalCase (sym h) (λ p t.
          let q : profile ≡ p =
            same_name profile p
              (same_name (some profile) (some p) (sym e ∙ StateIs-read_local_state p t)) in
          subst
            (λ x.
              ((name : String) → x.last_used ≡ some name → ¬ Follows name)
              × ((name : String) → x.info_cache ≡ some (name ∷ []) → ¬ Follows name))
            q (n, usable_sole-none profile.info_cache h))

  state-LocalCase :
      (state : Option (Option ProfileDict))
      → read_local_state files root ≡ state
      → LocalCase (from_local_state files root state)
  state-LocalCase none e = λ p t. absurd (ground (arith, e, StateIs-read_local_state p t))
  state-LocalCase (some none) e = λ p t. absurd (ground (arith, e, StateIs-read_local_state p t))
  state-LocalCase (some (some profile)) e = profile-LocalCase profile e

  pub from_local_state-LocalCase :
      LocalCase (from_local_state files root (read_local_state files root))
  from_local_state-LocalCase = state-LocalCase (read_local_state files root) refl
