-- ===== src/Importer/Profile/Usable.antt =====
-- What a profile of Edge is, and which names of the local state are safe to follow.
use roamux.Base.{
  ℕ, ◌≤◌, String, ◌≡◌, ◌≢◌, ◌↔◌, inl, inr, true, false, List, arith, Bool-cases, str_eq_iff,
  is_empty, codes, any_code, AllCodes, any_code-false, AllCodes-any,
}
use roamux.Importer.Profile.{
  Files, is_control, has_edge_profile_data, is_safe_profile_name, candidate_usable,
}

abbrev pub Printable : ℕ → Type 0
Printable c = (32 ≤ c) × (c ≢ 127)

no_control_iff : (cs : List ℕ) → (any_code is_control cs ≡ false) ↔ AllCodes Printable cs
no_control_iff cs = (
  any_code-false is_control Printable cs (λ c h. (ground (arith, h), ground (arith, h))),
  AllCodes-any is_control Printable cs (λ c h. ground (arith, h)),
)

module _ (files : Files) where
  -- A file or a directory that an import can read of a profile.
  pub data HasArtifact (dir : files.FilePath) : Type 0 where
    bookmarks : files.path_exists (files.append dir "Bookmarks") ≡ true → HasArtifact dir
    history : files.path_exists (files.append dir "History") ≡ true → HasArtifact dir
    web_data : files.path_exists (files.append dir "Web Data") ≡ true → HasArtifact dir
    logins : files.path_exists (files.append dir "Login Data") ≡ true → HasArtifact dir
    cookies : files.path_exists (files.append dir "Cookies") ≡ true → HasArtifact dir
    local_storage :
        files.directory_exists (files.append (files.append dir "Local Storage") "leveldb") ≡ true
        → HasArtifact dir
    indexed_db : files.directory_exists (files.append dir "IndexedDB") ≡ true → HasArtifact dir

  -- A directory of its own, no link to one, with something to import.
  pub record IsProfile (dir : files.FilePath) : Type 0 where
    pub is_directory : files.directory_exists dir ≡ true
    pub no_link : files.is_link dir ≡ false
    pub has_artifact : HasArtifact dir

  -- A name that stays one component under the root.
  pub record IsSafeName (name : String) : Type 0 where
    pub present : name ≢ ""
    pub printable : AllCodes Printable (codes name)
    pub lossless : files.value (files.from_utf8 name) ≡ name
    pub single :
        files.same_path (files.from_utf8 name) (files.base_name (files.from_utf8 name)) ≡ true
    pub inside : files.references_parent (files.from_utf8 name) ≡ false

  artifact_sound : (dir : files.FilePath) → has_edge_profile_data files dir ≡ true → HasArtifact dir
  unfolding has_edge_profile_data
  artifact_sound dir h = elim (Bool-cases (files.path_exists (files.append dir "Bookmarks"))) [
    | inl e ↦ bookmarks e
    | inr a ↦ elim (Bool-cases (files.path_exists (files.append dir "History"))) [
      | inl e ↦ history e
      | inr b ↦ elim (Bool-cases (files.path_exists (files.append dir "Web Data"))) [
        | inl e ↦ web_data e
        | inr c ↦ elim (Bool-cases (files.path_exists (files.append dir "Login Data"))) [
          | inl e ↦ logins e
          | inr d ↦ elim (Bool-cases (files.path_exists (files.append dir "Cookies"))) [
            | inl e ↦ cookies e
            | inr f ↦ elim (Bool-cases (files.directory_exists (files.append dir "IndexedDB"))) [
              | inl e ↦ indexed_db e
              | inr g ↦ local_storage (ground (arith, h, a, b, c, d, f, g))
            ]
          ]
        ]
      ]
    ]
  ]

  artifact_complete :
      (dir : files.FilePath) → HasArtifact dir → has_edge_profile_data files dir ≡ true
  unfolding has_edge_profile_data
  artifact_complete dir (bookmarks e) = ground (arith, e)
  artifact_complete dir (history e) = ground (arith, e)
  artifact_complete dir (web_data e) = ground (arith, e)
  artifact_complete dir (logins e) = ground (arith, e)
  artifact_complete dir (cookies e) = ground (arith, e)
  artifact_complete dir (local_storage e) = ground (arith, e)
  artifact_complete dir (indexed_db e) = ground (arith, e)

  pub candidate_usable_iff :
      (dir : files.FilePath) → (candidate_usable files dir ≡ true) ↔ IsProfile dir
  unfolding candidate_usable
  candidate_usable_iff dir = (
    λ h. record {
      is_directory = ground (arith, h);
      no_link = ground (arith, h);
      has_artifact = artifact_sound dir (ground (arith, h));
    },
    λ v. ground (arith, v.is_directory, v.no_link, artifact_complete dir v.has_artifact),
  )

  pub is_safe_profile_name_iff :
      (name : String) → (is_safe_profile_name files name ≡ true) ↔ IsSafeName name
  unfolding is_safe_profile_name
  is_safe_profile_name_iff name =
      let component = files.from_utf8 name in
      (
        λ h. record {
          present = λ e. absurd (ground (arith, h, (str_eq_iff name "").1 e));
          printable = (no_control_iff (codes name)).0 (ground (arith, h));
          lossless = (str_eq_iff (files.value component) name).0 (ground (arith, h));
          single = ground (arith, h);
          inside = ground (arith, h);
        },
        λ v. elim (Bool-cases (is_empty name)) [
          | inl e ↦ absurd (v.present ((str_eq_iff name "").0 e))
          | inr e ↦ ground (
            arith,
            e,
            (no_control_iff (codes name)).1 v.printable,
            (str_eq_iff (files.value component) name).1 v.lossless,
            v.single,
            v.inside,
          )
        ],
      )
