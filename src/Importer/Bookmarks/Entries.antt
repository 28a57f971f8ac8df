-- ===== src/Importer/Bookmarks/Entries.antt =====
-- Which bookmarks are collected.
use mathlib.Core.Path.{subst}
use mathlib.Core.List.{Memᴰ}
use mathlib.Core.List.Memᴰ
use roamux.Base.{
  String, ◌≡◌, sym, ◌⊎◌, inl, inr, Bool, true, not, Option, none, some, List, [], ◌∷◌, ◌++◌,
  if◌then◌else◌, if_intro, negated, str_eq, str_eq_iff,
}
use roamux.Importer.Bookmarks.{
  Values, DictValue, dict, ListValue, no_values, dict_value, other_value, is_empty_list,
  ImportedBookmarkEntry, folder_entry, url_entry, add_link, collect_bookmarks, collect_children,
}

module _ (lib : Values) (bar : Bool) where
  abbrev Entry : Type 0
  Entry = ImportedBookmarkEntry lib

  mutual
    -- An entry of a tree, by the folders that lead to it from a path: an empty folder, or a link with
    -- a valid url.
    pub data Stands : DictValue → List String → ImportedBookmarkEntry lib → Type 0 where
      empty_folder :
          (title : String) (url added : Option String) (path : List String)
          → Stands
              (dict (some "folder") (some title) url added no_values)
              path
              (folder_entry lib bar path title)
      inside :
          (title : String) (url added : Option String) (children : ListValue) (path : List String)
          (e : ImportedBookmarkEntry lib)
          → StandsIn children (path ++ title ∷ []) e
          → Stands (dict (some "folder") (some title) url added children) path e
      link :
          (title u : String) (added : Option String) (children : ListValue) (path : List String)
          → lib.is_valid (lib.parse u) ≡ true
          → Stands
              (dict (some "url") (some title) (some u) added children)
              path
              (url_entry lib bar path title (lib.parse u) added)

    pub data StandsIn : ListValue → List String → ImportedBookmarkEntry lib → Type 0 where
      here :
          (d : DictValue) (ds : ListValue) (path : List String) (e : ImportedBookmarkEntry lib)
          → Stands d path e
          → StandsIn (dict_value d ds) path e
      later :
          (d : DictValue) (ds : ListValue) (path : List String) (e : ImportedBookmarkEntry lib)
          → StandsIn ds path e
          → StandsIn (dict_value d ds) path e
      past :
          (ds : ListValue) (path : List String) (e : ImportedBookmarkEntry lib)
          → StandsIn ds path e
          → StandsIn (other_value ds) path e

  -- Of a list that an entry was added to.
  snoc_cases : (e x : Entry) (out : List Entry) → Memᴰ e (out ++ x ∷ []) → Memᴰ e out ⊎ (e ≡ x)
  snoc_cases e x out m = elim (Memᴰ.append_cases out m) [
    | inl k ↦ inl k
    | inr k ↦ inr (Memᴰ.eq_of_singleton k)
  ]

  add_link_sound :
      (path : List String) (title type : String) (url added : Option String) (children : ListValue)
      (out : List Entry) (e : Entry)
      → type ≡ "url"
      → Memᴰ e (add_link lib bar path title url added out)
      → Memᴰ e out ⊎ Stands (dict (some type) (some title) url added children) path e
  unfolding add_link
  add_link_sound path title type none added children out e t = λ m. inl m
  add_link_sound path title type (some u) added children out e t =
      if_intro
        (λ (r : List Entry).
          Memᴰ e r
          → Memᴰ e out ⊎ Stands (dict (some type) (some title) (some u) added children) path e)
        (lib.is_valid (lib.parse u)) (out ++ url_entry lib bar path title (lib.parse u) added ∷ [])
        out
        (λ v m. elim (snoc_cases e (url_entry lib bar path title (lib.parse u) added) out m) [
          | inl k ↦ inl k
          | inr k ↦ inr (
              subst (λ x. Stands (dict (some type) (some title) (some u) added children) path x)
                (sym k)
                (subst
                  (λ t'.
                    Stands (dict (some t') (some title) (some u) added children) path
                      (url_entry lib bar path title (lib.parse u) added))
                  (sym t) (link title u added children path v)))
        ])
        (λ v m. inl m)

  nested_sound :
      (path : List String) (title type : String) (url added : Option String) (children : ListValue)
      (out : List Entry) (e : Entry)
      → type ≡ "folder"
      → Memᴰ e out ⊎ StandsIn children (path ++ title ∷ []) e
      → Memᴰ e out ⊎ Stands (dict (some type) (some title) url added children) path e
  nested_sound path title type url added children out e t (inl k) = inl k
  nested_sound path title type url added children out e t (inr k) = inr (
      subst (λ t'. Stands (dict (some t') (some title) url added children) path e) (sym t)
        (inside title url added children path e k))

  folder_sound :
      (path : List String) (title type : String) (url added : Option String) (children : ListValue)
      (out within : List Entry) (e : Entry)
      → type ≡ "folder"
      → (Memᴰ e within → Memᴰ e out ⊎ StandsIn children (path ++ title ∷ []) e)
      → Memᴰ e
          (if is_empty_list children then out ++ folder_entry lib bar path title ∷ [] else within)
      → Memᴰ e out ⊎ Stands (dict (some type) (some title) url added children) path e
  folder_sound path title type url added no_values out within e t below m =
      elim (snoc_cases e (folder_entry lib bar path title) out m) [
        | inl k ↦ inl k
        | inr k ↦ inr (
            subst (λ x. Stands (dict (some type) (some title) url added no_values) path x) (sym k)
              (subst
                (λ t'.
                  Stands (dict (some t') (some title) url added no_values) path
                    (folder_entry lib bar path title))
                (sym t) (empty_folder title url added path)))
      ]
  folder_sound path title type url added (dict_value d ds) out within e t below m =
      nested_sound path title type url added (dict_value d ds) out e t (below m)
  folder_sound path title type url added (other_value ds) out within e t below m =
      nested_sound path title type url added (other_value ds) out e t (below m)

  mutual
    unfolding collect_bookmarks collect_children

    collect_bookmarks_sound :
        (d : DictValue) (path : List String) (out : List Entry) (e : Entry)
        → Memᴰ e (collect_bookmarks lib bar d path out)
        → Memᴰ e out ⊎ Stands d path e
    collect_bookmarks_sound (dict none name url added children) path out e = λ m. inl m
    collect_bookmarks_sound (dict (some type) none url added children) path out e = λ m. inl m
    collect_bookmarks_sound (dict (some type) (some title) url added children) path out e =
        let below = collect_children_sound children (path ++ title ∷ []) out e in
        let within = collect_children lib bar children (path ++ title ∷ []) out in
        if_intro
          (λ (r : List Entry).
            Memᴰ e r
            → Memᴰ e out ⊎ Stands (dict (some type) (some title) url added children) path e)
          (str_eq type "folder")
          (if is_empty_list children then out ++ folder_entry lib bar path title ∷ [] else within)
          (if not (str_eq type "url") then out else add_link lib bar path title url added out)
          (λ t.
            folder_sound path title type url added children out within e
              ((str_eq_iff type "folder").0 t) below)
          (λ t.
            if_intro
              (λ (r : List Entry).
                Memᴰ e r
                → Memᴰ e out ⊎ Stands (dict (some type) (some title) url added children) path e)
              (not (str_eq type "url")) out (add_link lib bar path title url added out)
              (λ k m. inl m)
              (λ k.
                add_link_sound path title type url added children out e
                  ((str_eq_iff type "url").0 (negated (str_eq type "url") k))))

    pub collect_children_sound :
        (ds : ListValue) (path : List String) (out : List Entry) (e : Entry)
        → Memᴰ e (collect_children lib bar ds path out)
        → Memᴰ e out ⊎ StandsIn ds path e
    collect_children_sound no_values path out e m = inl m
    collect_children_sound (dict_value d ds) path out e m =
        elim (collect_children_sound ds path (collect_bookmarks lib bar d path out) e m) [
          | inr k ↦ inr (later d ds path e k)
          | inl k ↦ elim (collect_bookmarks_sound d path out e k) [
            | inl n ↦ inl n
            | inr n ↦ inr (here d ds path e n)
          ]
        ]
    collect_children_sound (other_value ds) path out e m =
        elim (collect_children_sound ds path out e m) [
          | inl k ↦ inl k
          | inr k ↦ inr (past ds path e k)
        ]
