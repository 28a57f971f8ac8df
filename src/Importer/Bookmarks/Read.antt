-- ===== src/Importer/Bookmarks/Read.antt =====
-- The bookmarks of a file: all that stand under its roots, and no others.
use mathlib.Core.Path.{subst}
use mathlib.Core.List.{Memᴰ}
use mathlib.Core.List.Memᴰ
use roamux.Base.{
  String, ◌≡◌, refl, sym, Bool, true, not, Option, none, some, List, [], ◌∷◌, ◌++◌, if◌then◌else◌,
  if_intro, str_eq,
}
use roamux.Importer.Bookmarks.{
  Values, DictValue, dict, ListValue, no_values, dict_value, other_value, is_empty_list,
  ImportedBookmarkEntry, folder_entry, url_entry, add_link, collect_bookmarks, collect_children,
}
use roamux.Importer.Bookmarks.Entries.{
  Stands, empty_folder, inside, link, StandsIn, here, later, past,
}

module _ (lib : Values) (bar : Bool) where
  abbrev Collected : Type 0
  Collected = ImportedBookmarkEntry lib

  -- `after` has what `before` has.
  abbrev Keeps : List Collected → List Collected → Type 0
  Keeps before after = (e : Collected) → Memᴰ e before → Memᴰ e after

  snoc-Keeps : (out : List Collected) (x : Collected) → Keeps out (out ++ x ∷ [])
  snoc-Keeps out x e m = Memᴰ.append_left (x ∷ []) m

  has_snoc : (out : List Collected) (x : Collected) → Memᴰ x (out ++ x ∷ [])
  has_snoc out x = Memᴰ.append_right out (Memᴰ.head refl)

  add_link-Keeps :
      (path : List String) (title : String) (url added : Option String) (out : List Collected)
      → Keeps out (add_link lib bar path title url added out)
  unfolding add_link
  add_link-Keeps path title none added out = λ e m. m
  add_link-Keeps path title (some u) added out =
      if_intro (Keeps out) (lib.is_valid (lib.parse u))
        (out ++ url_entry lib bar path title (lib.parse u) added ∷ []) out
        (λ v. snoc-Keeps out (url_entry lib bar path title (lib.parse u) added)) (λ v e m. m)

  mutual
    unfolding collect_bookmarks collect_children

    collect_bookmarks-Keeps :
        (d : DictValue) (path : List String) (out : List Collected)
        → Keeps out (collect_bookmarks lib bar d path out)
    collect_bookmarks-Keeps (dict none name url added children) path out = λ e m. m
    collect_bookmarks-Keeps (dict (some type) none url added children) path out = λ e m. m
    collect_bookmarks-Keeps (dict (some type) (some title) url added children) path out =
        let below = collect_children-Keeps children (path ++ title ∷ []) out in
        let within = collect_children lib bar children (path ++ title ∷ []) out in
        if_intro (Keeps out) (str_eq type "folder")
          (if is_empty_list children then out ++ folder_entry lib bar path title ∷ [] else within)
          (if not (str_eq type "url") then out else add_link lib bar path title url added out)
          (λ t.
            if_intro (Keeps out) (is_empty_list children)
              (out ++ folder_entry lib bar path title ∷ []) within
              (λ k. snoc-Keeps out (folder_entry lib bar path title)) (λ k. below))
          (λ t.
            if_intro (Keeps out) (not (str_eq type "url")) out
              (add_link lib bar path title url added out) (λ k e m. m)
              (λ k. add_link-Keeps path title url added out))

    pub collect_children-Keeps :
        (ds : ListValue) (path : List String) (out : List Collected)
        → Keeps out (collect_children lib bar ds path out)
    collect_children-Keeps no_values path out = λ e m. m
    collect_children-Keeps (dict_value d ds) path out = λ e m.
        collect_children-Keeps ds path (collect_bookmarks lib bar d path out) e
          (collect_bookmarks-Keeps d path out e m)
    collect_children-Keeps (other_value ds) path out = collect_children-Keeps ds path out

  StandsIn-not_no_values :
      (path : List String) (e : Collected) → StandsIn lib bar no_values path e → ⊥
  StandsIn-not_no_values path e h = elim h [ ]

  link-collected :
      (path : List String) (title u : String) (added : Option String) (out : List Collected)
      → lib.is_valid (lib.parse u) ≡ true
      → Memᴰ
          (url_entry lib bar path title (lib.parse u) added)
          (add_link lib bar path title (some u) added out)
  unfolding add_link
  link-collected path title u added out v =
      let x = url_entry lib bar path title (lib.parse u) added in
      subst (λ b. Memᴰ x (if b then out ++ x ∷ [] else out)) (sym v) (has_snoc out x)

  mutual
    unfolding collect_bookmarks collect_children

    collect_bookmarks_complete :
        (d : DictValue) (path : List String) (out : List Collected) (e : Collected)
        → Stands lib bar d path e
        → Memᴰ e (collect_bookmarks lib bar d path out)
    collect_bookmarks_complete _ path out _ (empty_folder title url added _) =
        has_snoc out (folder_entry lib bar path title)
    collect_bookmarks_complete _ path out _ (inside title url added no_values _ e k) =
        absurd (StandsIn-not_no_values (path ++ title ∷ []) e k)
    collect_bookmarks_complete _ path out _ (inside title url added (dict_value d ds) _ e k) =
        collect_children_complete (dict_value d ds) (path ++ title ∷ []) out e k
    collect_bookmarks_complete _ path out _ (inside title url added (other_value ds) _ e k) =
        collect_children_complete (other_value ds) (path ++ title ∷ []) out e k
    collect_bookmarks_complete _ path out _ (link title u added children _ v) =
        link-collected path title u added out v

    pub collect_children_complete :
        (ds : ListValue) (path : List String) (out : List Collected) (e : Collected)
        → StandsIn lib bar ds path e
        → Memᴰ e (collect_children lib bar ds path out)
    collect_children_complete _ path out _ (here d ds _ e k) =
        collect_children-Keeps ds path (collect_bookmarks lib bar d path out) e
          (collect_bookmarks_complete d path out e k)
    collect_children_complete _ path out _ (later d ds _ e k) =
        collect_children_complete ds path (collect_bookmarks lib bar d path out) e k
    collect_children_complete _ path out _ (past ds _ e k) =
        collect_children_complete ds path out e k
