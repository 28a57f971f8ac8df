-- ===== src/Importer/Bookmarks/Collected.antt =====
-- The bookmarks of the three roots, and where those of the toolbar stand.
use mathlib.Core.List.{Memᴰ}
use mathlib.Core.List.Memᴰ
use roamux.Base.{
  String, ◌≡◌, refl, sym, ◌∙◌, ◌↔◌, ◌⊎◌, inl, inr, Bool, true, false, Option, none, some, List, [],
  ◌∷◌, ◌++◌, arith, append_nil, append_assoc,
}
use roamux.Importer.Bookmarks.{
  Values, DictValue, dict, ListValue, seed, Roots, ImportedBookmarkEntry, folder_entry, url_entry,
  collect_root, collect_found, read_bookmarks,
}
use roamux.Importer.Bookmarks.Entries.{
  Stands, empty_folder, inside, link, StandsIn, here, later, past, collect_children_sound,
}
use roamux.Importer.Bookmarks.Read.{collect_children-Keeps, collect_children_complete}

module _ (lib : Values) where
  abbrev pub StandsUnder : Bool → Option DictValue → ImportedBookmarkEntry lib → Type 0
  StandsUnder bar none e = ⊥
  StandsUnder bar (some (dict type name url added children)) e =
      StandsIn lib bar children (seed bar name) e

  collect_found-collects_iff :
      (bar : Bool) (root : Option DictValue) (out : List (ImportedBookmarkEntry lib))
      (e : ImportedBookmarkEntry lib)
      → Memᴰ e (collect_found lib bar root out) ↔ (Memᴰ e out ⊎ StandsUnder bar root e)
  unfolding collect_found collect_root
  collect_found-collects_iff bar none out e =
      (λ m. inl m, λ o. elim o [ inl m ↦ m | inr h ↦ absurd h ])
  collect_found-collects_iff bar (some (dict type name url added children)) out e = (
    collect_children_sound lib bar children (seed bar name) out e,
    λ o. elim o [
      | inl m ↦ collect_children-Keeps lib bar children (seed bar name) out e m
      | inr h ↦ collect_children_complete lib bar children (seed bar name) out e h
    ],
  )

  -- From a file with roots exactly the entries are read that stand under one of them: each empty
  -- folder and each link with a valid url, with the titles of the folders that lead to it.
  pub read_bookmarks-stands_iff :
      (roots : Roots) (e : ImportedBookmarkEntry lib)
      → Memᴰ e (read_bookmarks lib (some roots)) ↔ (
          StandsUnder true roots.bookmark_bar e
          ⊎ (StandsUnder false roots.other e ⊎ StandsUnder false roots.synced e))
  unfolding read_bookmarks
  read_bookmarks-stands_iff roots e =
      let b = collect_found lib true roots.bookmark_bar [] in
      let o = collect_found lib false roots.other b in
      let in_bar = collect_found-collects_iff true roots.bookmark_bar [] e in
      let in_other = collect_found-collects_iff false roots.other b e in
      let in_synced = collect_found-collects_iff false roots.synced o e in
      (
        λ m. elim (in_synced.0 m) [
          | inr h ↦ inr (inr h)
          | inl k ↦ elim (in_other.0 k) [
            | inr h ↦ inr (inl h)
            | inl n ↦ elim (in_bar.0 n) [
              | inl none_yet ↦ absurd (Memᴰ.not-nil none_yet)
              | inr h ↦ inl h
            ]
          ]
        ],
        λ s. elim s [
          | inl h ↦ in_synced.1 (inl (in_other.1 (inl (in_bar.1 (inr h)))))
          | inr (inl h) ↦ in_synced.1 (inl (in_other.1 (inr h)))
          | inr (inr h) ↦ in_synced.1 (inr h)
        ],
      )

  -- Of the given flag, at or below the given path.
  abbrev IsBelow : Bool → List String → ImportedBookmarkEntry lib → Type 0
  IsBelow bar path e = (e.in_toolbar ≡ bar) × ((rest : List String) × (e.path ≡ path ++ rest))

  mutual
    unfolding folder_entry url_entry

    Stands-IsBelow :
        (bar : Bool) (d : DictValue) (path : List String) (e : ImportedBookmarkEntry lib)
        → Stands lib bar d path e
        → IsBelow bar path e
    Stands-IsBelow bar _ path _ (empty_folder title url added _) =
        (refl, ([], sym (append_nil path)))
    Stands-IsBelow bar _ path _ (inside title url added children _ e k) =
        let v = StandsIn-IsBelow bar children (path ++ title ∷ []) e k in
        (v.0, (title ∷ v.1.0, v.1.1 ∙ append_assoc path (title ∷ []) v.1.0))
    Stands-IsBelow bar _ path _ (link title u added children _ v) =
        (refl, ([], sym (append_nil path)))

    StandsIn-IsBelow :
        (bar : Bool) (ds : ListValue) (path : List String) (e : ImportedBookmarkEntry lib)
        → StandsIn lib bar ds path e
        → IsBelow bar path e
    StandsIn-IsBelow bar _ path _ (here d ds _ e k) = Stands-IsBelow bar d path e k
    StandsIn-IsBelow bar _ path _ (later d ds _ e k) = StandsIn-IsBelow bar ds path e k
    StandsIn-IsBelow bar _ path _ (past ds _ e k) = StandsIn-IsBelow bar ds path e k

  -- The element that the writer of the bookmarks passes over.
  abbrev pub bar_name : Option DictValue → String
  bar_name (some (dict type (some name) url added children)) = name
  bar_name (some (dict type none url added children)) = "Bookmarks bar"
  bar_name none = ""

  bar-rooted :
      (root : Option DictValue) (e : ImportedBookmarkEntry lib)
      → StandsUnder true root e
      → (rest : List String) × (e.path ≡ bar_name root ∷ rest)
  bar-rooted none e h = absurd h
  bar-rooted (some (dict type (some name) url added children)) e h =
      (StandsIn-IsBelow true children (name ∷ []) e h).1
  bar-rooted (some (dict type none url added children)) e h =
      (StandsIn-IsBelow true children ("Bookmarks bar" ∷ []) e h).1

  elsewhere_unmarked :
      (root : Option DictValue) (e : ImportedBookmarkEntry lib)
      → StandsUnder false root e
      → e.in_toolbar ≡ false
  elsewhere_unmarked none e h = absurd h
  elsewhere_unmarked (some (dict type name url added children)) e h =
      (StandsIn-IsBelow false children [] e h).0

  -- The path of every entry that is read for the toolbar begins with the name of the bar.
  pub read_bookmarks-rooted :
      (roots : Roots) (e : ImportedBookmarkEntry lib)
      → Memᴰ e (read_bookmarks lib (some roots))
      → e.in_toolbar ≡ true
      → (rest : List String) × (e.path ≡ bar_name roots.bookmark_bar ∷ rest)
  read_bookmarks-rooted roots e m t = elim ((read_bookmarks-stands_iff roots e).0 m) [
    | inl h ↦ bar-rooted roots.bookmark_bar e h
    | inr (inl h) ↦ absurd (ground (arith, t, elsewhere_unmarked roots.other e h))
    | inr (inr h) ↦ absurd (ground (arith, t, elsewhere_unmarked roots.synced e h))
  ]
