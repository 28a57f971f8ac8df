-- ===== src/Tabs/InitialUrl/Session.antt =====
-- The tabs of a session under every call of the helpers, in any order.
use roamux.Base.{ℕ, String, Bool, Option, List, [], ◌∷◌, ◌==◌, if◌then◌else◌}
use roamux.Tabs.InitialUrl.{
  UrlLibrary, TabInitialUrlHelper, Navigation, set_user_initial_url, did_finish_navigation,
  maybe_create, map_helper, will_discard_contents, set_pending_restored_initial_url,
  on_tab_duplicated,
}
use roamux.Tabs.InitialUrl.Locked.{TabIsSafe}

module _ (lib : UrlLibrary) where
  -- The helper that the contents of each id have.
  abbrev pub Helpers : Type 0
  Helpers = ℕ → Option (TabInitialUrlHelper lib)

  -- A call: the ids of the contents, whether the feature is on and there is a session for the tab, and
  -- what else it is given.
  pub data Input : Type 0 where
    creates : ℕ → Bool → Input
    navigates : ℕ → Bool → Navigation lib → Input
    user_writes : ℕ → Bool → lib.Url → Input
    restores : ℕ → Bool → Option String → Input
    discards : ℕ → ℕ → Bool → Input
    duplicates : ℕ → ℕ → Bool → Bool → Input

  abbrev update : Helpers → ℕ → Option (TabInitialUrlHelper lib) → Helpers
  update hs i x j = if i == j then x else hs j

  unfoldable pub step : Helpers → Input → Helpers
  unfolding did_finish_navigation set_user_initial_url maybe_create will_discard_contents
      set_pending_restored_initial_url on_tab_duplicated
  step hs (creates i feature) = update hs i (maybe_create lib feature (hs i))
  step hs (navigates i s n) =
      update hs i (map_helper lib (λ h. (did_finish_navigation lib s h n).0) (hs i))
  step hs (user_writes i s url) =
      update hs i (map_helper lib (λ h. (set_user_initial_url lib s h url).0.0) (hs i))
  step hs (restores i feature text) =
      update hs i (set_pending_restored_initial_url lib feature (hs i) text)
  step hs (discards i j feature) = update hs j (will_discard_contents lib feature (hs i) (hs j))
  step hs (duplicates i j feature s) = update hs j (on_tab_duplicated lib feature s (hs i) (hs j)).0

  unfoldable pub run : Helpers → List Input → Helpers
  run hs [] = hs
  run hs (i ∷ is) = run (step hs i) is

  abbrev AllSafe : Helpers → Type 0
  AllSafe hs = (i : ℕ) → TabIsSafe lib (hs i)
