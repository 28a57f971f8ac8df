-- ===== src/Tabs/InitialUrl/Locked.antt =====
-- What the tabs of a session hold: a url that the user wrote or that was decoded is an allowed one.
use roamux.Base.{
  String, ◌≡◌, refl, Bool, true, false, not, Option, none, some, List, arith, if_intro, negated,
}
use roamux.Tabs.InitialUrl.{
  UrlLibrary, TabInitialUrlHelper, Navigation, is_allowed_initial_url, new_helper,
  decode_extra_data, set_user_initial_url, set_restored_initial_url, did_finish_navigation,
  maybe_create, map_helper, will_discard_contents, restore_decoded,
  set_pending_restored_initial_url, on_tab_duplicated,
}
use roamux.Tabs.InitialUrl.ExtraData.{decode-allowed}

module _ (lib : UrlLibrary) where
  -- A locked url is allowed, and is there.
  pub record IsSafe (h : TabInitialUrlHelper lib) : Type 0 where
    pub allowed : h.user_locked ≡ true → is_allowed_initial_url lib h.initial_url ≡ true
    pub there : h.user_locked ≡ true → h.captured ≡ true

  abbrev pub TabIsSafe : Option (TabInitialUrlHelper lib) → Type 0
  TabIsSafe none = Unit
  TabIsSafe (some h) = IsSafe h

  new_helper-IsSafe : IsSafe (new_helper lib)
  unfolding new_helper
  new_helper-IsSafe = record {
    allowed = λ e. absurd (ground (arith, e));
    there = λ e. absurd (ground (arith, e));
  }

  pub maybe_create-TabIsSafe :
      (feature : Bool) (tab : Option (TabInitialUrlHelper lib))
      → TabIsSafe tab
      → TabIsSafe (maybe_create lib feature tab)
  unfolding maybe_create
  maybe_create-TabIsSafe feature (some h) v = v
  maybe_create-TabIsSafe true none v = new_helper-IsSafe
  maybe_create-TabIsSafe false none v = tt

  pub did_finish_navigation-IsSafe :
      (s : Bool) (h : TabInitialUrlHelper lib) (n : Navigation lib)
      → IsSafe h
      → IsSafe (did_finish_navigation lib s h n).0
  unfolding did_finish_navigation
  did_finish_navigation-IsSafe s h n v = record {
    allowed = λ e. ground (arith, e, v.allowed);
    there = λ e. ground (arith, e, v.there);
  }

  pub set_user_initial_url-IsSafe :
      (s : Bool) (h : TabInitialUrlHelper lib) (url : lib.Url)
      → IsSafe h
      → IsSafe (set_user_initial_url lib s h url).0.0
  unfolding set_user_initial_url
  set_user_initial_url-IsSafe s h url v =
      if_intro (λ (r : (TabInitialUrlHelper lib × Bool) × List String). IsSafe r.0.0)
        (not (is_allowed_initial_url lib url)) _ _ (λ e. v)
        (λ e. record {
          allowed = λ k. negated (is_allowed_initial_url lib url) e;
          there = λ k. refl;
        })

  inherits :
      (old : TabInitialUrlHelper lib) (new : Option (TabInitialUrlHelper lib))
      → IsSafe old
      → TabIsSafe (
          map_helper lib
            (λ h. record h {
              initial_url = old.initial_url;
              captured = old.captured;
              user_locked = old.user_locked;
            })
            new)
  inherits old none v = tt
  inherits old (some h) v = record { allowed = v.allowed; there = v.there }

  restored-TabIsSafe :
      (url : lib.Url) (locked : Bool) (new : Option (TabInitialUrlHelper lib))
      → is_allowed_initial_url lib url ≡ true
      → TabIsSafe (map_helper lib (λ h. set_restored_initial_url lib h url locked) new)
  unfolding set_restored_initial_url
  restored-TabIsSafe url locked none a = tt
  restored-TabIsSafe url locked (some h) a = record { allowed = λ k. a; there = λ k. refl }

  restore_decoded-TabIsSafe :
      (feature : Bool) (tab : Option (TabInitialUrlHelper lib)) (o : Option (lib.Url × Bool))
      → ((url : lib.Url) (locked : Bool)
          → o ≡ some (url, locked)
          → is_allowed_initial_url lib url ≡ true)
      → TabIsSafe tab
      → TabIsSafe (restore_decoded lib feature tab o)
  unfolding restore_decoded
  restore_decoded-TabIsSafe feature tab none a v = v
  restore_decoded-TabIsSafe feature tab (some (url, locked)) a v =
      restored-TabIsSafe url locked (maybe_create lib feature tab) (a url locked refl)

  pub set_pending_restored_initial_url-TabIsSafe :
      (feature : Bool) (tab : Option (TabInitialUrlHelper lib)) (text : Option String)
      → TabIsSafe tab
      → TabIsSafe (set_pending_restored_initial_url lib feature tab text)
  unfolding set_pending_restored_initial_url
  set_pending_restored_initial_url-TabIsSafe feature tab none v = v
  set_pending_restored_initial_url-TabIsSafe feature tab (some text) v =
      restore_decoded-TabIsSafe feature tab (decode_extra_data lib text) (decode-allowed lib text) v

  pub will_discard_contents-TabIsSafe :
      (feature : Bool) (old new : Option (TabInitialUrlHelper lib))
      → TabIsSafe old
      → TabIsSafe new
      → TabIsSafe (will_discard_contents lib feature old new)
  unfolding will_discard_contents
  will_discard_contents-TabIsSafe feature none new v w = w
  will_discard_contents-TabIsSafe feature (some old) new v w =
      inherits old (maybe_create lib feature new) v

  pub on_tab_duplicated-TabIsSafe :
      (feature s : Bool) (source new : Option (TabInitialUrlHelper lib))
      → TabIsSafe source
      → TabIsSafe new
      → TabIsSafe (on_tab_duplicated lib feature s source new).0
  unfolding on_tab_duplicated maybe_create
  on_tab_duplicated-TabIsSafe feature s none new v w = w
  on_tab_duplicated-TabIsSafe feature s (some source) (some h) v w =
      if_intro (λ (r : Option (TabInitialUrlHelper lib) × List String). TabIsSafe r.0)
        (not source.captured) _ _ (λ e. w) (λ e. record { allowed = v.allowed; there = v.there })
  on_tab_duplicated-TabIsSafe true s (some source) none v w =
      if_intro (λ (r : Option (TabInitialUrlHelper lib) × List String). TabIsSafe r.0)
        (not source.captured) _ _ (λ e. tt) (λ e. record { allowed = v.allowed; there = v.there })
  on_tab_duplicated-TabIsSafe false s (some source) none v w =
      if_intro (λ (r : Option (TabInitialUrlHelper lib) × List String). TabIsSafe r.0)
        (not source.captured) _ _ (λ e. tt) (λ e. tt)
