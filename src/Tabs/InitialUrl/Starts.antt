-- ===== src/Tabs/InitialUrl/Starts.antt =====
-- The navigations that a user opened a tab for.
use mathlib.Core.Path.{subst}
use roamux.Base.{
  ◌≤◌, ◌≡◌, refl, ap, inl, inr, true, false, List, [], ◌∷◌, arith, Bool-cases, str_eq, str_eq_iff,
}
use roamux.Tabs.InitialUrl.{
  UrlLibrary, Navigation, is_ignorable_start, chain_head, is_captured_from,
}

module _ (lib : UrlLibrary) where
  -- A url that a new tab shows before it is used.
  pub data IsBlankStart (url : lib.Url) : Type 0 where
    of_nothing : lib.url_is_empty url ≡ true → IsBlankStart url
    of_blank : lib.is_about_blank url ≡ true → IsBlankStart url
    of_new_tab : lib.spec url ≡ "chrome://newtab/" → IsBlankStart url
    of_new_tab_page : lib.spec url ≡ "chrome://new-tab-page/" → IsBlankStart url
    of_third_party : lib.spec url ≡ "chrome://new-tab-page-third-party/" → IsBlankStart url

  -- Where the redirects of a navigation began: the first of the chain, or its url if there is none.
  pub data BeginsAt (n : Navigation lib) : lib.Url → Type 0 where
    of_chain : (u : lib.Url) (us : List lib.Url) → n.redirect_chain ≡ u ∷ us → BeginsAt n u
    of_url : n.redirect_chain ≡ [] → BeginsAt n n.url

  -- A navigation that commits a new page in the main frame, which is no activation of an old one and
  -- no redirect by a page, which a page began only if it is the first of its tab, and which leads from
  -- and to a url that is no blank start.
  pub record IsOpening (n : Navigation lib) : Type 0 where
    pub main_frame : n.in_primary_main_frame ≡ true
    pub committed : n.has_committed ≡ true
    pub new_document : n.is_same_document ≡ false
    pub not_cached : n.from_back_forward_cache ≡ false
    pub not_prerendered : n.is_prerender_activation ≡ false
    pub no_client_redirect : n.is_client_redirect ≡ false
    pub first_of_tab :
        n.is_renderer_initiated ≡ true → (n.entry_count ≤ 1) × (n.last_entry_is_initial ≡ false)
    pub leads_somewhere : ¬ IsBlankStart n.url
    pub begins_somewhere : (u : lib.Url) → BeginsAt n u → ¬ IsBlankStart u

  ignorable_sound : (url : lib.Url) → is_ignorable_start lib url ≡ true → IsBlankStart url
  unfolding is_ignorable_start
  ignorable_sound url h = elim (Bool-cases (lib.url_is_empty url)) [
    | inl e ↦ of_nothing e
    | inr a ↦ elim (Bool-cases (lib.is_about_blank url)) [
      | inl e ↦ of_blank e
      | inr b ↦ elim (Bool-cases (str_eq (lib.spec url) "chrome://newtab/")) [
        | inl e ↦ of_new_tab ((str_eq_iff (lib.spec url) "chrome://newtab/").0 e)
        | inr c ↦ elim (Bool-cases (str_eq (lib.spec url) "chrome://new-tab-page/")) [
          | inl e ↦ of_new_tab_page ((str_eq_iff (lib.spec url) "chrome://new-tab-page/").0 e)
          | inr d ↦ of_third_party (
              (str_eq_iff (lib.spec url) "chrome://new-tab-page-third-party/").0
                (ground (arith, h, a, b, c, d)))
        ]
      ]
    ]
  ]

  ignorable_complete : (url : lib.Url) → IsBlankStart url → is_ignorable_start lib url ≡ true
  unfolding is_ignorable_start
  ignorable_complete url (of_nothing e) = ground (arith, e)
  ignorable_complete url (of_blank e) = ground (arith, e)
  ignorable_complete url (of_new_tab e) =
      ground (arith, (str_eq_iff (lib.spec url) "chrome://newtab/").1 e)
  ignorable_complete url (of_new_tab_page e) =
      ground (arith, (str_eq_iff (lib.spec url) "chrome://new-tab-page/").1 e)
  ignorable_complete url (of_third_party e) =
      ground (arith, (str_eq_iff (lib.spec url) "chrome://new-tab-page-third-party/").1 e)

  not_blank : (url : lib.Url) → is_ignorable_start lib url ≡ false → ¬ IsBlankStart url
  not_blank url h v = absurd (ground (arith, h, ignorable_complete url v))

  not_ignorable : (url : lib.Url) → ¬ IsBlankStart url → is_ignorable_start lib url ≡ false
  not_ignorable url h = elim (Bool-cases (is_ignorable_start lib url)) [
    | inl e ↦ absurd (h (ignorable_sound url e))
    | inr e ↦ e
  ]

  pub chain_head-BeginsAt :
      (n : Navigation lib) → BeginsAt n (chain_head lib n.url n.redirect_chain)
  chain_head-BeginsAt n = of_cases n.redirect_chain refl
    where
      of_cases : (us : List lib.Url) → n.redirect_chain ≡ us → BeginsAt n (chain_head lib n.url us)
      of_cases [] e = of_url e
      of_cases (u ∷ us) e = of_chain u us e

  pub BeginsAt-chain_head :
      (n : Navigation lib) (u : lib.Url) → BeginsAt n u → chain_head lib n.url n.redirect_chain ≡ u
  BeginsAt-chain_head n _ (of_chain u us e) = ap (chain_head lib n.url) e
  BeginsAt-chain_head n _ (of_url e) = ap (chain_head lib n.url) e

  pub is_captured_from_sound : (n : Navigation lib) → is_captured_from lib n ≡ true → IsOpening n
  unfolding is_captured_from
  is_captured_from_sound n h =
      let head = chain_head lib n.url n.redirect_chain in
      record {
        main_frame = ground (arith, h);
        committed = ground (arith, h);
        new_document = ground (arith, h);
        not_cached = ground (arith, h);
        not_prerendered = ground (arith, h);
        no_client_redirect = ground (arith, h);
        first_of_tab = λ e. (ground (arith, h, e), ground (arith, h, e));
        leads_somewhere = not_blank n.url (ground (arith, h));
        begins_somewhere = λ u b.
            subst (λ x. ¬ IsBlankStart x) (BeginsAt-chain_head n u b)
              (not_blank head (ground (arith, h)));
      }

  pub is_captured_from_complete : (n : Navigation lib) → IsOpening n → is_captured_from lib n ≡ true
  unfolding is_captured_from
  is_captured_from_complete n v =
      let head = chain_head lib n.url n.redirect_chain in
      ground (
        arith,
        v.main_frame,
        v.committed,
        v.new_document,
        v.not_cached,
        v.not_prerendered,
        v.no_client_redirect,
        v.first_of_tab,
        not_ignorable n.url v.leads_somewhere,
        not_ignorable head (v.begins_somewhere head (chain_head-BeginsAt n)),
      )
