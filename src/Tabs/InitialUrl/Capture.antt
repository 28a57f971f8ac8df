-- ===== src/Tabs/InitialUrl/Capture.antt =====
-- Which navigation gives a tab its initial url.
use roamux.Base.{◌≡◌, refl, ◌∙◌, Bool, true, false, ◌||◌, List, [], ◌∷◌, ◌++◌, arith}
use roamux.Tabs.InitialUrl.Starts.{
  BeginsAt, IsOpening, chain_head-BeginsAt, is_captured_from_sound, is_captured_from_complete,
}
use roamux.Tabs.InitialUrl.{
  UrlLibrary, TabInitialUrlHelper, Navigation, chain_head, is_captured_from, did_finish_navigation,
}

module _ (lib : UrlLibrary) where
  -- The navigations of a tab, each with whether there is a session for it then.
  unfoldable pub finish_all :
      TabInitialUrlHelper lib → List (Bool × Navigation lib) → TabInitialUrlHelper lib
  finish_all h [] = h
  finish_all h ((s, n) ∷ ns) = finish_all (did_finish_navigation lib s h n).0 ns

  sticky_once :
      (s : Bool) (h : TabInitialUrlHelper lib) (n : Navigation lib)
      → (h.captured || h.user_locked) ≡ true
      → ((did_finish_navigation lib s h n).0.initial_url ≡ h.initial_url)
        × ((did_finish_navigation lib s h n).0.captured ≡ h.captured)
        × ((did_finish_navigation lib s h n).0.user_locked ≡ h.user_locked)
  unfolding did_finish_navigation
  sticky_once s h n c = (ground (arith, c), ground (arith, c), ground (arith, c))

  -- No navigations change a url that was captured or written by the user, nor its lock.
  pub finish_all-sticky :
      (h : TabInitialUrlHelper lib) (ns : List (Bool × Navigation lib))
      → (h.captured || h.user_locked) ≡ true
      → ((finish_all h ns).initial_url ≡ h.initial_url)
        × ((finish_all h ns).captured ≡ h.captured)
        × ((finish_all h ns).user_locked ≡ h.user_locked)
  unfolding finish_all
  finish_all-sticky h [] c = (refl, refl, refl)
  finish_all-sticky h ((s, n) ∷ ns) c =
      let once = sticky_once s h n c in
      let ih = finish_all-sticky (did_finish_navigation lib s h n).0 ns (ground (arith, c, once)) in
      (ih.0 ∙ once.0, ih.1 ∙ once.1, ih.2 ∙ once.2)

  -- None of them is one that the tab was opened for.
  abbrev pub NoOpening : List (Bool × Navigation lib) → Type 0
  NoOpening [] = Unit
  NoOpening ((s, n) ∷ ns) = (¬ IsOpening lib n) × NoOpening ns

  -- What a new tab has after some navigations.
  pub data Captured : List (Bool × Navigation lib) → TabInitialUrlHelper lib → Type 0 where
    nothing :
        (ns : List (Bool × Navigation lib)) (h : TabInitialUrlHelper lib)
        → NoOpening ns
        → h.captured ≡ false
        → h.user_locked ≡ false
        → Captured ns h
    first :
        (before after : List (Bool × Navigation lib)) (s : Bool) (n : Navigation lib) (u : lib.Url)
        (h : TabInitialUrlHelper lib)
        → NoOpening before
        → IsOpening lib n
        → BeginsAt lib n u
        → h.captured ≡ true
        → h.user_locked ≡ false
        → h.initial_url ≡ u
        → Captured (before ++ (s, n) ∷ after) h

  later :
      (s : Bool) (n : Navigation lib) (ns : List (Bool × Navigation lib))
      (h : TabInitialUrlHelper lib)
      → ¬ IsOpening lib n
      → Captured ns h
      → Captured ((s, n) ∷ ns) h
  later s n _ _ other (nothing ns h earlier c l) = nothing ((s, n) ∷ ns) h (other, earlier) c l
  later s n _ _ other (first before after t m u h earlier o b c l e) =
      first ((s, n) ∷ before) after t m u h (other, earlier) o b c l e

  taken_once :
      (s : Bool) (h : TabInitialUrlHelper lib) (n : Navigation lib)
      → h.captured ≡ false
      → h.user_locked ≡ false
      → is_captured_from lib n ≡ true
      → ((did_finish_navigation lib s h n).0.initial_url ≡ chain_head lib n.url n.redirect_chain)
        × ((did_finish_navigation lib s h n).0.captured ≡ true)
        × ((did_finish_navigation lib s h n).0.user_locked ≡ false)
  unfolding did_finish_navigation
  taken_once s h n c l e =
      (ground (arith, c, l, e), ground (arith, c, l, e), ground (arith, c, l, e))

  left_once :
      (s : Bool) (h : TabInitialUrlHelper lib) (n : Navigation lib)
      → h.captured ≡ false
      → h.user_locked ≡ false
      → is_captured_from lib n ≡ false
      → ((did_finish_navigation lib s h n).0.captured ≡ false)
        × ((did_finish_navigation lib s h n).0.user_locked ≡ false)
  unfolding did_finish_navigation
  left_once s h n c l e = (ground (arith, c, l, e), ground (arith, c, l, e))

  gate_first :
      (s : Bool) (h : TabInitialUrlHelper lib) (n : Navigation lib)
      (ns : List (Bool × Navigation lib)) (b : Bool)
      → h.captured ≡ false
      → h.user_locked ≡ false
      → is_captured_from lib n ≡ b
      → ((did_finish_navigation lib s h n).0.captured ≡ false
          → (did_finish_navigation lib s h n).0.user_locked ≡ false
          → Captured ns (finish_all (did_finish_navigation lib s h n).0 ns))
      → Captured ((s, n) ∷ ns) (finish_all (did_finish_navigation lib s h n).0 ns)
  gate_first s h n ns true c l e rest =
      let h' = (did_finish_navigation lib s h n).0 in
      let t = taken_once s h n c l e in
      let k = finish_all-sticky h' ns (ground (arith, t)) in
      first [] ns s n (chain_head lib n.url n.redirect_chain) (finish_all h' ns) tt
        (is_captured_from_sound lib n e) (chain_head-BeginsAt lib n) (k.1 ∙ t.1) (k.2 ∙ t.2)
        (k.0 ∙ t.0)
  gate_first s h n ns false c l e rest =
      let t = left_once s h n c l e in
      later s n ns (finish_all (did_finish_navigation lib s h n).0 ns)
        (λ o. absurd (ground (arith, e, is_captured_from_complete lib n o))) (rest t.0 t.1)

  -- After any navigations a new tab has, unlocked, the url at which the redirects began of the first of
  -- them that the tab was opened for, and no initial url if there is none. Such a navigation commits a
  -- new page in the main frame, is no activation of an old page and no redirect by a page, is begun by a
  -- page only as the first of its tab, and leads from and to a url that is no blank start.
  pub finish_all-first :
      (h : TabInitialUrlHelper lib) (ns : List (Bool × Navigation lib))
      → h.captured ≡ false
      → h.user_locked ≡ false
      → Captured ns (finish_all h ns)
  unfolding finish_all
  finish_all-first h [] c l = nothing [] h tt c l
  finish_all-first h ((s, n) ∷ ns) c l =
      gate_first s h n ns (is_captured_from lib n) c l refl
        (finish_all-first (did_finish_navigation lib s h n).0 ns)
