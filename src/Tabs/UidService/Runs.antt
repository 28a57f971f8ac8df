-- ===== src/Tabs/UidService/Runs.antt =====
-- The service over any calls, and the incumbent of a uid.
use mathlib.Core.Path.{subst}
use roamux.Base.{
  ℕ, String, ◌≡◌, refl, sym, ap, ◌∙◌, ◌↔◌, inl, inr, Bool, true, false, not, ◌||◌, some, List, [],
  ◌∷◌, arith, ◌==◌, if_intro,
}
use roamux.Tabs.UidService.{
  TabUidService, get_uid_for_tab, tab_of_uid, is_live, unregister, bind, mint_and_register,
  adopt_or_restamp,
}
use roamux.Tabs.UidService.Bijection.{
  Inv, bind-uid, forget-uid, unregister-eq, unregister-Ready, rebind-Inv,
}

pub data Call : Type 0 where
  mints : String → ℕ → Call
  adopts : String → ℕ → String → Call
  unregisters : ℕ → Call

unregister_other :
    (s : TabUidService) (tab other : ℕ)
    → (tab == other) ≡ false
    → get_uid_for_tab (unregister s tab) other ≡ get_uid_for_tab s other
unregister_other s tab other d = elim (unregister-eq s tab) [
  | inl (n, e) ↦ ap (λ t. get_uid_for_tab t other) e
  | inr (uid, (n, e)) ↦
      ap (λ t. get_uid_for_tab t other) e ∙ ground (arith, d, forget-uid s tab other uid)
]

bound_is_live :
    (s : TabUidService) (tab : ℕ) (uid : String)
    → Inv s
    → get_uid_for_tab s tab ≡ some uid
    → is_live s uid ≡ true
unfolding is_live
bound_is_live s tab uid v h = rw (v.uids tab uid h) refl

module _ (well_formed : String → Bool) where
  unfoldable pub call : TabUidService → Call → TabUidService
  call s (mints generated tab) = (mint_and_register s generated tab).0
  call s (adopts generated tab restored) = (adopt_or_restamp well_formed s generated tab restored).0
  call s (unregisters tab) = unregister s tab

  -- No uid that is generated is in use.
  abbrev pub NewUid : TabUidService → Call → Type 0
  NewUid s (mints generated tab) = is_live s generated ≡ false
  NewUid s (adopts generated tab restored) = is_live s generated ≡ false
  NewUid s (unregisters tab) = Unit

  pub run : TabUidService → List Call → TabUidService
  unfolding call
  run s [] = s
  run s (c ∷ cs) = run (call s c) cs

  abbrev pub NewUids : TabUidService → List Call → Type 0
  NewUids s [] = Unit
  NewUids s (c ∷ cs) = NewUid s c × NewUids (call s c) cs

  mint-Inv :
      (s : TabUidService) (generated : String) (tab : ℕ)
      → Inv s
      → is_live s generated ≡ false
      → Inv (mint_and_register s generated tab).0
  unfolding mint_and_register
  mint-Inv s generated tab v h = rebind-Inv s tab generated v h

  call-Inv : (s : TabUidService) (c : Call) → NewUid s c → Inv s → Inv (call s c)
  unfolding call adopt_or_restamp
  call-Inv s (mints generated tab) h v = mint-Inv s generated tab v h
  call-Inv s (adopts generated tab restored) h v =
      if_intro (λ (r : TabUidService × String). Inv r.0)
        (not (well_formed restored) || is_live s restored) (mint_and_register s generated tab)
        (bind (unregister s tab) tab restored, restored) (λ e. mint-Inv s generated tab v h)
        (λ e. rebind-Inv s tab restored v (ground (arith, e)))
  call-Inv s (unregisters tab) h v = (unregister-Ready s tab v).0

  -- If no uid that is generated is in use at that moment, the two maps of a service stay inverse to
  -- each other over any calls: a tab has a uid exactly if that uid leads to the tab.
  pub run-inverse :
      (s : TabUidService) (cs : List Call)
      → Inv s
      → NewUids s cs
      → (tab : ℕ) (uid : String)
      → (get_uid_for_tab (run s cs) tab ≡ some uid) ↔ (tab_of_uid (run s cs) uid ≡ some tab)
  unfolding run
  run-inverse s [] v h tab uid = (v.uids tab uid, v.tabs tab uid)
  run-inverse s (c ∷ cs) v h tab uid = run-inverse (call s c) cs (call-Inv s c h.0 v) h.1 tab uid

  adopt-mints :
      (s : TabUidService) (generated restored : String) (tab : ℕ)
      → is_live s restored ≡ true
      → (adopt_or_restamp well_formed s generated tab restored).0
        ≡ bind (unregister s tab) tab generated
  unfolding adopt_or_restamp mint_and_register
  adopt-mints s generated restored tab h =
      if_intro (λ (r : TabUidService × String). r.0 ≡ bind (unregister s tab) tab generated)
        (not (well_formed restored) || is_live s restored) (mint_and_register s generated tab)
        (bind (unregister s tab) tab restored, restored) (λ e. refl) (λ e. ground (arith, e, h))

  -- A tab that comes with the uid of another tab gets the generated one instead, and the other tab
  -- keeps its uid.
  adopt-incumbent :
      (s : TabUidService) (generated restored : String) (tab other : ℕ)
      → Inv s
      → get_uid_for_tab s other ≡ some restored
      → (tab == other) ≡ false
      → (get_uid_for_tab (adopt_or_restamp well_formed s generated tab restored).0 other
          ≡ some restored)
        × (get_uid_for_tab (adopt_or_restamp well_formed s generated tab restored).0 tab
            ≡ some generated)
  adopt-incumbent s generated restored tab other v h d =
      subst
        (λ t. (get_uid_for_tab t other ≡ some restored) × (get_uid_for_tab t tab ≡ some generated))
        (sym (adopt-mints s generated restored tab (bound_is_live s other restored v h)))
        (
          ground (
            arith,
            d,
            h,
            bind-uid (unregister s tab) tab other generated,
            unregister_other s tab other d,
          ),
          ground (arith, bind-uid (unregister s tab) tab tab generated),
        )
