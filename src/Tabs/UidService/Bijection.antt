-- ===== src/Tabs/UidService/Bijection.antt =====
-- The two maps of the service are inverse to each other.
use mathlib.Core.Path.{subst}
use roamux.Base.{
  ℕ, String, ◌≡◌, sym, ap, ◌⊎◌, inl, inr, true, false, none, some, arith, ◌==◌, if◌then◌else◌,
  Bool-cases, Option-cases, str_eq, str_eq_iff, str_eq_refl, lookup, erase, lookup-erase_same,
  lookup-erase_other,
}
use roamux.Tabs.UidService.{TabUidService, get_uid_for_tab, tab_of_uid, is_live, unregister, bind}

pub record Inv (s : TabUidService) : Type 0 where
  pub uids :
      (tab : ℕ) (uid : String) → get_uid_for_tab s tab ≡ some uid → tab_of_uid s uid ≡ some tab
  pub tabs :
      (tab : ℕ) (uid : String) → tab_of_uid s uid ≡ some tab → get_uid_for_tab s tab ≡ some uid

eq_sound : (a b : ℕ) → (a == b) ≡ true → a ≡ b
eq_sound a b e = ground arith

str_eq_sound : (a b : String) → str_eq a b ≡ true → a ≡ b
str_eq_sound a b e = (str_eq_iff a b).0 e

pub bind-uid :
    (s : TabUidService) (tab i : ℕ) (uid : String)
    → get_uid_for_tab (bind s tab uid) i ≡ (if tab == i then some uid else get_uid_for_tab s i)
unfolding get_uid_for_tab bind
bind-uid s tab i uid =
    ground (arith, lookup-erase_other {V = String} ◌==◌ eq_sound tab i s.uid_by_tab)

bind-tab :
    (s : TabUidService) (tab : ℕ) (uid w : String)
    → tab_of_uid (bind s tab uid) w ≡ (if str_eq uid w then some tab else tab_of_uid s w)
unfolding tab_of_uid bind
bind-tab s tab uid w =
    ground (arith, lookup-erase_other {V = ℕ} str_eq str_eq_sound uid w s.tab_by_uid)

abbrev pub forget : TabUidService → ℕ → String → TabUidService
forget s tab uid = record {
  uid_by_tab = erase ◌==◌ tab s.uid_by_tab;
  tab_by_uid = erase str_eq uid s.tab_by_uid;
}

pub forget-uid :
    (s : TabUidService) (tab i : ℕ) (uid : String)
    → get_uid_for_tab (forget s tab uid) i ≡ (if tab == i then none else get_uid_for_tab s i)
unfolding get_uid_for_tab
forget-uid s tab i uid = elim (Bool-cases (tab == i)) [
  | inl e ↦
      subst
        (λ j.
          lookup ◌==◌ j (erase ◌==◌ tab s.uid_by_tab)
          ≡ (if tab == j then none else lookup ◌==◌ j s.uid_by_tab))
        (eq_sound tab i e) (ground (arith, lookup-erase_same {V = String} ◌==◌ tab s.uid_by_tab))
  | inr e ↦ ground (arith, e, lookup-erase_other {V = String} ◌==◌ eq_sound tab i s.uid_by_tab)
]

forget-tab :
    (s : TabUidService) (tab : ℕ) (uid w : String)
    → tab_of_uid (forget s tab uid) w ≡ (if str_eq uid w then none else tab_of_uid s w)
unfolding tab_of_uid
forget-tab s tab uid w = elim (Bool-cases (str_eq uid w)) [
  | inl e ↦
      subst
        (λ x.
          lookup str_eq x (erase str_eq uid s.tab_by_uid)
          ≡ (if str_eq uid x then none else lookup str_eq x s.tab_by_uid))
        (str_eq_sound uid w e)
        (ground (arith, str_eq_refl uid, lookup-erase_same {V = ℕ} str_eq uid s.tab_by_uid))
  | inr e ↦ ground (arith, e, lookup-erase_other {V = ℕ} str_eq str_eq_sound uid w s.tab_by_uid)
]

same_uid :
    (s : TabUidService) (uid w : String) → str_eq uid w ≡ true → tab_of_uid s w ≡ tab_of_uid s uid
same_uid s uid w e = ap (tab_of_uid s) (sym (str_eq_sound uid w e))

same_tab :
    (s : TabUidService) (tab i : ℕ)
    → (tab == i) ≡ true
    → get_uid_for_tab s i ≡ get_uid_for_tab s tab
same_tab s tab i e = ap (get_uid_for_tab s) (sym (eq_sound tab i e))

forget-Inv :
    (s : TabUidService) (tab : ℕ) (uid : String)
    → Inv s
    → get_uid_for_tab s tab ≡ some uid
    → Inv (forget s tab uid)
forget-Inv s tab uid v h = record {
  uids = λ i w e. ground (
    arith,
    e,
    h,
    forget-uid s tab i uid,
    forget-tab s tab uid w,
    v.uids i w,
    v.uids tab uid h,
    same_uid s uid w,
  );
  tabs = λ i w e. ground (
    arith,
    e,
    h,
    forget-uid s tab i uid,
    forget-tab s tab uid w,
    v.tabs i w,
    v.uids tab uid h,
    same_tab s tab i,
    str_eq_refl uid,
  );
}

pub bind-Inv :
    (s : TabUidService) (tab : ℕ) (uid : String)
    → Inv s
    → get_uid_for_tab s tab ≡ none
    → tab_of_uid s uid ≡ none
    → Inv (bind s tab uid)
bind-Inv s tab uid v h k = record {
  uids = λ i w e. ground (
    arith,
    e,
    h,
    k,
    bind-uid s tab i uid,
    bind-tab s tab uid w,
    v.uids i w,
    same_uid s uid w,
    str_eq_refl uid,
    eq_sound tab i,
  );
  tabs = λ i w e. ground (
    arith,
    e,
    h,
    k,
    bind-uid s tab i uid,
    bind-tab s tab uid w,
    v.tabs i w,
    same_tab s tab i,
    str_eq_sound uid w,
  );
}

pub unregister-eq :
    (s : TabUidService) (tab : ℕ)
    → ((get_uid_for_tab s tab ≡ none) × (unregister s tab ≡ s))
      ⊎ ((uid : String) × ((get_uid_for_tab s tab ≡ some uid)
            × (unregister s tab ≡ forget s tab uid)))
unfolding unregister
unregister-eq s tab = elim (Option-cases (get_uid_for_tab s tab)) [
  | inl n ↦ inl (n, ground (arith, n))
  | inr (uid, n) ↦ inr (uid, (n, ground (arith, n)))
]

-- What the binding after an unregistration needs.
abbrev pub Ready : TabUidService → ℕ → Type 0
Ready t tab = Inv t × (get_uid_for_tab t tab ≡ none)

pub unregister-Ready : (s : TabUidService) (tab : ℕ) → Inv s → Ready (unregister s tab) tab
unregister-Ready s tab v = elim (unregister-eq s tab) [
  | inl (n, e) ↦ subst (λ t. Ready t tab) (sym e) (v, n)
  | inr (uid, (n, e)) ↦
      subst (λ t. Ready t tab) (sym e)
        (forget-Inv s tab uid v n, ground (arith, forget-uid s tab tab uid))
]

unregister-not_live :
    (s : TabUidService) (tab : ℕ) (w : String)
    → tab_of_uid s w ≡ none
    → tab_of_uid (unregister s tab) w ≡ none
unregister-not_live s tab w h = elim (unregister-eq s tab) [
  | inl (n, e) ↦ subst (λ t. tab_of_uid t w ≡ none) (sym e) h
  | inr (uid, (n, e)) ↦
      subst (λ t. tab_of_uid t w ≡ none) (sym e) (ground (arith, forget-tab s tab uid w, h))
]

pub not_live : (s : TabUidService) (w : String) → is_live s w ≡ false → tab_of_uid s w ≡ none
unfolding is_live
not_live s w h = elim (Option-cases (tab_of_uid s w)) [
  | inl n ↦ n
  | inr (tab, n) ↦ ground (arith, n, h)
]

pub rebind-Inv :
    (s : TabUidService) (tab : ℕ) (w : String)
    → Inv s
    → is_live s w ≡ false
    → Inv (bind (unregister s tab) tab w)
rebind-Inv s tab w v h =
    let r = unregister-Ready s tab v in
    bind-Inv (unregister s tab) tab w r.0 r.1 (unregister-not_live s tab w (not_live s w h))
