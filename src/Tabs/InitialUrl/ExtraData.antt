-- ===== src/Tabs/InitialUrl/ExtraData.antt =====
-- The text that the session keeps of an initial url.
use mathlib.Core.Path.{subst}
use roamux.Base.{
  ℕ, String, ◌≡◌, refl, sym, ap, ◌⊎◌, inl, inr, Bool, true, false, not, ◌&&◌, Option, none, some,
  arith, ◌==◌, if◌then◌else◌, if_intro, negated, is_empty,
}
use roamux.Tabs.InitialUrl.{
  code, UrlLibrary, TabInitialUrlHelper, is_allowed_initial_url, encode_extra_data, decode_parts,
  decode_extra_data, set_restored_initial_url, maybe_create, populate_extra_data, restore_decoded,
  set_pending_restored_initial_url,
}

module _ (lib : UrlLibrary) where
  -- A url that GURL reads back from its own text.
  pub record ReadsBack (url : lib.Url) : Type 0 where
    pub parses : lib.parse (lib.spec url) ≡ url
    pub present : is_empty (lib.spec url) ≡ false

  decode_parts-allowed :
      (first : ℕ) (url : lib.Url)
      → is_allowed_initial_url lib url ≡ true
      → first ≡ b'0' ⊎ first ≡ b'1'
      → decode_parts lib first url ≡ some (url, first == b'1')
  unfolding decode_parts is_allowed_initial_url
  decode_parts-allowed first url a (inl e) = ground (arith, a, e)
  decode_parts-allowed first url a (inr e) = ground (arith, a, e)

  -- An allowed url that GURL reads back comes out of its text with its lock.
  pub decode-encode :
      (url : lib.Url) (locked : Bool)
      → is_allowed_initial_url lib url ≡ true
      → ReadsBack url
      → decode_extra_data lib (encode_extra_data lib url locked) ≡ some (url, locked)
  unfolding decode_extra_data encode_extra_data
  decode-encode url true a r = rw (r.present, r.parses) (decode_parts-allowed b'1' url a (inr refl))
  decode-encode url false a r =
      rw (r.present, r.parses) (decode_parts-allowed b'0' url a (inl refl))

  same_pair :
      (parsed url : lib.Url) (b locked : Bool)
      → ◌≡◌ {A = Option (lib.Url × Bool)} (some (parsed, b)) (some (url, locked))
      → parsed ≡ url
  same_pair parsed url b locked h = cc

  abbrev Sound : lib.Url → Bool → Option (lib.Url × Bool) → Type 0
  Sound url locked o = o ≡ some (url, locked) → is_allowed_initial_url lib url ≡ true

  no_pair : (url : lib.Url) (locked : Bool) → Sound url locked none
  no_pair url locked h = absurd (ground (arith, h))

  decode_parts-Sound :
      (first : ℕ) (parsed url : lib.Url) (locked : Bool)
      → Sound url locked (decode_parts lib first parsed)
  unfolding decode_parts
  decode_parts-Sound first parsed url locked =
      if_intro (Sound url locked) (not (first == b'0') && not (first == b'1')) _ _
        (λ e. no_pair url locked)
        (λ e.
          if_intro (Sound url locked) (not (lib.is_valid parsed)) _ _ (λ k. no_pair url locked)
            (λ k.
              if_intro (Sound url locked) (not (is_allowed_initial_url lib parsed)) none
                (some (parsed, first == b'1')) (λ m. no_pair url locked)
                (λ m h.
                  subst (λ u. is_allowed_initial_url lib u ≡ true)
                    (same_pair parsed url (first == b'1') locked h)
                    (negated (is_allowed_initial_url lib parsed) m))))

  pub decode-allowed :
      (text : String) (url : lib.Url) (locked : Bool)
      → decode_extra_data lib text ≡ some (url, locked)
      → is_allowed_initial_url lib url ≡ true
  unfolding decode_extra_data
  decode-allowed String.[] url locked h = absurd (ground (arith, h))
  decode-allowed (String.◌∷◌ c rest) url locked h =
      decode_parts-Sound (code c) (lib.parse rest) url locked (ground (arith, h))

  -- A captured helper with an allowed url comes back from the text that was kept of it with its url and
  -- its lock, captured, and due to be written again.
  pub restore-populate :
      (h : TabInitialUrlHelper lib)
      → h.captured ≡ true
      → is_allowed_initial_url lib h.initial_url ≡ true
      → ReadsBack h.initial_url
      → set_pending_restored_initial_url lib true none (populate_extra_data lib (some h))
        ≡ some (record h { pending_session_write = true })
  unfolding set_pending_restored_initial_url populate_extra_data restore_decoded maybe_create
      set_restored_initial_url
  restore-populate h c a r =
      let text = encode_extra_data lib h.initial_url h.user_locked in
      subst
        (λ b.
          set_pending_restored_initial_url lib true none (if b then some text else none)
          ≡ some (record h { captured = b; pending_session_write = true }))
        (sym c) (ap (restore_decoded lib true none) (decode-encode h.initial_url h.user_locked a r))
