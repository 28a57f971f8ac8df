-- ===== src/Proxy/Builder/HostReasons.antt =====
-- The reasons that the tests of the host give.
use roamux.Base.{
  ℕ, String, ◌≡◌, sym, inl, inr, true, ◌||◌, Option, none, some, arith, leb, ◌==◌, if◌then◌else◌,
  ==_iff, Bool-cases, if_intro, str_eq_iff, is_empty, codes, SomeCode, any_code-true,
}
use roamux.Proxy.Builder.{
  Scheme, http, https, socks5, Input, Net, is_list_syntax, has_list_syntax, has_credentials,
  is_space_or_control, has_space_or_control, is_path_syntax, has_path_syntax, is_socks5,
  host_reason,
}
use roamux.Proxy.Builder.Manual.{scheme_name}
use roamux.Proxy.Builder.Refusals.{
  ListChar, OutsideChar, RefusesManual, user_for_socks5, user, list_in_host, no_host, no_endpoint,
}

list_char : (c : ℕ) → is_list_syntax c ≡ true → ListChar c
list_char c h = elim (Bool-cases (c == b',')) [
  | inl e ↦ inl ((==_iff c b',').0 e)
  | inr e ↦ elim (Bool-cases (c == b';')) [
    | inl k ↦ inr (inl ((==_iff c b';').0 k))
    | inr k ↦ inr (inr ((==_iff c b'=').0 (ground (arith, h, e, k))))
  ]
]

path_char : (c : ℕ) → is_path_syntax c ≡ true → OutsideChar c
path_char c h = elim (Bool-cases (c == b'/')) [
  | inl e ↦ inr (inr (inl ((==_iff c b'/').0 e)))
  | inr e ↦ elim (Bool-cases (c == b'?')) [
    | inl k ↦ inr (inr (inr (inl ((==_iff c b'?').0 k))))
    | inr k ↦ inr (inr (inr (inr ((==_iff c b'#').0 (ground (arith, h, e, k))))))
  ]
]

space_char : (c : ℕ) → is_space_or_control c ≡ true → OutsideChar c
space_char c h = elim (Bool-cases (leb c b' ')) [
  | inl e ↦ inl (ground (arith, e))
  | inr e ↦ inr (inl ((==_iff c 0x7f).0 (ground (arith, h, e))))
]

module _ (net : Net) where
  abbrev pub Sound : Input → Option String → Type 0
  Sound i none = Unit
  Sound i (some reason) = RefusesManual net i "host" reason

  user-Sound :
      (i : Input) (scheme : Scheme)
      → scheme_name scheme ≡ i.scheme
      → has_credentials i.host ≡ true
      → Sound i (some (if is_socks5 scheme then "socks5_no_auth" else "userinfo"))
  unfolding scheme_name
  user-Sound i scheme n h =
      let found =
        any_code-true (λ c. c == b'@') (λ c. c ≡ b'@') (codes i.host) (λ c. (==_iff c b'@').0) h in
      by_scheme scheme n found
    where
      by_scheme :
          (x : Scheme)
          → scheme_name x ≡ i.scheme
          → SomeCode (λ c. c ≡ b'@') (codes i.host)
          → Sound i (some (if is_socks5 x then "socks5_no_auth" else "userinfo"))
      by_scheme http n found = user (inl (sym n)) found
      by_scheme https n found = user (inr (sym n)) found
      by_scheme socks5 n found = user_for_socks5 (sym n) found

  list_sound :
      (i : Input)
      → (has_list_syntax i.host || has_list_syntax (net.unescape i.host)) ≡ true
      → RefusesManual net i "host" "list_syntax"
  list_sound i h = elim (Bool-cases (has_list_syntax i.host)) [
    | inl e ↦ list_in_host (inl (any_code-true is_list_syntax ListChar (codes i.host) list_char e))
    | inr e ↦ list_in_host (
        inr (
          any_code-true is_list_syntax ListChar (codes (net.unescape i.host)) list_char
            (ground (arith, h, e))))
  ]

  outside_sound :
      (i : Input)
      → (has_path_syntax i.host
          || has_path_syntax (net.unescape i.host)
          || has_space_or_control i.host
          || has_space_or_control (net.unescape i.host))
        ≡ true
      → RefusesManual net i "host" "not_an_endpoint"
  outside_sound i h =
      let decoded = codes (net.unescape i.host) in
      elim (Bool-cases (has_path_syntax i.host)) [
        | inl e ↦
            no_endpoint (inl (any_code-true is_path_syntax OutsideChar (codes i.host) path_char e))
        | inr a ↦ elim (Bool-cases (has_path_syntax (net.unescape i.host))) [
          | inl e ↦ no_endpoint (inr (any_code-true is_path_syntax OutsideChar decoded path_char e))
          | inr b ↦ elim (Bool-cases (has_space_or_control i.host)) [
            | inl e ↦
                no_endpoint
                  (inl (any_code-true is_space_or_control OutsideChar (codes i.host) space_char e))
            | inr c ↦ no_endpoint (
                inr (
                  any_code-true is_space_or_control OutsideChar decoded space_char
                    (ground (arith, h, a, b, c))))
          ]
        ]
      ]

  pub host_reason-Sound :
      (i : Input) (scheme : Scheme)
      → scheme_name scheme ≡ i.scheme
      → Sound i (host_reason net scheme i.host)
  unfolding host_reason
  host_reason-Sound i scheme n =
      if_intro (Sound i) (has_credentials i.host) _ _ (user-Sound i scheme n) (λ a.
        if_intro (Sound i) (has_list_syntax i.host || has_list_syntax (net.unescape i.host)) _ _
          (list_sound i)
          (λ b.
            if_intro (Sound i) (is_empty i.host) _ _ (λ e. no_host ((str_eq_iff i.host "").0 e))
              (λ c.
                if_intro (Sound i)
                  (has_path_syntax i.host
                    || has_path_syntax (net.unescape i.host)
                    || has_space_or_control i.host
                    || has_space_or_control (net.unescape i.host))
                  _ _ (outside_sound i) (λ d. tt))))
