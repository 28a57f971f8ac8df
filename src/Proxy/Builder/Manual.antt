-- ===== src/Proxy/Builder/Manual.antt =====
-- When the parts of a manual endpoint pass their tests.
use mathlib.Core.Path.{subst}
use roamux.Base.{
  ℕ, ◌≤◌, ◌<◌, String, ◌≡◌, refl, sym, ap, ◌∙◌, ◌≢◌, ◌↔◌, inl, inr, Bool, true, false, not, ◌||◌,
  Option, none, some, List, [], ◌∷◌, arith, ltb, ◌==◌, Option-cases, str_eq_iff, is_empty, codes,
  any_code, AllCodes, any_code-false, AllCodes-any,
}
use roamux.Proxy.Builder.{
  Scheme, http, https, socks5, Net, is_list_syntax, has_list_syntax, has_credentials,
  is_space_or_control, has_space_or_control, is_path_syntax, has_path_syntax, contains_only_digits,
  parse_scheme, port_in_range, parse_port, Bypass, rules, add_entries, host_reason,
}

-- The characters that the host and its decoded form may have.
abbrev pub EndpointChar : ℕ → Type 0
EndpointChar c =
    (32 < c)
    × (c ≢ 0x7f)
    × (c ≢ b',')
    × (c ≢ b';')
    × (c ≢ b'=')
    × (c ≢ b'/')
    × (c ≢ b'?')
    × (c ≢ b'#')

abbrev pub Digit : ℕ → Type 0
Digit c = (b'0' ≤ c) × (c ≤ b'9')

unfoldable pub scheme_name : Scheme → String
scheme_name http = "http"
scheme_name https = "https"
scheme_name socks5 = "socks5"

pub parse_scheme_iff : (s : String) (x : Scheme) → (parse_scheme s ≡ some x) ↔ (scheme_name x ≡ s)
unfolding parse_scheme scheme_name
parse_scheme_iff s http = (
  λ h. ground (arith, h, str_eq_iff s "http"),
  λ h. subst (λ t. parse_scheme t ≡ some http) h refl,
)
parse_scheme_iff s https = (
  λ h. ground (arith, h, str_eq_iff s "https"),
  λ h. subst (λ t. parse_scheme t ≡ some https) h refl,
)
parse_scheme_iff s socks5 = (
  λ h. ground (arith, h, str_eq_iff s "socks5"),
  λ h. subst (λ t. parse_scheme t ≡ some socks5) h refl,
)

abbrev is_bad : ℕ → Bool
is_bad c = is_list_syntax c || is_path_syntax c || is_space_or_control c

is_bad_iff : (c : ℕ) → (is_bad c ≡ false) ↔ EndpointChar c
is_bad_iff c = (λ h. ground (arith, h), λ h. ground (arith, h))

any_code-or :
    (p q r : ℕ → Bool) (cs : List ℕ)
    → any_code (λ c. p c || q c || r c) cs ≡ (any_code p cs || any_code q cs || any_code r cs)
any_code-or p q r [] = refl
any_code-or p q r (c ∷ cs) = ground (arith, any_code-or p q r cs)

-- The three tests of a text for characters that no endpoint has.
pub endpoint_chars_iff :
    (s : String)
    → ((has_list_syntax s || has_path_syntax s || has_space_or_control s) ≡ false)
      ↔ AllCodes EndpointChar (codes s)
endpoint_chars_iff s =
    let e = any_code-or is_list_syntax is_path_syntax is_space_or_control (codes s) in
    (
      λ h. any_code-false is_bad EndpointChar (codes s) (λ c. (is_bad_iff c).0) (e ∙ h),
      λ h. sym e ∙ AllCodes-any is_bad EndpointChar (codes s) (λ c. (is_bad_iff c).1) h,
    )

pub has_credentials_iff :
    (s : String) → (has_credentials s ≡ false) ↔ AllCodes (λ c. c ≢ b'@') (codes s)
has_credentials_iff s = (
  any_code-false (λ c. c == b'@') (λ c. c ≢ b'@') (codes s) (λ c h. ground (arith, h)),
  AllCodes-any (λ c. c == b'@') (λ c. c ≢ b'@') (codes s) (λ c h. ground (arith, h)),
)

pub digits_iff : (s : String) → (contains_only_digits s ≡ true) ↔ AllCodes Digit (codes s)
digits_iff s =
    let p : ℕ → Bool = λ c. ltb c b'0' || ltb b'9' c in
    (
      λ h.
          any_code-false p Digit (codes s) (λ c k. (ground (arith, k), ground (arith, k)))
            (ground (arith, h)),
      λ h. ap not (AllCodes-any p Digit (codes s) (λ c k. ground (arith, k)) h),
    )

module _ (net : Net) where
  -- The host passes all tests up to the port.
  pub record HostIsClean (host : String) : Type 0 where
    pub present : is_empty host ≡ false
    pub no_user : AllCodes (λ c. c ≢ b'@') (codes host)
    pub plain : AllCodes EndpointChar (codes host)
    pub plain_decoded : AllCodes EndpointChar (codes (net.unescape host))

  pub host_reason_iff :
      (scheme : Scheme) (host : String) → (host_reason net scheme host ≡ none) ↔ HostIsClean host
  unfolding host_reason
  host_reason_iff scheme host = (
    λ h. record {
      present = ground (arith, h);
      no_user = (has_credentials_iff host).0 (ground (arith, h));
      plain = (endpoint_chars_iff host).0 (ground (arith, h));
      plain_decoded = (endpoint_chars_iff (net.unescape host)).0 (ground (arith, h));
    },
    λ v. ground (
      arith,
      v.present,
      (has_credentials_iff host).1 v.no_user,
      (endpoint_chars_iff host).1 v.plain,
      (endpoint_chars_iff (net.unescape host)).1 v.plain_decoded,
    ),
  )

  -- The port is written in digits and names a number from 1 to 65535.
  pub record PortIs (port : String) (n : ℕ) : Type 0 where
    pub present : is_empty port ≡ false
    pub digits : AllCodes Digit (codes port)
    pub reads : net.string_to_uint port ≡ some n
    pub least : 1 ≤ n
    pub most : n ≤ 65535

  port_in_range_iff :
      (o : Option ℕ) (n : ℕ)
      → (port_in_range net o ≡ some n) ↔ ((o ≡ some n) × (1 ≤ n) × (n ≤ 65535))
  port_in_range_iff none n = (λ h. ground (arith, h), λ h. ground (arith, h.0))
  port_in_range_iff (some k) n = (
    λ h. (ground (arith, h), ground (arith, h), ground (arith, h)),
    λ h. ground (arith, h.0, h.1, h.2),
  )

  pub parse_port_iff : (port : String) (n : ℕ) → (parse_port net port ≡ some n) ↔ PortIs port n
  unfolding parse_port
  parse_port_iff port n =
      let r = port_in_range_iff (net.string_to_uint port) n in
      (
        λ h.
            let k = r.0 (ground (arith, h)) in
            record {
              present = ground (arith, h);
              digits = (digits_iff port).0 (ground (arith, h));
              reads = k.0;
              least = k.1;
              most = k.2;
            },
        λ v.
            ground (arith, v.present, (digits_iff port).1 v.digits, r.1 (v.reads, v.least, v.most)),
      )

  -- Each entry in turn is taken.
  abbrev pub AddsAll : net.BypassRules → List String → net.BypassRules → Type 0
  AddsAll r [] r' = r ≡ r'
  AddsAll r (entry ∷ entries) r' =
      (q : net.BypassRules) × (net.add_rule_from_string r entry ≡ some q) × AddsAll q entries r'

  rules_injective : (r r' : net.BypassRules) → ◌≡◌ {A = Bypass net} (rules r) (rules r') → r ≡ r'
  rules_injective r r' h = cc

  pub add_entries_sound :
      (r : net.BypassRules) (entries : List String) (r' : net.BypassRules)
      → add_entries net r entries ≡ rules r'
      → AddsAll r entries r'
  unfolding add_entries
  add_entries_sound r [] r' h = cc
  add_entries_sound r (entry ∷ entries) r' h =
      elim (Option-cases (net.add_rule_from_string r entry)) [
        | inl n ↦ absurd (ground (arith, h, n))
        | inr (q, n) ↦ (q, n, add_entries_sound q entries r' (ground (arith, h, n)))
      ]

  pub add_entries_complete :
      (r : net.BypassRules) (entries : List String) (r' : net.BypassRules)
      → AddsAll r entries r'
      → add_entries net r entries ≡ rules r'
  unfolding add_entries
  add_entries_complete r [] r' h = ap rules h
  add_entries_complete r (entry ∷ entries) r' h =
      ground (arith, h.1, add_entries_complete h.0 entries r' h.2)
