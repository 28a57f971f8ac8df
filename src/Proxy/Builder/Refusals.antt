-- ===== src/Proxy/Builder/Refusals.antt =====
-- Why an input is refused.
use mathlib.Core.Path.{subst}
use roamux.Base.{
  ℕ, ◌≤◌, String, ◌≡◌, refl, ap, ◌≢◌, ◌⊎◌, inl, inr, true, false, none, List, [], ◌∷◌, ◌++◌, arith,
  Option-cases, codes, SomeCode,
}
use roamux.Proxy.Builder.{Scheme, Input, Net, Bypass, refused, add_entries}
use roamux.Proxy.Builder.Manual.{scheme_name, PortIs, AddsAll}
use roamux.Proxy.Builder.Accepted.{ReadsBackAs}

abbrev pub ListChar : ℕ → Type 0
ListChar c = (c ≡ b',') ⊎ ((c ≡ b';') ⊎ (c ≡ b'='))

-- A space, a control character or the beginning of a path, a query or a fragment.
abbrev pub OutsideChar : ℕ → Type 0
OutsideChar c = (c ≤ 32) ⊎ ((c ≡ 127) ⊎ ((c ≡ b'/') ⊎ ((c ≡ b'?') ⊎ (c ≡ b'#'))))

module _ (net : Net) where
  abbrev pub server_of : Scheme → ℕ → Input → net.ProxyServer
  server_of scheme port i = net.from_scheme_host_and_port scheme i.host port

  -- The parser reads the uri of the server back as that server alone.
  abbrev pub Survives : net.ProxyServer → Type 0
  Survives server =
      let uri = net.proxy_server_to_proxy_uri server in
      (net.is_proxy_list uri ≡ true) × ReadsBackAs net (net.single_proxies uri) server

  -- The refusals of a manual input, each with what is wrong with it.
  pub data RefusesManual (i : Input) : String → String → Type 0 where
    unknown_scheme : ((x : Scheme) → scheme_name x ≢ i.scheme) → RefusesManual i "scheme" "scheme"
    user_for_socks5 :
        i.scheme ≡ "socks5"
        → SomeCode (λ c. c ≡ b'@') (codes i.host)
        → RefusesManual i "host" "socks5_no_auth"
    user :
        (i.scheme ≡ "http") ⊎ (i.scheme ≡ "https")
        → SomeCode (λ c. c ≡ b'@') (codes i.host)
        → RefusesManual i "host" "userinfo"
    list_in_host :
        SomeCode ListChar (codes i.host) ⊎ SomeCode ListChar (codes (net.unescape i.host))
        → RefusesManual i "host" "list_syntax"
    no_host : i.host ≡ "" → RefusesManual i "host" "host"
    no_endpoint :
        SomeCode OutsideChar (codes i.host) ⊎ SomeCode OutsideChar (codes (net.unescape i.host))
        → RefusesManual i "host" "not_an_endpoint"
    bad_port : ((n : ℕ) → ¬ PortIs net i.port n) → RefusesManual i "port" "port"
    bad_server :
        (x : Scheme) (n : ℕ)
        → scheme_name x ≡ i.scheme
        → PortIs net i.port n
        → net.is_valid (server_of x n i) ≡ false
        → RefusesManual i "host" "host"
    not_single :
        (x : Scheme) (n : ℕ)
        → scheme_name x ≡ i.scheme
        → PortIs net i.port n
        → ¬ Survives (server_of x n i)
        → RefusesManual i "host" "list_syntax"
    bad_entry :
        (before after : List String) (entry : String) (r : net.BypassRules)
        → net.split_bypass_list i.bypass_list ≡ before ++ entry ∷ after
        → AddsAll net net.no_rules before r
        → net.add_rule_from_string r entry ≡ none
        → RefusesManual i "bypass" entry

  -- The first entry that is refused, and what was taken before it.
  pub record FirstRefused (r : net.BypassRules) (entries : List String) (entry : String)
      : Type 0 where
    pub before : List String
    pub after : List String
    pub taken : net.BypassRules
    pub here : entries ≡ before ++ entry ∷ after
    pub takes : AddsAll net r before taken
    pub refuses : net.add_rule_from_string taken entry ≡ none

  same_entry : (e e' : String) → ◌≡◌ {A = Bypass net} (refused e) (refused e') → e ≡ e'
  same_entry e e' h = cc

  pub add_entries-FirstRefused :
      (r : net.BypassRules) (entries : List String) (entry : String)
      → add_entries net r entries ≡ refused entry
      → FirstRefused r entries entry
  unfolding add_entries
  add_entries-FirstRefused r [] entry h = absurd (ground (arith, h))
  add_entries-FirstRefused r (e ∷ es) entry h = elim (Option-cases (net.add_rule_from_string r e)) [
    | inl n ↦
        let same = same_entry e entry (ground (arith, h, n)) in
        record {
          before = [];
          after = es;
          taken = r;
          here = ap (λ x. x ∷ es) same;
          takes = refl;
          refuses = subst (λ x. net.add_rule_from_string r x ≡ none) same n;
        }
    | inr (q, n) ↦
        let v = add_entries-FirstRefused q es entry (ground (arith, h, n)) in
        record {
          before = e ∷ v.before;
          after = v.after;
          taken = v.taken;
          here = ap (λ xs. e ∷ xs) v.here;
          takes = (q, n, v.takes);
          refuses = v.refuses;
        }
  ]

  -- The refusals of the address of a PAC script.
  pub data RefusesPac (i : Input) : String → String → Type 0 where
    bad_url : net.url_is_valid (net.parse_url i.pac_url) ≡ false → RefusesPac i "pac_url" "pac_url"
    bad_pac_scheme :
        net.scheme_is (net.parse_url i.pac_url) "http" ≡ false
        → net.scheme_is (net.parse_url i.pac_url) "https" ≡ false
        → net.scheme_is (net.parse_url i.pac_url) "data" ≡ false
        → RefusesPac i "pac_url" "pac_scheme"
    bad_data :
        net.scheme_is (net.parse_url i.pac_url) "data" ≡ true
        → net.data_url_parses (net.parse_url i.pac_url) ≡ false
        → RefusesPac i "pac_url" "pac_data_url"
