-- ===== src/Proxy/Builder/Accepted.antt =====
-- The manual configurations that are accepted, and what is stored for them.
use roamux.Base.{ℕ, String, ◌≡◌, refl, ◌↔◌, ◌⊎◌, inl, inr, true, List, [], ◌∷◌, arith, Option-cases}
use roamux.Proxy.Builder.{
  Scheme, Input, Net, parse_scheme, reject, accept, only_chain, survives_as_single_endpoint,
  parse_port, Bypass, rules, refused, add_entries, host_reason, build_rules, build_endpoint,
  build_manual,
}
use roamux.Proxy.Builder.Manual.{
  scheme_name, parse_scheme_iff, HostIsClean, host_reason_iff, PortIs, parse_port_iff, AddsAll,
  add_entries_sound, add_entries_complete,
}

module _ (net : Net) where
  -- The parser reads the uri as one list of one chain of one server, the given one.
  abbrev pub ReadsBackAs : List (List net.ProxyServer) → net.ProxyServer → Type 0
  ReadsBackAs chains server =
      (s : net.ProxyServer) × (chains ≡ (s ∷ []) ∷ []) × (net.same_server s server ≡ true)

  pub only_chain_iff :
      (server : net.ProxyServer) (chains : List (List net.ProxyServer))
      → (only_chain net server chains ≡ true) ↔ ReadsBackAs chains server
  only_chain_iff server [] = (λ h. absurd (ground (arith, h)), λ h. absurd (ground (arith, h.1)))
  only_chain_iff server ([] ∷ []) =
      (λ h. absurd (ground (arith, h)), λ h. absurd (ground (arith, h.1)))
  only_chain_iff server ((s ∷ []) ∷ []) = (λ h. (s, refl, h), λ h. ground (arith, h.1, h.2))
  only_chain_iff server ((s ∷ (t ∷ ts)) ∷ []) =
      (λ h. absurd (ground (arith, h)), λ h. absurd (ground (arith, h.1)))
  only_chain_iff server (c ∷ (d ∷ ds)) =
      (λ h. absurd (ground (arith, h)), λ h. absurd (ground (arith, h.1)))

  -- The endpoint is valid, survives the parser, and every bypass entry is taken.
  pub record EndpointIs (scheme : Scheme) (port : ℕ) (i : Input) (d : net.Dictionary) : Type 0 where
    pub valid : net.is_valid (net.from_scheme_host_and_port scheme i.host port) ≡ true
    pub is_list :
        net.is_proxy_list
          (net.proxy_server_to_proxy_uri (net.from_scheme_host_and_port scheme i.host port))
        ≡ true
    pub reads_back :
        ReadsBackAs
          (net.single_proxies
            (net.proxy_server_to_proxy_uri (net.from_scheme_host_and_port scheme i.host port)))
          (net.from_scheme_host_and_port scheme i.host port)
    pub rules_taken : net.BypassRules
    pub takes_all : AddsAll net net.no_rules (net.split_bypass_list i.bypass_list) rules_taken
    pub stores :
        net.create_fixed_servers
          (net.proxy_server_to_proxy_uri (net.from_scheme_host_and_port scheme i.host port))
          (net.rules_to_string rules_taken)
        ≡ d

  accept_injective : (x d : net.Dictionary) → accept x ≡ accept d → x ≡ d
  accept_injective x d h = cc

  reject-ne-accept :
      {A : Type 0} (field reason : String) (d : net.Dictionary) → reject field reason ≡ accept d → A
  reject-ne-accept field reason d h = absurd (ground (arith, h))

  rules-cases :
      (b : Bypass net) → ((r : net.BypassRules) × (b ≡ rules r)) ⊎ ((e : String) × (b ≡ refused e))
  rules-cases (rules r) = inl (r, refl)
  rules-cases (refused e) = inr (e, refl)

  build_endpoint_sound :
      (scheme : Scheme) (port : ℕ) (i : Input) (d : net.Dictionary)
      → build_endpoint net scheme port i ≡ accept d
      → EndpointIs scheme port i d
  unfolding build_endpoint survives_as_single_endpoint build_rules
  build_endpoint_sound scheme port i d h =
      let server = net.from_scheme_host_and_port scheme i.host port in
      let uri = net.proxy_server_to_proxy_uri server in
      elim (rules-cases (add_entries net net.no_rules (net.split_bypass_list i.bypass_list))) [
        | inr (e, n) ↦ absurd (ground (arith, h, n))
        | inl (r, n) ↦ record {
          valid = ground (arith, h, n);
          is_list = ground (arith, h, n);
          reads_back = (only_chain_iff server (net.single_proxies uri)).0 (ground (arith, h, n));
          rules_taken = r;
          takes_all = add_entries_sound net net.no_rules (net.split_bypass_list i.bypass_list) r n;
          stores =
              accept_injective (net.create_fixed_servers uri (net.rules_to_string r)) d
                (ground (arith, h, n));
        }
      ]

  build_endpoint_complete :
      (scheme : Scheme) (port : ℕ) (i : Input) (d : net.Dictionary)
      → EndpointIs scheme port i d
      → build_endpoint net scheme port i ≡ accept d
  unfolding build_endpoint survives_as_single_endpoint build_rules
  build_endpoint_complete scheme port i d v =
      let server = net.from_scheme_host_and_port scheme i.host port in
      let uri = net.proxy_server_to_proxy_uri server in
      ground (
        arith,
        v.valid,
        v.is_list,
        (only_chain_iff server (net.single_proxies uri)).1 v.reads_back,
        add_entries_complete net net.no_rules (net.split_bypass_list i.bypass_list) v.rules_taken
            v.takes_all,
        v.stores,
      )

  -- A manual configuration that is fit to be stored as `d`.
  pub record Fit (i : Input) (d : net.Dictionary) : Type 0 where
    pub scheme : Scheme
    pub named : scheme_name scheme ≡ i.scheme
    pub host : HostIsClean net i.host
    pub port : ℕ
    pub numbered : PortIs net i.port port
    pub endpoint : EndpointIs scheme port i d

  build_manual_sound : (i : Input) (d : net.Dictionary) → build_manual net i ≡ accept d → Fit i d
  unfolding build_manual
  build_manual_sound i d h = elim (Option-cases (parse_scheme i.scheme)) [
    | inl n ↦ absurd (ground (arith, h, n))
    | inr (scheme, n) ↦ elim (Option-cases (host_reason net scheme i.host)) [
      | inr (reason, k) ↦ absurd (ground (arith, h, n, k))
      | inl k ↦ elim (Option-cases (parse_port net i.port)) [
        | inl m ↦ absurd (ground (arith, h, n, k, m))
        | inr (port, m) ↦ record {
          scheme = scheme;
          named = (parse_scheme_iff i.scheme scheme).0 n;
          host = (host_reason_iff net scheme i.host).0 k;
          port = port;
          numbered = (parse_port_iff net i.port port).0 m;
          endpoint = build_endpoint_sound scheme port i d (ground (arith, h, n, k, m));
        }
      ]
    ]
  ]

  build_manual_complete : (i : Input) (d : net.Dictionary) → Fit i d → build_manual net i ≡ accept d
  unfolding build_manual
  build_manual_complete i d v = ground (
    arith,
    (parse_scheme_iff i.scheme v.scheme).1 v.named,
    (host_reason_iff net v.scheme i.host).1 v.host,
    (parse_port_iff net i.port v.port).1 v.numbered,
    build_endpoint_complete v.scheme v.port i d v.endpoint,
  )

  -- A manual input is stored as a dictionary exactly if its scheme is one of the three, its host is
  -- there and has no at sign, its host and the decoded host have no character of a list or a path, no
  -- space and no control character, its port is a number from 1 to 65535 in digits, the endpoint is valid
  -- and reads back as itself alone, each bypass entry is taken, and the dictionary is that of its uri and
  -- these entries.
  pub build_manual-accepts_iff :
      (i : Input) (d : net.Dictionary) → (build_manual net i ≡ accept d) ↔ Fit i d
  build_manual-accepts_iff i d = (build_manual_sound i d, build_manual_complete i d)
