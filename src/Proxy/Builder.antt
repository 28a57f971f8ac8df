-- ===== src/Proxy/Builder.antt =====
-- The validation of the proxy fields and the dictionary that is stored
-- (roamux/browser/proxy/proxy_config_builder.{h,cc}). What net, base and url do with a text is the
-- parameter `Net`.
pub mod Manual
pub mod Accepted
pub mod Refusals
pub mod HostReasons
pub mod Outcomes
mod Examples
use roamux.Base.{
  ℕ, String, Bool, true, false, not, ◌&&◌, ◌||◌, Option, none, some, List, [], ◌∷◌, ltb, leb, ◌==◌,
  if◌then◌else◌, str_eq, is_empty, codes, any_code,
}

pub data Scheme : Type 0 where
  http https socks5 : Scheme

pub data Mode : Type 0 where
  system direct manual pac : Mode

pub record Input : Type 0 where
  pub mode : Mode
  pub scheme : String
  pub host : String
  pub port : String
  pub bypass_list : String
  pub pac_url : String
  pub pac_mandatory : Bool

pub record Net : Type 1 where
  pub ProxyServer : Type 0
  pub from_scheme_host_and_port : Scheme → String → ℕ → ProxyServer
  pub is_valid : ProxyServer → Bool
  pub same_server : ProxyServer → ProxyServer → Bool
  pub proxy_server_to_proxy_uri : ProxyServer → String
  -- The type of the parsed rules is PROXY_LIST, and their chains of servers.
  pub is_proxy_list : String → Bool
  pub single_proxies : String → List (List ProxyServer)
  pub unescape : String → String
  pub string_to_uint : String → Option ℕ
  pub split_bypass_list : String → List String
  pub BypassRules : Type 0
  pub no_rules : BypassRules
  pub add_rule_from_string : BypassRules → String → Option BypassRules
  pub rules_to_string : BypassRules → String
  pub Url : Type 0
  pub parse_url : String → Url
  pub url_is_valid : Url → Bool
  pub scheme_is : Url → String → Bool
  pub data_url_parses : Url → Bool
  pub Dictionary : Type 0
  pub create_direct : Dictionary
  pub create_fixed_servers : String → String → Dictionary
  pub create_pac_script : String → Bool → Dictionary

pub record Outcome (Dictionary : Type 0) : Type 0 where
  pub ok : Bool
  pub field : String
  pub reason : String
  pub dict : Option Dictionary
  pub clear_pref : Bool

-- `find_first_of(",;=") != npos`.
abbrev pub is_list_syntax : ℕ → Bool
is_list_syntax c = c == b',' || c == b';' || c == b'='

abbrev pub has_list_syntax : String → Bool
has_list_syntax s = any_code is_list_syntax (codes s)

abbrev pub has_credentials : String → Bool
has_credentials s = any_code (λ c. c == b'@') (codes s)

abbrev pub is_space_or_control : ℕ → Bool
is_space_or_control c = leb c b' ' || c == 0x7f

abbrev pub has_space_or_control : String → Bool
has_space_or_control s = any_code is_space_or_control (codes s)

-- `find_first_of("/?#") != npos`.
abbrev pub is_path_syntax : ℕ → Bool
is_path_syntax c = c == b'/' || c == b'?' || c == b'#'

abbrev pub has_path_syntax : String → Bool
has_path_syntax s = any_code is_path_syntax (codes s)

abbrev pub contains_only_digits : String → Bool
contains_only_digits s = not (any_code (λ c. ltb c b'0' || ltb b'9' c) (codes s))

pub parse_scheme : String → Option Scheme
parse_scheme s =
    if str_eq s "http"
    then some http
    else if str_eq s "https"
    then some https
    else if str_eq s "socks5"
    then some socks5
    else none

abbrev pub is_socks5 : Scheme → Bool
is_socks5 http = false
is_socks5 https = false
is_socks5 socks5 = true

abbrev pub reject : {Dictionary : Type 0} → String → String → Outcome Dictionary
reject field reason = record {
  ok = false;
  field = field;
  reason = reason;
  dict = none;
  clear_pref = false;
}

abbrev pub accept : {Dictionary : Type 0} → Dictionary → Outcome Dictionary
accept d = record { ok = true; field = ""; reason = ""; dict = some d; clear_pref = false }

module _ (net : Net) where
  open net use {
    ProxyServer, from_scheme_host_and_port, is_valid, same_server, proxy_server_to_proxy_uri,
    is_proxy_list, single_proxies, unescape, string_to_uint, split_bypass_list, BypassRules,
    no_rules, add_rule_from_string, rules_to_string, parse_url, url_is_valid, scheme_is,
    data_url_parses, Dictionary, create_direct, create_fixed_servers, create_pac_script,
  }

  -- One chain, of one server, and that the given one.
  abbrev only_chain : ProxyServer → List (List ProxyServer) → Bool
  only_chain server [] = false
  only_chain server ([] ∷ []) = false
  only_chain server ((s ∷ []) ∷ []) = same_server s server
  only_chain server ((s ∷ (t ∷ ts)) ∷ []) = false
  only_chain server (c ∷ (d ∷ ds)) = false

  pub survives_as_single_endpoint : String → ProxyServer → Bool
  survives_as_single_endpoint uri server =
      is_proxy_list uri && only_chain server (single_proxies uri)

  -- The port's tests; the number, if they pass.
  abbrev port_in_range : Option ℕ → Option ℕ
  port_in_range none = none
  port_in_range (some n) = if n == 0 || ltb 65535 n then none else some n

  pub parse_port : String → Option ℕ
  parse_port s =
      if is_empty s || not (contains_only_digits s) then none else port_in_range (string_to_uint s)

  -- The loop over the bypass entries: the rules, or the entry that is refused.
  pub data Bypass : Type 0 where
    rules : BypassRules → Bypass
    refused : String → Bypass

  pub add_entries : BypassRules → List String → Bypass
  add_entries r [] = rules r
  add_entries r (entry ∷ entries) = elim (add_rule_from_string r entry) [
    | none ↦ refused entry
    | some r' ↦ add_entries r' entries
  ]

  -- The tests of the host, as far as the port: the reason of the first that fails.
  pub host_reason : Scheme → String → Option String
  host_reason scheme host =
      if has_credentials host
      then some (if is_socks5 scheme then "socks5_no_auth" else "userinfo")
      else if has_list_syntax host || has_list_syntax (unescape host)
      then some "list_syntax"
      else if is_empty host
      then some "host"
      else if has_path_syntax host
          || has_path_syntax (unescape host)
          || has_space_or_control host
          || has_space_or_control (unescape host)
      then some "not_an_endpoint"
      else none

  -- From the loop over the bypass entries on.
  pub build_rules : String → Bypass → Outcome Dictionary
  build_rules uri (rules r) = accept (create_fixed_servers uri (rules_to_string r))
  build_rules uri (refused entry) = reject "bypass" entry

  -- From the construction of the server on.
  pub build_endpoint : Scheme → ℕ → Input → Outcome Dictionary
  unfolding survives_as_single_endpoint build_rules add_entries
  build_endpoint scheme port i =
      let server = from_scheme_host_and_port scheme i.host port in
      let uri = proxy_server_to_proxy_uri server in
      if not (is_valid server)
      then reject "host" "host"
      else if not (survives_as_single_endpoint uri server)
      then reject "host" "list_syntax"
      else build_rules uri (add_entries no_rules (split_bypass_list i.bypass_list))

  pub build_manual : Input → Outcome Dictionary
  unfolding parse_scheme host_reason parse_port build_endpoint
  build_manual i = elim (parse_scheme i.scheme) [
    | none ↦ reject "scheme" "scheme"
    | some scheme ↦ elim (host_reason scheme i.host) [
      | some reason ↦ reject "host" reason
      | none ↦ elim (parse_port i.port) [
        | none ↦ reject "port" "port"
        | some port ↦ build_endpoint scheme port i
      ]
    ]
  ]

  pub build_pac : Input → Outcome Dictionary
  build_pac i =
      let url = parse_url i.pac_url in
      let is_data = scheme_is url "data" in
      if not (url_is_valid url)
      then reject "pac_url" "pac_url"
      else if not (scheme_is url "http") && not (scheme_is url "https") && not is_data
      then reject "pac_url" "pac_scheme"
      else if is_data && not (data_url_parses url)
      then reject "pac_url" "pac_data_url"
      else accept (create_pac_script i.pac_url i.pac_mandatory)

  pub build_mode : Mode → Input → Outcome Dictionary
  unfolding build_manual build_pac
  build_mode system i = record {
    ok = true;
    field = "";
    reason = "";
    dict = none;
    clear_pref = true;
  }
  build_mode direct i = accept create_direct
  build_mode manual i = build_manual i
  build_mode pac i = build_pac i

  pub build : Input → Outcome Dictionary
  unfolding build_mode
  build i = build_mode i.mode i
