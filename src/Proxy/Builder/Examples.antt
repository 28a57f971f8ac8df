-- ===== src/Proxy/Builder/Examples.antt =====
-- The builder over a small net library: a server is its host and port, a dictionary a text.
use roamux.Base.{
  String, ◌≡◌, refl, ◌↔◌, true, false, not, none, some, List, [], ◌∷◌, if◌then◌else◌, str_eq,
  is_empty,
}
use roamux.Proxy.Builder.{manual, Input, Net, reject, accept, build_manual}
use roamux.Proxy.Builder.Accepted.{Fit, build_manual-accepts_iff}

abbrev small_net : Net
small_net = record {
  ProxyServer = String;
  from_scheme_host_and_port = λ scheme host port. host;
  is_valid = λ server. not (is_empty server);
  same_server = str_eq;
  proxy_server_to_proxy_uri = λ server. server;
  is_proxy_list = λ uri. true;
  single_proxies = λ uri. (uri ∷ []) ∷ [];
  unescape = λ s. s;
  string_to_uint = λ s. some 8080;
  split_bypass_list = λ s. s ∷ [];
  BypassRules = List String;
  no_rules = [];
  add_rule_from_string = λ rules entry. if is_empty entry then none else some (entry ∷ rules);
  rules_to_string = λ rules. "rules";
  Url = String;
  parse_url = λ s. s;
  url_is_valid = λ url. not (is_empty url);
  scheme_is = λ url scheme. str_eq scheme "https";
  data_url_parses = λ url. false;
  Dictionary = String;
  create_direct = "direct";
  create_fixed_servers = λ uri rules. uri;
  create_pac_script = λ url mandatory. url;
}

abbrev typed : Input
typed = record {
  mode = manual;
  scheme = "socks5";
  host = "proxy.example";
  port = "8080";
  bypass_list = "localhost";
  pac_url = "";
  pac_mandatory = true;
}

build_manual-typed : build_manual small_net typed ≡ accept "proxy.example"
unfolding build_manual
build_manual-typed = refl

build_manual-user :
    build_manual small_net (record typed { host = "me@proxy.example" })
    ≡ reject "host" "socks5_no_auth"
unfolding build_manual
build_manual-user = refl

build_manual-accepts_iff_example :
    (build_manual small_net typed ≡ accept "proxy.example") ↔ Fit small_net typed "proxy.example"
build_manual-accepts_iff_example = build_manual-accepts_iff small_net typed "proxy.example"
