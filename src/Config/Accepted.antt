-- ===== src/Config/Accepted.antt =====
-- What Config.Validate of internal/config/config.go accepts.
use siteboost_core.Common.{
  is_empty, all, All-of_false, ok, of_option, map_error, >>=-eq-ok, map_error-eq-ok,
  of_option-eq-ok, passed, denied, ok_value, is_positive, ◌≡◌, subst, true, not, ◌||◌,
}
use siteboost_core.Text.{Text, text, trim_space, contains}
use siteboost_core.External.{Externals, is_loopback}
use siteboost_core.Config.Types.{
  HostsConfig, Config, unsupported_mode, hosts_http_listen_addr, hosts_https_listen_addr,
  hosts_map_ip_required, hosts_map_ip_syntax, hosts_map_ip_not_loopback,
  hosts_http_listen_addr_required, hosts_https_listen_addr_required, hosts_path_required,
  extra_domain_wildcard, not_positive,
}
use siteboost_core.Config.Normalizing.{one_of, trim_strings, normalize_mode, validate_listen_addr}
use siteboost_core.Config.Intercept.{validate_dns_config}
use siteboost_core.Config.Enhancement.{validate_page_enhance_config}
use siteboost_core.Config.Validating.{
  modes, enable_dns, durations, validate_proxy, validate_pac, validate_hosts, validate_cert,
  validate_runtime, validate_resolver, validate_upstream, validate_parts, validate,
}
use siteboost_core.Config.Valid.{validate_listen_addr-IsListenable, IsHosts, IsValid}
use siteboost_core.Config.Accepting.{
  validate_proxy-IsListenable, validate_pac-IsListenable, validate_cert-IsNonblank,
  validate_runtime-IsRuntime, validate_resolver-IsResolver, validate_upstream-IsUpstream,
  durations_kept,
}
use siteboost_core.Config.AcceptingDns.{validate_dns_config-IsChecked}

module _ (x : Externals) where
  -- The last checks of the hosts part.
  validate_hosts-IsHosts : (cfg c : HostsConfig) → validate_hosts x cfg ≡ ok c → IsHosts x c
  unfolding validate_hosts
  validate_hosts-IsHosts cfg c h =
      let listening = λ (addr : Text). validate_listen_addr x addr cfg.allow_lan in
      let domains = trim_strings cfg.extra_domains in
      let (_, h1) = denied (is_empty cfg.map_ip) hosts_map_ip_required _ h in
      let (ip, parsed, h2) =
        >>=-eq-ok (of_option hosts_map_ip_syntax (x.parse_ip cfg.map_ip)) _ h1 in
      let (loopback, h3) =
        passed (cfg.allow_lan || is_loopback ip) hosts_map_ip_not_loopback _ h2 in
      let (_, h4) = denied (is_empty cfg.http_listen_addr) hosts_http_listen_addr_required _ h3 in
      let (_, http, h5) =
        >>=-eq-ok (map_error hosts_http_listen_addr (listening cfg.http_listen_addr)) _ h4 in
      let (_, h6) = denied (is_empty cfg.https_listen_addr) hosts_https_listen_addr_required _ h5 in
      let (_, https, h7) =
        >>=-eq-ok (map_error hosts_https_listen_addr (listening cfg.https_listen_addr)) _ h6 in
      let (path, h8) = denied (is_empty (trim_space cfg.path)) hosts_path_required _ h7 in
      let (plain, h9) =
        passed (all (λ domain. not (contains (text "*") domain)) domains) extra_domain_wildcard _
          h8 in
      subst (IsHosts x) (ok_value h9) (record {
        target = (ip, of_option-eq-ok hosts_map_ip_syntax (x.parse_ip cfg.map_ip) parsed, loopback);
        http =
            validate_listen_addr-IsListenable x cfg.http_listen_addr cfg.allow_lan
              (map_error-eq-ok hosts_http_listen_addr (listening cfg.http_listen_addr) http);
        https =
            validate_listen_addr-IsListenable x cfg.https_listen_addr cfg.allow_lan
              (map_error-eq-ok hosts_https_listen_addr (listening cfg.https_listen_addr) https);
        path = path;
        no_wildcards = All-of_false (contains (text "*")) domains plain;
      })

  validate_parts-IsValid :
      (mode : Text) (cfg c : Config) → validate_parts x mode cfg ≡ ok c → IsValid x c
  unfolding validate_parts
  validate_parts-IsValid mode cfg c h =
      let (known, h1) = passed (one_of mode modes) unsupported_mode _ h in
      let (dns, e1, h2) = >>=-eq-ok (validate_dns_config x (enable_dns mode cfg.dns) mode) _ h1 in
      let (proxy, e2, h3) = >>=-eq-ok (validate_proxy x cfg.proxy) _ h2 in
      let (_, e3, h4) = >>=-eq-ok (validate_pac x cfg.pac) _ h3 in
      let (hosts, e4, h5) = >>=-eq-ok (validate_hosts x cfg.hosts) _ h4 in
      let (cert, e5, h6) = >>=-eq-ok (validate_cert x cfg.cert) _ h5 in
      let (runtime, e6, h7) = >>=-eq-ok (validate_runtime x cfg.runtime) _ h6 in
      let (resolver, e7, h8) = >>=-eq-ok (validate_resolver x cfg.resolver) _ h7 in
      let (upstream, e8, h9) = >>=-eq-ok (validate_upstream x cfg.upstream) _ h8 in
      let (page_enhance, _, h10) =
        >>=-eq-ok (validate_page_enhance_config x cfg.page_enhance) _ h9 in
      let (positive, h11) =
        passed (all is_positive (durations cfg.proxy cfg.resolver cfg.runtime)) not_positive _
          h10 in
      let (enabled, ready) = validate_dns_config-IsChecked x mode cfg.dns dns e1 in
      subst (IsValid x) (ok_value h11) (record {
        mode = known;
        dns_enabled = enabled;
        dns = ready;
        proxy = validate_proxy-IsListenable x cfg.proxy proxy e2;
        pac = validate_pac-IsListenable x cfg.pac e3;
        hosts = validate_hosts-IsHosts cfg.hosts hosts e4;
        cert = validate_cert-IsNonblank x cfg.cert cert e5;
        resolver = validate_resolver-IsResolver x cfg.resolver resolver e7;
        upstream = validate_upstream-IsUpstream x cfg.upstream upstream e8;
        runtime = validate_runtime-IsRuntime x cfg.runtime runtime e6;
        all_positive =
            subst (λ ds. all is_positive ds ≡ true)
              (durations_kept x cfg.proxy proxy cfg.resolver resolver cfg.runtime runtime e2 e7 e6)
              positive;
      })

  -- A configuration that Validate accepts is left in a usable form: its mode is one of the five;
  -- the DNS interception is enabled exactly in DNS mode, and then its strategy is manual, or system
  -- with a loopback IPv4 address on port 53 and at least one interface, it has an address to map
  -- to, of the right family, and a positive lifetime; the addresses that are listened on have a
  -- port, and a host that is localhost, a loopback address, or any address where allow_lan is set;
  -- the hosts file has a path, a target address and no wildcard domain; the paths of the runtime
  -- files and of the certificates are not blank; a resolver other than the system's has servers and
  -- not both preferences; an upstream proxy has an address; every outbound profile has domains,
  -- parseable addresses and an effect; and the durations that are tested are positive.
  pub validate-IsValid : (cfg c : Config) → validate x cfg ≡ ok c → IsValid x c
  unfolding validate
  validate-IsValid cfg c h = validate_parts-IsValid (normalize_mode x cfg.mode) cfg c h
