-- ===== src/Config/Validating.antt =====
-- Config.Validate of internal/config/config.go: the value that it leaves, or its first error. The
-- program overwrites the configuration in place; a configuration that is refused is not used further.
use siteboost_core.Common.{
  if◌then◌else◌, is_empty, all, Result, ok, require, ◌>>=◌, ◌>>◌, of_option, map_error, is_positive,
  true, false, not, ◌&&◌, ◌||◌, Option, none, some, List, [], ◌∷◌,
}
use siteboost_core.Text.{Text, text, text_eq, trim_space, contains}
use siteboost_core.External.{Externals, is_loopback}
use siteboost_core.Config.Names.{
  mode_proxy_only, mode_pac, mode_system, mode_hosts, mode_dns, resolver_system, resolver_udp,
  resolver_tcp, resolver_doh, default_doh_servers, non_target_reject, non_target_direct,
  upstream_direct, upstream_http, upstream_socks5, cert_store_machine, cert_store_user,
}
use siteboost_core.Config.Types.{
  Duration, ProxyConfig, DnsConfig, PacConfig, HostsConfig, CertConfig, ResolverConfig,
  UpstreamConfig, RuntimeConfig, Config, ConfigError, unsupported_mode,
  unsupported_non_target_behavior, proxy_listen_addr_required, pac_listen_addr_required,
  proxy_listen_addr, pac_listen_addr, hosts_http_listen_addr, hosts_https_listen_addr, control_addr,
  hosts_map_ip_required, hosts_map_ip_syntax, hosts_map_ip_not_loopback,
  hosts_http_listen_addr_required, hosts_https_listen_addr_required, hosts_path_required,
  extra_domain_wildcard, cert_dir_required, unsupported_store_scope, state_path_required,
  rollback_path_required, unsupported_resolver_mode, resolver_servers_required, both_preferred,
  unsupported_upstream_type, upstream_address_required, not_positive,
}
use siteboost_core.Config.Normalizing.{
  one_of, trim_strings, normalize_mode, normalize_non_target_behavior, normalize_resolver_mode,
  normalize_cert_store_scope, normalize_upstream_type, normalize_provider_ids, validate_listen_addr,
}
use siteboost_core.Config.Profiles.{validate_outbound_profiles}
use siteboost_core.Config.Intercept.{validate_dns_config}
use siteboost_core.Config.Enhancement.{validate_page_enhance_config}

abbrev pub modes : List Text
modes = mode_proxy_only ∷ mode_pac ∷ mode_system ∷ mode_hosts ∷ mode_dns ∷ []

abbrev pub resolver_modes : List Text
resolver_modes = resolver_system ∷ resolver_udp ∷ resolver_tcp ∷ resolver_doh ∷ []

abbrev pub upstream_types : List Text
upstream_types = upstream_direct ∷ upstream_http ∷ upstream_socks5 ∷ []

-- A nil list of providers, also where it was not given, becomes the default one.
abbrev pub default_providers : Option (List Text) → Option (List Text)
default_providers none = some (text "steam" ∷ [])
default_providers (some ids) = some ids

-- The mode as it is normalised, and the DNS configuration that it enables.
abbrev pub enable_dns : Text → DnsConfig → DnsConfig
enable_dns mode cfg = if text_eq mode mode_dns then record cfg { enabled = true } else cfg

abbrev pub default_control_addr : Text → Text
default_control_addr addr = if is_empty addr then text "127.0.0.1:0" else addr

abbrev pub resolver_servers : Text → List Text → List Text
resolver_servers mode servers =
    if text_eq mode resolver_doh && is_empty servers then default_doh_servers else servers

-- The durations that the last tests want positive, in their order.
abbrev pub durations : ProxyConfig → ResolverConfig → RuntimeConfig → List Duration
durations proxy resolver runtime =
    proxy.read_header_timeout ∷ proxy.idle_timeout ∷ proxy.dial_timeout ∷ proxy.shutdown_timeout
    ∷ resolver.cache_ttl ∷ resolver.timeout ∷ runtime.stop_timeout ∷ []

module _ (x : Externals) where
  unfoldable pub validate_proxy : ProxyConfig → Result ConfigError ProxyConfig
  validate_proxy cfg = do
    require
        (one_of (normalize_non_target_behavior x cfg.non_target_behavior)
          (non_target_reject ∷ non_target_direct ∷ []))
        unsupported_non_target_behavior
    require (not (is_empty cfg.listen_addr)) proxy_listen_addr_required
    map_error proxy_listen_addr (validate_listen_addr x cfg.listen_addr cfg.allow_lan)
    ok (record cfg {
      non_target_behavior = normalize_non_target_behavior x cfg.non_target_behavior;
    })

  unfoldable pub validate_pac : PacConfig → Result ConfigError (Unit {0})
  validate_pac cfg = do
    require (not (is_empty cfg.listen_addr)) pac_listen_addr_required
    map_error pac_listen_addr (validate_listen_addr x cfg.listen_addr cfg.allow_lan)

  unfoldable pub validate_hosts : HostsConfig → Result ConfigError HostsConfig
  validate_hosts cfg = do
    require (not (is_empty cfg.map_ip)) hosts_map_ip_required
    ip ← of_option hosts_map_ip_syntax (x.parse_ip cfg.map_ip)
    require (cfg.allow_lan || is_loopback ip) hosts_map_ip_not_loopback
    require (not (is_empty cfg.http_listen_addr)) hosts_http_listen_addr_required
    map_error hosts_http_listen_addr (validate_listen_addr x cfg.http_listen_addr cfg.allow_lan)
    require (not (is_empty cfg.https_listen_addr)) hosts_https_listen_addr_required
    map_error hosts_https_listen_addr (validate_listen_addr x cfg.https_listen_addr cfg.allow_lan)
    require (not (is_empty (trim_space cfg.path))) hosts_path_required
    require (all (λ domain. not (contains (text "*") domain)) (trim_strings cfg.extra_domains))
        extra_domain_wildcard
    ok (record cfg { extra_domains = trim_strings cfg.extra_domains })

  unfoldable pub validate_cert : CertConfig → Result ConfigError CertConfig
  validate_cert cfg = do
    require (not (is_empty (trim_space cfg.dir))) cert_dir_required
    require
        (one_of (normalize_cert_store_scope x cfg.store_scope)
          (cert_store_machine ∷ cert_store_user ∷ []))
        unsupported_store_scope
    ok (record cfg { store_scope = normalize_cert_store_scope x cfg.store_scope })

  unfoldable pub validate_runtime : RuntimeConfig → Result ConfigError RuntimeConfig
  validate_runtime cfg = do
    map_error control_addr (validate_listen_addr x (default_control_addr cfg.control_addr) false)
    require (not (is_empty (trim_space cfg.state_path))) state_path_required
    require (not (is_empty (trim_space cfg.rollback_path))) rollback_path_required
    ok (record cfg { control_addr = default_control_addr cfg.control_addr })

  unfoldable pub check_resolver : ResolverConfig → Result ConfigError ResolverConfig
  check_resolver cfg = do
    require (one_of cfg.mode resolver_modes) unsupported_resolver_mode
    require (text_eq cfg.mode resolver_system || not (is_empty cfg.servers))
        resolver_servers_required
    require (not (cfg.prefer_ipv4 && cfg.prefer_ipv6)) both_preferred
    ok cfg

  unfoldable pub validate_resolver : ResolverConfig → Result ConfigError ResolverConfig
  validate_resolver cfg = check_resolver (record cfg {
    mode = normalize_resolver_mode x cfg.mode;
    servers = resolver_servers (normalize_resolver_mode x cfg.mode) (trim_strings cfg.servers);
  })

  unfoldable pub validate_upstream : UpstreamConfig → Result ConfigError UpstreamConfig
  validate_upstream cfg = do
    require (one_of (normalize_upstream_type x cfg.type) upstream_types) unsupported_upstream_type
    require
        (text_eq (normalize_upstream_type x cfg.type) upstream_direct
          || not (is_empty (trim_space cfg.address)))
        upstream_address_required
    profiles ← validate_outbound_profiles x cfg.profiles
    ok (record {
      type = normalize_upstream_type x cfg.type;
      address = trim_space cfg.address;
      username = trim_space cfg.username;
      password = cfg.password;
      profiles = profiles;
    })

  -- `mode` is normalised already.
  unfoldable pub validate_parts : Text → Config → Result ConfigError Config
  validate_parts mode cfg = do
    require (one_of mode modes) unsupported_mode
    dns ← validate_dns_config x (enable_dns mode cfg.dns) mode
    proxy ← validate_proxy cfg.proxy
    validate_pac cfg.pac
    hosts ← validate_hosts cfg.hosts
    cert ← validate_cert cfg.cert
    runtime ← validate_runtime cfg.runtime
    resolver ← validate_resolver cfg.resolver
    upstream ← validate_upstream cfg.upstream
    page_enhance ← validate_page_enhance_config x cfg.page_enhance
    require (all is_positive (durations cfg.proxy cfg.resolver cfg.runtime)) not_positive
    ok (record {
      mode = mode;
      providers = record {
        enabled = default_providers (normalize_provider_ids x cfg.providers.enabled);
      };
      dns = dns;
      proxy = proxy;
      pac = cfg.pac;
      hosts = hosts;
      cert = cert;
      resolver = resolver;
      upstream = upstream;
      page_enhance = page_enhance;
      system = record { services = trim_strings cfg.system.services };
      rules = cfg.rules;
      runtime = runtime;
    })

  unfoldable pub validate : Config → Result ConfigError Config
  validate cfg = validate_parts (normalize_mode x cfg.mode) cfg
