-- ===== src/Config/Defaults.antt =====
-- Default of internal/config/config.go. The paths, which DefaultStatePath, DefaultRollbackPath,
-- DefaultCertDir and DefaultHostsPath read from the environment, are parameters.
use siteboost_core.Common.{
  Bool-cases, is_empty, ok, map_results, pos, ℕ, ◌*◌, ◌^◌, ◌≡◌, refl, inl, inr, true, false, some,
  [], ◌∷◌,
}
use siteboost_core.Text.{Text, text, text_eq, trim_space, to_lower}
use siteboost_core.Text.Address.{split_host_port}
use siteboost_core.External.{Ip, Externals, is_loopback}
use siteboost_core.Config.Names.{
  mode_proxy_only, resolver_system, non_target_reject, strategy_manual, pass_through,
  upstream_direct, cert_store_machine,
}
use siteboost_core.Config.Types.{Config}
use siteboost_core.Config.Normalizing.{
  switch, trim_strings, normalize_mode, normalize_dns_intercept_strategy,
  normalize_page_enhance_on_error, normalize_non_target_behavior, normalize_resolver_mode,
  normalize_cert_store_scope, normalize_upstream_type, lower_strings, normalize_provider_ids,
  dedupe_from, dedupe_strings, validate_listen_addr,
}
use siteboost_core.Config.Intercept.{check_strategy, check_dns_config, validate_dns_config}
use siteboost_core.Config.Profiles.{validate_outbound_profiles}
use siteboost_core.Config.Enhancement.{validate_page_enhance_config}
use siteboost_core.Config.Validating.{
  enable_dns, validate_proxy, validate_pac, validate_hosts, validate_cert, validate_runtime,
  check_resolver, validate_resolver, validate_upstream, validate_parts, validate,
}
use siteboost_core.Config.Valid.{IsNonblank}

pub record DefaultPaths : Type 0 where
  pub hosts : Text
  pub cert : Text
  pub state : Text
  pub rollback : Text

abbrev pub second : ℕ
second = 10 ^ 9

unfoldable pub default_config : DefaultPaths → Config
default_config paths = record {
  mode = mode_proxy_only;
  providers = record { enabled = some (text "steam" ∷ []) };
  dns = record {
    enabled = false;
    strategy = strategy_manual;
    listen_addr = text "127.0.0.1:53";
    allow_lan = false;
    interfaces = [];
    map_ipv4 = text "127.0.0.1";
    map_ipv6 = [];
    ttl = pos (30 * second);
    block_https_records = true;
  };
  proxy = record {
    listen_addr = text "127.0.0.1:26501";
    non_target_behavior = non_target_reject;
    allow_lan = false;
    read_header_timeout = pos (10 * second);
    idle_timeout = pos (120 * second);
    dial_timeout = pos (30 * second);
    shutdown_timeout = pos (5 * second);
  };
  pac = record { listen_addr = text "127.0.0.1:26502"; allow_lan = false };
  hosts = record {
    map_ip = text "127.0.0.1";
    http_listen_addr = text "127.0.0.1:80";
    https_listen_addr = text "127.0.0.1:443";
    allow_lan = false;
    path = paths.hosts;
    extra_domains = [];
  };
  cert = record { dir = paths.cert; auto_install = true; store_scope = cert_store_machine };
  resolver = record {
    mode = resolver_system;
    servers = [];
    prefer_ipv4 = true;
    prefer_ipv6 = false;
    disable_ipv6 = false;
    cache_ttl = pos (600 * second);
    timeout = pos (5 * second);
  };
  upstream = record {
    type = upstream_direct;
    address = [];
    username = [];
    password = [];
    profiles = [];
  };
  page_enhance = record {
    enabled = false;
    on_error = pass_through;
    max_body_size = pos (1024 * 1024);
    assets = [];
    transforms = [];
  };
  system = record { services = [] };
  rules = record { custom_domains = [] };
  runtime = record {
    state_path = paths.state;
    rollback_path = paths.rollback;
    control_addr = text "127.0.0.1:0";
    stop_timeout = pos (5 * second);
  };
}

module _ (x : Externals) (ip : Ip) (parsed : x.parse_ip (text "127.0.0.1") ≡ some ip)
    (loopback : is_loopback ip ≡ true) where
  local_listen_addr :
      (addr port : Text)
      → split_host_port addr ≡ some (text "127.0.0.1", port)
      → is_empty (trim_space port) ≡ false
      → validate_listen_addr x addr false ≡ ok tt
  unfolding validate_listen_addr
  local_listen_addr addr port split given =
      elim (Bool-cases (x.equal_fold (text "127.0.0.1") (text "localhost"))) [
        | inl local ↦ rw (split, given, local)
        | inr other ↦ rw (split, given, other, parsed, loopback)
      ]

  module _ (paths : DefaultPaths) where
    abbrev defaults : Config
    defaults = default_config paths

    default_dns :
        validate_dns_config x (enable_dns mode_proxy_only defaults.dns) mode_proxy_only
        ≡ ok defaults.dns
    unfolding default_config validate_dns_config check_dns_config check_strategy text_eq
        normalize_dns_intercept_strategy switch to_lower trim_space dedupe_strings dedupe_from
        trim_strings
    default_dns = refl

    default_proxy : validate_proxy x defaults.proxy ≡ ok defaults.proxy
    unfolding default_config validate_proxy split_host_port trim_space text_eq
        normalize_non_target_behavior switch to_lower
    default_proxy = rw (local_listen_addr (text "127.0.0.1:26501") (text "26501") refl refl)

    default_pac : validate_pac x defaults.pac ≡ ok tt
    unfolding default_config validate_pac split_host_port trim_space
    default_pac = rw (local_listen_addr (text "127.0.0.1:26502") (text "26502") refl refl)

    default_hosts : IsNonblank paths.hosts → validate_hosts x defaults.hosts ≡ ok defaults.hosts
    unfolding default_config validate_hosts split_host_port trim_space trim_strings
    default_hosts given = rw (
      parsed,
      loopback,
      local_listen_addr (text "127.0.0.1:80") (text "80") refl refl,
      local_listen_addr (text "127.0.0.1:443") (text "443") refl refl,
      given,
    )

    default_cert : IsNonblank paths.cert → validate_cert x defaults.cert ≡ ok defaults.cert
    unfolding default_config validate_cert text_eq normalize_cert_store_scope switch to_lower
        trim_space
    default_cert given = rw given

    default_runtime :
        IsNonblank paths.state
        → IsNonblank paths.rollback
        → validate_runtime x defaults.runtime ≡ ok defaults.runtime
    unfolding default_config validate_runtime split_host_port trim_space
    default_runtime state rollback =
        rw (local_listen_addr (text "127.0.0.1:0") (text "0") refl refl, state, rollback)

    default_resolver : validate_resolver x defaults.resolver ≡ ok defaults.resolver
    unfolding default_config validate_resolver check_resolver text_eq normalize_resolver_mode switch
        to_lower trim_space trim_strings
    default_resolver = refl

    default_upstream : validate_upstream x defaults.upstream ≡ ok defaults.upstream
    unfolding default_config validate_upstream validate_outbound_profiles map_results text_eq
        normalize_upstream_type switch to_lower trim_space
    default_upstream = refl

    default_enhance :
        validate_page_enhance_config x defaults.page_enhance ≡ ok defaults.page_enhance
    unfolding default_config validate_page_enhance_config text_eq normalize_page_enhance_on_error
        switch to_lower trim_space
    default_enhance = refl

    -- The default configuration is accepted by Validate, and left as it is, if the default paths are
    -- not blank, and "127.0.0.1" is parsed to a loopback address.
    pub validate-default_config :
        IsNonblank paths.hosts
        → IsNonblank paths.cert
        → IsNonblank paths.state
        → IsNonblank paths.rollback
        → validate x defaults ≡ ok defaults
    unfolding validate validate_parts text_eq default_config normalize_mode switch to_lower
        trim_space normalize_provider_ids trim_strings lower_strings
    validate-default_config hosts cert state rollback = rw (
      default_dns,
      default_proxy,
      default_pac,
      default_hosts hosts,
      default_cert cert,
      default_runtime state rollback,
      default_resolver,
      default_upstream,
      default_enhance,
    )
