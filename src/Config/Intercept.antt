-- ===== src/Config/Intercept.antt =====
-- validateDNSConfig and validateDNSSystemConfig of internal/config/config.go.
use siteboost_core.Common.{
  if◌then◌else◌, is_some, is_empty, Result, ok, err, require, ◌>>=◌, ◌>>◌, of_option, map_error,
  is_positive, Bool, false, not, ◌&&◌, ◌||◌, none, some,
}
use siteboost_core.Text.{Text, text, text_eq, trim_space}
use siteboost_core.Text.Address.{split_host_port}
use siteboost_core.External.{Externals, to4, is_loopback}
use siteboost_core.Config.Names.{mode_dns, strategy_manual, strategy_system, strategy_external}
use siteboost_core.Config.Types.{
  DnsConfig, ConfigError, dns_listen_addr, dns_strategy_mode, dns_enabled_mode, dns_external,
  dns_unsupported_strategy, dns_listen_addr_required, dns_map_required, dns_map_ipv4, dns_map_ipv6,
  dns_ttl, dns_system_listen_addr, dns_system_port, dns_system_loopback, dns_system_ipv4,
  dns_system_interfaces,
}
use siteboost_core.Config.Normalizing.{
  trim_strings, normalize_dns_intercept_strategy, dedupe_strings, validate_listen_addr,
}

-- The switch over the strategy.
unfoldable pub check_strategy : Text → Text → Bool → Result ConfigError (Unit {0})
check_strategy strategy mode active =
    if text_eq strategy strategy_manual
    then ok tt
    else if text_eq strategy strategy_system
    then require (not active || text_eq mode mode_dns) dns_strategy_mode
    else if text_eq strategy strategy_external
    then require (not active) dns_external
    else err dns_unsupported_strategy

-- The fields as they are trimmed once the interception is active.
abbrev pub trim_map_addresses : DnsConfig → DnsConfig
trim_map_addresses cfg = record cfg {
  map_ipv4 = trim_space cfg.map_ipv4;
  map_ipv6 = trim_space cfg.map_ipv6;
}

abbrev pub is_active : Text → DnsConfig → Bool
is_active mode cfg = cfg.enabled || text_eq mode mode_dns

module _ (x : Externals) where
  abbrev pub local_host : Text → Text
  local_host host =
      if x.equal_fold (trim_space host) (text "localhost") then text "127.0.0.1" else host

  abbrev pub is_ipv4_text : Text → Bool
  is_ipv4_text address = elim (x.parse_ip address) [ none ↦ false | some ip ↦ is_some (to4 ip) ]

  abbrev pub is_ipv6_text : Text → Bool
  is_ipv6_text address = elim (x.parse_ip address) [
    | none ↦ false
    | some ip ↦ not (is_some (to4 ip))
  ]

  unfoldable pub validate_dns_system_config : DnsConfig → Result ConfigError (Unit {0})
  validate_dns_system_config cfg = do
    (host, port) ← of_option dns_system_listen_addr (split_host_port cfg.listen_addr)
    require (text_eq port (text "53")) dns_system_port
    ip ← of_option dns_system_loopback (x.parse_ip (local_host host))
    require (is_loopback ip) dns_system_loopback
    require (is_some (to4 ip)) dns_system_ipv4
    require (not (is_empty cfg.interfaces)) dns_system_interfaces

  unfoldable pub check_map_addresses : Text → Text → Result ConfigError (Unit {0})
  check_map_addresses map_ipv4 map_ipv6 = do
    require (not (is_empty map_ipv4 && is_empty map_ipv6)) dns_map_required
    require (is_empty map_ipv4 || is_ipv4_text map_ipv4) dns_map_ipv4
    require (is_empty map_ipv6 || is_ipv6_text map_ipv6) dns_map_ipv6

  -- The part behind `if !active`.
  unfoldable pub validate_active_dns : DnsConfig → Result ConfigError (Unit {0})
  validate_active_dns cfg = do
    require (not (is_empty (trim_space cfg.listen_addr))) dns_listen_addr_required
    map_error dns_listen_addr (validate_listen_addr x cfg.listen_addr cfg.allow_lan)
    check_map_addresses (trim_space cfg.map_ipv4) (trim_space cfg.map_ipv6)
    require (is_positive cfg.ttl) dns_ttl
    if text_eq cfg.strategy strategy_system
        then validate_dns_system_config (trim_map_addresses cfg)
        else ok tt

  abbrev pub normalize_dns : DnsConfig → DnsConfig
  normalize_dns cfg = record cfg {
    strategy = normalize_dns_intercept_strategy x cfg.strategy;
    interfaces = dedupe_strings x (trim_strings cfg.interfaces);
  }

  -- `cfg` is normalised already.
  unfoldable pub check_dns_config : Text → DnsConfig → Result ConfigError DnsConfig
  check_dns_config mode cfg = do
    check_strategy cfg.strategy mode (is_active mode cfg)
    require (not cfg.enabled || text_eq mode mode_dns) dns_enabled_mode
    if is_active mode cfg then (do validate_active_dns cfg; ok (trim_map_addresses cfg)) else ok cfg

  unfoldable pub validate_dns_config : DnsConfig → Text → Result ConfigError DnsConfig
  validate_dns_config cfg mode = check_dns_config mode (normalize_dns cfg)
