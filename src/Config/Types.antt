-- ===== src/Config/Types.antt =====
-- The records of internal/config/config.go. A Duration is an integer of nanoseconds.
use siteboost_core.Common.{ℤ, Bool, Option, List}
use siteboost_core.Text.{Text}
use siteboost_core.Rules.{RuleError}

abbrev pub Duration : Type 0
Duration = ℤ

pub record ProxyConfig : Type 0 where
  pub listen_addr : Text
  pub non_target_behavior : Text
  pub allow_lan : Bool
  pub read_header_timeout : Duration
  pub idle_timeout : Duration
  pub dial_timeout : Duration
  pub shutdown_timeout : Duration

-- `none` is the nil slice.
pub record ProvidersConfig : Type 0 where
  pub enabled : Option (List Text)

pub record DnsConfig : Type 0 where
  pub enabled : Bool
  pub strategy : Text
  pub listen_addr : Text
  pub allow_lan : Bool
  pub interfaces : List Text
  pub map_ipv4 : Text
  pub map_ipv6 : Text
  pub ttl : Duration
  pub block_https_records : Bool

pub record RulesConfig : Type 0 where
  pub custom_domains : List Text

pub record PacConfig : Type 0 where
  pub listen_addr : Text
  pub allow_lan : Bool

pub record HostsConfig : Type 0 where
  pub map_ip : Text
  pub http_listen_addr : Text
  pub https_listen_addr : Text
  pub allow_lan : Bool
  pub path : Text
  pub extra_domains : List Text

pub record CertConfig : Type 0 where
  pub dir : Text
  pub auto_install : Bool
  pub store_scope : Text

pub record ResolverConfig : Type 0 where
  pub mode : Text
  pub servers : List Text
  pub prefer_ipv4 : Bool
  pub prefer_ipv6 : Bool
  pub disable_ipv6 : Bool
  pub cache_ttl : Duration
  pub timeout : Duration

pub record OutboundProfileConfig : Type 0 where
  pub match_domains : List Text
  pub candidate_ips : List Text
  pub forward_host : Text
  pub tls_server_name : Text
  pub ignore_tls_name_mismatch : Bool

pub record UpstreamConfig : Type 0 where
  pub type : Text
  pub address : Text
  pub username : Text
  pub password : Text
  pub profiles : List OutboundProfileConfig

pub record PageEnhanceAssetConfig : Type 0 where
  pub path : Text
  pub file : Text
  pub content_type : Text

pub record PageEnhanceMatchConfig : Type 0 where
  pub providers : List Text
  pub hosts : List Text
  pub path_prefixes : List Text
  pub content_types : List Text
  pub status_codes : List ℤ

-- The map `set` is given in the order in which the program's loop meets its keys.
pub record PageEnhanceHeadersConfig : Type 0 where
  pub set : List (Text × Text)
  pub remove : List Text

pub record PageEnhanceReplaceConfig : Type 0 where
  pub old : Text
  pub new : Text
  pub count : ℤ

pub record PageEnhanceTransformConfig : Type 0 where
  pub name : Text
  pub matches : PageEnhanceMatchConfig
  pub headers : PageEnhanceHeadersConfig
  pub inject_head : Text
  pub inject_body : Text
  pub replace : List PageEnhanceReplaceConfig

pub record PageEnhanceConfig : Type 0 where
  pub enabled : Bool
  pub on_error : Text
  pub max_body_size : ℤ
  pub assets : List PageEnhanceAssetConfig
  pub transforms : List PageEnhanceTransformConfig

pub record SystemConfig : Type 0 where
  pub services : List Text

pub record RuntimeConfig : Type 0 where
  pub state_path : Text
  pub rollback_path : Text
  pub control_addr : Text
  pub stop_timeout : Duration

pub record Config : Type 0 where
  pub mode : Text
  pub providers : ProvidersConfig
  pub dns : DnsConfig
  pub proxy : ProxyConfig
  pub pac : PacConfig
  pub hosts : HostsConfig
  pub cert : CertConfig
  pub resolver : ResolverConfig
  pub upstream : UpstreamConfig
  pub page_enhance : PageEnhanceConfig
  pub system : SystemConfig
  pub rules : RulesConfig
  pub runtime : RuntimeConfig

pub data ListenError : Type 0 where
  address_syntax port_required host_not_ip not_loopback : ListenError

pub data ConfigError : Type 0 where
  unsupported_mode unsupported_non_target_behavior : ConfigError
  proxy_listen_addr_required pac_listen_addr_required : ConfigError
  proxy_listen_addr pac_listen_addr hosts_http_listen_addr : ListenError → ConfigError
  hosts_https_listen_addr control_addr dns_listen_addr : ListenError → ConfigError
  hosts_map_ip_required hosts_map_ip_syntax hosts_map_ip_not_loopback : ConfigError
  hosts_http_listen_addr_required hosts_https_listen_addr_required : ConfigError
  hosts_path_required extra_domain_wildcard : ConfigError
  cert_dir_required unsupported_store_scope : ConfigError
  state_path_required rollback_path_required : ConfigError
  unsupported_resolver_mode resolver_servers_required both_preferred : ConfigError
  unsupported_upstream_type upstream_address_required : ConfigError
  not_positive : ConfigError
  profile_domains_required profile_domain_form profile_candidate_ip : ConfigError
  profile_no_effect : ConfigError
  profile_domain profile_forward_host profile_tls_server_name : RuleError → ConfigError
  dns_strategy_mode dns_enabled_mode dns_external dns_unsupported_strategy : ConfigError
  dns_listen_addr_required dns_map_required dns_map_ipv4 dns_map_ipv6 dns_ttl : ConfigError
  dns_system_listen_addr dns_system_port dns_system_loopback : ConfigError
  dns_system_ipv4 dns_system_interfaces : ConfigError
  unsupported_on_error negative_body_size : ConfigError
  asset_path asset_file asset_content_type : ConfigError
  transform_provider transform_path_prefix transform_content_type : ConfigError
  transform_status_code transform_header_name transform_header_value : ConfigError
  transform_replace_old transform_no_operation : ConfigError
  transform_host : RuleError → ConfigError
