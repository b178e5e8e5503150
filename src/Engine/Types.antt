-- ===== src/Engine/Types.antt =====
-- The state of internal/engine/engine.go, and what it calls: listening on the network, the other
-- packages' changes of the system, and the helper process with more rights. What they report is a
-- parameter; `S` is the state of the system that they change.
use siteboost_core.Config.Types.{Config as AppConfig}
use siteboost_core.Hosts.Platform.{Config as HostsConfig}
use siteboost_core.SystemDns.{Config as SystemDnsConfig}
use siteboost_core.SystemProxy.{Config as SystemProxyConfig}
use siteboost_core.Resolver.{Config as ResolverConfig}
use siteboost_core.Common.{Result, ℕ, Bool, false, Option, List}
use siteboost_core.Text.{Text}
use siteboost_core.Provider.{Summary, ProviderError}
use siteboost_core.Provider.Builtin.{ProbeTarget}
use siteboost_core.Rules.{RuleSetInfo, RuleError}
use siteboost_core.Hosts.{HostsError}
use siteboost_core.Pac.{PacError}
use siteboost_core.DnsIntercept.Starting.{StartError}
use siteboost_core.Upstream.Starting.{DialerError}
use siteboost_core.SystemDns.{DnsError}
use siteboost_core.SystemProxy.{ProxyError}

-- Which servers are up.
pub record Servers : Type 0 where
  pub proxy : Bool
  pub pac : Bool
  pub reverse : Bool
  pub dns : Bool

abbrev pub no_servers : Servers
no_servers = record { proxy = false; pac = false; reverse = false; dns = false }

pub record World (S : Type 0) : Type 0 where
  pub up : Servers
  pub system : S

pub record SystemChange : Type 0 where
  pub component : Text
  pub action : Text
  pub status : Text
  pub detail : Text

pub record ProbeResult : Type 0 where
  pub provider_id : Text
  pub host : Text
  pub target : Text
  pub ok_reply : Bool
  pub stage : Text

-- certstore.TrustResult, in the fields that the engine reads.
pub record TrustResult : Type 0 where
  pub store_scope : Text
  pub already_trusted : Bool
  pub changed : Bool
  pub via_helper : Bool

pub record PrepareHostsResult : Type 0 where
  pub cert : TrustResult
  pub cert_trusted : Bool
  pub entries : ℕ

-- systemdns.Result
pub record SystemDnsResult : Type 0 where
  pub interfaces : ℕ
  pub server_ips : List Text
  pub via_helper : Bool

-- Why preparing the hosts mode fails.
pub data PrepareError : Type 0 where
  root_ca_failed helper_failed cert_check_failed cert_not_installed : PrepareError
  cert_install_failed hosts_preflight_failed hosts_apply_failed : PrepareError
  -- the second is the helper's
  retry_failed : PrepareError → PrepareError → PrepareError

-- What a restore reports.
pub data Restored : Type 0 where
  was_restored nothing_to_restore restore_failed : Restored

pub data EngineError : Type 0 where
  already_running : EngineError
  bad_provider : ProviderError → EngineError
  bad_rules : RuleError → EngineError
  bad_dialer : DialerError → EngineError
  bad_entries : HostsError → EngineError
  reverse_not_started : EngineError
  hosts_not_prepared : PrepareError → EngineError
  bad_system_dns : DnsError → EngineError
  system_dns_refused : DnsError → EngineError
  bad_interception : StartError → EngineError
  dns_not_started : EngineError
  system_dns_not_applied : DnsError → EngineError
  system_dns_not_restored : DnsError → EngineError
  proxy_not_started : EngineError
  bad_pac : PacError → EngineError
  pac_not_started : EngineError
  system_proxy_not_applied : ProxyError → EngineError
  proxy_not_stopped pac_not_stopped reverse_not_stopped dns_not_stopped : EngineError
  not_restored : EngineError

-- fmt.Sprintf with %d
abbrev pub Decimal : Type 0
Decimal = ℕ → Text

pub record Calls (S : Type 0) : Type 0 where
  pub decimal : Decimal
  -- whether the servers can listen, and stop without an error
  pub proxy_listens : Bool
  pub pac_listens : Bool
  pub reverse_listens : Bool
  pub dns_listens : Bool
  pub proxy_stops : Bool
  pub pac_stops : Bool
  pub reverse_stops : Bool
  pub dns_stops : Bool
  -- proxyServer.Addr() and pacServer.URL() once they listen
  pub proxy_addr : Text
  pub pac_url : Text
  pub run_startup_probes : List ProbeTarget → List ProbeResult
  pub has_rollback_state : Text → S → Bool
  -- internal/certstore and internal/privilege
  pub should_use_helper : Bool
  pub on_windows : Bool
  pub is_permission : PrepareError → Bool
  pub ensure_root_ca : Bool
  pub is_cert_installed : Option Bool
  pub ensure_cert_trusted : S → Option TrustResult × S
  pub prepare_hosts_elevated : HostsConfig → Bool → S → Option PrepareHostsResult × S
  pub preflight_hosts : HostsConfig → S → Bool
  pub apply_hosts : HostsConfig → S → Bool × S
  pub restore_hosts : Text → S → Restored × S
  pub preflight_system_dns : SystemDnsConfig → S → Result DnsError SystemDnsResult
  pub apply_system_dns : SystemDnsConfig → S → Result DnsError SystemDnsResult × S
  pub restore_system_dns : Text → S → Restored × S
  pub apply_system_proxy : SystemProxyConfig → S → Result ProxyError (Unit {0}) × S
  pub restore_system_proxy : Text → S → Restored × S

pub record Engine : Type 0 where
  pub cfg : AppConfig
  pub running : Bool
  -- the pointers that are not nil
  pub servers : Servers
  pub pac_url : Text
  pub cert_ok : Bool
  pub resolver : ResolverConfig
  pub upstream_profiles : ℕ
  pub startup_probes : List ProbeResult
  pub rule_set : RuleSetInfo
  pub providers : List Summary
  pub system_changes : List SystemChange
  pub rule_count : ℕ
  pub last_err : Option EngineError
