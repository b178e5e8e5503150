-- ===== src/Engine/Reporting.antt =====
-- New and Status of internal/engine/engine.go. The time of the start, the counters of connections
-- and the servers' own addresses beside the proxy's are not modelled.
use siteboost_core.Config.Types.{Config as AppConfig}
use siteboost_core.Engine.Types.{
  no_servers, World, SystemChange, ProbeResult, EngineError, Calls, Engine,
}
use siteboost_core.Engine.Stopping.{empty_resolver, empty_rule_set}
use siteboost_core.Common.{
  if◌then◌else◌, Result, ok, ◌>>=◌, ℕ, Bool, false, ◌&&◌, Option, none, some, List, [],
}
use siteboost_core.Text.{Text, text_eq}
use siteboost_core.External.{Externals}
use siteboost_core.Config.Names.{strategy_system}
use siteboost_core.Config.Types.{ConfigError}
use siteboost_core.Config.Validating.{validate}
use siteboost_core.Provider.{Summary}

pub record Status : Type 0 where
  pub running : Bool
  pub mode : Text
  pub listen_addr : Text
  pub pac_url : Text
  pub resolver_mode : Text
  pub resolver_servers : List Text
  pub upstream_profiles : ℕ
  pub rollback : Bool
  pub cert_installed : Bool
  pub startup_probes : List ProbeResult
  pub last_error : Option EngineError
  pub rule_set_name : Text
  pub rule_set_version : Text
  pub rule_set_updated_at : Text
  pub providers : List Summary
  pub rule_count : ℕ
  pub system_changes : List SystemChange
  -- SystemDNS of the interception's status, where there is one
  pub system_dns : Option Bool

module _ {S : Type 0} (calls : Calls S) where
  unfoldable pub status : Engine → World S → Status
  status e w = record {
    running = e.running;
    mode = e.cfg.mode;
    listen_addr = if e.servers.proxy then calls.proxy_addr else [];
    pac_url = e.pac_url;
    resolver_mode = e.resolver.mode;
    resolver_servers = e.resolver.servers;
    upstream_profiles = e.upstream_profiles;
    rollback = calls.has_rollback_state e.cfg.runtime.rollback_path w.system;
    cert_installed = e.cert_ok;
    startup_probes = e.startup_probes;
    last_error = e.last_err;
    rule_set_name = e.rule_set.name;
    rule_set_version = e.rule_set.version;
    rule_set_updated_at = e.rule_set.updated_at;
    providers = e.providers;
    rule_count = e.rule_count;
    system_changes = e.system_changes;
    system_dns =
        if e.servers.dns
        then some (text_eq e.cfg.dns.strategy strategy_system && e.running)
        else none;
  }

-- The engine of an accepted configuration.
abbrev pub fresh : AppConfig → Engine
fresh cfg = record {
  cfg = cfg;
  running = false;
  servers = no_servers;
  pac_url = [];
  cert_ok = false;
  resolver = empty_resolver;
  upstream_profiles = 0;
  startup_probes = [];
  rule_set = empty_rule_set;
  providers = [];
  system_changes = [];
  rule_count = 0;
  last_err = none;
}

unfoldable pub new_engine : Externals → AppConfig → Result ConfigError Engine
new_engine x cfg = do accepted ← validate x cfg; ok (fresh accepted)
