-- ===== src/Engine/Stopping.antt =====
-- Stop of internal/engine/engine.go. A server that is stopped is down, also where its stop reports an
-- error.
use siteboost_core.Config.Types.{Config as AppConfig}
use siteboost_core.Resolver.{Config as ResolverConfig}
use siteboost_core.Engine.Types.{
  Servers, no_servers, World, Restored, restore_failed, EngineError, proxy_not_stopped,
  pac_not_stopped, reverse_not_stopped, dns_not_stopped, not_restored, Calls, Engine,
}
use siteboost_core.Engine.Running.{Reply}
use siteboost_core.Common.{Bool, true, false, not, ◌&&◌, ◌||◌, Option, none, some, []}
use siteboost_core.Text.{Text, text_eq}
use siteboost_core.Config.Names.{mode_pac, mode_system, mode_hosts, mode_dns, strategy_system}
use siteboost_core.Rules.{RuleSetInfo}
use siteboost_core.SystemDns.{restore}

abbrev pub empty_resolver : ResolverConfig
empty_resolver = record {
  mode = [];
  servers = [];
  prefer_ipv4 = false;
  prefer_ipv6 = false;
  disable_ipv6 = false;
  cache_ttl = 0;
  timeout = 0;
}

abbrev pub empty_rule_set : RuleSetInfo
empty_rule_set = record {
  name = [];
  version = [];
  updated_at = [];
  group_count = 0;
  exact_count = 0;
  wildcard_count = 0;
}

-- The fields that Stop resets under the lock.
abbrev pub reset : Engine → Engine
reset e = record e {
  running = false;
  servers = no_servers;
  pac_url = [];
  cert_ok = false;
  resolver = empty_resolver;
  upstream_profiles = 0;
  startup_probes = [];
  rule_set = empty_rule_set;
  providers = [];
  system_changes = [];
}

-- A state that is missing is no error.
abbrev pub note_restored : Restored → Option EngineError → Option EngineError
note_restored restore_failed cause = some not_restored
note_restored _ cause = cause

-- `if stopErr := server.Stop(ctx); err == nil { err = stopErr }`, for a server that is there.
abbrev pub note_stopped : Bool → Bool → EngineError → Option EngineError → Option EngineError
note_stopped true false failure none = some failure
note_stopped _ _ failure cause = cause

-- The servers that stay up when those that the engine holds are stopped.
abbrev pub still_up : Servers → Servers → Servers
still_up held up = record {
  proxy = up.proxy && not held.proxy;
  pac = up.pac && not held.pac;
  reverse = up.reverse && not held.reverse;
  dns = up.dns && not held.dns;
}

abbrev pub restore_if :
    {S : Type 0}
    → Bool
    → (Text → S → Restored × S)
    → Text
    → Option EngineError × S
    → Option EngineError × S
restore_if false restore path sofar = sofar
restore_if true restore path (cause, system) =
    let (restored, back) = restore path system in (note_restored restored cause, back)

module _ {S : Type 0} (calls : Calls S) where
  -- The restores of the modes, in the code's order.
  unfoldable pub restore_system : AppConfig → S → Option EngineError × S
  restore_system cfg system =
      let path = cfg.runtime.rollback_path in
      restore_if (text_eq cfg.mode mode_dns && text_eq cfg.dns.strategy strategy_system)
        calls.restore_system_dns path
        (restore_if (text_eq cfg.mode mode_hosts) calls.restore_hosts path (
          restore_if (text_eq cfg.mode mode_pac || text_eq cfg.mode mode_system)
            calls.restore_system_proxy path (none, system)))

  unfoldable pub stop_servers : Servers → Option EngineError → Option EngineError
  stop_servers servers cause = note_stopped servers.proxy calls.proxy_stops proxy_not_stopped (
      note_stopped servers.reverse calls.reverse_stops reverse_not_stopped (
        note_stopped servers.dns calls.dns_stops dns_not_stopped
          (note_stopped servers.pac calls.pac_stops pac_not_stopped cause)))

  unfoldable pub stop : Engine → World S → Reply S
  stop e w =
      let held = e.servers in
      elim (held.proxy || held.reverse || held.dns) [
        | false ↦ (none, reset e, w)
        | true ↦
            let (cause, back) = restore_system e.cfg w.system in
            let last = stop_servers held cause in
            (
              last,
              record (reset e) { last_err = last },
              record { up = still_up held w.up; system = back },
            )
      ]
