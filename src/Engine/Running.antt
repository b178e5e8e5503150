-- ===== src/Engine/Running.antt =====
-- Start of internal/engine/engine.go over the engine and the world. It holds the lock while it looks
-- whether the engine runs, and again while it writes the fields, and not between the two.
use siteboost_core.Config.Types.{Config as AppConfig}
use siteboost_core.SystemProxy.{Config as SystemProxyConfig}
use siteboost_core.Engine.Types.{
  Servers, World, EngineError, already_running, proxy_not_started, bad_pac, pac_not_started,
  system_proxy_not_applied, Calls, Engine,
}
use siteboost_core.Engine.Planning.{Plan, make_plan, rule_set_info}
use siteboost_core.Engine.Starting.{
  Parts, proxy_only, proxy_and_pac, set_proxy, set_pac, start_hosts_mode, start_dns_mode,
}
use siteboost_core.Common.{
  if◌then◌else◌, Result, ok, err, Bool, true, false, Option, none, some, [],
}
use siteboost_core.Text.{Text, text_eq}
use siteboost_core.External.{Externals}
use siteboost_core.Config.Names.{mode_pac, mode_system, mode_hosts, mode_dns}
use siteboost_core.Provider.{summaries}
use siteboost_core.Rules.{rules, rule_count}
use siteboost_core.Pac.{generate}
use siteboost_core.SystemProxy.{ProxyError}

abbrev pub proxy_parts : Servers → Text → Parts
proxy_parts servers url = record {
  servers = servers;
  pac_url = url;
  cert_ok = false;
  startup_probes = [];
  system_changes = [];
}

-- The error that is returned, if any, the engine and the world.
abbrev pub Reply : Type 0 → Type 0
Reply S = Option EngineError × Engine × World S

module _ {S : Type 0} (x : Externals) (calls : Calls S) where
  abbrev pub proxy_config : AppConfig → Text → SystemProxyConfig
  proxy_config cfg url = record {
    mode = cfg.mode;
    proxy_addr = calls.proxy_addr;
    pac_url = url;
    rollback_path = cfg.runtime.rollback_path;
    services = cfg.system.services;
  }

  -- What follows the change of the system's settings.
  abbrev pub proxy_changed :
      Servers
      → Text
      → World S
      → Result ProxyError (Unit {0}) × S
      → Result EngineError Parts × World S
  proxy_changed servers url w (ok _, changed) =
      (ok (proxy_parts servers url), record w { system = changed })
  proxy_changed servers url w (err cause, changed) =
      let next = record w { system = changed } in
      (
        err (system_proxy_not_applied cause),
        set_proxy false (if servers.pac then set_pac false next else next),
      )

  -- Pac and system mode with their servers up.
  unfoldable pub change_proxy :
      AppConfig → Servers → Text → World S → Result EngineError Parts × World S
  change_proxy cfg servers url w =
      proxy_changed servers url w (calls.apply_system_proxy (proxy_config cfg url) w.system)

  -- Pac mode with the proxy up.
  unfoldable pub start_pac : AppConfig → Plan → World S → Result EngineError Parts × World S
  start_pac cfg plan w = elim (generate calls.proxy_addr (rules plan.matcher)) [
    | err cause ↦ (err (bad_pac cause), set_proxy false w)
    | ok _ ↦ elim calls.pac_listens [
      | false ↦ (err pac_not_started, set_proxy false w)
      | true ↦ change_proxy cfg proxy_and_pac calls.pac_url (set_pac true w)
    ]
  ]

  unfoldable pub start_proxy_modes : AppConfig → Plan → World S → Result EngineError Parts × World S
  start_proxy_modes cfg plan w = elim calls.proxy_listens [
    | false ↦ (err proxy_not_started, w)
    | true ↦ elim (text_eq cfg.mode mode_pac) [
      | true ↦ start_pac cfg plan (set_proxy true w)
      | false ↦ elim (text_eq cfg.mode mode_system) [
        | true ↦ change_proxy cfg proxy_only [] (set_proxy true w)
        | false ↦ (ok (proxy_parts proxy_only []), set_proxy true w)
      ]
    ]
  ]

  unfoldable pub start_mode : AppConfig → Plan → World S → Result EngineError Parts × World S
  start_mode cfg plan w = elim (text_eq cfg.mode mode_hosts) [
    | true ↦ start_hosts_mode x calls cfg plan w
    | false ↦ elim (text_eq cfg.mode mode_dns) [
      | true ↦ start_dns_mode x calls cfg plan w
      | false ↦ start_proxy_modes cfg plan w
    ]
  ]

  -- The fields that Start writes under the lock.
  abbrev pub commit : Plan → Parts → Engine → Engine
  commit plan parts e = record {
    cfg = e.cfg;
    running = true;
    servers = parts.servers;
    pac_url = parts.pac_url;
    cert_ok = parts.cert_ok;
    resolver = plan.resolver;
    upstream_profiles = plan.profile_count;
    startup_probes = parts.startup_probes;
    rule_set = rule_set_info x plan.providers plan.matcher;
    providers = summaries x plan.providers;
    system_changes = parts.system_changes;
    rule_count = rule_count plan.matcher;
    last_err = none;
  }

  unfoldable pub commit_started : Plan → Result EngineError Parts × World S → Engine → Reply S
  commit_started plan (err cause, w) e = (some cause, e, w)
  commit_started plan (ok parts, w) e = (none, commit plan parts e, w)

  -- Start behind the look at `running`.
  unfoldable pub start_checked : Engine → World S → Reply S
  start_checked e w = elim (make_plan x e.cfg) [
    | err cause ↦ (some cause, e, w)
    | ok plan ↦ commit_started plan (start_mode e.cfg plan w) e
  ]

  -- Start once it has read `running`.
  abbrev pub start_if : Bool → Engine → World S → Reply S
  start_if true e w = (some already_running, e, w)
  start_if false e w = start_checked e w

  unfoldable pub start : Engine → World S → Reply S
  start e w = start_if e.running e w
