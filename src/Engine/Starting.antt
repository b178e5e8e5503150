-- ===== src/Engine/Starting.antt =====
-- Start of internal/engine/engine.go: the servers of each mode and the changes of the system, with
-- what is undone when a step fails. A stop on such a path ignores its error, as the code does.
use siteboost_core.Config.Types.{Config as AppConfig}
use siteboost_core.Hosts.Platform.{Config as HostsConfig}
use siteboost_core.SystemDns.{Config as SystemDnsConfig}
use siteboost_core.DnsIntercept.Starting.{config_from_app as intercept_config}
use siteboost_core.SystemDns.FromApp.{config_from_app as system_dns_config}
use siteboost_core.Engine.Types.{
  Servers, World, SystemChange, ProbeResult, PrepareHostsResult, SystemDnsResult, Restored,
  restore_failed, EngineError, bad_entries, reverse_not_started, hosts_not_prepared, bad_system_dns,
  system_dns_refused, bad_interception, dns_not_started, system_dns_not_applied,
  system_dns_not_restored, Calls,
}
use siteboost_core.Engine.Planning.{Plan, cert_trust_change, system_dns_change}
use siteboost_core.Engine.PreparingHosts.{prepare_hosts_for_start}
use siteboost_core.Common.{
  if◌then◌else◌, is_empty, Result, ok, err, ◌>>=◌, map_error, Bool, true, false, not, ◌&&◌, Option,
  none, some, List, [], ◌∷◌, ◌++◌,
}
use siteboost_core.Text.{Text, text}
use siteboost_core.External.{Externals}
use siteboost_core.Provider.{probe_targets}
use siteboost_core.Rules.{rules}
use siteboost_core.Hosts.{Entry, entries_from_rules}
use siteboost_core.Resolver.Starting.{uses_direct_upstream, uses_system_dns}
use siteboost_core.Upstream.Starting.{Dialer, direct_dialer}
use siteboost_core.SystemDns.{DnsError, preflight}
use siteboost_core.DnsIntercept.Starting.{ServerConfig, new_server, RawForwarder, new_raw_forwarder}

-- What a successful start leaves in the engine, beside the plan.
pub record Parts : Type 0 where
  pub servers : Servers
  pub pac_url : Text
  pub cert_ok : Bool
  pub startup_probes : List ProbeResult
  pub system_changes : List SystemChange

abbrev pub change : Text → Text → Text → SystemChange
change component action detail = record {
  component = component;
  action = action;
  status = text "ok";
  detail = detail;
}

abbrev pub reverse_only : Servers
reverse_only = record { proxy = false; pac = false; reverse = true; dns = false }

abbrev pub reverse_and_dns : Servers
reverse_and_dns = record { proxy = false; pac = false; reverse = true; dns = true }

abbrev pub proxy_only : Servers
proxy_only = record { proxy = true; pac = false; reverse = false; dns = false }

abbrev pub proxy_and_pac : Servers
proxy_and_pac = record { proxy = true; pac = true; reverse = false; dns = false }

abbrev pub is_direct_dialer : Dialer → Bool
is_direct_dialer (direct_dialer _ _) = true
is_direct_dialer _ = false

module _ {S : Type 0} where
  abbrev pub set_proxy : Bool → World S → World S
  set_proxy up w = record w { up = record w.up { proxy = up } }

  abbrev pub set_pac : Bool → World S → World S
  set_pac up w = record w { up = record w.up { pac = up } }

  abbrev pub set_reverse : Bool → World S → World S
  set_reverse up w = record w { up = record w.up { reverse = up } }

  abbrev pub set_dns : Bool → World S → World S
  set_dns up w = record w { up = record w.up { dns = up } }

module _ {S : Type 0} (x : Externals) (calls : Calls S) (cfg : AppConfig) (plan : Plan) where
  abbrev pub Started : Type 0
  Started = Result EngineError Parts × World S

  -- The probes of hosts and DNS mode; runStartupProbes is asked only where there is a target.
  unfoldable pub startup_probes : List ProbeResult
  startup_probes =
      let targets = probe_targets plan.providers in
      if is_direct_dialer plan.dialer
        && uses_direct_upstream cfg.upstream.type
        && not (is_empty targets)
      then calls.run_startup_probes targets
      else []

  abbrev pub helper_detail : Bool → Text
  helper_detail via_helper = if via_helper then text "helper=elevated" else []

  abbrev pub hosts_changes : PrepareHostsResult → List SystemChange
  hosts_changes prepare =
      change (text "reverse_proxy") (text "listen") []
      ∷ cert_trust_change prepare.cert
      ∷ change (text "hosts") (text "preflight") (helper_detail prepare.cert.via_helper)
      ∷ change (text "hosts") (text "apply") (
          text "entries="
          ++ calls.decimal prepare.entries
          ++ (if prepare.cert.via_helper then text ",helper=elevated" else []))
      ∷ []

  abbrev pub hosts_config : List Entry → HostsConfig
  hosts_config entries = record {
    path = cfg.hosts.path;
    rollback_path = cfg.runtime.rollback_path;
    map_ip = cfg.hosts.map_ip;
    entries = entries;
  }

  -- Hosts mode, with the reverse proxy up.
  unfoldable pub change_hosts : List Entry → World S → Started
  change_hosts entries w =
      let (prepare, changed) =
        prepare_hosts_for_start calls cfg.cert.store_scope (hosts_config entries)
          cfg.cert.auto_install w.system in
      elim prepare [
        | err cause ↦
            (err (hosts_not_prepared cause), set_reverse false (record w { system = changed }))
        | ok result ↦ (
          ok (record {
            servers = reverse_only;
            pac_url = [];
            cert_ok = result.cert_trusted;
            startup_probes = startup_probes;
            system_changes = hosts_changes result;
          }),
          record w { system = changed },
        )
      ]

  unfoldable pub start_hosts_mode : World S → Started
  start_hosts_mode w = elim ((entries_from_rules x (rules plan.matcher) cfg.hosts.map_ip).0) [
    | err cause ↦ (err (bad_entries cause), w)
    | ok entries ↦ elim calls.reverse_listens [
      | false ↦ (err reverse_not_started, w)
      | true ↦ change_hosts entries (set_reverse true w)
    ]
  ]

  abbrev pub dns_parts : List SystemChange → Parts
  dns_parts changes = record {
    servers = reverse_and_dns;
    pac_url = [];
    cert_ok = false;
    startup_probes = startup_probes;
    system_changes = changes;
  }

  -- The error of a failed change, and of the restore behind it.
  abbrev pub failed_apply : DnsError → Restored → EngineError
  failed_apply cause restore_failed = system_dns_not_restored cause
  failed_apply cause _ = system_dns_not_applied cause

  -- DNS mode with both servers up; `preflight` is given where the system's DNS is to be changed.
  unfoldable pub change_dns : Option (SystemDnsConfig × SystemDnsResult) → World S → Started
  change_dns none w = (ok (dns_parts []), w)
  change_dns (some (dns_cfg, preflight)) w =
      let (applied, changed) = calls.apply_system_dns dns_cfg w.system in
      elim applied [
        | ok result ↦ (
          ok (
              dns_parts (
                system_dns_change calls.decimal (text "preflight") preflight
                ∷ system_dns_change calls.decimal (text "apply") result
                ∷ [])),
          record w { system = changed },
        )
        | err cause ↦
            let (restored, back) = calls.restore_system_dns cfg.runtime.rollback_path changed in
            (
              err (failed_apply cause restored),
              set_reverse false (set_dns false (record w { system = back })),
            )
      ]

  -- The server and the forwarder of the interception.
  unfoldable pub build_interception : Result EngineError (ServerConfig × RawForwarder)
  build_interception = do
    forwarder ← map_error bad_interception (new_raw_forwarder plan.resolver)
    server ← map_error bad_interception (new_server (intercept_config x cfg))
    ok (server, forwarder)

  -- DNS mode with the reverse proxy up.
  unfoldable pub start_interception : Option (SystemDnsConfig × SystemDnsResult) → World S → Started
  start_interception preflight w = elim build_interception [
    | err cause ↦ (err cause, set_reverse false w)
    | ok _ ↦ elim calls.dns_listens [
      | false ↦ (err dns_not_started, set_reverse false w)
      | true ↦ change_dns preflight (set_dns true w)
    ]
  ]

  unfoldable pub preflight_dns : S → Result EngineError (Option (SystemDnsConfig × SystemDnsResult))
  preflight_dns system =
      if uses_system_dns cfg
      then (do
        dns_cfg ← map_error bad_system_dns (system_dns_config x cfg)
        preflight ← map_error system_dns_refused (calls.preflight_system_dns dns_cfg system)
        ok (some (dns_cfg, preflight)))
      else ok none

  unfoldable pub start_dns_mode : World S → Started
  start_dns_mode w = elim (preflight_dns w.system) [
    | err cause ↦ (err cause, w)
    | ok preflight ↦ elim calls.reverse_listens [
      | false ↦ (err reverse_not_started, w)
      | true ↦ start_interception preflight (set_reverse true w)
    ]
  ]
