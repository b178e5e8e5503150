-- ===== src/Engine/Modes.antt =====
-- What the start of each mode leaves up: all the servers of the mode, or none.
use siteboost_core.Config.Types.{Config as AppConfig}
use siteboost_core.SystemDns.{Config as SystemDnsConfig}
use siteboost_core.Engine.Types.{Servers, no_servers, World, SystemDnsResult, EngineError, Calls}
use siteboost_core.Engine.Planning.{Plan}
use siteboost_core.Engine.PreparingHosts.{prepare_hosts_for_start}
use siteboost_core.Engine.Starting.{
  Parts, reverse_only, reverse_and_dns, proxy_only, proxy_and_pac, hosts_config, change_hosts,
  start_hosts_mode, change_dns, build_interception, start_interception, preflight_dns,
  start_dns_mode,
}
use siteboost_core.Engine.Running.{
  proxy_changed, change_proxy, start_pac, start_proxy_modes, start_mode,
}
use siteboost_core.Common.{
  if◌then◌else◌, Bool-cases, Result, ok, err, Result-cases, ◌≡◌, refl, ◌⊎◌, inl, inr, true, false,
  Option, none, some, List, [],
}
use siteboost_core.Text.{Text, text_eq}
use siteboost_core.External.{Externals}
use siteboost_core.Config.Names.{mode_pac, mode_system, mode_hosts, mode_dns}
use siteboost_core.Rules.{rules}
use siteboost_core.Hosts.{Entry, entries_from_rules}
use siteboost_core.Pac.{generate}
use siteboost_core.SystemDns.{preflight}
use siteboost_core.SystemProxy.{ProxyError}

-- The servers of a mode.
unfoldable pub expected_servers : AppConfig → Servers
expected_servers cfg = elim (text_eq cfg.mode mode_hosts) [
  | true ↦ reverse_only
  | false ↦ elim (text_eq cfg.mode mode_dns) [
    | true ↦ reverse_and_dns
    | false ↦ if text_eq cfg.mode mode_pac then proxy_and_pac else proxy_only
  ]
]

module _ {S : Type 0} where
  abbrev pub with_up : Servers → S → World S
  with_up servers system = record { up = servers; system = system }

  -- All of the servers are up, and handed over, or none is.
  abbrev pub AllOrNone : Servers → Result EngineError Parts × World S → Type 0
  AllOrNone servers (reply, w) =
      ((cause : EngineError) × (reply ≡ err cause) × (w.up ≡ no_servers))
      ⊎ ((parts : Parts) × (reply ≡ ok parts) × (parts.servers ≡ servers) × (w.up ≡ servers))

module _ {S : Type 0} (x : Externals) (calls : Calls S) (cfg : AppConfig) (plan : Plan) where
  change_hosts-AllOrNone :
      (entries : List Entry) (system : S)
      → AllOrNone reverse_only (change_hosts x calls cfg plan entries (with_up reverse_only system))
  unfolding change_hosts
  change_hosts-AllOrNone entries system =
      let prepare =
        prepare_hosts_for_start calls cfg.cert.store_scope (hosts_config x calls cfg plan entries)
          cfg.cert.auto_install system in
      elim (Result-cases prepare.0) [
        | inl (result, e) ↦ rw (e, change_hosts) (inr (_, refl, refl, refl))
        | inr (cause, e) ↦ rw (e, change_hosts) (inl (_, refl, refl))
      ]

  start_hosts_mode-AllOrNone :
      (system : S)
      → AllOrNone reverse_only (start_hosts_mode x calls cfg plan (with_up no_servers system))
  unfolding start_hosts_mode
  start_hosts_mode-AllOrNone system =
      elim (Result-cases (entries_from_rules x (rules plan.matcher) cfg.hosts.map_ip).0) [
        | inr (cause, e) ↦ rw (e, start_hosts_mode) (inl (_, refl, refl))
        | inl (entries, e) ↦ elim (Bool-cases calls.reverse_listens) [
          | inr down ↦ rw (e, down, start_hosts_mode) (inl (_, refl, refl))
          | inl up ↦ rw (e, up, start_hosts_mode) (change_hosts-AllOrNone entries system)
        ]
      ]

  change_dns-AllOrNone :
      (preflight : Option (SystemDnsConfig × SystemDnsResult)) (system : S)
      → AllOrNone reverse_and_dns
          (change_dns x calls cfg plan preflight (with_up reverse_and_dns system))
  unfolding change_dns
  change_dns-AllOrNone none system = inr (_, refl, refl, refl)
  change_dns-AllOrNone (some (dns_cfg, preflight)) system =
      elim (Result-cases (calls.apply_system_dns dns_cfg system).0) [
        | inl (result, e) ↦ rw (e, change_dns) (inr (_, refl, refl, refl))
        | inr (cause, e) ↦ rw (e, change_dns) (inl (_, refl, refl))
      ]

  start_interception-AllOrNone :
      (preflight : Option (SystemDnsConfig × SystemDnsResult)) (system : S)
      → AllOrNone reverse_and_dns
          (start_interception x calls cfg plan preflight (with_up reverse_only system))
  unfolding start_interception
  start_interception-AllOrNone preflight system =
      elim (Result-cases (build_interception x calls cfg plan)) [
        | inr (cause, e) ↦ rw (e, start_interception) (inl (_, refl, refl))
        | inl (built, e) ↦ elim (Bool-cases calls.dns_listens) [
          | inr down ↦ rw (e, down, start_interception) (inl (_, refl, refl))
          | inl up ↦ rw (e, up, start_interception) (change_dns-AllOrNone preflight system)
        ]
      ]

  start_dns_mode-AllOrNone :
      (system : S)
      → AllOrNone reverse_and_dns (start_dns_mode x calls cfg plan (with_up no_servers system))
  unfolding start_dns_mode
  start_dns_mode-AllOrNone system = elim (Result-cases (preflight_dns x calls cfg plan system)) [
    | inr (cause, e) ↦ rw (e, start_dns_mode) (inl (_, refl, refl))
    | inl (preflight, e) ↦ elim (Bool-cases calls.reverse_listens) [
      | inr down ↦ rw (e, down, start_dns_mode) (inl (_, refl, refl))
      | inl up ↦ rw (e, up, start_dns_mode) (start_interception-AllOrNone preflight system)
    ]
  ]

module _ {S : Type 0} (x : Externals) (calls : Calls S) (cfg : AppConfig) where
  proxy_changed_alone :
      (url : Text) (system : S) (done : Result ProxyError (Unit {0}) × S)
      → AllOrNone proxy_only (proxy_changed x calls proxy_only url (with_up proxy_only system) done)
  proxy_changed_alone url system (ok _, changed) = inr (_, refl, refl, refl)
  proxy_changed_alone url system (err cause, changed) = inl (_, refl, refl)

  change_proxy_alone :
      (url : Text) (system : S)
      → AllOrNone proxy_only (change_proxy x calls cfg proxy_only url (with_up proxy_only system))
  unfolding change_proxy
  change_proxy_alone url system = proxy_changed_alone url system _

  proxy_changed_and_pac :
      (url : Text) (system : S) (done : Result ProxyError (Unit {0}) × S)
      → AllOrNone proxy_and_pac
          (proxy_changed x calls proxy_and_pac url (with_up proxy_and_pac system) done)
  proxy_changed_and_pac url system (ok _, changed) = inr (_, refl, refl, refl)
  proxy_changed_and_pac url system (err cause, changed) = inl (_, refl, refl)

  change_proxy_and_pac :
      (url : Text) (system : S)
      → AllOrNone proxy_and_pac
          (change_proxy x calls cfg proxy_and_pac url (with_up proxy_and_pac system))
  unfolding change_proxy
  change_proxy_and_pac url system = proxy_changed_and_pac url system _

  start_pac-AllOrNone :
      (plan : Plan) (system : S)
      → AllOrNone proxy_and_pac (start_pac x calls cfg plan (with_up proxy_only system))
  unfolding start_pac
  start_pac-AllOrNone plan system =
      elim (Result-cases (generate calls.proxy_addr (rules plan.matcher))) [
        | inr (cause, e) ↦ rw (e, start_pac) (inl (_, refl, refl))
        | inl (script, e) ↦ elim (Bool-cases calls.pac_listens) [
          | inr down ↦ rw (e, down, start_pac) (inl (_, refl, refl))
          | inl up ↦ rw (e, up, start_pac) (change_proxy_and_pac calls.pac_url system)
        ]
      ]

  start_proxy_modes-AllOrNone :
      (plan : Plan) (system : S)
      → AllOrNone
          (if text_eq cfg.mode mode_pac then proxy_and_pac else proxy_only)
          (start_proxy_modes x calls cfg plan (with_up no_servers system))
  unfolding start_proxy_modes
  start_proxy_modes-AllOrNone plan system = elim (Bool-cases calls.proxy_listens) [
    | inr down ↦ rw (down, start_proxy_modes) (inl (_, refl, refl))
    | inl up ↦ elim (Bool-cases (text_eq cfg.mode mode_pac)) [
      | inl pac ↦ rw (up, pac, start_proxy_modes) (start_pac-AllOrNone plan system)
      | inr other ↦ elim (Bool-cases (text_eq cfg.mode mode_system)) [
        | inl set ↦ rw (up, other, set, start_proxy_modes) (change_proxy_alone [] system)
        | inr plain ↦ rw (up, other, plain, start_proxy_modes) (inr (_, refl, refl, refl))
      ]
    ]
  ]

  -- Whatever the calls report, a start from a world without servers ends with all the servers of
  -- the mode up, and handed over, or with an error and no server up.
  pub start_mode-AllOrNone :
      (plan : Plan) (system : S)
      → AllOrNone (expected_servers cfg) (start_mode x calls cfg plan (with_up no_servers system))
  unfolding start_mode expected_servers
  start_mode-AllOrNone plan system = elim (Bool-cases (text_eq cfg.mode mode_hosts)) [
    | inl hosts ↦
        rw (hosts, start_mode, expected_servers)
          (start_hosts_mode-AllOrNone x calls cfg plan system)
    | inr other ↦ elim (Bool-cases (text_eq cfg.mode mode_dns)) [
      | inl dns ↦
          rw (other, dns, start_mode, expected_servers)
            (start_dns_mode-AllOrNone x calls cfg plan system)
      | inr proxied ↦
          rw (other, proxied, start_mode, expected_servers)
            (start_proxy_modes-AllOrNone plan system)
    ]
  ]
