-- ===== src/Tests/Engines.antt =====
-- The theorems on the engine at concrete calls.
use siteboost_core.Upstream.Starting.{config_from_app as upstream_config}
use siteboost_core.Upstream.Starting.{config_from_app as upstream_config}
use siteboost_core.SystemProxy.{ProxyError, platform_failed as proxy_failed}
use siteboost_core.SystemDns.{platform_failed}
use siteboost_core.Rollback.{absent}
use siteboost_core.SystemProxy.Registry.{AllSucceed, IsDword}
use siteboost_core.SystemProxy.Applying.{IsWorking}
use siteboost_core.Tests.Inputs.{externals, disk, registry}
use siteboost_core.Tests.Configs.{defaults}
use siteboost_core.Config.Types.{Config}
use siteboost_core.Engine.Types.{
  no_servers, TrustResult, was_restored, nothing_to_restore, system_proxy_not_applied, Calls,
}
use siteboost_core.Engine.Planning.{Plan, enabled_providers, build_matcher, make_plan}
use siteboost_core.Engine.Running.{Reply, start}
use siteboost_core.Engine.Stopping.{reset, stop}
use siteboost_core.Engine.Reporting.{fresh}
use siteboost_core.Engine.Modes.{with_up}
use siteboost_core.Engine.Refining.{
  Phase, idle, Command, start_with, stop_with, Run, Represents, execute_all, execute_all-refines,
}
use siteboost_core.Engine.Undoing.{failed_system_proxy_left}
use siteboost_core.Engine.WindowsProxy.{ProxyWorld, with_windows_proxy, windows_stop-start}
use siteboost_core.Common.{
  eq_of_some_eq, Result, ok, err, map_results, insert, ℕ, suc, ◌*◌, ◌^◌, ◌<◌, ◌≡◌, refl, subst,
  true, false, none, some, List, [], ◌∷◌, arith,
}
use siteboost_core.Text.{
  text, text_eq, is_space, trim_left, push_trimmed, trim_right, trim_space, strip_prefix,
  has_prefix, trim_prefix, trim_suffix, contains, contains_any, to_lower,
}
use siteboost_core.Text.Address.{has_char, cut, cut_last, split_bracketed, split_host_port}
use siteboost_core.External.{to4, is_loopback}
use siteboost_core.Rules.{
  strip_port, normalize_host, normalize_rule, add_entry, add_domains, add_group, add_groups,
  new_matcher,
}
use siteboost_core.Config.Names.{mode_system, default_doh_servers}
use siteboost_core.Config.Normalizing.{
  switch, trim_strings, normalize_mode, normalize_dns_intercept_strategy,
  normalize_page_enhance_on_error, normalize_non_target_behavior, normalize_resolver_mode,
  normalize_cert_store_scope, normalize_upstream_type, lower_strings, normalize_provider_ids,
  dedupe_from, dedupe_strings, validate_listen_addr, normalize_optional_profile_host,
}
use siteboost_core.Config.Intercept.{
  check_strategy, validate_dns_system_config, check_map_addresses, validate_active_dns,
  check_dns_config, validate_dns_config,
}
use siteboost_core.Config.Profiles.{
  normalize_profile_domain, validate_outbound_profile, validate_outbound_profiles,
}
use siteboost_core.Config.Enhancement.{validate_page_enhance_config}
use siteboost_core.Config.Defaults.{second, default_config}
use siteboost_core.Config.Validating.{
  validate_proxy, validate_pac, validate_hosts, validate_cert, validate_runtime, check_resolver,
  validate_resolver, validate_upstream, validate_parts, validate,
}
use siteboost_core.Config.Accepted.{validate-IsValid}
use siteboost_core.Upstream.Starting.{direct_dialer, new_dialer}
use siteboost_core.Upstream.Profile.{compile_profiles}
use siteboost_core.Resolver.Starting.{
  uses_direct_upstream, requires_loop_safe_resolver, effective_resolver_config,
}
use siteboost_core.Provider.{rule_groups, outbound_profiles, resolve_ids, resolve_enabled}

abbrev trust : TrustResult
trust = record { store_scope = []; already_trusted = true; changed = false; via_helper = false }

-- A counter of the changes may stand for the system. The calls succeed and leave the system as it is, but for those of the system DNS, the helper, and the given change of the proxy settings.
abbrev calls_on : {S : Type 0} → (S → Result ProxyError (Unit {0}) × S) → Calls S
calls_on change_proxy_settings = record {
  decimal = λ n. [];
  proxy_listens = true;
  pac_listens = true;
  reverse_listens = true;
  dns_listens = true;
  proxy_stops = true;
  pac_stops = true;
  reverse_stops = true;
  dns_stops = false;
  proxy_addr = text "127.0.0.1:1";
  pac_url = text "http://h/p";
  run_startup_probes = λ targets. [];
  has_rollback_state = λ path s. false;
  should_use_helper = false;
  on_windows = true;
  is_permission = λ cause. true;
  ensure_root_ca = true;
  is_cert_installed = some true;
  ensure_cert_trusted = λ s. (some trust, s);
  prepare_hosts_elevated = λ cfg auto s. (none, s);
  preflight_hosts = λ cfg s. true;
  apply_hosts = λ cfg s. (true, s);
  restore_hosts = λ path s. (was_restored, s);
  preflight_system_dns = λ cfg s. err platform_failed;
  apply_system_dns = λ cfg s. (err platform_failed, s);
  restore_system_dns = λ path s. (nothing_to_restore, s);
  apply_system_proxy = λ cfg s. change_proxy_settings s;
  restore_system_proxy = λ path s. (was_restored, s);
}

abbrev failing : Calls ℕ
failing = calls_on (λ n. (err proxy_failed, suc n))

abbrev commands : List (Command ℕ)
commands = start_with failing ∷ start_with failing ∷ stop_with failing ∷ stop_with failing ∷ []

execute_all-refines_example :
    (q : Phase) × Run commands
      (execute_all externals commands (fresh defaults) (with_up no_servers 7)).0
      idle
      q
    × Represents q
        (execute_all externals commands (fresh defaults) (with_up no_servers 7)).1
        (execute_all externals commands (fresh defaults) (with_up no_servers 7)).2
    × ((execute_all externals commands (fresh defaults) (with_up no_servers 7)).1.cfg ≡ defaults)
execute_all-refines_example = execute_all-refines externals commands defaults 7

-- System mode with one rule and no provider.
abbrev system_config : Config
system_config = record defaults {
  mode = mode_system;
  providers = record { enabled = some [] };
  rules = record { custom_domains = text "c.d" ∷ [] };
}

abbrev system_plan : Plan
system_plan = record {
  providers = [];
  matcher = record {
    exact =
        (text "c.d", record { group = text "custom"; rule = text "c.d"; host = text "c.d" }) ∷ [];
    wildcard = [];
  };
  resolver = effective_resolver_config system_config;
  dialer = direct_dialer [] (30 * second);
  profile_count = 0;
}

system_plan_made : make_plan externals system_config ≡ ok system_plan
unfolding make_plan build_matcher enabled_providers resolve_enabled resolve_ids rule_groups
    outbound_profiles new_matcher add_groups add_group add_domains add_entry normalize_rule
    new_dialer compile_profiles insert uses_direct_upstream upstream_config default_config
    effective_resolver_config requires_loop_safe_resolver normalize_host strip_port cut cut_last
    has_char split_bracketed split_host_port contains contains_any has_prefix is_space push_trimmed
    strip_prefix trim_left trim_right trim_prefix trim_suffix trim_space text_eq to_lower
system_plan_made = refl

failed_system_proxy_left_example :
    (start externals failing (fresh system_config) (with_up no_servers 7)
      ≡ (some (system_proxy_not_applied proxy_failed), fresh system_config, with_up no_servers 8))
    × (stop failing (fresh system_config) (with_up no_servers 8)
        ≡ (none, reset (fresh system_config), with_up no_servers 8))
unfolding text_eq
failed_system_proxy_left_example =
    failed_system_proxy_left externals failing (fresh system_config) system_plan 7 refl refl
      system_plan_made refl refl proxy_failed 8 refl

system_config_accepted : validate externals system_config ≡ ok system_config
unfolding validate default_config validate_parts validate_dns_config check_dns_config check_strategy
    validate_active_dns check_map_addresses validate_dns_system_config validate_proxy validate_pac
    validate_hosts validate_cert validate_runtime validate_resolver check_resolver validate_upstream
    validate_outbound_profiles validate_outbound_profile map_results normalize_profile_domain
    normalize_optional_profile_host validate_page_enhance_config validate_listen_addr normalize_mode
    normalize_dns_intercept_strategy normalize_page_enhance_on_error normalize_non_target_behavior
    normalize_resolver_mode normalize_cert_store_scope normalize_upstream_type switch trim_strings
    lower_strings normalize_provider_ids dedupe_from dedupe_strings is_loopback to4
    default_doh_servers normalize_host strip_port cut cut_last has_char split_bracketed
    split_host_port contains contains_any has_prefix is_space push_trimmed strip_prefix trim_left
    trim_prefix trim_right trim_suffix trim_space text_eq to_lower
system_config_accepted = refl

abbrev corporate : ProxyWorld
corporate = record {
  rollback = absent;
  system = record {
    proxy_enable = some 1;
    proxy_server = some (text "corp:8");
    auto_config_url = none;
  };
}

abbrev quiet : Calls ProxyWorld
quiet = calls_on (λ s. (ok tt, s))

corporate-IsDword : IsDword corporate.system
corporate-IsDword v h = subst (λ n. n < 2 ^ 32) (eq_of_some_eq 1 v h) (omega arith)

registry-AllSucceed : AllSucceed registry
registry-AllSucceed = record { reads = refl; opens = refl; writes = λ _. refl; notifies = refl }

disk-IsWorking : IsWorking disk
disk-IsWorking = record { write = refl; readable = refl; removable = refl }

abbrev run : Reply ProxyWorld
run =
    start externals (with_windows_proxy externals registry disk quiet) (fresh system_config)
      (with_up no_servers corporate)

windows_stop-start_example :
    (run.0 ≡ none)
    × ((stop (with_windows_proxy externals registry disk quiet) run.1 run.2).0 ≡ none)
    × ((stop (with_windows_proxy externals registry disk quiet) run.1 run.2).2.up ≡ no_servers)
    × ((stop (with_windows_proxy externals registry disk quiet) run.1 run.2).2.system ≡ corporate)
unfolding text_eq split_host_port
windows_stop-start_example =
    windows_stop-start externals registry disk quiet system_config system_plan corporate
      registry-AllSucceed disk-IsWorking
      (validate-IsValid externals system_config system_config system_config_accepted) refl
      system_plan_made refl refl refl corporate-IsDword
