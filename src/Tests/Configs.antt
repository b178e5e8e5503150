-- ===== src/Tests/Configs.antt =====
-- The theorems on configurations, and on what is built from them, at concrete ones.
use siteboost_core.SystemDns.{Config as DnsSetting, normalize_config, validate_config}
use siteboost_core.SystemDns.FromApp.{config_from_app as setting_from_app}
use siteboost_core.Tests.Inputs.{loopback_ip, externals}
use siteboost_core.Config.Types.{Config}
use siteboost_core.Common.{
  if◌then◌else◌, Bool-cases, is_some, eq_of_some_eq, length, is_empty, ok, map_results, ℕ, zero,
  ◌≡◌, refl, ap, subst, ◌↔◌, inl, inr, true, false, Option, none, some, List, [], ◌∷◌, ◌++◌,
}
use siteboost_core.Text.{
  Text, text, text_eq, is_space, trim_left, push_trimmed, trim_right, trim_space, strip_prefix,
  has_prefix, trim_prefix, trim_suffix, contains, contains_any, to_lower,
}
use siteboost_core.Text.Address.{has_char, cut, cut_last, split_bracketed, split_host_port}
use siteboost_core.External.{Externals, to4, is_loopback}
use siteboost_core.Rules.{strip_port, normalize_host}
use siteboost_core.Config.Names.{mode_dns, resolver_system, default_doh_servers, strategy_system}
use siteboost_core.Config.Legacy.{
  YamlNode, mapping, scalar, no_entries, entry, legacy, path_text, find_legacy_config_key, Occurs,
  find_legacy_config_key_iff,
}
use siteboost_core.Config.Normalizing.{
  switch, trim_strings, normalize_mode, normalize_dns_intercept_strategy,
  normalize_page_enhance_on_error, normalize_non_target_behavior, normalize_resolver_mode,
  normalize_cert_store_scope, normalize_upstream_type, lower_strings, normalize_provider_ids,
  dedupe_from, dedupe_strings, validate_listen_addr, normalize_optional_profile_host,
}
use siteboost_core.Config.Intercept.{
  check_strategy, validate_dns_system_config, check_map_addresses, validate_active_dns,
  check_dns_config, validate_dns_config,
}
use siteboost_core.Config.Profiles.{
  normalize_profile_domain, validate_outbound_profile, validate_outbound_profiles,
}
use siteboost_core.Config.Enhancement.{validate_page_enhance_config}
use siteboost_core.Config.Defaults.{DefaultPaths, default_config, validate-default_config}
use siteboost_core.Config.Validating.{
  validate_proxy, validate_pac, validate_hosts, validate_cert, validate_runtime, check_resolver,
  validate_resolver, validate_upstream, validate_parts, validate,
}
use siteboost_core.Config.Valid.{IsValid}
use siteboost_core.Config.Accepted.{validate-IsValid}
use siteboost_core.DnsIntercept.Starting.{
  config_from_app, with_defaults, new_server, RawForwarder, new_raw_forwarder,
}
use siteboost_core.Resolver.Starting.{
  new_client, uses_system_dns, effective_resolver_config, loop_safe_resolver, by_dns,
}
use siteboost_core.Engine.DnsMode.{ParsesToSixteen, CanForward, dns_mode_built}
use siteboost_core.Engine.SystemDnsMode.{PrintsBack, system_dns_built}

abbrev pub paths : DefaultPaths
paths = record {
  hosts = text "/etc/hosts";
  cert = text "certs";
  state = text "state.json";
  rollback = text "rollback.json";
}

abbrev pub defaults : Config
defaults = default_config paths

validate-default_config_example : validate externals defaults ≡ ok defaults
unfolding text_eq is_loopback to4 trim_space
validate-default_config_example =
    validate-default_config externals loopback_ip refl refl paths refl refl refl refl

-- DNS mode with the system strategy and one outbound profile, as a file may have it.
abbrev raw_dns : Config
raw_dns = record defaults {
  mode = text " DNS-Intercept ";
  dns = record defaults.dns {
    strategy = text "System";
    interfaces = text " Ethernet " ∷ text "ethernet" ∷ [];
  };
  upstream = record defaults.upstream {
    profiles =
        record {
          match_domains = text "*.A.b" ∷ [];
          candidate_ips = text "127.0.0.1" ∷ [];
          forward_host = [];
          tls_server_name = [];
          ignore_tls_name_mismatch = false;
        }
        ∷ [];
  };
}

abbrev dns_config : Config
dns_config = record defaults {
  mode = mode_dns;
  dns = record defaults.dns {
    enabled = true;
    strategy = strategy_system;
    interfaces = text "Ethernet" ∷ [];
  };
  upstream = record defaults.upstream {
    profiles =
        record {
          match_domains = text "*.a.b" ∷ [];
          candidate_ips = text "127.0.0.1" ∷ [];
          forward_host = [];
          tls_server_name = [];
          ignore_tls_name_mismatch = false;
        }
        ∷ [];
  };
}

raw_dns_accepted : validate externals raw_dns ≡ ok dns_config
unfolding validate default_config validate_parts validate_dns_config check_dns_config check_strategy
    validate_active_dns check_map_addresses validate_dns_system_config validate_proxy validate_pac
    validate_hosts validate_cert validate_runtime validate_resolver check_resolver validate_upstream
    validate_outbound_profiles validate_outbound_profile map_results normalize_profile_domain
    normalize_optional_profile_host validate_page_enhance_config validate_listen_addr normalize_mode
    normalize_dns_intercept_strategy normalize_page_enhance_on_error normalize_non_target_behavior
    normalize_resolver_mode normalize_cert_store_scope normalize_upstream_type switch trim_strings
    lower_strings normalize_provider_ids dedupe_from dedupe_strings is_loopback to4
    default_doh_servers normalize_host strip_port cut cut_last has_char split_bracketed
    split_host_port contains contains_any has_prefix is_space push_trimmed strip_prefix trim_left
    trim_prefix trim_right trim_suffix trim_space text_eq to_lower
raw_dns_accepted = refl

validate-IsValid_example : IsValid externals dns_config
validate-IsValid_example = validate-IsValid externals raw_dns dns_config raw_dns_accepted

dns_config-IsValid : IsValid externals dns_config
dns_config-IsValid = validate-IsValid externals raw_dns dns_config raw_dns_accepted

loop_safe_resolver_example :
    (text_eq (new_client (effective_resolver_config dns_config)).mode resolver_system ≡ false)
    × (is_empty (new_client (effective_resolver_config dns_config)).servers ≡ false)
loop_safe_resolver_example =
    loop_safe_resolver externals dns_config dns_config-IsValid (by_dns refl)

sixteen : ParsesToSixteen externals
sixteen address ip h = elim (Bool-cases (text_eq address (text "127.0.0.1"))) [
  | inl e ↦ subst (λ ip. length ip ≡ 16) (eq_of_some_eq loopback_ip ip (rw e at h)) refl
  | inr e ↦ cc (rw e at h)
]

dns_mode_built_example :
    (new_server (config_from_app externals dns_config)
      ≡ ok (with_defaults (config_from_app externals dns_config)))
    × ((f : RawForwarder) × (new_raw_forwarder (effective_resolver_config dns_config) ≡ ok f)
        × CanForward externals f)
unfolding text_eq
dns_mode_built_example = dns_mode_built externals sixteen dns_config dns_config-IsValid refl

abbrev without_last : List ℕ → List ℕ
without_last [] = []
without_last (c ∷ []) = []
without_last (c ∷ d ∷ s) = c ∷ without_last (d ∷ s)

-- Addresses printed so that they are read back: the bytes between two marks.
abbrev printed : List ℕ → Option (List ℕ)
printed (zero ∷ ip) = some (without_last ip)
printed address = if text_eq address (text "127.0.0.1") then some loopback_ip else none

abbrev printing : Externals
printing = record externals { parse_ip = printed; ip_text = λ ip. 0 ∷ (ip ++ 0 ∷ []) }

without_last-append : (s : List ℕ) → without_last (s ++ 0 ∷ []) ≡ s
without_last-append [] = refl
without_last-append (c ∷ []) = refl
without_last-append (c ∷ d ∷ s) = ap (λ t. c ∷ t) (without_last-append (d ∷ s))

trim_right-append : (s : List ℕ) → trim_right is_space (s ++ 0 ∷ []) ≡ s ++ 0 ∷ []
unfolding trim_right push_trimmed is_space
trim_right-append [] = refl
trim_right-append (c ∷ []) = refl
trim_right-append (c ∷ d ∷ s) = ap (λ t. push_trimmed is_space c t) (trim_right-append (d ∷ s))

trim_space-printed : (ip : List ℕ) → trim_space (0 ∷ (ip ++ 0 ∷ [])) ≡ 0 ∷ (ip ++ 0 ∷ [])
unfolding trim_space trim_left is_space
trim_space-printed ip = trim_right-append (0 ∷ ip)

printing-PrintsBack : PrintsBack printing
printing-PrintsBack ip four = (
  (without_last (ip ++ 0 ∷ []), refl, ap to4 (without_last-append ip)),
  trim_space-printed ip,
  refl,
)

printing_accepted : validate printing raw_dns ≡ ok dns_config
unfolding validate default_config validate_parts validate_dns_config check_dns_config check_strategy
    validate_active_dns check_map_addresses validate_dns_system_config validate_proxy validate_pac
    validate_hosts validate_cert validate_runtime validate_resolver check_resolver validate_upstream
    validate_outbound_profiles validate_outbound_profile map_results normalize_profile_domain
    normalize_optional_profile_host validate_page_enhance_config validate_listen_addr normalize_mode
    normalize_dns_intercept_strategy normalize_page_enhance_on_error normalize_non_target_behavior
    normalize_resolver_mode normalize_cert_store_scope normalize_upstream_type switch trim_strings
    lower_strings normalize_provider_ids dedupe_from dedupe_strings is_loopback to4
    default_doh_servers normalize_host strip_port cut cut_last has_char split_bracketed
    split_host_port contains contains_any has_prefix is_space push_trimmed strip_prefix trim_left
    trim_prefix trim_right trim_suffix trim_space text_eq to_lower
printing_accepted = refl

system_dns_built_example :
    (out : DnsSetting) × (setting_from_app printing dns_config ≡ ok out)
    × (validate_config printing (normalize_config printing out) ≡ ok tt)
unfolding uses_system_dns text_eq
system_dns_built_example =
    system_dns_built printing printing-PrintsBack dns_config
      (validate-IsValid printing raw_dns dns_config printing_accepted) refl

abbrev legacy_file : YamlNode
legacy_file = mapping (
    entry (scalar (text "proxy "))
      (mapping (entry (scalar (text "non_steam_behavior")) (scalar (text "direct")) no_entries))
      no_entries)

find_legacy_config_key_iff_example :
    (is_some (find_legacy_config_key legacy_file []) ≡ true)
    ↔ ((keys : List Text) × Occurs keys legacy_file × (is_some (legacy (path_text keys)) ≡ true))
find_legacy_config_key_iff_example = find_legacy_config_key_iff legacy_file
