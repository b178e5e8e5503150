-- ===== src/Engine/Planning.antt =====
-- The first part of Start of internal/engine/engine.go, up to the dialer, which changes nothing; and
-- what the status reports of rules and changes.
use siteboost_core.Config.Types.{Config as AppConfig}
use siteboost_core.Upstream.Starting.{config_from_app as upstream_config}
use siteboost_core.Resolver.{Config as ResolverConfig}
use siteboost_core.Engine.Types.{
  SystemChange, TrustResult, SystemDnsResult, EngineError, bad_provider, bad_rules, bad_dialer,
  Decimal,
}
use siteboost_core.Common.{
  if◌then◌else◌, length, is_empty, Result, ok, ◌>>=◌, map_error, ℕ, Bool, ◌&&◌, ◌||◌, List, [], ◌∷◌,
  ◌++◌,
}
use siteboost_core.Text.{Text, text, text_eq}
use siteboost_core.Text.Joining.{join_texts}
use siteboost_core.External.{Externals}
use siteboost_core.Config.Names.{mode_hosts, mode_dns}
use siteboost_core.Provider.{rule_groups, outbound_profiles, resolve_enabled}
use siteboost_core.Provider.Builtin.{Provider}
use siteboost_core.Rules.{RuleSetInfo, Matcher, rules, new_matcher, new_rule_set_info}
use siteboost_core.Resolver.Starting.{uses_direct_upstream, effective_resolver_config}
use siteboost_core.Upstream.Profile.{Profile}
use siteboost_core.Upstream.Starting.{Dialer, new_dialer}

pub record Plan : Type 0 where
  pub providers : List Provider
  pub matcher : Matcher
  pub resolver : ResolverConfig
  pub dialer : Dialer
  pub profile_count : ℕ

abbrev pub maps_hosts : AppConfig → Bool
maps_hosts cfg = text_eq cfg.mode mode_hosts || text_eq cfg.mode mode_dns

-- The custom domains, with the extra domains in hosts and DNS mode.
abbrev pub custom_domains : AppConfig → List Text
custom_domains cfg =
    if maps_hosts cfg
    then cfg.rules.custom_domains ++ cfg.hosts.extra_domains
    else cfg.rules.custom_domains

abbrev pub provider_profiles : AppConfig → List Provider → List Profile
provider_profiles cfg providers =
    if maps_hosts cfg && uses_direct_upstream cfg.upstream.type
    then outbound_profiles providers
    else []

module _ (x : Externals) where
  unfoldable pub enabled_providers : AppConfig → Result EngineError (List Provider)
  enabled_providers cfg = map_error bad_provider (resolve_enabled x cfg.providers.enabled)

  unfoldable pub build_matcher : AppConfig → Result EngineError Matcher
  build_matcher cfg = do
    providers ← enabled_providers cfg
    map_error bad_rules (new_matcher x (rule_groups providers) (custom_domains cfg))

  unfoldable pub make_plan : AppConfig → Result EngineError Plan
  make_plan cfg = do
    matcher ← build_matcher cfg
    providers ← enabled_providers cfg
    let upstream_cfg = upstream_config cfg (provider_profiles cfg providers)
    dialer ← map_error bad_dialer (new_dialer x upstream_cfg)
    ok (record {
      providers = providers;
      matcher = matcher;
      resolver = effective_resolver_config cfg;
      dialer = dialer;
      profile_count = length upstream_cfg.profiles;
    })

  abbrev pub counted_rules : Text → ℕ → Matcher → RuleSetInfo
  counted_rules name groups matcher = record {
    name = name;
    version = [];
    updated_at = [];
    group_count = groups;
    exact_count = length (rules matcher).exact;
    wildcard_count = length (rules matcher).wildcard;
  }

  unfoldable pub rule_set_info : List Provider → Matcher → RuleSetInfo
  rule_set_info [] matcher = counted_rules (text "custom") 1 matcher
  rule_set_info (p ∷ []) matcher =
      new_rule_set_info x p.rule_set_name p.rule_set_version p.rule_set_updated_at p.rules
  rule_set_info (p ∷ q ∷ providers) matcher =
      counted_rules (text "multi-provider") (length (rule_groups (p ∷ q ∷ providers))) matcher

unfoldable pub cert_trust_change : TrustResult → SystemChange
cert_trust_change trust = record {
  component = text "root_ca";
  action = if trust.already_trusted then text "check" else text "install";
  status = if trust.already_trusted then text "already_trusted" else text "ok";
  detail =
      text "store="
      ++ trust.store_scope
      ++ (if trust.changed then text ",installed" else [])
      ++ (if trust.via_helper then text ",helper=elevated" else []);
}

unfoldable pub system_dns_change : Decimal → Text → SystemDnsResult → SystemChange
system_dns_change decimal action outcome = record {
  component = text "system_dns";
  action = action;
  status = text "ok";
  detail =
      text "interfaces="
      ++ decimal outcome.interfaces
      ++ (if is_empty outcome.server_ips
          then []
          else text ",dns=" ++ join_texts (text "|") outcome.server_ips)
      ++ (if outcome.via_helper then text ",helper=elevated" else []);
}
