-- ===== src/Resolver/Starting.antt =====
-- ConfigFromApp and New of internal/resolver/resolver.go, and effectiveResolverConfig of
-- internal/engine/engine.go with its helpers.
use siteboost_core.Config.Types.{Config as AppConfig}
use siteboost_core.Resolver.{Config}
use siteboost_core.Common.{
  if◌then◌else◌, Bool-cases, is_empty, nanoseconds, or_default, ◌*◌, ◌≡◌, refl, inl, inr, Bool,
  true, false, not, ◌&&◌, ◌||◌, [], ◌∷◌, arith,
}
use siteboost_core.Text.{Text, text, text_eq}
use siteboost_core.External.{Externals}
use siteboost_core.Config.Names.{
  mode_hosts, mode_dns, resolver_system, resolver_doh, default_doh_servers, strategy_system,
  upstream_direct,
}
use siteboost_core.Config.Normalizing.{one_of}
use siteboost_core.Config.Defaults.{second}
use siteboost_core.Config.Validating.{resolver_modes}
use siteboost_core.Config.Valid.{IsValid}

unfoldable pub config_from_app : AppConfig → Config
config_from_app cfg = record {
  mode = cfg.resolver.mode;
  servers = cfg.resolver.servers;
  prefer_ipv4 = cfg.resolver.prefer_ipv4;
  prefer_ipv6 = cfg.resolver.prefer_ipv6;
  disable_ipv6 = cfg.resolver.disable_ipv6;
  cache_ttl = nanoseconds cfg.resolver.cache_ttl;
  timeout = nanoseconds cfg.resolver.timeout;
}

-- The configuration of the new client; New never fails.
unfoldable pub new_client : Config → Config
new_client cfg = record cfg {
  mode = if is_empty cfg.mode then resolver_system else cfg.mode;
  cache_ttl = or_default cfg.cache_ttl (600 * second);
  timeout = or_default cfg.timeout (5 * second);
}

unfoldable pub uses_direct_upstream : Text → Bool
uses_direct_upstream upstream_type = is_empty upstream_type || text_eq upstream_type upstream_direct

unfoldable pub requires_loop_safe_resolver : AppConfig → Bool
requires_loop_safe_resolver cfg =
    text_eq cfg.mode mode_dns
    || (text_eq cfg.mode mode_hosts && uses_direct_upstream cfg.upstream.type)

unfoldable pub uses_system_dns : AppConfig → Bool
uses_system_dns cfg = text_eq cfg.mode mode_dns && text_eq cfg.dns.strategy strategy_system

-- The configuration in place of the system's resolver.
unfoldable pub loop_safe : Config → Config
loop_safe cfg =
    if text_eq cfg.mode resolver_system
    then record cfg { mode = resolver_doh; servers = default_doh_servers }
    else if text_eq cfg.mode resolver_doh && is_empty cfg.servers
    then record cfg { servers = default_doh_servers }
    else cfg

unfoldable pub effective_resolver_config : AppConfig → Config
effective_resolver_config cfg =
    if requires_loop_safe_resolver cfg then loop_safe (config_from_app cfg) else config_from_app cfg

pub mode_given : (mode : Text) → one_of mode resolver_modes ≡ true → is_empty mode ≡ false
unfolding text_eq
mode_given [] h = cc
mode_given (c ∷ mode) h = refl

new_client_kept :
    (r : Config)
    → is_empty r.mode ≡ false
    → text_eq r.mode resolver_system ≡ false
    → is_empty r.servers ≡ false
    → (text_eq (new_client r).mode resolver_system ≡ false)
      × (is_empty (new_client r).servers ≡ false)
unfolding new_client
new_client_kept r given other servers = (rw given other, servers)

loop_safe_kept :
    (r : Config)
    → text_eq r.mode resolver_system ≡ false
    → is_empty r.servers ≡ false
    → loop_safe r ≡ r
unfolding loop_safe
loop_safe_kept r other servers = elim (Bool-cases (text_eq r.mode resolver_doh)) [
  | inl doh ↦ rw (other, doh, servers)
  | inr else_mode ↦ rw (other, else_mode)
]

loop_safe_system :
    (r : Config)
    → text_eq r.mode resolver_system ≡ true
    → loop_safe r ≡ record r { mode = resolver_doh; servers = default_doh_servers }
unfolding loop_safe
loop_safe_system r system = rw system

-- A known resolver that is not the system's, with servers.
pub record IsSafe (r : Config) : Type 0 where
  pub mode : one_of r.mode resolver_modes ≡ true
  pub other : text_eq r.mode resolver_system ≡ false
  pub servers : is_empty r.servers ≡ false

loop_safe-IsSafe :
    (r : Config)
    → one_of r.mode resolver_modes ≡ true
    → (text_eq r.mode resolver_system || not (is_empty r.servers)) ≡ true
    → IsSafe (loop_safe r)
unfolding text_eq default_doh_servers
loop_safe-IsSafe r known given = elim (Bool-cases (text_eq r.mode resolver_system)) [
  | inl system ↦
      rw (loop_safe_system r system) (record { mode = refl; other = refl; servers = refl })
  | inr other ↦
      let servers : is_empty r.servers ≡ false = ground arith in
      rw (loop_safe_kept r other servers)
        (record { mode = known; other = other; servers = servers })
]

-- The configurations under which the system's resolver leads back to this program: in DNS mode its
-- servers are the program, and in hosts mode the hosts file maps the covered hosts to the program,
-- which then dials them itself.
pub data LeadsBack (cfg : AppConfig) : Type 0 where
  by_dns : cfg.mode ≡ text "dns" → LeadsBack cfg
  by_hosts : cfg.mode ≡ text "hosts" → cfg.upstream.type ≡ text "direct" → LeadsBack cfg
  by_hosts_default : cfg.mode ≡ text "hosts" → cfg.upstream.type ≡ [] → LeadsBack cfg

required_LeadsBack : (cfg : AppConfig) → LeadsBack cfg → requires_loop_safe_resolver cfg ≡ true
unfolding requires_loop_safe_resolver uses_direct_upstream text_eq
required_LeadsBack cfg (by_dns mode) = rw mode refl
required_LeadsBack cfg (by_hosts mode direct) = rw (mode, direct) refl
required_LeadsBack cfg (by_hosts_default mode direct) = rw (mode, direct) refl

pub effective_resolver_config-IsSafe :
    (x : Externals) (cfg : AppConfig)
    → IsValid x cfg
    → requires_loop_safe_resolver cfg ≡ true
    → IsSafe (effective_resolver_config cfg)
unfolding effective_resolver_config config_from_app
effective_resolver_config-IsSafe x cfg valid required =
    let safe = loop_safe-IsSafe (config_from_app cfg) valid.resolver.mode valid.resolver.servers in
    rw (required, effective_resolver_config) safe

-- For a configuration that Validate has accepted, the effective resolver is never the system's own
-- where that leads back to this program, that is, in DNS mode, and in hosts mode with a direct
-- upstream, named or left out; and it has servers then.
pub loop_safe_resolver :
    (x : Externals) (cfg : AppConfig)
    → IsValid x cfg
    → LeadsBack cfg
    → (text_eq (new_client (effective_resolver_config cfg)).mode resolver_system ≡ false)
      × (is_empty (new_client (effective_resolver_config cfg)).servers ≡ false)
loop_safe_resolver x cfg valid back =
    let safe = effective_resolver_config-IsSafe x cfg valid (required_LeadsBack cfg back) in
    new_client_kept (effective_resolver_config cfg) (mode_given _ safe.mode) safe.other safe.servers
