-- ===== src/Config/Valid.antt =====
-- What a configuration is once Config.Validate has accepted it, said without the checks, and the
-- checks of single values against it.
use siteboost_core.Common.{
  Bool-cases, Option-cases, is_some, is_empty, all, All, ok, require, of_option, >>=-eq-ok,
  require-eq-ok, of_option-eq-ok, is_positive, ◌≡◌, refl, ◌⊎◌, inl, inr, Bool, true, false, not,
  ◌&&◌, ◌||◌, some,
}
use siteboost_core.Text.{Text, text, text_eq, trim_space, contains}
use siteboost_core.Text.Address.{split_host_port}
use siteboost_core.External.{Ip, Externals, to4, is_loopback}
use siteboost_core.Config.Names.{
  mode_dns, resolver_system, strategy_manual, strategy_system, upstream_direct,
}
use siteboost_core.Config.Types.{
  DnsConfig, HostsConfig, ResolverConfig, OutboundProfileConfig, UpstreamConfig, RuntimeConfig,
  Config, port_required, host_not_ip,
}
use siteboost_core.Config.Normalizing.{one_of, validate_listen_addr}
use siteboost_core.Config.Profiles.{has_effect}
use siteboost_core.Config.Intercept.{local_host, is_ipv4_text, is_ipv6_text}
use siteboost_core.Config.Validating.{modes, resolver_modes, upstream_types, durations}

abbrev pub IsNonblank : Text → Type 0
IsNonblank value = is_empty (trim_space value) ≡ false

pub require-not :
    {E : Type 0} (b : Bool) (e : E) {u : Unit {0}} → require (not b) e ≡ ok u → b ≡ false
require-not true e h = cc
require-not false e h = refl

module _ (x : Externals) where
  -- A port, and a host that is this machine, or an address that may be listened on.
  abbrev pub IsListenable : Bool → Text → Type 0
  IsListenable allow_lan addr =
      (host : Text) × (port : Text) × (split_host_port addr ≡ some (host, port))
      × IsNonblank port
      × ((x.equal_fold host (text "localhost") ≡ true)
          ⊎ ((ip : Ip) × (x.parse_ip host ≡ some ip) × ((allow_lan || is_loopback ip) ≡ true)))

  pub validate_listen_addr-IsListenable :
      (addr : Text) (allow_lan : Bool) {u : Unit {0}}
      → validate_listen_addr x addr allow_lan ≡ ok u
      → IsListenable allow_lan addr
  unfolding validate_listen_addr
  validate_listen_addr-IsListenable addr allow_lan h = elim (Option-cases (split_host_port addr)) [
    | inl e ↦ cc (rw e at h)
    | inr ((host, port), e) ↦
        let (_, port_given, later) =
          >>=-eq-ok (require (not (is_empty (trim_space port))) port_required) _ (rw e at h) in
        (
          host,
          port,
          e,
          require-not _ _ port_given,
          elim (Bool-cases (x.equal_fold host (text "localhost"))) [
            | inl local ↦ inl local
            | inr other ↦
                let (ip, parsed, allowed) =
                  >>=-eq-ok (of_option host_not_ip (x.parse_ip host)) _ (rw other at later) in
                inr (ip, of_option-eq-ok _ _ parsed, require-eq-ok _ _ allowed)
          ],
        )
  ]

  -- The part of the DNS configuration that the system strategy needs.
  abbrev pub IsSystemDns : DnsConfig → Type 0
  IsSystemDns cfg =
      (host : Text) × (split_host_port cfg.listen_addr ≡ some (host, text "53"))
      × ((ip : Ip) × (x.parse_ip (local_host x host) ≡ some ip)
          × (is_loopback ip ≡ true)
          × (is_some (to4 ip) ≡ true))
      × (is_empty cfg.interfaces ≡ false)
      × All IsNonblank cfg.interfaces

  -- An interception that can start.
  pub record IsReady (cfg : DnsConfig) : Type 0 where
    pub listenable : IsListenable cfg.allow_lan cfg.listen_addr
    pub listen_given : IsNonblank cfg.listen_addr
    pub ttl_positive : is_positive cfg.ttl ≡ true
    pub mapped : (is_empty cfg.map_ipv4 && is_empty cfg.map_ipv6) ≡ false
    pub four : (is_empty cfg.map_ipv4 || is_ipv4_text x cfg.map_ipv4) ≡ true
    pub six : (is_empty cfg.map_ipv6 || is_ipv6_text x cfg.map_ipv6) ≡ true
    pub strategy :
        (text_eq cfg.strategy strategy_manual ≡ true)
        ⊎ ((text_eq cfg.strategy strategy_system ≡ true) × IsSystemDns cfg)

  pub record IsProfile (profile : OutboundProfileConfig) : Type 0 where
    pub domains : is_empty profile.match_domains ≡ false
    pub addresses : All (λ ip. is_some (x.parse_ip ip) ≡ true) profile.candidate_ips
    pub effect : has_effect profile ≡ true

  pub record IsHosts (cfg : HostsConfig) : Type 0 where
    pub target :
        (ip : Ip) × (x.parse_ip cfg.map_ip ≡ some ip) × ((cfg.allow_lan || is_loopback ip) ≡ true)
    pub http : IsListenable cfg.allow_lan cfg.http_listen_addr
    pub https : IsListenable cfg.allow_lan cfg.https_listen_addr
    pub path : IsNonblank cfg.path
    pub no_wildcards : All (λ domain. contains (text "*") domain ≡ false) cfg.extra_domains

  pub record IsResolver (cfg : ResolverConfig) : Type 0 where
    pub mode : one_of cfg.mode resolver_modes ≡ true
    pub servers : (text_eq cfg.mode resolver_system || not (is_empty cfg.servers)) ≡ true
    pub preference : (cfg.prefer_ipv4 && cfg.prefer_ipv6) ≡ false

  pub record IsUpstream (cfg : UpstreamConfig) : Type 0 where
    pub type : one_of cfg.type upstream_types ≡ true
    pub address : (text_eq cfg.type upstream_direct || not (is_empty cfg.address)) ≡ true
    pub profiles : All IsProfile cfg.profiles

  pub record IsRuntime (cfg : RuntimeConfig) : Type 0 where
    pub control : IsListenable false cfg.control_addr
    pub state_path : IsNonblank cfg.state_path
    pub rollback_path : IsNonblank cfg.rollback_path

  pub record IsValid (cfg : Config) : Type 0 where
    pub mode : one_of cfg.mode modes ≡ true
    -- the interception is enabled in DNS mode, and in no other
    pub dns_enabled : cfg.dns.enabled ≡ text_eq cfg.mode mode_dns
    pub dns : (cfg.dns.enabled ≡ false) ⊎ IsReady cfg.dns
    pub proxy : IsListenable cfg.proxy.allow_lan cfg.proxy.listen_addr
    pub pac : IsListenable cfg.pac.allow_lan cfg.pac.listen_addr
    pub hosts : IsHosts cfg.hosts
    pub cert : IsNonblank cfg.cert.dir
    pub resolver : IsResolver cfg.resolver
    pub upstream : IsUpstream cfg.upstream
    pub runtime : IsRuntime cfg.runtime
    pub all_positive : all is_positive (durations cfg.proxy cfg.resolver cfg.runtime) ≡ true
