-- ===== src/Engine/DnsMode.antt =====
-- What Start of internal/engine/engine.go builds in DNS mode, from a configuration that
-- Config.Validate has accepted.
use siteboost_core.Config.Types.{Config as AppConfig}
use siteboost_core.Resolver.{Config as ResolverConfig}
use siteboost_core.DnsIntercept.Starting.{
  ServerConfig, mapped_ipv4, mapped_ipv6, config_from_app, with_defaults, new_server, RawForwarder,
  forwarder_of, build_forwarder, doh_servers, new_raw_forwarder,
}
use siteboost_core.Common.{
  Bool-cases, Option-cases, is_some, length, is_empty, ok, ℕ, ◌≡◌, refl, sym, ◌∙◌, inl, inr, true,
  false, ◌||◌, some, List, [], ◌∷◌, arith,
}
use siteboost_core.Text.{Text, text_eq, trim_space}
use siteboost_core.Text.Trimming.{trim_space_twice}
use siteboost_core.External.{Ip, Externals, to16}
use siteboost_core.Config.Names.{
  mode_dns, resolver_system, resolver_udp, resolver_tcp, resolver_doh,
}
use siteboost_core.Config.Types.{DnsConfig}
use siteboost_core.Config.Normalizing.{one_of}
use siteboost_core.Config.Intercept.{is_ipv4_text, is_ipv6_text}
use siteboost_core.Config.Validating.{resolver_modes}
use siteboost_core.Config.Valid.{IsReady, IsValid}
use siteboost_core.Resolver.Starting.{
  requires_loop_safe_resolver, effective_resolver_config, mode_given, IsSafe,
  effective_resolver_config-IsSafe,
}

module _ (x : Externals) where
  mapped_v4_some :
      (address : Text)
      → is_empty address ≡ false
      → is_ipv4_text x address ≡ true
      → is_some (mapped_ipv4 x address) ≡ true
  mapped_v4_some address given h = elim (Option-cases (x.parse_ip address)) [
    | inl e ↦ cc (rw (e, is_ipv4_text) at h)
    | inr (ip, e) ↦ rw (given, e) (rw (e, is_ipv4_text) at h)
  ]

  -- net.ParseIP gives sixteen bytes.
  abbrev pub ParsesToSixteen : Type 0
  ParsesToSixteen = (address : Text) (ip : Ip) → x.parse_ip address ≡ some ip → length ip ≡ 16

  to16_of_length : (ip : Ip) → length ip ≡ 16 → is_some (to16 ip) ≡ true
  unfolding to16
  to16_of_length [] h = cc
  to16_of_length (a ∷ []) h = ground (arith, h)
  to16_of_length (a ∷ b ∷ []) h = ground (arith, h)
  to16_of_length (a ∷ b ∷ c ∷ []) h = ground (arith, h)
  to16_of_length (a ∷ b ∷ c ∷ d ∷ []) h = refl
  to16_of_length (a ∷ b ∷ c ∷ d ∷ e ∷ ip) h = ground (arith, h)

  mapped_v6_some :
      ParsesToSixteen
      → (address : Text) → is_empty address ≡ false
      → is_ipv6_text x address ≡ true
      → is_some (mapped_ipv6 x address) ≡ true
  mapped_v6_some sixteen address given h = elim (Option-cases (x.parse_ip address)) [
    | inl e ↦ cc (rw (e, is_ipv6_text) at h)
    | inr (ip, e) ↦ rw (given, e) (to16_of_length ip (sixteen address ip e))
  ]

  is_mapped :
      ParsesToSixteen
      → (cfg : DnsConfig) → IsReady x cfg
      → (is_some (mapped_ipv4 x cfg.map_ipv4) || is_some (mapped_ipv6 x cfg.map_ipv6)) ≡ true
  is_mapped sixteen cfg ready = elim (Bool-cases (is_empty cfg.map_ipv4)) [
    | inr given ↦
        let four : is_some (mapped_ipv4 x cfg.map_ipv4) ≡ true =
          mapped_v4_some cfg.map_ipv4 given (rw given at ready.four) in
        rw four
    | inl missing ↦
        let given : is_empty cfg.map_ipv6 ≡ false = rw missing at ready.mapped in
        let six : is_some (mapped_ipv6 x cfg.map_ipv6) ≡ true =
          mapped_v6_some sixteen cfg.map_ipv6 given (rw given at ready.six) in
        ground arith
  ]

  new_server-ok :
      (cfg : ServerConfig)
      → is_empty (trim_space cfg.listen_addr) ≡ false
      → (is_some cfg.answering.map_ipv4 || is_some cfg.answering.map_ipv6) ≡ true
      → new_server cfg ≡ ok (with_defaults cfg)
  unfolding new_server
  new_server-ok cfg given mapped = rw (given, mapped)

  -- The server is built from a valid configuration.
  server_built :
      ParsesToSixteen
      → (cfg : AppConfig) → IsReady x cfg.dns
      → new_server (config_from_app x cfg) ≡ ok (with_defaults (config_from_app x cfg))
  unfolding config_from_app
  server_built sixteen cfg ready =
      new_server-ok (config_from_app x cfg)
        (rw (trim_space_twice cfg.dns.listen_addr) ready.listen_given)
        (is_mapped sixteen cfg.dns ready)

  abbrev pub CanForward : RawForwarder → Type 0
  CanForward f =
      (one_of f.mode (resolver_udp ∷ resolver_tcp ∷ resolver_doh ∷ []) ≡ true)
      × (is_empty f.servers ≡ false)

  build_forwarder-ok :
      (mode : Text) (servers : List Text) (timeout : ℕ)
      → is_empty servers ≡ false
      → build_forwarder mode servers timeout ≡ ok (forwarder_of mode servers timeout)
  unfolding build_forwarder
  build_forwarder-ok mode servers timeout given = rw given

  replaced_mode :
      (mode : Text)
      → one_of mode resolver_modes ≡ true
      → text_eq mode resolver_system ≡ false
      → one_of mode (resolver_udp ∷ resolver_tcp ∷ resolver_doh ∷ []) ≡ true
  replaced_mode mode known other = rw other at known

  forwarder_servers :
      (mode : Text) (servers : List Text) (timeout : ℕ)
      → is_empty servers ≡ false
      → is_empty (forwarder_of mode servers timeout).servers ≡ false
  forwarder_servers mode [] timeout h = cc
  forwarder_servers mode (server ∷ servers) timeout h = refl

  doh_servers_kept :
      (mode : Text) (servers : List Text)
      → is_empty servers ≡ false
      → doh_servers mode servers ≡ servers
  doh_servers_kept mode servers given = elim (Bool-cases (text_eq mode resolver_doh)) [
    | inl doh ↦ rw (doh, given)
    | inr other ↦ rw other
  ]

  forwarder_built :
      (r : ResolverConfig)
      → IsSafe r
      → (f : RawForwarder) × (new_raw_forwarder r ≡ ok f) × CanForward f
  unfolding new_raw_forwarder
  forwarder_built r safe = (
    forwarder_of r.mode r.servers r.timeout,
    rw (mode_given r.mode safe.mode, safe.other, doh_servers_kept r.mode r.servers safe.servers)
        (build_forwarder-ok r.mode r.servers r.timeout safe.servers),
    (
      replaced_mode r.mode safe.mode safe.other,
      forwarder_servers r.mode r.servers r.timeout safe.servers,
    ),
  )

  dns_mode_is_loop_safe :
      (cfg : AppConfig) → text_eq cfg.mode mode_dns ≡ true → requires_loop_safe_resolver cfg ≡ true
  unfolding requires_loop_safe_resolver
  dns_mode_is_loop_safe cfg dns = rw dns

  pub IsReady-in_dns_mode :
      (cfg : AppConfig) → IsValid x cfg → text_eq cfg.mode mode_dns ≡ true → IsReady x cfg.dns
  IsReady-in_dns_mode cfg valid dns = elim valid.dns [
    | inr ready ↦ ready
    | inl off ↦ cc (sym off ∙ valid.dns_enabled ∙ dns)
  ]

  -- In DNS mode, no valid configuration makes Start fail where it builds the interception: New
  -- accepts the server's configuration, and NewRawForwarder gives a forwarder that asks at least
  -- one server, over UDP, TCP or DoH; net.ParseIP is taken to give sixteen bytes.
  pub dns_mode_built :
      ParsesToSixteen
      → (cfg : AppConfig) → IsValid x cfg
      → text_eq cfg.mode mode_dns ≡ true
      → (new_server (config_from_app x cfg) ≡ ok (with_defaults (config_from_app x cfg)))
        × ((f : RawForwarder) × (new_raw_forwarder (effective_resolver_config cfg) ≡ ok f)
            × CanForward f)
  dns_mode_built sixteen cfg valid dns = (
    server_built sixteen cfg (IsReady-in_dns_mode cfg valid dns),
    forwarder_built (effective_resolver_config cfg)
        (effective_resolver_config-IsSafe x cfg valid (dns_mode_is_loop_safe cfg dns)),
  )
