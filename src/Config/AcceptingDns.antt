-- ===== src/Config/AcceptingDns.antt =====
-- What validateDNSConfig of internal/config/config.go accepts.
use siteboost_core.Common.{
  if◌then◌else◌, Bool-cases, Option-cases, is_some, taken, skipped, is_empty, All, ok, of_option,
  map_error, >>=-eq-ok, require-eq-ok, map_error-eq-ok, of_option-eq-ok, passed, denied, ok_value,
  is_positive, ◌≡◌, sym, ap, ◌∙◌, subst, ◌⊎◌, inl, inr, true, false, not, ◌&&◌, ◌||◌, some, List,
  [], ◌∷◌, arith,
}
use siteboost_core.Text.{Text, text, text_eq, trim_space, to_lower}
use siteboost_core.Text.Address.{split_host_port}
use siteboost_core.Text.Trimming.{trim_space_twice}
use siteboost_core.Text.Laws.{text_eq_sound}
use siteboost_core.External.{Externals, to4, is_loopback}
use siteboost_core.Config.Names.{mode_dns, strategy_manual, strategy_system, strategy_external}
use siteboost_core.Config.Types.{
  DnsConfig, dns_listen_addr, dns_enabled_mode, dns_listen_addr_required, dns_map_required,
  dns_map_ipv4, dns_map_ipv6, dns_ttl, dns_system_port, dns_system_loopback, dns_system_ipv4,
  dns_system_interfaces,
}
use siteboost_core.Config.Normalizing.{
  one_of, trim_strings, dedupe_from, dedupe_strings, validate_listen_addr,
}
use siteboost_core.Config.Intercept.{
  check_strategy, trim_map_addresses, is_active, local_host, is_ipv4_text, is_ipv6_text,
  validate_dns_system_config, check_map_addresses, validate_active_dns, normalize_dns,
  check_dns_config, validate_dns_config,
}
use siteboost_core.Config.Validating.{enable_dns}
use siteboost_core.Config.Valid.{
  IsNonblank, require-not, validate_listen_addr-IsListenable, IsSystemDns, IsReady,
}

trim_strings-All-IsNonblank : (values : List Text) → All IsNonblank (trim_strings values)
unfolding trim_strings
trim_strings-All-IsNonblank [] = tt
trim_strings-All-IsNonblank (raw ∷ values) = elim (Bool-cases (is_empty (trim_space raw))) [
  | inl blank ↦ rw (blank, trim_strings) (trim_strings-All-IsNonblank values)
  | inr given ↦
      rw (given, trim_strings) (rw (trim_space_twice raw) given, trim_strings-All-IsNonblank values)
]

module _ (x : Externals) where
  All-dedupe_from :
      (P : Text → Type 0) (seen values : List Text)
      → All P values
      → All P (dedupe_from x seen values)
  unfolding dedupe_from
  All-dedupe_from P seen [] h = tt
  All-dedupe_from P seen (value ∷ values) h =
      elim (Bool-cases (one_of (to_lower x.lower_rune value) seen)) [
        | inl met ↦ rw (met, dedupe_from) (All-dedupe_from P seen values h.1)
        | inr fresh ↦
            rw (fresh, dedupe_from)
              (h.0, All-dedupe_from P (to_lower x.lower_rune value ∷ seen) values h.1)
      ]

  normalized_interfaces : (cfg : DnsConfig) → All IsNonblank (normalize_dns x cfg).interfaces
  unfolding dedupe_strings
  normalized_interfaces cfg =
      All-dedupe_from IsNonblank [] (trim_strings cfg.interfaces)
        (trim_strings-All-IsNonblank cfg.interfaces)

  validate_dns_system_config-IsSystemDns :
      (cfg : DnsConfig) {u : Unit {0}}
      → All IsNonblank cfg.interfaces
      → validate_dns_system_config x cfg ≡ ok u
      → IsSystemDns x cfg
  unfolding validate_dns_system_config
  validate_dns_system_config-IsSystemDns cfg ifaces h =
      elim (Option-cases (split_host_port cfg.listen_addr)) [
        | inl e ↦ cc (rw e at h)
        | inr ((host, port), e) ↦
            let (port_53, h1) = passed (text_eq port (text "53")) dns_system_port _ (rw e at h) in
            let (ip, parsed, h2) =
              >>=-eq-ok (of_option dns_system_loopback (x.parse_ip (local_host x host))) _ h1 in
            let (loopback, h3) = passed (is_loopback ip) dns_system_loopback _ h2 in
            let (four, h4) = passed (is_some (to4 ip)) dns_system_ipv4 _ h3 in
            let same : port ≡ text "53" = text_eq_sound port (text "53") port_53 in
            (
              host,
              e ∙ ap (λ port. some (host, port)) same,
              (ip, of_option-eq-ok _ (x.parse_ip (local_host x host)) parsed, loopback, four),
              require-not (is_empty cfg.interfaces) dns_system_interfaces h4,
              ifaces,
            )
      ]

  check_strategy_cases :
      (strategy mode : Text) {u : Unit {0}}
      → check_strategy strategy mode true ≡ ok u
      → (text_eq strategy strategy_manual ≡ true) ⊎ (text_eq strategy strategy_system ≡ true)
  unfolding check_strategy
  check_strategy_cases strategy mode h = elim (Bool-cases (text_eq strategy strategy_manual)) [
    | inl manual ↦ inl manual
    | inr other ↦ elim (Bool-cases (text_eq strategy strategy_system)) [
      | inl system ↦ inr system
      | inr neither ↦ elim (Bool-cases (text_eq strategy strategy_external)) [
        | inl external ↦ cc (rw (other, neither, external) at h)
        | inr unknown ↦ cc (rw (other, neither, unknown) at h)
      ]
    ]
  ]

  strategy_ready :
      (cfg : DnsConfig) {u : Unit {0}}
      → All IsNonblank cfg.interfaces
      → (text_eq cfg.strategy strategy_manual ≡ true)
        ⊎ (text_eq cfg.strategy strategy_system ≡ true)
      → (if text_eq cfg.strategy strategy_system
          then validate_dns_system_config x (trim_map_addresses cfg)
          else ok tt)
        ≡ ok u
      → (text_eq cfg.strategy strategy_manual ≡ true)
        ⊎ ((text_eq cfg.strategy strategy_system ≡ true) × IsSystemDns x (trim_map_addresses cfg))
  strategy_ready cfg ifaces (inl manual) h = inl manual
  strategy_ready cfg ifaces (inr system) h = inr (
    system,
    validate_dns_system_config-IsSystemDns (trim_map_addresses cfg) ifaces (rw system at h),
  )

  validate_active_dns-IsReady :
      (cfg : DnsConfig) {u : Unit {0}}
      → All IsNonblank cfg.interfaces
      → (text_eq cfg.strategy strategy_manual ≡ true)
        ⊎ (text_eq cfg.strategy strategy_system ≡ true)
      → validate_active_dns x cfg ≡ ok u
      → IsReady x (trim_map_addresses cfg)
  unfolding validate_active_dns check_map_addresses
  validate_active_dns-IsReady cfg ifaces known h =
      let four = trim_space cfg.map_ipv4 in
      let six = trim_space cfg.map_ipv6 in
      let listening = validate_listen_addr x cfg.listen_addr cfg.allow_lan in
      let (given, h1) =
        denied (is_empty (trim_space cfg.listen_addr)) dns_listen_addr_required _ h in
      let (_, listen, h2) = >>=-eq-ok (map_error dns_listen_addr listening) _ h1 in
      let (_, addresses, h3) = >>=-eq-ok (check_map_addresses x four six) _ h2 in
      let (ttl, h4) = passed (is_positive cfg.ttl) dns_ttl _ h3 in
      let (mapped, a1) = denied (is_empty four && is_empty six) dns_map_required _ addresses in
      let (is_four, a2) = passed (is_empty four || is_ipv4_text x four) dns_map_ipv4 _ a1 in
      record {
        listenable =
            validate_listen_addr-IsListenable x cfg.listen_addr cfg.allow_lan
              (map_error-eq-ok dns_listen_addr listening listen);
        listen_given = given;
        ttl_positive = ttl;
        mapped = mapped;
        four = is_four;
        six = require-eq-ok (is_empty six || is_ipv6_text x six) dns_map_ipv6 a2;
        strategy = strategy_ready cfg ifaces known h4;
      }

  -- Either the interception is off, and the mode is another one, or it is ready in DNS mode.
  abbrev pub IsChecked : Text → DnsConfig → Type 0
  IsChecked mode c = (c.enabled ≡ text_eq mode mode_dns) × ((c.enabled ≡ false) ⊎ IsReady x c)

  -- `cfg` is enabled in DNS mode.
  check_dns_config-IsChecked :
      (mode : Text) (cfg c : DnsConfig)
      → All IsNonblank cfg.interfaces
      → (text_eq mode mode_dns ≡ false) ⊎ (cfg.enabled ≡ true)
      → check_dns_config x mode cfg ≡ ok c
      → IsChecked mode c
  unfolding check_dns_config
  check_dns_config-IsChecked mode cfg c ifaces on h =
      let (done, strategy, h1) =
        >>=-eq-ok (check_strategy cfg.strategy mode (is_active mode cfg)) _ h in
      let (allowed, h2) = passed (not cfg.enabled || text_eq mode mode_dns) dns_enabled_mode _ h1 in
      elim (Bool-cases cfg.enabled) [
        | inr off ↦
            let other : text_eq mode mode_dns ≡ false = elim on [
              | inl e ↦ e
              | inr e ↦ cc (sym off ∙ e)
            ] in
            subst (IsChecked mode) (ok_value (skipped (is_active mode cfg) _ _ (ground arith) h2))
              (off ∙ sym other, inl off)
        | inl enabled ↦
            let dns : text_eq mode mode_dns ≡ true = ground arith in
            let active_now : is_active mode cfg ≡ true = ground arith in
            let (_, active, h3) =
              >>=-eq-ok (validate_active_dns x cfg) _
                (taken (is_active mode cfg) _ _ active_now h2) in
            subst (IsChecked mode) (ok_value h3) (
              enabled ∙ sym dns,
              inr (
                  validate_active_dns-IsReady cfg ifaces
                    (check_strategy_cases cfg.strategy mode (
                      subst (λ b. check_strategy cfg.strategy mode b ≡ ok done) active_now
                        strategy))
                    active),
            )
      ]

  pub validate_dns_config-IsChecked :
      (mode : Text) (cfg c : DnsConfig)
      → validate_dns_config x (enable_dns mode cfg) mode ≡ ok c
      → IsChecked mode c
  unfolding validate_dns_config
  validate_dns_config-IsChecked mode cfg c h =
      check_dns_config-IsChecked mode (normalize_dns x (enable_dns mode cfg)) c
        (normalized_interfaces (enable_dns mode cfg)) (enabled_in_dns mode cfg) h
    where
      enabled_in_dns :
          (mode : Text) (cfg : DnsConfig)
          → (text_eq mode mode_dns ≡ false) ⊎ ((enable_dns mode cfg).enabled ≡ true)
      enabled_in_dns mode cfg = elim (Bool-cases (text_eq mode mode_dns)) [
        | inl dns ↦ inr (rw dns)
        | inr other ↦ inl other
      ]
