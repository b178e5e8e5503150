-- ===== src/Engine/SystemDnsMode.antt =====
-- ConfigFromApp of internal/systemdns/systemdns.go, as Start of internal/engine/engine.go calls it,
-- against what Config.Validate accepts.
use siteboost_core.Config.Types.{DnsConfig}
use siteboost_core.SystemDns.{
  Config, contains_key, clean_from, clean_strings, normalize_config, is_loopback_server,
  validate_config,
}
use siteboost_core.Config.Types.{Config as AppConfig}
use siteboost_core.SystemDns.FromApp.{config_from_app}
use siteboost_core.Common.{
  ◌==◌, Bool-cases, Option-cases, is_some, is_empty, all, All, ok, ◌≡◌, refl, sym, ap, ◌∙◌, subst,
  inl, inr, Bool, true, false, not, ◌&&◌, ◌||◌, some, List, [], ◌∷◌, arith,
}
use siteboost_core.Text.{Text, text_eq, trim_space, to_lower}
use siteboost_core.Text.Laws.{text_eq_sound}
use siteboost_core.Text.Trimming.{trim_space_twice}
use siteboost_core.External.{Ip, Externals, to4, is_loopback}
use siteboost_core.Config.Names.{strategy_manual, strategy_system}
use siteboost_core.Config.Valid.{IsNonblank, IsSystemDns, IsReady, IsValid}
use siteboost_core.Resolver.Starting.{uses_system_dns}
use siteboost_core.Engine.DnsMode.{IsReady-in_dns_mode}

abbrev starts_127 : Ip → Bool
starts_127 [] = false
starts_127 (a ∷ _) = a == 127

is_loopback_v4 : (ip b : Ip) → to4 ip ≡ some b → is_loopback ip ≡ starts_127 b
unfolding is_loopback
is_loopback_v4 ip [] e = rw (e, is_loopback)
is_loopback_v4 ip (a ∷ b) e = rw (e, is_loopback)

not_both :
    (strategy : Text)
    → text_eq strategy strategy_manual ≡ true
    → text_eq strategy strategy_system ≡ true
    → ⊥
unfolding text_eq
not_both strategy manual system =
    let apart : text_eq strategy_manual strategy_system ≡ true =
      subst (λ s. text_eq s strategy_system ≡ true) (text_eq_sound strategy strategy_manual manual)
        system in
    cc apart

module _ (x : Externals) where
  -- net.ParseIP reads back what an IPv4 address is printed as, which has no space around it.
  abbrev pub PrintsBack : Type 0
  PrintsBack =
      (ip : Ip)
      → is_some (to4 ip) ≡ true
      → ((back : Ip) × (x.parse_ip (x.ip_text ip) ≡ some back) × (to4 back ≡ to4 ip))
        × (trim_space (x.ip_text ip) ≡ x.ip_text ip)
        × (is_empty (x.ip_text ip) ≡ false)

  to4-is_loopback :
      (ip back : Ip)
      → is_some (to4 ip) ≡ true
      → to4 back ≡ to4 ip
      → is_loopback ip ≡ true
      → (is_loopback back && is_some (to4 back)) ≡ true
  to4-is_loopback ip back four same h = elim (Option-cases (to4 ip)) [
    | inl e ↦ cc (rw e at four)
    | inr (b, e) ↦
        rw (is_loopback_v4 back b (same ∙ e), sym (is_loopback_v4 ip b e) ∙ h, same, four)
  ]

  printed_loopback :
      PrintsBack
      → (ip : Ip) → is_some (to4 ip) ≡ true
      → is_loopback ip ≡ true
      → is_loopback_server x (x.ip_text ip) ≡ true
  unfolding is_loopback_server
  printed_loopback prints ip four loopback =
      let (back, read, same) = (prints ip four).0 in
      rw (read, is_loopback_server) (to4-is_loopback ip back four same loopback)

  -- cleanStrings leaves texts that stay as they are when they are trimmed.
  All-clean_from :
      (seen values : List Text)
      → all (λ iface. not (is_empty (trim_space iface))) (clean_from x seen values) ≡ true
  unfolding clean_from
  All-clean_from seen [] = refl
  All-clean_from seen (raw ∷ values) =
      elim (Bool-cases
        (is_empty (trim_space raw) || contains_key (to_lower x.lower_rune (trim_space raw)) seen)) [
          | inl dropped ↦ rw (dropped, clean_from) (All-clean_from seen values)
          | inr kept ↦
              let given : is_empty (trim_space raw) ≡ false = ground arith in
              rw (kept, clean_from)
                (rw (trim_space_twice raw, given)
                  (All-clean_from (to_lower x.lower_rune (trim_space raw) ∷ seen) values))
        ]

  clean_from-cons :
      (raw : Text) (values : List Text)
      → IsNonblank raw
      → is_empty (clean_from x [] (raw ∷ values)) ≡ false
  unfolding clean_from
  clean_from-cons raw values given =
      let kept : clean_from x [] (raw ∷ values)
          ≡ trim_space raw ∷ clean_from x (to_lower x.lower_rune (trim_space raw) ∷ []) values =
        rw (given, clean_from) in
      rw kept

  clean_strings_given :
      (values : List Text)
      → is_empty values ≡ false
      → All IsNonblank values
      → is_empty (clean_strings x values) ≡ false
  unfolding clean_strings
  clean_strings_given [] h given = cc
  clean_strings_given (raw ∷ values) h given = clean_from-cons raw values given.0

  clean_strings_trimmed :
      (values : List Text)
      → all (λ iface. not (is_empty (trim_space iface))) (clean_strings x values) ≡ true
  unfolding clean_strings
  clean_strings_trimmed values = All-clean_from [] values

  system_strategy :
      (cfg : DnsConfig)
      → IsReady x cfg
      → text_eq cfg.strategy strategy_system ≡ true
      → IsSystemDns x cfg
  system_strategy cfg ready system = elim ready.strategy [
    | inr (_, parts) ↦ parts
    | inl manual ↦ absurd (not_both cfg.strategy manual system)
  ]

  interfaces_valid :
      PrintsBack
      → (path : Text) (ip : Ip) (interfaces : List Text) → IsNonblank path
      → is_some (to4 ip) ≡ true
      → is_loopback ip ≡ true
      → is_empty interfaces ≡ false
      → All IsNonblank interfaces
      → validate_config x (record {
        rollback_path = path;
        interfaces = clean_strings x interfaces;
        server_ips = x.ip_text ip ∷ [];
      })
        ≡ ok tt
  unfolding validate_config
  interfaces_valid prints path ip interfaces p four loopback some_given given = rw (
    p,
    clean_strings_given interfaces some_given given,
    clean_strings_trimmed interfaces,
    printed_loopback prints ip four loopback,
  )

  All-all-IsNonblank :
      (values : List Text)
      → all (λ iface. not (is_empty (trim_space iface))) values ≡ true
      → All IsNonblank values
  All-all-IsNonblank [] h = tt
  All-all-IsNonblank (raw ∷ values) h =
      let parts = and_parts (is_empty (trim_space raw)) _ h in
      (parts.0, All-all-IsNonblank values parts.1)
    where
      and_parts : (b c : Bool) → (not b && c) ≡ true → (b ≡ false) × (c ≡ true)
      and_parts b c e = ground arith

  clean_strings_printed :
      PrintsBack
      → (ip : Ip) → is_some (to4 ip) ≡ true
      → clean_strings x (x.ip_text ip ∷ []) ≡ x.ip_text ip ∷ []
  unfolding clean_strings clean_from
  clean_strings_printed prints ip four =
      let (_, trimmed, given) = prints ip four in
      let nonblank : is_empty (trim_space (x.ip_text ip)) ≡ false =
        ap (λ t. is_empty t) trimmed ∙ given in
      let kept : clean_from x [] (x.ip_text ip ∷ []) ≡ trim_space (x.ip_text ip) ∷ [] =
        rw (nonblank, clean_from) refl in
      kept ∙ ap (λ t. t ∷ []) trimmed

  -- What ConfigFromApp builds of given interfaces passes the checks again once Preflight and Apply
  -- have normalised it.
  normalized_valid :
      PrintsBack
      → (path : Text) (ip : Ip) (interfaces : List Text) → IsNonblank path
      → is_some (to4 ip) ≡ true
      → is_loopback ip ≡ true
      → is_empty interfaces ≡ false
      → All IsNonblank interfaces
      → validate_config x (
          normalize_config x (record {
            rollback_path = path;
            interfaces = clean_strings x interfaces;
            server_ips = x.ip_text ip ∷ [];
          }))
        ≡ ok tt
  unfolding normalize_config
  normalized_valid prints path ip interfaces p four loopback some_given given =
      let cleaned = clean_strings x interfaces in
      let path_kept : IsNonblank (trim_space path) = rw (trim_space_twice path) p in
      rw (clean_strings_printed prints ip four) (
        interfaces_valid prints (trim_space path) ip cleaned path_kept four loopback
          (clean_strings_given interfaces some_given given)
          (All-all-IsNonblank cleaned (clean_strings_trimmed interfaces)))

  -- In DNS mode with the system strategy, no valid configuration makes Start fail where it builds the
  -- configuration of the system DNS, and that configuration passes the checks of Preflight and
  -- Apply, which they make of it once they have normalised it; net.ParseIP is taken to read back the
  -- text that an IPv4 address is printed as, which is not blank and has no space around it.
  pub system_dns_built :
      PrintsBack
      → (cfg : AppConfig) → IsValid x cfg
      → uses_system_dns cfg ≡ true
      → (out : Config) × (config_from_app x cfg ≡ ok out)
        × (validate_config x (normalize_config x out) ≡ ok tt)
  unfolding config_from_app uses_system_dns
  system_dns_built prints cfg valid uses =
      let ready = IsReady-in_dns_mode x cfg valid (ground arith) in
      let (host, split, (ip, parsed, loopback, four), some_given, given) =
        system_strategy cfg.dns ready (ground arith) in
      let path = cfg.runtime.rollback_path in
      let nonblank = valid.runtime.rollback_path in
      let fine =
        interfaces_valid prints path ip cfg.dns.interfaces nonblank four loopback some_given
          given in
      (
        record {
          rollback_path = path;
          interfaces = clean_strings x cfg.dns.interfaces;
          server_ips = x.ip_text ip ∷ [];
        },
        rw (split, parsed, loopback, four, fine),
        normalized_valid prints path ip cfg.dns.interfaces nonblank four loopback some_given given,
      )
