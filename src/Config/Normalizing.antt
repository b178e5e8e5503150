-- ===== src/Config/Normalizing.antt =====
-- The normalisation of single values, and the check of listen addresses.
use siteboost_core.Common.{
  if◌then◌else◌, is_empty, any, Result, ok, require, ◌>>=◌, ◌>>◌, of_option, Bool, true, false, not,
  ◌||◌, Option, none, some, List, [], ◌∷◌,
}
use siteboost_core.Text.{Text, text, text_eq, trim_space, to_lower}
use siteboost_core.Text.Address.{split_host_port}
use siteboost_core.External.{Externals, is_loopback}
use siteboost_core.Rules.{RuleError, normalize_host}
use siteboost_core.Config.Names.{
  mode_proxy_only, mode_pac, mode_system, mode_hosts, mode_dns, resolver_system, resolver_udp,
  resolver_tcp, resolver_doh, non_target_reject, non_target_direct, strategy_manual,
  strategy_system, strategy_external, pass_through, fail_closed, upstream_direct, upstream_http,
  upstream_socks5, cert_store_machine, cert_store_user,
}
use siteboost_core.Config.Types.{
  ListenError, address_syntax, port_required, host_not_ip, not_loopback,
}

abbrev pub one_of : Text → List Text → Bool
one_of value names = any (λ name. text_eq value name) names

-- A switch over spellings: the name of the first case that lists the text, or the text itself.
unfoldable pub switch : Text → List (List Text × Text) → Text
switch value [] = value
switch value ((spellings, name) ∷ cases) =
    if one_of value spellings then name else switch value cases

abbrev pub mode_cases : List (List Text × Text)
mode_cases =
    ([] ∷ mode_proxy_only ∷ text "proxy-only" ∷ [], mode_proxy_only)
    ∷ (mode_pac ∷ [], mode_pac)
    ∷ (mode_system ∷ [], mode_system)
    ∷ (mode_hosts ∷ [], mode_hosts)
    ∷ (mode_dns ∷ text "dns_intercept" ∷ text "dns-intercept" ∷ [], mode_dns)
    ∷ []

abbrev pub strategy_cases : List (List Text × Text)
strategy_cases =
    ([] ∷ strategy_manual ∷ [], strategy_manual)
    ∷ (strategy_system ∷ [], strategy_system)
    ∷ (strategy_external ∷ [], strategy_external)
    ∷ []

abbrev pub on_error_cases : List (List Text × Text)
on_error_cases =
    ([] ∷ pass_through ∷ text "passthrough" ∷ text "pass-through" ∷ [], pass_through)
    ∷ (fail_closed ∷ text "fail-closed" ∷ [], fail_closed)
    ∷ []

abbrev pub behavior_cases : List (List Text × Text)
behavior_cases =
    ([] ∷ non_target_reject ∷ [], non_target_reject)
    ∷ (non_target_direct ∷ [], non_target_direct)
    ∷ []

abbrev pub resolver_cases : List (List Text × Text)
resolver_cases =
    ([] ∷ resolver_system ∷ [], resolver_system)
    ∷ (resolver_udp ∷ [], resolver_udp)
    ∷ (resolver_tcp ∷ [], resolver_tcp)
    ∷ (resolver_doh ∷ [], resolver_doh)
    ∷ []

abbrev pub scope_cases : List (List Text × Text)
scope_cases =
    ([] ∷ cert_store_machine ∷ text "local_machine" ∷ text "local-machine" ∷ [], cert_store_machine)
    ∷ (cert_store_user ∷ text "current_user" ∷ text "current-user" ∷ [], cert_store_user)
    ∷ []

abbrev pub upstream_cases : List (List Text × Text)
upstream_cases =
    ([] ∷ upstream_direct ∷ [], upstream_direct)
    ∷ (upstream_http ∷ [], upstream_http)
    ∷ (upstream_socks5 ∷ [], upstream_socks5)
    ∷ []

unfoldable pub trim_strings : List Text → List Text
trim_strings [] = []
trim_strings (raw ∷ values) =
    let rest = trim_strings values in
    if is_empty (trim_space raw) then rest else trim_space raw ∷ rest

module _ (x : Externals) where
  abbrev pub lower_trimmed : Text → Text
  lower_trimmed value = to_lower x.lower_rune (trim_space value)

  unfoldable pub normalize_mode : Text → Text
  normalize_mode mode = switch (lower_trimmed mode) mode_cases

  unfoldable pub normalize_dns_intercept_strategy : Text → Text
  normalize_dns_intercept_strategy strategy = switch (lower_trimmed strategy) strategy_cases

  unfoldable pub normalize_page_enhance_on_error : Text → Text
  normalize_page_enhance_on_error value = switch (lower_trimmed value) on_error_cases

  unfoldable pub normalize_non_target_behavior : Text → Text
  normalize_non_target_behavior behavior = switch (lower_trimmed behavior) behavior_cases

  unfoldable pub normalize_resolver_mode : Text → Text
  normalize_resolver_mode mode = switch (lower_trimmed mode) resolver_cases

  unfoldable pub normalize_cert_store_scope : Text → Text
  normalize_cert_store_scope scope = switch (lower_trimmed scope) scope_cases

  unfoldable pub normalize_upstream_type : Text → Text
  normalize_upstream_type type = switch (lower_trimmed type) upstream_cases

  -- The loop of normalizeProviderIDs.
  unfoldable pub lower_strings : List Text → List Text
  lower_strings [] = []
  lower_strings (raw ∷ values) =
      let rest = lower_strings values in
      if is_empty (lower_trimmed raw) then rest else lower_trimmed raw ∷ rest

  unfoldable pub normalize_provider_ids : Option (List Text) → Option (List Text)
  normalize_provider_ids none = none
  normalize_provider_ids (some values) = some (lower_strings values)

  -- The loop of dedupeStrings; `seen` holds the lower-case texts met so far.
  unfoldable pub dedupe_from : List Text → List Text → List Text
  dedupe_from seen [] = []
  dedupe_from seen (value ∷ values) =
      let key = to_lower x.lower_rune value in
      elim (one_of key seen) [
        | true ↦ dedupe_from seen values
        | false ↦ value ∷ dedupe_from (key ∷ seen) values
      ]

  unfoldable pub dedupe_strings : List Text → List Text
  dedupe_strings values = dedupe_from [] values

  unfoldable pub validate_listen_addr : Text → Bool → Result ListenError (Unit {0})
  validate_listen_addr addr allow_lan = do
    (host, port) ← of_option address_syntax (split_host_port addr)
    require (not (is_empty (trim_space port))) port_required
    if x.equal_fold host (text "localhost") then ok tt else (do
      ip ← of_option host_not_ip (x.parse_ip host)
      require (allow_lan || is_loopback ip) not_loopback)

  unfoldable pub normalize_optional_profile_host : Text → Result RuleError Text
  normalize_optional_profile_host host =
      if is_empty (trim_space host) then ok [] else normalize_host x (trim_space host)
