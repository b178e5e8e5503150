-- ===== src/Config/Accepting.antt =====
-- What the checks of Config.Validate accept, part by part.
use siteboost_core.Common.{
  is_empty, ok, map_error, >>=-eq-ok, map_error-eq-ok, passed, denied, ok_value, map_results,
  map_results-All, ◌≡◌, ap, ◌∙◌, subst, false, not, ◌&&◌, ◌||◌, [], ◌∷◌,
}
use siteboost_core.Text.{text_eq, trim_space}
use siteboost_core.External.{Externals}
use siteboost_core.Config.Names.{
  resolver_system, non_target_reject, non_target_direct, upstream_direct, cert_store_machine,
  cert_store_user,
}
use siteboost_core.Config.Types.{
  ProxyConfig, PacConfig, CertConfig, ResolverConfig, UpstreamConfig, RuntimeConfig,
  unsupported_non_target_behavior, proxy_listen_addr_required, pac_listen_addr_required,
  proxy_listen_addr, pac_listen_addr, control_addr, cert_dir_required, unsupported_store_scope,
  state_path_required, rollback_path_required, unsupported_resolver_mode, resolver_servers_required,
  both_preferred, unsupported_upstream_type, upstream_address_required,
}
use siteboost_core.Config.Normalizing.{
  one_of, normalize_non_target_behavior, normalize_cert_store_scope, normalize_upstream_type,
  validate_listen_addr,
}
use siteboost_core.Config.Profiles.{validate_outbound_profile, validate_outbound_profiles}
use siteboost_core.Config.Validating.{
  resolver_modes, upstream_types, default_control_addr, durations, validate_proxy, validate_pac,
  validate_cert, validate_runtime, check_resolver, validate_resolver, validate_upstream,
}
use siteboost_core.Config.Valid.{
  IsNonblank, IsListenable, validate_listen_addr-IsListenable, IsProfile, IsResolver, IsUpstream,
  IsRuntime,
}
use siteboost_core.Config.AcceptingProfiles.{validate_outbound_profile-IsProfile}

module _ (x : Externals) where
  pub validate_proxy-IsListenable :
      (cfg c : ProxyConfig) → validate_proxy x cfg ≡ ok c → IsListenable x c.allow_lan c.listen_addr
  unfolding validate_proxy
  validate_proxy-IsListenable cfg c h =
      let behavior = normalize_non_target_behavior x cfg.non_target_behavior in
      let (_, h1) =
        passed (one_of behavior (non_target_reject ∷ non_target_direct ∷ []))
          unsupported_non_target_behavior _ h in
      let (_, h2) = denied (is_empty cfg.listen_addr) proxy_listen_addr_required _ h1 in
      let (_, listen, h3) =
        >>=-eq-ok
          (map_error proxy_listen_addr (validate_listen_addr x cfg.listen_addr cfg.allow_lan)) _
          h2 in
      subst (λ c. IsListenable x c.allow_lan c.listen_addr) (ok_value h3)
        (validate_listen_addr-IsListenable x cfg.listen_addr cfg.allow_lan (
          map_error-eq-ok proxy_listen_addr (validate_listen_addr x cfg.listen_addr cfg.allow_lan)
            listen))

  pub validate_pac-IsListenable :
      (cfg : PacConfig) {u : Unit {0}}
      → validate_pac x cfg ≡ ok u
      → IsListenable x cfg.allow_lan cfg.listen_addr
  unfolding validate_pac
  validate_pac-IsListenable cfg h =
      let listening = validate_listen_addr x cfg.listen_addr cfg.allow_lan in
      let (_, listen) = denied (is_empty cfg.listen_addr) pac_listen_addr_required _ h in
      validate_listen_addr-IsListenable x cfg.listen_addr cfg.allow_lan
        (map_error-eq-ok pac_listen_addr listening listen)

  pub validate_cert-IsNonblank :
      (cfg c : CertConfig) → validate_cert x cfg ≡ ok c → IsNonblank c.dir
  unfolding validate_cert
  validate_cert-IsNonblank cfg c h =
      let scope = normalize_cert_store_scope x cfg.store_scope in
      let (given, h1) = denied (is_empty (trim_space cfg.dir)) cert_dir_required _ h in
      let (_, h2) =
        passed (one_of scope (cert_store_machine ∷ cert_store_user ∷ [])) unsupported_store_scope _
          h1 in
      subst (λ c. IsNonblank c.dir) (ok_value h2) given

  pub validate_runtime-IsRuntime :
      (cfg c : RuntimeConfig) → validate_runtime x cfg ≡ ok c → IsRuntime x c
  unfolding validate_runtime
  validate_runtime-IsRuntime cfg c h =
      let addr = default_control_addr cfg.control_addr in
      let listening = validate_listen_addr x addr false in
      let (_, listen, h1) = >>=-eq-ok (map_error control_addr listening) _ h in
      let (state, h2) = denied (is_empty (trim_space cfg.state_path)) state_path_required _ h1 in
      let (rollback, h3) =
        denied (is_empty (trim_space cfg.rollback_path)) rollback_path_required _ h2 in
      subst (IsRuntime x) (ok_value h3) (record {
        control =
            validate_listen_addr-IsListenable x addr false
              (map_error-eq-ok control_addr listening listen);
        state_path = state;
        rollback_path = rollback;
      })

  check_resolver-IsResolver :
      (cfg c : ResolverConfig) → check_resolver x cfg ≡ ok c → IsResolver x c
  unfolding check_resolver
  check_resolver-IsResolver cfg c h =
      let (mode, h1) = passed (one_of cfg.mode resolver_modes) unsupported_resolver_mode _ h in
      let (servers, h2) =
        passed (text_eq cfg.mode resolver_system || not (is_empty cfg.servers))
          resolver_servers_required _ h1 in
      let (preference, h3) = denied (cfg.prefer_ipv4 && cfg.prefer_ipv6) both_preferred _ h2 in
      subst (IsResolver x) (ok_value h3)
        (record { mode = mode; servers = servers; preference = preference })

  pub validate_resolver-IsResolver :
      (cfg c : ResolverConfig) → validate_resolver x cfg ≡ ok c → IsResolver x c
  unfolding validate_resolver
  validate_resolver-IsResolver cfg c h = check_resolver-IsResolver _ c h

  pub validate_upstream-IsUpstream :
      (cfg c : UpstreamConfig) → validate_upstream x cfg ≡ ok c → IsUpstream x c
  unfolding validate_upstream validate_outbound_profiles
  validate_upstream-IsUpstream cfg c h =
      let kind = normalize_upstream_type x cfg.type in
      let (type, h1) = passed (one_of kind upstream_types) unsupported_upstream_type _ h in
      let (address, h2) =
        passed (text_eq kind upstream_direct || not (is_empty (trim_space cfg.address)))
          upstream_address_required _ h1 in
      let (profiles, checked, h3) =
        >>=-eq-ok (map_results (validate_outbound_profile x) cfg.profiles) _ h2 in
      subst (IsUpstream x) (ok_value h3) (record {
        type = type;
        address = address;
        profiles =
            map_results-All (validate_outbound_profile x) (IsProfile x)
              (validate_outbound_profile-IsProfile x) cfg.profiles profiles checked;
      })

  -- The parts that hold the durations change in other fields only.
  validate_proxy_value :
      (cfg c : ProxyConfig)
      → validate_proxy x cfg ≡ ok c
      → record cfg { non_target_behavior = normalize_non_target_behavior x cfg.non_target_behavior }
        ≡ c
  unfolding validate_proxy
  validate_proxy_value cfg c h =
      let behavior = normalize_non_target_behavior x cfg.non_target_behavior in
      let (_, h1) =
        passed (one_of behavior (non_target_reject ∷ non_target_direct ∷ []))
          unsupported_non_target_behavior _ h in
      let (_, h2) = denied (is_empty cfg.listen_addr) proxy_listen_addr_required _ h1 in
      let (_, _, h3) =
        >>=-eq-ok
          (map_error proxy_listen_addr (validate_listen_addr x cfg.listen_addr cfg.allow_lan)) _
          h2 in
      ok_value h3

  validate_runtime_value :
      (cfg c : RuntimeConfig)
      → validate_runtime x cfg ≡ ok c
      → record cfg { control_addr = default_control_addr cfg.control_addr } ≡ c
  unfolding validate_runtime
  validate_runtime_value cfg c h =
      let listening = validate_listen_addr x (default_control_addr cfg.control_addr) false in
      let (_, _, h1) = >>=-eq-ok (map_error control_addr listening) _ h in
      let (_, h2) = denied (is_empty (trim_space cfg.state_path)) state_path_required _ h1 in
      let (_, h3) = denied (is_empty (trim_space cfg.rollback_path)) rollback_path_required _ h2 in
      ok_value h3

  check_resolver_value : (cfg c : ResolverConfig) → check_resolver x cfg ≡ ok c → cfg ≡ c
  unfolding check_resolver
  check_resolver_value cfg c h =
      let (_, h1) = passed (one_of cfg.mode resolver_modes) unsupported_resolver_mode _ h in
      let (_, h2) =
        passed (text_eq cfg.mode resolver_system || not (is_empty cfg.servers))
          resolver_servers_required _ h1 in
      let (_, h3) = denied (cfg.prefer_ipv4 && cfg.prefer_ipv6) both_preferred _ h2 in ok_value h3

  pub durations_kept :
      (proxy p : ProxyConfig) (resolver r : ResolverConfig) (runtime t : RuntimeConfig)
      → validate_proxy x proxy ≡ ok p
      → validate_resolver x resolver ≡ ok r
      → validate_runtime x runtime ≡ ok t
      → durations proxy resolver runtime ≡ durations p r t
  unfolding validate_resolver
  durations_kept proxy p resolver r runtime t hp hr ht =
      ap (λ p. durations p resolver runtime) (validate_proxy_value proxy p hp)
      ∙ ap (λ r. durations p r runtime) (check_resolver_value _ r hr)
      ∙ ap (λ t. durations p r t) (validate_runtime_value runtime t ht)
