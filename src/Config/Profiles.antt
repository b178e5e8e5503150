-- ===== src/Config/Profiles.antt =====
-- validateOutboundProfiles of internal/config/config.go. The indexes in its messages are not modelled.
use siteboost_core.Common.{
  if◌then◌else◌, is_some, is_empty, all, Result, ok, err, require, ◌>>=◌, ◌>>◌, map_error,
  map_results, Bool, not, ◌&&◌, ◌||◌, List, ◌++◌,
}
use siteboost_core.Text.{Text, text, has_prefix, trim_prefix, contains}
use siteboost_core.External.{Externals}
use siteboost_core.Rules.{normalize_host}
use siteboost_core.Config.Types.{
  OutboundProfileConfig, ConfigError, profile_domains_required, profile_domain_form,
  profile_candidate_ip, profile_no_effect, profile_domain, profile_forward_host,
  profile_tls_server_name,
}
use siteboost_core.Config.Normalizing.{trim_strings, normalize_optional_profile_host}

abbrev pub has_effect : OutboundProfileConfig → Bool
has_effect profile =
    not (is_empty profile.candidate_ips)
    || not (is_empty profile.forward_host)
    || not (is_empty profile.tls_server_name)
    || profile.ignore_tls_name_mismatch

module _ (x : Externals) where
  -- One pass of the loop over match_domains.
  unfoldable pub normalize_profile_domain : Text → Result ConfigError Text
  normalize_profile_domain domain =
      if contains (text "*") domain && not (has_prefix (text "*.") domain)
      then err profile_domain_form
      else if has_prefix (text "*.") domain
      then (do
        host ← map_error profile_domain (normalize_host x (trim_prefix (text "*.") domain))
        ok (text "*." ++ host))
      else map_error profile_domain (normalize_host x domain)

  abbrev pub are_addresses : List Text → Bool
  are_addresses ips = all (λ ip. is_some (x.parse_ip ip)) ips

  -- One pass of the outer loop: the profile as it is left in place.
  unfoldable pub validate_outbound_profile :
      OutboundProfileConfig → Result ConfigError OutboundProfileConfig
  validate_outbound_profile profile = do
    require (not (is_empty (trim_strings profile.match_domains))) profile_domains_required
    domains ← map_results normalize_profile_domain (trim_strings profile.match_domains)
    require (are_addresses (trim_strings profile.candidate_ips)) profile_candidate_ip
    forward_host ←
        map_error profile_forward_host (normalize_optional_profile_host x profile.forward_host)
    server_name ←
        map_error profile_tls_server_name
          (normalize_optional_profile_host x profile.tls_server_name)
    checked_effect (record {
      match_domains = domains;
      candidate_ips = trim_strings profile.candidate_ips;
      forward_host = forward_host;
      tls_server_name = server_name;
      ignore_tls_name_mismatch = profile.ignore_tls_name_mismatch;
    })
    where
      checked_effect : OutboundProfileConfig → Result ConfigError OutboundProfileConfig
      checked_effect left = do require (has_effect left) profile_no_effect; ok left

  unfoldable pub validate_outbound_profiles :
      List OutboundProfileConfig → Result ConfigError (List OutboundProfileConfig)
  validate_outbound_profiles profiles = map_results validate_outbound_profile profiles
