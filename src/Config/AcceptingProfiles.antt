-- ===== src/Config/AcceptingProfiles.antt =====
-- What validateOutboundProfiles of internal/config/config.go accepts.
use siteboost_core.Common.{
  is_some, is_empty, all, All, Result, ok, map_error, >>=-eq-ok, passed, denied, ok_value,
  map_results, ◌≡◌, refl, ◌∙◌, subst, Bool, true, false, List, [], ◌∷◌, arith,
}
use siteboost_core.Text.{Text}
use siteboost_core.External.{Externals}
use siteboost_core.Config.Types.{
  OutboundProfileConfig, profile_domains_required, profile_candidate_ip, profile_no_effect,
  profile_forward_host, profile_tls_server_name,
}
use siteboost_core.Config.Normalizing.{trim_strings, normalize_optional_profile_host}
use siteboost_core.Config.Profiles.{
  has_effect, normalize_profile_domain, are_addresses, validate_outbound_profile,
}
use siteboost_core.Config.Valid.{IsProfile}

abbrev checked_profile :
    Externals → OutboundProfileConfig → List Text → Text → Text → OutboundProfileConfig
checked_profile x profile domains forward_host server_name = record {
  match_domains = domains;
  candidate_ips = trim_strings profile.candidate_ips;
  forward_host = forward_host;
  tls_server_name = server_name;
  ignore_tls_name_mismatch = profile.ignore_tls_name_mismatch;
}

map_results-is_empty :
    {E A B : Type 0} (f : A → Result E B) (xs : List A) (ys : List B)
    → map_results f xs ≡ ok ys
    → is_empty ys ≡ is_empty xs
unfolding map_results
map_results-is_empty f [] ys h = subst (λ ys. is_empty ys ≡ true) (ok_value h) refl
map_results-is_empty f (x ∷ xs) ys h =
    let (b, first, later) = >>=-eq-ok (f x) _ h in
    let (bs, rest, last) = >>=-eq-ok (map_results f xs) _ later in
    subst (λ ys. is_empty ys ≡ false) (ok_value last) refl

all_sound : {A : Type 0} (p : A → Bool) (xs : List A) → all p xs ≡ true → All (λ a. p a ≡ true) xs
all_sound p [] h = tt
all_sound p (x ∷ xs) h = (ground arith, all_sound p xs (ground arith))

module _ (x : Externals) where
  pub validate_outbound_profile-IsProfile :
      (cfg c : OutboundProfileConfig) → validate_outbound_profile x cfg ≡ ok c → IsProfile x c
  unfolding validate_outbound_profile
  validate_outbound_profile-IsProfile cfg c h =
      let ips = trim_strings cfg.candidate_ips in
      let (given, h1) =
        denied (is_empty (trim_strings cfg.match_domains)) profile_domains_required _ h in
      let (domains, built, h2) =
        >>=-eq-ok (map_results (normalize_profile_domain x) (trim_strings cfg.match_domains)) _
          h1 in
      let (parsed, h3) = passed (are_addresses x ips) profile_candidate_ip _ h2 in
      let (host, _, h4) =
        >>=-eq-ok
          (map_error profile_forward_host (normalize_optional_profile_host x cfg.forward_host)) _
          h3 in
      let (server, _, h5) =
        >>=-eq-ok
          (map_error profile_tls_server_name
            (normalize_optional_profile_host x cfg.tls_server_name))
          _ h4 in
      let (effect, h6) =
        passed (has_effect (checked_profile x cfg domains host server)) profile_no_effect _ h5 in
      subst (IsProfile x) (ok_value h6) (record {
        domains =
            map_results-is_empty (normalize_profile_domain x) (trim_strings cfg.match_domains)
              domains built
            ∙ given;
        addresses = all_sound (λ ip. is_some (x.parse_ip ip)) ips parsed;
        effect = effect;
      })
