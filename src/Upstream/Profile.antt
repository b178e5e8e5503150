-- ===== src/Upstream/Profile.antt =====
-- internal/upstream/profile.go: the profiles, their compilation, and the profile of a host; and
-- profileTLSServerName of upstream.go. Errors keep their cause without the indexes in the message.
use siteboost_core.Common.{
  if◌then◌else◌, is_empty, any, Result, ok, err, ◌>>=◌, ◌>>◌, require, Bool, not, ◌&&◌, Option,
  none, some, List, [], ◌∷◌, ◌++◌,
}
use siteboost_core.Text.{
  Text, text, text_eq, trim_space, has_prefix, has_suffix, trim_prefix, contains,
}
use siteboost_core.External.{Ip, Externals}
use siteboost_core.Rules.{RuleError, normalize_host}

pub record Profile : Type 0 where
  pub match_domains : List Text
  pub candidate_ips : List Text
  pub forward_host : Text
  pub tls_server_name : Text
  pub ignore_tls_name_mismatch : Bool

pub record CompiledProfileDomain : Type 0 where
  pub host : Text
  pub wildcard : Bool

pub record CompiledProfile : Type 0 where
  pub match_domains : List CompiledProfileDomain
  pub candidate_ips : List Ip
  pub forward_host : Text
  pub tls_server_name : Text
  pub ignore_tls_name_mismatch : Bool

pub data ProfileError : Type 0 where
  domain_form match_domains_required candidate_ip_invalid : ProfileError
  domain_host forward_host_invalid server_name_invalid : RuleError → ProfileError
  no_effect : ProfileError

abbrev pub map_err : {E F A : Type 0} → (E → F) → Result E A → Result F A
map_err f (ok v) = ok v
map_err f (err e) = err (f e)

-- The test of matchProfile for one domain of a profile.
unfoldable pub covers_domain : Text → CompiledProfileDomain → Bool
covers_domain normalized domain =
    if domain.wildcard
    then not (text_eq normalized domain.host) && has_suffix (text "." ++ domain.host) normalized
    else text_eq normalized domain.host

unfoldable pub covers : Text → CompiledProfile → Bool
covers normalized profile = any (λ domain. covers_domain normalized domain) profile.match_domains

-- The loops of matchProfile.
unfoldable pub first_profile : Text → List CompiledProfile → Option CompiledProfile
first_profile normalized [] = none
first_profile normalized (profile ∷ profiles) =
    if covers normalized profile then some profile else first_profile normalized profiles

abbrev pub profile_tls_server_name : CompiledProfile → Text → Text
profile_tls_server_name profile host =
    if not (is_empty profile.tls_server_name) then profile.tls_server_name else host

-- A loop that appends what its body gives, or fails with it.
unfoldable pub collect :
    {A : Type 0}
    → (Text → Result ProfileError (Option A))
    → List Text
    → Result ProfileError (List A)
collect f [] = ok []
collect f (raw ∷ raws) = do
  made ← f raw
  rest ← collect f raws
  ok (elim made [ none ↦ rest | some v ↦ v ∷ rest ])

-- A profile without an effect is refused.
unfoldable pub has_effect : CompiledProfile → Bool
has_effect next = not (
    is_empty next.candidate_ips
    && is_empty next.forward_host
    && is_empty next.tls_server_name
    && not next.ignore_tls_name_mismatch)

module _ (x : Externals) where
  -- One domain of the loop; a blank one gives none.
  unfoldable pub compile_domain : Text → Result ProfileError (Option CompiledProfileDomain)
  compile_domain raw =
      let domain = trim_space raw in
      let wildcard = has_prefix (text "*.") domain in
      if is_empty domain
      then ok none
      else if contains (text "*") domain && not wildcard
      then err domain_form
      else (do
        host ←
            map_err domain_host
              (normalize_host x (if wildcard then trim_prefix (text "*.") domain else domain))
        ok (some (record { host = host; wildcard = wildcard })))

  unfoldable pub compile_candidate : Text → Result ProfileError (Option Ip)
  compile_candidate raw =
      let trimmed = trim_space raw in
      if is_empty trimmed
      then ok none
      else elim (x.parse_ip trimmed) [ none ↦ err candidate_ip_invalid | some ip ↦ ok (some ip) ]

  unfoldable pub normalize_profile_host : Text → Result RuleError Text
  normalize_profile_host host =
      let trimmed = trim_space host in if is_empty trimmed then ok [] else normalize_host x trimmed

  -- The loop's body before its last test.
  unfoldable pub compile_parts : Profile → Result ProfileError CompiledProfile
  compile_parts profile = do
    domains ← collect compile_domain profile.match_domains
    require (not (is_empty domains)) match_domains_required
    ips ← collect compile_candidate profile.candidate_ips
    forward ← map_err forward_host_invalid (normalize_profile_host profile.forward_host)
    server ← map_err server_name_invalid (normalize_profile_host profile.tls_server_name)
    ok (record {
      match_domains = domains;
      candidate_ips = ips;
      forward_host = forward;
      tls_server_name = server;
      ignore_tls_name_mismatch = profile.ignore_tls_name_mismatch;
    })

  unfoldable pub compile_profile : Profile → Result ProfileError CompiledProfile
  compile_profile profile = do
    next ← compile_parts profile
    require (has_effect next) no_effect
    ok next

  unfoldable pub compile_profiles : List Profile → Result ProfileError (List CompiledProfile)
  compile_profiles [] = ok []
  compile_profiles (profile ∷ profiles) = do
    next ← compile_profile profile
    rest ← compile_profiles profiles
    ok (next ∷ rest)

  unfoldable pub match_profile : List CompiledProfile → Text → Option CompiledProfile
  match_profile profiles host = elim (normalize_host x host) [
    | err _ ↦ none
    | ok normalized ↦ first_profile normalized profiles
  ]
