-- ===== src/Tests/Dialing.antt =====
-- The theorems on the direct dialer at a concrete host.
use siteboost_core.Rules.{normalize_host}
use siteboost_core.Text.Address.{split_host_port}
use siteboost_core.Tests.Inputs.{loopback_ip, externals}
use siteboost_core.Upstream.Profile.{
  CompiledProfile, covers_domain, covers, first_profile, match_profile,
}
use siteboost_core.Upstream.Dialing.{
  DialCandidate, Found, has_key, candidates, attempt_of, connected, exhausted, dial_candidates,
}
use siteboost_core.Upstream.Fallback.{key_for, candidates_fallback, dial_candidates_cases}
use siteboost_core.External.{Ip}
use siteboost_core.Text.{
  Text, text, text_eq, trim_space, trim_prefix, trim_suffix, contains, contains_any, to_lower,
}
use siteboost_core.Common.{
  if◌then◌else◌, any, In, ◌≡◌, refl, ◌⊎◌, inl, Bool, true, false, Option, none, some, List, [], ◌∷◌,
}

abbrev profile : CompiledProfile
profile = record {
  match_domains = record { host = text "a.b"; wildcard = false } ∷ [];
  candidate_ips = [];
  forward_host = text "f.g";
  tls_server_name = [];
  ignore_tls_name_mismatch = false;
}

-- Only the host itself resolves.
abbrev resolver : Text → Option (List Ip)
resolver host = if text_eq host (text "a.b") then some (loopback_ip ∷ []) else none

abbrev ip_text : Ip → Text
ip_text ip = text "127.0.0.1"

profile_matched : match_profile externals (profile ∷ []) (text "a.b") ≡ some profile
unfolding match_profile normalize_host trim_space contains to_lower trim_suffix trim_prefix
    split_host_port contains_any first_profile covers covers_domain
profile_matched = refl

host_resolved : resolver (text "a.b") ≡ some (loopback_ip ∷ [])
unfolding text_eq
host_resolved = refl

candidates_fallback_example :
    (found : Found) × (candidates externals resolver ip_text
        (text "a.b")
        (text "443")
        (profile ∷ [])
      ≡ some found)
    × (has_key
          (key_for externals resolver ip_text
            (text "a.b")
            (text "443")
            (text "a.b")
            (text "a.b")
            false
            loopback_ip)
          found.0
        ≡ true)
candidates_fallback_example =
    candidates_fallback externals resolver ip_text (text "a.b") (text "443") (profile ∷ []) profile
      (loopback_ip ∷ []) loopback_ip profile_matched host_resolved (inl refl) refl

abbrev candidate : DialCandidate
candidate = record {
  ip = loopback_ip;
  address = text "127.0.0.1:443";
  target = text "a.b";
  tls_server_name = text "a.b";
  ignore_tls_name_mismatch = false;
}

abbrev never : Text → Bool
never address = false

dial_candidates_cases_example :
    ((c : DialCandidate) × (dial_candidates never (candidate ∷ []) [] ≡ connected c)
      × In c (candidate ∷ [])
      × (never c.address ≡ true))
    ⊎ ((dial_candidates never (candidate ∷ []) [] ≡ exhausted (attempt_of candidate ∷ []))
        × (any (λ c. never c.address) (candidate ∷ []) ≡ false))
dial_candidates_cases_example = dial_candidates_cases never (candidate ∷ []) []
