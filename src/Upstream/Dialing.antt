-- ===== src/Upstream/Dialing.antt =====
-- internal/upstream/upstream.go: the candidates of the direct dialer and DialContext's loop over them.
-- The resolver, the printing of addresses and the dialer of the net package are parameters; errors
-- are not modelled but for the place where they arise.
use siteboost_core.Upstream.Profile.{CompiledProfile, profile_tls_server_name, match_profile}
use siteboost_core.Common.{
  if◌then◌else◌, is_empty, any, Bool, true, false, ◌||◌, Option, none, some, List, [], ◌∷◌, ◌++◌,
  map,
}
use siteboost_core.Text.{Text, text, text_eq}
use siteboost_core.Text.Address.{join_host_port}
use siteboost_core.External.{Ip, Externals}

pub data Stage : Type 0 where
  tcp resolving : Stage

pub record DirectDialAttempt : Type 0 where
  pub stage : Stage
  pub ip : Ip
  pub address : Text
  pub target : Text

pub record DialCandidate : Type 0 where
  pub ip : Ip
  pub address : Text
  pub target : Text
  pub tls_server_name : Text
  pub ignore_tls_name_mismatch : Bool

-- The candidates and the failed attempts so far.
abbrev pub Found : Type 0
Found = List DialCandidate × List DirectDialAttempt

-- The key under which a candidate counts as seen.
unfoldable pub candidate_key : DialCandidate → Text
candidate_key c = c.address ++ (0 ∷ (c.target ++ (0 ∷ c.tls_server_name)))

abbrev pub has_key : Text → List DialCandidate → Bool
has_key key candidates = any (λ c. text_eq (candidate_key c) key) candidates

module _ (x : Externals) (resolver : Text → Option (List Ip)) (ip_text : Ip → Text)
    (host port : Text) where
  unfoldable pub candidate_of : Ip → Text → Text → Bool → DialCandidate
  candidate_of ip target server ignore = record {
    ip = ip;
    address = join_host_port (ip_text ip) port;
    target = target;
    tls_server_name = if is_empty server then host else server;
    ignore_tls_name_mismatch = ignore;
  }

  -- addCandidate
  unfoldable pub add_candidate : Text → Text → Bool → Ip → List DialCandidate → List DialCandidate
  add_candidate target server ignore ip candidates =
      let made = candidate_of ip target server ignore in
      if is_empty ip || has_key (candidate_key made) candidates
      then candidates
      else candidates ++ made ∷ []

  -- A loop of addCandidate over addresses.
  unfoldable pub add_candidates :
      Text → Text → Bool → List Ip → List DialCandidate → List DialCandidate
  add_candidates target server ignore [] candidates = candidates
  add_candidates target server ignore (ip ∷ ips) candidates =
      add_candidates target server ignore ips (add_candidate target server ignore ip candidates)

  -- addResolved
  unfoldable pub add_resolved : Text → Text → Bool → Found → Found
  add_resolved resolve_host server ignore (candidates, attempts) = elim (resolver resolve_host) [
    | none ↦ (
      candidates,
      attempts
          ++ record {
            stage = resolving;
            ip = [];
            address = join_host_port resolve_host port;
            target = [];
          }
            ∷ [],
    )
    | some ips ↦ (add_candidates resolve_host server ignore ips candidates, attempts)
  ]

  -- The candidates of a host with a profile.
  unfoldable pub profile_candidates : CompiledProfile → Found
  profile_candidates profile =
      let server = profile_tls_server_name profile host in
      let ignore = profile.ignore_tls_name_mismatch in
      let listed : Found =
        (add_candidates (text "profile-ip") server ignore profile.candidate_ips [], []) in
      let forwarded =
        if is_empty profile.forward_host
        then listed
        else add_resolved profile.forward_host server ignore listed in
      add_resolved host host ignore forwarded

  -- candidates; `none` is the error of the resolver.
  unfoldable pub candidates : List CompiledProfile → Option Found
  candidates profiles = elim (match_profile x profiles host) [
    | none ↦ elim (resolver host) [
      | none ↦ none
      | some ips ↦ some (map (λ ip. candidate_of ip host host false) ips, [])
    ]
    | some profile ↦ some (profile_candidates profile)
  ]

-- DialContext's loop: the candidate that answers, or every attempt.
abbrev pub attempt_of : DialCandidate → DirectDialAttempt
attempt_of c = record { stage = tcp; ip = c.ip; address = c.address; target = c.target }

pub data Dialed : Type 0 where
  connected : DialCandidate → Dialed
  exhausted : List DirectDialAttempt → Dialed

unfoldable pub dial_candidates :
    (Text → Bool) → List DialCandidate → List DirectDialAttempt → Dialed
dial_candidates reachable [] attempts = exhausted attempts
dial_candidates reachable (c ∷ candidates) attempts = elim (reachable c.address) [
  | true ↦ connected c
  | false ↦ dial_candidates reachable candidates (attempts ++ attempt_of c ∷ [])
]
