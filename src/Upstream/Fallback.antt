-- ===== src/Upstream/Fallback.antt =====
-- The direct dialer falls back on the host's own addresses.
use siteboost_core.Upstream.Profile.{CompiledProfile, match_profile}
use siteboost_core.Text.Laws.{text_eq_refl}
use siteboost_core.Upstream.Dialing.{
  DirectDialAttempt, DialCandidate, Found, candidate_key, has_key, candidate_of, add_candidate,
  add_candidates, add_resolved, profile_candidates, candidates, attempt_of, connected, exhausted,
  dial_candidates,
}
use siteboost_core.Common.{
  Bool-cases, is_empty, any, In, ◌≡◌, refl, sym, ap, ◌∙◌, subst, ◌⊎◌, inl, inr, Bool, true, false,
  ◌||◌, Option, some, List, [], ◌∷◌, ◌++◌, map, append_assoc, append-nil, arith,
}
use siteboost_core.Text.{Text, text_eq}
use siteboost_core.External.{Ip, Externals}

any-snoc :
    {A : Type 0} (p : A → Bool) (xs : List A) (y : A) → any p (xs ++ y ∷ []) ≡ (any p xs || p y)
any-snoc p [] y = ground arith
any-snoc p (x ∷ xs) y = ground (arith, any-snoc p xs y)

module _ (x : Externals) (resolver : Text → Option (List Ip)) (ip_text : Ip → Text)
    (host port : Text) where
  -- The key of the candidate that an address gives.
  abbrev pub key_for : Text → Text → Bool → Ip → Text
  key_for target server ignore ip =
      candidate_key (candidate_of x resolver ip_text host port ip target server ignore)

  module _ (target server : Text) (ignore : Bool) where
    add_candidate-keeps :
        (key : Text) (ip : Ip) (candidates : List DialCandidate)
        → has_key key candidates ≡ true
        → has_key key
            (add_candidate x resolver ip_text host port target server ignore ip candidates)
          ≡ true
    unfolding add_candidate
    add_candidate-keeps key ip candidates h =
        elim (Bool-cases (is_empty ip || has_key (key_for target server ignore ip) candidates)) [
          | inl old ↦ rw (old, add_candidate) h
          | inr made ↦
              rw (made, add_candidate)
                (any-snoc (λ c. text_eq (candidate_key c) key) candidates
                    (candidate_of x resolver ip_text host port ip target server ignore)
                  ∙ ground (arith, h))
        ]

    add_candidate-has :
        (ip : Ip) (candidates : List DialCandidate)
        → is_empty ip ≡ false
        → has_key
            (key_for target server ignore ip)
            (add_candidate x resolver ip_text host port target server ignore ip candidates)
          ≡ true
    unfolding add_candidate
    add_candidate-has ip candidates h =
        let key = key_for target server ignore ip in
        elim (Bool-cases (is_empty ip || has_key key candidates)) [
          | inl old ↦
              let there : has_key key candidates ≡ true = second (is_empty ip) _ h old in
              rw (old, add_candidate) there
          | inr made ↦
              rw (made, add_candidate)
                (any-snoc (λ c. text_eq (candidate_key c) key) candidates
                    (candidate_of x resolver ip_text host port ip target server ignore)
                  ∙ ground (arith, text_eq_refl key))
        ]
      where
        second : (b c : Bool) → b ≡ false → (b || c) ≡ true → c ≡ true
        second b c e h = ground arith

    add_candidates-keeps :
        (key : Text) (ips : List Ip) (candidates : List DialCandidate)
        → has_key key candidates ≡ true
        → has_key key
            (add_candidates x resolver ip_text host port target server ignore ips candidates)
          ≡ true
    unfolding add_candidates
    add_candidates-keeps key [] candidates h = h
    add_candidates-keeps key (ip ∷ ips) candidates h =
        add_candidates-keeps key ips _ (add_candidate-keeps key ip candidates h)

    add_candidates-has :
        (ip : Ip) (ips : List Ip) (candidates : List DialCandidate)
        → In ip ips
        → is_empty ip ≡ false
        → has_key
            (key_for target server ignore ip)
            (add_candidates x resolver ip_text host port target server ignore ips candidates)
          ≡ true
    unfolding add_candidates
    add_candidates-has ip [] candidates m h = absurd m
    add_candidates-has ip (first ∷ ips) candidates (inl e) h =
        add_candidates-keeps (key_for target server ignore ip) ips _ (
          subst
            (λ i.
              has_key (key_for target server ignore ip)
                (add_candidate x resolver ip_text host port target server ignore i candidates)
              ≡ true)
            e (add_candidate-has ip candidates h))
    add_candidates-has ip (first ∷ ips) candidates (inr m) h = add_candidates-has ip ips _ m h

  add_resolved-has :
      (target server : Text) (ignore : Bool) (ips : List Ip) (ip : Ip) (found : Found)
      → resolver target ≡ some ips
      → In ip ips
      → is_empty ip ≡ false
      → has_key
          (key_for target server ignore ip)
          (add_resolved x resolver ip_text host port target server ignore found).0
        ≡ true
  unfolding add_resolved
  add_resolved-has target server ignore ips ip (candidates, attempts) resolved m h =
      rw (resolved, add_resolved) (add_candidates-has target server ignore ip ips candidates m h)

  -- A host with a profile keeps its own addresses as candidates, under its own name, whatever the
  -- profile lists and whether or not its forward host resolves: each address that the resolver gives
  -- for the host is there, by the key under which the dialer tells candidates apart.
  pub candidates_fallback :
      (profiles : List CompiledProfile) (profile : CompiledProfile) (ips : List Ip) (ip : Ip)
      → match_profile x profiles host ≡ some profile
      → resolver host ≡ some ips
      → In ip ips
      → is_empty ip ≡ false
      → (found : Found) × (candidates x resolver ip_text host port profiles ≡ some found)
        × (has_key (key_for host host profile.ignore_tls_name_mismatch ip) found.0 ≡ true)
  unfolding candidates profile_candidates
  candidates_fallback profiles profile ips ip matched resolved m h = (
    profile_candidates x resolver ip_text host port profile,
    rw (matched, candidates) refl,
    add_resolved-has host host profile.ignore_tls_name_mismatch ips ip _ resolved m h,
  )

-- DialContext's loop connects to a candidate that answers, where one does; otherwise it reports the
-- attempts before it and one for every candidate, in order.
pub dial_candidates_cases :
    (reachable : Text → Bool) (candidates : List DialCandidate) (attempts : List DirectDialAttempt)
    → ((c : DialCandidate) × (dial_candidates reachable candidates attempts ≡ connected c)
        × In c candidates
        × (reachable c.address ≡ true))
      ⊎ ((dial_candidates reachable candidates attempts
            ≡ exhausted (attempts ++ map attempt_of candidates))
          × (any (λ c. reachable c.address) candidates ≡ false))
unfolding dial_candidates
dial_candidates_cases reachable [] attempts = inr (ap exhausted (sym (append-nil attempts)), refl)
dial_candidates_cases reachable (c ∷ candidates) attempts =
    elim (Bool-cases (reachable c.address)) [
      | inl answers ↦ inl (c, rw (answers, dial_candidates) refl, inl refl, answers)
      | inr dead ↦
          elim (dial_candidates_cases reachable candidates (attempts ++ attempt_of c ∷ [])) [
            | inl (d, done, inside, answers) ↦
                inl (d, rw (dead, dial_candidates) done, inr inside, answers)
            | inr (done, none_answers) ↦ inr (
              rw (dead, dial_candidates)
                  (done
                    ∙ ap exhausted
                        (append_assoc attempts (attempt_of c ∷ []) (map attempt_of candidates))),
              rw dead none_answers,
            )
          ]
    ]
