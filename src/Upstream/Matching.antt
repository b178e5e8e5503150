-- ===== src/Upstream/Matching.antt =====
-- What compiling profiles guarantees, and which profile a host has.
use siteboost_core.Upstream.Profile.{
  Profile, CompiledProfile, match_domains_required, forward_host_invalid, server_name_invalid,
  no_effect, map_err, covers, first_profile, collect, has_effect, compile_domain, compile_candidate,
  normalize_profile_host, compile_parts, compile_profile, compile_profiles, match_profile,
}
use siteboost_core.Common.{
  Bool-cases, length, is_empty, any, All, ok, require, >>=-eq-ok, require-eq-ok, suc, ◌≡◌, refl, ap,
  subst, ◌⊎◌, inl, inr, true, false, not, none, some, List, [], ◌∷◌, ◌++◌, arith,
}
use siteboost_core.Text.{Text}
use siteboost_core.External.{Externals}
use siteboost_core.Rules.{normalize_host}

-- A compiled profile has a domain to match and an effect.
pub record IsCompiled (profile : CompiledProfile) : Type 0 where
  pub has_domain : is_empty profile.match_domains ≡ false
  pub effective : has_effect profile ≡ true

-- The profile stands in the list, behind profiles that do not cover the host only.
pub record IsFirst (normalized : Text) (profiles : List CompiledProfile) (profile : CompiledProfile)
    : Type 0 where
  pub before : List CompiledProfile
  pub behind : List CompiledProfile
  pub split : profiles ≡ before ++ profile ∷ behind
  pub hit : covers normalized profile ≡ true
  pub none_before : any (λ p. covers normalized p) before ≡ false

first_profile_cases :
    (normalized : Text) (profiles : List CompiledProfile)
    → ((first_profile normalized profiles ≡ none)
        × (any (λ p. covers normalized p) profiles ≡ false))
      ⊎ ((profile : CompiledProfile) × (first_profile normalized profiles ≡ some profile)
          × IsFirst normalized profiles profile)
unfolding first_profile
first_profile_cases normalized [] = inl (refl, refl)
first_profile_cases normalized (profile ∷ profiles) =
    elim (Bool-cases (covers normalized profile)) [
      | inl here ↦ inr (
        profile,
        rw (here, first_profile) refl,
        record { before = []; behind = profiles; split = refl; hit = here; none_before = refl },
      )
      | inr missed ↦ elim (first_profile_cases normalized profiles) [
        | inl (nothing, none_covers) ↦
            inl (rw (missed, first_profile) nothing, rw missed none_covers)
        | inr (found, same, first) ↦ inr (
          found,
          rw (missed, first_profile) same,
          record {
            before = profile ∷ first.before;
            behind = first.behind;
            split = ap (λ ps. profile ∷ ps) first.split;
            hit = first.hit;
            none_before = rw missed first.none_before;
          },
        )
      ]
    ]

module _ (x : Externals) where
  -- For a host that normalises, matchProfile gives the first profile with a domain that covers the
  -- host, and none only where no profile has one.
  pub match_profile_cases :
      (profiles : List CompiledProfile) (host normalized : Text)
      → normalize_host x host ≡ ok normalized
      → ((match_profile x profiles host ≡ none) × (any (λ p. covers normalized p) profiles ≡ false))
        ⊎ ((profile : CompiledProfile) × (match_profile x profiles host ≡ some profile)
            × IsFirst normalized profiles profile)
  unfolding match_profile
  match_profile_cases profiles host normalized e =
      rw (e, match_profile) (first_profile_cases normalized profiles)

  compile_parts-has_domain :
      (profile : Profile) (next : CompiledProfile)
      → compile_parts x profile ≡ ok next
      → is_empty next.match_domains ≡ false
  unfolding compile_parts
  compile_parts-has_domain profile next h =
      let (domains, _, h1) = >>=-eq-ok (collect (compile_domain x) profile.match_domains) _ h in
      let (_, present, h2) =
        >>=-eq-ok (require (not (is_empty domains)) match_domains_required) _ h1 in
      let (_, _, h3) = >>=-eq-ok (collect (compile_candidate x) profile.candidate_ips) _ h2 in
      let (_, _, h4) =
        >>=-eq-ok (map_err forward_host_invalid (normalize_profile_host x profile.forward_host)) _
          h3 in
      let (_, _, h5) =
        >>=-eq-ok (map_err server_name_invalid (normalize_profile_host x profile.tls_server_name)) _
          h4 in
      let nonempty = require-eq-ok _ _ present in ground (arith, h5, nonempty)

  compile_profile-IsCompiled :
      (profile : Profile) (next : CompiledProfile)
      → compile_profile x profile ≡ ok next
      → IsCompiled next
  unfolding compile_profile
  compile_profile-IsCompiled profile next h =
      let (made, parts, h1) = >>=-eq-ok (compile_parts x profile) _ h in
      let (_, tested, same) = >>=-eq-ok (require (has_effect made) no_effect) _ h1 in
      let e : made ≡ next = ground arith in
      subst IsCompiled e (record {
        has_domain = compile_parts-has_domain profile made parts;
        effective = require-eq-ok _ _ tested;
      })

  -- Every profile that compileProfiles gives has a domain to match and an effect, and there is one
  -- for each profile configured.
  pub compile_profiles-IsCompiled :
      (profiles : List Profile) (compiled : List CompiledProfile)
      → compile_profiles x profiles ≡ ok compiled
      → All IsCompiled compiled × (length compiled ≡ length profiles)
  unfolding compile_profiles
  compile_profiles-IsCompiled [] compiled h =
      let e : [] ≡ compiled = ground arith in
      subst (λ c. All IsCompiled c × (length c ≡ 0)) e (tt, refl)
  compile_profiles-IsCompiled (profile ∷ profiles) compiled h =
      let (next, made, h1) = >>=-eq-ok (compile_profile x profile) _ h in
      let (rest, later, h2) = >>=-eq-ok (compile_profiles x profiles) _ h1 in
      let e : next ∷ rest ≡ compiled = ground arith in
      let (all_later, count) = compile_profiles-IsCompiled profiles rest later in
      subst (λ c. All IsCompiled c × (length c ≡ length (profile ∷ profiles))) e
        ((compile_profile-IsCompiled profile next made, all_later), ap suc count)
