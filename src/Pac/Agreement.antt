-- ===== src/Pac/Agreement.antt =====
-- The three readings of a rule set agree: the matcher, HostMatches, and the generated script.
use siteboost_core.Common.{
  ltb, if◌then◌else◌, Bool-cases, is_some, length, is_empty, any, length-append, Result-cases, suc,
  ◌+◌, ◌≡◌, refl, sym, ap, ◌∙◌, inl, inr, true, false, not, ◌&&◌, ◌||◌, List, [], ◌∷◌, ◌++◌, arith,
}
use siteboost_core.Text.{Text, text, text_eq, has_prefix, has_suffix, trim_suffix}
use siteboost_core.Text.Laws.{text_eq_iff, has_suffix_sound}
use siteboost_core.External.{Externals}
use siteboost_core.Rules.{
  CompiledRule, CompiledRules, Matcher, rules, is_subdomain, normalize_host, match_host,
}
use siteboost_core.Rules.Building.{IsWellFormed}
use siteboost_core.Rules.Matching.{match_normalized-is_covered}
use siteboost_core.Pac.{
  proxy, direct, hosts_of, script_of, is_inherited, ends_with_proper, find_proxy,
  matches_normalized, host_matches,
}

-- A host that the script's own clean-up leaves alone, as normalisation leaves it.
pub record IsPlainHost (js_lower : Text → Text) (n : Text) : Type 0 where
  pub lowered : js_lower n ≡ n
  pub undotted : has_suffix (text ".") n ≡ false
  pub headed : has_prefix (text ".") n ≡ false
  pub nonempty : is_empty n ≡ false

trim_suffix_none : (t : Text) (s : Text) → has_suffix t s ≡ false → trim_suffix t s ≡ s
unfolding has_suffix trim_suffix
trim_suffix_none t [] h = refl
trim_suffix_none t (c ∷ s) h = ground (arith, trim_suffix_none t s)

ends_with_proper-is_subdomain :
    (host n : Text)
    → has_prefix (text ".") n ≡ false
    → ends_with_proper (text "." ++ host) n ≡ is_subdomain n host
unfolding ends_with_proper is_subdomain has_prefix
ends_with_proper-is_subdomain host n h = elim (Bool-cases (has_suffix (text "." ++ host) n)) [
  | inl ends ↦ let (front, e) = has_suffix_sound (text "." ++ host) n ends in longer front e
  | inr other ↦ ground arith
]
  where
    longer :
        (front : Text)
        → n ≡ front ++ (text "." ++ host)
        → (ltb (suc (length host)) (length n) && has_suffix (text "." ++ host) n)
          ≡ (not (text_eq n host) && has_suffix (text "." ++ host) n)
    longer [] e = let dotted : has_prefix (text ".") n ≡ true = rw e in cc (dotted, h)
    longer (c ∷ front) e =
        let size : length n ≡ suc (length front + suc (length host)) =
          ap length e ∙ ap suc (length-append front (text "." ++ host)) in
        let different : (same : n ≡ host) → ⊥ = λ same. omega (arith, size, ap length same) in
        elim (Bool-cases (text_eq n host)) [
          | inl same ↦ absurd (different ((text_eq_iff n host).0 same))
          | inr other ↦ ground (arith, size)
        ]

module _ (n : Text) (nonempty : is_empty n ≡ false) where
  any-hosts_of_exact :
      (compiled : List CompiledRule)
      → any (λ key. text_eq n key) (hosts_of compiled) ≡ any (λ rule. text_eq n rule.host) compiled
  unfolding hosts_of
  any-hosts_of_exact [] = refl
  any-hosts_of_exact (rule ∷ compiled) =
      ground (arith, text_eq_iff n rule.host, any-hosts_of_exact compiled)

  any-hosts_of_wildcard :
      (compiled : List CompiledRule)
      → has_suffix (text ".") n ≡ false
      → has_prefix (text ".") n ≡ false
      → any (λ w. ends_with_proper (text "." ++ w) n) (hosts_of compiled)
        ≡ any (λ rule. is_subdomain n rule.host) compiled
  unfolding hosts_of is_subdomain
  any-hosts_of_wildcard [] undotted headed = refl
  any-hosts_of_wildcard (rule ∷ compiled) undotted headed = ground (
    arith,
    ends_with_proper-is_subdomain rule.host n headed,
    any-hosts_of_wildcard compiled undotted headed,
  )

-- For a host in the form that normalisation gives, with no leading dot, the generated script sends
-- the browser to the proxy exactly when the Go side matches the host, or when the host is spelled
-- like a property that every JavaScript object inherits.
pub find_proxy-matches_normalized :
    (js_lower : Text → Text) (proxy_addr : Text) (compiled : CompiledRules) (n : Text)
    → IsPlainHost js_lower n
    → find_proxy js_lower (script_of proxy_addr compiled) n ≡ (
        if matches_normalized compiled n || is_inherited n
        then proxy (text "PROXY " ++ proxy_addr)
        else direct)
unfolding find_proxy script_of matches_normalized
find_proxy-matches_normalized js_lower proxy_addr compiled n plain =
    let trimmed : trim_suffix (text ".") (js_lower n) ≡ n =
      rw plain.lowered (trim_suffix_none (text ".") n plain.undotted) in
    rw
      (
        trimmed,
        any-hosts_of_exact n plain.nonempty compiled.exact,
        any-hosts_of_wildcard n plain.nonempty compiled.wildcard plain.undotted plain.headed,
      )
      (ground arith)

-- For a well-formed matcher, HostMatches over its compiled rules says yes exactly when MatchHost
-- answers, for every host text, the rejected ones included.
pub host_matches-match_host :
    (x : Externals) (m : Matcher) (host : Text)
    → IsWellFormed m
    → host_matches x (rules m) host ≡ is_some (match_host x m host)
unfolding host_matches match_host matches_normalized
host_matches-match_host x m host w = elim (Result-cases (normalize_host x host)) [
  | inl (n, e) ↦ rw (e, host_matches, match_host) (sym (match_normalized-is_covered m n w))
  | inr (cause, e) ↦ rw (e, host_matches, match_host)
]
