-- ===== src/Rules/Matching.antt =====
-- What MatchHost answers, against the rules that the matcher holds.
use siteboost_core.Common.{
  Bool-cases, Option-cases, is_some, length, any, All, In, length-map, any-map, ok, Result-cases,
  lookup, All-lookup, ◌+◌, ◌≡◌, refl, sym, ap, ◌≢◌, ◌↔◌, inl, inr, Bool, true, ◌||◌, none, some,
  List, [], ◌∷◌, ◌++◌, map, arith,
}
use siteboost_core.Text.{Text, text, text_eq, has_suffix}
use siteboost_core.Text.Laws.{text_eq_iff, text_key, EndsWith, has_suffix_sound, has_suffix_iff}
use siteboost_core.External.{Externals}
use siteboost_core.Rules.{
  MatchResult, CompiledRules, RuleEntry, Matcher, compiled_lt, sort_compiled_rules, compiled_of,
  rules, rule_count, is_subdomain, result_of, match_wildcard, match_normalized, normalize_host,
  match_host,
}
use siteboost_core.Rules.Sorting.{any-sort_slice, length-sort_slice}
use siteboost_core.Rules.Building.{HasOwnKey, IsWellFormed}

-- `n` is a proper subdomain of `host`, read on the texts.
abbrev pub IsSubdomain : Text → Text → Type 0
IsSubdomain n host = (n ≢ host) × EndsWith (text "." ++ host) n

pub is_subdomain_iff : (n host : Text) → (is_subdomain n host ≡ true) ↔ IsSubdomain n host
unfolding is_subdomain
is_subdomain_iff n host = (
  λ h. (λ e. ground (arith, text_eq_iff n host), has_suffix_sound _ n (ground arith)),
  λ (different, ends).
      let same : has_suffix (text "." ++ host) n ≡ true = (has_suffix_iff _ n).1 ends in
      ground (arith, text_eq_iff n host),
)

-- The answer comes from an exact entry for this host, or, where there is none, from a wildcard
-- entry of which the host is a proper subdomain.
pub data Answers (m : Matcher) (n : Text) (r : MatchResult) : Type 0 where
  by_exact :
      (entry : RuleEntry)
      → In (n, entry) m.exact
      → entry.host ≡ n
      → r ≡ result_of n entry
      → Answers m n r
  by_wildcard :
      (entry : RuleEntry)
      → lookup text_key n m.exact ≡ none
      → In entry m.wildcard
      → IsSubdomain n entry.host
      → r ≡ result_of n entry
      → Answers m n r

lookup-In :
    (n : Text) (entry : RuleEntry) (m : List (Text × RuleEntry))
    → lookup text_key n m ≡ some entry
    → In (n, entry) m
unfolding lookup
lookup-In n entry [] h = cc
lookup-In n entry ((k, other) ∷ m) h = elim (Bool-cases (text_eq k n)) [
  | inl same ↦
      let agree : k ≡ n = (text_eq_iff k n).0 same in
      let value : other ≡ entry = ground arith in inl (λ i. (sym agree i, sym value i))
  | inr other_key ↦ inr (lookup-In n entry m (rw other_key at h))
]

match_wildcard_sound :
    (n : Text) (entries : List RuleEntry) (r : MatchResult)
    → match_wildcard n entries ≡ some r
    → (entry : RuleEntry) × In entry entries
      × (is_subdomain n entry.host ≡ true)
      × (r ≡ result_of n entry)
unfolding match_wildcard
match_wildcard_sound n [] r h = cc
match_wildcard_sound n (entry ∷ entries) r h = elim (Bool-cases (is_subdomain n entry.host)) [
  | inl sub ↦ (entry, inl refl, sub, ground arith)
  | inr other ↦
      let (found, listed, sub, same) = match_wildcard_sound n entries r (rw other at h) in
      (found, inr listed, sub, same)
]

pub match_normalized_sound :
    (m : Matcher) (n : Text) (r : MatchResult)
    → IsWellFormed m
    → match_normalized m n ≡ some r
    → Answers m n r
unfolding match_normalized
match_normalized_sound m n r w h = elim (Option-cases (lookup text_key n m.exact)) [
  | inl missing ↦
      let (entry, listed, sub, same) =
        match_wildcard_sound n m.wildcard r (rw (missing, match_normalized) at h) in
      by_wildcard entry missing listed ((is_subdomain_iff n entry.host).0 sub) same
  | inr (entry, found) ↦
      by_exact entry (lookup-In n entry m.exact found)
        (sym (All-lookup text_key HasOwnKey n entry m.exact w.keyed found)) (ground arith)
]

lookup-any :
    (n : Text) (m : List (Text × RuleEntry))
    → All HasOwnKey m
    → is_some (lookup text_key n m) ≡ any (λ b. text_eq n b.1.host) m
unfolding lookup
lookup-any n [] w = refl
lookup-any n ((k, entry) ∷ m) w =
    ground (arith, text_eq_iff k n, text_eq_iff n entry.host, lookup-any n m w.1)

match_wildcard-any :
    (n : Text) (entries : List RuleEntry)
    → is_some (match_wildcard n entries) ≡ any (λ entry. is_subdomain n entry.host) entries
unfolding match_wildcard
match_wildcard-any n [] = refl
match_wildcard-any n (entry ∷ entries) = ground (arith, match_wildcard-any n entries)

-- Some exact rule has this host, or it is a proper subdomain of some wildcard rule's host.
abbrev pub is_covered : CompiledRules → Text → Bool
is_covered compiled n =
    any (λ rule. text_eq n rule.host) compiled.exact
    || any (λ rule. is_subdomain n rule.host) compiled.wildcard

pub match_normalized-is_covered :
    (m : Matcher) (n : Text)
    → IsWellFormed m
    → is_some (match_normalized m n) ≡ is_covered (rules m) n
unfolding match_normalized rules sort_compiled_rules
match_normalized-is_covered m n w = ground (
  arith,
  lookup-any n m.exact w.keyed,
  match_wildcard-any n m.wildcard,
  any-sort_slice compiled_lt (λ rule. text_eq n rule.host) (map (λ b. compiled_of b.1) m.exact),
  any-sort_slice compiled_lt (λ rule. is_subdomain n rule.host) (map compiled_of m.wildcard),
  any-map (λ rule. text_eq n rule.host) (λ b. compiled_of b.1) m.exact,
  any-map (λ rule. is_subdomain n rule.host) compiled_of m.wildcard,
)

-- RuleCount is the number of compiled rules.
pub rule_count-rules :
    (m : Matcher) → rule_count m ≡ length (rules m).exact + length (rules m).wildcard
unfolding rule_count rules sort_compiled_rules
rule_count-rules m = omega (
  arith,
  length-sort_slice compiled_lt (map (λ b. compiled_of b.1) m.exact),
  length-sort_slice compiled_lt (map compiled_of m.wildcard),
  length-map (λ b. compiled_of b.1) m.exact,
  length-map compiled_of m.wildcard,
)

module _ (x : Externals) where
  -- When MatchHost answers for a well-formed matcher, the host normalises, the answer names the
  -- normalised host, and it comes from an exact entry for that host, or else, where no exact entry
  -- has the host, from a listed wildcard entry of which the host is a proper subdomain.
  pub match_host_sound :
      (m : Matcher) (host : Text) (r : MatchResult)
      → IsWellFormed m
      → match_host x m host ≡ some r
      → (n : Text) × (normalize_host x host ≡ ok n) × (r.host ≡ n) × Answers m n r
  unfolding match_host
  match_host_sound m host r w h = elim (Result-cases (normalize_host x host)) [
    | inl (n, e) ↦
        let a = match_normalized_sound m n r w (rw (e, match_host) at h) in
        (n, e, Answers-host m n r a, a)
    | inr (cause, e) ↦ cc (rw (e, match_host) at h)
  ]
    where
      Answers-host : (m : Matcher) (n : Text) (r : MatchResult) → Answers m n r → r.host ≡ n
      Answers-host m n r (by_exact entry _ _ same) = ap (λ q. q.host) same
      Answers-host m n r (by_wildcard entry _ _ _ same) = ap (λ q. q.host) same
