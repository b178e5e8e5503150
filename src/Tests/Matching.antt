-- ===== src/Tests/Matching.antt =====
-- The theorems on rules, the script, providers, profiles and the resolver at concrete inputs.

use siteboost_core.Text.Address.{split_host_port}
use siteboost_core.Tests.Inputs.{externals, groups, wildcard_entry, matcher}
use siteboost_core.Rules.{
  RuleGroup, MatchResult, CompiledRules, rules, match_wildcard, normalize_host, normalize_rule,
  new_matcher, match_host,
}
use siteboost_core.Rules.Building.{IsWellFormed, new_matcher-IsWellFormed}
use siteboost_core.Rules.Coverage.{Holds, new_matcher-Holds}
use siteboost_core.Rules.Matching.{Answers, match_host_sound}
use siteboost_core.Pac.{
  proxy, direct, script_of, is_inherited, find_proxy, matches_normalized, host_matches,
}
use siteboost_core.Pac.Agreement.{
  IsPlainHost, find_proxy-matches_normalized, host_matches-match_host,
}
use siteboost_core.Text.{
  Text, text, text_eq, trim_space, has_prefix, has_suffix, trim_prefix, trim_suffix, contains,
  contains_any, to_lower,
}
use siteboost_core.Common.{
  if◌then◌else◌, is_some, ok, lookup, insert, ◌≡◌, refl, inl, true, ◌||◌, some, [], ◌∷◌, ◌++◌,
}

matcher_made : new_matcher externals groups [] ≡ ok matcher
unfolding new_matcher trim_space normalize_rule contains normalize_host trim_prefix to_lower
    trim_suffix split_host_port contains_any insert
matcher_made = refl

matcher-IsWellFormed : IsWellFormed matcher
matcher-IsWellFormed = new_matcher-IsWellFormed externals groups [] matcher matcher_made

rule_normalised : normalize_rule externals (text "g") (text "*.a.b") ≡ ok (wildcard_entry, true)
unfolding normalize_rule trim_space contains normalize_host trim_prefix to_lower trim_suffix
    split_host_port contains_any
rule_normalised = refl

abbrev group : RuleGroup
group = record { name = text "g"; domains = text "*.a.b" ∷ text "c.d" ∷ [] }

new_matcher-Holds_example : Holds matcher (wildcard_entry, true)
new_matcher-Holds_example =
    new_matcher-Holds externals groups [] matcher group (text "*.a.b") (wildcard_entry, true)
      matcher_made (inl refl) (inl refl) rule_normalised

abbrev answer : MatchResult
answer = record { host = text "x.a.b"; group_name = text "g"; rule = text "*.a.b" }

subdomain_matched : match_host externals matcher (text "X.a.b:443") ≡ some answer
unfolding match_host normalize_host trim_space contains to_lower trim_suffix trim_prefix
    split_host_port contains_any lookup match_wildcard has_suffix
subdomain_matched = refl

match_host_sound_example :
    (n : Text) × (normalize_host externals (text "X.a.b:443") ≡ ok n)
    × (text "x.a.b" ≡ n)
    × Answers matcher n answer
match_host_sound_example =
    match_host_sound externals matcher (text "X.a.b:443") answer matcher-IsWellFormed
      subdomain_matched

host_matches-match_host_example :
    host_matches externals (rules matcher) (text "c.d.")
    ≡ is_some (match_host externals matcher (text "c.d."))
host_matches-match_host_example =
    host_matches-match_host externals matcher (text "c.d.") matcher-IsWellFormed

abbrev compiled : CompiledRules
compiled = record {
  exact = record { host = text "c.d"; group_name = text "g"; rule = text "c.d" } ∷ [];
  wildcard = record { host = text "a.b"; group_name = text "g"; rule = text "*.a.b" } ∷ [];
}

host-IsPlainHost : IsPlainHost (λ s. s) (text "x.a.b")
unfolding has_suffix has_prefix
host-IsPlainHost = record { lowered = refl; undotted = refl; headed = refl; nonempty = refl }

inherited-IsPlainHost : IsPlainHost (λ s. s) (text "constructor")
unfolding has_suffix has_prefix
inherited-IsPlainHost = record { lowered = refl; undotted = refl; headed = refl; nonempty = refl }

constructor-is_inherited : is_inherited (text "constructor") ≡ true
unfolding is_inherited text_eq
constructor-is_inherited = refl

find_proxy-matches_normalized_example :
    find_proxy (λ s. s) (script_of (text "127.0.0.1:1") compiled) (text "x.a.b") ≡ (
      if matches_normalized compiled (text "x.a.b") || is_inherited (text "x.a.b")
      then proxy (text "PROXY " ++ text "127.0.0.1:1")
      else direct)
find_proxy-matches_normalized_example =
    find_proxy-matches_normalized (λ s. s) (text "127.0.0.1:1") compiled (text "x.a.b")
      host-IsPlainHost
