-- ===== src/Rules.antt =====
-- internal/rules/rules.go: rule groups, host normalisation, the matcher and its compiled rules.
-- Errors keep their cause; the message around it is not modelled.
pub mod Sorting
pub mod Building
pub mod Coverage
pub mod Matching
use siteboost_core.Common.{
  if◌then◌else◌, length, is_empty, Result, ok, err, ◌>>=◌, ◌>>◌, require, of_option, lookup, insert,
  ℕ, ◌+◌, ◌*◌, Bool, true, false, not, ◌&&◌, Option, none, some, List, [], ◌∷◌, ◌++◌, map,
}
use siteboost_core.Text.{
  Text, text, text_eq, text_lt, trim_space, has_prefix, has_suffix, trim_prefix, trim_suffix,
  contains, contains_any, to_lower,
}
use siteboost_core.Text.Laws.{text_key}
use siteboost_core.Text.Address.{cut, split_host_port}
use siteboost_core.External.{Externals}

pub record RuleGroup : Type 0 where
  pub name : Text
  pub domains : List Text

pub record MatchResult : Type 0 where
  pub host : Text
  pub group_name : Text
  pub rule : Text

pub record CompiledRule : Type 0 where
  pub host : Text
  pub group_name : Text
  pub rule : Text

pub record CompiledRules : Type 0 where
  pub exact : List CompiledRule
  pub wildcard : List CompiledRule

pub record RuleSetInfo : Type 0 where
  pub name : Text
  pub version : Text
  pub updated_at : Text
  pub group_count : ℕ
  pub exact_count : ℕ
  pub wildcard_count : ℕ

pub record RuleEntry : Type 0 where
  pub group : Text
  pub rule : Text
  pub host : Text

pub record Matcher : Type 0 where
  pub exact : List (Text × RuleEntry)
  pub wildcard : List RuleEntry

pub data RuleError : Type 0 where
  host_required url_syntax url_delimiters idna_rejected : RuleError
  group_name_required empty_rule wildcard_form : RuleError

-- The port is cut off where the text is an address with a port.
unfoldable pub strip_port : Text → Text
strip_port host = elim (split_host_port host) [ none ↦ host | some (h, _) ↦ h ]

abbrev pub custom_name : Text
custom_name = text "custom"

abbrev pub custom_group : List Text → RuleGroup
custom_group domains = record { name = custom_name; domains = domains }

-- The comparison of sortCompiledRules.
unfoldable pub compiled_lt : CompiledRule → CompiledRule → Bool
compiled_lt a b =
    if not (text_eq a.host b.host)
    then text_lt a.host b.host
    else if not (text_eq a.group_name b.group_name)
    then text_lt a.group_name b.group_name
    else text_lt a.rule b.rule

-- sort.Slice by a comparison under which different elements compare: the result is the one sorted
-- list, so the algorithm does not matter.
module _ {A : Type 0} (lt : A → A → Bool) where
  unfoldable pub insert_sorted : A → List A → List A
  insert_sorted x [] = x ∷ []
  insert_sorted x (y ∷ ys) = if lt y x then y ∷ insert_sorted x ys else x ∷ y ∷ ys

  unfoldable pub sort_slice : List A → List A
  unfolding insert_sorted
  sort_slice [] = []
  sort_slice (x ∷ xs) = insert_sorted x (sort_slice xs)

unfoldable pub sort_compiled_rules : List CompiledRule → List CompiledRule
unfolding sort_slice compiled_lt
sort_compiled_rules = sort_slice compiled_lt

abbrev pub compiled_of : RuleEntry → CompiledRule
compiled_of entry = record { host = entry.host; group_name = entry.group; rule = entry.rule }

unfoldable pub rules : Matcher → CompiledRules
unfolding sort_compiled_rules
rules m = record {
  exact = sort_compiled_rules (map (λ b. compiled_of b.1) m.exact);
  wildcard = sort_compiled_rules (map compiled_of m.wildcard);
}

unfoldable pub rule_count : Matcher → ℕ
rule_count m = length m.exact + length m.wildcard

abbrev pub empty_matcher : Matcher
empty_matcher = record { exact = []; wildcard = [] }

-- normalized != host && strings.HasSuffix(normalized, "."+host)
unfoldable pub is_subdomain : Text → Text → Bool
is_subdomain normalized host =
    not (text_eq normalized host) && has_suffix (text "." ++ host) normalized

abbrev pub result_of : Text → RuleEntry → MatchResult
result_of normalized entry = record {
  host = normalized;
  group_name = entry.group;
  rule = entry.rule;
}

-- The loop over the wildcard rules.
unfoldable pub match_wildcard : Text → List RuleEntry → Option MatchResult
unfolding is_subdomain
match_wildcard normalized [] = none
match_wildcard normalized (entry ∷ entries) =
    if is_subdomain normalized entry.host
    then some (result_of normalized entry)
    else match_wildcard normalized entries

unfoldable pub match_normalized : Matcher → Text → Option MatchResult
match_normalized m normalized = elim (lookup text_key normalized m.exact) [
  | some entry ↦ some (result_of normalized entry)
  | none ↦ match_wildcard normalized m.wildcard
]

module _ (x : Externals) where
  unfoldable pub normalize_host : Text → Result RuleError Text
  unfolding strip_port
  normalize_host raw = do
    let trimmed = trim_space raw
    require (not (is_empty trimmed)) host_required
    authority ←
        if contains (text "://") trimmed
        then (do url ← of_option url_syntax (x.url_parse trimmed); ok url.host)
        else ok trimmed
    let bare =
        trim_suffix (text ".")
          (trim_suffix (text "]") (trim_prefix (text "[") (strip_port authority)))
    let host = to_lower x.lower_rune (trim_space bare)
    require (not (is_empty host)) host_required
    require (not (contains_any (text "/?#") host)) url_delimiters
    ascii ← of_option idna_rejected (x.to_ascii host)
    ok (to_lower x.lower_rune ascii)

  -- The entry of a rule, and whether it is a wildcard.
  unfoldable pub normalize_rule : Text → Text → Result RuleError (RuleEntry × Bool)
  normalize_rule group rule = do
    let trimmed = trim_space rule
    require (not (is_empty trimmed)) empty_rule
    require (not (contains (text "*") trimmed && not (has_prefix (text "*.") trimmed)))
        wildcard_form
    if has_prefix (text "*.") trimmed
        then (do
          host ← normalize_host (trim_prefix (text "*.") trimmed)
          ok (record { group = group; rule = text "*." ++ host; host = host }, true))
        else (do
          host ← normalize_host trimmed
          ok (record { group = group; rule = host; host = host }, false))

  unfoldable pub add_entry : Matcher → RuleEntry × Bool → Matcher
  add_entry m (entry, true) = record m { wildcard = m.wildcard ++ entry ∷ [] }
  add_entry m (entry, false) = record m { exact = insert text_key entry.host entry m.exact }

  -- The loop of addGroup over a group's domains.
  unfoldable pub add_domains : Text → List Text → Matcher → Result RuleError Matcher
  unfolding add_entry
  add_domains group [] m = ok m
  add_domains group (domain ∷ domains) m =
      normalize_rule group domain >>= λ e. add_domains group domains (add_entry m e)

  unfoldable pub add_group : RuleGroup → Matcher → Result RuleError Matcher
  unfolding add_domains
  add_group group m = do
    require (not (is_empty (trim_space group.name))) group_name_required
    add_domains group.name group.domains m

  -- The loop of NewMatcher over the groups.
  unfoldable pub add_groups : List RuleGroup → Matcher → Result RuleError Matcher
  unfolding add_group
  add_groups [] m = ok m
  add_groups (group ∷ groups) m = add_group group m >>= λ next. add_groups groups next

  unfoldable pub new_matcher : List RuleGroup → List Text → Result RuleError Matcher
  unfolding add_groups
  new_matcher groups custom_domains = do
    m ← add_groups groups empty_matcher
    if is_empty custom_domains then ok m else add_group (custom_group custom_domains) m

  unfoldable pub match_host : Matcher → Text → Option MatchResult
  unfolding match_normalized
  match_host m host = elim (normalize_host host) [
    | err _ ↦ none
    | ok normalized ↦ match_normalized m normalized
  ]

  unfoldable pub new_rule_set_info : Text → Text → Text → List RuleGroup → RuleSetInfo
  unfolding new_matcher rules
  new_rule_set_info name version updated_at groups = elim (new_matcher groups []) [
    | err _ ↦ record {
      name = name;
      version = version;
      updated_at = updated_at;
      group_count = 0;
      exact_count = 0;
      wildcard_count = 0;
    }
    | ok matcher ↦ record {
      name = name;
      version = version;
      updated_at = updated_at;
      group_count = length groups;
      exact_count = length (rules matcher).exact;
      wildcard_count = length (rules matcher).wildcard;
    }
  ]
