-- ===== src/Provider.antt =====
-- internal/provider: the providers, the resolution of the enabled ones, and what they contribute.
-- Slices are copied by value here, so the clone functions are the identity.
pub mod Builtin
pub mod Resolving
use siteboost_core.Common.{
  if◌then◌else◌, length, is_empty, any, Result, ok, err, ◌>>=◌, ℕ, ◌+◌, Bool, true, false, ◌||◌,
  Option, none, some, List, [], ◌∷◌, ◌++◌, map,
}
use siteboost_core.Text.{Text, text, text_eq, text_lt, trim_space, to_lower}
use siteboost_core.External.{Externals}
use siteboost_core.Rules.{RuleGroup, sort_slice, rules, new_rule_set_info}
use siteboost_core.Provider.Builtin.{ProbeTarget, Provider, id_steam, steam, github}
use siteboost_core.Upstream.Profile.{Profile}

pub record Summary : Type 0 where
  pub id : Text
  pub name : Text
  pub status : Text
  pub rule_set_name : Text
  pub rule_set_version : Text
  pub rule_set_updated_at : Text
  pub rule_count : ℕ
  pub outbound_profiles : ℕ
  pub probe_targets : ℕ

-- A nil list of the configuration is `none`.
abbrev pub default_enabled : List Text
default_enabled = id_steam ∷ []

abbrev pub builtins : List Provider
builtins = steam ∷ github ∷ []

-- The loop of Lookup over the providers.
unfoldable pub lookup_in : List Provider → Text → Option Provider
lookup_in [] id = none
lookup_in (p ∷ providers) id = if text_eq p.id id then some p else lookup_in providers id

abbrev pub contains_id : Text → List Text → Bool
contains_id id seen = any (λ s. text_eq s id) seen

abbrev pub label_target : Text → ProbeTarget → ProbeTarget
label_target id target = record target { provider_id = id }

abbrev pub label_targets : Provider → List ProbeTarget
label_targets p = map (label_target p.id) p.probe_targets

unfoldable pub rule_groups : List Provider → List RuleGroup
rule_groups [] = []
rule_groups (p ∷ providers) = p.rules ++ rule_groups providers

unfoldable pub outbound_profiles : List Provider → List Profile
outbound_profiles [] = []
outbound_profiles (p ∷ providers) = p.outbound_profiles ++ outbound_profiles providers

unfoldable pub probe_targets : List Provider → List ProbeTarget
probe_targets [] = []
probe_targets (p ∷ providers) = label_targets p ++ probe_targets providers

-- The error holds the text that the configuration has.
pub data ProviderError : Type 0 where
  unknown_provider : Text → ProviderError

module _ (x : Externals) where
  unfoldable pub normalize_id : Text → Text
  normalize_id id = to_lower x.lower_rune (trim_space id)

  unfoldable pub lookup_provider : Text → Option Provider
  lookup_provider id = lookup_in builtins (normalize_id id)

  -- The loop of ResolveEnabled; `seen` holds the identifiers met so far.
  unfoldable pub resolve_ids : List Text → List Text → Result ProviderError (List Provider)
  resolve_ids seen [] = ok []
  resolve_ids seen (raw ∷ ids) =
      let id = normalize_id raw in
      elim (is_empty id || contains_id id seen) [
        | true ↦ resolve_ids seen ids
        | false ↦ elim (lookup_provider id) [
          | none ↦ err (unknown_provider raw)
          | some p ↦ resolve_ids (id ∷ seen) ids >>= λ providers. ok (p ∷ providers)
        ]
      ]

  unfoldable pub resolve_enabled : Option (List Text) → Result ProviderError (List Provider)
  resolve_enabled none = resolve_ids [] default_enabled
  resolve_enabled (some ids) = resolve_ids [] ids

  unfoldable pub summary_of : Provider → Summary
  summary_of p =
      let info =
        new_rule_set_info x p.rule_set_name p.rule_set_version p.rule_set_updated_at p.rules in
      record {
        id = p.id;
        name = p.name;
        status = p.status;
        rule_set_name = info.name;
        rule_set_version = info.version;
        rule_set_updated_at = info.updated_at;
        rule_count = info.exact_count + info.wildcard_count;
        outbound_profiles = length p.outbound_profiles;
        probe_targets = length p.probe_targets;
      }

  unfoldable pub summaries : List Provider → List Summary
  summaries providers = sort_slice (λ one two. text_lt one.id two.id) (map summary_of providers)
