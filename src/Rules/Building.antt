-- ===== src/Rules/Building.antt =====
-- What NewMatcher builds: a well-formed matcher that holds an entry for every rule it was given.
use siteboost_core.Common.{
  if◌then◌else◌, is_empty, All, All-append, ok, require, >>=-eq-ok, All-insert, ◌≡◌, refl, subst,
  Bool, true, false, not, List, [], ◌∷◌, ◌++◌, arith,
}
use siteboost_core.Text.{Text, text, trim_space}
use siteboost_core.Text.Laws.{text_key}
use siteboost_core.Rules.{
  custom_group, RuleGroup, RuleEntry, Matcher, empty_matcher, normalize_rule, add_entry,
  add_domains, add_group, add_groups, new_matcher,
}
use siteboost_core.External.{Externals}

-- A map's key is the host of its entry.
abbrev pub HasOwnKey : Text × RuleEntry → Type 0
HasOwnKey (k, entry) = k ≡ entry.host

-- A wildcard entry prints its host behind `*.`.
abbrev pub IsWildcard : RuleEntry → Type 0
IsWildcard entry = entry.rule ≡ text "*." ++ entry.host

pub record IsWellFormed (m : Matcher) : Type 0 where
  pub keyed : All HasOwnKey m.exact
  pub starred : All IsWildcard m.wildcard

module _ (x : Externals) where
  -- The entry that a rule gives, by whether it is a wildcard.
  pub normalize_rule_shape :
      (group rule : Text) (entry : RuleEntry) (starred : Bool)
      → normalize_rule x group rule ≡ ok (entry, starred)
      → (entry.group ≡ group)
        × (entry.rule ≡ (if starred then text "*." ++ entry.host else entry.host))
  unfolding normalize_rule
  normalize_rule_shape group rule entry true h = ground arith
  normalize_rule_shape group rule entry false h = ground arith

  add_entry-IsWellFormed :
      (group rule : Text) (entry : RuleEntry) (starred : Bool) (m : Matcher)
      → normalize_rule x group rule ≡ ok (entry, starred)
      → IsWellFormed m
      → IsWellFormed (add_entry x m (entry, starred))
  unfolding add_entry
  add_entry-IsWellFormed group rule entry true m h w = record {
    keyed = w.keyed;
    starred =
        All-append IsWildcard m.wildcard (entry ∷ []) w.starred
          ((normalize_rule_shape group rule entry true h).1, tt);
  }
  add_entry-IsWellFormed group rule entry false m h w = record {
    keyed = All-insert text_key HasOwnKey entry.host entry m.exact refl w.keyed;
    starred = w.starred;
  }

  add_domains-IsWellFormed :
      (group : Text) (domains : List Text) (m n : Matcher)
      → add_domains x group domains m ≡ ok n
      → IsWellFormed m
      → IsWellFormed n
  unfolding add_domains
  add_domains-IsWellFormed group [] m n h w = subst IsWellFormed (ground arith) w
  add_domains-IsWellFormed group (domain ∷ domains) m n h w =
      let ((entry, starred), normalized, later) = >>=-eq-ok (normalize_rule x group domain) _ h in
      add_domains-IsWellFormed group domains _ n later
        (add_entry-IsWellFormed group domain entry starred m normalized w)

  pub add_group-IsWellFormed :
      (group : RuleGroup) (m n : Matcher)
      → add_group x group m ≡ ok n
      → IsWellFormed m
      → IsWellFormed n
  unfolding add_group
  add_group-IsWellFormed group m n h w =
      let (_, _, later) = >>=-eq-ok (require (not (is_empty (trim_space group.name))) _) _ h in
      add_domains-IsWellFormed group.name group.domains m n later w

  add_groups-IsWellFormed :
      (groups : List RuleGroup) (m n : Matcher)
      → add_groups x groups m ≡ ok n
      → IsWellFormed m
      → IsWellFormed n
  unfolding add_groups
  add_groups-IsWellFormed [] m n h w = subst IsWellFormed (ground arith) w
  add_groups-IsWellFormed (group ∷ groups) m n h w =
      let (next, added, later) = >>=-eq-ok (add_group x group m) _ h in
      add_groups-IsWellFormed groups next n later (add_group-IsWellFormed group m next added w)

  -- A matcher that NewMatcher returns is well formed: each exact entry stands under its own host,
  -- and each wildcard entry has the rule `*.` with its host.
  pub new_matcher-IsWellFormed :
      (groups : List RuleGroup) (custom_domains : List Text) (m : Matcher)
      → new_matcher x groups custom_domains ≡ ok m
      → IsWellFormed m
  unfolding new_matcher
  new_matcher-IsWellFormed groups custom_domains m h =
      let (next, added, later) = >>=-eq-ok (add_groups x groups empty_matcher) _ h in
      let w =
        add_groups-IsWellFormed groups empty_matcher next added
          (record { keyed = tt; starred = tt }) in
      finish custom_domains next later w
    where
      finish :
          (custom : List Text) (next : Matcher)
          → (if is_empty custom then ok next else add_group x (custom_group custom) next) ≡ ok m
          → IsWellFormed next
          → IsWellFormed m
      finish [] next e w = subst IsWellFormed (ground arith) w
      finish (d ∷ ds) next e w = add_group-IsWellFormed (custom_group (d ∷ ds)) next m e w
