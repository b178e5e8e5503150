-- ===== src/Rules/Coverage.antt =====
-- NewMatcher drops no rule: whatever a group lists is in the matcher at the end.
use siteboost_core.Common.{
  if◌then◌else◌, is_some, is_empty, In, In-append_left, In-append_right, ok, require, >>=-eq-ok,
  lookup, lookup-insert, lookup-insert_self, ◌≡◌, refl, subst, inl, inr, Bool, true, false, not,
  List, [], ◌∷◌, arith,
}
use siteboost_core.Text.{Text, trim_space}
use siteboost_core.Text.Laws.{text_eq_iff, text_key}
use siteboost_core.External.{Externals}
use siteboost_core.Rules.{
  RuleGroup, RuleEntry, Matcher, custom_name, custom_group, empty_matcher, normalize_rule,
  add_entry, add_domains, add_group, add_groups, new_matcher,
}

-- The matcher has the entry of a wildcard rule, or some entry for the host of an exact one.
abbrev pub Holds : Matcher → RuleEntry × Bool → Type 0
Holds m (entry, true) = In entry m.wildcard
Holds m (entry, false) = is_some (lookup text_key entry.host m.exact) ≡ true

record Extends (m n : Matcher) : Type 0 where
  keeps : (e : RuleEntry × Bool) → Holds m e → Holds n e

Extends-trans : (l m n : Matcher) → Extends l m → Extends m n → Extends l n
Extends-trans l m n p q = record { keeps = λ e h. q.keeps e (p.keeps e h) }

Extends-refl : (m n : Matcher) → m ≡ n → Extends m n
Extends-refl m n e = record { keeps = λ r h. subst (λ k. Holds k r) e h }

module _ (x : Externals) where
  Holds-add_entry : (m : Matcher) (e : RuleEntry × Bool) → Holds (add_entry x m e) e
  unfolding add_entry
  Holds-add_entry m (entry, true) = In-append_right entry m.wildcard (entry ∷ []) (inl refl)
  Holds-add_entry m (entry, false) = rw (lookup-insert_self text_key entry.host entry m.exact)

  Extends-add_entry : (m : Matcher) (e : RuleEntry × Bool) → Extends m (add_entry x m e)
  unfolding add_entry
  Extends-add_entry m (entry, true) = record { keeps = keeps }
    where
      keeps : (r : RuleEntry × Bool) → Holds m r → Holds (add_entry x m (entry, true)) r
      keeps (other, true) h = In-append_left other m.wildcard (entry ∷ []) h
      keeps (other, false) h = h
  Extends-add_entry m (entry, false) = record { keeps = keeps }
    where
      keeps : (r : RuleEntry × Bool) → Holds m r → Holds (add_entry x m (entry, false)) r
      keeps (other, true) h = h
      keeps (other, false) h =
          rw (lookup-insert text_key entry.host other.host entry m.exact)
            (ground (arith, text_eq_iff entry.host other.host))

  add_domains-Extends :
      (group : Text) (domains : List Text) (m n : Matcher)
      → add_domains x group domains m ≡ ok n
      → Extends m n
  unfolding add_domains
  add_domains-Extends group [] m n h = Extends-refl m n (ground arith)
  add_domains-Extends group (domain ∷ domains) m n h =
      let (e, _, later) = >>=-eq-ok (normalize_rule x group domain) _ h in
      Extends-trans m (add_entry x m e) n (Extends-add_entry m e)
        (add_domains-Extends group domains (add_entry x m e) n later)

  add_domains-Holds :
      (group : Text) (domains : List Text) (m n : Matcher) (domain : Text) (e : RuleEntry × Bool)
      → add_domains x group domains m ≡ ok n
      → In domain domains
      → normalize_rule x group domain ≡ ok e
      → Holds n e
  unfolding add_domains
  add_domains-Holds group [] m n domain e h listed q = absurd listed
  add_domains-Holds group (d ∷ domains) m n domain e h (inl same) q =
      let (first, normalized, later) = >>=-eq-ok (normalize_rule x group d) _ h in
      let agree : first ≡ e = cc (same, normalized, q) in
      subst (Holds n) agree (
        (add_domains-Extends group domains (add_entry x m first) n later).keeps first
          (Holds-add_entry m first))
  add_domains-Holds group (d ∷ domains) m n domain e h (inr listed) q =
      let (first, _, later) = >>=-eq-ok (normalize_rule x group d) _ h in
      add_domains-Holds group domains (add_entry x m first) n domain e later listed q

  add_group_domains :
      (group : RuleGroup) (m n : Matcher)
      → add_group x group m ≡ ok n
      → add_domains x group.name group.domains m ≡ ok n
  unfolding add_group
  add_group_domains group m n h =
      (>>=-eq-ok (require (not (is_empty (trim_space group.name))) _) _ h).2

  add_groups-Extends :
      (groups : List RuleGroup) (m n : Matcher) → add_groups x groups m ≡ ok n → Extends m n
  unfolding add_groups
  add_groups-Extends [] m n h = Extends-refl m n (ground arith)
  add_groups-Extends (group ∷ groups) m n h =
      let (next, added, later) = >>=-eq-ok (add_group x group m) _ h in
      Extends-trans m next n
        (add_domains-Extends group.name group.domains m next (add_group_domains group m next added))
        (add_groups-Extends groups next n later)

  add_groups-Holds :
      (groups : List RuleGroup) (m n : Matcher) (group : RuleGroup) (domain : Text)
      (e : RuleEntry × Bool)
      → add_groups x groups m ≡ ok n
      → In group groups
      → In domain group.domains
      → normalize_rule x group.name domain ≡ ok e
      → Holds n e
  unfolding add_groups
  add_groups-Holds [] m n group domain e h listed member q = absurd listed
  add_groups-Holds (g ∷ groups) m n group domain e h (inl same) member q =
      let (next, added, later) = >>=-eq-ok (add_group x g m) _ h in
      (add_groups-Extends groups next n later).keeps e (
        add_domains-Holds group.name group.domains m next domain e
          (add_group_domains group m next (rw same added)) member q)
  add_groups-Holds (g ∷ groups) m n group domain e h (inr listed) member q =
      let (next, _, later) = >>=-eq-ok (add_group x g m) _ h in
      add_groups-Holds groups next n group domain e later listed member q

  -- NewMatcher drops no rule: when it returns a matcher, each rule of each group that normalises to
  -- a wildcard entry has that entry in the wildcard list, and each that normalises to an exact
  -- entry has an entry under its host, whatever groups and custom domains follow it.
  pub new_matcher-Holds :
      (groups : List RuleGroup) (custom_domains : List Text) (m : Matcher) (group : RuleGroup)
      (domain : Text) (e : RuleEntry × Bool)
      → new_matcher x groups custom_domains ≡ ok m
      → In group groups
      → In domain group.domains
      → normalize_rule x group.name domain ≡ ok e
      → Holds m e
  unfolding new_matcher
  new_matcher-Holds groups custom_domains m group domain e h listed member q =
      let (next, added, later) = >>=-eq-ok (add_groups x groups empty_matcher) _ h in
      finish custom_domains next later
        (add_groups-Holds groups empty_matcher next group domain e added listed member q)
    where
      finish :
          (custom : List Text) (next : Matcher)
          → (if is_empty custom then ok next else add_group x (custom_group custom) next) ≡ ok m
          → Holds next e
          → Holds m e
      finish [] next s held = (Extends-refl next m (ground arith)).keeps e held
      finish (d ∷ ds) next s held =
          (add_domains-Extends custom_name (d ∷ ds) next m
              (add_group_domains (custom_group (d ∷ ds)) next m s)).keeps
            e held
