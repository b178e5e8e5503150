-- ===== src/Hosts/Entries.antt =====
-- The entries that EntriesFromDomains gives.
use siteboost_core.Rules.{sort_slice}
use siteboost_core.Rules.Sorting.{IsApart, All-sort_slice, sort_slice-IsApart}
use siteboost_core.Common.{
  Bool-cases, is_empty, any, All, ok, require, Result-cases, >>=-eq-ok, require-eq-ok, ◌≡◌, refl,
  subst, inl, inr, Bool, true, false, not, none, some, List, [], ◌∷◌, arith,
}
use siteboost_core.Text.{Text, text_eq, trim_space}
use siteboost_core.Text.Laws.{text_eq_iff, text_eq_comm}
use siteboost_core.External.{Externals}
use siteboost_core.Hosts.{
  Entry, map_ip_required, entry_lt, contains_text, domain_host, collect_entries,
  entries_from_domains,
}

-- No host is listed twice.
abbrev pub same_host : Entry → Entry → Bool
same_host one two = text_eq two.host one.host

abbrev pub HasDistinctHosts : List Entry → Type 0
HasDistinctHosts entries = IsApart same_host entries

-- No entry has one of these hosts.
abbrev Avoids : List Text → List Entry → Type 0
Avoids seen entries = All (λ entry. contains_text entry.host seen ≡ false) entries

Avoids-tail :
    (host : Text) (seen : List Text) (entries : List Entry)
    → Avoids (host ∷ seen) entries
    → Avoids seen entries × (any (λ other. text_eq other.host host) entries ≡ false)
Avoids-tail host seen [] h = (tt, refl)
Avoids-tail host seen (entry ∷ entries) h =
    let (rest, none_here) = Avoids-tail host seen entries h.1 in
    (
      (ground (arith, h.0), rest),
      ground (arith, h.0, none_here, text_eq_iff host entry.host, text_eq_iff entry.host host),
    )

-- What holds of the entries collected behind the hosts seen so far.
record AreCollected (map_ip : Text) (seen : List Text) (entries : List Entry) : Type 0 where
  distinct : HasDistinctHosts entries
  avoiding : Avoids seen entries
  mapped : All (λ entry. entry.ip ≡ map_ip) entries

AreCollected-cons :
    (map_ip host : Text) (seen : List Text) (entries : List Entry)
    → contains_text host seen ≡ false
    → AreCollected map_ip (host ∷ seen) entries
    → AreCollected map_ip seen (record { ip = map_ip; host = host } ∷ entries)
AreCollected-cons map_ip host seen entries fresh c =
    let (rest, none_here) = Avoids-tail host seen entries c.avoiding in
    record {
      distinct = (none_here, c.distinct);
      avoiding = (fresh, rest);
      mapped = (refl, c.mapped);
    }

module _ (x : Externals) (map_ip : Text) where
  collect_entries-AreCollected :
      (seen domains : List Text) (entries : List Entry)
      → collect_entries x map_ip seen domains ≡ ok entries
      → AreCollected map_ip seen entries
  unfolding collect_entries
  collect_entries-AreCollected seen [] entries h =
      let e : [] ≡ entries = ground arith in
      subst (AreCollected map_ip seen) e (record { distinct = tt; avoiding = tt; mapped = tt })
  collect_entries-AreCollected seen (raw ∷ domains) entries h =
      elim (Result-cases (domain_host x raw)) [
        | inr (cause, e) ↦ cc (rw (e, collect_entries) at h)
        | inl (none, e) ↦
            collect_entries-AreCollected seen domains entries (rw (e, collect_entries) at h)
        | inl (some host, e) ↦ elim (Bool-cases (contains_text host seen)) [
          | inl old ↦
              collect_entries-AreCollected seen domains entries (rw (e, old, collect_entries) at h)
          | inr fresh ↦
              let (rest, collected, same) =
                >>=-eq-ok (collect_entries x map_ip (host ∷ seen) domains) _
                  (rw (e, fresh, collect_entries) at h) in
              let made : record { ip = map_ip; host = host } ∷ rest ≡ entries = ground arith in
              subst (AreCollected map_ip seen) made (
                AreCollected-cons map_ip host seen rest fresh
                  (collect_entries-AreCollected (host ∷ seen) domains rest collected))
        ]
      ]

  -- If EntriesFromDomains answers with entries, no host is in two of them, each has the mapped
  -- address, and the address is not blank.
  pub entries_from_domains-AreMapped :
      (domains : List Text) (entries : List Entry)
      → entries_from_domains x domains map_ip ≡ ok entries
      → HasDistinctHosts entries
        × All (λ entry. entry.ip ≡ map_ip) entries
        × (is_empty (trim_space map_ip) ≡ false)
  unfolding entries_from_domains
  entries_from_domains-AreMapped domains entries h =
      let (u, given, rest) =
        >>=-eq-ok (require (not (is_empty (trim_space map_ip))) map_ip_required) _ h in
      let (found, collected, sorted) = >>=-eq-ok (collect_entries x map_ip [] domains) _ rest in
      let parts = collect_entries-AreCollected [] domains found collected in
      let e : sort_slice entry_lt found ≡ entries = ground arith in
      (
        subst HasDistinctHosts e (
            sort_slice-IsApart entry_lt same_host (λ one two. text_eq_comm two.host one.host) found
              parts.distinct),
        subst (All (λ entry. entry.ip ≡ map_ip)) e (All-sort_slice entry_lt _ found parts.mapped),
        not_true (is_empty (trim_space map_ip)) (require-eq-ok _ _ given),
      )
    where
      not_true : (b : Bool) → not b ≡ true → b ≡ false
      not_true b e = ground arith
