-- ===== src/SystemDns/Cleaning.antt =====
-- What cleanStrings leaves of the configured interfaces and servers.

use siteboost_core.SystemDns.{contains_key, clean_from, clean_strings}
use siteboost_core.Rules.Sorting.{IsApart}
use siteboost_core.Common.{
  Bool-cases, is_empty, any, All, ◌≡◌, refl, inl, inr, Bool, false, ◌||◌, List, [], ◌∷◌, arith,
}
use siteboost_core.Text.{Text, text_eq, trim_space, to_lower}
use siteboost_core.External.{Externals}

module _ (x : Externals) where
  -- The text by which cleanStrings compares.
  abbrev pub folded : Text → Text
  folded value = to_lower x.lower_rune value

  abbrev pub same_folded : Text → Text → Bool
  same_folded one two = text_eq (folded one) (folded two)

  -- What holds of the texts that are left behind those seen so far.
  record AreCleanFrom (seen values : List Text) : Type 0 where
    present : All (λ value. is_empty value ≡ false) values
    apart : IsApart same_folded values
    fresh : All (λ value. contains_key (folded value) seen ≡ false) values

  fresh-cons :
      (value : Text) (seen values : List Text)
      → All (λ one. contains_key (folded one) (folded value ∷ seen) ≡ false) values
      → All (λ one. contains_key (folded one) seen ≡ false) values
        × (any (same_folded value) values ≡ false)
  fresh-cons value seen [] h = (tt, refl)
  fresh-cons value seen (one ∷ values) h =
      let (rest, none_here) = fresh-cons value seen values h.1 in
      let two : (text_eq (folded value) (folded one) ≡ false)
          × (contains_key (folded one) seen ≡ false) =
        both (text_eq (folded value) (folded one)) (contains_key (folded one) seen) h.0 in
      ((two.1, rest), rw two.0 none_here)
    where
      both : (b c : Bool) → (b || c) ≡ false → (b ≡ false) × (c ≡ false)
      both b c e = (ground arith, ground arith)

  clean_from-AreCleanFrom : (seen values : List Text) → AreCleanFrom seen (clean_from x seen values)
  unfolding clean_from
  clean_from-AreCleanFrom seen [] = record { present = tt; apart = tt; fresh = tt }
  clean_from-AreCleanFrom seen (raw ∷ values) =
      elim (Bool-cases (is_empty (trim_space raw) || contains_key (folded (trim_space raw)) seen)) [
        | inl dropped ↦ rw (dropped, clean_from) (clean_from-AreCleanFrom seen values)
        | inr kept ↦
            rw (kept, clean_from)
              (let parts =
                  both (is_empty (trim_space raw)) (contains_key (folded (trim_space raw)) seen)
                    kept in
                let later = clean_from-AreCleanFrom (folded (trim_space raw) ∷ seen) values in
                let (rest, none_here) = fresh-cons (trim_space raw) seen _ later.fresh in
                record {
                  present = (parts.0, later.present);
                  apart = (none_here, later.apart);
                  fresh = (parts.1, rest);
                })
      ]
    where
      both : (b c : Bool) → (b || c) ≡ false → (b ≡ false) × (c ≡ false)
      both b c e = (ground arith, ground arith)

  -- cleanStrings leaves no empty text, and no two texts that differ in case only.
  pub clean_strings-IsApart :
      (values : List Text)
      → All (λ value. is_empty value ≡ false) (clean_strings x values)
        × IsApart same_folded (clean_strings x values)
  unfolding clean_strings
  clean_strings-IsApart values =
      let clean = clean_from-AreCleanFrom [] values in (clean.present, clean.apart)
