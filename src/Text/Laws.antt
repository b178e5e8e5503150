-- ===== src/Text/Laws.antt =====
-- Equality, prefixes and suffixes of texts.
use siteboost_core.Common.{
  Bool-cases, Key, ◌≡◌, refl, ap, ◌↔◌, inl, inr, true, [], ◌∷◌, ◌++◌, arith,
}
use siteboost_core.Text.{Text, text_eq, has_suffix}

pub text_eq_sound : (s t : Text) → text_eq s t ≡ true → s ≡ t
unfolding text_eq
text_eq_sound [] [] h = refl
text_eq_sound (c ∷ s) (d ∷ t) h = ground (arith, text_eq_sound s t)
text_eq_sound [] (d ∷ t) h = cc
text_eq_sound (c ∷ s) [] h = cc

pub text_eq_refl : (s : Text) → text_eq s s ≡ true
unfolding text_eq
text_eq_refl [] = refl
text_eq_refl (c ∷ s) = ground (arith, text_eq_refl s)

pub text_eq_iff : (s t : Text) → (text_eq s t ≡ true) ↔ (s ≡ t)
text_eq_iff s t = (text_eq_sound s t, λ e. rw e (text_eq_refl t))

-- Texts as the keys of a map.
abbrev pub text_key : Key Text
text_key = record { eq = text_eq; eq_iff = text_eq_iff }

-- `t` ends the text.
abbrev pub EndsWith : Text → Text → Type 0
EndsWith t s = (front : Text) × (s ≡ front ++ t)

pub has_suffix_sound : (t s : Text) → has_suffix t s ≡ true → EndsWith t s
unfolding has_suffix
has_suffix_sound t [] h = ([], text_eq_sound [] t h)
has_suffix_sound t (c ∷ s) h = elim (Bool-cases (text_eq (c ∷ s) t)) [
  | inl e ↦ ([], text_eq_sound (c ∷ s) t e)
  | inr e ↦ let (front, p) = has_suffix_sound t s (rw e at h) in (c ∷ front, ap (λ r. c ∷ r) p)
]

pub has_suffix-append : (front t : Text) → has_suffix t (front ++ t) ≡ true
unfolding has_suffix
has_suffix-append [] [] = text_eq_refl []
has_suffix-append [] (c ∷ t) = rw (text_eq_refl (c ∷ t))
has_suffix-append (c ∷ front) t = ground (arith, has_suffix-append front t)

pub has_suffix_iff : (t s : Text) → (has_suffix t s ≡ true) ↔ EndsWith t s
has_suffix_iff t s = (has_suffix_sound t s, λ (front, e). rw e (has_suffix-append front t))

pub text_eq_comm : (s t : Text) → text_eq s t ≡ text_eq t s
text_eq_comm s t = ground (arith, text_eq_iff s t, text_eq_iff t s)
