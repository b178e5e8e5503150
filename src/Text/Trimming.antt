-- ===== src/Text/Trimming.antt =====
-- strings.TrimSpace leaves nothing to trim.
use siteboost_core.Text.{Text, is_space, trim_left, push_trimmed, trim_right, trim_space}
use siteboost_core.Common.{Bool-cases, ℕ, ◌≡◌, refl, inl, inr, Bool, false, [], ◌∷◌}

module _ (p : ℕ → Bool) where
  -- The text does not start with a character to trim.
  abbrev StartsOutside : Text → Type 0
  StartsOutside [] = Unit
  StartsOutside (c ∷ s) = p c ≡ false

  trim_left-StartsOutside : (s : Text) → StartsOutside (trim_left p s)
  unfolding trim_left
  trim_left-StartsOutside [] = tt
  trim_left-StartsOutside (c ∷ s) = elim (Bool-cases (p c)) [
    | inl e ↦ rw (e, trim_left) (trim_left-StartsOutside s)
    | inr e ↦ rw (e, trim_left) e
  ]

  trim_left_kept : (s : Text) → StartsOutside s → trim_left p s ≡ s
  unfolding trim_left
  trim_left_kept [] h = refl
  trim_left_kept (c ∷ s) h = rw h

  push_trimmed-cons : (c : ℕ) (s : Text) → p c ≡ false → push_trimmed p c s ≡ c ∷ s
  unfolding push_trimmed
  push_trimmed-cons c [] h = rw h
  push_trimmed-cons c (d ∷ s) h = refl

  trim_right-StartsOutside : (s : Text) → StartsOutside s → StartsOutside (trim_right p s)
  unfolding trim_right
  trim_right-StartsOutside [] h = tt
  trim_right-StartsOutside (c ∷ s) h = rw (push_trimmed-cons c (trim_right p s) h) h

  push_trimmed-trim_right :
      (c : ℕ) (s : Text)
      → trim_right p s ≡ s
      → trim_right p (push_trimmed p c s) ≡ push_trimmed p c s
  unfolding trim_right push_trimmed
  push_trimmed-trim_right c [] h = elim (Bool-cases (p c)) [
    | inl e ↦ rw e
    | inr e ↦ rw (e, trim_right) (push_trimmed-cons c [] e)
  ]
  push_trimmed-trim_right c (d ∷ s) h = rw h

  trim_right_twice : (s : Text) → trim_right p (trim_right p s) ≡ trim_right p s
  unfolding trim_right
  trim_right_twice [] = refl
  trim_right_twice (c ∷ s) = push_trimmed-trim_right c (trim_right p s) (trim_right_twice s)

pub trim_space_twice : (s : Text) → trim_space (trim_space s) ≡ trim_space s
unfolding trim_space
trim_space_twice s =
    let inside = trim_right is_space (trim_left is_space s) in
    let outside : StartsOutside is_space inside =
      trim_right-StartsOutside is_space (trim_left is_space s)
        (trim_left-StartsOutside is_space s) in
    rw (trim_left_kept is_space inside outside) (trim_right_twice is_space (trim_left is_space s))
