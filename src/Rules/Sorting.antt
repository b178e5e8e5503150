-- ===== src/Rules/Sorting.antt =====
-- Sorting keeps the elements of a list, so searches and counts over compiled rules are those over
-- the matcher's own entries.
use siteboost_core.Common.{
  Bool-cases, length, any, All, suc, ◌≡◌, refl, ap, ◌∙◌, inl, inr, Bool, false, ◌||◌, List, [], ◌∷◌,
  arith,
}
use siteboost_core.Rules.{insert_sorted, sort_slice}

-- No two elements at different places are related.
abbrev pub IsApart : {A : Type 0} → (A → A → Bool) → List A → Type 0
IsApart r [] = Unit
IsApart r (x ∷ xs) = (any (r x) xs ≡ false) × IsApart r xs

module _ {A : Type 0} (lt : A → A → Bool) where
  any-insert_sorted :
      (p : A → Bool) (x : A) (ys : List A) → any p (insert_sorted lt x ys) ≡ (p x || any p ys)
  unfolding insert_sorted
  any-insert_sorted p x [] = refl
  any-insert_sorted p x (y ∷ ys) = ground (arith, any-insert_sorted p x ys)

  pub any-sort_slice : (p : A → Bool) (xs : List A) → any p (sort_slice lt xs) ≡ any p xs
  unfolding sort_slice
  any-sort_slice p [] = refl
  any-sort_slice p (x ∷ xs) =
      any-insert_sorted p x (sort_slice lt xs) ∙ ap (λ b. p x || b) (any-sort_slice p xs)

  length-insert_sorted : (x : A) (ys : List A) → length (insert_sorted lt x ys) ≡ suc (length ys)
  unfolding insert_sorted
  length-insert_sorted x [] = refl
  length-insert_sorted x (y ∷ ys) = ground (arith, length-insert_sorted x ys)

  pub length-sort_slice : (xs : List A) → length (sort_slice lt xs) ≡ length xs
  unfolding sort_slice
  length-sort_slice [] = refl
  length-sort_slice (x ∷ xs) =
      length-insert_sorted x (sort_slice lt xs) ∙ ap suc (length-sort_slice xs)

  pub All-insert_sorted :
      (P : A → Type 0) (x : A) (ys : List A) → P x → All P ys → All P (insert_sorted lt x ys)
  unfolding insert_sorted
  All-insert_sorted P x [] h hs = (h, tt)
  All-insert_sorted P x (y ∷ ys) h hs = elim (Bool-cases (lt y x)) [
    | inl later ↦ rw later (hs.0, All-insert_sorted P x ys h hs.1)
    | inr here ↦ rw here (h, hs)
  ]

  pub All-sort_slice : (P : A → Type 0) (xs : List A) → All P xs → All P (sort_slice lt xs)
  unfolding sort_slice
  All-sort_slice P [] h = tt
  All-sort_slice P (x ∷ xs) h =
      All-insert_sorted P x (sort_slice lt xs) h.0 (All-sort_slice P xs h.1)

  module _ (r : A → A → Bool) (r_comm : (x y : A) → r x y ≡ r y x) where
    insert_sorted-IsApart :
        (x : A) (ys : List A)
        → any (r x) ys ≡ false
        → IsApart r ys
        → IsApart r (insert_sorted lt x ys)
    unfolding insert_sorted
    insert_sorted-IsApart x [] none_here apart = (refl, tt)
    insert_sorted-IsApart x (y ∷ ys) none_here apart = elim (Bool-cases (lt y x)) [
      | inl later ↦ rw later (
        any-insert_sorted (r y) x ys ∙ ground (arith, none_here, apart.0, r_comm y x),
        insert_sorted-IsApart x ys (ground (arith, none_here)) apart.1,
      )
      | inr here ↦ rw here (none_here, apart)
    ]

    pub sort_slice-IsApart : (xs : List A) → IsApart r xs → IsApart r (sort_slice lt xs)
    unfolding sort_slice
    sort_slice-IsApart [] apart = tt
    sort_slice-IsApart (x ∷ xs) apart =
        insert_sorted-IsApart x (sort_slice lt xs) (any-sort_slice (r x) xs ∙ apart.0)
          (sort_slice-IsApart xs apart.1)
