-- ===== src/Common/Traverse.antt =====
-- Loops that rebuild a list and stop at the first error.
use siteboost_core.Common.Results.{Result, ok, ◌>>=◌, >>=-eq-ok}
use siteboost_core.Common.Lists.{All}
use mathlib.Core.List.{List, [], ◌∷◌}
use mathlib.Core.Path.{◌≡◌, subst}
use native.Mathlib.Omega.{arith}

module _ {E A B : Type 0} (f : A → Result E B) where
  unfoldable pub map_results : List A → Result E (List B)
  map_results [] = ok []
  map_results (a ∷ rest) = do b ← f a; bs ← map_results rest; ok (b ∷ bs)

  same_list : (xs ys : List B) → ◌≡◌ {A = Result E (List B)} (ok xs) (ok ys) → xs ≡ ys
  same_list xs ys h = ground arith

  -- What holds of every element that the body returns holds of the list.
  pub map_results-All :
      (P : B → Type 0)
      → ((a : A) (b : B) → f a ≡ ok b → P b)
      → (xs : List A) (ys : List B) → map_results xs ≡ ok ys
      → All P ys
  unfolding map_results
  map_results-All P each [] ys h = subst (All P) (same_list [] ys h) tt
  map_results-All P each (a ∷ xs) ys h =
      let (b, first, later) = >>=-eq-ok (f a) _ h in
      let (bs, rest, last) = >>=-eq-ok (map_results xs) _ later in
      subst (All P) (same_list (b ∷ bs) ys last) (each a b first, map_results-All P each xs bs rest)
