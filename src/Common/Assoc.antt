-- ===== src/Common/Assoc.antt =====
-- Go's maps with comparable keys: an association list, whose iteration order the code never uses.
use mathlib.Core.Path.{◌≡◌, refl, subst}
use mathlib.Core.Logic.{◌↔◌, inl, inr}
use mathlib.Core.Bool.{Bool, true}
use mathlib.Core.Option.{Option, none, some}
use mathlib.Core.List.{List, [], ◌∷◌}
use native.Mathlib.Omega.{arith}
use siteboost_core.Common.Tests.{if◌then◌else◌, Bool-cases}
use siteboost_core.Common.Lists.{All}

-- Key equality, decided.
pub record Key (K : Type 0) : Type 0 where
  pub eq : K → K → Bool
  pub eq_iff : (a b : K) → (eq a b ≡ true) ↔ (a ≡ b)

module _ {K V : Type 0} (key : Key K) where
  -- m[k]
  unfoldable pub lookup : K → List (K × V) → Option V
  lookup k [] = none
  lookup k ((j, value) ∷ entries) = if key.eq j k then some value else lookup k entries

  -- m[k] = v
  unfoldable pub insert : K → V → List (K × V) → List (K × V)
  insert k value [] = (k, value) ∷ []
  insert k value ((j, old) ∷ entries) =
      if key.eq j k then (k, value) ∷ entries else (j, old) ∷ insert k value entries

  -- delete(m, k)
  unfoldable pub delete : K → List (K × V) → List (K × V)
  delete k [] = []
  delete k ((j, old) ∷ entries) =
      let rest = delete k entries in if key.eq j k then rest else (j, old) ∷ rest

  pub lookup-insert :
      (k j : K) (value : V) (entries : List (K × V))
      → lookup j (insert k value entries) ≡ (if key.eq k j then some value else lookup j entries)
  unfolding lookup insert
  lookup-insert k j value [] = refl
  lookup-insert k j value ((i, old) ∷ entries) =
      ground
        (arith, key.eq_iff k j, key.eq_iff i k, key.eq_iff i j, lookup-insert k j value entries)

  pub lookup-delete :
      (k j : K) (entries : List (K × V))
      → lookup j (delete k entries) ≡ (if key.eq k j then none else lookup j entries)
  unfolding lookup delete
  lookup-delete k j [] = ground arith
  lookup-delete k j ((i, old) ∷ entries) =
      ground (arith, key.eq_iff k j, key.eq_iff i k, key.eq_iff i j, lookup-delete k j entries)

  pub lookup-insert_self :
      (k : K) (value : V) (entries : List (K × V)) → lookup k (insert k value entries) ≡ some value
  lookup-insert_self k value entries = rw lookup-insert (rw ((key.eq_iff k k).1 refl))

  pub All-insert :
      (P : K × V → Type 0) (k : K) (value : V) (entries : List (K × V))
      → P (k, value)
      → All P entries
      → All P (insert k value entries)
  unfolding insert
  All-insert P k value [] e h = (e, tt)
  All-insert P k value ((j, old) ∷ entries) e h = ground (arith, All-insert P k value entries e h.1)

  pub All-lookup :
      (P : K × V → Type 0) (k : K) (value : V) (entries : List (K × V))
      → All P entries
      → lookup k entries ≡ some value
      → P (k, value)
  unfolding lookup
  All-lookup P k value [] h e = cc
  All-lookup P k value ((j, old) ∷ entries) h e = elim (Bool-cases (key.eq j k)) [
    | inl same ↦ subst P (ground (arith, key.eq_iff j k)) h.0
    | inr other ↦ All-lookup P k value entries h.1 (rw other at e)
  ]

  pub All-delete :
      (P : K × V → Type 0) (k : K) (entries : List (K × V))
      → All P entries
      → All P (delete k entries)
  unfolding delete
  All-delete P k [] h = tt
  All-delete P k ((j, value) ∷ entries) h = elim (Bool-cases (key.eq j k)) [
    | inl same ↦ rw same (All-delete P k entries h.1)
    | inr other ↦ rw other (h.0, All-delete P k entries h.1)
  ]
