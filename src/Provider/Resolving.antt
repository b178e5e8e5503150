-- ===== src/Provider/Resolving.antt =====
-- What resolving the enabled providers gives.
use siteboost_core.Provider.{
  contains_id, ProviderError, unknown_provider, normalize_id, lookup_provider, resolve_ids,
  resolve_enabled,
}
use siteboost_core.Provider.Builtin.{Provider}
use siteboost_core.Common.{
  Bool-cases, Option-cases, is_empty, All, In, Result, ok, err, Result-cases, >>=-eq-ok, >>=-eq-err,
  ◌≡◌, refl, subst, ◌⊎◌, inl, inr, Bool, true, false, ◌||◌, Option, none, some, List, [], ◌∷◌,
  arith,
}
use siteboost_core.Text.{Text, text_eq}
use siteboost_core.Text.Laws.{text_eq_sound}
use siteboost_core.External.{Externals}

module _ (x : Externals) where
  -- The provider that an identifier of the configuration stands for.
  abbrev pub provider_for : Text → Option Provider
  provider_for raw = lookup_provider x (normalize_id x raw)

  -- Some enabled provider is the one that the identifier stands for.
  abbrev pub IsEnabled : List Provider → Text → Type 0
  IsEnabled providers raw = (p : Provider) × (provider_for raw ≡ some p) × In p providers

  -- The identifier was met before, or is blank, or stands for an enabled provider.
  abbrev IsServed : List Text → List Provider → Text → Type 0
  IsServed seen providers raw =
      ((is_empty (normalize_id x raw) || contains_id (normalize_id x raw) seen) ≡ true)
      ⊎ IsEnabled providers raw

  -- An identifier that equals one just served is served by the same provider.
  IsServed-cons :
      (raw other : Text) (seen : List Text) (p : Provider) (providers : List Provider)
      → provider_for raw ≡ some p
      → IsServed (normalize_id x raw ∷ seen) providers other
      → IsServed seen (p ∷ providers) other
  IsServed-cons raw other seen p providers found (inr (q, same, inside)) = inr (q, same, inr inside)
  IsServed-cons raw other seen p providers found (inl met) =
      elim (Bool-cases (text_eq (normalize_id x raw) (normalize_id x other))) [
        | inl equal ↦ inr (
          p,
          subst (λ id. lookup_provider x id ≡ some p) (text_eq_sound _ _ equal) found,
          inl refl,
        )
        | inr different ↦ inl (rw different at met)
      ]

  All-IsServed-cons :
      (raw : Text) (seen : List Text) (p : Provider) (providers : List Provider) (ids : List Text)
      → provider_for raw ≡ some p
      → All (IsServed (normalize_id x raw ∷ seen) providers) ids
      → All (IsServed seen (p ∷ providers)) ids
  All-IsServed-cons raw seen p providers [] found h = tt
  All-IsServed-cons raw seen p providers (other ∷ ids) found h = (
    IsServed-cons raw other seen p providers found h.0,
    All-IsServed-cons raw seen p providers ids found h.1,
  )

  resolve_ids-All :
      (seen ids : List Text) (providers : List Provider)
      → resolve_ids x seen ids ≡ ok providers
      → All (IsServed seen providers) ids
  unfolding resolve_ids
  resolve_ids-All seen [] providers h = tt
  resolve_ids-All seen (raw ∷ ids) providers h =
      elim (Bool-cases (is_empty (normalize_id x raw) || contains_id (normalize_id x raw) seen)) [
        | inl met ↦ (inl met, resolve_ids-All seen ids providers (rw (met, resolve_ids) at h))
        | inr fresh ↦ elim (Option-cases (provider_for raw)) [
          | inl unknown ↦ cc (rw (fresh, unknown, resolve_ids) at h)
          | inr (p, found) ↦
              let (rest, resolved, same) =
                >>=-eq-ok (resolve_ids x (normalize_id x raw ∷ seen) ids) _
                  (rw (fresh, found, resolve_ids) at h) in
              let e : p ∷ rest ≡ providers = ground arith in
              subst (λ ps. All (IsServed seen ps) (raw ∷ ids)) e
                (
                  inr (p, found, inl refl),
                  All-IsServed-cons raw seen p rest ids found
                      (resolve_ids-All (normalize_id x raw ∷ seen) ids rest resolved),
                )
        ]
      ]

  resolve_ids-err :
      (seen ids : List Text) (bad : Text)
      → resolve_ids x seen ids ≡ err (unknown_provider bad)
      → In bad ids × (provider_for bad ≡ none) × (is_empty (normalize_id x bad) ≡ false)
  unfolding resolve_ids
  resolve_ids-err seen [] bad h = cc
  resolve_ids-err seen (raw ∷ ids) bad h =
      elim (Bool-cases (is_empty (normalize_id x raw) || contains_id (normalize_id x raw) seen)) [
        | inl met ↦ later (resolve_ids-err seen ids bad (rw (met, resolve_ids) at h))
        | inr fresh ↦ elim (Option-cases (provider_for raw)) [
          | inl unknown ↦
              let e : raw ≡ bad = same_text raw bad (rw (fresh, unknown, resolve_ids) at h) in
              subst
                (λ id.
                  In id (raw ∷ ids)
                  × (provider_for id ≡ none)
                  × (is_empty (normalize_id x id) ≡ false))
                e (inl refl, unknown, first_false (is_empty (normalize_id x raw)) _ fresh)
          | inr (p, found) ↦ later (
              resolve_ids-err (normalize_id x raw ∷ seen) ids bad
                (>>=-eq-err _ _ (rw (fresh, found, resolve_ids) at h)))
        ]
      ]
    where
      Refused : List Text → Type 0
      Refused list =
          In bad list × (provider_for bad ≡ none) × (is_empty (normalize_id x bad) ≡ false)

      later : Refused ids → Refused (raw ∷ ids)
      later (inside, unknown, nonblank) = (inr inside, unknown, nonblank)

      first_false : (b c : Bool) → (b || c) ≡ false → b ≡ false
      first_false b c e = ground arith

      same_text :
          (one two : Text)
          → ◌≡◌ {A = Result ProviderError (List Provider)}
              (err (unknown_provider one))
              (err (unknown_provider two))
          → one ≡ two
      same_text one two e = ground arith

  served :
      (providers : List Provider) (ids : List Text)
      → All (IsServed [] providers) ids
      → All (λ raw. (is_empty (normalize_id x raw) ≡ true) ⊎ IsEnabled providers raw) ids
  served providers [] h = tt
  served providers (raw ∷ ids) (inl met, rest) =
      (inl (only_first (is_empty (normalize_id x raw)) met), served providers ids rest)
    where
      only_first : (b : Bool) → (b || false) ≡ true → b ≡ true
      only_first b e = ground arith
  served providers (raw ∷ ids) (inr enabled, rest) = (inr enabled, served providers ids rest)

  -- ResolveEnabled of a configured list either gives providers, among them that of every identifier
  -- of the list that is not blank, or it refuses an identifier of the list that is not blank and
  -- stands for no built-in provider.
  pub resolve_enabled_cases :
      (ids : List Text)
      → ((providers : List Provider) × (resolve_enabled x (some ids) ≡ ok providers)
          × All (λ raw. (is_empty (normalize_id x raw) ≡ true) ⊎ IsEnabled providers raw) ids)
        ⊎ ((bad : Text) × (resolve_enabled x (some ids) ≡ err (unknown_provider bad))
            × In bad ids
            × (provider_for bad ≡ none)
            × (is_empty (normalize_id x bad) ≡ false))
  unfolding resolve_enabled
  resolve_enabled_cases ids = elim (Result-cases (resolve_ids x [] ids)) [
    | inl (providers, done) ↦
        inl (providers, done, served providers ids (resolve_ids-All [] ids providers done))
    | inr (unknown_provider bad, refused) ↦
        let (inside, unknown, nonblank) = resolve_ids-err [] ids bad refused in
        inr (bad, refused, inside, unknown, nonblank)
  ]
