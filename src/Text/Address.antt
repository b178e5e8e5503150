-- ===== src/Text/Address.antt =====
-- net.SplitHostPort and net.JoinHostPort.
use siteboost_core.Common.{
  ℕ, Bool, ◌&&◌, ◌||◌, not, Option, none, some, [], ◌∷◌, ◌++◌, ◌==◌, any, if◌then◌else◌, ◌≡◌, refl,
}
use siteboost_core.Text.{Text, text}

unfoldable pub has_char : ℕ → Text → Bool
has_char c s = any (λ d. c == d) s

-- The text before and behind the first `c`.
unfoldable pub cut : ℕ → Text → Option (Text × Text)
cut c [] = none
cut c (d ∷ s) =
    let rest : Option (Text × Text) = elim (cut c s) [
      | none ↦ none
      | some (before, behind) ↦ some (d ∷ before, behind)
    ] in
    if c == d then some ([], s) else rest

-- The text before and behind the last `c`.
unfoldable pub cut_last : ℕ → Text → Option (Text × Text)
cut_last c [] = none
cut_last c (d ∷ s) = elim (cut_last c s) [
  | none ↦ if c == d then some ([], s) else none
  | some (before, behind) ↦ some (d ∷ before, behind)
]

-- The part of a bracketed address behind its first `]`: a colon and the port, with no other bracket.
unfoldable pub split_bracketed : Text → Text → Option (Text × Text)
split_bracketed host [] = none
split_bracketed host (c ∷ port) =
    if c == b':'
      && not (has_char b':' port)
      && not (has_char b'[' host)
      && not (has_char b'[' port)
      && not (has_char b']' port)
    then some (host, port)
    else none

unfoldable pub split_host_port : Text → Option (Text × Text)
unfolding has_char cut cut_last split_bracketed
split_host_port [] = none
split_host_port (c ∷ s) =
    let plain : Option (Text × Text) = elim (cut_last b':' (c ∷ s)) [
      | none ↦ none
      | some (host, port) ↦
          if has_char b':' host || has_char b'[' (c ∷ s) || has_char b']' (c ∷ s)
          then none
          else some (host, port)
    ] in
    let bracketed : Option (Text × Text) = elim (cut b']' s) [
      | none ↦ none
      | some (host, behind) ↦ split_bracketed host behind
    ] in
    if c == b'[' then bracketed else plain

-- net.JoinHostPort
unfoldable pub join_host_port : Text → Text → Text
unfolding has_char
join_host_port host port =
    if has_char b':' host then (b'[' ∷ host) ++ (text "]:" ++ port) else host ++ (b':' ∷ port)

split_tests :
    (split_host_port (text "127.0.0.1:53") ≡ some (text "127.0.0.1", text "53"))
    × (split_host_port (text "[::1]:443") ≡ some (text "::1", text "443"))
    × (split_host_port (text "::1") ≡ none)
    × (split_host_port (text "example.com") ≡ none)
unfolding split_host_port
split_tests = (refl, refl, refl, refl)
