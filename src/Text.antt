-- ===== src/Text.antt =====
-- Go's strings as the program uses them: lists of code points, and the functions of the packages
-- strings and net that its source calls.
pub mod Address
pub mod Laws
pub mod Trimming
pub mod Joining
use Prim.Native.Char.{code}
use siteboost_core.Common.{
  ℕ, ◌+◌, ◌≡◌, ◌↔◌, Bool, true, false, ◌&&◌, ◌||◌, not, Option, none, some, List, [], ◌∷◌, ◌++◌,
  String, map, arith, leb, ltb, ◌==◌, if◌then◌else◌, any, Key,
}

abbrev pub Text : Type 0
Text = List ℕ

-- A literal of the source.
abbrev pub text : String → Text
text String.[] = []
text (String.◌∷◌ c s) = code c ∷ text s

unfoldable pub text_eq : Text → Text → Bool
text_eq [] [] = true
text_eq (c ∷ s) (d ∷ t) = c == d && text_eq s t
text_eq _ _ = false

-- s < t, the order of sort.Slice's comparisons.
unfoldable pub text_lt : Text → Text → Bool
text_lt [] [] = false
text_lt [] (d ∷ t) = true
text_lt (c ∷ s) [] = false
text_lt (c ∷ s) (d ∷ t) = ltb c d || (c == d && text_lt s t)

-- unicode.IsSpace
unfoldable pub is_space : ℕ → Bool
is_space c =
    (leb 9 c && leb c 13)
    || c == 32
    || c == 0x85
    || c == 0xA0
    || c == 0x1680
    || (leb 0x2000 c && leb c 0x200A)
    || c == 0x2028
    || c == 0x2029
    || c == 0x202F
    || c == 0x205F
    || c == 0x3000

-- strings.TrimLeftFunc
unfoldable pub trim_left : (ℕ → Bool) → Text → Text
trim_left p [] = []
trim_left p (c ∷ s) = if p c then trim_left p s else c ∷ s

-- One more code point in front of a text that is trimmed on the right.
unfoldable pub push_trimmed : (ℕ → Bool) → ℕ → Text → Text
push_trimmed p c [] = if p c then [] else c ∷ []
push_trimmed p c (d ∷ t) = c ∷ d ∷ t

-- strings.TrimRightFunc
unfoldable pub trim_right : (ℕ → Bool) → Text → Text
unfolding push_trimmed
trim_right p [] = []
trim_right p (c ∷ s) = push_trimmed p c (trim_right p s)

-- strings.TrimSpace
unfoldable pub trim_space : Text → Text
unfolding is_space trim_left trim_right
trim_space s = trim_right is_space (trim_left is_space s)

unfoldable pub strip_prefix : Text → Text → Option Text
strip_prefix [] s = some s
strip_prefix (c ∷ p) [] = none
strip_prefix (c ∷ p) (d ∷ s) = if c == d then strip_prefix p s else none

-- strings.HasPrefix(s, p), with the prefix first.
unfoldable pub has_prefix : Text → Text → Bool
has_prefix [] s = true
has_prefix (c ∷ p) [] = false
has_prefix (c ∷ p) (d ∷ s) = c == d && has_prefix p s

-- strings.HasSuffix(s, t), with the suffix first.
unfoldable pub has_suffix : Text → Text → Bool
unfolding text_eq
has_suffix t [] = text_eq [] t
has_suffix t (c ∷ s) = text_eq (c ∷ s) t || has_suffix t s

-- strings.TrimPrefix(s, p)
unfoldable pub trim_prefix : Text → Text → Text
unfolding strip_prefix
trim_prefix p s = elim (strip_prefix p s) [ none ↦ s | some rest ↦ rest ]

-- strings.TrimSuffix(s, t)
unfoldable pub trim_suffix : Text → Text → Text
unfolding text_eq
trim_suffix t [] = []
trim_suffix t (c ∷ s) = if text_eq (c ∷ s) t then [] else c ∷ trim_suffix t s

-- strings.Contains(s, t), with the needle first.
unfoldable pub contains : Text → Text → Bool
unfolding has_prefix
contains t [] = has_prefix t []
contains t (c ∷ s) = has_prefix t (c ∷ s) || contains t s

-- strings.ContainsAny(s, chars), with the characters first.
unfoldable pub contains_any : Text → Text → Bool
contains_any chars s = any (λ c. any (λ d. c == d) chars) s

-- strings.ToLower, with unicode.ToLower outside ASCII given by `lower_rune`.
unfoldable pub to_lower : (ℕ → ℕ) → Text → Text
to_lower lower_rune =
    map (λ c. if leb 65 c && leb c 90 then c + 32 else if ltb c 128 then c else lower_rune c)
