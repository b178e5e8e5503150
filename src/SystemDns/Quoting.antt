-- ===== src/SystemDns/Quoting.antt =====
-- Quoted texts against PowerShell's reading of a single-quoted literal, for which the quotation marks
-- U+2018 to U+201B are single quotes as well as U+0027.

use siteboost_core.SystemDns.PowerShell.{double_quotes, ps_quote}
use siteboost_core.Common.{
  ◌==◌, ==_iff, Bool-cases, any, ℕ, ◌≡◌, refl, sym, ap, ◌∙◌, inl, inr, Bool, true, false, ◌||◌,
  Option, none, some, [], ◌∷◌, ◌++◌, append_assoc, arith,
}
use siteboost_core.Text.{Text}

-- The single quotes other than the one that psQuote doubles.
abbrev pub is_typographic : ℕ → Bool
is_typographic c = c == 0x2018 || c == 0x2019 || c == 0x201A || c == 0x201B

abbrev pub is_single_quote : ℕ → Bool
is_single_quote c = c == 39 || is_typographic c

abbrev push : ℕ → Option (Text × Text) → Option (Text × Text)
push c none = none
push c (some (value, rest)) = some (c ∷ value, rest)

-- The rest of a literal: its text and what stands behind it. Two quotes stand for the second one, and
-- a single one ends the literal; the flag says that a quote was just read.
unfoldable pub read_rest : Bool → Text → Option (Text × Text)
read_rest false [] = none
read_rest true [] = some ([], [])
read_rest false (c ∷ s) = elim (is_single_quote c) [
  | true ↦ read_rest true s
  | false ↦ push c (read_rest false s)
]
read_rest true (c ∷ s) = elim (is_single_quote c) [
  | true ↦ push c (read_rest false s)
  | false ↦ some ([], c ∷ s)
]

-- A literal of PowerShell in single quotes.
unfoldable pub read_literal : Text → Option (Text × Text)
read_literal [] = none
read_literal (c ∷ s) = elim (is_single_quote c) [ true ↦ read_rest false s | false ↦ none ]

abbrev pub starts_with_quote : Text → Bool
starts_with_quote [] = false
starts_with_quote (c ∷ s) = is_single_quote c

read_rest_end :
    (rest : Text) → starts_with_quote rest ≡ false → read_rest true rest ≡ some ([], rest)
unfolding read_rest
read_rest_end [] h = refl
read_rest_end (c ∷ rest) h = let plain : is_single_quote c ≡ false = h in rw (plain, read_rest) refl

-- Any single quote behind a text without typographic ones ends the literal, where no quote follows.
read_rest-double_quotes :
    (value rest : Text) (mark : ℕ)
    → any is_typographic value ≡ false
    → is_single_quote mark ≡ true
    → starts_with_quote rest ≡ false
    → read_rest false (double_quotes value ++ mark ∷ rest) ≡ some (value, rest)
unfolding read_rest double_quotes
read_rest-double_quotes [] rest mark plain ends h = rw (ends, read_rest) (read_rest_end rest h)
read_rest-double_quotes (c ∷ value) rest mark plain ends h =
    let later : any is_typographic value ≡ false = ground (arith, plain) in
    let here : is_typographic c ≡ false = ground (arith, plain) in
    elim (Bool-cases (c == 39)) [
      | inl quote ↦
          let e : c ≡ 39 = (==_iff c 39).0 quote in
          rw (quote, read_rest-double_quotes value rest mark later ends h)
            (ap (λ d. some (d ∷ value, rest)) (sym e))
      | inr other ↦
          let no_quote : is_single_quote c ≡ false = rw (other, here) refl in
          rw (other, double_quotes)
            (rw (no_quote, read_rest)
              (rw (read_rest-double_quotes value rest mark later ends h) refl))
    ]

double_quotes-append : (s t : Text) → double_quotes (s ++ t) ≡ double_quotes s ++ double_quotes t
unfolding double_quotes
double_quotes-append [] t = refl
double_quotes-append (c ∷ s) t = ground (arith, double_quotes-append s t)

-- What psQuote writes for a text without the quotation marks U+2018 to U+201B is one literal of
-- PowerShell: reading it gives the text back, whatever other characters that has, and stops exactly
-- behind it, where no quote follows.
pub read_literal-ps_quote :
    (value rest : Text)
    → any is_typographic value ≡ false
    → starts_with_quote rest ≡ false
    → read_literal (ps_quote value ++ rest) ≡ some (value, rest)
unfolding read_literal ps_quote
read_literal-ps_quote value rest plain h =
    rw (append_assoc (double_quotes value) (39 ∷ []) rest)
      (read_rest-double_quotes value rest 39 plain refl h)

-- A single quotation mark U+2018 to U+201B ends the literal that psQuote writes: where none stands
-- before it and no single quote follows it, what follows it in the text is read as PowerShell code.
pub read_literal-ps_quote_broken :
    (before behind : Text) (mark : ℕ)
    → any is_typographic before ≡ false
    → is_typographic mark ≡ true
    → starts_with_quote (double_quotes behind ++ 39 ∷ []) ≡ false
    → read_literal (ps_quote (before ++ mark ∷ behind))
      ≡ some (before, double_quotes behind ++ 39 ∷ [])
unfolding read_literal ps_quote double_quotes
read_literal-ps_quote_broken before behind mark plain typographic follows =
    let quote : is_single_quote mark ≡ true = ground (arith, typographic) in
    let other : (mark == 39) ≡ false = ground (arith, typographic) in
    let split : double_quotes (before ++ mark ∷ behind)
        ≡ double_quotes before ++ mark ∷ double_quotes behind =
      double_quotes-append before (mark ∷ behind) ∙ rw (other, double_quotes) refl in
    rw (split, append_assoc (double_quotes before) (mark ∷ double_quotes behind) (39 ∷ []))
      (read_rest-double_quotes before (double_quotes behind ++ 39 ∷ []) mark plain quote follows)
