-- ===== src/Hosts/Block.antt =====
-- Appending and removing the managed block.
use siteboost_core.Common.{
  ◌==◌, if◌then◌else◌, Bool-cases, All, All-append, ℕ, ◌≡◌, refl, inl, inr, Bool, true, false, List,
  [], ◌∷◌, ◌++◌, map, append_assoc, arith,
}
use siteboost_core.Text.{Text, text_eq, push_trimmed, trim_right, trim_space}
use siteboost_core.Hosts.{
  Entry, marker_start, marker_end, notice, crlf_to_lf, push_char, split_lines, join_lines, is_start,
  is_end, next_in_block, keep_outside, is_lf, kept_text, entry_line, block_lines,
}
use siteboost_core.Hosts.Lines.{NoCr, NoLf}

-- The line does not open the managed block.
abbrev pub IsOutside : Text → Type 0
IsOutside line = is_start line ≡ false

-- An entry that renders as one line inside the block.
pub record IsPlainEntry (entry : Entry) : Type 0 where
  pub no_cr : NoCr (entry_line entry)
  pub no_lf : NoLf (entry_line entry)
  pub not_end : is_end (entry_line entry) ≡ false

-- Every carriage return of the file belongs to a line end.
abbrev pub HasCleanLineEnds : Text → Type 0
HasCleanLineEnds body = NoCr (crlf_to_lf body)

pub crlf_to_lf_of_NoCr : (s : Text) → NoCr s → crlf_to_lf s ≡ s
unfolding crlf_to_lf
crlf_to_lf_of_NoCr [] h = refl
crlf_to_lf_of_NoCr (c ∷ s) h = rw (h.0, crlf_to_lf_of_NoCr s h.1)

-- Carriage returns appear in none of the steps from the file to the kept text.
NoCr-push_char :
    (c : ℕ) (ls : List Text) → (c == 13) ≡ false → All NoCr ls → All NoCr (push_char c ls)
unfolding push_char
NoCr-push_char c [] h k = ((h, tt), tt)
NoCr-push_char c (l ∷ ls) h k = ((h, k.0), k.1)

NoCr-split_lines : (s : Text) → NoCr s → All NoCr (split_lines s)
unfolding split_lines
NoCr-split_lines [] h = (tt, tt)
NoCr-split_lines (c ∷ s) h = elim (Bool-cases (c == 10)) [
  | inl newline ↦ rw newline (tt, NoCr-split_lines s h.1)
  | inr other ↦ rw other (NoCr-push_char c (split_lines s) h.0 (NoCr-split_lines s h.1))
]

module _ (P : Text → Type 0) where
  All-skip :
      (skip : Bool) (l : Text) (ls : List Text)
      → (skip ≡ false → P l)
      → All P ls
      → All P (if skip then ls else l ∷ ls)
  All-skip true l ls h k = k
  All-skip false l ls h k = (h refl, k)

  pub All-keep_outside :
      (in_block : Bool) (ls : List Text) → All P ls → All P (keep_outside in_block ls)
  unfolding keep_outside
  All-keep_outside in_block [] h = tt
  All-keep_outside in_block (l ∷ ls) h =
      All-skip _ l _ (λ _. h.0) (All-keep_outside (next_in_block in_block l) ls h.1)

NoCr-join_lines : (ls : List Text) → All NoCr ls → NoCr (join_lines ls)
unfolding join_lines
NoCr-join_lines [] h = tt
NoCr-join_lines (l ∷ []) h = h.0
NoCr-join_lines (l ∷ m ∷ ls) h =
    All-append _ l (10 ∷ join_lines (m ∷ ls)) h.0 (refl, NoCr-join_lines (m ∷ ls) h.1)

NoCr-trim_right : (p : ℕ → Bool) (s : Text) → NoCr s → NoCr (trim_right p s)
unfolding trim_right
NoCr-trim_right p [] h = tt
NoCr-trim_right p (c ∷ s) h = step (trim_right p s) (NoCr-trim_right p s h.1)
  where
    step : (t : Text) → NoCr t → NoCr (push_trimmed p c t)
    step [] k = ground (arith, h.0)
    step (d ∷ t) k = (h.0, k)

pub NoCr-kept_text : (body : Text) → HasCleanLineEnds body → NoCr (kept_text body)
unfolding kept_text
NoCr-kept_text body h = NoCr-trim_right is_lf _ (
    NoCr-join_lines _
      (All-keep_outside NoCr false (split_lines (crlf_to_lf body)) (NoCr-split_lines _ h)))

-- What is kept opens no block, so that a second pass keeps it.
pub IsOutside-keep_outside :
    (in_block : Bool) (ls : List Text) → All IsOutside (keep_outside in_block ls)
unfolding keep_outside
IsOutside-keep_outside in_block [] = tt
IsOutside-keep_outside in_block (l ∷ ls) =
    All-skip IsOutside _ l _ (λ kept. ground arith)
      (IsOutside-keep_outside (next_in_block in_block l) ls)

pub keep_outside-append :
    (ls ms : List Text)
    → All IsOutside ls
    → keep_outside false (ls ++ ms) ≡ ls ++ keep_outside false ms
unfolding keep_outside
keep_outside-append [] ms h = refl
keep_outside-append (l ∷ ls) ms h = rw (h.0, keep_outside-append ls ms h.1)

-- The marker lines are what they are taken for.
marker_facts :
    (is_start marker_start ≡ true)
    × (is_start marker_end ≡ false)
    × (is_end marker_end ≡ true)
    × (is_start notice ≡ false)
    × (is_end notice ≡ false)
unfolding marker_start marker_end notice trim_space text_eq
marker_facts = (refl, refl, refl, refl, refl)

-- The lines inside the block are dropped up to its end.
keep_outside_entries :
    (entries : List Entry) (ls : List Text)
    → All IsPlainEntry entries
    → keep_outside true (map entry_line entries ++ (marker_end ∷ ls)) ≡ keep_outside false ls
unfolding keep_outside
keep_outside_entries [] ls h = rw (marker_facts.1, marker_facts.2)
keep_outside_entries (entry ∷ entries) ls h = elim (Bool-cases (is_start (entry_line entry))) [
  | inl starts ↦ rw starts (keep_outside_entries entries ls h.1)
  | inr other ↦ rw (other, h.0.not_end) (keep_outside_entries entries ls h.1)
]

pub keep_outside_block :
    (entries : List Entry) (ls : List Text)
    → All IsPlainEntry entries
    → keep_outside false (block_lines entries ++ ls) ≡ keep_outside false ls
unfolding keep_outside
keep_outside_block entries ls h =
    rw
      (
        marker_facts.0,
        marker_facts.3,
        marker_facts.4,
        append_assoc (map entry_line entries) (marker_end ∷ []) ls,
      )
      (keep_outside_entries entries ls h)
