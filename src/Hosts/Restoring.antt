-- ===== src/Hosts/Restoring.antt =====
-- Removing the managed block undoes appending it.
use siteboost_core.Common.{
  ◌==◌, if◌then◌else◌, is_empty, All, All-append, All-of_false, ◌≡◌, refl, sym, ap, ◌∙◌, false,
  List, [], ◌∷◌, ◌++◌, map, append_assoc,
}
use siteboost_core.Text.{Text, text_eq, trim_right, trim_space}
use siteboost_core.Hosts.{
  Entry, marker_start, marker_end, notice, crlf_to_lf, split_lines, join_lines, keep_outside, is_lf,
  is_crlf, end_line, kept_text, remove_managed_block, entry_line, block_lines, render_lines,
  render_block, append_managed_block,
}
use siteboost_core.Hosts.Lines.{
  NoCr, NoLf, split_lines-ne-nil, split_lines-append, split_lines-render_lines,
  join_lines-split_lines, join_lines-append_blank, trim_right-append_lf, trim_right_idempotent,
  trim_right-is_crlf, NoLf-split_lines, All-split_lines-trim_right,
}
use siteboost_core.Hosts.Block.{
  IsOutside, IsPlainEntry, HasCleanLineEnds, crlf_to_lf_of_NoCr, All-keep_outside, NoCr-kept_text,
  IsOutside-keep_outside, keep_outside-append, keep_outside_block,
}

blank_IsOutside : IsOutside []
unfolding trim_space text_eq marker_start
blank_IsOutside = refl

-- The lines of the kept text open no block.
IsOutside-kept_text : (body : Text) → All IsOutside (split_lines (kept_text body))
unfolding kept_text
IsOutside-kept_text body =
    let lines = split_lines (crlf_to_lf body) in
    All-split_lines-trim_right IsOutside blank_IsOutside (keep_outside false lines)
      (All-keep_outside NoLf false lines (NoLf-split_lines (crlf_to_lf body)))
      (IsOutside-keep_outside false lines)

trim_right-kept_text : (body : Text) → trim_right is_lf (kept_text body) ≡ kept_text body
unfolding kept_text
trim_right-kept_text body = trim_right_idempotent is_lf _

-- The base in front of the block is the kept text itself.
base-kept_text :
    (body : Text)
    → HasCleanLineEnds body
    → trim_right is_crlf (remove_managed_block body) ≡ kept_text body
unfolding remove_managed_block
base-kept_text body h = step (kept_text body) (NoCr-kept_text body h) (trim_right-kept_text body)
  where
    step : (k : Text) → NoCr k → trim_right is_lf k ≡ k → trim_right is_crlf (end_line k) ≡ k
    step [] n e = unfold trim_right in refl
    step (c ∷ k) n e =
        trim_right-is_crlf ((c ∷ k) ++ 10 ∷ []) (All-append _ (c ∷ k) (10 ∷ []) n (refl, tt))
        ∙ trim_right-append_lf (c ∷ k)
        ∙ e

NoCr-render_lines : (ls : List Text) → All NoCr ls → NoCr (render_lines ls)
unfolding render_lines
NoCr-render_lines [] h = tt
NoCr-render_lines (l ∷ ls) h =
    All-append _ l (10 ∷ render_lines ls) h.0 (refl, NoCr-render_lines ls h.1)

markers_NoCr : NoCr marker_start × NoCr notice × NoCr marker_end
unfolding marker_start marker_end notice
markers_NoCr = (
  All-of_false (λ c. c == 13) marker_start refl,
  All-of_false (λ c. c == 13) notice refl,
  All-of_false (λ c. c == 13) marker_end refl,
)

markers_NoLf : NoLf marker_start × NoLf notice × NoLf marker_end
unfolding marker_start marker_end notice
markers_NoLf = (
  All-of_false (λ c. c == 10) marker_start refl,
  All-of_false (λ c. c == 10) notice refl,
  All-of_false (λ c. c == 10) marker_end refl,
)

module _ (P : Text → Type 0) (start : P marker_start) (middle : P notice) (last : P marker_end)
    (plain : (entry : Entry) → IsPlainEntry entry → P (entry_line entry)) where
  All-entry_lines :
      (entries : List Entry) → All IsPlainEntry entries → All P (map entry_line entries)
  All-entry_lines [] h = tt
  All-entry_lines (entry ∷ entries) h = (plain entry h.0, All-entry_lines entries h.1)

  All-block_lines : (entries : List Entry) → All IsPlainEntry entries → All P (block_lines entries)
  All-block_lines entries h = (
    start,
    (
      middle,
      All-append P (map entry_line entries) (marker_end ∷ []) (All-entry_lines entries h)
          (last, tt),
    ),
  )

pub split_lines-render_block :
    (entries : List Entry)
    → All IsPlainEntry entries
    → split_lines (render_block entries) ≡ block_lines entries ++ [] ∷ []
unfolding render_block
split_lines-render_block entries h =
    let (s, n, e) = markers_NoLf in
    split_lines-render_lines (block_lines entries)
      (All-block_lines NoLf s n e (λ _ p. p.no_lf) entries h)

NoCr-render_block : (entries : List Entry) → All IsPlainEntry entries → NoCr (render_block entries)
unfolding render_block
NoCr-render_block entries h =
    let (s, n, e) = markers_NoCr in
    NoCr-render_lines (block_lines entries) (All-block_lines NoCr s n e (λ _ p. p.no_cr) entries h)

keep_outside_blank : (ls : List Text) → keep_outside false ([] ∷ ls) ≡ [] ∷ keep_outside false ls
unfolding keep_outside
keep_outside_blank ls = rw blank_IsOutside

-- The kept text of a block alone, and of a block behind a text that opens none.
kept_text-render_block :
    (entries : List Entry) → All IsPlainEntry entries → kept_text (render_block entries) ≡ []
unfolding kept_text
kept_text-render_block entries h =
    rw
      (
        crlf_to_lf_of_NoCr _ (NoCr-render_block entries h),
        split_lines-render_block entries h,
        keep_outside_block entries ([] ∷ []) h,
        keep_outside_blank [],
      )
      (unfold keep_outside join_lines trim_right in refl)

kept_text_behind :
    (k : Text) (entries : List Entry)
    → All IsPlainEntry entries
    → NoCr k
    → All IsOutside (split_lines k)
    → kept_text (k ++ (10 ∷ 10 ∷ render_block entries)) ≡ trim_right is_lf k
unfolding kept_text trim_right join_lines split_lines
kept_text_behind k entries h n outside =
    let no_cr : NoCr (k ++ (10 ∷ 10 ∷ render_block entries)) =
      All-append _ k (10 ∷ 10 ∷ render_block entries) n
        (refl, (refl, NoCr-render_block entries h)) in
    rw
      (
        crlf_to_lf_of_NoCr _ no_cr,
        split_lines-append k (10 ∷ render_block entries),
        split_lines-append [] (render_block entries),
        split_lines-render_block entries h,
        keep_outside-append (split_lines k) _ outside,
        keep_outside_blank (block_lines entries ++ [] ∷ []),
        keep_outside_block entries ([] ∷ []) h,
        keep_outside_blank [],
      )
      (unfold keep_outside in finish)
  where
    finish : trim_right is_lf (join_lines (split_lines k ++ [] ∷ [] ∷ [])) ≡ trim_right is_lf k
    finish =
        rw
          (join_lines-append_blank (split_lines k) (split_lines-ne-nil k), join_lines-split_lines k)
          (twice k)
      where
        twice : (t : Text) → trim_right is_lf (t ++ 10 ∷ 10 ∷ []) ≡ trim_right is_lf t
        twice t =
            ap (trim_right is_lf) (sym (append_assoc t (10 ∷ []) (10 ∷ [])))
            ∙ trim_right-append_lf (t ++ 10 ∷ [])
            ∙ trim_right-append_lf t

-- What is kept of the file with its block is what is kept of the file.
kept_text-append_managed_block :
    (body : Text) (entries : List Entry)
    → HasCleanLineEnds body
    → All IsPlainEntry entries
    → kept_text (append_managed_block body entries) ≡ kept_text body
unfolding append_managed_block
kept_text-append_managed_block body entries clean plain = rw (base-kept_text body clean) (
    step (kept_text body) (NoCr-kept_text body clean) (IsOutside-kept_text body)
      (trim_right-kept_text body))
  where
    step :
        (k : Text)
        → NoCr k
        → All IsOutside (split_lines k)
        → trim_right is_lf k ≡ k
        → kept_text
            (if is_empty k then render_block entries else k ++ (10 ∷ 10 ∷ render_block entries))
          ≡ k
    step [] n outside e = kept_text-render_block entries plain
    step (c ∷ k) n outside e = kept_text_behind (c ∷ k) entries plain n outside ∙ e

-- Restoring undoes applying: for a file whose carriage returns all belong to line ends, and entries
-- that render as plain lines, removing the managed block from the file with the block appended
-- gives what removing it from the original file gives.
pub remove-append_managed_block :
    (body : Text) (entries : List Entry)
    → HasCleanLineEnds body
    → All IsPlainEntry entries
    → remove_managed_block (append_managed_block body entries) ≡ remove_managed_block body
unfolding remove_managed_block
remove-append_managed_block body entries clean plain =
    ap end_line (kept_text-append_managed_block body entries clean plain)

-- Applying twice is applying the second time only: under the same conditions, the block of an
-- earlier run is replaced, and nothing accumulates.
pub append_managed_block_twice :
    (body : Text) (old new : List Entry)
    → HasCleanLineEnds body
    → All IsPlainEntry old
    → append_managed_block (append_managed_block body old) new ≡ append_managed_block body new
unfolding append_managed_block
append_managed_block_twice body old new clean plain =
    ap
      (λ r.
        let base = trim_right is_crlf r in
        if is_empty base then render_block new else base ++ (10 ∷ 10 ∷ render_block new))
      (remove-append_managed_block body old clean plain)

-- The lines of the file that Apply writes are the kept lines, an empty line where there are any,
-- the lines of the block in order, and an empty last line.
pub split_lines-append_managed_block :
    (body : Text) (entries : List Entry)
    → HasCleanLineEnds body
    → All IsPlainEntry entries
    → split_lines (append_managed_block body entries)
      ≡ (if is_empty (kept_text body) then [] else split_lines (kept_text body) ++ [] ∷ [])
        ++ (block_lines entries ++ [] ∷ [])
unfolding append_managed_block split_lines
split_lines-append_managed_block body entries clean plain =
    rw (base-kept_text body clean) (step (kept_text body))
  where
    step :
        (k : Text)
        → split_lines
            (if is_empty k then render_block entries else k ++ (10 ∷ 10 ∷ render_block entries))
          ≡ (if is_empty k then [] else split_lines k ++ [] ∷ [])
            ++ (block_lines entries ++ [] ∷ [])
    step [] = split_lines-render_block entries plain
    step (c ∷ k) = rw (
      split_lines-append (c ∷ k) (10 ∷ render_block entries),
      split_lines-append [] (render_block entries),
      split_lines-render_block entries plain,
      append_assoc (split_lines (c ∷ k)) ([] ∷ []) (block_lines entries ++ [] ∷ []),
    )
