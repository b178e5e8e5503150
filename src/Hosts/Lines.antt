-- ===== src/Hosts/Lines.antt =====
-- Splitting a text into lines, joining lines, and trimming newlines at the end.
use siteboost_core.Common.{
  ◌==◌, Bool-cases, All, ℕ, ◌≡◌, refl, sym, subst, ◌≢◌, inl, inr, Bool, false, List, [], ◌∷◌, ◌++◌,
  append_assoc, arith,
}
use siteboost_core.Text.{Text, push_trimmed, trim_right}
use siteboost_core.Hosts.{push_char, split_lines, join_lines, is_lf, is_crlf, render_lines}

-- No line break and no carriage return.
abbrev pub NoCr : Text → Type 0
NoCr s = All (λ c. (c == 13) ≡ false) s

abbrev pub NoLf : Text → Type 0
NoLf s = All (λ c. (c == 10) ≡ false) s

pub split_lines-ne-nil : (s : Text) → split_lines s ≢ []
unfolding split_lines
split_lines-ne-nil [] e = cc
split_lines-ne-nil (c ∷ s) e = elim (Bool-cases (c == 10)) [
  | inl newline ↦ cc (rw (newline, split_lines) at e)
  | inr other ↦ push_char-ne-nil c (split_lines s) (rw (other, split_lines) at e)
]
  where
    push_char-ne-nil : (d : ℕ) (ls : List Text) → push_char d ls ≢ []
    push_char-ne-nil d [] q = cc
    push_char-ne-nil d (l ∷ ls) q = cc

push_char-append :
    (c : ℕ) (ls ms : List Text) → ls ≢ [] → push_char c (ls ++ ms) ≡ push_char c ls ++ ms
unfolding push_char
push_char-append c [] ms h = absurd (h refl)
push_char-append c (l ∷ ls) ms h = refl

pub split_lines-append : (s t : Text) → split_lines (s ++ (10 ∷ t)) ≡ split_lines s ++ split_lines t
unfolding split_lines
split_lines-append [] t = refl
split_lines-append (c ∷ s) t = elim (Bool-cases (c == 10)) [
  | inl newline ↦ rw (newline, split_lines-append s t)
  | inr other ↦
      rw (other, split_lines-append s t)
        (push_char-append c (split_lines s) (split_lines t) (split_lines-ne-nil s))
]

pub split_lines_of_line : (s : Text) → NoLf s → split_lines s ≡ s ∷ []
unfolding split_lines
split_lines_of_line [] h = refl
split_lines_of_line (c ∷ s) h = rw (h.0, split_lines_of_line s h.1)

-- Lines that hold no newline come back from their rendering, with an empty line behind the last.
pub split_lines-render_lines :
    (ls : List Text) → All NoLf ls → split_lines (render_lines ls) ≡ ls ++ [] ∷ []
unfolding render_lines
split_lines-render_lines [] h = unfold split_lines in refl
split_lines-render_lines (l ∷ ls) h = rw (
  split_lines-append l (render_lines ls),
  split_lines_of_line l h.0,
  split_lines-render_lines ls h.1,
)

join_lines-cons :
    (l : Text) (ls : List Text) → ls ≢ [] → join_lines (l ∷ ls) ≡ l ++ (10 ∷ join_lines ls)
unfolding join_lines
join_lines-cons l [] h = absurd (h refl)
join_lines-cons l (m ∷ ls) h = refl

join_lines-push_char :
    (c : ℕ) (ls : List Text) → ls ≢ [] → join_lines (push_char c ls) ≡ c ∷ join_lines ls
unfolding push_char join_lines
join_lines-push_char c [] h = absurd (h refl)
join_lines-push_char c (l ∷ []) h = refl
join_lines-push_char c (l ∷ m ∷ ls) h = refl

pub join_lines-split_lines : (s : Text) → join_lines (split_lines s) ≡ s
unfolding split_lines
join_lines-split_lines [] = unfold join_lines in refl
join_lines-split_lines (c ∷ s) = elim (Bool-cases (c == 10)) [
  | inl newline ↦
      rw
        (
          newline,
          join_lines-cons [] (split_lines s) (split_lines-ne-nil s),
          join_lines-split_lines s,
        )
        (ground arith)
  | inr other ↦ rw (
    other,
    join_lines-push_char c (split_lines s) (split_lines-ne-nil s),
    join_lines-split_lines s,
  )
]

-- Two empty lines behind the others are two newlines.
pub join_lines-append_blank :
    (ls : List Text) → ls ≢ [] → join_lines (ls ++ [] ∷ [] ∷ []) ≡ join_lines ls ++ 10 ∷ 10 ∷ []
unfolding join_lines
join_lines-append_blank [] h = absurd (h refl)
join_lines-append_blank (l ∷ []) h = refl
join_lines-append_blank (l ∷ m ∷ ls) h =
    rw (join_lines-append_blank (m ∷ ls) (λ e. cc)) (sym (append_assoc l _ _))

-- The lines of a text are those of the trimmed text, and empty ones.
pub split_lines-trim_right :
    (s : Text)
    → (blanks : List Text) × (All (λ l. l ≡ []) blanks)
      × (split_lines s ≡ split_lines (trim_right is_lf s) ++ blanks)
unfolding split_lines trim_right
split_lines-trim_right [] = ([], tt, refl)
split_lines-trim_right (c ∷ s) =
    let (blanks, empty, e) = split_lines-trim_right s in step (trim_right is_lf s) blanks empty e
  where
    step :
        (t : Text) (blanks : List Text)
        → All (λ l. l ≡ []) blanks
        → split_lines s ≡ split_lines t ++ blanks
        → (more : List Text) × (All (λ l. l ≡ []) more)
          × (split_lines (c ∷ s) ≡ split_lines (push_trimmed is_lf c t) ++ more)
    step [] blanks empty e = elim (Bool-cases (c == 10)) [
      | inl newline ↦ ([] ∷ blanks, (refl, empty), rw (newline, e))
      | inr other ↦ (blanks, empty, rw (other, e) (rw (other, split_lines)))
    ]
    step (d ∷ t) blanks empty e = elim (Bool-cases (c == 10)) [
      | inl newline ↦ (blanks, empty, rw (newline, e))
      | inr other ↦ (
        blanks,
        empty,
        rw (other, e)
            (push_char-append c (split_lines (d ∷ t)) blanks (split_lines-ne-nil (d ∷ t))),
      )
    ]

pub trim_right-append_lf : (s : Text) → trim_right is_lf (s ++ 10 ∷ []) ≡ trim_right is_lf s
unfolding trim_right
trim_right-append_lf [] = refl
trim_right-append_lf (c ∷ s) = rw (trim_right-append_lf s)

pub trim_right_idempotent :
    (p : ℕ → Bool) (s : Text) → trim_right p (trim_right p s) ≡ trim_right p s
unfolding trim_right
trim_right_idempotent p [] = refl
trim_right_idempotent p (c ∷ s) = step (trim_right p s) (trim_right_idempotent p s)
  where
    step : (t : Text) → trim_right p t ≡ t → trim_right p (push_trimmed p c t) ≡ push_trimmed p c t
    step [] e = ground arith
    step (d ∷ t) e = rw e

-- Without a carriage return, trimming both kinds of line break is trimming newlines.
pub trim_right-is_crlf : (s : Text) → NoCr s → trim_right is_crlf s ≡ trim_right is_lf s
unfolding trim_right
trim_right-is_crlf [] h = refl
trim_right-is_crlf (c ∷ s) h = rw (trim_right-is_crlf s h.1) (step (trim_right is_lf s))
  where
    step : (t : Text) → push_trimmed is_crlf c t ≡ push_trimmed is_lf c t
    step [] = ground (arith, h.0)
    step (d ∷ t) = refl

NoLf-push_char :
    (c : ℕ) (ls : List Text) → (c == 10) ≡ false → All NoLf ls → All NoLf (push_char c ls)
unfolding push_char
NoLf-push_char c [] h k = ((h, tt), tt)
NoLf-push_char c (l ∷ ls) h k = ((h, k.0), k.1)

pub NoLf-split_lines : (s : Text) → All NoLf (split_lines s)
unfolding split_lines
NoLf-split_lines [] = (tt, tt)
NoLf-split_lines (c ∷ s) = elim (Bool-cases (c == 10)) [
  | inl newline ↦ rw newline (tt, NoLf-split_lines s)
  | inr other ↦ rw other (NoLf-push_char c (split_lines s) other (NoLf-split_lines s))
]

-- Joining lines and splitting them again gives the lines back, if there is one.
pub split_lines-join_lines :
    (l : Text) (ls : List Text) → All NoLf (l ∷ ls) → split_lines (join_lines (l ∷ ls)) ≡ l ∷ ls
unfolding join_lines
split_lines-join_lines l [] h = split_lines_of_line l h.0
split_lines-join_lines l (m ∷ ls) h = rw (
  split_lines-append l (join_lines (m ∷ ls)),
  split_lines_of_line l h.0,
  split_lines-join_lines m ls h.1,
)

-- A property of every line, an empty one included, passes to the lines of the trimmed joined text.
module _ (P : Text → Type 0) (blank : P []) where
  All-append_left : (xs ys : List Text) → All P (xs ++ ys) → All P xs
  All-append_left [] ys h = tt
  All-append_left (x ∷ xs) ys h = (h.0, All-append_left xs ys h.1)

  All-split_lines-join_lines :
      (ls : List Text) → All NoLf ls → All P ls → All P (split_lines (join_lines ls))
  All-split_lines-join_lines [] h k = unfold join_lines split_lines in (blank, tt)
  All-split_lines-join_lines (l ∷ ls) h k = subst (All P) (sym (split_lines-join_lines l ls h)) k

  pub All-split_lines-trim_right :
      (ls : List Text)
      → All NoLf ls
      → All P ls
      → All P (split_lines (trim_right is_lf (join_lines ls)))
  All-split_lines-trim_right ls h k =
      let (blanks, _, e) = split_lines-trim_right (join_lines ls) in
      All-append_left _ blanks (subst (All P) e (All-split_lines-join_lines ls h k))
