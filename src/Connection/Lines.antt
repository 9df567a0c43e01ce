-- ===== src/Connection/Lines.antt =====
-- gpu-proxy-cpp/src/connection.cpp: the lines that come out of a byte stream, read at once and without
-- a buffer, and that the loop of `process_read_buffer` delivers just these.
use compute_market.Base.{
  ◌<◌, ◌≡◌, ◌≢◌, refl, ap, ◌∙◌, List, [], ◌∷◌, ◌++◌, Option, none, some, ◌==◌, if◌then◌else◌,
  length, length-append, arith, ne_of_eqb, append_assoc, append-nil, Bool-cases, inl, inr, All,
}
use compute_market.Base.Text.{Text}
use compute_market.Connection.Framing.{frame, strip_cr, next_line}

-- The complete lines of a stream, when `open_line` has come before it, each with what follows it.
unfoldable pub frames : Text → Text → List (Text × Text)
frames open_line [] = []
frames open_line (c ∷ s) =
    if c == b'\n' then (strip_cr open_line, s) ∷ frames [] s else frames (open_line ++ c ∷ []) s

abbrev pub HasNoNewline : Text → Type 0
HasNoNewline s = All (λ c. c ≢ b'\n') s

frames-no_newline :
    (o s rest : Text)
    → HasNoNewline s
    → frames o (s ++ b'\n' ∷ rest) ≡ (strip_cr (o ++ s), rest) ∷ frames [] rest
unfolding frames
frames-no_newline o [] rest h = rw append-nil
frames-no_newline o (c ∷ s) rest h = elim (Bool-cases (c == b'\n')) [
  | inl e ↦ absurd (h.0 (ground arith))
  | inr e ↦ rw e (frames-no_newline (o ++ c ∷ []) s rest h.1 ∙ rw append_assoc)
]

-- What the peer writes: each line with its newline.
unfoldable pub join_lines : List Text → Text
join_lines [] = []
join_lines (l ∷ ls) = l ++ (b'\n' ∷ join_lines ls)

-- A line that can be sent: it holds no newline, and no carriage return is taken off its end.
abbrev pub IsLine : Text → Type 0
IsLine l = HasNoNewline l × (strip_cr l ≡ l)

-- Each line with the text after it.
unfoldable pub with_rest : List Text → List (Text × Text)
with_rest [] = []
with_rest (l ∷ ls) = (l, join_lines ls) ∷ with_rest ls

pub frames-join_lines : (ls : List Text) → All IsLine ls → frames [] (join_lines ls) ≡ with_rest ls
unfolding join_lines with_rest
frames-join_lines [] h = unfold frames in refl
frames-join_lines (l ∷ ls) h =
    rw (frames-no_newline [] l (join_lines ls) h.0.0, h.0.1, frames-join_lines ls h.1)

frame-none : (o s : Text) → frame s ≡ none → frames o s ≡ []
unfolding frame frames
frame-none o [] h = refl
frame-none o (c ∷ s) h = ground (arith, frame-none (o ++ c ∷ []) s)

-- `find` cuts at the first newline.
abbrev Cut : Text → Option (Text × Text) → Type 0
Cut s none = Unit
Cut s (some (l, r)) = (s ≡ l ++ b'\n' ∷ r) × HasNoNewline l

frame-Cut : (s : Text) → Cut s (frame s)
unfolding frame
frame-Cut [] = tt
frame-Cut (c ∷ s) = elim (Bool-cases (c == b'\n')) [
  | inl e ↦ rw e (ground arith, tt)
  | inr e ↦ rw e (step (ne_of_eqb c b'\n' e) (frame s) (frame-Cut s))
]
  where
    step :
        c ≢ b'\n'
        → (o : Option (Text × Text)) → Cut s o
        → Cut (c ∷ s) (elim o [ none ↦ none | some (line, after) ↦ some (c ∷ line, after) ])
    step ne none h = tt
    step ne (some (l, r)) h = (ap (◌∷◌ c) h.0, (ne, h.1))

pub next_line-none : (s : Text) → next_line s ≡ none → frames [] s ≡ []
unfolding next_line
next_line-none s h = frame-none [] s (ground arith)

pub next_line-some :
    (s l r : Text)
    → next_line s ≡ some (l, r)
    → (frames [] s ≡ (l, r) ∷ frames [] r) × (length r < length s)
unfolding next_line
next_line-some s l r h = step (frame s) refl (frame-Cut s)
  where
    step :
        (o : Option (Text × Text))
        → frame s ≡ o
        → Cut s o
        → (frames [] s ≡ (l, r) ∷ frames [] r) × (length r < length s)
    step none e cut = ground arith
    step (some (line, after)) e cut =
        let q : ◌≡◌ {A = Option (Text × Text)} (some (strip_cr line, after)) (some (l, r)) =
          rw (e, next_line) at h in
        let el : strip_cr line ≡ l = cc in
        let er : after ≡ r = cc in
        (
          ap (frames []) cut.0 ∙ frames-no_newline [] line after cut.1 ∙ rw (el, er),
          omega (arith, ap length cut.0, length-append line (b'\n' ∷ after), ap length er),
        )
