-- ===== src/Connection/Delivery.antt =====
-- gpu-proxy-cpp/src/connection.cpp: the loop of `process_read_buffer` delivers the lines of its buffer.
use compute_market.Base.{
  ℕ, zero, suc, ◌<◌, ◌≡◌, List, [], ◌∷◌, length, arith, Option-cases, inl, inr, All, ap, ◌∙◌,
}
use compute_market.Base.Text.{Text}
use compute_market.Platform.{Platform}
use compute_market.World.{M, ◌>>◌, done}
use compute_market.Connection.Framing.{next_line}
use compute_market.Connection.Lines.{
  frames, IsLine, join_lines, with_rest, frames-join_lines, next_line-none, next_line-some,
}
use compute_market.Connection.State.{MessageCallback}
use compute_market.Connection.Io.{deliver_line, process_read_buffer}

module _ ⦃p : Platform⦄ where
  unfoldable pub deliver : MessageCallback → ℕ → List (Text × Text) → M (Unit {0})
  deliver cb a [] = done
  deliver cb a ((line, after) ∷ rest) = do deliver_line cb a line after; deliver cb a rest

  -- With fuel above the length of the buffer the loop ends by its test, and has called the callback
  -- for the lines of the buffer, in order, each time with the rest of the buffer stored before.
  pub process_read_buffer-deliver :
      (fuel : ℕ) (cb : MessageCallback) (a : ℕ) (s : Text)
      → length s < fuel
      → process_read_buffer fuel cb a s ≡ deliver cb a (frames [] s)
  unfolding process_read_buffer deliver
  process_read_buffer-deliver zero cb a s h = absurd (omega arith)
  process_read_buffer-deliver (suc fuel) cb a s h = elim (Option-cases (next_line s)) [
    | inl e ↦ rw (e, process_read_buffer, next_line-none s e)
    | inr ((line, after), e) ↦
        let (cut, shorter) = next_line-some s line after e in
        rw (e, process_read_buffer, cut)
          (λ i.
            deliver_line cb a line after
            >> process_read_buffer-deliver fuel cb a after (omega arith) i)
  ]

  -- Lines that were sent one after the other, each with its newline, are what the loop hands to the
  -- callback, in order and unchanged.
  pub process_read_buffer-join_lines :
      (fuel : ℕ) (cb : MessageCallback) (a : ℕ) (ls : List Text)
      → All IsLine ls
      → length (join_lines ls) < fuel
      → process_read_buffer fuel cb a (join_lines ls) ≡ deliver cb a (with_rest ls)
  process_read_buffer-join_lines fuel cb a ls h enough =
      process_read_buffer-deliver fuel cb a (join_lines ls) enough
      ∙ ap (deliver cb a) (frames-join_lines ls h)
