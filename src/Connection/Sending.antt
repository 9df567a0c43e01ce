-- ===== src/Connection/Sending.antt =====
-- gpu-proxy-cpp/src/connection.cpp: what `send_line` does to the world.
use compute_market.Base.{
  ℕ, ◌≡◌, refl, ap, Bool, true, ◌&&◌, not, List, [], ◌∷◌, ◌++◌, Option, none, some, if◌then◌else◌,
  arith, append-nil, sym, Bool-cases, inl, inr,
}
use compute_market.Base.Text.{Text}
use compute_market.Base.Table.{find, assign, find-assign}
use compute_market.Platform.{Platform, Sent, SslError}
use compute_market.World.{Connection, Output, wrote, World, store}
use compute_market.Outcome.{
  unmarked, Returns, returns, Quiet, Quiet-refl, Quiet-trans, Quiet-effects, Returns-mono,
  load-some,
}
use compute_market.Connection.State.{is_connected, is_failed, wants_retry}
use compute_market.Connection.Io.{send_line, after_write}

-- `send_line` refuses.
abbrev pub rejects : Connection → Bool
rejects c = not (is_connected c) && not c.tls_handshake_complete

-- The writes that the connection makes of a line.
abbrev pub written : Connection → Text → List Output
written c line = if rejects c then [] else wrote c.fd (line ++ b'\n' ∷ []) ∷ []

-- The writes of a line to the connection at an address.
abbrev pub output_at : Option Connection → Text → List Output
output_at none msg = []
output_at (some c) msg = written c msg

module _ ⦃p : Platform⦄ where
  Quiet-mark :
      (a : ℕ) (c : Connection) (w : World)
      → find a w.heap ≡ some c
      → Quiet w (record w { heap = assign a (record c { should_close = true }) w.heap })
  Quiet-mark a c w h = record {
    loop_same = refl;
    pool_same = refl;
    worker_same = refl;
    next_same = refl;
    heap_same = λ b. ground (arith, find-assign a b (record c { should_close = true }) w.heap);
  }

  after_write-Quiet :
      (a : ℕ) (c : Connection) (n : Sent) (err : SslError) (total : ℕ) (w : World)
      → find a w.heap ≡ some c
      → Returns (λ sent w'. Quiet w w' × (w'.trace ≡ w.trace)) (after_write a c n err total w)
  unfolding after_write store
  after_write-Quiet a c n err total w h = elim (Bool-cases (is_failed n)) [
    | inr e ↦ rw e (returns (Quiet-refl w, refl))
    | inl e ↦ elim (Bool-cases (c.ssl && wants_retry err)) [
      | inl again ↦ rw (e, again) (returns (Quiet-refl w, refl))
      | inr stop ↦ rw (e, stop) (returns (Quiet-mark a c w h, refl))
    ]
  ]

  -- On a connection that is there `send_line` returns, writes the line unless it refuses, and changes
  -- nothing else but a mark for closing.
  pub send_line-Quiet :
      (a : ℕ) (line : Text) (c : Connection) (w : World)
      → find a w.heap ≡ some c
      → Returns
          (λ sent w'. Quiet w w' × (w'.trace ≡ w.trace ++ written c line))
          (send_line a line w)
  unfolding send_line
  send_line-Quiet a line c w h = elim (Bool-cases (rejects c)) [
    | inl e ↦ rw (load-some a c w h, e) (returns (Quiet-refl w, sym (append-nil w.trace)))
    | inr e ↦
        rw (load-some a c w h, e)
          (Returns-mono (after_write-Quiet a c _ _ _ _ h)
            λ sent w' q. (Quiet-trans (Quiet-effects w _ _) q.0, q.1))
  ]

  pub output_at-unmarked :
      (o q : Option Connection) (msg : Text)
      → unmarked o ≡ unmarked q
      → output_at o msg ≡ output_at q msg
  output_at-unmarked none none msg h = refl
  output_at-unmarked none (some c) msg h = cc
  output_at-unmarked (some b) none msg h = cc
  output_at-unmarked (some b) (some c) msg h = ap (λ o. output_at o msg) h
