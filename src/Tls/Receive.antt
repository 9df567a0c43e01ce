-- ===== src/Tls/Receive.antt =====
-- gpu-proxy-cpp/src/ssl_utils.cpp: `recv_line`.
use compute_market.Base.{
  ℕ, zero, suc, ◌+◌, ◌-◌, ◌*◌, ◌/◌, ◌%◌, ◌^◌, Bool, true, false, not, [], ◌∷◌, ◌++◌, Option, none,
  some, ◌==◌, ltb, if◌then◌else◌,
}
use compute_market.Base.Text.{Text}
use compute_market.Platform.{
  Received, received, end_of_stream, receive_failed, SslError, want_read, want_write, zero_return,
  other_error,
}
use compute_market.Tls.System.{TlsSystem, PollOne, poll_error, poll_nothing, poll_event}
use compute_market.Tls.State.{
  session, took, T, ◌>>=◌, ◌>>◌, pure, crash, get_conn, log, call, match_option, using,
  using_socket,
}

-- `result += buf`: a buffer of C ends at its first zero.
unfoldable pub until_nul : Text → Text
until_nul [] = []
until_nul (c ∷ s) = if c == 0 then [] else c ∷ until_nul s

-- `result.find('\n') != std::string::npos`
unfoldable pub has_newline : Text → Bool
has_newline [] = false
has_newline (c ∷ s) = if c == b'\n' then true else has_newline s

-- `result.substr(0, newline_pos)`, or all of it.
unfoldable pub trim_at_newline : Text → Text
trim_at_newline [] = []
trim_at_newline (c ∷ s) = if c == b'\n' then [] else c ∷ trim_at_newline s

-- How a round of the loop ends, with `result`.
pub data Round : Type 0 where
  continues breaks : Text → Round

module _ ⦃p : TlsSystem⦄ where
  -- `if (result.find('\n') != npos) break`
  unfoldable pub after_append : Text → Round
  after_append result = if has_newline result then breaks result else continues result

  unfoldable pub append_buffer : Text → Text → T Round
  unfolding after_append
  append_buffer result buf = do log (took buf); pure (after_append (result ++ until_nul buf))

  abbrev pub after_error : Text → SslError → Round
  after_error result zero_return = breaks result
  after_error result want_read = continues result
  after_error result want_write = continues result
  after_error result other_error = breaks result

  -- The socket has data.
  unfoldable pub after_read : ℕ → Text → Received → T Round
  after_read ssl result (received buf) = append_buffer result buf
  after_read ssl result end_of_stream = do
    err ← using (session ssl) (λ s. (p.ssl_get_error s ssl, s))
    pure (after_error result err)
  after_read ssl result receive_failed = do
    err ← using (session ssl) (λ s. (p.ssl_get_error s ssl, s))
    pure (after_error result err)

  unfoldable pub after_poll : ℕ → Text → PollOne → T Round
  unfolding after_read
  after_poll ssl result poll_error = pure (breaks result)
  after_poll ssl result poll_nothing = pure (continues result)
  after_poll ssl result poll_event = do
    got ← using (session ssl) (λ s. p.ssl_read s ssl 1023)
    after_read ssl result got

  -- The round from `Wait for socket data` on.
  unfoldable pub wait_for_data : Option ℕ → ℕ → ℕ → Text → T Round
  unfolding after_poll
  wait_for_data fd ssl deadline result = do
    now ← call p.steady_now
    let remaining = (deadline - now) / 1000000
    if remaining == 0 then pure (breaks result) else do
      polled ← using_socket fd (λ s. p.poll s fd (remaining % 2 ^ 32))
      after_poll ssl result polled

  unfoldable pub after_pending : Option ℕ → ℕ → ℕ → Text → Received → T Round
  after_pending fd ssl deadline result (received buf) = append_buffer result buf
  after_pending fd ssl deadline result end_of_stream = wait_for_data fd ssl deadline result
  after_pending fd ssl deadline result receive_failed = wait_for_data fd ssl deadline result

  -- One round of the loop.
  unfoldable pub recv_round : Option ℕ → ℕ → ℕ → Text → T Round
  unfolding after_pending
  recv_round fd ssl deadline result = do
    pending ← using (session ssl) (λ s. p.ssl_pending s ssl)
    if not pending then wait_for_data fd ssl deadline result else do
      got ← using (session ssl) (λ s. p.ssl_read s ssl 1023)
      after_pending fd ssl deadline result got

  -- The loop on fuel, with `result`; `none` if the fuel runs out.
  unfoldable pub recv_rounds : ℕ → Option ℕ → Option ℕ → ℕ → Text → T (Option Text)
  recv_rounds zero fd ssl deadline result = pure none
  recv_rounds (suc fuel) fd ssl deadline result =
      let again = recv_rounds fuel fd ssl deadline in
      do
        now ← call p.steady_now
        if not (ltb now deadline)
            then pure (some result)
            else match_option ssl crash λ ssl_. do
              round ← recv_round fd ssl_ deadline result
              elim round [ continues r ↦ again r | breaks r ↦ pure (some r) ]

  -- For a timeout that is not negative.
  unfoldable pub recv_line : ℕ → ℕ → T (Option Text)
  recv_line fuel timeout_sec = do
    c ← get_conn
    if not c.connected then pure (some []) else do
      flags ← using_socket c.socket_fd (λ s. p.get_flags s c.socket_fd)
      _ ← using_socket c.socket_fd (λ s. (tt, p.set_flags s c.socket_fd (p.set_nonblock flags)))
      start ← call p.steady_now
      out ← recv_rounds fuel c.socket_fd c.ssl (start + timeout_sec * 1000000000) []
      match_option out (pure none) λ result. do
        _ ← using_socket c.socket_fd (λ s. (tt, p.set_flags s c.socket_fd flags))
        pure (some (trim_at_newline result))
