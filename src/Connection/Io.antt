-- ===== src/Connection/Io.antt =====
-- gpu-proxy-cpp/src/connection.cpp: lines written to a socket, and bytes read from one.
use compute_market.Base.{
  ℕ, zero, suc, Bool, true, false, ◌&&◌, not, [], ◌∷◌, ◌++◌, Option, none, some, if◌then◌else◌,
  length,
}
use compute_market.Base.Text.{Text}
use compute_market.Platform.{
  Platform, Sent, Received, received, end_of_stream, receive_failed, SslError,
}
use compute_market.World.{
  Connection, wrote, M, ◌>>=◌, ◌>>◌, pure, done, emit, os_call, when, load, store,
}
use compute_market.Connection.Framing.{next_line}
use compute_market.Connection.State.{
  is_connected, tls_handshake_pending, wants_retry, is_failed, is_whole, MessageCallback,
  mark_for_closing,
}

module _ ⦃p : Platform⦄ where
  -- What `send_line` does with the result of the write.
  unfoldable pub after_write : ℕ → Connection → Sent → SslError → ℕ → M Bool
  after_write a c n err total =
      if not (is_failed n)
      then pure (is_whole n total)
      else if c.ssl && wants_retry err
      then pure true
      else do store a (record c { should_close = true }); pure false

  unfoldable pub send_line : ℕ → Text → M Bool
  send_line a line = do
    c ← load a
    if not (is_connected c) && not c.tls_handshake_complete then pure false else do
      let full_line = line ++ (b'\n' ∷ [])
      n ← os_call λ s. if c.ssl then p.ssl_write s c.fd full_line else p.write s c.fd full_line
      emit (wrote c.fd full_line)
      err ← os_call (λ s. (p.ssl_get_error s c.fd, s))
      after_write a c n err (length full_line)

  -- `BUFFER_SIZE - 1`
  abbrev pub read_size : ℕ
  read_size = 8191

  unfoldable pub set_read_buffer : ℕ → Text → M (Unit {0})
  set_read_buffer a s = do c ← load a; store a (record c { read_buffer = s })

  -- The body of its loop: a line is cut off, and the callback is called if it is set. Then the test of
  -- the loop reads the connection again, which is gone if the callback has deleted it.
  unfoldable pub deliver_line : MessageCallback → ℕ → Text → Text → M (Unit {0})
  deliver_line cb a line after = do
    set_read_buffer a after
    c ← load a
    when c.has_callbacks (cb line)
    _ ← load a
    done

  -- `process_read_buffer`. The buffer is private, and nothing but this loop and `read_data` writes it, so
  -- it is passed along with the loop; fuel above its length is enough.
  unfoldable pub process_read_buffer : ℕ → MessageCallback → ℕ → Text → M (Unit {0})
  process_read_buffer zero cb a buffer = done
  process_read_buffer (suc fuel) cb a buffer =
      let rest = process_read_buffer fuel cb a in
      elim (next_line buffer) [
        | none ↦ done
        | some (line, after) ↦ do deliver_line cb a line after; rest after
      ]

  -- The end of `read_data`, once bytes are there.
  unfoldable pub append_bytes : MessageCallback → ℕ → Text → M (Option ℕ)
  append_bytes cb a bytes = do
    c ← load a
    let buffer = c.read_buffer ++ bytes
    store a (record c { read_buffer = buffer })
    process_read_buffer (suc (length buffer)) cb a buffer
    pure (some (length bytes))

  -- The error paths of `read_data`: -1, with the connection to be closed.
  unfoldable pub close_and_fail : ℕ → M (Option ℕ)
  close_and_fail a = do mark_for_closing a; pure none

  unfoldable pub after_read : MessageCallback → ℕ → Received → Bool → M (Option ℕ)
  unfolding close_and_fail
  after_read cb a (received bytes) again = append_bytes cb a bytes
  after_read cb a end_of_stream again = close_and_fail a
  after_read cb a receive_failed again = if again then pure (some 0) else close_and_fail a

  unfoldable pub after_ssl_read : MessageCallback → ℕ → Received → SslError → M (Option ℕ)
  unfolding close_and_fail
  after_ssl_read cb a (received bytes) err = append_bytes cb a bytes
  after_ssl_read cb a end_of_stream err =
      if wants_retry err then pure (some 0) else close_and_fail a
  after_ssl_read cb a receive_failed err =
      if wants_retry err then pure (some 0) else close_and_fail a

  -- `none` is the return value -1.
  unfoldable pub read_data : MessageCallback → ℕ → M (Option ℕ)
  unfolding after_read after_ssl_read
  read_data cb a = do
    c ← load a
    if tls_handshake_pending c
        then pure (some 0)
        else if c.ssl
        then (do
          r ← os_call (λ s. p.ssl_read s c.fd read_size)
          err ← os_call (λ s. (p.ssl_get_error s c.fd, s))
          after_ssl_read cb a r err)
        else do
          r ← os_call (λ s. p.read s c.fd read_size)
          again ← os_call (λ s. (p.errno_is_eagain s, s))
          after_read cb a r again
