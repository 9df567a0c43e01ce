-- ===== src/Tls.antt =====
-- gpu-proxy-cpp/src/ssl_utils.cpp: `TLSConnection`, a blocking TLS client beside the proxy's own
-- connections.
pub mod System
pub mod State
pub mod Receive
pub mod Ledger
pub mod Execs
pub mod Ownership
pub mod Reading
pub mod Waiting
pub mod Client
use compute_market.Base.{
  ℕ, zero, suc, ◌+◌, ◌-◌, ◌*◌, ◌/◌, ◌%◌, ◌^◌, Bool, true, false, not, List, [], ◌∷◌, ◌++◌, Option,
  none, some, ◌==◌, ltb, length, if◌then◌else◌,
}
use compute_market.Base.Text.{Text, text}
use compute_market.Platform.{
  Sent, sent, send_failed, Received, received, end_of_stream, receive_failed, SslError, want_read,
  want_write, zero_return, other_error,
}
use compute_market.Tls.System.{TlsSystem, PollOne, poll_error, poll_nothing, poll_event}
use compute_market.Tls.State.{
  TlsConnection, Resource, descriptor, context, session, Call, used, took, TlsWorld, T, ◌>>=◌, ◌>>◌,
  pure, done, crash, get_conn, put_conn, log, call, match_option, acquire, using, release,
  using_socket,
}

module _ ⦃p : TlsSystem⦄ where
  abbrev pub new_tls_connection : Text → ℕ → TlsConnection
  new_tls_connection host port = record {
    host = host;
    port = port;
    socket_fd = none;
    ssl = none;
    ctx = none;
    connected = false;
  }

  unfoldable pub create_ssl_context : T Bool
  create_ssl_context = do
    made ← acquire context p.ssl_ctx_new
    c ← get_conn
    put_conn (record c { ctx = made })
    match_option made (pure false) λ ctx. do
      _ ← using (context ctx) (λ s. (tt, p.ssl_ctx_set_tls1_2 s ctx))
      ciphers ←
          using (context ctx) (λ s. p.ssl_ctx_set_cipher_list s ctx (text "DEFAULT:@SECLEVEL=0"))
      if not ciphers
          then (do
            release (context ctx) (λ s. p.ssl_ctx_free s ctx)
            put_conn (record c { ctx = none })
            pure false)
          else (do _ ← using (context ctx) (λ s. (tt, p.ssl_ctx_set_verify_none s ctx)); pure true)

  -- `SSL_free` and `ssl_ = nullptr`, where the handshake ends.
  unfoldable pub drop_ssl : ℕ → T Bool
  drop_ssl ssl = do
    release (session ssl) (λ s. p.ssl_free s ssl)
    c ← get_conn
    put_conn (record c { ssl = none })
    pure false

  -- With the context and the descriptor that `connect` has set.
  unfoldable pub perform_ssl_handshake : ℕ → ℕ → T Bool
  unfolding drop_ssl
  perform_ssl_handshake ctx fd = do
    log (used (context ctx))
    made ← acquire session (λ s. p.ssl_new s ctx)
    c ← get_conn
    put_conn (record c { ssl = made })
    match_option made (pure false) λ ssl. do
      _ ← using (session ssl) (λ s. (tt, p.ssl_set_tlsext_host_name s ssl (text "kryptex.com")))
      set ← using (session ssl) (λ s. p.ssl_set_fd s ssl fd)
      if not set then drop_ssl ssl else do
        shaken ← using (session ssl) (λ s. p.ssl_connect s ssl)
        if not shaken then drop_ssl ssl else pure true

  unfoldable pub close_socket : ℕ → T Bool
  close_socket fd = do
    release (descriptor fd) (λ s. p.close s fd)
    c ← get_conn
    put_conn (record c { socket_fd = none })
    pure false

  -- `connect` from the handshake on.
  unfoldable pub secure : ℕ → ℕ → T Bool
  unfolding close_socket
  secure ctx fd = do
    shaken ← perform_ssl_handshake ctx fd
    c ← get_conn
    if shaken then (do put_conn (record c { connected = true }); pure true) else (do
      release (context ctx) (λ s. p.ssl_ctx_free s ctx)
      put_conn (record c { ctx = none })
      close_socket fd)

  unfoldable pub connect : T Bool
  unfolding close_socket
  connect = do
    made ← acquire descriptor p.socket
    c ← get_conn
    put_conn (record c { socket_fd = made })
    match_option made (pure false) λ fd. do
      flags ← using (descriptor fd) (λ s. p.get_flags s (some fd))
      _ ← using (descriptor fd) (λ s. (tt, p.set_flags s (some fd) (p.clear_nonblock flags)))
      resolved ← call (λ s. p.get_addr_info s c.host)
      match_option resolved (close_socket fd) λ address. do
        reached ← using (descriptor fd) (λ s. p.connect s fd address c.port)
        if not reached then close_socket fd else do
          made_context ← create_ssl_context
          if not made_context
              then close_socket fd
              else do c' ← get_conn; match_option c'.ctx crash λ ctx. secure ctx fd

  unfoldable pub disconnect_ssl : Option ℕ → T (Unit {0})
  disconnect_ssl none = done
  disconnect_ssl (some ssl) = do
    _ ← using (session ssl) (λ s. (tt, p.ssl_shutdown s ssl))
    release (session ssl) (λ s. p.ssl_free s ssl)
    c ← get_conn
    put_conn (record c { ssl = none })

  unfoldable pub disconnect_ctx : Option ℕ → T (Unit {0})
  disconnect_ctx none = done
  disconnect_ctx (some ctx) = do
    release (context ctx) (λ s. p.ssl_ctx_free s ctx)
    c ← get_conn
    put_conn (record c { ctx = none })

  unfoldable pub disconnect_socket : Option ℕ → T (Unit {0})
  disconnect_socket none = done
  disconnect_socket (some fd) = do
    release (descriptor fd) (λ s. p.close s fd)
    c ← get_conn
    put_conn (record c { socket_fd = none })

  -- The destructor only calls it.
  unfoldable pub disconnect : T (Unit {0})
  unfolding disconnect_ssl disconnect_ctx disconnect_socket
  disconnect = do
    c ← get_conn
    disconnect_ssl c.ssl
    disconnect_ctx c.ctx
    disconnect_socket c.socket_fd
    c' ← get_conn
    put_conn (record c' { connected = false })

  unfoldable pub is_connected : T Bool
  is_connected = do c ← get_conn; pure c.connected

  abbrev is_whole : Sent → ℕ → Bool
  is_whole (sent n) m = n == m
  is_whole send_failed m = false

  unfoldable pub send_line : Text → T Bool
  send_line line = do
    c ← get_conn
    if not c.connected
        then pure false
        else match_option c.ssl crash λ ssl. do
          let full_line = line ++ b'\n' ∷ []
          written ← using (session ssl) (λ s. p.ssl_write s ssl full_line)
          pure (is_whole written (length full_line))
