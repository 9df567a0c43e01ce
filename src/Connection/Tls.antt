-- ===== src/Connection/Tls.antt =====
-- gpu-proxy-cpp/src/connection.cpp: the TLS context and the handshake of a pool connection.
use compute_market.Base.{ℕ, Bool, true, false, ◌||◌, not, if◌then◌else◌}
use compute_market.Base.Text.{Text}
use compute_market.Platform.{Platform, SslError, want_read, want_write, zero_return, other_error}
use compute_market.World.{connected, error, M, ◌>>=◌, ◌>>◌, pure, os_call, load, store}
use compute_market.Connection.State.{is_pool, StateCallback, set_state, mark_for_closing}

module _ ⦃p : Platform⦄ where
  unfoldable pub create_ssl_context : ℕ → M Bool
  create_ssl_context a = do
    c ← load a
    made ← os_call p.ssl_ctx_new
    store a (record c { ctx = made })
    if not made then pure false else do
      ciphers ← os_call p.ssl_ctx_set_cipher_list
      if ciphers then pure true else do store a (record c { ctx = false }); pure false

  unfoldable pub setup_tls : StateCallback → ℕ → Text → M Bool
  setup_tls cb a pool_host = do
    c ← load a
    if not (is_pool c.type) then pure false else do
      store a (record c { sni_hostname = pool_host })
      context ← create_ssl_context a
      if not context then (do set_state cb a error; pure false) else do
        made ← os_call p.ssl_new
        c' ← load a
        store a (record c' { ssl = made })
        if made then pure true else do set_state cb a error; pure false

  -- The first lines of `perform_tls_handshake`: `SSL_set_fd`, once.
  unfoldable pub attach_ssl : StateCallback → ℕ → M Bool
  attach_ssl cb a = do
    c ← load a
    if c.ssl_fd_attached then pure true else do
      set ← os_call (λ s. p.ssl_set_fd s c.fd)
      if set
          then (do store a (record c { ssl_fd_attached = true }); pure true)
          else do set_state cb a error; mark_for_closing a; pure false

  unfoldable pub handshake_failed : StateCallback → ℕ → M Bool
  handshake_failed cb a = do set_state cb a error; mark_for_closing a; pure false

  unfoldable pub after_connect : StateCallback → ℕ → Bool → SslError → M Bool
  unfolding handshake_failed
  after_connect cb a true err = do
    c ← load a
    store a
        (record c { tls_handshake_complete = true; tls_want_read = false; tls_want_write = false })
    set_state cb a connected
    pure true
  after_connect cb a false want_read = do
    c ← load a
    store a (record c { tls_want_read = true })
    pure false
  after_connect cb a false want_write = do
    c ← load a
    store a (record c { tls_want_write = true })
    pure false
  after_connect cb a false zero_return = handshake_failed cb a
  after_connect cb a false other_error = handshake_failed cb a

  -- From the reset of the flags on.
  unfoldable pub connect_ssl : StateCallback → ℕ → M Bool
  unfolding after_connect
  connect_ssl cb a = do
    c ← load a
    store a (record c { tls_want_read = false; tls_want_write = false })
    ret ← os_call (λ s. p.ssl_connect s c.fd)
    err ← os_call (λ s. (p.ssl_get_error s c.fd, s))
    after_connect cb a ret err

  unfoldable pub perform_tls_handshake : StateCallback → ℕ → M Bool
  unfolding connect_ssl
  perform_tls_handshake cb a = do
    c ← load a
    if not c.ssl || c.tls_handshake_complete
        then pure c.tls_handshake_complete
        else do attached ← attach_ssl cb a; if not attached then pure false else connect_ssl cb a
