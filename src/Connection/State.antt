-- ===== src/Connection/State.antt =====
-- gpu-proxy-cpp/src/connection.cpp: a connection is made, changes state and is deleted.
use compute_market.Base.{ℕ, suc, Bool, true, false, ◌&&◌, not, [], ◌==◌, leb}
use compute_market.Base.Text.{Text}
use compute_market.Base.Table.{assign, erase}
use compute_market.Platform.{
  Platform, Sent, sent, send_failed, SslError, want_read, want_write, zero_return, other_error,
}
use compute_market.World.{
  Connection, ConnectionState, disconnected, connecting, connected, authenticated, error,
  ConnectionType, ok, M, ◌>>=◌, ◌>>◌, pure, done, os_call, os_run, when, load, store,
}

-- The order of the enumerators.
abbrev pub rank : ConnectionState → ℕ
rank disconnected = 0
rank connecting = 1
rank connected = 2
rank authenticated = 3
rank error = 4

abbrev pub is_connected : Connection → Bool
is_connected c = leb (rank connected) (rank c.state)

abbrev pub is_pool : ConnectionType → Bool
is_pool ConnectionType.pool = true
is_pool ConnectionType.worker = false

unfoldable pub tls_handshake_pending : Connection → Bool
tls_handshake_pending c = c.ssl && not c.tls_handshake_complete

unfoldable pub tls_waiting_for_read : Connection → Bool
unfolding tls_handshake_pending
tls_waiting_for_read c = tls_handshake_pending c && c.tls_want_read

unfoldable pub tls_waiting_for_write : Connection → Bool
unfolding tls_handshake_pending
tls_waiting_for_write c = tls_handshake_pending c && c.tls_want_write

abbrev pub wants_retry : SslError → Bool
wants_retry want_read = true
wants_retry want_write = true
wants_retry zero_return = false
wants_retry other_error = false

-- `sent <= 0`
abbrev pub is_failed : Sent → Bool
is_failed (sent n) = n == 0
is_failed send_failed = true

abbrev pub is_whole : Sent → ℕ → Bool
is_whole (sent n) total = n == total
is_whole send_failed total = false

module _ ⦃p : Platform⦄ where
  abbrev pub StateCallback : Type 0
  StateCallback = ConnectionState → M (Unit {0})

  abbrev pub MessageCallback : Type 0
  MessageCallback = Text → M (Unit {0})

  unfoldable pub set_state : StateCallback → ℕ → ConnectionState → M (Unit {0})
  set_state cb a s = do
    c ← load a
    when (not (rank c.state == rank s))
        do store a (record c { state = s }); when c.has_callbacks (cb s)

  abbrev pub no_callback : StateCallback
  no_callback s = done

  pub initial_state : ConnectionType → ConnectionState
  initial_state ConnectionType.worker = connected
  initial_state ConnectionType.pool = connecting

  pub blank : ℕ → ConnectionType → Text → Connection
  blank fd type name = record {
    fd = fd;
    type = type;
    name = name;
    state = disconnected;
    read_buffer = [];
    should_close = false;
    has_callbacks = false;
    ssl = false;
    ctx = false;
    sni_hostname = [];
    tls_handshake_complete = false;
    tls_want_read = false;
    tls_want_write = false;
    ssl_fd_attached = false;
  }

  unfoldable pub allocate : Connection → M ℕ
  allocate c w =
      ok w.next_address
        (record w { heap = assign w.next_address c w.heap; next_address = suc w.next_address })

  -- The constructor, with `std::make_unique`. No callback is set yet; a failure to make the socket
  -- non-blocking is only logged.
  unfoldable pub new_connection : ℕ → ConnectionType → Text → M ℕ
  unfolding initial_state blank allocate
  new_connection fd type name = do
    a ← allocate (blank fd type name)
    set_state no_callback a (initial_state type)
    _ ← os_call (λ s. p.set_nonblocking s fd)
    pure a

  unfoldable pub free : ℕ → M (Unit {0})
  free a w = ok tt (record w { heap = erase a w.heap })

  -- The destructor, run when the owner drops the connection.
  unfoldable pub destroy : ℕ → M (Unit {0})
  unfolding free
  destroy a = do
    c ← load a
    when c.ssl (os_run (λ s. p.ssl_shutdown s c.fd))
    os_run (λ s. p.close s c.fd)
    free a

  unfoldable pub mark_for_closing : ℕ → M (Unit {0})
  mark_for_closing a = do c ← load a; store a (record c { should_close = true })
