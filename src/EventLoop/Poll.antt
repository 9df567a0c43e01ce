-- ===== src/EventLoop/Poll.antt =====
-- gpu-proxy-cpp/src/event_loop.cpp: `poll_and_process` with the handlers of the events, and
-- `cleanup_closed`.
use compute_market.Base.{
  ℕ, ◌*◌, Bool, true, false, ◌||◌, not, List, [], ◌∷◌, none, some, ◌==◌, if◌then◌else◌,
}
use compute_market.Base.Table.{Table, erase}
use compute_market.Platform.{Platform, PollFd, PollResult, poll_failed, poll_timed_out, poll_ready}
use compute_market.World.{
  match_option, Connection, connecting, connected, M, ◌>>=◌, ◌>>◌, pure, done, os_call, os_run,
  when, load, get_loop, put_loop,
}
use compute_market.Connection.{
  rank, is_connected, is_pool, tls_handshake_pending, tls_waiting_for_read, tls_waiting_for_write,
  StateCallback, MessageCallback, set_state, destroy, mark_for_closing, perform_tls_handshake,
  read_data,
}
use compute_market.EventLoop.Tables.{get_connection}

-- `pfd.events` of a connection; POLLERR and POLLHUP are always asked for.
unfoldable pub requested_events : ℕ → Connection → PollFd
requested_events fd c =
    if tls_handshake_pending c
    then (if tls_waiting_for_write c
        then events false true
        else if tls_waiting_for_read c
        then events true false
        else events true true)
    else if rank c.state == rank connecting
    then events false true
    else if is_connected c
    then events true false
    else events false false
  where
    events : Bool → Bool → PollFd
    events i o = record { fd = fd; pollin = i; pollout = o; pollerr = true; pollhup = true }

module _ ⦃p : Platform⦄ where
  -- The callbacks of the connection at an address.
  pub record ConnectionCallbacks : Type 0 where
    pub on_state : ℕ → StateCallback
    pub on_message : ℕ → MessageCallback

  unfoldable pub read_or_close : ConnectionCallbacks → ℕ → M (Unit {0})
  read_or_close cbs a = do
    n ← read_data (cbs.on_message a) a
    match_option n (mark_for_closing a) λ k. done

  -- `if (conn->continue_tls_handshake()) { … read_data … }`
  unfoldable pub handshake_then_read : ConnectionCallbacks → ℕ → M (Unit {0})
  handshake_then_read cbs a = do
    complete ← perform_tls_handshake (cbs.on_state a) a
    when complete (read_or_close cbs a)

  unfoldable pub handle_read_event : ConnectionCallbacks → ℕ → M (Unit {0})
  handle_read_event cbs a = do
    c ← load a
    if tls_handshake_pending c then handshake_then_read cbs a else read_or_close cbs a

  -- A non-blocking connect has completed.
  unfoldable pub finish_connect : ConnectionCallbacks → ℕ → M (Unit {0})
  finish_connect cbs a = do
    c ← load a
    result ← os_call (λ s. (p.socket_error s c.fd, s))
    match_option result done λ err.
        if err == 0
        then when (not (is_pool c.type)) (set_state (cbs.on_state a) a connected)
        else mark_for_closing a

  unfoldable pub handle_write_event : ConnectionCallbacks → ℕ → M (Unit {0})
  handle_write_event cbs a = do
    c ← load a
    when (rank c.state == rank connecting) (finish_connect cbs a)
    c' ← load a
    when (tls_handshake_pending c') (handshake_then_read cbs a)

  unfoldable pub process_event : ConnectionCallbacks → PollFd → M (Unit {0})
  process_event cbs pfd = do
    conn ← get_connection pfd.fd
    elim conn [
      | none ↦ done
      | some a ↦ if pfd.pollerr || pfd.pollhup then mark_for_closing a else do
        when pfd.pollout (handle_write_event cbs a)
        when pfd.pollin (handle_read_event cbs a)
    ]

  unfoldable pub process_events : ConnectionCallbacks → List PollFd → M (Unit {0})
  process_events cbs [] = done
  process_events cbs (pfd ∷ rest) = do process_event cbs pfd; process_events cbs rest

  unfoldable pub close_one : ℕ → ℕ → M (Unit {0})
  close_one fd a = do
    l ← get_loop
    put_loop (record l { connections = erase fd l.connections })
    destroy a

  unfoldable pub close_if_marked : ℕ → ℕ → M (Unit {0})
  close_if_marked fd a = do c ← load a; when c.should_close (close_one fd a)

  unfoldable pub close_marked : Table ℕ → M (Unit {0})
  close_marked [] = done
  close_marked ((fd, a) ∷ rest) = do close_if_marked fd a; close_marked rest

  unfoldable pub cleanup_closed : M (Unit {0})
  cleanup_closed = do l ← get_loop; close_marked l.connections

  unfoldable pub build_pfds : Table ℕ → M (List PollFd)
  build_pfds [] = pure []
  build_pfds ((fd, a) ∷ rest) = do
    c ← load a
    pfds ← build_pfds rest
    pure (requested_events fd c ∷ pfds)

  unfoldable pub after_poll : ConnectionCallbacks → PollResult → M (Unit {0})
  after_poll cbs poll_failed = done
  after_poll cbs poll_timed_out = done
  after_poll cbs (poll_ready pfds) = do process_events cbs pfds; cleanup_closed

  unfoldable pub poll_and_process : ConnectionCallbacks → ℕ → M (Unit {0})
  unfolding after_poll
  poll_and_process cbs timeout_ms = do
    l ← get_loop
    elim l.connections [
      | [] ↦ os_run (λ s. p.usleep s (timeout_ms * 1000))
      | c ∷ cs ↦ do
        pfds ← build_pfds l.connections
        result ← os_call (λ s. p.poll s pfds timeout_ms)
        after_poll cbs result
    ]
