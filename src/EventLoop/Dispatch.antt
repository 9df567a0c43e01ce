-- ===== src/EventLoop/Dispatch.antt =====
-- gpu-proxy-cpp/src/event_loop.cpp: `poll_and_process` keeps what the connections' callbacks keep.
use compute_market.Base.{ℕ, ◌||◌, ◌*◌, List, [], ◌∷◌, Option, none, some, if◌then◌else◌}
use compute_market.Base.Text.{Text}
use compute_market.Base.Table.{Table}
use compute_market.Platform.{Platform, PollFd, PollResult, poll_failed, poll_timed_out, poll_ready}
use compute_market.World.{ConnectionState, EventLoop, ◌>>=◌, ◌>>◌, done, when, os_run, os_call}
use compute_market.Preserve.{
  Invariant, Preserves, keeping, keep_bind, keep_then, keep_done, keep_pure, keep_if, keep_when,
  keep_load, keep_get_loop, keep_os_run, keep_os_call,
}
use compute_market.Connection.State.{mark_for_closing}
use compute_market.Connection.Keeps.{keep_destroy}
use compute_market.Connection.Callbacks.{
  keep_mark_for_closing, keep_set_state_cb, keep_perform_tls_handshake, keep_read_data,
}
use compute_market.EventLoop.Keeps.{keep_get_connection}
use compute_market.EventLoop.Poll.{
  ConnectionCallbacks, read_or_close, handshake_then_read, handle_read_event, finish_connect,
  handle_write_event, process_event, process_events, close_one, close_if_marked, close_marked,
  cleanup_closed, build_pfds, after_poll, poll_and_process,
}

module _ ⦃p : Platform⦄ {J : Invariant} where
  keep_close_one : (fd a : ℕ) → Preserves J (close_one fd a)
  unfolding close_one
  keep_close_one fd a = search (keeping, keep_destroy) depth 9

  keep_close_if_marked : (fd a : ℕ) → Preserves J (close_if_marked fd a)
  unfolding close_if_marked
  keep_close_if_marked fd a = search (keeping, keep_close_one) depth 9

  keep_close_marked : (t : Table ℕ) → Preserves J (close_marked t)
  unfolding close_marked
  keep_close_marked [] = keep_done
  keep_close_marked ((fd, a) ∷ rest) =
      keep_then (keep_close_if_marked fd a) (keep_close_marked rest)

  keep_cleanup_closed : Preserves J cleanup_closed
  unfolding cleanup_closed
  keep_cleanup_closed = keep_bind keep_get_loop (λ l. keep_close_marked l.connections)

  keep_build_pfds : (t : Table ℕ) → Preserves J (build_pfds t)
  unfolding build_pfds
  keep_build_pfds [] = keep_pure []
  keep_build_pfds ((fd, a) ∷ rest) =
      keep_bind (keep_load a) λ c. keep_bind (keep_build_pfds rest) λ pfds. keep_pure _

module _ ⦃p : Platform⦄ {J : Invariant} (cbs : ConnectionCallbacks)
    (tame_state : (a : ℕ) (s : ConnectionState) → Preserves J (cbs.on_state a s))
    (tame_message : (a : ℕ) (line : Text) → Preserves J (cbs.on_message a line)) where
  keep_read_or_close : (a : ℕ) → Preserves J (read_or_close cbs a)
  unfolding read_or_close
  keep_read_or_close a =
      search (keeping, keep_read_data (cbs.on_message a) (tame_message a), keep_mark_for_closing)
        depth 9

  keep_handshake_then_read : (a : ℕ) → Preserves J (handshake_then_read cbs a)
  unfolding handshake_then_read
  keep_handshake_then_read a =
      search
        (keeping, keep_perform_tls_handshake (cbs.on_state a) (tame_state a), keep_read_or_close)
        depth 9

  keep_handle_read_event : (a : ℕ) → Preserves J (handle_read_event cbs a)
  unfolding handle_read_event
  keep_handle_read_event a = search (keeping, keep_handshake_then_read, keep_read_or_close) depth 9

  keep_finish_connect : (a : ℕ) → Preserves J (finish_connect cbs a)
  unfolding finish_connect
  keep_finish_connect a =
      search (keeping, keep_set_state_cb (cbs.on_state a) (tame_state a), keep_mark_for_closing)
        depth 12

  keep_handle_write_event : (a : ℕ) → Preserves J (handle_write_event cbs a)
  unfolding handle_write_event
  keep_handle_write_event a =
      search (keeping, keep_finish_connect, keep_handshake_then_read) depth 12

  keep_process_event : (pfd : PollFd) → Preserves J (process_event cbs pfd)
  unfolding process_event
  keep_process_event pfd = keep_bind (keep_get_connection pfd.fd) found
    where
      found :
          (conn : Option ℕ)
          → Preserves J (elim conn [
            | none ↦ done
            | some a ↦
                if pfd.pollerr || pfd.pollhup
                then mark_for_closing a
                else (when pfd.pollout (handle_write_event cbs a)
                    >> when pfd.pollin (handle_read_event cbs a))
          ])
      found none = keep_done
      found (some a) = keep_if _ (keep_mark_for_closing a) (
          keep_then (keep_when _ (keep_handle_write_event a))
            (keep_when _ (keep_handle_read_event a)))

  keep_process_events : (pfds : List PollFd) → Preserves J (process_events cbs pfds)
  unfolding process_events
  keep_process_events [] = keep_done
  keep_process_events (pfd ∷ rest) = keep_then (keep_process_event pfd) (keep_process_events rest)

  keep_after_poll : (r : PollResult) → Preserves J (after_poll cbs r)
  unfolding after_poll
  keep_after_poll poll_failed = keep_done
  keep_after_poll poll_timed_out = keep_done
  keep_after_poll (poll_ready pfds) = keep_then (keep_process_events pfds) keep_cleanup_closed

  pub keep_poll_and_process : (timeout_ms : ℕ) → Preserves J (poll_and_process cbs timeout_ms)
  unfolding poll_and_process
  keep_poll_and_process timeout_ms = keep_bind keep_get_loop (λ l. polled l l.connections)
    where
      polled :
          (l : EventLoop) (t : Table ℕ)
          → Preserves J (elim t [
            | [] ↦ os_run (λ s. p.usleep s (timeout_ms * 1000))
            | c ∷ cs ↦ build_pfds l.connections >>= λ pfds.
                os_call (λ s. p.poll s pfds timeout_ms) >>= λ result. after_poll cbs result
          ])
      polled l [] = keep_os_run _
      polled l (c ∷ cs) =
          keep_bind (keep_build_pfds l.connections)
            λ pfds. keep_bind (keep_os_call _) λ result. keep_after_poll result
