-- ===== src/Owned/Loop.antt =====
-- gpu-proxy-cpp/src/event_loop.cpp: the loop keeps the connections owned while it handles events and
-- timeouts.
use compute_market.Base.{
  ℕ, zero, suc, ◌||◌, ◌&&◌, not, ◌*◌, true, false, Bool, List, [], ◌∷◌, Option, none, some, inl,
  inr, if◌then◌else◌, Bool-cases, ◌==◌, length, get_elem?,
}
use compute_market.Base.Text.{Text}
use compute_market.Base.Table.{Table}
use compute_market.Platform.{Platform, PollFd, PollResult, poll_failed, poll_timed_out, poll_ready}
use compute_market.World.{
  ConnectionState, EventLoop, Timeout, TimeoutCallback, M, ◌>>=◌, ◌>>◌, done, pure, when, os_run,
  os_call,
}
use compute_market.Outcome.{ends_ok, ends_faults}
use compute_market.Connection.State.{mark_for_closing}
use compute_market.EventLoop.Tables.{now_ms, get_connection, set_timeout}
use compute_market.EventLoop.Timers.{
  idle_poll_ms, poll_timeout, after_fire, fire_timeouts, check_timeouts,
}
use compute_market.EventLoop.Poll.{
  ConnectionCallbacks, read_or_close, handshake_then_read, handle_read_event, finish_connect,
  handle_write_event, process_event, process_events, build_pfds, after_poll, poll_and_process,
}
use compute_market.EventLoop.Run.{next_poll, run_once, run_rounds, run}
use compute_market.Owned.{Keeps}
use compute_market.Owned.Tables.{forget}
use compute_market.Owned.Rules.{
  owning, own_bind, own_then, own_done, own_pure, own_if, own_when, own_load, own_option,
  own_get_loop, own_os_run, own_os_call, own_any,
}
use compute_market.Owned.Connections.{own_mark}
use compute_market.Owned.Callbacks.{own_set_state_cb, own_perform_tls_handshake, own_read_data}
use compute_market.Owned.Closing.{own_cleanup_closed}

module _ ⦃p : Platform⦄ {held : Option ℕ} {facts : Table ℕ} where
  pub own_get_connection : (fd : ℕ) → Keeps held facts (get_connection fd)
  unfolding get_connection
  own_get_connection fd = record { apply = λ w o. ends_ok (forget o) }

  pub own_set_timeout :
      (ms : ℕ) (cb : TimeoutCallback) (recurring : Bool)
      → Keeps held facts (set_timeout ms cb recurring)
  unfolding set_timeout
  own_set_timeout ms cb recurring = record { apply = λ w o. ends_ok (forget o) }

module _ ⦃p : Platform⦄ where
  own_build_pfds : (t : Table ℕ) → Keeps none [] (build_pfds t)
  unfolding build_pfds
  own_build_pfds [] = own_pure []
  own_build_pfds ((fd, a) ∷ rest) =
      own_load a λ c. own_bind (own_any (own_build_pfds rest)) λ pfds. own_pure _

  own_next_poll : Keeps none [] next_poll
  unfolding next_poll
  own_next_poll = own_bind own_get_loop (λ l. waits l l.timeouts)
    where
      waits :
          (l : EventLoop) (ts : List Timeout)
          → Keeps none [] (elim ts [
            | [] ↦ pure idle_poll_ms
            | t ∷ rest ↦ os_call now_ms >>= λ now. pure (poll_timeout now l.timeouts)
          ])
      waits l [] = own_pure _
      waits l (t ∷ rest) =
          own_bind (own_os_call now_ms) (λ now. own_pure (poll_timeout now l.timeouts))

  own_after_fire : (size now i : ℕ) (t : Timeout) → Keeps none [] (after_fire size now i t)
  unfolding after_fire
  own_after_fire size now i t = record {
    apply = λ w o. elim (Bool-cases (not (length w.loop.timeouts == size) && p.vector_moved w.os)) [
      | inl lost ↦ rw (lost, after_fire) ends_faults
      | inr kept ↦ elim (Bool-cases t.recurring) [
        | inl again ↦ rw (kept, after_fire, again) (ends_ok o)
        | inr once ↦ rw (kept, after_fire, once) (ends_ok o)
      ]
    ];
  }

module _ ⦃p : Platform⦄ (cbs : ConnectionCallbacks)
    (tame_state : (a : ℕ) (s : ConnectionState) → Keeps none [] (cbs.on_state a s))
    (tame_message : (a : ℕ) (line : Text) → Keeps none [] (cbs.on_message a line)) where
  own_read_or_close : (a : ℕ) → Keeps none [] (read_or_close cbs a)
  unfolding read_or_close
  own_read_or_close a =
      search (owning, own_read_data (cbs.on_message a) (tame_message a), own_mark) depth 9

  own_handshake_then_read : (a : ℕ) → Keeps none [] (handshake_then_read cbs a)
  unfolding handshake_then_read
  own_handshake_then_read a =
      search (owning, own_perform_tls_handshake (cbs.on_state a) (tame_state a), own_read_or_close)
        depth 9

  own_handle_read_event : (a : ℕ) → Keeps none [] (handle_read_event cbs a)
  unfolding handle_read_event
  own_handle_read_event a = search (owning, own_handshake_then_read, own_read_or_close) depth 9

  own_finish_connect : (a : ℕ) → Keeps none [] (finish_connect cbs a)
  unfolding finish_connect
  own_finish_connect a =
      search (owning, own_set_state_cb (cbs.on_state a) (tame_state a), own_mark) depth 12

  own_handle_write_event : (a : ℕ) → Keeps none [] (handle_write_event cbs a)
  unfolding handle_write_event
  own_handle_write_event a = search (owning, own_finish_connect, own_handshake_then_read) depth 12

  own_process_event : (pfd : PollFd) → Keeps none [] (process_event cbs pfd)
  unfolding process_event
  own_process_event pfd = own_bind (own_get_connection pfd.fd) found
    where
      found :
          (conn : Option ℕ)
          → Keeps none [] (elim conn [
            | none ↦ done
            | some a ↦
                if pfd.pollerr || pfd.pollhup
                then mark_for_closing a
                else (when pfd.pollout (handle_write_event cbs a)
                    >> when pfd.pollin (handle_read_event cbs a))
          ])
      found none = own_done
      found (some a) =
          own_if _ (own_mark a) (
            own_then (own_when _ (own_handle_write_event a)) (own_when _ (own_handle_read_event a)))

  own_process_events : (pfds : List PollFd) → Keeps none [] (process_events cbs pfds)
  unfolding process_events
  own_process_events [] = own_done
  own_process_events (pfd ∷ rest) = own_then (own_process_event pfd) (own_process_events rest)

  own_after_poll : (r : PollResult) → Keeps none [] (after_poll cbs r)
  unfolding after_poll
  own_after_poll poll_failed = own_done
  own_after_poll poll_timed_out = own_done
  own_after_poll (poll_ready pfds) = own_then (own_process_events pfds) own_cleanup_closed

  pub own_poll_and_process : (timeout_ms : ℕ) → Keeps none [] (poll_and_process cbs timeout_ms)
  unfolding poll_and_process
  own_poll_and_process timeout_ms = own_bind own_get_loop (λ l. polled l l.connections)
    where
      polled :
          (l : EventLoop) (t : Table ℕ)
          → Keeps none [] (elim t [
            | [] ↦ os_run (λ s. p.usleep s (timeout_ms * 1000))
            | c ∷ cs ↦ build_pfds l.connections >>= λ pfds.
                os_call (λ s. p.poll s pfds timeout_ms) >>= λ result. after_poll cbs result
          ])
      polled l [] = own_os_run _
      polled l (c ∷ cs) =
          own_bind (own_build_pfds l.connections)
            λ pfds. own_bind (own_os_call _) λ result. own_after_poll result

module _ ⦃p : Platform⦄ (on_timeout : TimeoutCallback → M (Unit {0}))
    (tame : (cb : TimeoutCallback) → Keeps none [] (on_timeout cb)) where
  own_fire_timeouts : (fuel now i : ℕ) → Keeps none [] (fire_timeouts on_timeout fuel now i)
  unfolding fire_timeouts
  own_fire_timeouts zero now i = own_done
  own_fire_timeouts (suc fuel) now i = own_bind own_get_loop λ l.
      own_option (get_elem? l.timeouts i) own_done λ t.
        own_if _
          (own_then (tame t.callback)
            (own_bind (own_after_fire (length l.timeouts) now i t) (own_fire_timeouts fuel now)))
          (own_fire_timeouts fuel now (suc i))

  pub own_check_timeouts : Keeps none [] (check_timeouts on_timeout)
  unfolding check_timeouts
  own_check_timeouts =
      own_bind (own_os_call now_ms)
        λ now. own_bind own_get_loop λ l. own_fire_timeouts (suc (length l.timeouts)) now 0

module _ ⦃p : Platform⦄ (cbs : ConnectionCallbacks) (on_timeout : TimeoutCallback → M (Unit {0}))
    (tame_state : (a : ℕ) (s : ConnectionState) → Keeps none [] (cbs.on_state a s))
    (tame_message : (a : ℕ) (line : Text) → Keeps none [] (cbs.on_message a line))
    (tame : (cb : TimeoutCallback) → Keeps none [] (on_timeout cb)) where
  own_run_once : Keeps none [] (run_once cbs on_timeout)
  unfolding run_once
  own_run_once = own_bind own_next_poll λ ms.
      own_then (own_poll_and_process cbs tame_state tame_message ms)
        (own_then (own_check_timeouts on_timeout tame) (own_bind own_get_loop (λ l. own_pure _)))

  own_run_rounds : (rounds : ℕ) → Keeps none [] (run_rounds cbs on_timeout rounds)
  unfolding run_rounds
  own_run_rounds zero = own_pure false
  own_run_rounds (suc rounds) =
      own_bind own_run_once (λ more. own_if more (own_run_rounds rounds) (own_pure true))

  -- The loop keeps the connections owned, for any number of rounds, if the callbacks do.
  pub own_run : (rounds : ℕ) → Keeps none [] (run cbs on_timeout rounds)
  unfolding run
  own_run rounds = record { apply = λ w o. (own_run_rounds rounds).apply _ o }
