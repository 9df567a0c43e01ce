-- ===== src/Tests/LineCases.antt =====
-- The theorems about connections, the event loop and the configuration at the worlds of `Demo`.
use compute_market.World.{World, ConnectionType, Timeout, ok, and_then, emit, pool_state}
use compute_market.Base.{
  subst, false, some, ◌⊎◌, inl, inr, ℕ, ◌-◌, ◌≤◌, ◌≡◌, refl, true, List, [], ◌∷◌, ◌++◌, arith, All,
  Any,
}
use compute_market.EventLoop.Poll.{cleanup_closed, process_event}
use compute_market.Platform.{PollFd}
use compute_market.PoolManager.Shares.{tracked}
use compute_market.PoolManager.Traffic.{submit_share}
use compute_market.Proxy.{connection_callbacks}
use compute_market.Proxy.LostShares.{hangup-submit_share}
use compute_market.EventLoop.Ownership.{IsOwner, Cleaned, cleanup_closed-Cleaned}
use compute_market.Base.Text.{Text, text, to_string}
use compute_market.EventLoop.Timers.{idle_poll_ms, poll_timeout}
use compute_market.Config.{parse_host_port}
use compute_market.Config.Address.{parse_host_port-append}
use compute_market.Base.Table.{find}
use compute_market.Outcome.{Returns, Quiet}
use compute_market.Connection.Framing.{strip_cr}
use compute_market.Connection.Lines.{join_lines, with_rest, frames}
use compute_market.Connection.Delivery.{
  deliver, process_read_buffer-deliver, process_read_buffer-join_lines,
}
use compute_market.Connection.State.{MessageCallback}
use compute_market.Connection.Io.{process_read_buffer, send_line}
use compute_market.Connection.Sending.{written, send_line-Quiet}
use compute_market.EventLoop.Waiting.{poll_timeout-remaining}
use compute_market.Tests.Demo.{demo, mining, first_pool, open_connection_at}

abbrev two_lines : Text
two_lines = b'a' ∷ b'b' ∷ b'\r' ∷ b'\n' ∷ b'c' ∷ b'\n' ∷ b'd' ∷ []

abbrev note : MessageCallback ⦃p = demo⦄
note line = emit ⦃p = demo⦄ (pool_state line true)

process_read_buffer-deliver_example :
    process_read_buffer ⦃p = demo⦄ 9 note 0 two_lines
    ≡ deliver ⦃p = demo⦄ note 0 (frames [] two_lines)
process_read_buffer-deliver_example =
    process_read_buffer-deliver ⦃p = demo⦄ 9 note 0 two_lines (omega arith)

abbrev sent_lines : List Text
sent_lines = (b'a' ∷ b'b' ∷ []) ∷ (b'c' ∷ []) ∷ []

process_read_buffer-join_lines_example :
    process_read_buffer ⦃p = demo⦄ 9 note 0 (join_lines sent_lines)
    ≡ deliver ⦃p = demo⦄ note 0 (with_rest sent_lines)
unfolding join_lines strip_cr
process_read_buffer-join_lines_example =
    process_read_buffer-join_lines ⦃p = demo⦄ 9 note 0 sent_lines
      ((((λ e. cc), ((λ e. cc), tt)), refl), ((((λ e. cc), tt), refl), tt)) (omega arith)

send_line-Quiet_example :
    Returns ⦃p = demo⦄
      (λ sent w'.
        Quiet ⦃p = demo⦄ mining w'
        × (w'.trace ≡ [] ++ written (open_connection_at 7 ConnectionType.pool) (text "{}")))
      (send_line ⦃p = demo⦄ 0 (text "{}") mining)
unfolding find
send_line-Quiet_example =
    send_line-Quiet ⦃p = demo⦄ 0 (text "{}") (open_connection_at 7 ConnectionType.pool) mining refl

abbrev timers : List Timeout
timers = mining.loop.timeouts

poll_timeout-remaining_example :
    (poll_timeout 200 timers ≤ idle_poll_ms)
    × All (λ t. poll_timeout 200 timers ≤ t.next_fire_ms - 200) timers
    × ((poll_timeout 200 timers ≡ idle_poll_ms)
        ⊎ Any (λ t. poll_timeout 200 timers ≡ t.next_fire_ms - 200) timers)
poll_timeout-remaining_example = poll_timeout-remaining 200 timers

parse_host_port-append_example :
    (parse_host_port ((b'a' ∷ b'b' ∷ []) ++ b':' ∷ to_string 3334) 0 ≡ (b'a' ∷ b'b' ∷ [], 3334))
    × (parse_host_port (b'a' ∷ b'b' ∷ []) 0 ≡ (b'a' ∷ b'b' ∷ [], 3333))
parse_host_port-append_example =
    parse_host_port-append (b'a' ∷ b'b' ∷ []) 3334 0 ((λ e. cc), ((λ e. cc), tt)) (omega arith)

-- The same proxy when the connection of the worker is marked for closing.
abbrev marked : World ⦃p = demo⦄
marked = record mining {
  heap =
      (0, open_connection_at 7 ConnectionType.pool)
      ∷ (1, record (open_connection_at 8 ConnectionType.worker) { should_close = true })
      ∷ [];
}

entry_cases :
    (fd a : ℕ)
    → find fd ((7, 0) ∷ (8, 1) ∷ []) ≡ some a
    → ((7 ≡ fd) × (0 ≡ a)) ⊎ ((8 ≡ fd) × (1 ≡ a))
unfolding find
entry_cases fd a h = ground arith

marked-IsOwner : IsOwner ⦃p = demo⦄ marked
unfolding find
marked-IsOwner fd a h = elim (entry_cases fd a h) [
  | inl e ↦ (
    open_connection_at 7 ConnectionType.pool,
    subst (λ n. find n marked.heap ≡ some (open_connection_at 7 ConnectionType.pool)) e.1 refl,
    e.0,
  )
  | inr e ↦ (
    record (open_connection_at 8 ConnectionType.worker) { should_close = true },
    subst
        (λ n.
          find n marked.heap
          ≡ some (record (open_connection_at 8 ConnectionType.worker) { should_close = true }))
        e.1 refl,
    e.0,
  )
]

cleanup_closed-Cleaned_example :
    Returns ⦃p = demo⦄
      (λ _. Cleaned ⦃p = demo⦄ marked.loop.connections marked)
      (cleanup_closed ⦃p = demo⦄ marked)
cleanup_closed-Cleaned_example =
    cleanup_closed-Cleaned ⦃p = demo⦄ marked marked-IsOwner (((λ e. cc), tt), (tt, tt))

mining-IsOwner : IsOwner ⦃p = demo⦄ mining
unfolding find
mining-IsOwner fd a h = elim (entry_cases fd a h) [
  | inl e ↦ (
    open_connection_at 7 ConnectionType.pool,
    subst (λ n. find n mining.heap ≡ some (open_connection_at 7 ConnectionType.pool)) e.1 refl,
    e.0,
  )
  | inr e ↦ (
    open_connection_at 8 ConnectionType.worker,
    subst (λ n. find n mining.heap ≡ some (open_connection_at 8 ConnectionType.worker)) e.1 refl,
    e.0,
  )
]

abbrev pool_hangup : PollFd
pool_hangup = record { fd = 7; pollin = false; pollout = false; pollerr = false; pollhup = true }

hangup-submit_share_example :
    Returns ⦃p = demo⦄
      (λ _ v.
        submit_share ⦃p = demo⦄ (text "rig") (text "j1") (text "00ff") (text "beef") v
        ≡ ok tt (record v { pool_manager = tracked mining.pool_manager (text "rig") }))
      (and_then ⦃p = demo⦄
        (process_event ⦃p = demo⦄ (connection_callbacks ⦃p = demo⦄) pool_hangup mining)
        (λ _. cleanup_closed ⦃p = demo⦄))
unfolding find
hangup-submit_share_example =
    hangup-submit_share ⦃p = demo⦄ (connection_callbacks ⦃p = demo⦄) pool_hangup 0 (text "rig")
      (text "j1") (text "00ff") (text "beef") first_pool mining refl refl mining-IsOwner
      (((λ e. cc), tt), (tt, tt)) refl refl refl (omega arith) refl
