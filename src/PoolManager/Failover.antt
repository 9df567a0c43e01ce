-- ===== src/PoolManager/Failover.antt =====
-- gpu-proxy-cpp/src/pool_manager.cpp: what a lost connection leads to, and what it does not when no host
-- can be resolved.
use compute_market.Base.{
  ℕ, suc, ◌≡◌, refl, ap, ◌∙◌, ◌<◌, ◌≤◌, ◌+◌, ◌%◌, ◌⊎◌, inl, inr, true, false, List, [], ◌∷◌, ◌++◌,
  none, some, length, arith, drop, ltb, ◌==◌, if◌then◌else◌, Bool-cases, Option-cases,
}
use compute_market.Base.Text.{Text, text}
use compute_market.Platform.{Platform}
use compute_market.World.{
  ConnectionState, disconnected, error, PoolConfig, PoolManager, Timeout, reconnect, World, ok,
  and_then, match_option, done, pool_state, emit,
}
use compute_market.Outcome.{Returns, returns, Returns-mono}
use compute_market.Connection.Connect.{connect_to_pool, with_socket, connect_socket, abandon}
use compute_market.EventLoop.Tables.{now_ms, add64, set_timeout}
use compute_market.PoolManager.Messages.{max_reconnect_attempts, reconnect_delay_ms}
use compute_market.PoolManager.Link.{PoolCallbacks, try_pools, try_connect_pool}
use compute_market.PoolManager.States.{
  next_pool_index, schedule_reconnect, on_connection_lost, on_pool_state,
}

-- The states that lose the connection.
abbrev pub IsLost : ConnectionState → Type 0
IsLost s = (s ≡ error) ⊎ (s ≡ disconnected)

abbrev pub lost : PoolManager → PoolManager
lost m = record m { connected = false; authenticated = false; subscribed = false; has_job = false }

-- The pools from `i` on have been tried in vain.
unfoldable pub tried : ℕ → List PoolConfig → PoolManager → PoolManager
tried i [] m = m
tried i (pool ∷ rest) m =
    tried (suc i) rest (record m { current_pool_index = i; current_pool = pool.name })

tried-pool_conn :
    (i : ℕ) (pools : List PoolConfig) (m : PoolManager) → (tried i pools m).pool_conn ≡ m.pool_conn
unfolding tried
tried-pool_conn i [] m = refl
tried-pool_conn i (pool ∷ rest) m = tried-pool_conn (suc i) rest _

module _ ⦃p : Platform⦄ where
  -- The callback for the state only prints.
  abbrev pub IsPrinting : PoolCallbacks → Type 0
  IsPrinting cbs = cbs.state_cb ≡ some (λ name up. emit (pool_state name up))

  -- One attempt in vain: a socket is made, the host is looked up, and the socket is closed.
  unfoldable pub attempt : Text → p.S → p.S
  attempt host s =
      let (made, s1) = p.socket s in
      elim made [
        | none ↦ s1
        | some fd ↦
            let (nonblocking, s2) = p.set_nonblocking s1 fd in
            if nonblocking then p.close (p.get_addr_info s2 host).1 fd else p.close s2 fd
      ]

  -- One for each pool, in order.
  unfoldable pub attempts : List PoolConfig → p.S → p.S
  attempts [] s = s
  attempts (pool ∷ rest) s = attempts rest (attempt pool.host s)

  module _ (unresolved : (s : p.S) (host : Text) → (p.get_addr_info s host).0 ≡ none) where
    connect_to_pool-unresolved :
        (host : Text) (port : ℕ) (name : Text) (w : World)
        → connect_to_pool host port name w ≡ ok none (record w { os = attempt host w.os })
    unfolding connect_to_pool with_socket connect_socket abandon attempt
    connect_to_pool-unresolved host port name w = elim (Option-cases (p.socket w.os).0) [
      | inl e ↦ rw (e, connect_to_pool, with_socket, attempt)
      | inr (fd, e) ↦ elim (Bool-cases (p.set_nonblocking (p.socket w.os).1 fd).0) [
        | inl n ↦ rw (
          e,
          connect_to_pool,
          with_socket,
          n,
          unresolved (p.set_nonblocking (p.socket w.os).1 fd).1 host,
          connect_socket,
          attempt,
        )
        | inr n ↦ rw (e, connect_to_pool, with_socket, n, attempt)
      ]
    ]

    -- All pools from `i` on are tried once, and that is all.
    try_pools-unresolved :
        (i : ℕ) (pools : List PoolConfig) (w : World)
        → Returns
            (λ _ w'.
              (w'.pool_manager ≡ tried i pools w.pool_manager)
              × (w'.loop ≡ w.loop)
              × (w'.heap ≡ w.heap)
              × (w'.worker_manager ≡ w.worker_manager)
              × (w'.trace ≡ w.trace)
              × (w'.os ≡ attempts pools w.os))
            (try_pools i pools w)
    unfolding try_pools tried attempts
    try_pools-unresolved i [] w = returns (refl, refl, refl, refl, refl, refl)
    try_pools-unresolved i (pool ∷ rest) w =
        rw (connect_to_pool-unresolved pool.host pool.port (text "pool:" ++ pool.name) _)
          (try_pools-unresolved (suc i) rest _)

  on_pool_state_lost :
      (cbs : PoolCallbacks) (s : ConnectionState)
      → IsLost s
      → on_pool_state cbs s ≡ on_connection_lost cbs
  unfolding on_pool_state
  on_pool_state_lost cbs s (inl e) = ap (on_pool_state cbs) e
  on_pool_state_lost cbs s (inr e) = ap (on_pool_state cbs) e

  -- The world in which the reconnection is scheduled.
  abbrev told : World → World
  told w = record w {
    pool_manager = lost w.pool_manager;
    trace = w.trace ++ pool_state w.pool_manager.current_pool false ∷ [];
  }

  on_connection_lost-told :
      (cbs : PoolCallbacks) (w : World)
      → IsPrinting cbs
      → on_connection_lost cbs w ≡ schedule_reconnect (told w)
  unfolding on_connection_lost
  on_connection_lost-told cbs w e =
      ap
        (λ o.
          and_then
            (match_option o done (λ f. f w.pool_manager.current_pool false)
              (record w { pool_manager = lost w.pool_manager }))
            (λ _. schedule_reconnect))
        e

  lost-schedules :
      (cbs : PoolCallbacks) (s : ConnectionState) (w : World)
      → IsLost s
      → IsPrinting cbs
      → on_pool_state cbs s w ≡ schedule_reconnect (told w)
  lost-schedules cbs s w l e =
      ap (λ f. f w) (on_pool_state_lost cbs s l) ∙ on_connection_lost-told cbs w e

  abbrev pub reconnect_timer : ℕ → Timeout
  reconnect_timer now = record {
    next_fire_ms = add64 now reconnect_delay_ms;
    interval_ms = reconnect_delay_ms;
    callback = reconnect;
    recurring = false;
  }

  -- The first five losses in a row count up and set one timer, which tries the same pool after the
  -- delay; nothing else of the managers and the loop changes.
  pub on_pool_state-retries :
      (cbs : PoolCallbacks) (s : ConnectionState) (w : World)
      → IsLost s
      → IsPrinting cbs
      → w.pool_manager.reconnect_attempts < max_reconnect_attempts
      → Returns
          (λ _ w'.
            (w'.pool_manager ≡ record (lost w.pool_manager) {
              reconnect_attempts = w.pool_manager.reconnect_attempts + 1;
            })
            × (w'.loop ≡ record w.loop {
              timeouts = w.loop.timeouts ++ reconnect_timer (now_ms w.os).0 ∷ [];
            })
            × (w'.worker_manager ≡ w.worker_manager))
          (on_pool_state cbs s w)
  on_pool_state-retries cbs s w l e below = rw (lost-schedules cbs s w l e) (
      let b : ltb w.pool_manager.reconnect_attempts max_reconnect_attempts ≡ true = ground arith in
      unfold schedule_reconnect set_timeout in rw b (returns (refl, refl, refl)))

  -- The next loss goes to the pools after the current one, round the list. If no host can be resolved,
  -- each of them up to the end of the list is tried once, in order: the system has seen one attempt for
  -- each and nothing else. Then the proxy has no pool, no timer is set to try again, and the connection
  -- that it points to is the one that it has lost.
  pub on_pool_state-gives_up :
      (cbs : PoolCallbacks) (s : ConnectionState) (w : World)
      → ((os : p.S) (host : Text) → (p.get_addr_info os host).0 ≡ none)
      → IsLost s
      → IsPrinting cbs
      → max_reconnect_attempts ≤ w.pool_manager.reconnect_attempts
      → 0 < length w.pool_manager.pools
      → Returns
          (λ _ w'.
            (w'.pool_manager
              ≡ tried
                  ((w.pool_manager.current_pool_index + 1) % length w.pool_manager.pools)
                  (drop
                    ((w.pool_manager.current_pool_index + 1) % length w.pool_manager.pools)
                    w.pool_manager.pools)
                  (record (lost w.pool_manager) { reconnect_attempts = 0 }))
            × (w'.pool_manager.pool_conn ≡ w.pool_manager.pool_conn)
            × (w'.os
                ≡ attempts
                    (drop
                      ((w.pool_manager.current_pool_index + 1) % length w.pool_manager.pools)
                      w.pool_manager.pools)
                    w.os)
            × (w'.loop ≡ w.loop)
            × (w'.worker_manager ≡ w.worker_manager))
          (on_pool_state cbs s w)
  on_pool_state-gives_up cbs s w unresolved l e above some_pool = rw (lost-schedules cbs s w l e) (
      let b : ltb w.pool_manager.reconnect_attempts max_reconnect_attempts ≡ false = ground arith in
      let n : (length w.pool_manager.pools == 0) ≡ false = ground arith in
      unfold schedule_reconnect next_pool_index try_connect_pool in
      rw (b, n)
        (Returns-mono
          (try_pools-unresolved unresolved
            ((w.pool_manager.current_pool_index + 1) % length w.pool_manager.pools)
            (drop ((w.pool_manager.current_pool_index + 1) % length w.pool_manager.pools)
              w.pool_manager.pools)
            _)
          (λ u w' q. (q.0, ap (λ m. m.pool_conn) q.0 ∙ tried-pool_conn _ _ _, q.5, q.1, q.3))))
