-- ===== src/PoolManager/Shares.antt =====
-- gpu-proxy-cpp/src/pool_manager.cpp: a share on its way to the pool, and its response on the way back.
use compute_market.Base.{
  ℕ, ◌+◌, ◌<◌, ◌≡◌, refl, ap, ◌∙◌, true, false, [], ◌∷◌, ◌++◌, if◌then◌else◌, Option, none, some,
  ◌==◌, get_elem?, arith, inl, inr, Option-cases,
}
use compute_market.Base.Text.{Text}
use compute_market.Base.Table.{find, assign}
use compute_market.Platform.{Platform}
use compute_market.World.{Connection, EventLoop, Output, wrote, PoolConfig, PoolManager, World, ok}
use compute_market.Outcome.{Returns, returns, Returns-bind, Returns-mono, Quiet}
use compute_market.Connection.Sending.{rejects, send_line-Quiet}
use compute_market.EventLoop.Tables.{get_connection}
use compute_market.PoolManager.Messages.{int_max, submit_message}
use compute_market.PoolManager.Link.{get_next_id, current_config, pool_connection, send_to_pool}
use compute_market.PoolManager.Traffic.{submit_share}

-- A share is sent under the next identifier, which is kept with its worker.
abbrev pub tracked : PoolManager → Text → PoolManager
tracked m worker_id = record m {
  next_id = m.next_id + 1;
  share_to_worker = assign m.next_id worker_id m.share_to_worker;
}

-- The address of the connection that the pool is reached through.
abbrev pub pool_target : PoolManager → EventLoop → Option ℕ
pool_target m l = elim m.pool_conn [
  | none ↦ none
  | some a ↦ elim m.pool_fd [ none ↦ none | some fd ↦ find fd l.connections ]
]

-- What is written to a connection for a message.
abbrev pub line_to : Connection → Text → Output
line_to c msg = wrote c.fd (msg ++ b'\n' ∷ [])

module _ ⦃p : Platform⦄ where
  -- The proxy can submit: it is connected, it has a job, an identifier is left, and its connection is
  -- in the loop's table, alive and ready for writing.
  pub record CanSubmit (w : World) : Type 0 where
    pub up : w.pool_manager.connected ≡ true
    pub working : w.pool_manager.has_job ≡ true
    pub id_left : w.pool_manager.next_id < int_max
    pub config : PoolConfig
    pub configured : get_elem? w.pool_manager.pools w.pool_manager.current_pool_index ≡ some config
    pub address : ℕ
    pub pool : Connection
    pub reached : pool_target w.pool_manager w.loop ≡ some address
    pub alive : find address w.heap ≡ some pool
    pub ready : rejects pool ≡ false

  pool_connection_lem : (w : World) → pool_connection w ≡ ok (pool_target w.pool_manager w.loop) w
  unfolding pool_connection get_connection
  pool_connection_lem w = elim (Option-cases w.pool_manager.pool_conn) [
    | inl e ↦ rw e refl
    | inr (a, e) ↦ elim (Option-cases w.pool_manager.pool_fd) [
      | inl f ↦ rw (e, f) refl
      | inr (fd, f) ↦ rw (e, f) refl
    ]
  ]

  send_to_pool-Returns :
      (msg : Text) (a : ℕ) (c : Connection) (w : World)
      → pool_target w.pool_manager w.loop ≡ some a
      → find a w.heap ≡ some c
      → rejects c ≡ false
      → Returns
          (λ _ w'. Quiet w w' × (w'.trace ≡ w.trace ++ line_to c msg ∷ []))
          (send_to_pool msg w)
  unfolding send_to_pool
  send_to_pool-Returns msg a c w reached alive ready =
      rw (pool_connection_lem w, reached)
        (Returns-bind _ (send_line-Quiet a msg c w alive) λ _ w' q.
          returns (q.0, q.1 ∙ ap (λ b. w.trace ++ (if b then [] else line_to c msg ∷ [])) ready))

  -- Nothing is written while the loop does not list the pool's connection.
  pub send_to_pool-unreached :
      (msg : Text) (w : World)
      → pool_target w.pool_manager w.loop ≡ none
      → send_to_pool msg w ≡ ok tt w
  unfolding send_to_pool
  send_to_pool-unreached msg w unreached = rw (pool_connection_lem w, unreached)

  id_is_left : (n : ℕ) → n < int_max → (n == int_max) ≡ false
  id_is_left n h = ground arith

  pub submit_share-send :
      (worker_id job_id nonce result : Text) (w : World) (config : PoolConfig)
      → w.pool_manager.connected ≡ true
      → w.pool_manager.has_job ≡ true
      → w.pool_manager.next_id < int_max
      → get_elem? w.pool_manager.pools w.pool_manager.current_pool_index ≡ some config
      → submit_share worker_id job_id nonce result w
        ≡ send_to_pool
            (submit_message w.pool_manager.next_id worker_id job_id nonce result)
            (record w { pool_manager = tracked w.pool_manager worker_id })
  unfolding submit_share get_next_id current_config
  submit_share-send worker_id job_id nonce result w config up working id_left configured =
      simp (up, working, id_is_left w.pool_manager.next_id id_left, configured)

  -- A share submitted while the proxy can submit, the pool's connection alive and ready among that, is
  -- written once to that connection, under the next identifier, and the only changes of the managers
  -- and the loop are the entry of that identifier and the next identifier.
  pub submit_share-Returns :
      (worker_id job_id nonce result : Text) (w : World) (h : CanSubmit w)
      → Returns
          (λ _ w'.
            (w'.pool_manager ≡ tracked w.pool_manager worker_id)
            × (w'.trace
                ≡ w.trace
                  ++ line_to h.pool
                      (submit_message w.pool_manager.next_id worker_id job_id nonce result)
                    ∷ [])
            × (w'.worker_manager ≡ w.worker_manager)
            × (w'.loop ≡ w.loop))
          (submit_share worker_id job_id nonce result w)
  submit_share-Returns worker_id job_id nonce result w h =
      rw
        (submit_share-send worker_id job_id nonce result w h.config h.up h.working h.id_left
          h.configured)
        (Returns-mono
          (send_to_pool-Returns
            (submit_message w.pool_manager.next_id worker_id job_id nonce result) h.address h.pool
            (record w { pool_manager = tracked w.pool_manager worker_id }) h.reached h.alive
            h.ready)
          λ _ w' q. (q.0.pool_same, q.1, q.0.worker_same, q.0.loop_same))
