-- ===== src/Proxy/Losses.antt =====
-- gpu-proxy-cpp/src/pool_manager.cpp with main.cpp: what the writes of the pool manager and the loss of
-- its connection do to the abstract link.
use compute_market.Base.{
  ℕ, ◌+◌, ◌%◌, ◌≤◌, [], ◌∷◌, ◌++◌, ◌≡◌, ap, subst, false, inl, inr, List, ◌==◌, ltb, length, arith,
  Bool-cases,
}
use compute_market.Platform.{Platform}
use compute_market.World.{PoolConfig, World, reconnect, Job, Result, pool_state, ◌>>=◌}
use compute_market.Outcome.{Ends, ends_faults, Ends-mono}
use compute_market.Preserve.{Holds, Preserves, keeping, keep_done, keep_update_last}
use compute_market.EventLoop.Keeps.{keep_set_timeout}
use compute_market.Stratum.{StratumMethod, notify, job, StratumResponse}
use compute_market.PoolManager.States.{next_pool_index, schedule_reconnect, on_connection_lost}
use compute_market.PoolManager.Responses.{
  modify_job, got_job, error_text, handle_share_response, forget_share, handle_notify, handle_job,
  handle_notification,
}
use compute_market.PoolManager.Machine.{
  Link, link_of, given_work, gone_down, Walks, none_tried, Loses, waits, fails_over,
}
use compute_market.PoolManager.Link.{try_connect_pool}
use compute_market.PoolManager.Linking.{On, on_try_connect_pool}
use compute_market.WorkerManager.Jobs.{send_job}
use compute_market.Proxy.{pool_callbacks}
use compute_market.Proxy.Reachable.{job_sent}

module _ ⦃p : Platform⦄ {pools : List PoolConfig} (P : Link → Type 0) where
  pub on_modify_job : (f : Job → Job) → Preserves (On pools P) (modify_job f)
  on_modify_job f = keep_update_last _ (λ m n ts r s. s)

  pub on_send_job : (j : Job) → Preserves (On pools P) (send_job j)
  on_send_job j = job_sent (λ m n n' ts r s. s) j

  on_forget_share : (id : ℕ) → Preserves (On pools P) (forget_share id)
  unfolding forget_share
  on_forget_share id = keep_update_last _ (λ m n ts r s. s)

  on_error_text : (e : p.V) → Preserves (On pools P) (error_text e)
  unfolding error_text
  on_error_text e = search keeping depth 9

  pub on_handle_share_response :
      (resp : StratumResponse) → Preserves (On pools P) (handle_share_response pool_callbacks resp)
  unfolding handle_share_response
  on_handle_share_response resp = search (keeping, on_error_text, on_forget_share) depth 12

  module _ (works : (l : Link) → P l → P (given_work l)) where
    pub on_got_job : Preserves (On pools P) got_job
    on_got_job = keep_update_last _ (λ m n ts r s. (s.0, works _ s.1))

    on_handle_notify : (v : p.V) → Preserves (On pools P) (handle_notify pool_callbacks v)
    unfolding handle_notify
    on_handle_notify v = search (keeping, on_modify_job, on_got_job, on_send_job) depth 12

    on_handle_job : (v : p.V) → Preserves (On pools P) (handle_job pool_callbacks v)
    unfolding handle_job
    on_handle_job v = search (keeping, on_modify_job, on_got_job, on_send_job) depth 30

    pub on_handle_notification :
        (method : StratumMethod) (v : p.V)
        → Preserves (On pools P) (handle_notification pool_callbacks method v)
    unfolding handle_notification
    on_handle_notification notify v = on_handle_notify v
    on_handle_notification job v = on_handle_job v
    on_handle_notification _ v = keep_done

module _ ⦃p : Platform⦄ (pools : List PoolConfig) where
  -- What a method does to the link, whether it returns or throws.
  abbrev pub Moves : (Link → Type 0) → {A : Type 0} → Result A → Type 0
  Moves P r = Ends (Holds (On pools P)) (Holds (On pools P)) r

  pub Moves-mono :
      (P Q : Link → Type 0) {A : Type 0} {r : Result A}
      → ((l : Link) → P l → Q l)
      → Moves P r
      → Moves Q r
  Moves-mono P Q f h = Ends-mono h (λ w s. (s.0, f _ s.1)) (λ w s. (s.0, f _ s.1))

  -- After the first writes and the callback.
  abbrev cut_off : World → World
  cut_off w = record w {
    pool_manager = record w.pool_manager {
      connected = false;
      authenticated = false;
      subscribed = false;
      has_job = false;
    };
    trace = w.trace ++ pool_state w.pool_manager.current_pool false ∷ [];
  }

  next_pool-Loses :
      (w : World)
      → w.pool_manager.pools ≡ pools
      → 5 ≤ w.pool_manager.reconnect_attempts
      → Moves (Loses (length pools) (link_of w.pool_manager)) (
          (next_pool_index >>= λ i. try_connect_pool i) (record (cut_off w) {
            pool_manager = record (cut_off w).pool_manager { reconnect_attempts = 0 };
          }))
  unfolding next_pool_index
  next_pool-Loses w h many = elim (Bool-cases (length w.pool_manager.pools == 0)) [
    | inl e ↦ rw (e, next_pool_index) ends_faults
    | inr e ↦
        let l = link_of w.pool_manager in
        let n = length w.pool_manager.pools in
        rw (e, next_pool_index)
          (Moves-mono (Walks (length pools) ((l.pool + 1) % n) (gone_down 0 l))
            (Loses (length pools) l)
            (λ v k. fails_over many (
              subst (λ m. Walks (length pools) ((l.pool + 1) % m) (gone_down 0 l) v)
                (ap (λ ts. length ts) h) k))
            ((on_try_connect_pool ((l.pool + 1) % n) (gone_down 0 l)).apply _ (h, none_tried)))
  ]

  pub on_connection_lost-Loses :
      (w : World)
      → w.pool_manager.pools ≡ pools
      → Moves (Loses (length pools) (link_of w.pool_manager)) (on_connection_lost pool_callbacks w)
  unfolding on_connection_lost schedule_reconnect
  on_connection_lost-Loses w h = elim (Bool-cases (ltb w.pool_manager.reconnect_attempts 5)) [
    | inl e ↦
        rw (e, schedule_reconnect)
          ((keep_set_timeout 5000 reconnect false (λ m n ts r t j. j)).apply _
            (h, waits (ground arith)))
    | inr e ↦ rw (e, schedule_reconnect) (next_pool-Loses w h (ground arith))
  ]
