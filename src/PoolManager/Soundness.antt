-- ===== src/PoolManager/Soundness.antt =====
-- gpu-proxy-cpp/src/pool_manager.cpp: every method of the pool manager keeps it sound.
use compute_market.Base.{
  ℕ, suc, ◌≡◌, sym, ap, true, false, ◌⊎◌, inl, inr, List, [], ◌∷◌, ◌==◌, drop, arith, Bool-cases,
}
use compute_market.Base.Text.{Text}
use compute_market.Platform.{Platform}
use compute_market.World.{PoolConfig, World}
use compute_market.Outcome.{Ends, ends_ok, ends_faults}
use compute_market.Preserve.{
  Holds, Preserves, keeping, keep_bind, keep_then, keep_done, keep_load, keep_store, keep_option,
}
use compute_market.Connection.Keeps.{keep_send_line, keep_connect_to_pool}
use compute_market.EventLoop.Keeps.{keep_add_connection, keep_get_connection}
use compute_market.PoolManager.Link.{
  adopt_connection, try_pools, try_connect_pool, get_next_id, current_config, pool_connection,
  send_to_pool, send_login,
}
use compute_market.PoolManager.Messages.{int_max}
use compute_market.PoolManager.Invariant.{Sound, Rest, keep_pool, KeysBelow-mono, drop-lt}

module _ ⦃p : Platform⦄ {pools : List PoolConfig} {R : Rest} where
  keep_adopt_connection : (a : ℕ) → Preserves (Sound pools R) (adopt_connection a)
  unfolding adopt_connection
  keep_adopt_connection a = keep_bind (keep_load a) λ c. keep_then (keep_store a _) (
      keep_pool _ _
        (λ m s. record {
          configured = s.configured;
          in_range = s.in_range;
          linked = s.linked;
          attempts_bounded = s.attempts_bounded;
          ids_used = s.ids_used;
        })
        (λ m. keep_add_connection a))

  pub keep_send_to_pool : (msg : Text) → Preserves (Sound pools R) (send_to_pool msg)
  unfolding send_to_pool pool_connection
  keep_send_to_pool msg = search (keeping, keep_get_connection, keep_send_line) depth 12

  pub keep_current_config : Preserves (Sound pools R) current_config
  unfolding current_config
  keep_current_config = search keeping depth 12

  pub keep_get_next_id : Preserves (Sound pools R) get_next_id
  unfolding get_next_id
  keep_get_next_id = record {
    apply = λ w s. next w s (Bool-cases (w.pool_manager.next_id == int_max));
  }
    where
      next :
          (w : World)
          → Holds (Sound pools R) w
          → ((w.pool_manager.next_id == int_max) ≡ true)
            ⊎ ((w.pool_manager.next_id == int_max) ≡ false)
          → Ends (Holds (Sound pools R)) (Holds (Sound pools R)) (get_next_id w)
      next w (s, k) (inl e) = rw e ends_faults
      next w (s, k) (inr e) = rw e (
          ends_ok (
            record {
              configured = s.configured;
              in_range = s.in_range;
              linked = s.linked;
              attempts_bounded = s.attempts_bounded;
              ids_used = KeysBelow-mono _ _ w.pool_manager.share_to_worker (omega arith) s.ids_used;
            },
            k,
          ))

  pub keep_send_login : Preserves (Sound pools R) send_login
  unfolding send_login
  keep_send_login =
      search (keeping, keep_current_config, keep_get_next_id, keep_send_to_pool) depth 9

  -- The walk over the pools from `i` on.
  keep_try_pools :
      (i : ℕ) (rest : List PoolConfig)
      → drop i pools ≡ rest
      → Preserves (Sound pools R) (try_pools i rest)
  unfolding try_pools
  keep_try_pools i [] h = keep_done
  keep_try_pools i (pool ∷ rest) h =
      keep_pool _ _
        (λ m s. record {
          configured = s.configured;
          in_range = λ _. (drop-lt i pools h).0;
          linked = s.linked;
          attempts_bounded = s.attempts_bounded;
          ids_used = s.ids_used;
        })
        λ m. keep_bind (keep_connect_to_pool _ _ _) λ made.
          keep_option made (keep_try_pools (suc i) rest (drop-lt i pools h).1) keep_adopt_connection

  pub keep_try_connect_pool : (i : ℕ) → Preserves (Sound pools R) (try_connect_pool i)
  unfolding try_connect_pool
  keep_try_connect_pool i = record {
    apply = λ w s.
        (keep_try_pools i (drop i w.pool_manager.pools) (ap (drop i) (sym s.0.configured))).apply w
          s;
  }
