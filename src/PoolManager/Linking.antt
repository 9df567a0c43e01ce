-- ===== src/PoolManager/Linking.antt =====
-- gpu-proxy-cpp/src/pool_manager.cpp: what the methods of the pool manager do to the abstract link.
use compute_market.Base.{
  ℕ, suc, ◌≤◌, ◌<◌, ◌≡◌, sym, ap, inl, inr, List, [], ◌∷◌, ◌==◌, drop, length, arith, Bool-cases,
}
use compute_market.Base.Text.{Text}
use compute_market.Platform.{Platform}
use compute_market.World.{PoolConfig}
use compute_market.Outcome.{ends_ok, ends_faults}
use compute_market.Preserve.{
  Invariant, Preserves, keeping, keep_bind, keep_then, keep_done, keep_load, keep_store,
  keep_option, keep_update,
}
use compute_market.Connection.Keeps.{keep_send_line, keep_connect_to_pool}
use compute_market.EventLoop.Keeps.{keep_add_connection, keep_get_connection}
use compute_market.PoolManager.Link.{
  adopt_connection, try_pools, try_connect_pool, get_next_id, current_config, pool_connection,
  send_to_pool, send_login,
}
use compute_market.PoolManager.Messages.{int_max}
use compute_market.PoolManager.Invariant.{drop-lt}
use compute_market.PoolManager.Machine.{Link, link_of, Walks, none_tried, tried}

-- The pools are those of the configuration, and the link is as `P` says.
abbrev pub On : List PoolConfig → (Link → Type 0) → Invariant
On pools P m n ts r = (m.pools ≡ pools) × P (link_of m)

module _ ⦃p : Platform⦄ {pools : List PoolConfig} (P : Link → Type 0) where
  pub on_send_to_pool : (msg : Text) → Preserves (On pools P) (send_to_pool msg)
  unfolding send_to_pool pool_connection
  on_send_to_pool msg = search (keeping, keep_get_connection, keep_send_line) depth 12

  pub on_current_config : Preserves (On pools P) current_config
  unfolding current_config
  on_current_config = search keeping depth 12

  pub on_get_next_id : Preserves (On pools P) get_next_id
  unfolding get_next_id
  on_get_next_id = record {
    apply = λ w s. elim (Bool-cases (w.pool_manager.next_id == int_max)) [
      | inl e ↦ rw (e, get_next_id) ends_faults
      | inr e ↦ rw (e, get_next_id) (ends_ok s)
    ];
  }

  pub on_send_login : Preserves (On pools P) send_login
  unfolding send_login
  on_send_login = search (keeping, on_current_config, on_get_next_id, on_send_to_pool) depth 9

  on_adopt_connection : (a : ℕ) → Preserves (On pools P) (adopt_connection a)
  unfolding adopt_connection
  on_adopt_connection a = keep_bind (keep_load a) λ c.
      keep_then (keep_store a _) (keep_update _ _ (λ m n ts r s. s) (λ m. keep_add_connection a))

walked :
    {n from : ℕ} {l v : Link} (i : ℕ)
    → from ≤ i
    → i < n
    → Walks n from l v
    → Walks n from l (record v { pool = i })
walked i h b none_tried = tried i h b
walked i h b (tried j h' b') = tried i h b

module _ ⦃p : Platform⦄ {pools : List PoolConfig} (from : ℕ) (l : Link) where
  on_try_pools :
      (i : ℕ) (rest : List PoolConfig)
      → from ≤ i
      → drop i pools ≡ rest
      → Preserves (On pools (Walks (length pools) from l)) (try_pools i rest)
  unfolding try_pools
  on_try_pools i [] h e = keep_done
  on_try_pools i (pool ∷ rest) h e =
      keep_update _ _ (λ m n ts r s. (s.0, walked i h (drop-lt i pools e).0 s.1))
        λ m. keep_bind (keep_connect_to_pool _ _ _) λ made.
          keep_option made (on_try_pools (suc i) rest (omega (arith, h)) (drop-lt i pools e).1)
            (on_adopt_connection (Walks (length pools) from l))

  -- The walk over the pools from there on.
  pub on_try_connect_pool :
      Preserves (On pools (Walks (length pools) from l)) (try_connect_pool from)
  unfolding try_connect_pool
  on_try_connect_pool = record {
    apply = λ w s.
        (on_try_pools from (drop from w.pool_manager.pools) (omega arith)
            (ap (drop from) (sym s.0))).apply
          w s;
  }
