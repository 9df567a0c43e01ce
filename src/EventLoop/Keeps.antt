-- ===== src/EventLoop/Keeps.antt =====
-- gpu-proxy-cpp/src/event_loop.cpp: the methods that the managers call leave the managers' state alone.
use compute_market.Base.{ℕ, Bool, List, [], ◌∷◌, ◌++◌, Option, none, some}
use compute_market.Platform.{Platform}
use compute_market.World.{TimeoutCallback, Timeout, PoolManager, WorkerManager}
use compute_market.Outcome.{ends_ok}
use compute_market.Preserve.{Invariant, Preserves, keeping, keep_done}
use compute_market.Connection.Keeps.{keep_destroy}
use compute_market.EventLoop.Tables.{drop_pointer, add_connection, get_connection, set_timeout}

module _ ⦃p : Platform⦄ {J : Invariant} where
  keep_drop_pointer : (o : Option ℕ) → Preserves J (drop_pointer o)
  unfolding drop_pointer
  keep_drop_pointer none = keep_done
  keep_drop_pointer (some a) = keep_destroy a

  pub keep_add_connection : (a : ℕ) → Preserves J (add_connection a)
  unfolding add_connection
  keep_add_connection a = search (keeping, keep_drop_pointer) depth 9

  pub keep_get_connection : (fd : ℕ) → Preserves J (get_connection fd)
  unfolding get_connection
  keep_get_connection fd = record { apply = λ w j. ends_ok j }

  pub keep_set_timeout :
      (ms : ℕ) (cb : TimeoutCallback) (recurring : Bool)
      → ((m : PoolManager) (n : WorkerManager) (ts : List Timeout) (r : Bool) (t : Timeout)
          → J m n ts r
          → J m n (ts ++ t ∷ []) r)
      → Preserves J (set_timeout ms cb recurring)
  unfolding set_timeout
  keep_set_timeout ms cb recurring grows = record {
    apply =
        λ w j. ends_ok (grows w.pool_manager w.worker_manager w.loop.timeouts w.loop.running _ j);
  }
