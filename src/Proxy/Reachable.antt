-- ===== src/Proxy/Reachable.antt =====
-- gpu-proxy-cpp/src/main.cpp with pool_manager.cpp: the histories of the pool manager in the proxy, and
-- what holds at the end of each.
use mathlib.Core.Option.{some-injective}
use compute_market.Base.{ℕ, ◌≡◌, refl, Bool, List, [], ◌∷◌, Option, none, some, arith}
use compute_market.Base.Text.{Text}
use compute_market.Base.Table.{Table}
use compute_market.Platform.{Platform}
use compute_market.World.{
  ConnectionState, Job, PoolConfig, WorkerConfig, WorkerInfo, PoolManager, WorkerManager, Timeout,
  World, ok, M, put_worker_manager, reconnect,
}
use compute_market.Outcome.{ends_ok, Ends-ok}
use compute_market.Preserve.{
  Invariant, Preserves, keeping, keep_bind, keep_then, keep_done, keep_emit, keep_fault, keep_pure,
  keep_get_pool_manager,
}
use compute_market.Connection.Keeps.{keep_send_line}
use compute_market.PoolManager.{on_pool_state, on_pool_message, submit_share}
use compute_market.PoolManager.Invariant.{IsSound, Sound, Rest, Grows}
use compute_market.PoolManager.Soundness.{keep_try_connect_pool}
use compute_market.PoolManager.Preservation.{
  Tame, on_pool_state-IsSound, on_pool_message-IsSound, submit_share-IsSound,
}
use compute_market.WorkerManager.Jobs.{deref, send_to_worker, send_to_workers, send_job}
use compute_market.Proxy.{pool_callbacks, on_timeout, new_world, new_pool_manager}

-- Nothing is asked of the rest of the program.
abbrev pub Anything : Rest
Anything n ts r = Unit

pub Anything-Grows : Grows Anything
Anything-Grows n ts r t q = tt

module _ ⦃p : Platform⦄ {J : Invariant} where
  keep_deref : (o : Option ℕ) → Preserves J (deref o)
  keep_deref none = keep_fault
  keep_deref (some a) = keep_pure a

  keep_send_to_worker : (msg : Text) (info : WorkerInfo) → Preserves J (send_to_worker msg info)
  unfolding send_to_worker
  keep_send_to_worker msg info = search (keeping, keep_deref, keep_send_line) depth 9

  keep_send_to_workers : (msg : Text) (ws : Table WorkerInfo) → Preserves J (send_to_workers msg ws)
  unfolding send_to_workers
  keep_send_to_workers msg [] = keep_done
  keep_send_to_workers msg ((fd, info) ∷ rest) =
      keep_then (keep_send_to_worker msg info) (keep_send_to_workers msg rest)

-- Nothing is asked of the worker manager.
abbrev pub Aside : Invariant → Type 0
Aside J =
    (m : PoolManager) (n n' : WorkerManager) (ts : List Timeout) (r : Bool)
    → J m n ts r
    → J m n' ts r

module _ ⦃p : Platform⦄ {J : Invariant} (aside : Aside J) where
  keep_put_worker_manager : (m : WorkerManager) → Preserves J (put_worker_manager m)
  keep_put_worker_manager m = record { apply = λ w s. ends_ok (aside _ _ _ _ _ s) }

  pub job_sent : (job : Job) → Preserves J (send_job job)
  unfolding send_job
  job_sent job = search (keeping, keep_put_worker_manager, keep_send_to_workers) depth 9

module _ ⦃p : Platform⦄ {pools : List PoolConfig} where
  pub pool_callbacks-Tame : Tame (Sound pools Anything) pool_callbacks
  pool_callbacks-Tame = record {
    job_tame = job_sent (λ m n n' ts r s. s);
    state_tame = λ name up. keep_emit _;
    response_tame = λ f e worker_id accepted err. rw (← some-injective _ _ e) (keep_emit _);
  }

-- What can happen to the pool manager.
pub data PoolEvent : Type 0 where
  state_changed : ConnectionState → PoolEvent
  message : Text → PoolEvent
  share : Text → Text → Text → Text → PoolEvent
  reconnect_fires : PoolEvent

module _ ⦃p : Platform⦄ where
  -- The method that the proxy runs for it.
  unfoldable pub run_event : PoolEvent → M (Unit {0})
  run_event (state_changed s) = on_pool_state pool_callbacks s
  run_event (message line) = on_pool_message pool_callbacks line
  run_event (share worker_id job_id nonce result) = submit_share worker_id job_id nonce result
  run_event reconnect_fires = on_timeout reconnect

  -- The worlds that the proxy can reach; the other parts of the program leave the pool manager alone.
  pub data Reach (pools : List PoolConfig) : World → Type 0 where
    initially :
        (port : ℕ) (workers : List WorkerConfig) (os : p.S)
        → Reach pools (new_world pools port workers os)
    event :
        {w w' : World} (e : PoolEvent) → Reach pools w → run_event e w ≡ ok tt w' → Reach pools w'
    elsewhere : {w w' : World} → Reach pools w → w'.pool_manager ≡ w.pool_manager → Reach pools w'

  run_event-IsSound :
      {pools : List PoolConfig} (e : PoolEvent) → Preserves (Sound pools Anything) (run_event e)
  unfolding run_event on_timeout
  run_event-IsSound (state_changed s) = on_pool_state-IsSound pool_callbacks-Tame Anything-Grows s
  run_event-IsSound (message line) = on_pool_message-IsSound pool_callbacks-Tame Anything-Grows line
  run_event-IsSound (share worker_id job_id nonce result) =
      submit_share-IsSound worker_id job_id nonce result
  run_event-IsSound reconnect_fires =
      keep_bind keep_get_pool_manager (λ m. keep_try_connect_pool m.current_pool_index)

  -- In every world that the proxy reaches, the pool manager is sound.
  pub Reach-IsSound :
      {pools : List PoolConfig} {w : World} → Reach pools w → IsSound pools w.pool_manager
  Reach-IsSound (initially port workers os) =
      unfold new_world new_pool_manager in
      record {
        configured = refl;
        in_range = λ h. h;
        linked = refl;
        attempts_bounded = omega arith;
        ids_used = tt;
      }
  Reach-IsSound {pools} (event {w} e r h) =
      (Ends-ok (run_event e w) h ((run_event-IsSound e).apply w (Reach-IsSound r, tt))).0
  Reach-IsSound {pools} (elsewhere r h) = rw h (Reach-IsSound r)
