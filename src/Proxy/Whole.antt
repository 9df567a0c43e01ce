-- ===== src/Proxy/Whole.antt =====
-- gpu-proxy-cpp/src/main.cpp: the proxy from its constructor through `start` and any number of rounds.
use compute_market.Base.{ℕ, ◌≡◌, refl, Bool, true, List, [], ◌∷◌, Option, none, some, arith}
use compute_market.Platform.{Platform}
use compute_market.World.{
  PoolConfig, WorkerConfig, WorkerManager, Timeout, World, ok, done,
  accept_worker as accept_callback, ◌>>◌, and_then, put_worker_manager,
}
use compute_market.Outcome.{Ends, ends_ok, Ends-ok, Ends-bind}
use compute_market.Preserve.{
  Holds, Preserves, keeping, keep_bind, keep_then, keep_pure, keep_done, keep_if,
  keep_get_pool_manager,
}
use compute_market.EventLoop.Tables.{set_timeout}
use compute_market.EventLoop.Run.{is_nil, run}
use compute_market.PoolManager.Invariant.{Sound}
use compute_market.PoolManager.Soundness.{keep_try_connect_pool}
use compute_market.PoolManager
use compute_market.WorkerManager.Invariant.{IsServing, Serving}
use compute_market.WorkerManager
use compute_market.WorkerManager.Accept.{start_listening}
use compute_market.PoolManager.{try_connect_pool}
use compute_market.Proxy.{new_world, new_pool_manager, new_worker_manager, start, run_proxy}
use compute_market.Proxy.Clock.{Ticks, Ticks-last, Listening, Listening-IsTimely}
use compute_market.Proxy.Running.{keep_run_rounds, every_round, run_rounds-every_round}

Listening-flag :
    (o : Option ℕ) (ts : List Timeout) (r b : Bool) → Listening o ts r → Listening o ts b
Listening-flag none ts r b q = tt
Listening-flag (some fd) ts r b q = q

Listening-Ticks :
    (o : Option ℕ) (fd : ℕ) (ts : List Timeout) (r : Bool)
    → o ≡ some fd
    → Listening o ts r
    → Ticks ts
Listening-Ticks none fd ts r e q = cc
Listening-Ticks (some n) fd ts r e q = q

module _ ⦃p : Platform⦄ {pools : List PoolConfig} {configs : List WorkerConfig} where
  -- The last steps of `WorkerManager::start` bring the socket and its timer.
  keep_listen :
      (m : WorkerManager) (fd : ℕ)
      → IsServing configs m
      → Preserves (Sound pools (Serving configs Listening)) (
          put_worker_manager (record m { listen_fd = some fd })
          >> set_timeout 100 accept_callback true)
  unfolding set_timeout
  keep_listen m fd s = record {
    apply = λ w j. ends_ok (
      j.0,
      (
        record {
          configured = s.configured;
          guarded = s.guarded;
          nonce_bound = s.nonce_bound;
          nonces = s.nonces;
        },
        Ticks-last w.loop.timeouts _ (refl, refl),
      ),
    );
  }

  keep_start_listening :
      (m : WorkerManager)
      → IsServing configs m
      → Preserves (Sound pools (Serving configs Listening)) (start_listening m)
  unfolding start_listening
  keep_start_listening m s = search (keeping, keep_listen) depth 30

  keep_worker_start : Preserves (Sound pools (Serving configs Listening)) WorkerManager.start
  unfolding WorkerManager.start
  keep_worker_start = record {
    apply = λ w j. (keep_start_listening w.worker_manager j.1.0).apply w j;
  }

  keep_pool_start : Preserves (Sound pools (Serving configs Listening)) PoolManager.start
  unfolding PoolManager.start
  keep_pool_start = keep_bind keep_get_pool_manager (λ m. from m.pools)
    where
      from :
          (ps : List PoolConfig)
          → Preserves
              (Sound pools (Serving configs Listening))
              (elim ps [ [] ↦ done | pool ∷ rest ↦ try_connect_pool 0 ])
      from [] = keep_done
      from (pool ∷ rest) = keep_try_connect_pool 0

  keep_start : Preserves (Sound pools (Serving configs Listening)) start
  unfolding start
  keep_start = keep_bind keep_get_pool_manager λ m.
      keep_if (is_nil m.pools) (keep_pure _)
        (keep_then keep_pool_start (keep_then keep_worker_start (keep_pure true)))

  keep_run_proxy :
      (rounds : ℕ) → Preserves (Sound pools (Serving configs Listening)) (run_proxy rounds)
  unfolding run_proxy run
  keep_run_proxy rounds = record {
    apply = λ w j.
        (keep_run_rounds Listening-IsTimely rounds).apply _
          (j.0, (j.1.0, Listening-flag _ _ w.loop.running true j.1.1));
  }

module _ ⦃p : Platform⦄ where
  -- What holds of the proxy as long as it lives, under its configuration.
  unfoldable pub IsProxy : List PoolConfig → List WorkerConfig → World → Type 0
  IsProxy pools configs = Holds (Sound pools (Serving configs Listening))

  new_world-IsProxy :
      (pools : List PoolConfig) (port : ℕ) (configs : List WorkerConfig) (os : p.S)
      → IsProxy pools configs (new_world pools port configs os)
  unfolding IsProxy new_world new_pool_manager new_worker_manager
  new_world-IsProxy pools port configs os = (
    record {
      configured = refl;
      in_range = λ h. h;
      linked = refl;
      attempts_bounded = omega arith;
      ids_used = tt;
    },
    (record { configured = refl; guarded = refl; nonce_bound = omega arith; nonces = tt }, tt),
  )

  pub start-IsProxy :
      (pools : List PoolConfig) (port : ℕ) (configs : List WorkerConfig) (os : p.S) {b : Bool}
      {w : World}
      → start (new_world pools port configs os) ≡ ok b w
      → IsProxy pools configs w
  unfolding IsProxy
  start-IsProxy pools port configs os e =
      Ends-ok (start (new_world pools port configs os)) e
        (keep_start.apply _ (new_world-IsProxy pools port configs os))

  -- The proxy starts from its constructors and runs for any number of rounds, whatever the system and
  -- its peers answer: unless it comes to undefined behaviour, `IsProxy` holds at the end, be it a
  -- return or an exception.
  pub run_proxy-IsProxy :
      (pools : List PoolConfig) (port : ℕ) (configs : List WorkerConfig) (os : p.S) (rounds : ℕ)
      → Ends
          (IsProxy pools configs)
          (IsProxy pools configs)
          (and_then (start (new_world pools port configs os)) (λ _. run_proxy rounds))
  unfolding IsProxy
  run_proxy-IsProxy pools port configs os rounds =
      Ends-bind _ (keep_start.apply _ (new_world-IsProxy pools port configs os))
        (λ _ w j. (keep_run_proxy rounds).apply w j)

  -- Once the proxy listens, no test of the loop ends it: `run` goes through every round, unless one
  -- of them throws or is undefined behaviour.
  pub run_proxy-every_round :
      (pools : List PoolConfig) (configs : List WorkerConfig) (fd rounds : ℕ) (w : World)
      → IsProxy pools configs w
      → w.worker_manager.listen_fd ≡ some fd
      → run_proxy rounds w
        ≡ every_round rounds (record w { loop = record w.loop { running = true } })
  unfolding IsProxy run_proxy run
  run_proxy-every_round pools configs fd rounds w j e =
      run_rounds-every_round fd rounds _
        (j.0, (j.1.0, (e, Listening-Ticks _ fd _ w.loop.running e j.1.1, refl)))
