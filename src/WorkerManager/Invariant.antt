-- ===== src/WorkerManager/Invariant.antt =====
-- gpu-proxy-cpp/src/worker_manager.cpp: what holds of the worker manager between two events.
use compute_market.Base.{ℕ, ◌^◌, ◌<◌, ◌≡◌, Bool, not, List, Option, length, arith, sym, subst}
use compute_market.Base.Text.{hex8}
use compute_market.Base.Text.Numerals.{length-hex8}
use compute_market.Base.Table.{AllValues}
use compute_market.Platform.{Platform}
use compute_market.World.{
  PoolConfig, WorkerConfig, WorkerInfo, WorkerManager, Timeout, M, ◌>>=◌, ◌>>◌, get_worker_manager,
  put_worker_manager,
}
use compute_market.Preserve.{Preserves, keep_worker_update, keep_worker_update_last}
use compute_market.EventLoop.Run.{is_nil}
use compute_market.PoolManager.Invariant.{Sound, Rest}
use compute_market.WorkerManager.Jobs.{next32}

-- An extra nonce is eight digits.
abbrev pub HasNonce : WorkerInfo → Type 0
HasNonce info = length info.extra_nonce2 ≡ 8

-- `configs` is the configuration, which never changes.
pub record IsServing (configs : List WorkerConfig) (n : WorkerManager) : Type 0 where
  pub configured : n.worker_configs ≡ configs
  pub guarded : n.require_whitelist ≡ not (is_nil configs)
  pub nonce_bound : n.next_extra_nonce2 < 2 ^ 32
  pub nonces : AllValues HasNonce n.workers

-- What is asked of the timeouts and of the flag of the loop, given the listening socket.
abbrev pub Clockwork : Type 1
Clockwork = Option ℕ → List Timeout → Bool → Type 0

abbrev pub Serving : List WorkerConfig → Clockwork → Rest
Serving configs Q n ts r = IsServing configs n × Q n.listen_fd ts r

module _ ⦃p : Platform⦄ {pools : List PoolConfig} {configs : List WorkerConfig}
    (Q : Clockwork) where
  -- A field of the worker manager is written, and not the listening socket.
  pub keep_worker :
      {B : Type 0} (f : WorkerManager → WorkerManager) (k : WorkerManager → M B)
      → ((n : WorkerManager) → (f n).listen_fd ≡ n.listen_fd)
      → ((n : WorkerManager) → IsServing configs n → IsServing configs (f n))
      → ((n : WorkerManager) → Preserves (Sound pools (Serving configs Q)) (k n))
      → Preserves
          (Sound pools (Serving configs Q))
          (get_worker_manager >>= (λ n. put_worker_manager (f n) >> k n))
  keep_worker f k same h =
      keep_worker_update f k
        (λ m n ts r s. (s.0, (h n s.1.0, subst (λ o. Q o ts r) (sym (same n)) s.1.1)))

  pub keep_worker_last :
      (f : WorkerManager → WorkerManager)
      → ((n : WorkerManager) → (f n).listen_fd ≡ n.listen_fd)
      → ((n : WorkerManager) → IsServing configs n → IsServing configs (f n))
      → Preserves
          (Sound pools (Serving configs Q))
          (get_worker_manager >>= (λ n. put_worker_manager (f n)))
  keep_worker_last f same h =
      keep_worker_update_last f
        (λ m n ts r s. (s.0, (h n s.1.0, subst (λ o. Q o ts r) (sym (same n)) s.1.1)))

pub next32_bound : (n : ℕ) → next32 n < 2 ^ 32
next32_bound n = omega arith

pub hex8-HasNonce : (n : ℕ) → n < 2 ^ 32 → length (hex8 n) ≡ 8
hex8-HasNonce n h = length-hex8 n h
