-- ===== src/WorkerManager/Soundness.antt =====
-- gpu-proxy-cpp/src/worker_manager.cpp: every method of the worker manager keeps both managers sound.
use compute_market.Base.{ℕ, refl, List, [], ◌∷◌, Option, none, some, arith}
use compute_market.Base.Text.{Text}
use compute_market.Base.Table.{Table, AllValues-assign, AllValues-erase}
use compute_market.Platform.{Platform, Peer}
use compute_market.World.{
  ConnectionState, disconnected, connecting, connected, authenticated, error, Job, PoolConfig,
  WorkerConfig, WorkerInfo,
}
use compute_market.Preserve.{
  Preserves, keeping, keep_bind, keep_then, keep_pure, keep_done, keep_fault, keep_load,
}
use compute_market.Connection.State.{mark_for_closing}
use compute_market.Connection.Keeps.{keep_send_line, keep_new_connection}
use compute_market.EventLoop.Keeps.{keep_add_connection, keep_get_connection}
use compute_market.PoolManager.Invariant.{Sound}
use compute_market.WorkerManager.Invariant.{
  HasNonce, Clockwork, Serving, keep_worker, keep_worker_last, next32_bound, hex8-HasNonce,
}
use compute_market.WorkerManager.Jobs.{
  deref, close_worker, send_to_worker, send_to_workers, send_job, resend_job,
}
use compute_market.WorkerManager.Accept.{
  register_worker, welcome, accept_worker, forget_worker, on_worker_state,
}

module _ ⦃p : Platform⦄ {pools : List PoolConfig} {configs : List WorkerConfig}
    (Q : Clockwork) where
  keep_deref : (o : Option ℕ) → Preserves (Sound pools (Serving configs Q)) (deref o)
  keep_deref none = keep_fault
  keep_deref (some a) = keep_pure a

  pub keep_close_worker :
      (info : WorkerInfo) → Preserves (Sound pools (Serving configs Q)) (close_worker info)
  unfolding close_worker mark_for_closing
  keep_close_worker info = search (keeping, keep_deref) depth 9

  keep_send_to_worker :
      (msg : Text) (info : WorkerInfo)
      → Preserves (Sound pools (Serving configs Q)) (send_to_worker msg info)
  unfolding send_to_worker
  keep_send_to_worker msg info = search (keeping, keep_deref, keep_send_line) depth 9

  keep_send_to_workers :
      (msg : Text) (ws : Table WorkerInfo)
      → Preserves (Sound pools (Serving configs Q)) (send_to_workers msg ws)
  unfolding send_to_workers
  keep_send_to_workers msg [] = keep_done
  keep_send_to_workers msg ((fd, info) ∷ rest) =
      keep_then (keep_send_to_worker msg info) (keep_send_to_workers msg rest)

  pub keep_send_job : (job : Job) → Preserves (Sound pools (Serving configs Q)) (send_job job)
  unfolding send_job
  keep_send_job job =
      keep_worker Q _ _ (λ n. refl) (λ n s. ground arith) (λ n. keep_send_to_workers _ n.workers)

  pub keep_resend_job : Preserves (Sound pools (Serving configs Q)) resend_job
  unfolding resend_job
  keep_resend_job = search (keeping, keep_send_job) depth 9

  keep_register_worker :
      (fd : ℕ) (conn : Option ℕ)
      → Preserves (Sound pools (Serving configs Q)) (register_worker fd conn)
  unfolding register_worker
  keep_register_worker fd conn =
      keep_worker_last Q _ (λ n. refl)
        λ n s. record {
          configured = s.configured;
          guarded = s.guarded;
          nonce_bound = next32_bound n.next_extra_nonce2;
          nonces =
              AllValues-assign HasNonce fd _ n.workers
                (hex8-HasNonce n.next_extra_nonce2 s.nonce_bound) s.nonces;
        }

  keep_welcome : (peer : Peer) → Preserves (Sound pools (Serving configs Q)) (welcome peer)
  unfolding welcome
  keep_welcome peer =
      search
        (
          keeping, keep_new_connection, keep_add_connection, keep_get_connection,
          keep_register_worker, keep_resend_job,
        )
        depth 20

  -- Accepting a worker keeps both managers sound, and anything that is asked of the timeouts, unless
  -- it comes to undefined behaviour.
  pub accept_worker-IsServing : Preserves (Sound pools (Serving configs Q)) accept_worker
  unfolding accept_worker
  accept_worker-IsServing = search (keeping, keep_welcome) depth 12

  keep_forget_worker : (fd : ℕ) → Preserves (Sound pools (Serving configs Q)) (forget_worker fd)
  unfolding forget_worker
  keep_forget_worker fd =
      keep_worker_last Q _ (λ n. refl)
        λ n s. record {
          configured = s.configured;
          guarded = s.guarded;
          nonce_bound = s.nonce_bound;
          nonces = AllValues-erase HasNonce fd n.workers s.nonces;
        }

  -- So does every change of a worker connection's state.
  pub on_worker_state-IsServing :
      (a : ℕ) (s : ConnectionState)
      → Preserves (Sound pools (Serving configs Q)) (on_worker_state a s)
  unfolding on_worker_state
  on_worker_state-IsServing a error = keep_bind (keep_load a) (λ c. keep_forget_worker c.fd)
  on_worker_state-IsServing a disconnected = keep_bind (keep_load a) (λ c. keep_forget_worker c.fd)
  on_worker_state-IsServing a connected = keep_bind (keep_load a) (λ c. keep_done)
  on_worker_state-IsServing a connecting = keep_bind (keep_load a) (λ c. keep_done)
  on_worker_state-IsServing a authenticated = keep_bind (keep_load a) (λ c. keep_done)
