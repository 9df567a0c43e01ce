-- ===== src/WorkerManager/Jobs.antt =====
-- gpu-proxy-cpp/src/worker_manager.cpp: the whitelist, and the distribution of jobs.
use compute_market.Base.{
  ℕ, ◌+◌, ◌%◌, ◌^◌, Bool, true, false, ◌||◌, not, List, [], ◌∷◌, Option, none, some, if◌then◌else◌,
  length,
}
use compute_market.Base.Text.{Text, text_eq}
use compute_market.Base.Table.{Table, find}
use compute_market.Platform.{Platform}
use compute_market.World.{
  match_option, Job, WorkerConfig, WorkerInfo, WorkerManager, M, ◌>>=◌, ◌>>◌, pure, done, fault,
  when, get_worker_manager, put_worker_manager,
}
use compute_market.Connection.{send_line, mark_for_closing}
use compute_market.WorkerManager.Messages.{job_message}

-- `next_extra_nonce2_++` of a `uint32_t`
abbrev pub next32 : ℕ → ℕ
next32 n = (n + 1) % 2 ^ 32

unfoldable pub in_configs : Text → List WorkerConfig → Bool
in_configs worker_id [] = false
in_configs worker_id (config ∷ rest) =
    if text_eq config.id worker_id then true else in_configs worker_id rest

unfoldable pub is_worker_allowed : WorkerManager → Text → Bool
unfolding in_configs
is_worker_allowed m worker_id =
    if not m.require_whitelist then true else in_configs worker_id m.worker_configs

-- `!require_whitelist_ || is_worker_allowed(worker_id)`
unfoldable pub allowed : WorkerManager → Text → Bool
unfolding is_worker_allowed
allowed m worker_id = not m.require_whitelist || is_worker_allowed m worker_id

unfoldable pub worker_count : WorkerManager → ℕ
worker_count m = length m.workers

module _ ⦃p : Platform⦄ where
  abbrev pub ShareCallback : Type 0
  ShareCallback = Option (Text → Text → Text → Text → M (Unit {0}))

  -- The pointer of a worker's record is dereferenced.
  abbrev pub deref : Option ℕ → M ℕ
  deref none = fault
  deref (some a) = pure a

  unfoldable pub close_worker : WorkerInfo → M (Unit {0})
  close_worker info = do a ← deref info.conn; mark_for_closing a

  -- One round of the loop of `send_job`.
  unfoldable pub send_to_worker : Text → WorkerInfo → M (Unit {0})
  send_to_worker msg info =
      if not info.subscribed || not info.authorized
      then done
      else do a ← deref info.conn; _ ← send_line a msg; done

  unfoldable pub send_to_workers : Text → Table WorkerInfo → M (Unit {0})
  send_to_workers msg [] = done
  send_to_workers msg ((fd, info) ∷ rest) = do send_to_worker msg info; send_to_workers msg rest

  unfoldable pub send_job : Job → M (Unit {0})
  send_job job = do
    m ← get_worker_manager
    put_worker_manager (record m { current_job = job; has_job = true })
    send_to_workers (job_message job) m.workers

  unfoldable pub resend_job : M (Unit {0})
  resend_job = do m ← get_worker_manager; when m.has_job (send_job m.current_job)

  unfoldable pub send_response : ℕ → Text → M (Unit {0})
  send_response worker_fd response = do
    m ← get_worker_manager
    match_option (find worker_fd m.workers) done
        λ info. do a ← deref info.conn; _ ← send_line a response; done
