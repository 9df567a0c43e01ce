-- ===== src/WorkerManager/Serving.antt =====
-- gpu-proxy-cpp/src/worker_manager.cpp: every request of a worker keeps both managers sound.
use compute_market.Base.{
  ℕ, ◌≡◌, refl, ap, ◌∙◌, Bool, List, [], ◌∷◌, some, inl, inr, Option-cases, length, if◌then◌else◌,
}
use compute_market.Base.Text.{Text}
use compute_market.Base.Table.{find, AllValues-assign, AllValues-find}
use compute_market.Platform.{Platform}
use compute_market.World.{
  PoolConfig, WorkerConfig, WorkerInfo, M, pure, or_throw, match_option, done,
}
use compute_market.Outcome.{ends_ok}
use compute_market.Preserve.{
  Preserves, keeping, keep_bind, keep_then, keep_if, keep_pure, keep_done, keep_load, keep_or_throw,
  keep_get_worker_manager, keep_option, keep_catching,
}
use compute_market.Stratum.{
  StratumRequest, StratumMethod, subscribe, authorize, submit, login, monero_submit,
}
use compute_market.Connection.Keeps.{keep_send_line}
use compute_market.PoolManager.Invariant.{Sound}
use compute_market.WorkerManager.Invariant.{HasNonce, Clockwork, Serving}
use compute_market.WorkerManager.Jobs.{ShareCallback, allowed, close_worker}
use compute_market.WorkerManager.Soundness.{keep_close_worker, keep_resend_job}
use compute_market.WorkerManager.Requests.{
  update_worker, known_worker, handle_subscribe, authorize_name, handle_authorize, login_name,
  handle_login, read_share, text_member, monero_share, array_share, handle_submit, dispatch_request,
  on_worker_message,
}

module _ ⦃p : Platform⦄ {pools : List PoolConfig} {configs : List WorkerConfig}
    (Q : Clockwork) where
  keep_update_worker :
      (fd : ℕ) (f : WorkerInfo → WorkerInfo)
      → ((i : WorkerInfo) → (f i).extra_nonce2 ≡ i.extra_nonce2)
      → Preserves (Sound pools (Serving configs Q)) (update_worker fd f)
  keep_update_worker fd f same = record {
    apply = λ w s. elim (Option-cases (find fd w.worker_manager.workers)) [
      | inl e ↦ rw e (ends_ok s)
      | inr (info, e) ↦ rw e (
          ends_ok (
            s.0,
            (
              record {
                configured = s.1.0.configured;
                guarded = s.1.0.guarded;
                nonce_bound = s.1.0.nonce_bound;
                nonces =
                    AllValues-assign HasNonce fd (f info) w.worker_manager.workers
                      (ap length (same info)
                        ∙ AllValues-find HasNonce fd info w.worker_manager.workers e s.1.0.nonces)
                      s.1.0.nonces;
              },
              s.1.1,
            ),
          ))
    ];
  }

  keep_known_worker :
      (a : ℕ) (body : ℕ → WorkerInfo → M (Unit {0}))
      → ((fd : ℕ) (info : WorkerInfo) → Preserves (Sound pools (Serving configs Q)) (body fd info))
      → Preserves (Sound pools (Serving configs Q)) (known_worker a body)
  keep_known_worker a body h = keep_bind (keep_load a) λ c.
      keep_bind keep_get_worker_manager λ m. keep_option (find c.fd m.workers) keep_done (h c.fd)

  keep_handle_subscribe :
      (a : ℕ) (req : StratumRequest)
      → Preserves (Sound pools (Serving configs Q)) (handle_subscribe a req)
  unfolding handle_subscribe
  keep_handle_subscribe a req = keep_known_worker a _ λ fd info.
      keep_bind (keep_send_line a _)
        λ _. keep_then (keep_update_worker fd _ (λ i. refl)) (keep_resend_job Q)

  keep_authorize_name : (v : p.V) → Preserves (Sound pools (Serving configs Q)) (authorize_name v)
  unfolding authorize_name
  keep_authorize_name v = keep_if (p.is_array v) (first (p.elements v)) (keep_pure [])
    where
      first :
          (vs : List p.V)
          → Preserves {A = Text}
              (Sound pools (Serving configs Q))
              (elim vs [ [] ↦ pure [] | x ∷ rest ↦ or_throw (p.get_string x) ])
      first [] = keep_pure []
      first (x ∷ rest) = keep_or_throw (p.get_string x)

  -- The end of `authorize` and of `login`.
  keep_verdict :
      (b : Bool) (fd : ℕ) (f : WorkerInfo → WorkerInfo) (info : WorkerInfo)
      → ((i : WorkerInfo) → (f i).extra_nonce2 ≡ i.extra_nonce2)
      → Preserves
          (Sound pools (Serving configs Q))
          (if b then update_worker fd f else close_worker info)
  keep_verdict b fd f info same =
      keep_if b (keep_update_worker fd f same) (keep_close_worker Q info)

  keep_handle_authorize :
      (a : ℕ) (req : StratumRequest)
      → Preserves (Sound pools (Serving configs Q)) (handle_authorize a req)
  unfolding handle_authorize
  keep_handle_authorize a req = keep_known_worker a _ λ fd info.
      keep_bind (keep_authorize_name req.params) λ name.
        keep_then (keep_update_worker fd _ (λ i. refl)) (
          keep_bind keep_get_worker_manager λ m.
            keep_bind (keep_send_line a _) λ _. keep_verdict (allowed m name) fd _ info (λ i. refl))

  keep_login_name : (v : p.V) → Preserves (Sound pools (Serving configs Q)) (login_name v)
  unfolding login_name
  keep_login_name v = search keeping depth 9

  keep_handle_login :
      (a : ℕ) (req : StratumRequest)
      → Preserves (Sound pools (Serving configs Q)) (handle_login a req)
  unfolding handle_login
  keep_handle_login a req = keep_known_worker a _ λ fd info.
      keep_bind (keep_login_name req.params) λ name.
        keep_then (keep_update_worker fd _ (λ i. refl)) (
          keep_bind keep_get_worker_manager λ m.
            keep_bind (keep_send_line a _) λ _. keep_verdict (allowed m name) fd _ info (λ i. refl))

  keep_array_share : (vs : List p.V) → Preserves (Sound pools (Serving configs Q)) (array_share vs)
  unfolding array_share
  keep_array_share [] = keep_pure _
  keep_array_share (a ∷ []) = keep_pure _
  keep_array_share (a ∷ b ∷ []) = keep_pure _
  keep_array_share (a ∷ b ∷ c ∷ []) = keep_pure _
  keep_array_share (a ∷ b ∷ c ∷ d ∷ rest) = search keeping depth 12

  keep_monero_share : (v : p.V) → Preserves (Sound pools (Serving configs Q)) (monero_share v)
  unfolding monero_share text_member
  keep_monero_share v = search keeping depth 15

  keep_read_share :
      (method : StratumMethod) (v : p.V)
      → Preserves (Sound pools (Serving configs Q)) (read_share method v)
  unfolding read_share
  keep_read_share method v =
      keep_if _ (keep_monero_share v) (keep_if _ (keep_array_share (p.elements v)) (keep_pure _))

module _ ⦃p : Platform⦄ {pools : List PoolConfig} {configs : List WorkerConfig} (Q : Clockwork)
    (share_cb : ShareCallback)
    (tame : (submit_to_pool : Text → Text → Text → Text → M (Unit {0}))
      → share_cb ≡ some submit_to_pool
      → (w j n r : Text)
      → Preserves (Sound pools (Serving configs Q)) (submit_to_pool w j n r)) where
  keep_forward :
      (w j n r : Text)
      → Preserves
          (Sound pools (Serving configs Q))
          (match_option share_cb done λ submit_to_pool. submit_to_pool w j n r)
  keep_forward w j n r = elim (Option-cases share_cb) [
    | inl e ↦ rw e keep_done
    | inr (f, e) ↦ rw e (tame f e w j n r)
  ]

  keep_handle_submit :
      (a : ℕ) (req : StratumRequest)
      → Preserves (Sound pools (Serving configs Q)) (handle_submit share_cb a req)
  unfolding handle_submit
  keep_handle_submit a req = keep_known_worker Q a _ λ fd info.
      keep_bind (keep_read_share Q req.method req.params) λ share.
        keep_bind (keep_send_line a _)
          λ _. keep_forward share.worker_id share.job_id share.nonce share.result

  keep_dispatch_request :
      (a : ℕ) (method : StratumMethod) (req : StratumRequest)
      → Preserves (Sound pools (Serving configs Q)) (dispatch_request share_cb a method req)
  unfolding dispatch_request
  keep_dispatch_request a subscribe req = keep_handle_subscribe Q a req
  keep_dispatch_request a authorize req = keep_handle_authorize Q a req
  keep_dispatch_request a login req = keep_handle_login Q a req
  keep_dispatch_request a submit req = keep_handle_submit a req
  keep_dispatch_request a monero_submit req = keep_handle_submit a req
  keep_dispatch_request a _ req = keep_done

  -- A line from a worker, whatever it holds, keeps both managers sound, and anything that is asked of
  -- the timeouts, if the share callback does, unless the handler comes to undefined behaviour.
  pub on_worker_message-IsServing :
      (a : ℕ) (line : Text)
      → Preserves (Sound pools (Serving configs Q)) (on_worker_message share_cb a line)
  unfolding on_worker_message
  on_worker_message-IsServing a line =
      keep_catching (keep_bind (keep_load a) λ c. keep_dispatch_request a _ _)
