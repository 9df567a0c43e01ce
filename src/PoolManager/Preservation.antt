-- ===== src/PoolManager/Preservation.antt =====
-- gpu-proxy-cpp/src/pool_manager.cpp: the events of the pool manager keep it sound, also where a
-- conversion throws in the middle of one.
use compute_market.Base.{
  ℕ, ◌+◌, ◌≡◌, refl, Bool, true, false, ◌⊎◌, inl, inr, List, Option, none, some, ◌==◌, ltb, arith,
  Bool-cases, Option-cases, not, ◌||◌,
}
use compute_market.Base.Text.{Text, text_eq, text}
use compute_market.Platform.{Platform}
use compute_market.World.{
  PoolConfig, ConnectionState, connecting, connected, authenticated, error, disconnected, Job,
  World, M, reconnect,
}
use compute_market.Outcome.{Ends, ends_ok, ends_faults}
use compute_market.Preserve.{
  Invariant, Holds, Preserves, keeping, keep_bind, keep_then, keep_done, keep_option, keep_catching,
  keep_if, keep_or_throw, keep_get_pool_manager,
}
use compute_market.EventLoop.Keeps.{keep_set_timeout}
use compute_market.Stratum.{StratumMethod, notify, job, StratumResponse}
use compute_market.PoolManager.Messages.{int_max}
use compute_market.PoolManager.Link.{PoolCallbacks, call_job, call_state, get_next_id}
use compute_market.PoolManager.States.{
  on_authenticated, next_pool_index, schedule_reconnect, on_connection_lost, on_pool_state,
}
use compute_market.PoolManager.Responses.{
  modify_job, got_job, adopt_login_job, handle_login_job, handle_status, error_text,
  handle_share_response, forget_share, after_login_job, handle_response, handle_notify, handle_job,
  handle_notification,
}
use compute_market.PoolManager.Traffic.{
  response_id, dispatch_message, on_pool_message, submit_share,
}
use compute_market.PoolManager.Invariant.{
  Sound, Rest, Grows, keep_pool, keep_pool_last, KeysBelow-assign, KeysBelow-erase, KeysBelow-mono,
}
use compute_market.PoolManager.Soundness.{
  keep_send_login, keep_try_connect_pool, keep_send_to_pool, keep_current_config,
}

-- The callbacks keep what is asked of them.
pub record Tame ⦃p : Platform⦄ (J : Invariant) (cbs : PoolCallbacks) : Type 0 where
  pub job_tame : (j : Job) → Preserves J (call_job cbs j)
  pub state_tame : (name : Text) (up : Bool) → Preserves J (call_state cbs name up)
  pub response_tame :
      (f : Text → Bool → Text → M (Unit {0}))
      → cbs.share_response_cb ≡ some f
      → (worker_id : Text) (accepted : Bool) (err : Text) → Preserves J (f worker_id accepted err)

module _ ⦃p : Platform⦄ {pools : List PoolConfig} {R : Rest} {cbs : PoolCallbacks}
    (tame : Tame (Sound pools R) cbs) (grows : Grows R) where
  keep_on_authenticated : Preserves (Sound pools R) (on_authenticated cbs)
  unfolding on_authenticated
  keep_on_authenticated =
      keep_pool _ _ (λ m s. ground arith) (λ m. tame.state_tame m.current_pool true)

  keep_next_pool_index : Preserves (Sound pools R) next_pool_index
  unfolding next_pool_index
  keep_next_pool_index = search keeping depth 9

  keep_schedule_reconnect : Preserves (Sound pools R) schedule_reconnect
  unfolding schedule_reconnect
  keep_schedule_reconnect = record {
    apply = λ w s. next w s (Bool-cases (ltb w.pool_manager.reconnect_attempts 5));
  }
    where
      next :
          (w : World)
          → Holds (Sound pools R) w
          → (ltb w.pool_manager.reconnect_attempts 5 ≡ true)
            ⊎ (ltb w.pool_manager.reconnect_attempts 5 ≡ false)
          → Ends (Holds (Sound pools R)) (Holds (Sound pools R)) (schedule_reconnect w)
      next w (s, k) (inl e) = rw e (
          (keep_set_timeout 5000 reconnect false (λ m n ts r t j. (j.0, grows n ts r t j.1))).apply
            _ (ground arith, k))
      next w (s, k) (inr e) = rw e (
          (keep_bind keep_next_pool_index (λ i. keep_try_connect_pool i)).apply _ (ground arith, k))

  keep_on_connection_lost : Preserves (Sound pools R) (on_connection_lost cbs)
  unfolding on_connection_lost
  keep_on_connection_lost =
      keep_pool _ _ (λ m s. ground arith)
        λ m. keep_then (tame.state_tame m.current_pool false) keep_schedule_reconnect

  -- Every change of the connection's state keeps the manager sound.
  pub on_pool_state-IsSound :
      (s : ConnectionState) → Preserves (Sound pools R) (on_pool_state cbs s)
  unfolding on_pool_state
  on_pool_state-IsSound connected = keep_send_login
  on_pool_state-IsSound authenticated = keep_on_authenticated
  on_pool_state-IsSound error = keep_on_connection_lost
  on_pool_state-IsSound disconnected = keep_on_connection_lost
  on_pool_state-IsSound connecting = keep_done

  -- The assignments to fields of the current job.
  keep_modify_job : (f : Job → Job) → Preserves (Sound pools R) (modify_job f)
  keep_modify_job f = keep_pool_last _ (λ m s. ground arith)

  keep_got_job : Preserves (Sound pools R) got_job
  keep_got_job = keep_pool_last _ (λ m s. ground arith)

  keep_adopt_login_job : (v : p.V) → Preserves (Sound pools R) (adopt_login_job cbs v)
  unfolding adopt_login_job
  keep_adopt_login_job v =
      search (keeping, keep_modify_job, keep_got_job, on_pool_state-IsSound, tame.job_tame) depth 30

  keep_handle_login_job :
      (resp : StratumResponse) → Preserves (Sound pools R) (handle_login_job cbs resp)
  unfolding handle_login_job
  keep_handle_login_job resp = record {
    apply =
        λ w s. next w s (Bool-cases w.pool_manager.authenticated) (p.member resp.result "job") refl;
  }
    where
      next :
          (w : World)
          → Holds (Sound pools R) w
          → (w.pool_manager.authenticated ≡ true) ⊎ (w.pool_manager.authenticated ≡ false)
          → (o : Option p.V) → p.member resp.result "job" ≡ o
          → Ends (Holds (Sound pools R)) (Holds (Sound pools R)) (handle_login_job cbs resp w)
      next w (s, k) (inl e) o h = simp e (ends_ok (s, k))
      next w (s, k) (inr e) none h = simp (e, h) (ends_ok (s, k))
      next w (s, k) (inr e) (some v) h =
          simp (e, h) ((keep_adopt_login_job v).apply _ (ground arith, k))

  keep_handle_status : (v : p.V) → Preserves (Sound pools R) (handle_status cbs v)
  unfolding handle_status
  keep_handle_status v = keep_bind (keep_or_throw _) λ status.
      keep_if (text_eq status (text "OK"))
        (keep_pool _ _ (λ m s. ground arith) (λ m. on_pool_state-IsSound authenticated))
        (on_pool_state-IsSound error)

  keep_error_text : (e : p.V) → Preserves (Sound pools R) (error_text e)
  unfolding error_text
  keep_error_text e = search keeping depth 9

  keep_forget_share : (id : ℕ) → Preserves (Sound pools R) (forget_share id)
  unfolding forget_share
  keep_forget_share id = keep_pool_last _ λ m s. record {
    configured = s.configured;
    in_range = s.in_range;
    linked = s.linked;
    attempts_bounded = s.attempts_bounded;
    ids_used = KeysBelow-erase m.next_id id m.share_to_worker s.ids_used;
  }

  keep_handle_share_response :
      (resp : StratumResponse) → Preserves (Sound pools R) (handle_share_response cbs resp)
  unfolding handle_share_response
  keep_handle_share_response resp = elim (Option-cases cbs.share_response_cb) [
    | inl e ↦ rw (e, handle_share_response) keep_done
    | inr (f, e) ↦
        rw (e, handle_share_response)
          (keep_bind (keep_error_text resp.error) λ err. keep_bind keep_get_pool_manager λ m.
            keep_option _ keep_done λ worker_id.
              keep_then (tame.response_tame f e worker_id _ err) (keep_forget_share resp.id))
  ]

  keep_after_login_job :
      (resp : StratumResponse) → Preserves (Sound pools R) (after_login_job cbs resp)
  unfolding after_login_job
  keep_after_login_job resp =
      search (keeping, keep_handle_share_response, keep_handle_status) depth 9

  keep_handle_response :
      (resp : StratumResponse) → Preserves (Sound pools R) (handle_response cbs resp)
  unfolding handle_response
  keep_handle_response resp = search (keeping, keep_handle_login_job, keep_after_login_job) depth 9

  keep_handle_notify : (v : p.V) → Preserves (Sound pools R) (handle_notify cbs v)
  unfolding handle_notify
  keep_handle_notify v = search (keeping, keep_modify_job, keep_got_job, tame.job_tame) depth 12

  keep_handle_job : (v : p.V) → Preserves (Sound pools R) (handle_job cbs v)
  unfolding handle_job
  keep_handle_job v = search (keeping, keep_modify_job, keep_got_job, tame.job_tame) depth 30

  keep_handle_notification :
      (method : StratumMethod) (v : p.V)
      → Preserves (Sound pools R) (handle_notification cbs method v)
  unfolding handle_notification
  keep_handle_notification notify v = keep_handle_notify v
  keep_handle_notification job v = keep_handle_job v
  keep_handle_notification _ v = keep_done

  keep_dispatch_message :
      (line : Text) (j : p.V) → Preserves (Sound pools R) (dispatch_message cbs line j)
  unfolding dispatch_message response_id
  keep_dispatch_message line j =
      search (keeping, keep_handle_notification, keep_handle_response) depth 9

  -- A message of the pool, whatever its JSON is, keeps the manager sound: the two flags agree, the
  -- index is in range, at most five reconnections are counted, and every share that waits for its
  -- response has an identifier that has been used. This holds also where an exception ends the handler
  -- in the middle, if the callbacks keep the manager sound and unless the handler comes to undefined
  -- behaviour.
  pub on_pool_message-IsSound : (line : Text) → Preserves (Sound pools R) (on_pool_message cbs line)
  unfolding on_pool_message
  on_pool_message-IsSound line =
      keep_catching (keep_bind (keep_or_throw _) (keep_dispatch_message line))

module _ ⦃p : Platform⦄ {pools : List PoolConfig} {R : Rest} where
  -- Submitting a share keeps the manager sound.
  pub submit_share-IsSound :
      (worker_id job_id nonce result : Text)
      → Preserves (Sound pools R) (submit_share worker_id job_id nonce result)
  unfolding submit_share get_next_id
  submit_share-IsSound worker_id job_id nonce result = record {
    apply = λ w s.
        next w s (Bool-cases (not w.pool_manager.connected || not w.pool_manager.has_job))
          (Bool-cases (w.pool_manager.next_id == int_max));
  }
    where
      next :
          (w : World)
          → Holds (Sound pools R) w
          → ((not w.pool_manager.connected || not w.pool_manager.has_job) ≡ true)
            ⊎ ((not w.pool_manager.connected || not w.pool_manager.has_job) ≡ false)
          → ((w.pool_manager.next_id == int_max) ≡ true)
            ⊎ ((w.pool_manager.next_id == int_max) ≡ false)
          → Ends
              (Holds (Sound pools R))
              (Holds (Sound pools R))
              (submit_share worker_id job_id nonce result w)
      next w (s, k) (inl e) d = simp e (ends_ok (s, k))
      next w (s, k) (inr e) (inl d) = simp (e, d) ends_faults
      next w (s, k) (inr e) (inr d) =
          simp (e, d)
            ((keep_bind keep_current_config (λ c. keep_send_to_pool _)).apply _ (
              record {
                configured = s.configured;
                in_range = s.in_range;
                linked = s.linked;
                attempts_bounded = s.attempts_bounded;
                ids_used =
                    KeysBelow-assign (w.pool_manager.next_id + 1) w.pool_manager.next_id worker_id
                      w.pool_manager.share_to_worker (omega arith)
                      (KeysBelow-mono _ _ w.pool_manager.share_to_worker (omega arith) s.ids_used);
              },
              k,
            ))
