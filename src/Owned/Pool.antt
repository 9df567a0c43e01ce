-- ===== src/Owned/Pool.antt =====
-- gpu-proxy-cpp/src/pool_manager.cpp: every method of the pool manager keeps the connections owned.
use compute_market.Base.{
  true, Bool, ℕ, suc, [], ◌∷◌, List, Option, none, some, Option-cases, inl, inr, ◌≡◌, refl,
}
use compute_market.Base.Text.{Text}
use compute_market.Platform.{Platform}
use compute_market.World.{
  store, ConnectionState, connecting, connected, authenticated, error, disconnected, Job,
  PoolConfig, M, done, match_option,
}
use compute_market.Stratum.{StratumMethod, StratumResponse, notify, job}
use compute_market.PoolManager.Link.{
  PoolCallbacks, call_job, call_state, adopt_connection, try_pools, try_connect_pool, start,
  get_next_id, current_config, pool_connection, send_to_pool, send_login,
}
use compute_market.PoolManager.States.{
  on_authenticated, next_pool_index, schedule_reconnect, on_connection_lost, on_pool_state,
}
use compute_market.PoolManager.Responses.{
  adopt_login_job, handle_login_job, handle_status, error_text, handle_share_response, forget_share,
  after_login_job, handle_response, handle_notify, handle_job, handle_notification,
}
use compute_market.PoolManager.Traffic.{
  response_id, dispatch_message, on_pool_message, submit_share,
}
use compute_market.Owned.{Keeps}
use compute_market.Outcome.{load-some}
use compute_market.Owned.Tables.{written}
use compute_market.Owned.Rules.{
  owning, own_bind, own_then, own_done, own_option, own_or_throw, own_catching,
  own_get_pool_manager, own_put_pool_manager,
}
use compute_market.Owned.Pending.{Opens, open_bind, own_opened, own_pending}
use compute_market.Owned.Connections.{own_send_line, open_connect_to_pool}
use compute_market.Owned.Loop.{own_get_connection, own_set_timeout}
use compute_market.Owned.Closing.{open_add_connection}

module _ ⦃p : Platform⦄ where
  -- The pending connection gets its callbacks and goes to the loop.
  open_adopt_connection : (a : ℕ) → Opens (some a) (λ _. none) (adopt_connection a)
  unfolding adopt_connection store
  open_adopt_connection a = record {
    apply = λ w o.
        let (c, e) = o.pending a refl in
        rw (load-some a c w e) (
          (open_add_connection a).apply _
            (written o a (record c { has_callbacks = true }) (c, e, refl)));
  }

  open_made :
      (made : Option ℕ) {k : M (Unit {0})}
      → Keeps none [] k
      → Opens made (λ _. none) (match_option made k λ a. adopt_connection a)
  open_made none h = own_pending h
  open_made (some a) h = open_adopt_connection a

  own_try_pools : (i : ℕ) (rest : List PoolConfig) → Keeps none [] (try_pools i rest)
  unfolding try_pools
  own_try_pools i [] = own_done
  own_try_pools i (pool ∷ rest) = own_bind own_get_pool_manager λ m.
      own_then (own_put_pool_manager _) (
        own_opened (
          open_bind (open_connect_to_pool _ _ _)
            (λ made. open_made made (own_try_pools (suc i) rest))))

  pub own_try_connect_pool : (i : ℕ) → Keeps none [] (try_connect_pool i)
  unfolding try_connect_pool
  own_try_connect_pool i = own_bind own_get_pool_manager (λ m. own_try_pools i _)

  pub own_pool_start : Keeps none [] start
  unfolding start
  own_pool_start = own_bind own_get_pool_manager (λ m. from m.pools)
    where
      from :
          (ps : List PoolConfig)
          → Keeps none [] (elim ps [ [] ↦ done | pool ∷ rest ↦ try_connect_pool 0 ])
      from [] = own_done
      from (pool ∷ rest) = own_try_connect_pool 0

  own_get_next_id : Keeps none [] get_next_id
  unfolding get_next_id
  own_get_next_id = search owning depth 12

  own_current_config : Keeps none [] current_config
  unfolding current_config
  own_current_config = search owning depth 12

  own_send_to_pool : (msg : Text) → Keeps none [] (send_to_pool msg)
  unfolding send_to_pool pool_connection
  own_send_to_pool msg = search (owning, own_get_connection, own_send_line) depth 12

  own_send_login : Keeps none [] send_login
  unfolding send_login
  own_send_login = search (owning, own_current_config, own_get_next_id, own_send_to_pool) depth 9

  own_next_pool_index : Keeps none [] next_pool_index
  unfolding next_pool_index
  own_next_pool_index = search owning depth 9

  own_schedule_reconnect : Keeps none [] schedule_reconnect
  unfolding schedule_reconnect
  own_schedule_reconnect =
      search (owning, own_set_timeout, own_next_pool_index, own_try_connect_pool) depth 12

  own_forget_share : (id : ℕ) → Keeps none [] (forget_share id)
  unfolding forget_share
  own_forget_share id = search owning depth 9

  own_error_text : (e : p.V) → Keeps none [] (error_text e)
  unfolding error_text
  own_error_text e = search owning depth 9

  pub own_submit_share :
      (worker_id job_id nonce result : Text)
      → Keeps none [] (submit_share worker_id job_id nonce result)
  unfolding submit_share
  own_submit_share worker_id job_id nonce result =
      search (owning, own_get_next_id, own_current_config, own_send_to_pool) depth 15

-- What is asked of the callbacks.
pub record Tame ⦃p : Platform⦄ (cbs : PoolCallbacks) : Type 0 where
  pub job_tame : (j : Job) → Keeps none [] (call_job cbs j)
  pub state_tame : (name : Text) (up : Bool) → Keeps none [] (call_state cbs name up)
  pub response_tame :
      (f : Text → Bool → Text → M (Unit {0}))
      → cbs.share_response_cb ≡ some f
      → (worker_id : Text) (accepted : Bool) (err : Text) → Keeps none [] (f worker_id accepted err)

module _ ⦃p : Platform⦄ {cbs : PoolCallbacks} (tame : Tame cbs) where
  own_on_authenticated : Keeps none [] (on_authenticated cbs)
  unfolding on_authenticated
  own_on_authenticated = search (owning, tame.state_tame) depth 9

  own_on_connection_lost : Keeps none [] (on_connection_lost cbs)
  unfolding on_connection_lost
  own_on_connection_lost = search (owning, tame.state_tame, own_schedule_reconnect) depth 9

  pub own_on_pool_state : (s : ConnectionState) → Keeps none [] (on_pool_state cbs s)
  unfolding on_pool_state
  own_on_pool_state connected = own_send_login
  own_on_pool_state authenticated = own_on_authenticated
  own_on_pool_state error = own_on_connection_lost
  own_on_pool_state disconnected = own_on_connection_lost
  own_on_pool_state connecting = own_done

  own_adopt_login_job : (v : p.V) → Keeps none [] (adopt_login_job cbs v)
  unfolding adopt_login_job
  own_adopt_login_job v = search (owning, own_on_pool_state, tame.job_tame) depth 30

  own_handle_login_job : (resp : StratumResponse) → Keeps none [] (handle_login_job cbs resp)
  unfolding handle_login_job
  own_handle_login_job resp = search (owning, own_adopt_login_job) depth 12

  own_handle_status : (v : p.V) → Keeps none [] (handle_status cbs v)
  unfolding handle_status
  own_handle_status v = search (owning, own_on_pool_state) depth 12

  own_handle_share_response :
      (resp : StratumResponse) → Keeps none [] (handle_share_response cbs resp)
  unfolding handle_share_response
  own_handle_share_response resp = elim (Option-cases cbs.share_response_cb) [
    | inl e ↦ rw (e, handle_share_response) own_done
    | inr (f, e) ↦
        rw (e, handle_share_response)
          (own_bind (own_error_text resp.error) λ err. own_bind own_get_pool_manager λ m.
            own_option _ own_done λ worker_id.
              own_then (tame.response_tame f e worker_id _ err) (own_forget_share resp.id))
  ]

  own_after_login_job : (resp : StratumResponse) → Keeps none [] (after_login_job cbs resp)
  unfolding after_login_job
  own_after_login_job resp = search (owning, own_handle_share_response, own_handle_status) depth 9

  own_handle_response : (resp : StratumResponse) → Keeps none [] (handle_response cbs resp)
  unfolding handle_response
  own_handle_response resp = search (owning, own_handle_login_job, own_after_login_job) depth 9

  own_handle_notify : (v : p.V) → Keeps none [] (handle_notify cbs v)
  unfolding handle_notify
  own_handle_notify v = search (owning, tame.job_tame) depth 15

  own_handle_job : (v : p.V) → Keeps none [] (handle_job cbs v)
  unfolding handle_job
  own_handle_job v = search (owning, tame.job_tame) depth 40

  own_handle_notification :
      (method : StratumMethod) (v : p.V) → Keeps none [] (handle_notification cbs method v)
  unfolding handle_notification
  own_handle_notification notify v = own_handle_notify v
  own_handle_notification job v = own_handle_job v
  own_handle_notification _ v = own_done

  own_dispatch_message : (line : Text) (j : p.V) → Keeps none [] (dispatch_message cbs line j)
  unfolding dispatch_message response_id
  own_dispatch_message line j =
      search (owning, own_handle_notification, own_handle_response) depth 9

  pub own_on_pool_message : (line : Text) → Keeps none [] (on_pool_message cbs line)
  unfolding on_pool_message
  own_on_pool_message line = own_catching (own_bind (own_or_throw _) (own_dispatch_message line))
