-- ===== src/WorkerManager/Requests.antt =====
-- gpu-proxy-cpp/src/worker_manager.cpp: the requests of a worker.
use compute_market.Base.{
  ℕ, Bool, true, false, ◌&&◌, List, [], ◌∷◌, if◌then◌else◌, length, leb, String,
}
use compute_market.Base.Text.{Text}
use compute_market.Base.Table.{find, assign}
use compute_market.Platform.{Platform}
use compute_market.World.{
  match_option, WorkerInfo, WorkerManager, M, ◌>>=◌, ◌>>◌, pure, done, catching, or_throw, load,
  get_worker_manager, put_worker_manager,
}
use compute_market.Stratum.{
  StratumMethod, subscribe, authorize, submit, login, monero_submit, StratumRequest, parse_request,
}
use compute_market.Connection.{send_line}
use compute_market.WorkerManager.Messages.{
  subscribe_response, authorize_response, login_response, login_response_with_job, submit_response,
}
use compute_market.WorkerManager.Jobs.{allowed, ShareCallback, close_worker, resend_job}

module _ ⦃p : Platform⦄ where
  -- A handler's `it->second`, written back.
  abbrev pub update_worker : ℕ → (WorkerInfo → WorkerInfo) → M (Unit {0})
  update_worker fd f = do
    m ← get_worker_manager
    match_option (find fd m.workers) done
        λ info. put_worker_manager (record m { workers = assign fd (f info) m.workers })

  -- What every handler does first: `workers_.find(conn->fd())`.
  abbrev pub known_worker : ℕ → (ℕ → WorkerInfo → M (Unit {0})) → M (Unit {0})
  known_worker a body = do
    c ← load a
    m ← get_worker_manager
    match_option (find c.fd m.workers) done λ info. body c.fd info

  unfoldable pub handle_subscribe : ℕ → StratumRequest → M (Unit {0})
  handle_subscribe a req = known_worker a λ fd info. do
    _ ← send_line a (subscribe_response req.id)
    update_worker fd (λ i. record i { subscribed = true })
    resend_job

  unfoldable pub authorize_name : p.V → M Text
  authorize_name params =
      if p.is_array params
      then elim (p.elements params) [ [] ↦ pure [] | v ∷ rest ↦ or_throw (p.get_string v) ]
      else pure []

  unfoldable pub handle_authorize : ℕ → StratumRequest → M (Unit {0})
  unfolding authorize_name
  handle_authorize a req = known_worker a λ fd info. do
    worker_id ← authorize_name req.params
    update_worker fd (λ i. record i { worker_id = worker_id })
    m ← get_worker_manager
    _ ← send_line a (authorize_response req.id (allowed m worker_id))
    if allowed m worker_id
        then update_worker fd (λ i. record i { authorized = true })
        else close_worker info

  unfoldable pub login_name : p.V → M Text
  login_name params =
      if p.is_object params
      then match_option (p.member params "login") (pure []) (λ v. or_throw (p.get_string v))
      else pure []

  unfoldable pub login_answer : WorkerManager → ℕ → ℕ → Text
  login_answer m id fd =
      if m.has_job then login_response_with_job id fd m.current_job else login_response id fd

  unfoldable pub handle_login : ℕ → StratumRequest → M (Unit {0})
  unfolding login_name login_answer
  handle_login a req = known_worker a λ fd info. do
    worker_id ← login_name req.params
    update_worker fd (λ i. record i { worker_id = worker_id })
    m ← get_worker_manager
    _ ← send_line a (login_answer m req.id fd)
    if allowed m worker_id
        then update_worker fd (λ i. record i { subscribed = true; authorized = true })
        else close_worker info

  pub record Share : Type 0 where
    pub worker_id : Text
    pub job_id : Text
    pub nonce : Text
    pub result : Text

  abbrev pub no_share : Share
  no_share = record { worker_id = []; job_id = []; nonce = []; result = [] }

  -- A field that is absent stays empty.
  unfoldable pub text_member : p.V → String → M Text
  text_member j k = match_option (p.member j k) (pure []) λ v. or_throw (p.get_string v)

  unfoldable pub monero_share : p.V → M Share
  unfolding text_member
  monero_share params = do
    worker_id ← text_member params "id"
    job_id ← text_member params "job_id"
    nonce ← text_member params "nonce"
    result ← text_member params "result"
    pure (record { worker_id = worker_id; job_id = job_id; nonce = nonce; result = result })

  unfoldable pub array_share : List p.V → M Share
  array_share (a ∷ b ∷ c ∷ d ∷ rest) = do
    worker_id ← or_throw (p.get_string a)
    job_id ← or_throw (p.get_string b)
    nonce ← or_throw (p.get_string c)
    result ← or_throw (p.get_string d)
    pure (record { worker_id = worker_id; job_id = job_id; nonce = nonce; result = result })
  array_share _ = pure no_share

  abbrev is_monero : StratumMethod → Bool
  is_monero monero_submit = true
  is_monero _ = false

  unfoldable pub read_share : StratumMethod → p.V → M Share
  unfolding monero_share array_share
  read_share method params =
      if is_monero method && p.is_object params
      then monero_share params
      else if p.is_array params && leb 4 (length (p.elements params))
      then array_share (p.elements params)
      else pure no_share

  unfoldable pub handle_submit : ShareCallback → ℕ → StratumRequest → M (Unit {0})
  handle_submit share_cb a req = known_worker a λ fd info. do
    share ← read_share req.method req.params
    _ ← send_line a (submit_response req.id)
    match_option share_cb done
        λ submit_to_pool. submit_to_pool share.worker_id share.job_id share.nonce share.result

  unfoldable pub dispatch_request :
      ShareCallback → ℕ → StratumMethod → StratumRequest → M (Unit {0})
  dispatch_request share_cb a subscribe req = handle_subscribe a req
  dispatch_request share_cb a authorize req = handle_authorize a req
  dispatch_request share_cb a login req = handle_login a req
  dispatch_request share_cb a submit req = handle_submit share_cb a req
  dispatch_request share_cb a monero_submit req = handle_submit share_cb a req
  dispatch_request share_cb a _ req = done

  unfoldable pub on_worker_message : ShareCallback → ℕ → Text → M (Unit {0})
  unfolding dispatch_request
  on_worker_message share_cb a line =
      catching
        do _ ← load a; let req = parse_request line; dispatch_request share_cb a req.method req
