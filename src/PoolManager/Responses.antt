-- ===== src/PoolManager/Responses.antt =====
-- gpu-proxy-cpp/src/pool_manager.cpp: what the pool answers and announces.
use compute_market.Base.{ℕ, Bool, true, false, ◌||◌, not, [], none, some, if◌then◌else◌, String}
use compute_market.Base.Text.{Text, text, text_eq}
use compute_market.Base.Table.{find, erase}
use compute_market.Platform.{Platform}
use compute_market.World.{
  match_option, authenticated, error, Job, M, ◌>>=◌, ◌>>◌, pure, done, fault, throw, or_throw,
  get_pool_manager, put_pool_manager,
}
use compute_market.Stratum.{StratumMethod, notify, job, StratumResponse, from_notify}
use compute_market.PoolManager.Link.{PoolCallbacks, call_job}
use compute_market.PoolManager.States.{on_pool_state}

module _ ⦃p : Platform⦄ where
  abbrev pub modify_job : (Job → Job) → M (Unit {0})
  modify_job f = do
    m ← get_pool_manager
    put_pool_manager (record m { current_job = f m.current_job })

  abbrev pub got_job : M (Unit {0})
  got_job = do m ← get_pool_manager; put_pool_manager (record m { has_job = true })

  abbrev pub set_job_id : p.V → M (Unit {0})
  set_job_id v = do s ← or_throw (p.get_string v); modify_job λ j. record j { job_id = s }

  abbrev pub set_blob : p.V → M (Unit {0})
  set_blob v = do s ← or_throw (p.get_string v); modify_job λ j. record j { blob = s }

  abbrev pub set_target : p.V → M (Unit {0})
  set_target v = do s ← or_throw (p.get_string v); modify_job λ j. record j { target = s }

  abbrev pub set_height : p.V → M (Unit {0})
  set_height v = do h ← or_throw (p.get_uint64 v); modify_job λ j. record j { height = h }

  -- A key that `operator[]` does not find in a mutable value is added with null, which is no text.
  unfoldable pub mutable_member : p.V → String → M p.V
  mutable_member j k = or_throw (p.member j k)

  -- In a constant object it is a failed assertion; a constant value that is not an object throws.
  unfoldable pub const_member : p.V → String → M p.V
  const_member j k =
      match_option (p.member j k) (if p.is_object j then fault else throw) λ v. pure v

  -- The job of a login response; true if the response is dealt with.
  unfoldable pub adopt_login_job : PoolCallbacks → p.V → M Bool
  unfolding mutable_member
  adopt_login_job cbs result_job = match_option (p.member result_job "job_id") (pure false) λ id.
      match_option (p.member result_job "blob") (pure false) λ blob. do
        set_job_id id
        set_blob blob
        target ← mutable_member result_job "target"
        set_target target
        match_option (p.member result_job "height") done λ h. set_height h
        got_job
        on_pool_state cbs authenticated
        m ← get_pool_manager
        call_job cbs m.current_job
        pure true

  -- The first part of `handle_response`: true if it returns.
  unfoldable pub handle_login_job : PoolCallbacks → StratumResponse → M Bool
  handle_login_job cbs resp = do
    m ← get_pool_manager
    if m.authenticated
        then pure false
        else match_option (p.member resp.result "job") (pure false) λ result_job. do
          put_pool_manager (record m { authenticated = true; connected = true; subscribed = true })
          adopt_login_job cbs result_job

  -- The second part, on the status of a login.
  unfoldable pub handle_status : PoolCallbacks → p.V → M (Unit {0})
  handle_status cbs v = do
    status ← or_throw (p.get_string v)
    if text_eq status (text "OK")
        then (do
          m ← get_pool_manager
          put_pool_manager (record m { authenticated = true; connected = true })
          on_pool_state cbs authenticated)
        else on_pool_state cbs error

  unfoldable pub error_text : p.V → M Text
  error_text e = if p.is_string e then or_throw (p.get_string e) else pure []

  -- `share_to_worker_.erase(it)`
  unfoldable pub forget_share : ℕ → M (Unit {0})
  forget_share id = do
    m ← get_pool_manager
    put_pool_manager (record m { share_to_worker = erase id m.share_to_worker })

  -- The third part: the response to a share.
  unfoldable pub handle_share_response : PoolCallbacks → StratumResponse → M (Unit {0})
  unfolding error_text
  handle_share_response cbs resp = elim cbs.share_response_cb [
    | none ↦ done
    | some respond ↦ do
      let accepted = p.is_null resp.error || p.empty resp.error
      error_str ← error_text resp.error
      m ← get_pool_manager
      match_option (find resp.id m.share_to_worker) done
          λ worker_id. do respond worker_id accepted error_str; forget_share resp.id
  ]

  unfoldable pub after_login_job : PoolCallbacks → StratumResponse → M (Unit {0})
  after_login_job cbs resp = do
    m ← get_pool_manager
    if m.authenticated
        then handle_share_response cbs resp
        else match_option (p.member resp.result "status") done λ v. handle_status cbs v

  unfoldable pub handle_response : PoolCallbacks → StratumResponse → M (Unit {0})
  unfolding after_login_job
  handle_response cbs resp =
      if not (p.is_object resp.result) || p.empty resp.result then done else do
        returned ← handle_login_job cbs resp
        if returned then done else after_login_job cbs resp

  unfoldable pub handle_notify : PoolCallbacks → p.V → M (Unit {0})
  handle_notify cbs params = do
    j ← or_throw (from_notify params)
    modify_job (λ _. j)
    got_job
    call_job cbs j

  unfoldable pub handle_job : PoolCallbacks → p.V → M (Unit {0})
  unfolding const_member
  handle_job cbs params = match_option (p.member params "job_id") done λ id.
      match_option (p.member params "blob") done λ blob. do
        set_job_id id
        set_blob blob
        target ← const_member params "target"
        set_target target
        height ← const_member params "height"
        set_height height
        got_job
        m ← get_pool_manager
        call_job cbs m.current_job

  unfoldable pub handle_notification : PoolCallbacks → StratumMethod → p.V → M (Unit {0})
  unfolding handle_notify handle_job
  handle_notification cbs notify params = handle_notify cbs params
  handle_notification cbs job params = handle_job cbs params
  handle_notification cbs _ params = done
