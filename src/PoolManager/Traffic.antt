-- ===== src/PoolManager/Traffic.antt =====
-- gpu-proxy-cpp/src/pool_manager.cpp: `on_pool_message` and `submit_share`.
use compute_market.Base.{ℕ, ◌||◌, not, none, some, if◌then◌else◌, String}
use compute_market.Base.Text.{Text}
use compute_market.Base.Table.{assign}
use compute_market.Platform.{Platform}
use compute_market.World.{
  match_option, M, ◌>>=◌, ◌>>◌, pure, done, catching, or_throw, get_pool_manager, put_pool_manager,
}
use compute_market.Stratum.{contains, parse_request}
use compute_market.PoolManager.Messages.{submit_message}
use compute_market.PoolManager.Link.{PoolCallbacks, get_next_id, current_config, send_to_pool}
use compute_market.PoolManager.Responses.{handle_response, handle_notification}

module _ ⦃p : Platform⦄ where
  -- The fields of a response; an absent `id` leaves an uninitialised `int`.
  unfoldable pub response_id : p.V → M ℕ
  response_id j = match_option (p.member j "id") (pure p.indeterminate) λ v. or_throw (p.get_int v)

  abbrev pub member_or_null : p.V → String → p.V
  member_or_null j k = elim (p.member j k) [ none ↦ p.null | some v ↦ v ]

  unfoldable pub dispatch_message : PoolCallbacks → Text → p.V → M (Unit {0})
  unfolding response_id
  dispatch_message cbs line j =
      if contains j "method"
      then (let req = parse_request line in handle_notification cbs req.method req.params)
      else do
        id ← response_id j
        handle_response cbs (record {
          id = id;
          result = member_or_null j "result";
          error = member_or_null j "error";
        })

  unfoldable pub on_pool_message : PoolCallbacks → Text → M (Unit {0})
  on_pool_message cbs line = catching do j ← or_throw (p.parse line); dispatch_message cbs line j

  unfoldable pub submit_share : Text → Text → Text → Text → M (Unit {0})
  submit_share worker_id job_id nonce result = do
    m ← get_pool_manager
    if not m.connected || not m.has_job then done else do
      id ← get_next_id
      m' ← get_pool_manager
      put_pool_manager (record m' { share_to_worker = assign id worker_id m'.share_to_worker })
      _ ← current_config
      send_to_pool (submit_message id worker_id job_id nonce result)
