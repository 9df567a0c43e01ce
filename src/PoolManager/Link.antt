-- ===== src/PoolManager/Link.antt =====
-- gpu-proxy-cpp/src/pool_manager.cpp: the choice of a pool, and the connection to it.
use compute_market.Base.{
  ℕ, suc, ◌+◌, Bool, true, List, [], ◌∷◌, ◌++◌, Option, none, some, ◌==◌, if◌then◌else◌, get_elem?,
  drop,
}
use compute_market.Base.Text.{Text, text}
use compute_market.Platform.{Platform}
use compute_market.World.{
  match_option, Job, PoolConfig, M, ◌>>=◌, ◌>>◌, pure, done, fault, load, store, get_pool_manager,
  put_pool_manager,
}
use compute_market.Connection.{send_line, connect_to_pool}
use compute_market.EventLoop.{add_connection, get_connection}
use compute_market.PoolManager.Messages.{int_max, login_message}

module _ ⦃p : Platform⦄ where
  -- The three callbacks, `none` where none is set.
  pub record PoolCallbacks : Type 0 where
    pub job_cb : Option (Job → M (Unit {0}))
    pub share_response_cb : Option (Text → Bool → Text → M (Unit {0}))
    pub state_cb : Option (Text → Bool → M (Unit {0}))

  abbrev pub call_job : PoolCallbacks → Job → M (Unit {0})
  call_job cbs j = match_option cbs.job_cb done λ f. f j

  abbrev pub call_state : PoolCallbacks → Text → Bool → M (Unit {0})
  call_state cbs name up = match_option cbs.state_cb done λ f. f name up

  -- The end of `try_connect_pool`: the callbacks are set, and the event loop takes the connection.
  unfoldable pub adopt_connection : ℕ → M (Unit {0})
  adopt_connection a = do
    c ← load a
    store a (record c { has_callbacks = true })
    m ← get_pool_manager
    put_pool_manager (record m { pool_fd = some c.fd; pool_conn = some a })
    add_connection a

  -- `try_connect_pool` over the pools from `pool_index` on.
  unfoldable pub try_pools : ℕ → List PoolConfig → M (Unit {0})
  try_pools pool_index [] = done
  try_pools pool_index (pool ∷ rest) = do
    m ← get_pool_manager
    put_pool_manager (record m { current_pool_index = pool_index; current_pool = pool.name })
    made ← connect_to_pool pool.host pool.port (text "pool:" ++ pool.name)
    match_option made (try_pools (suc pool_index) rest) λ a. adopt_connection a

  unfoldable pub try_connect_pool : ℕ → M (Unit {0})
  try_connect_pool pool_index = do
    m ← get_pool_manager
    try_pools pool_index (drop pool_index m.pools)

  unfoldable pub start : M (Unit {0})
  start = do m ← get_pool_manager; elim m.pools [ [] ↦ done | pool ∷ rest ↦ try_connect_pool 0 ]

  unfoldable pub get_next_id : M ℕ
  get_next_id = do
    m ← get_pool_manager
    if m.next_id == int_max
        then fault
        else do put_pool_manager (record m { next_id = m.next_id + 1 }); pure m.next_id

  -- `pools_[current_pool_index_]`
  unfoldable pub current_config : M PoolConfig
  current_config = do
    m ← get_pool_manager
    match_option (get_elem? m.pools m.current_pool_index) fault λ c. pure c

  -- `loop_.get_connection(pool_conn_ ? pool_fd_ : -1)`
  unfoldable pub pool_connection : M (Option ℕ)
  pool_connection = do
    m ← get_pool_manager
    match_option m.pool_conn (pure none)
        λ a. match_option m.pool_fd (pure none) λ fd. get_connection fd

  -- `if (conn && conn->send_line(msg))`, which only logs.
  unfoldable pub send_to_pool : Text → M (Unit {0})
  unfolding pool_connection
  send_to_pool msg = do
    conn ← pool_connection
    match_option conn done λ a. do _ ← send_line a msg; done

  unfoldable pub send_login : M (Unit {0})
  send_login = do pool ← current_config; id ← get_next_id; send_to_pool (login_message pool id)
