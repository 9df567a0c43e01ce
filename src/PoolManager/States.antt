-- ===== src/PoolManager/States.antt =====
-- gpu-proxy-cpp/src/pool_manager.cpp: `on_pool_state`, with reconnection and failover.
use compute_market.Base.{ℕ, ◌+◌, ◌%◌, true, false, ◌==◌, ltb, if◌then◌else◌, length}
use compute_market.Platform.{Platform}
use compute_market.World.{
  ConnectionState, disconnected, connecting, connected, authenticated, error, reconnect, M, ◌>>=◌,
  ◌>>◌, pure, done, fault, get_pool_manager, put_pool_manager,
}
use compute_market.EventLoop.Tables.{set_timeout}
use compute_market.PoolManager.Messages.{max_reconnect_attempts, reconnect_delay_ms}
use compute_market.PoolManager.Link.{PoolCallbacks, call_state, try_connect_pool, send_login}

module _ ⦃p : Platform⦄ where
  unfoldable pub on_authenticated : PoolCallbacks → M (Unit {0})
  on_authenticated cbs = do
    m ← get_pool_manager
    put_pool_manager (record m { authenticated = true; connected = true; reconnect_attempts = 0 })
    call_state cbs m.current_pool true

  -- `(current_pool_index_ + 1) % pools_.size()`; a division by 0 is a fault.
  unfoldable pub next_pool_index : M ℕ
  next_pool_index = do
    m ← get_pool_manager
    if length m.pools == 0 then fault else pure ((m.current_pool_index + 1) % length m.pools)

  -- The same pool again after a delay, and the next one after `max_reconnect_attempts`.
  unfoldable pub schedule_reconnect : M (Unit {0})
  schedule_reconnect = do
    m ← get_pool_manager
    if ltb m.reconnect_attempts max_reconnect_attempts
        then (do
          put_pool_manager (record m { reconnect_attempts = m.reconnect_attempts + 1 })
          set_timeout reconnect_delay_ms reconnect false)
        else do
          put_pool_manager (record m { reconnect_attempts = 0 })
          i ← next_pool_index
          try_connect_pool i

  unfoldable pub on_connection_lost : PoolCallbacks → M (Unit {0})
  on_connection_lost cbs = do
    m ← get_pool_manager
    put_pool_manager
        (record m { connected = false; authenticated = false; subscribed = false; has_job = false })
    call_state cbs m.current_pool false
    schedule_reconnect

  unfoldable pub on_pool_state : PoolCallbacks → ConnectionState → M (Unit {0})
  on_pool_state cbs connected = send_login
  on_pool_state cbs authenticated = on_authenticated cbs
  on_pool_state cbs error = on_connection_lost cbs
  on_pool_state cbs disconnected = on_connection_lost cbs
  on_pool_state cbs connecting = done
