-- ===== src/Connection/Connect.antt =====
-- gpu-proxy-cpp/src/connection.cpp: `connect_to_pool`.
use compute_market.Base.{ℕ, Option, none, some, if◌then◌else◌}
use compute_market.Base.Text.{Text}
use compute_market.Platform.{Platform}
use compute_market.World.{ConnectionType, M, ◌>>=◌, ◌>>◌, pure, os_call, os_run}
use compute_market.Connection.State.{no_callback, new_connection, destroy}
use compute_market.Connection.Tls.{setup_tls}

module _ ⦃p : Platform⦄ where
  -- The rest of `connect_to_pool` once the socket is connecting.
  unfoldable pub open_connection : ℕ → Text → Text → M (Option ℕ)
  open_connection fd host name = do
    a ← new_connection fd ConnectionType.pool name
    tls ← setup_tls no_callback a host
    if tls then pure (some a) else do destroy a; pure none

  unfoldable pub abandon : ℕ → M (Option ℕ)
  abandon fd = do os_run (λ s. p.close s fd); pure none

  unfoldable pub connect_socket : ℕ → Text → ℕ → Text → Option p.Address → M (Option ℕ)
  unfolding abandon
  connect_socket fd host port name none = abandon fd
  connect_socket fd host port name (some address) = do
    started ← os_call (λ s. p.connect s fd address port)
    if started then open_connection fd host name else abandon fd

  unfoldable pub with_socket : Text → ℕ → Text → Option ℕ → M (Option ℕ)
  unfolding connect_socket
  with_socket host port name none = pure none
  with_socket host port name (some fd) = do
    nonblocking ← os_call (λ s. p.set_nonblocking s fd)
    if nonblocking
        then (do
          address ← os_call (λ s. p.get_addr_info s host)
          connect_socket fd host port name address)
        else abandon fd

  -- `none` is the null pointer.
  unfoldable pub connect_to_pool : Text → ℕ → Text → M (Option ℕ)
  unfolding with_socket
  connect_to_pool host port name = do fd ← os_call p.socket; with_socket host port name fd
