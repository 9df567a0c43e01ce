-- ===== src/WorkerManager/Accept.antt =====
-- gpu-proxy-cpp/src/worker_manager.cpp: workers come and go.
use compute_market.Base.{ℕ, true, false, not, [], ◌++◌, Option, some, if◌then◌else◌}
use compute_market.Base.Text.{Text, text, to_string, hex8}
use compute_market.Base.Table.{assign, erase}
use compute_market.Platform.{Platform, Peer}
use compute_market.World.{
  match_option, ConnectionState, disconnected, connecting, connected, authenticated, error,
  ConnectionType, WorkerInfo, WorkerManager, accept_worker as accept_callback, M, ◌>>=◌, ◌>>◌, done,
  os_call, os_run, load, store, get_worker_manager, put_worker_manager,
}
use compute_market.Connection.{new_connection}
use compute_market.EventLoop.Tables.{add_connection, get_connection, set_timeout}
use compute_market.WorkerManager.Jobs.{next32, resend_job}

module _ ⦃p : Platform⦄ where
  -- `start`, with the manager as it was then.
  unfoldable pub start_listening : WorkerManager → M (Unit {0})
  start_listening m = do
    made ← os_call p.socket
    match_option made done λ fd. do
      bound ← os_call (λ s. p.bind s fd m.listen_port)
      if not bound then os_run (λ s. p.close s fd) else do
        listening ← os_call (λ s. p.listen s fd)
        if not listening then os_run (λ s. p.close s fd) else do
          _ ← os_call (λ s. p.set_nonblocking s fd)
          put_worker_manager (record m { listen_fd = some fd })
          set_timeout 100 accept_callback true

  unfoldable pub start : M (Unit {0})
  unfolding start_listening
  start = do m ← get_worker_manager; start_listening m

  -- `~WorkerManager`
  unfoldable pub destroy_worker_manager : M (Unit {0})
  destroy_worker_manager = do
    m ← get_worker_manager
    match_option m.listen_fd done λ fd. os_run (λ s. p.close s fd)

  worker_name : Peer → Text
  worker_name peer = text "worker:" ++ (peer.ip ++ (text ":" ++ to_string peer.port))

  -- `workers_[client_fd] = info`, under the next nonce.
  unfoldable pub register_worker : ℕ → Option ℕ → M (Unit {0})
  register_worker fd conn = do
    m ← get_worker_manager
    let info : WorkerInfo = record {
      conn = conn;
      worker_id = [];
      subscribed = false;
      authorized = false;
      extra_nonce2 = hex8 m.next_extra_nonce2;
    }
    put_worker_manager (record m {
      workers = assign fd info m.workers;
      next_extra_nonce2 = next32 m.next_extra_nonce2;
    })

  unfoldable pub welcome : Peer → M (Unit {0})
  unfolding worker_name
  welcome peer = do
    a ← new_connection peer.fd ConnectionType.worker (worker_name peer)
    c ← load a
    store a (record c { has_callbacks = true })
    add_connection a
    conn ← get_connection peer.fd
    register_worker peer.fd conn
    resend_job

  unfoldable pub accept_worker : M (Unit {0})
  accept_worker = do
    m ← get_worker_manager
    match_option m.listen_fd done λ listen_fd. do
      peer ← os_call (λ s. p.accept s listen_fd)
      match_option peer done λ client. welcome client

  unfoldable pub forget_worker : ℕ → M (Unit {0})
  forget_worker fd = do
    m ← get_worker_manager
    put_worker_manager (record m { workers = erase fd m.workers })

  unfoldable pub on_worker_state : ℕ → ConnectionState → M (Unit {0})
  unfolding forget_worker
  on_worker_state a error = do c ← load a; forget_worker c.fd
  on_worker_state a disconnected = do c ← load a; forget_worker c.fd
  on_worker_state a connected = do _ ← load a; done
  on_worker_state a connecting = do _ ← load a; done
  on_worker_state a authenticated = do _ ← load a; done
