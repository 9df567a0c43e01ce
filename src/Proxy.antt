-- ===== src/Proxy.antt =====
-- gpu-proxy-cpp/src/main.cpp: `GPUProxy`, which wires the two managers to the event loop.
pub mod Hangup
pub mod LostShares
pub mod Reachable
pub mod Losses
pub mod Logins
pub mod Answers
pub mod Refinement
pub mod Shares
pub mod Whitelist
pub mod Ticking
pub mod Clock
pub mod Running
pub mod Whole
pub mod Ownership
pub mod Lines
pub mod Jobs
pub mod Submissions
pub mod Teardown
pub mod Kept
pub mod Timing
pub mod Main
pub mod CommandLine
pub mod Exit
use compute_market.Base.{
  ℕ, Bool, true, false, not, List, [], ◌∷◌, Option, none, some, if◌then◌else◌,
}
use compute_market.Base.Text.{Text}
use compute_market.Platform.{Platform}
use compute_market.World.{
  Connection, ConnectionState, ConnectionType, PoolConfig, WorkerConfig, TimeoutCallback,
  accept_worker as accept_callback, reconnect, PoolManager, WorkerManager, EventLoop, World, Output,
  share_response, pool_state, ok, throws, faults, M, and_then, ◌>>=◌, ◌>>◌, pure, done, emit, load,
  get_pool_manager,
}
use compute_market.World.{Job}
use compute_market.Stratum.{blank_job}
use compute_market.Connection.{is_pool, StateCallback, MessageCallback}
use compute_market.PoolManager.{
  PoolCallbacks, on_pool_state, on_pool_message, submit_share, try_connect_pool,
}
use compute_market.PoolManager
use compute_market.WorkerManager.{
  ShareCallback, send_job, accept_worker, on_worker_state, on_worker_message,
}
use compute_market.WorkerManager
use compute_market.EventLoop.{ConnectionCallbacks, run}
use compute_market.EventLoop.Run.{is_nil}

module _ ⦃p : Platform⦄ where
  -- The callbacks that `GPUProxy::start` sets.
  abbrev pub pool_callbacks : PoolCallbacks
  pool_callbacks = record {
    job_cb = some (λ job. send_job job);
    share_response_cb =
        some (λ worker_id accepted err. emit (share_response worker_id accepted err));
    state_cb = some (λ name up. emit (pool_state name up));
  }

  abbrev pub share_callback : ShareCallback
  share_callback =
      some (λ worker_id job_id nonce result. submit_share worker_id job_id nonce result)

  on_state_of : Bool → ℕ → StateCallback
  on_state_of true a s = on_pool_state pool_callbacks s
  on_state_of false a s = on_worker_state a s

  on_message_of : Bool → ℕ → MessageCallback
  on_message_of true a line = on_pool_message pool_callbacks line
  on_message_of false a line = on_worker_message share_callback a line

  -- The lambdas that the managers set on their connections.
  unfoldable pub connection_state : ℕ → StateCallback
  unfolding on_state_of
  connection_state a s = do c ← load a; on_state_of (is_pool c.type) a s

  unfoldable pub connection_message : ℕ → MessageCallback
  unfolding on_message_of
  connection_message a line = do c ← load a; on_message_of (is_pool c.type) a line

  abbrev pub connection_callbacks : ConnectionCallbacks
  connection_callbacks = record { on_state = connection_state; on_message = connection_message }

  unfoldable pub on_timeout : TimeoutCallback → M (Unit {0})
  on_timeout accept_callback = accept_worker
  on_timeout reconnect = do m ← get_pool_manager; try_connect_pool m.current_pool_index

  -- The managers and the loop as their constructors make them.
  first_name : List PoolConfig → Text
  first_name [] = []
  first_name (pool ∷ rest) = pool.name

  -- A `Job` that is a member: its last two members are never initialised.
  abbrev pub undefined_job : Job
  undefined_job = record blank_job {
    height = p.indeterminate_uint64;
    clean_jobs = p.indeterminate_bool;
  }

  unfoldable pub new_pool_manager : List PoolConfig → PoolManager
  unfolding first_name
  new_pool_manager pools = record {
    pools = pools;
    current_pool_index = 0;
    current_pool = first_name pools;
    pool_conn = none;
    pool_fd = none;
    connected = false;
    authenticated = false;
    subscribed = false;
    current_job = undefined_job;
    has_job = false;
    share_to_worker = [];
    next_id = 1;
    reconnect_attempts = 0;
  }

  unfoldable pub new_worker_manager : ℕ → List WorkerConfig → WorkerManager
  new_worker_manager port workers = record {
    listen_fd = none;
    listen_port = port;
    workers = [];
    worker_configs = workers;
    require_whitelist = not (is_nil workers);
    current_job = undefined_job;
    has_job = false;
    next_extra_nonce2 = 0;
  }

  abbrev pub new_event_loop : EventLoop
  new_event_loop = record { connections = []; timeouts = []; running = false }

  unfoldable pub new_world : List PoolConfig → ℕ → List WorkerConfig → p.S → World
  unfolding new_pool_manager new_worker_manager
  new_world pools port workers os = record {
    heap = [];
    next_address = 0;
    loop = new_event_loop;
    pool_manager = new_pool_manager pools;
    worker_manager = new_worker_manager port workers;
    os = os;
    trace = [];
  }

  -- `GPUProxy::start`
  unfoldable pub start : M Bool
  start = do
    m ← get_pool_manager
    if is_nil m.pools then pure false else do PoolManager.start; WorkerManager.start; pure true

  unfoldable pub run_proxy : ℕ → M Bool
  run_proxy rounds = run connection_callbacks on_timeout rounds
