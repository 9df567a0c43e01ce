-- ===== src/Proxy/Ownership.antt =====
-- gpu-proxy-cpp/src/main.cpp: from the constructors through the start and any number of rounds, the
-- loop owns just the connections that are alive.
use compute_market.Base.{
  ℕ, ◌≡◌, sym, ap, ◌∙◌, ◌↔◌, Bool, true, false, List, [], none, some, inl, inr,
}
use compute_market.Base.Text.{Text}
use compute_market.Base.Table.{find}
use mathlib.Core.Option.{some-injective}
use compute_market.Platform.{Platform}
use compute_market.World.{
  Connection, ConnectionState, PoolConfig, WorkerConfig, TimeoutCallback,
  accept_worker as accept_callback, reconnect, World, M, and_then,
}
use compute_market.Outcome.{Ends, Ends-bind, Ends-mono}
use compute_market.Connection.State.{is_pool}
use compute_market.EventLoop.Run.{is_nil}
use compute_market.Proxy.{
  pool_callbacks, share_callback, connection_callbacks, connection_state, connection_message,
  on_state_of, on_message_of, on_timeout, new_world, start, run_proxy,
}
use compute_market.Owned.{Owned, Keeps}
use compute_market.Owned.Rules.{
  own_bind, own_then, own_pure, own_emit, own_read, own_if, own_get_pool_manager,
}
use compute_market.Owned.Loop.{own_run}
use compute_market.Owned.Pool.{
  Tame, own_on_pool_state, own_on_pool_message, own_submit_share, own_try_connect_pool,
  own_pool_start,
}
use compute_market.Owned.Workers.{
  own_send_job, own_accept_worker, own_on_worker_state, own_on_worker_message, own_worker_start,
}

module _ ⦃p : Platform⦄ where
  callbacks-Tame : Tame pool_callbacks
  callbacks-Tame = record {
    job_tame = λ job. own_send_job job;
    state_tame = λ name up. own_emit _;
    response_tame = λ f e worker_id accepted err. rw (← some-injective _ _ e) (own_emit _);
  }

  own_share_callback :
      (f : Text → Text → Text → Text → M (Unit {0}))
      → share_callback ≡ some f
      → (w j n r : Text) → Keeps none [] (f w j n r)
  own_share_callback f e w j n r = rw (← some-injective _ _ e) (own_submit_share w j n r)

  own_connection_state : (a : ℕ) (s : ConnectionState) → Keeps none [] (connection_state a s)
  unfolding connection_state
  own_connection_state a s = own_read a (λ c. of_type (is_pool c.type))
    where
      of_type : (b : Bool) → Keeps none [] (on_state_of b a s)
      of_type true = own_on_pool_state callbacks-Tame s
      of_type false = own_on_worker_state a s

  own_connection_message : (a : ℕ) (line : Text) → Keeps none [] (connection_message a line)
  unfolding connection_message
  own_connection_message a line = own_read a (λ c. of_type (is_pool c.type))
    where
      of_type : (b : Bool) → Keeps none [] (on_message_of b a line)
      of_type true = own_on_pool_message callbacks-Tame line
      of_type false = own_on_worker_message share_callback own_share_callback a line

  own_on_timeout : (cb : TimeoutCallback) → Keeps none [] (on_timeout cb)
  unfolding on_timeout
  own_on_timeout accept_callback = own_accept_worker
  own_on_timeout reconnect = own_bind own_get_pool_manager (λ m. own_try_connect_pool _)

  own_start : Keeps none [] start
  unfolding start
  own_start = own_bind own_get_pool_manager λ m.
      own_if (is_nil m.pools) (own_pure _)
        (own_then own_pool_start (own_then own_worker_start (own_pure true)))

  own_run_proxy : (rounds : ℕ) → Keeps none [] (run_proxy rounds)
  unfolding run_proxy
  own_run_proxy rounds =
      own_run connection_callbacks on_timeout own_connection_state own_connection_message
        own_on_timeout rounds

  -- A connection is alive under its descriptor just if the loop's table lists it there.
  abbrev pub OwnsAll : World → Type 0
  OwnsAll w =
      (fd a : ℕ)
      → (find fd w.loop.connections ≡ some a)
        ↔ ((c : Connection) × (find a w.heap ≡ some c) × (c.fd ≡ fd))

  alive-listed :
      (w : World)
      → Owned none [] w
      → (fd a : ℕ) (c : Connection) → find a w.heap ≡ some c
      → c.fd ≡ fd
      → find fd w.loop.connections ≡ some a
  alive-listed w o fd a c e f = elim (o.owned a c e) [
    | inl q ↦ cc
    | inr h ↦ ap (λ n. find n w.loop.connections) (sym f) ∙ h
  ]

  Owned-OwnsAll : (w : World) → Owned none [] w → OwnsAll w
  Owned-OwnsAll w o fd a = (o.listed fd a, λ l. alive-listed w o fd a l.0 l.1 l.2)

  new_world-Owned :
      (pools : List PoolConfig) (port : ℕ) (workers : List WorkerConfig) (os : p.S)
      → Owned none [] (new_world pools port workers os)
  unfolding new_world find
  new_world-Owned pools port workers os = record {
    listed = λ fd a h. cc;
    owned = λ a c h. cc;
    pending = λ a h. cc;
    unlisted = λ fd a h. cc;
    fresh = λ a c h. cc;
    unique = tt;
    known = tt;
  }

  pub run_proxy-Owned :
      (pools : List PoolConfig) (port : ℕ) (workers : List WorkerConfig) (os : p.S) (rounds : ℕ)
      → Ends
          (Owned none [])
          (Owned none [])
          (and_then (start (new_world pools port workers os)) (λ _. run_proxy rounds))
  run_proxy-Owned pools port workers os rounds =
      Ends-bind _ (own_start.apply _ (new_world-Owned pools port workers os))
        (λ _ w o. (own_run_proxy rounds).apply w o)

  -- From its constructors through `start` and any number of rounds of the loop, whatever the system
  -- and the peers answer, unless the run comes to undefined behaviour: at every return and exception
  -- a connection is alive under its descriptor just if the loop's table lists its address under that
  -- descriptor. So none is leaked, none in the table is dangling, and no two that are alive have the
  -- same descriptor.
  pub run_proxy-OwnsAll :
      (pools : List PoolConfig) (port : ℕ) (workers : List WorkerConfig) (os : p.S) (rounds : ℕ)
      → Ends OwnsAll OwnsAll
          (and_then (start (new_world pools port workers os)) (λ _. run_proxy rounds))
  run_proxy-OwnsAll pools port workers os rounds =
      Ends-mono (run_proxy-Owned pools port workers os rounds) Owned-OwnsAll Owned-OwnsAll
