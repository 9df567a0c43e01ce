-- ===== src/World.antt =====
-- The objects of the proxy and the monad in which its code runs. `heap` holds the connections by
-- address, as `connection.hpp` has them; `connections_` owns them, the two managers point to them.
use compute_market.Base.{ℕ, Bool, true, false, List, [], ◌∷◌, ◌++◌, Option, none, some}
use compute_market.Base.Text.{Text}
use compute_market.Base.Table.{Table, find, assign}
use compute_market.Platform.{Platform}

-- connection.hpp
pub data ConnectionState : Type 0 where
  disconnected connecting connected authenticated error : ConnectionState

pub data ConnectionType : Type 0 where
  pool worker : ConnectionType

-- `Connection` with its `Impl`. `ssl` and `ctx` say whether the pointer is set. The callbacks are
-- the manager's methods, `has_callbacks` says whether they are set.
pub record Connection : Type 0 where
  pub fd : ℕ
  pub type : ConnectionType
  pub name : Text
  pub state : ConnectionState
  pub read_buffer : Text
  pub should_close : Bool
  pub has_callbacks : Bool
  pub ssl : Bool
  pub ctx : Bool
  pub sni_hostname : Text
  pub tls_handshake_complete : Bool
  pub tls_want_read : Bool
  pub tls_want_write : Bool
  pub ssl_fd_attached : Bool

-- stratum.hpp
pub record Job : Type 0 where
  pub job_id : Text
  pub blob : Text
  pub target : Text
  pub difficulty : Text
  pub height : ℕ
  pub clean_jobs : Bool

-- config.hpp
pub record PoolConfig : Type 0 where
  pub name : Text
  pub host : Text
  pub port : ℕ
  pub wallet : Text
  pub password : Text
  pub tls : Bool
  pub priority : ℕ

pub record WorkerConfig : Type 0 where
  pub id : Text
  pub password : Text

-- event_loop.hpp. The two callbacks that the code registers are named.
pub data TimeoutCallback : Type 0 where
  accept_worker reconnect : TimeoutCallback

pub record Timeout : Type 0 where
  pub next_fire_ms : ℕ
  pub interval_ms : ℕ
  pub callback : TimeoutCallback
  pub recurring : Bool

pub record EventLoop : Type 0 where
  pub connections : Table ℕ
  pub timeouts : List Timeout
  pub running : Bool

-- pool_manager.hpp
pub record PoolManager : Type 0 where
  pub pools : List PoolConfig
  pub current_pool_index : ℕ
  pub current_pool : Text
  pub pool_conn : Option ℕ
  pub pool_fd : Option ℕ
  pub connected : Bool
  pub authenticated : Bool
  pub subscribed : Bool
  pub current_job : Job
  pub has_job : Bool
  pub share_to_worker : Table Text
  pub next_id : ℕ
  pub reconnect_attempts : ℕ

-- worker_manager.hpp
pub record WorkerInfo : Type 0 where
  pub conn : Option ℕ
  pub worker_id : Text
  pub subscribed : Bool
  pub authorized : Bool
  pub extra_nonce2 : Text

pub record WorkerManager : Type 0 where
  pub listen_fd : Option ℕ
  pub listen_port : ℕ
  pub workers : Table WorkerInfo
  pub worker_configs : List WorkerConfig
  pub require_whitelist : Bool
  pub current_job : Job
  pub has_job : Bool
  pub next_extra_nonce2 : ℕ

-- What can be seen from outside: a line handed to a socket, and the calls of the callbacks that
-- `main.cpp` only prints.
pub data Output : Type 0 where
  wrote : ℕ → Text → Output
  share_response : Text → Bool → Text → Output
  pool_state : Text → Bool → Output

module _ ⦃p : Platform⦄ where
  pub record World : Type 0 where
    pub heap : Table Connection
    pub next_address : ℕ
    pub loop : EventLoop
    pub pool_manager : PoolManager
    pub worker_manager : WorkerManager
    pub os : p.S
    -- Newest last.
    pub trace : List Output

  -- A C++ exception keeps what was done before it. `faults` is undefined behaviour.
  pub data Result (A : Type 0) : Type 0 where
    ok : A → World → Result A
    throws : World → Result A
    faults : Result A

  abbrev pub M : Type 0 → Type 0
  M A = World → Result A

  infixl 5 ◌>>=◌ ◌>>◌
  abbrev pub and_then : {A B : Type 0} → Result A → (A → M B) → Result B
  and_then (ok a w) f = f a w
  and_then (throws w) f = throws w
  and_then faults f = faults

  abbrev pub ◌>>=◌ : {A B : Type 0} → M A → (A → M B) → M B
  ◌>>=◌ m f w = and_then (m w) f

  abbrev pub ◌>>◌ : {B : Type 0} → M (Unit {0}) → M B → M B
  ◌>>◌ m k w = and_then (m w) (λ _. k)

  abbrev pub pure : {A : Type 0} → A → M A
  pure a w = ok a w

  abbrev pub done : M (Unit {0})
  done w = ok tt w

  abbrev pub throw : {A : Type 0} → M A
  throw w = throws w

  abbrev pub fault : {A : Type 0} → M A
  fault w = faults

  -- `try { m } catch (const std::exception&) { }`
  abbrev pub catching : M (Unit {0}) → M (Unit {0})
  catching m w = elim (m w) [ ok a w' ↦ ok tt w' | throws w' ↦ ok tt w' | faults ↦ faults ]

  abbrev pub emit : Output → M (Unit {0})
  emit o w = ok tt (record w { trace = w.trace ++ (o ∷ []) })

  -- A call of the operating system.
  abbrev pub os_call : {A : Type 0} → (p.S → A × p.S) → M A
  os_call f w = ok (f w.os).0 (record w { os = (f w.os).1 })

  abbrev pub os_run : (p.S → p.S) → M (Unit {0})
  os_run f w = ok tt (record w { os = f w.os })

  -- A pointer or an iterator is tested before it is used.
  abbrev pub match_option : {A B : Type 0} → Option A → M B → (A → M B) → M B
  match_option none k f = k
  match_option (some a) k f = f a

  -- Conversions that throw.
  abbrev pub or_throw : {A : Type 0} → Option A → M A
  or_throw none w = throws w
  or_throw (some a) w = ok a w

  abbrev pub when : Bool → M (Unit {0}) → M (Unit {0})
  when true m w = m w
  when false m w = ok tt w

  -- A pointer is dereferenced; one that dangles is a fault.
  unfoldable pub load : ℕ → M Connection
  load a w = elim (find a w.heap) [ none ↦ faults | some c ↦ ok c w ]

  unfoldable pub store : ℕ → Connection → M (Unit {0})
  store a c w = ok tt (record w { heap = assign a c w.heap })

  abbrev pub get_pool_manager : M PoolManager
  get_pool_manager w = ok w.pool_manager w

  abbrev pub put_pool_manager : PoolManager → M (Unit {0})
  put_pool_manager m w = ok tt (record w { pool_manager = m })

  abbrev pub get_worker_manager : M WorkerManager
  get_worker_manager w = ok w.worker_manager w

  abbrev pub put_worker_manager : WorkerManager → M (Unit {0})
  put_worker_manager m w = ok tt (record w { worker_manager = m })

  abbrev pub get_loop : M EventLoop
  get_loop w = ok w.loop w

  abbrev pub put_loop : EventLoop → M (Unit {0})
  put_loop l w = ok tt (record w { loop = l })
