-- ===== src/Preserve.antt =====
-- Invariants of the two managers, the timeouts and the flag of the loop: what it is for a method to keep one, on return and on an exception,
-- and the rules by which a method keeps it because its parts do.
use compute_market.Base.{ℕ, List, ◌≡◌, refl, Bool, true, false, Option, none, some, if◌then◌else◌}
use compute_market.Base.Table.{Table, find}
use compute_market.Platform.{Platform}
use compute_market.World.{
  match_option, Connection, EventLoop, Output, PoolManager, WorkerManager, World, Result, ok,
  throws, faults, M, ◌>>=◌, ◌>>◌, pure, done, throw, fault, catching, emit, os_call, os_run,
  or_throw, when, load, store, get_loop, put_loop, get_pool_manager, put_pool_manager,
  get_worker_manager, put_worker_manager, Timeout,
}
use compute_market.Outcome.{
  Ends, ends_ok, ends_throws, ends_faults, Ends-bind, load-some, load-none,
}

abbrev pub Invariant : Type 1
Invariant = PoolManager → WorkerManager → List Timeout → Bool → Type 0

module _ ⦃p : Platform⦄ where
  -- The invariant holds of a world.
  abbrev pub Holds : Invariant → World → Type 0
  Holds J w = J w.pool_manager w.worker_manager w.loop.timeouts w.loop.running

  pub record Preserves {A : Type 0} (J : Invariant) (m : M A) : Type 0 where
    pub apply : (w : World) → Holds J w → Ends (Holds J) (Holds J) (m w)

  pub catch_all :
      (J : Invariant) {r : Result (Unit {0})}
      → Ends (Holds J) (Holds J) r
      → Ends
          (Holds J)
          (Holds J)
          (elim r [ ok a w' ↦ ok tt w' | throws w' ↦ ok tt w' | faults ↦ faults ])
  catch_all J (ends_ok j) = ends_ok j
  catch_all J (ends_throws j) = ends_ok j
  catch_all J ends_faults = ends_faults

module _ ⦃p : Platform⦄ {J : Invariant} where
  pub keep_bind :
      {A B : Type 0} {m : M A} {f : A → M B}
      → Preserves J m
      → ((a : A) → Preserves J (f a))
      → Preserves J (m >>= f)
  keep_bind {f} h k = record { apply = λ w j. Ends-bind f (h.apply w j) (λ a w'. (k a).apply w') }

  pub keep_then :
      {B : Type 0} {m : M (Unit {0})} {k : M B}
      → Preserves J m
      → Preserves J k
      → Preserves J (m >> k)
  keep_then {k} h g = record {
    apply = λ w j. Ends-bind (λ _. k) (h.apply w j) (λ _ w'. g.apply w');
  }

  pub keep_pure : {A : Type 0} (a : A) → Preserves J (pure a)
  keep_pure a = record { apply = λ w j. ends_ok j }

  pub keep_done : Preserves J done
  keep_done = record { apply = λ w j. ends_ok j }

  pub keep_throw : {A : Type 0} → Preserves J (throw {A = A})
  keep_throw = record { apply = λ w j. ends_throws j }

  pub keep_fault : {A : Type 0} → Preserves J (fault {A = A})
  keep_fault = record { apply = λ w j. ends_faults }

  pub keep_emit : (o : Output) → Preserves J (emit o)
  keep_emit o = record { apply = λ w j. ends_ok j }

  pub keep_os_call : {A : Type 0} (f : p.S → A × p.S) → Preserves J (os_call f)
  keep_os_call f = record { apply = λ w j. ends_ok j }

  pub keep_os_run : (f : p.S → p.S) → Preserves J (os_run f)
  keep_os_run f = record { apply = λ w j. ends_ok j }

  pub keep_or_throw : {A : Type 0} (o : Option A) → Preserves J (or_throw o)
  keep_or_throw none = record { apply = λ w j. ends_throws j }
  keep_or_throw (some a) = record { apply = λ w j. ends_ok j }

  pub keep_load : (a : ℕ) → Preserves J (load a)
  keep_load a = record { apply = λ w j. found w j (find a w.heap) refl }
    where
      found :
          (w : World)
          → Holds J w
          → (o : Option Connection) → find a w.heap ≡ o
          → Ends (Holds J) (Holds J) (load a w)
      found w j none e = rw (load-none a w e) ends_faults
      found w j (some c) e = rw (load-some a c w e) (ends_ok j)

  pub keep_store : (a : ℕ) (c : Connection) → Preserves J (store a c)
  unfolding store
  keep_store a c = record { apply = λ w j. ends_ok j }

  pub keep_get_loop : Preserves J get_loop
  keep_get_loop = record { apply = λ w j. ends_ok j }

  -- The connections of the loop are written.
  pub keep_connections :
      {B : Type 0} (f : EventLoop → Table ℕ) (k : EventLoop → M B)
      → ((l : EventLoop) → Preserves J (k l))
      → Preserves J (get_loop >>= (λ l. put_loop (record l { connections = f l }) >> k l))
  keep_connections f k g = record {
    apply =
        λ w j. (g w.loop).apply (record w { loop = record w.loop { connections = f w.loop } }) j;
  }

  pub keep_get_pool_manager : Preserves J get_pool_manager
  keep_get_pool_manager = record { apply = λ w j. ends_ok j }

  pub keep_get_worker_manager : Preserves J get_worker_manager
  keep_get_worker_manager = record { apply = λ w j. ends_ok j }

  pub keep_if :
      {A : Type 0} (b : Bool) {m k : M A}
      → Preserves J m
      → Preserves J k
      → Preserves J (if b then m else k)
  keep_if true h g = h
  keep_if false h g = g

  pub keep_when : (b : Bool) {m : M (Unit {0})} → Preserves J m → Preserves J (when b m)
  keep_when true h = record { apply = λ w j. h.apply w j }
  keep_when false h = record { apply = λ w j. ends_ok j }

  pub keep_option :
      {A B : Type 0} (o : Option A) {k : M B} {f : A → M B}
      → Preserves J k
      → ((a : A) → Preserves J (f a))
      → Preserves J (match_option o k f)
  keep_option none h g = h
  keep_option (some a) h g = g a

  pub keep_catching : {m : M (Unit {0})} → Preserves J m → Preserves J (catching m)
  keep_catching {m} h = record { apply = λ w j. caught w (h.apply w j) }
    where
      caught :
          (w : World) → Ends (Holds J) (Holds J) (m w) → Ends (Holds J) (Holds J) (catching m w)
      caught w e = catch_all J e

  -- A field of the pool manager is written.
  pub keep_update :
      {B : Type 0} (f : PoolManager → PoolManager) (k : PoolManager → M B)
      → ((m : PoolManager) (n : WorkerManager) (ts : List Timeout) (r : Bool)
          → J m n ts r
          → J (f m) n ts r)
      → ((m : PoolManager) → Preserves J (k m))
      → Preserves J (get_pool_manager >>= (λ m. put_pool_manager (f m) >> k m))
  keep_update f k h g = record {
    apply = λ w j.
        (g w.pool_manager).apply (record w { pool_manager = f w.pool_manager })
          (h w.pool_manager w.worker_manager w.loop.timeouts w.loop.running j);
  }

  pub keep_update_last :
      (f : PoolManager → PoolManager)
      → ((m : PoolManager) (n : WorkerManager) (ts : List Timeout) (r : Bool)
          → J m n ts r
          → J (f m) n ts r)
      → Preserves J (get_pool_manager >>= (λ m. put_pool_manager (f m)))
  keep_update_last f h = record {
    apply = λ w j. ends_ok (h w.pool_manager w.worker_manager w.loop.timeouts w.loop.running j);
  }

  -- The same for the worker manager.
  pub keep_worker_update :
      {B : Type 0} (f : WorkerManager → WorkerManager) (k : WorkerManager → M B)
      → ((m : PoolManager) (n : WorkerManager) (ts : List Timeout) (r : Bool)
          → J m n ts r
          → J m (f n) ts r)
      → ((n : WorkerManager) → Preserves J (k n))
      → Preserves J (get_worker_manager >>= (λ n. put_worker_manager (f n) >> k n))
  keep_worker_update f k h g = record {
    apply = λ w j.
        (g w.worker_manager).apply (record w { worker_manager = f w.worker_manager })
          (h w.pool_manager w.worker_manager w.loop.timeouts w.loop.running j);
  }

  pub keep_worker_update_last :
      (f : WorkerManager → WorkerManager)
      → ((m : PoolManager) (n : WorkerManager) (ts : List Timeout) (r : Bool)
          → J m n ts r
          → J m (f n) ts r)
      → Preserves J (get_worker_manager >>= (λ n. put_worker_manager (f n)))
  keep_worker_update_last f h = record {
    apply = λ w j. ends_ok (h w.pool_manager w.worker_manager w.loop.timeouts w.loop.running j);
  }

pub ruleset keeping = (
  keep_bind, keep_then, keep_pure, keep_done, keep_throw, keep_fault, keep_emit, keep_os_call,
  keep_os_run, keep_or_throw, keep_load, keep_store, keep_get_loop, keep_connections,
  keep_get_pool_manager, keep_get_worker_manager, keep_if, keep_when, keep_option,
)
