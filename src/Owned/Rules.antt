-- ===== src/Owned/Rules.antt =====
-- The rules by which a method keeps the connections owned because its parts do.
use compute_market.Base.{
  ℕ, Bool, true, false, [], ◌∷◌, Option, none, some, if◌then◌else◌, inl, inr, Option-cases, All,
}
use compute_market.Base.Table.{Table, find}
use compute_market.Platform.{Platform}
use compute_market.World.{
  match_option, Connection, Output, PoolManager, WorkerManager, Result, ok, throws, faults, M,
  ◌>>=◌, ◌>>◌, pure, done, throw, fault, catching, emit, os_call, os_run, or_throw, when, load,
  store, get_loop, get_pool_manager, put_pool_manager, get_worker_manager, put_worker_manager,
}
use compute_market.Outcome.{
  Ends, ends_ok, ends_throws, ends_faults, Ends-bind, load-some, load-none,
}
use compute_market.Owned.{Live, Owned, Keeps}
use compute_market.Owned.Tables.{forget, learn, written}

-- The descriptor at an address is among the facts.
pub data Known (a fd : ℕ) : Table ℕ → Type 0 where
  first : {facts : Table ℕ} → Known a fd ((a, fd) ∷ facts)
  later : {f : ℕ × ℕ} {facts : Table ℕ} → Known a fd facts → Known a fd (f ∷ facts)

Known-Live :
    (a fd : ℕ) (heap : Table Connection) (facts : Table ℕ)
    → Known a fd facts
    → All (λ f. Live f.0 f.1 heap) facts
    → Live a fd heap
Known-Live a fd heap _ first k = k.0
Known-Live a fd heap _ (later {facts} h) k = Known-Live a fd heap facts h k.1

module _ ⦃p : Platform⦄ where
  catch_all :
      {r : Result (Unit {0})}
      → Ends (Owned none []) (Owned none []) r
      → Ends
          (Owned none [])
          (Owned none [])
          (elim r [ ok a w' ↦ ok tt w' | throws w' ↦ ok tt w' | faults ↦ faults ])
  catch_all (ends_ok j) = ends_ok j
  catch_all (ends_throws j) = ends_ok j
  catch_all ends_faults = ends_faults

module _ ⦃p : Platform⦄ {held : Option ℕ} where
  pub own_any : {facts : Table ℕ} {A : Type 0} {m : M A} → Keeps held [] m → Keeps held facts m
  own_any h = record { apply = λ w j. h.apply w (forget j) }

  -- Reading a connection makes its descriptor known.
  pub own_load :
      {facts : Table ℕ} {B : Type 0} (a : ℕ) {k : Connection → M B}
      → ((c : Connection) → Keeps held ((a, c.fd) ∷ facts) (k c))
      → Keeps held facts (load a >>= k)
  own_load a {k} g = record {
    apply = λ w j. elim (Option-cases (find a w.heap)) [
      | inl e ↦ rw (load-none a w e) ends_faults
      | inr (c, e) ↦ rw (load-some a c w e) ((g c).apply w (learn j a c e))
    ];
  }

module _ ⦃p : Platform⦄ {held : Option ℕ} {facts : Table ℕ} where
  pub own_bind :
      {A B : Type 0} {m : M A} {f : A → M B}
      → Keeps held facts m
      → ((a : A) → Keeps held [] (f a))
      → Keeps held facts (m >>= f)
  own_bind {f} h k = record { apply = λ w j. Ends-bind f (h.apply w j) (λ a w'. (k a).apply w') }

  pub own_then :
      {B : Type 0} {m : M (Unit {0})} {k : M B}
      → Keeps held facts m
      → Keeps held [] k
      → Keeps held facts (m >> k)
  own_then {k} h g = record { apply = λ w j. Ends-bind (λ _. k) (h.apply w j) (λ _ w'. g.apply w') }

  pub own_pure : {A : Type 0} (a : A) → Keeps held facts (pure a)
  own_pure a = record { apply = λ w j. ends_ok (forget j) }

  pub own_done : Keeps held facts done
  own_done = record { apply = λ w j. ends_ok (forget j) }

  pub own_fault : {A : Type 0} → Keeps held facts (fault {A = A})
  own_fault = record { apply = λ w j. ends_faults }

  pub own_emit : (o : Output) → Keeps held facts (emit o)
  own_emit o = record { apply = λ w j. ends_ok (forget j) }

  pub own_os_call : {A : Type 0} (f : p.S → A × p.S) → Keeps held facts (os_call f)
  own_os_call f = record { apply = λ w j. ends_ok (forget j) }

  pub own_os_run : (f : p.S → p.S) → Keeps held facts (os_run f)
  own_os_run f = record { apply = λ w j. ends_ok (forget j) }

  pub own_get_loop : Keeps held facts get_loop
  own_get_loop = record { apply = λ w j. ends_ok (forget j) }

  pub own_get_pool_manager : Keeps held facts get_pool_manager
  own_get_pool_manager = record { apply = λ w j. ends_ok (forget j) }

  pub own_put_pool_manager : (m : PoolManager) → Keeps held facts (put_pool_manager m)
  own_put_pool_manager m = record { apply = λ w j. ends_ok (forget j) }

  pub own_get_worker_manager : Keeps held facts get_worker_manager
  own_get_worker_manager = record { apply = λ w j. ends_ok (forget j) }

  pub own_put_worker_manager : (m : WorkerManager) → Keeps held facts (put_worker_manager m)
  own_put_worker_manager m = record { apply = λ w j. ends_ok (forget j) }

  pub own_if :
      {A : Type 0} (b : Bool) {m k : M A}
      → Keeps held facts m
      → Keeps held facts k
      → Keeps held facts (if b then m else k)
  own_if true h g = h
  own_if false h g = g

  pub own_when : (b : Bool) {m : M (Unit {0})} → Keeps held facts m → Keeps held facts (when b m)
  own_when true h = record { apply = λ w j. h.apply w j }
  own_when false h = record { apply = λ w j. ends_ok (forget j) }

  pub own_option :
      {A B : Type 0} (o : Option A) {k : M B} {f : A → M B}
      → Keeps held facts k
      → ((a : A) → Keeps held facts (f a))
      → Keeps held facts (match_option o k f)
  own_option none h g = h
  own_option (some a) h g = g a

  -- A connection is read, and nothing is written.
  pub own_read :
      {B : Type 0} (a : ℕ) {k : Connection → M B}
      → ((c : Connection) → Keeps held [] (k c))
      → Keeps held facts (load a >>= k)
  own_read a g = own_load a (λ c. own_any (g c))

  pub own_store : (a : ℕ) (c : Connection) → Known a c.fd facts → Keeps held facts (store a c)
  unfolding store
  own_store a c k = record {
    apply = λ w j. ends_ok (forget (written j a c (Known-Live a c.fd w.heap facts k j.known)));
  }

  -- What leaves the facts as they are.
  pub own_store_then :
      {B : Type 0} (a : ℕ) (c : Connection) {k : M B}
      → Known a c.fd facts
      → Keeps held facts k
      → Keeps held facts (store a c >> k)
  unfolding store
  own_store_then a c k g = record {
    apply = λ w j. g.apply _ (written j a c (Known-Live a c.fd w.heap facts k j.known));
  }

  pub own_os_call_then :
      {A B : Type 0} (f : p.S → A × p.S) {k : A → M B}
      → ((x : A) → Keeps held facts (k x))
      → Keeps held facts (os_call f >>= k)
  own_os_call_then f g = record { apply = λ w j. (g (f w.os).0).apply _ j }

  pub own_emit_then :
      {B : Type 0} (o : Output) {k : M B} → Keeps held facts k → Keeps held facts (emit o >> k)
  own_emit_then o g = record { apply = λ w j. g.apply _ j }

module _ ⦃p : Platform⦄ {facts : Table ℕ} where
  pub own_throw : {A : Type 0} → Keeps none facts (throw {A = A})
  own_throw = record { apply = λ w j. ends_throws (forget j) }

  pub own_or_throw : {A : Type 0} (o : Option A) → Keeps none facts (or_throw o)
  own_or_throw none = record { apply = λ w j. ends_throws (forget j) }
  own_or_throw (some a) = record { apply = λ w j. ends_ok (forget j) }

  pub own_catching : {m : M (Unit {0})} → Keeps none facts m → Keeps none facts (catching m)
  own_catching h = record { apply = λ w j. catch_all (h.apply w j) }

-- A method that only reads connections, or calls methods that keep them owned.
pub ruleset owning = (
  own_read, own_bind, own_then, own_pure, own_done, own_fault, own_emit, own_os_call, own_os_run,
  own_get_loop, own_get_pool_manager, own_put_pool_manager, own_get_worker_manager,
  own_put_worker_manager, own_if, own_when, own_option, own_throw, own_or_throw,
)

-- A method that writes one connection.
pub ruleset writing = (
  own_load, own_store, own_store_then, own_os_call_then, own_emit_then, own_pure, own_done, own_if,
  own_when, own_option, first, later,
)
