-- ===== src/Outcome.antt =====
-- How the outcome of a method is described: a postcondition for a normal return, one for an exception,
-- and a type for undefined behaviour, `⊥` where it is excluded and `Unit` where nothing is said of it.
use mathlib.Core.Option.{some-injective}
use compute_market.Base.{ℕ, ◌≡◌, refl, ap, ◌∙◌, false, List, Option, none, some}
use compute_market.Base.Table.{find}
use compute_market.Platform.{Platform}
use compute_market.World.{Connection, Output, World, Result, ok, throws, faults, M, and_then, load}

module _ ⦃p : Platform⦄ where
  -- The method returns, and `Q` holds then.
  pub data Returns {A : Type 0} (Q : A → World → Type 0) : Result A → Type 0 where
    returns : {a : A} {w : World} → Q a w → Returns Q (ok a w)

  -- Unless it runs into undefined behaviour, the method returns with `Q` or throws with `E`.
  pub data Ends {A : Type 0} (Q E : World → Type 0) : Result A → Type 0 where
    ends_ok : {a : A} {w : World} → Q w → Ends Q E (ok a w)
    ends_throws : {w : World} → E w → Ends Q E (throws w)
    ends_faults : Ends Q E faults

  pub Returns-bind :
      {A B : Type 0} {Q : A → World → Type 0} {R : B → World → Type 0} {r : Result A} (f : A → M B)
      → Returns Q r
      → ((a : A) (w : World) → Q a w → Returns R (f a w))
      → Returns R (and_then r f)
  Returns-bind f (returns {a} {w} q) k = k a w q

  pub Returns-faults :
      {A B : Type 0} {Q : A → World → Type 0} {r : Result A} (f : A → M B)
      → Returns Q r
      → ((a : A) (w : World) → Q a w → f a w ≡ faults)
      → and_then r f ≡ faults
  Returns-faults f (returns {a} {w} q) k = k a w q

  pub Ends-faults :
      {A B : Type 0} {Q : World → Type 0} {r : Result A} (f : A → M B)
      → Ends Q (λ _. ⊥) r
      → ((a : A) (w : World) → Q w → f a w ≡ faults)
      → and_then r f ≡ faults
  Ends-faults f (ends_ok {a} {w} q) k = k a w q
  Ends-faults f (ends_throws e) k = absurd e
  Ends-faults f ends_faults k = refl

  pub Returns-mono :
      {A : Type 0} {Q R : A → World → Type 0} {r : Result A}
      → Returns Q r
      → ((a : A) (w : World) → Q a w → R a w)
      → Returns R r
  Returns-mono (returns {a} {w} q) k = returns (k a w q)

  pub Ends-bind :
      {A B : Type 0} {Q R E : World → Type 0} {r : Result A} (f : A → M B)
      → Ends Q E r
      → ((a : A) (w : World) → Q w → Ends R E (f a w))
      → Ends R E (and_then r f)
  Ends-bind f (ends_ok {a} {w} q) k = k a w q
  Ends-bind f (ends_throws e) k = ends_throws e
  Ends-bind f ends_faults k = ends_faults

  Ends-inv : {A : Type 0} {Q E : World → Type 0} {a : A} {w : World} → Ends Q E (ok a w) → Q w
  Ends-inv (ends_ok q) = q

  pub Ends-ok :
      {A : Type 0} {Q E : World → Type 0} (r : Result A) {a : A} {w : World}
      → r ≡ ok a w
      → Ends Q E r
      → Q w
  Ends-ok r e h = Ends-inv (rw e at h)

  pub Ends-mono :
      {A : Type 0} {Q R E F : World → Type 0} {r : Result A}
      → Ends Q E r
      → ((w : World) → Q w → R w)
      → ((w : World) → E w → F w)
      → Ends R F r
  Ends-mono (ends_ok {w} q) k e = ends_ok (k w q)
  Ends-mono (ends_throws {w} q) k e = ends_throws (e w q)
  Ends-mono ends_faults k e = ends_faults

  pub Returns-Ends :
      {A : Type 0} {Q : A → World → Type 0} {R E : World → Type 0} {r : Result A}
      → Returns Q r
      → ((a : A) (w : World) → Q a w → R w)
      → Ends R E r
  Returns-Ends (returns {a} {w} q) k = ends_ok (k a w q)

  abbrev pub unmark : Connection → Connection
  unmark c = record c { should_close = false }

  abbrev pub unmarked : Option Connection → Option Connection
  unmarked none = none
  unmarked (some c) = some (unmark c)

  -- Nothing happens but output: no field of a connection changes but the mark for closing.
  pub record Quiet (w w' : World) : Type 0 where
    pub loop_same : w'.loop ≡ w.loop
    pub pool_same : w'.pool_manager ≡ w.pool_manager
    pub worker_same : w'.worker_manager ≡ w.worker_manager
    pub next_same : w'.next_address ≡ w.next_address
    pub heap_same : (b : ℕ) → unmarked (find b w'.heap) ≡ unmarked (find b w.heap)

  pub Quiet-refl : (w : World) → Quiet w w
  Quiet-refl w = record {
    loop_same = refl;
    pool_same = refl;
    worker_same = refl;
    next_same = refl;
    heap_same = λ b. refl;
  }

  pub Quiet-trans : {u v w : World} → Quiet u v → Quiet v w → Quiet u w
  Quiet-trans h k = record {
    loop_same = k.loop_same ∙ h.loop_same;
    pool_same = k.pool_same ∙ h.pool_same;
    worker_same = k.worker_same ∙ h.worker_same;
    next_same = k.next_same ∙ h.next_same;
    heap_same = λ b. k.heap_same b ∙ h.heap_same b;
  }

  pub Quiet-effects :
      (w : World) (os : p.S) (trace : List Output) → Quiet w (record w { os = os; trace = trace })
  Quiet-effects w os trace = record {
    loop_same = refl;
    pool_same = refl;
    worker_same = refl;
    next_same = refl;
    heap_same = λ b. refl;
  }

  -- What stays of a connection under `Quiet`.
  pub Quiet-find :
      {w w' : World} (a : ℕ) (c : Connection)
      → Quiet w w'
      → find a w.heap ≡ some c
      → (c' : Connection) × (find a w'.heap ≡ some c') × (unmark c' ≡ unmark c)
  Quiet-find {w} {w'} a c q h = step (find a w'.heap) refl (q.heap_same a ∙ ap unmarked h)
    where
      step :
          (o : Option Connection)
          → find a w'.heap ≡ o
          → unmarked o ≡ some (unmark c)
          → (c' : Connection) × (find a w'.heap ≡ some c') × (unmark c' ≡ unmark c)
      step none e s = cc
      step (some c') e s = (c', e, some-injective _ _ s)

  pub Quiet-find-none :
      {w w' : World} (a : ℕ) → Quiet w w' → find a w.heap ≡ none → find a w'.heap ≡ none
  Quiet-find-none {w} {w'} a q h = step (find a w'.heap) refl (q.heap_same a ∙ ap unmarked h)
    where
      step :
          (o : Option Connection) → find a w'.heap ≡ o → unmarked o ≡ none → find a w'.heap ≡ none
      step none e s = e
      step (some c') e s = cc

  pub load-some : (a : ℕ) (c : Connection) (w : World) → find a w.heap ≡ some c → load a w ≡ ok c w
  unfolding load
  load-some a c w h = rw (h, load)

  -- A dangling pointer.
  pub load-none : (a : ℕ) (w : World) → find a w.heap ≡ none → load a w ≡ faults
  unfolding load
  load-none a w h = rw (h, load)
