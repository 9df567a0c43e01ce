-- ===== src/Owned/Pending.antt =====
-- The rules for the methods that make or delete a connection: which one is pending depends on what they
-- return.
use compute_market.Base.{ℕ, Bool, true, false, [], Option, none, if◌then◌else◌}
use compute_market.Platform.{Platform}
use compute_market.World.{and_then, World, World, Result, ok, throws, faults, M, ◌>>=◌, ◌>>◌, pure}
use compute_market.Outcome.{Ends, ends_ok, ends_throws, ends_faults}
use compute_market.Owned.{Owned, Keeps}

module _ ⦃p : Platform⦄ where
  -- The outcome of a method that makes or deletes a connection: which one is pending depends on the
  -- result.
  pub data Yields {A : Type 0} (after : A → Option ℕ) : Result A → Type 0 where
    yields : {a : A} {w : World} → Owned (after a) [] w → Yields after (ok a w)
    yields_throws : {w : World} → Owned none [] w → Yields after (throws w)
    yields_faults : Yields after faults

  pub record Opens {A : Type 0} (before : Option ℕ) (after : A → Option ℕ) (m : M A) : Type 0 where
    pub apply : (w : World) → Owned before [] w → Yields after (m w)

  Yields-bind :
      {A B : Type 0} {mid : A → Option ℕ} {after : B → Option ℕ} {r : Result A} (f : A → M B)
      → Yields mid r
      → ((a : A) (w : World) → Owned (mid a) [] w → Yields after (f a w))
      → Yields after (and_then r f)
  Yields-bind f (yields {a} {w} o) k = k a w o
  Yields-bind f (yields_throws o) k = yields_throws o
  Yields-bind f yields_faults k = yields_faults

  Ends-Yields :
      {A : Type 0} (held : Option ℕ) {r : Result A}
      → Ends (Owned held []) (Owned none []) r
      → Yields (λ _. held) r
  Ends-Yields held (ends_ok o) = yields o
  Ends-Yields held (ends_throws o) = yields_throws o
  Ends-Yields held ends_faults = yields_faults

  Yields-Ends :
      {A : Type 0} (held : Option ℕ) {r : Result A}
      → Yields (λ _. held) r
      → Ends (Owned held []) (Owned none []) r
  Yields-Ends held (yields o) = ends_ok o
  Yields-Ends held (yields_throws o) = ends_throws o
  Yields-Ends held yields_faults = ends_faults

  pub open_bind :
      {A B : Type 0} {before : Option ℕ} {mid : A → Option ℕ} {after : B → Option ℕ} {m : M A}
      {f : A → M B}
      → Opens before mid m
      → ((a : A) → Opens (mid a) after (f a))
      → Opens before after (m >>= f)
  open_bind {f} h k = record { apply = λ w o. Yields-bind f (h.apply w o) (λ a w'. (k a).apply w') }

  pub open_then :
      {B : Type 0} {before mid : Option ℕ} {after : B → Option ℕ} {m : M (Unit {0})} {k : M B}
      → Opens before (λ _. mid) m
      → Opens mid after k
      → Opens before after (m >> k)
  open_then {k} h g = record {
    apply = λ w o. Yields-bind (λ _. k) (h.apply w o) (λ _ w'. g.apply w');
  }

  pub open_pure : {A : Type 0} (after : A → Option ℕ) (a : A) → Opens (after a) after (pure a)
  open_pure after a = record { apply = λ w o. yields o }

  pub open_if :
      {A : Type 0} {before : Option ℕ} {after : A → Option ℕ} (b : Bool) {m k : M A}
      → Opens before after m
      → Opens before after k
      → Opens before after (if b then m else k)
  open_if true h g = h
  open_if false h g = g

  pub own_pending :
      {A : Type 0} {held : Option ℕ} {m : M A} → Keeps held [] m → Opens held (λ _. held) m
  own_pending {held} h = record { apply = λ w o. Ends-Yields held (h.apply w o) }

  pub own_opened :
      {A : Type 0} {held : Option ℕ} {m : M A} → Opens held (λ _. held) m → Keeps held [] m
  own_opened {held} h = record { apply = λ w o. Yields-Ends held (h.apply w o) }
