-- ===== src/Proxy/Clock.antt =====
-- gpu-proxy-cpp/src/worker_manager.cpp with event_loop.cpp: the timer that accepts workers, which is
-- registered with the listening socket and never leaves the list.
use compute_market.Base.{
  ℕ, zero, suc, ◌≡◌, subst, Bool, true, false, List, [], ◌∷◌, ◌++◌, Option, none, some, inl, inr,
  get_elem?, set, remove_at, Any,
}
use mathlib.Core.Option.{some-injective}
use compute_market.World.{Timeout, accept_worker as accept_callback}
use compute_market.WorkerManager.Invariant.{Clockwork}
use compute_market.Proxy.Ticking.{IsTimely}

abbrev pub IsAcceptTimer : Timeout → Type 0
IsAcceptTimer t = (t.recurring ≡ true) × (t.callback ≡ accept_callback)

abbrev pub Ticks : List Timeout → Type 0
Ticks ts = Any IsAcceptTimer ts

pub Ticks-append : (ts : List Timeout) (t : Timeout) → Ticks ts → Ticks (ts ++ t ∷ [])
Ticks-append [] t h = absurd h
Ticks-append (u ∷ ts) t (inl h) = inl h
Ticks-append (u ∷ ts) t (inr h) = inr (Ticks-append ts t h)

pub Ticks-last : (ts : List Timeout) (t : Timeout) → IsAcceptTimer t → Ticks (ts ++ t ∷ [])
Ticks-last [] t h = inl h
Ticks-last (u ∷ ts) t h = inr (Ticks-last ts t h)

Ticks-set :
    (ts : List Timeout) (i next : ℕ) (t : Timeout)
    → get_elem? ts i ≡ some t
    → Ticks ts
    → Ticks (set ts i (record t { next_fire_ms = next }))
Ticks-set [] i next t e h = absurd h
Ticks-set (u ∷ ts) zero next t e (inl h) = inl (subst IsAcceptTimer (some-injective _ _ e) h)
Ticks-set (u ∷ ts) zero next t e (inr h) = inr h
Ticks-set (u ∷ ts) (suc i) next t e (inl h) = inl h
Ticks-set (u ∷ ts) (suc i) next t e (inr h) = inr (Ticks-set ts i next t e h)

Ticks-remove_at :
    (ts : List Timeout) (i : ℕ) (t : Timeout)
    → get_elem? ts i ≡ some t
    → t.recurring ≡ false
    → Ticks ts
    → Ticks (remove_at ts i)
Ticks-remove_at [] i t e once h = absurd h
Ticks-remove_at (u ∷ ts) zero t e once (inl h) =
    let k = subst IsAcceptTimer (some-injective _ _ e) h in absurd (cc)
Ticks-remove_at (u ∷ ts) zero t e once (inr h) = h
Ticks-remove_at (u ∷ ts) (suc i) t e once (inl h) = inl h
Ticks-remove_at (u ∷ ts) (suc i) t e once (inr h) = inr (Ticks-remove_at ts i t e once h)

-- While there is a listening socket there is the timer.
abbrev pub Listening : Clockwork
Listening none ts r = Unit
Listening (some fd) ts r = Ticks ts

pub Listening-IsTimely : IsTimely Listening
Listening-IsTimely = record { grows = grow; resets = reset; drops = dropped }
  where
    grow :
        (o : Option ℕ) (ts : List Timeout) (r : Bool) (t : Timeout)
        → Listening o ts r
        → Listening o (ts ++ t ∷ []) r
    grow none ts r t q = tt
    grow (some fd) ts r t q = Ticks-append ts t q

    reset :
        (o : Option ℕ) (ts : List Timeout) (r : Bool) (i next : ℕ) (t : Timeout)
        → get_elem? ts i ≡ some t
        → t.recurring ≡ true
        → Listening o ts r
        → Listening o (set ts i (record t { next_fire_ms = next })) r
    reset none ts r i next t e again q = tt
    reset (some fd) ts r i next t e again q = Ticks-set ts i next t e q

    dropped :
        (o : Option ℕ) (ts : List Timeout) (r : Bool) (i : ℕ) (t : Timeout)
        → get_elem? ts i ≡ some t
        → t.recurring ≡ false
        → Listening o ts r
        → Listening o (remove_at ts i) r
    dropped none ts r i t e once q = tt
    dropped (some fd) ts r i t e once q = Ticks-remove_at ts i t e once q

-- The proxy listens on this socket, and the loop runs.
abbrev pub Running : ℕ → Clockwork
Running fd o ts r = (o ≡ some fd) × Ticks ts × (r ≡ true)

pub Running-IsTimely : (fd : ℕ) → IsTimely (Running fd)
Running-IsTimely fd = record {
  grows = λ o ts r t q. (q.0, Ticks-append ts t q.1, q.2);
  resets = λ o ts r i next t e again q. (q.0, Ticks-set ts i next t e q.1, q.2);
  drops = λ o ts r i t e once q. (q.0, Ticks-remove_at ts i t e once q.1, q.2);
}
