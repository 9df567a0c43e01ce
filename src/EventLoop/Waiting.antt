-- ===== src/EventLoop/Waiting.antt =====
-- gpu-proxy-cpp/src/event_loop.cpp: how long `run` lets `poll` wait.
use compute_market.Base.{
  ℕ, ◌-◌, ◌≤◌, ◌≡◌, refl, List, [], ◌∷◌, ◌⊎◌, inl, inr, ltb, if◌then◌else◌, arith, All, Any,
  Bool-cases, ◌∙◌, ap,
}
use compute_market.World.{Timeout}
use compute_market.EventLoop.Timers.{idle_poll_ms, earliest, poll_timeout}

earliest_start : (n : ℕ) (ts : List Timeout) → earliest n ts ≤ n
unfolding earliest
earliest_start n [] = omega arith
earliest_start n (t ∷ ts) =
    ground (arith, earliest_start (if ltb t.next_fire_ms n then t.next_fire_ms else n) ts)

earliest_below : (n : ℕ) (ts : List Timeout) → All (λ t. earliest n ts ≤ t.next_fire_ms) ts
unfolding earliest
earliest_below n [] = tt
earliest_below n (t ∷ ts) = (
  ground (arith, earliest_start (if ltb t.next_fire_ms n then t.next_fire_ms else n) ts),
  earliest_below (if ltb t.next_fire_ms n then t.next_fire_ms else n) ts,
)

earliest_reached :
    (n : ℕ) (ts : List Timeout) → (earliest n ts ≡ n) ⊎ Any (λ t. earliest n ts ≡ t.next_fire_ms) ts
unfolding earliest
earliest_reached n [] = inl refl
earliest_reached n (t ∷ ts) =
    elim (earliest_reached (if ltb t.next_fire_ms n then t.next_fire_ms else n) ts) [
      | inr h ↦ inr (inr h)
      | inl h ↦ elim (Bool-cases (ltb t.next_fire_ms n)) [
        | inl e ↦ inr (inl (h ∙ ap (λ b. if b then t.next_fire_ms else n) e))
        | inr e ↦ inl (h ∙ ap (λ b. if b then t.next_fire_ms else n) e)
      ]
    ]

earliest_head :
    (t : Timeout) (ts : List Timeout)
    → Any (λ u. earliest t.next_fire_ms (t ∷ ts) ≡ u.next_fire_ms) (t ∷ ts)
earliest_head t ts = elim (earliest_reached t.next_fire_ms (t ∷ ts)) [ inl h ↦ inl h | inr h ↦ h ]

pub All-map {ℓ κ μ} :
    {A : Type ℓ} {P : A → Type κ} {Q : A → Type μ} (xs : List A)
    → ((x : A) → P x → Q x)
    → All P xs
    → All Q xs
All-map [] f h = tt
All-map (x ∷ xs) f h = (f x h.0, All-map xs f h.1)

pub Any-map {ℓ} :
    {A : Type ℓ} {P : A → Type 0} {Q : A → Type 0} (xs : List A)
    → ((x : A) → P x → Q x)
    → Any P xs
    → Any Q xs
Any-map [] f h = absurd h
Any-map (x ∷ xs) f (inl h) = inl (f x h)
Any-map (x ∷ xs) f (inr h) = inr (Any-map xs f h)

-- The time that `run` gives to `poll` is at most the idle time and at most what is left to any timeout,
-- 0 for one that is due; and it is no shorter than that: it is the idle time or what is left to some
-- timeout.
pub poll_timeout-remaining :
    (now : ℕ) (ts : List Timeout)
    → (poll_timeout now ts ≤ idle_poll_ms)
      × All (λ t. poll_timeout now ts ≤ t.next_fire_ms - now) ts
      × ((poll_timeout now ts ≡ idle_poll_ms)
          ⊎ Any (λ t. poll_timeout now ts ≡ t.next_fire_ms - now) ts)
unfolding poll_timeout
poll_timeout-remaining now [] = (omega arith, tt, inl refl)
poll_timeout-remaining now (t ∷ ts) = (
  ground arith,
  All-map (t ∷ ts) (λ u h. ground arith) (earliest_below t.next_fire_ms (t ∷ ts)),
  elim (Bool-cases (ltb (earliest t.next_fire_ms (t ∷ ts) - now) idle_poll_ms)) [
    | inl e ↦ inr (Any-map (t ∷ ts) (λ u h. ground arith) (earliest_head t ts))
    | inr e ↦ inl (ground arith)
  ],
)
