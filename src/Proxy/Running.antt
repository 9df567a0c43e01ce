-- ===== src/Proxy/Running.antt =====
-- gpu-proxy-cpp/src/main.cpp: the whole program, from the start over any number of rounds of the loop.
use compute_market.Base.{
  ℕ, zero, suc, ◌≡◌, refl, ap, ◌∙◌, Bool, true, false, ◌&&◌, List, [], ◌∷◌, some, arith,
  if◌then◌else◌,
}
use compute_market.Base.Text.{Text}
use compute_market.EventLoop.Tables.{now_ms}
use compute_market.Platform.{Platform}
use compute_market.World.{
  EventLoop, ConnectionState, os_call, PoolConfig, WorkerConfig, Timeout, World, Result, M,
  and_then, pure, ◌>>=◌,
}
use mathlib.Core.Option.{some-injective}
use compute_market.Outcome.{Ends, ends_ok, ends_throws, ends_faults}
use compute_market.Preserve.{
  Holds, Preserves, keep_bind, keep_then, keep_pure, keep_emit, keep_load, keep_if, keep_get_loop,
  keep_os_call,
}
use compute_market.Connection.State.{is_pool}
use compute_market.EventLoop.Timers.{idle_poll_ms, poll_timeout}
use compute_market.EventLoop.Run.{is_nil, next_poll, run_once, run_rounds}
use compute_market.EventLoop.Dispatch.{keep_poll_and_process}
use compute_market.PoolManager.Invariant.{Sound, Grows}
use compute_market.PoolManager.Preservation.{
  Tame, on_pool_state-IsSound, on_pool_message-IsSound, submit_share-IsSound,
}
use compute_market.WorkerManager.Invariant.{Clockwork, Serving}
use compute_market.WorkerManager.Soundness.{keep_send_job, on_worker_state-IsServing}
use compute_market.WorkerManager.Serving.{on_worker_message-IsServing}
use compute_market.Proxy.{
  pool_callbacks, share_callback, connection_callbacks, connection_state, connection_message,
  on_state_of, on_message_of, on_timeout,
}
use compute_market.Proxy.Ticking.{IsTimely, keep_check_timeouts}
use compute_market.Proxy.Clock.{Ticks, Running, Running-IsTimely}

pub serving_grows :
    {configs : List WorkerConfig} {Q : Clockwork} → IsTimely Q → Grows (Serving configs Q)
serving_grows timely n ts r t (v, q) = (v, timely.grows n.listen_fd ts r t q)

module _ ⦃p : Platform⦄ {pools : List PoolConfig} {configs : List WorkerConfig} {Q : Clockwork}
    (timely : IsTimely Q) where
  pub callbacks-Tame : Tame (Sound pools (Serving configs Q)) pool_callbacks
  callbacks-Tame = record {
    job_tame = λ job. keep_send_job Q job;
    state_tame = λ name up. keep_emit _;
    response_tame = λ f e worker_id accepted err. rw (← some-injective _ _ e) (keep_emit _);
  }

  pub keep_share_callback :
      (f : Text → Text → Text → Text → M (Unit {0}))
      → share_callback ≡ some f
      → (w j n r : Text) → Preserves (Sound pools (Serving configs Q)) (f w j n r)
  keep_share_callback f e w j n r = rw (← some-injective _ _ e) (submit_share-IsSound w j n r)

  keep_connection_state :
      (a : ℕ) (s : ConnectionState)
      → Preserves (Sound pools (Serving configs Q)) (connection_state a s)
  unfolding connection_state
  keep_connection_state a s = keep_bind (keep_load a) (λ c. of_type (is_pool c.type))
    where
      of_type : (b : Bool) → Preserves (Sound pools (Serving configs Q)) (on_state_of b a s)
      of_type true = on_pool_state-IsSound callbacks-Tame (serving_grows timely) s
      of_type false = on_worker_state-IsServing Q a s

  keep_connection_message :
      (a : ℕ) (line : Text)
      → Preserves (Sound pools (Serving configs Q)) (connection_message a line)
  unfolding connection_message
  keep_connection_message a line = keep_bind (keep_load a) (λ c. of_type (is_pool c.type))
    where
      of_type : (b : Bool) → Preserves (Sound pools (Serving configs Q)) (on_message_of b a line)
      of_type true = on_pool_message-IsSound callbacks-Tame (serving_grows timely) line
      of_type false = on_worker_message-IsServing Q share_callback keep_share_callback a line

  keep_next_poll : Preserves (Sound pools (Serving configs Q)) next_poll
  unfolding next_poll
  keep_next_poll = keep_bind keep_get_loop (λ l. waits l l.timeouts)
    where
      waits :
          (l : EventLoop) (ts : List Timeout)
          → Preserves (Sound pools (Serving configs Q)) (elim ts [
            | [] ↦ pure idle_poll_ms
            | t ∷ rest ↦ os_call now_ms >>= λ now. pure (poll_timeout now l.timeouts)
          ])
      waits l [] = keep_pure _
      waits l (t ∷ rest) =
          keep_bind (keep_os_call now_ms) (λ now. keep_pure (poll_timeout now l.timeouts))

  pub keep_run_once :
      Preserves (Sound pools (Serving configs Q)) (run_once connection_callbacks on_timeout)
  unfolding run_once
  keep_run_once = keep_bind keep_next_poll λ ms.
      keep_then
        (keep_poll_and_process connection_callbacks keep_connection_state keep_connection_message
          ms)
        (keep_then (keep_check_timeouts timely) (keep_bind keep_get_loop (λ l. keep_pure _)))

  pub keep_run_rounds :
      (rounds : ℕ)
      → Preserves
          (Sound pools (Serving configs Q))
          (run_rounds connection_callbacks on_timeout rounds)
  unfolding run_rounds
  keep_run_rounds zero = keep_pure false
  keep_run_rounds (suc rounds) =
      keep_bind keep_run_once (λ more. keep_if more (keep_run_rounds rounds) (keep_pure true))

module _ ⦃p : Platform⦄ where
  -- A part that ends with `Q` is common to both sides.
  agree-bind :
      {A B C : Type 0} {Q E : World → Type 0} {r : Result A} (f : A → M B) (k l : B → M C)
      → Ends Q E r
      → ((a : A) (w : World) → Q w → and_then (f a w) k ≡ and_then (f a w) l)
      → and_then (and_then r f) k ≡ and_then (and_then r f) l
  agree-bind f k l (ends_ok {a} {w} q) h = h a w q
  agree-bind f k l (ends_throws e) h = refl
  agree-bind f k l ends_faults h = refl

  agree_after :
      {A C : Type 0} {Q E : World → Type 0} {r : Result A} (k l : M C)
      → Ends Q E r
      → ((w : World) → Q w → k w ≡ l w)
      → and_then r (λ _. k) ≡ and_then r (λ _. l)
  agree_after k l (ends_ok {w} q) h = h w q
  agree_after k l (ends_throws e) h = refl
  agree_after k l ends_faults h = refl

  -- The loop with no test at the end of a round.
  unfoldable pub every_round : ℕ → M Bool
  every_round zero = pure false
  every_round (suc rounds) = do _ ← run_once connection_callbacks on_timeout; every_round rounds

has_timeouts : (ts : List Timeout) → Ticks ts → is_nil ts ≡ false
has_timeouts [] h = absurd h
has_timeouts (t ∷ ts) h = refl

goes_on_by : (b c r : Bool) → c ≡ false → r ≡ true → (if b && c then false else r) ≡ true
goes_on_by b c r e h = ground arith

module _ ⦃p : Platform⦄ {pools : List PoolConfig} {configs : List WorkerConfig} (fd : ℕ) where
  run_once-goes_on :
      (k : M Bool) (w : World)
      → Holds (Sound pools (Serving configs (Running fd))) w
      → and_then
          (run_once connection_callbacks on_timeout w)
          (λ more. if more then k else pure true)
        ≡ and_then (run_once connection_callbacks on_timeout w) (λ _. k)
  unfolding run_once
  run_once-goes_on k w j =
      let timely = Running-IsTimely fd in
      agree-bind _ (λ more. if more then k else pure true) (λ _. k)
        ((keep_next_poll timely).apply w j)
        λ ms w1 j1.
          agree-bind _ _ _
            ((keep_poll_and_process connection_callbacks (keep_connection_state timely)
                (keep_connection_message timely) ms).apply
              w1 j1)
            λ _ w2 j2. agree-bind _ _ _ ((keep_check_timeouts timely).apply w2 j2) λ _ w3 j3.
              ap (λ b. (if b then k else pure true) w3)
                (goes_on_by (is_nil w3.loop.connections) (is_nil w3.loop.timeouts) w3.loop.running
                  (has_timeouts w3.loop.timeouts j3.1.1.1) j3.1.1.2)

  -- Once the proxy listens and the loop runs, no round ends the loop: unless a round throws or runs
  -- into undefined behaviour, `run` goes on for as many rounds as there are.
  pub run_rounds-every_round :
      (rounds : ℕ) (w : World)
      → Holds (Sound pools (Serving configs (Running fd))) w
      → run_rounds connection_callbacks on_timeout rounds w ≡ every_round rounds w
  unfolding run_rounds every_round
  run_rounds-every_round zero w j = refl
  run_rounds-every_round (suc rounds) w j =
      run_once-goes_on (run_rounds connection_callbacks on_timeout rounds) w j
      ∙ agree_after _ _ ((keep_run_once (Running-IsTimely fd)).apply w j)
          (λ w'. run_rounds-every_round rounds w')
