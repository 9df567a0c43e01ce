-- ===== src/EventLoop/Run.antt =====
-- gpu-proxy-cpp/src/event_loop.cpp: `run`.
use compute_market.Base.{ℕ, zero, suc, Bool, true, false, ◌&&◌, List, [], ◌∷◌, if◌then◌else◌}
use compute_market.EventLoop.Tables.{now_ms}
use compute_market.Platform.{Platform}
use compute_market.World.{TimeoutCallback, M, ◌>>=◌, ◌>>◌, pure, os_call, get_loop, put_loop}
use compute_market.EventLoop.Timers.{poll_timeout, check_timeouts, idle_poll_ms}
use compute_market.EventLoop.Poll.{ConnectionCallbacks, poll_and_process}

abbrev pub is_nil {ℓ} : {A : Type ℓ} → List A → Bool
is_nil [] = true
is_nil (x ∷ xs) = false

module _ ⦃p : Platform⦄ where
  unfoldable pub stop : M (Unit {0})
  stop = do l ← get_loop; put_loop (record l { running = false })

  -- `timeout_ms`; the clock is read only if there are timeouts.
  unfoldable pub next_poll : M ℕ
  next_poll = do
    l ← get_loop
    elim l.timeouts [
      | [] ↦ pure idle_poll_ms
      | t ∷ ts ↦ do now ← os_call now_ms; pure (poll_timeout now l.timeouts)
    ]

  -- One round of the loop of `run`; true if it goes on.
  unfoldable pub run_once : ConnectionCallbacks → (TimeoutCallback → M (Unit {0})) → M Bool
  run_once cbs on_timeout = do
    timeout_ms ← next_poll
    poll_and_process cbs timeout_ms
    check_timeouts on_timeout
    l ← get_loop
    pure (if is_nil l.connections && is_nil l.timeouts then false else l.running)

  -- The loop itself, for a number of rounds: true if it has ended, false if it would go on.
  unfoldable pub run_rounds : ConnectionCallbacks → (TimeoutCallback → M (Unit {0})) → ℕ → M Bool
  run_rounds cbs on_timeout zero = pure false
  run_rounds cbs on_timeout (suc rounds) =
      let rest = run_rounds cbs on_timeout rounds in
      do more ← run_once cbs on_timeout; if more then rest else pure true

  unfoldable pub run : ConnectionCallbacks → (TimeoutCallback → M (Unit {0})) → ℕ → M Bool
  run cbs on_timeout rounds = do
    l ← get_loop
    put_loop (record l { running = true })
    run_rounds cbs on_timeout rounds
