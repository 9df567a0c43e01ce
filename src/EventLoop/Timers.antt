-- ===== src/EventLoop/Timers.antt =====
-- gpu-proxy-cpp/src/event_loop.cpp: how long to poll, and which timeouts fire.
use compute_market.Base.{
  ℕ, zero, suc, ◌-◌, List, [], ◌∷◌, ◌==◌, ltb, leb, not, ◌&&◌, if◌then◌else◌, length, get_elem?,
  set, remove_at,
}
use compute_market.Platform.{Platform}
use compute_market.World.{
  match_option, Timeout, TimeoutCallback, M, ◌>>=◌, ◌>>◌, pure, done, fault, os_call, get_loop,
  put_loop,
}
use compute_market.EventLoop.Tables.{now_ms, add64}

-- `IDLE_POLL_MS`
abbrev pub idle_poll_ms : ℕ
idle_poll_ms = 1000

-- The loop of `run` that finds the earliest timeout.
unfoldable pub earliest : ℕ → List Timeout → ℕ
earliest next [] = next
earliest next (t ∷ ts) = earliest (if ltb t.next_fire_ms next then t.next_fire_ms else next) ts

unfoldable pub poll_timeout : ℕ → List Timeout → ℕ
poll_timeout now [] = idle_poll_ms
poll_timeout now (t ∷ ts) =
    let next = earliest t.next_fire_ms (t ∷ ts) in
    if ltb now next then (if ltb (next - now) idle_poll_ms then next - now else idle_poll_ms) else 0

module _ ⦃p : Platform⦄ where
  -- What becomes of the timeout at `i` once its callback has returned, and the next position. If the
  -- callback has added timeouts and the vector has moved, the iterator is dangling.
  unfoldable pub after_fire : ℕ → ℕ → ℕ → Timeout → M ℕ
  after_fire size now i t = do
    l ← get_loop
    moved ← os_call (λ s. (p.vector_moved s, s))
    if not (length l.timeouts == size) && moved
        then fault
        else if t.recurring
        then (do
          put_loop (record l {
            timeouts = set l.timeouts i (record t { next_fire_ms = add64 now t.interval_ms });
          })
          pure (suc i))
        else do put_loop (record l { timeouts = remove_at l.timeouts i }); pure i

  -- The loop of `check_timeouts`; fuel above the number of timeouts is enough while the callbacks add
  -- none, as those of the proxy do.
  unfoldable pub fire_timeouts : (TimeoutCallback → M (Unit {0})) → ℕ → ℕ → ℕ → M (Unit {0})
  fire_timeouts cb zero now i = done
  fire_timeouts cb (suc fuel) now i =
      let go = λ (j : ℕ). fire_timeouts cb fuel now j in
      do
        l ← get_loop
        match_option (get_elem? l.timeouts i) done λ t.
            if leb t.next_fire_ms now
            then (do cb t.callback; j ← after_fire (length l.timeouts) now i t; go j)
            else go (suc i)

  unfoldable pub check_timeouts : (TimeoutCallback → M (Unit {0})) → M (Unit {0})
  check_timeouts cb = do
    now ← os_call now_ms
    l ← get_loop
    fire_timeouts cb (suc (length l.timeouts)) now 0
