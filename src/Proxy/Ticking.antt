-- ===== src/Proxy/Ticking.antt =====
-- gpu-proxy-cpp/src/event_loop.cpp with main.cpp: the timeouts of the proxy fire, and what is asked of
-- them is kept. A callback may only add timeouts, and one that does while the list is walked is
-- undefined behaviour if the vector moves.
use compute_market.Base.{
  ℕ, zero, suc, ◌&&◌, not, ◌≡◌, refl, sym, ap, ◌∙◌, Bool, true, false, List, [], ◌∷◌, ◌++◌, Option,
  some, inl, inr, append-nil, length, get_elem?, set, remove_at, leb, if◌then◌else◌, ◌==◌,
  Bool-cases, Option-cases,
}
use compute_market.Platform.{Platform}
use compute_market.World.{
  PoolConfig, WorkerConfig, Timeout, TimeoutCallback, accept_worker as accept_callback, reconnect,
  World, ◌>>◌, pure, put_loop,
}
use compute_market.Outcome.{Ends, ends_ok, ends_faults, Ends-bind, Ends-mono}
use compute_market.Preserve.{Holds, Preserves, keep_done, keep_bind, keep_get_pool_manager}
use compute_market.EventLoop.Tables.{now_ms, add64}
use compute_market.EventLoop.Timers.{after_fire, fire_timeouts, check_timeouts}
use compute_market.PoolManager.Invariant.{Sound}
use compute_market.PoolManager.Soundness.{keep_try_connect_pool}
use compute_market.WorkerManager.Invariant.{Clockwork, Serving}
use compute_market.WorkerManager.Soundness.{accept_worker-IsServing}
use compute_market.Proxy.{on_timeout}

-- What `check_timeouts` and the callbacks may do to the timeouts.
pub record IsTimely (Q : Clockwork) : Type 0 where
  pub grows :
      (o : Option ℕ) (ts : List Timeout) (r : Bool) (t : Timeout) → Q o ts r → Q o (ts ++ t ∷ []) r
  pub resets :
      (o : Option ℕ) (ts : List Timeout) (r : Bool) (i next : ℕ) (t : Timeout)
      → get_elem? ts i ≡ some t
      → t.recurring ≡ true
      → Q o ts r
      → Q o (set ts i (record t { next_fire_ms = next })) r
  pub drops :
      (o : Option ℕ) (ts : List Timeout) (r : Bool) (i : ℕ) (t : Timeout)
      → get_elem? ts i ≡ some t
      → t.recurring ≡ false
      → Q o ts r
      → Q o (remove_at ts i) r

-- While a callback runs: the list is the one that is walked, with what was added.
abbrev During : List Timeout → Clockwork → Clockwork
During before Q o ts r = Q o ts r × ((added : List Timeout) × (ts ≡ before ++ added))

get_elem?-append :
    (before added : List Timeout) (i : ℕ) (t : Timeout)
    → get_elem? before i ≡ some t
    → get_elem? (before ++ added) i ≡ some t
get_elem?-append [] added i t e = cc
get_elem?-append (u ∷ before) added zero t e = e
get_elem?-append (u ∷ before) added (suc i) t e = get_elem?-append before added i t e

module _ ⦃p : Platform⦄ {pools : List PoolConfig} {configs : List WorkerConfig} where
  -- The two callbacks that the proxy registers.
  pub keep_on_timeout :
      (Q : Clockwork) (cb : TimeoutCallback)
      → Preserves (Sound pools (Serving configs Q)) (on_timeout cb)
  unfolding on_timeout
  keep_on_timeout Q accept_callback = accept_worker-IsServing Q
  keep_on_timeout Q reconnect =
      keep_bind keep_get_pool_manager (λ m. keep_try_connect_pool m.current_pool_index)

module _ ⦃p : Platform⦄ {pools : List PoolConfig} {configs : List WorkerConfig} {Q : Clockwork}
    (timely : IsTimely Q) where
  -- The timeout at a position has fired.
  keep_reset_or_drop :
      (b : Bool) (now i : ℕ) (t : Timeout) (w : World)
      → t.recurring ≡ b
      → get_elem? w.loop.timeouts i ≡ some t
      → Holds (Sound pools (Serving configs Q)) w
      → Ends (Holds (Sound pools (Serving configs Q))) (Holds (Sound pools (Serving configs Q))) (
          (if b
              then (put_loop (record w.loop {
                timeouts =
                    set w.loop.timeouts i (record t { next_fire_ms = add64 now t.interval_ms });
              })
                  >> pure (suc i))
              else put_loop (record w.loop { timeouts = remove_at w.loop.timeouts i }) >> pure i)
            w)
  keep_reset_or_drop true now i t w again there (s, (v, q)) =
      ends_ok (s, (v, timely.resets _ w.loop.timeouts _ i _ t there again q))
  keep_reset_or_drop false now i t w once there (s, (v, q)) =
      ends_ok (s, (v, timely.drops _ w.loop.timeouts _ i t there once q))

  keep_after_fire :
      (before : List Timeout) (now i : ℕ) (t : Timeout) (w : World)
      → get_elem? before i ≡ some t
      → Holds (Sound pools (Serving configs (During before Q))) w
      → Ends
          (Holds (Sound pools (Serving configs Q)))
          (Holds (Sound pools (Serving configs Q)))
          (after_fire (length before) now i t w)
  unfolding after_fire
  keep_after_fire before now i t w e (s, (v, (q, (added, g)))) =
      let there = ap (λ ts. get_elem? ts i) g ∙ get_elem?-append before added i t e in
      let fired = keep_reset_or_drop t.recurring now i t w refl there (s, (v, q)) in
      elim (Bool-cases (not (length w.loop.timeouts == length before) && p.vector_moved w.os)) [
        | inl lost ↦ rw (lost, after_fire) ends_faults
        | inr kept ↦ rw (kept, after_fire) fired
      ]

  keep_fire_timeouts :
      (fuel now i : ℕ)
      → Preserves (Sound pools (Serving configs Q)) (fire_timeouts on_timeout fuel now i)
  unfolding fire_timeouts
  keep_fire_timeouts zero now i = keep_done
  keep_fire_timeouts (suc fuel) now i = record {
    apply = λ w j. elim (Option-cases (get_elem? w.loop.timeouts i)) [
      | inl e ↦ rw (e, fire_timeouts) (ends_ok j)
      | inr (t, e) ↦ elim (Bool-cases (leb t.next_fire_ms now)) [
        | inr later ↦ rw (e, fire_timeouts, later) ((keep_fire_timeouts fuel now (suc i)).apply w j)
        | inl due ↦
            rw (e, fire_timeouts, due)
              (Ends-bind _
                (Ends-mono
                  ((keep_on_timeout (During w.loop.timeouts Q) t.callback).apply w
                    (j.0, (j.1.0, (j.1.1, ([], sym (append-nil w.loop.timeouts))))))
                  (λ w' k. k) (λ w' k. (k.0, (k.1.0, k.1.1.0))))
                λ _ w' k.
                  Ends-bind _ (keep_after_fire w.loop.timeouts now i t w' e k)
                    (λ next w'' l. (keep_fire_timeouts fuel now next).apply w'' l))
      ]
    ];
  }

  -- A round of timeouts keeps both managers sound, and what is asked of the timeouts.
  pub keep_check_timeouts : Preserves (Sound pools (Serving configs Q)) (check_timeouts on_timeout)
  unfolding check_timeouts
  keep_check_timeouts = record {
    apply = λ w j. (keep_fire_timeouts (suc (length w.loop.timeouts)) (now_ms w.os).0 0).apply _ j;
  }
