-- ===== src/Proxy/Timing.antt =====
-- gpu-proxy-cpp/src/event_loop.cpp with main.cpp: which timeouts of the proxy fire, and what is left.
use compute_market.Base.{
  ℕ, zero, suc, ◌≡◌, refl, sym, ap, subst, ◌∙◌, ◌<◌, Bool, true, false, List, [], ◌∷◌, ◌++◌, none,
  some, inl, inr, append_assoc, length, get_elem?, set, remove_at, arith, leb, if◌then◌else◌,
  Bool-cases, ==_iff,
}
use compute_market.Platform.{Platform}
use compute_market.World.{
  PoolConfig, WorkerConfig, Timeout, World, Result, M, and_then, ◌>>◌, pure, put_loop,
}
use compute_market.Outcome.{Ends, ends_ok, ends_throws, ends_faults, Ends-bind, Ends-mono}
use compute_market.Preserve.{Holds}
use compute_market.EventLoop.Tables.{now_ms}
use compute_market.EventLoop.Timers.{after_fire, fire_timeouts, check_timeouts}
use compute_market.PoolManager.Invariant.{Sound}
use compute_market.WorkerManager.Invariant.{Serving}
use compute_market.Proxy.{on_timeout}
use compute_market.Proxy.Ticking.{keep_on_timeout, keep_check_timeouts}
use compute_market.Proxy.Clock.{Listening-IsTimely}
use compute_market.Proxy.Whole.{IsProxy}
use compute_market.Proxy.Kept.{
  set-past, remove_at-past, passed, kept, Frozen, AnyClock, get_elem?-here, get_elem?-end,
  next_position, kept-later, again_at, kept-again, kept-once,
}

module _ ⦃p : Platform⦄ where
  -- The two ends of `after_fire`.
  reset_or_drop-Ends :
      {Q E : World → Type 0} (b : Bool) (now i : ℕ) (t : Timeout) (w : World) (k : ℕ → M (Unit {0}))
      → (b ≡ true
          → Ends Q E (
              k (suc i) (record w {
                loop = record w.loop { timeouts = set w.loop.timeouts i (again_at now t) };
              })))
      → (b ≡ false
          → Ends Q E
              (k i (record w { loop = record w.loop { timeouts = remove_at w.loop.timeouts i } })))
      → Ends Q E (
          and_then
            ((if b
                then (put_loop (record w.loop { timeouts = set w.loop.timeouts i (again_at now t) })
                    >> pure (suc i))
                else put_loop (record w.loop { timeouts = remove_at w.loop.timeouts i }) >> pure i)
              w)
            k)
  reset_or_drop-Ends true now i t w k h g = h refl
  reset_or_drop-Ends false now i t w k h g = g refl

  after_fire-Ends :
      {Q E : World → Type 0} (size now i : ℕ) (t : Timeout) (w : World) (k : ℕ → M (Unit {0}))
      → length w.loop.timeouts ≡ size
      → (t.recurring ≡ true
          → Ends Q E (
              k (suc i) (record w {
                loop = record w.loop { timeouts = set w.loop.timeouts i (again_at now t) };
              })))
      → (t.recurring ≡ false
          → Ends Q E
              (k i (record w { loop = record w.loop { timeouts = remove_at w.loop.timeouts i } })))
      → Ends Q E (and_then (after_fire size now i t w) k)
  unfolding after_fire
  after_fire-Ends size now i t w k e h g =
      let same = (==_iff (length w.loop.timeouts) size).1 e in
      rw (same, after_fire) (reset_or_drop-Ends t.recurring now i t w k h g)

module _ ⦃p : Platform⦄ (pools : List PoolConfig) (configs : List WorkerConfig) where
  -- Both managers are sound, and these are the timeouts.
  abbrev With : List Timeout → World → Type 0
  With ts = Holds (Sound pools (Serving configs (Frozen ts)))

  abbrev Kept : List Timeout → Result (Unit {0}) → Type 0
  Kept ts = Ends (With ts) (Holds (Sound pools (Serving configs AnyClock)))

  Kept-cast : {r : Result (Unit {0})} (ts us : List Timeout) → ts ≡ us → Kept ts r → Kept us r
  Kept-cast {r} ts us e h = subst (λ v. Kept v r) e h

  -- The callback leaves the timeouts alone.
  on_timeout-Kept :
      (ts : List Timeout) (t : Timeout) (w : World) → With ts w → Kept ts (on_timeout t.callback w)
  on_timeout-Kept ts t w j =
      Ends-mono ((keep_on_timeout (Frozen ts) t.callback).apply w j) (λ v k. k)
        (λ v k. (k.0, (k.1.0, tt)))

  fire_timeouts-kept :
      (fuel now i : ℕ) (past rest : List Timeout) (w : World)
      → i ≡ length past
      → length rest < fuel
      → With (past ++ rest) w
      → Kept (past ++ kept now rest) (fire_timeouts on_timeout fuel now i w)
  unfolding fire_timeouts
  fire_timeouts-kept zero now i past rest w e h j = absurd (omega (arith, h))
  fire_timeouts-kept (suc fuel) now i past [] w e h j =
      let n : get_elem? w.loop.timeouts i ≡ none =
        ap (λ ts. get_elem? ts i) j.1.1 ∙ (ap (get_elem? (past ++ [])) e ∙ get_elem?-end past) in
      unfold kept in rw (n, fire_timeouts) (ends_ok j)
  fire_timeouts-kept (suc fuel) now i past (t ∷ rest) w e h j =
      let n : get_elem? w.loop.timeouts i ≡ some t =
        ap (λ ts. get_elem? ts i) j.1.1
        ∙ (ap (get_elem? (past ++ t ∷ rest)) e ∙ get_elem?-here past rest t) in
      elim (Bool-cases (leb t.next_fire_ms now)) [
        | inr later ↦
            rw (n, fire_timeouts, later)
              (Kept-cast _ _
                (passed past rest t now ∙ ap (λ ts. past ++ ts) (sym (kept-later now t rest later)))
                (fire_timeouts-kept fuel now (suc i) (past ++ t ∷ []) rest w
                  (ap suc e ∙ next_position past t) (omega (arith, h))
                  (j.0, (j.1.0, j.1.1 ∙ sym (append_assoc past (t ∷ []) rest)))))
        | inl due ↦
            rw (n, fire_timeouts, due)
              (Ends-bind _ (on_timeout-Kept (past ++ t ∷ rest) t w j) λ u v k.
                after_fire-Ends (length w.loop.timeouts) now i t v _ (ap length (k.1.1 ∙ sym j.1.1))
                  (λ again.
                    let t' = again_at now t in
                    Kept-cast _ _
                      (passed past rest t' now
                        ∙ ap (λ ts. past ++ ts) (sym (kept-again now t rest due again)))
                      (fire_timeouts-kept fuel now (suc i) (past ++ t' ∷ []) rest _
                        (ap suc e ∙ next_position past t') (omega (arith, h))
                        (k.0, (k.1.0, set-past past rest i t t' _ e k.1.1))))
                  (λ once.
                    Kept-cast _ _ (ap (λ ts. past ++ ts) (sym (kept-once now t rest due once))) (
                      fire_timeouts-kept fuel now i past rest _ e (omega (arith, h))
                        (k.0, (k.1.0, remove_at-past past rest i t _ e k.1.1)))))
      ]

module _ ⦃p : Platform⦄ where
  Ends-and :
      {A : Type 0} {Q R E F : World → Type 0} {r : Result A}
      → Ends Q E r
      → Ends R F r
      → Ends (λ w. Q w × R w) E r
  Ends-and (ends_ok q) (ends_ok k) = ends_ok (q, k)
  Ends-and (ends_throws e) k = ends_throws e
  Ends-and ends_faults k = ends_faults

  -- A round of timers, in any state of the proxy that its invariant describes, if it is not undefined
  -- behaviour: the timeouts that are due are set to the interval after the time of the round if they
  -- recur and have left the list if they do not; the others stay, in the same order. The invariant
  -- holds again, also where a callback throws.
  pub check_timeouts-kept :
      (pools : List PoolConfig) (configs : List WorkerConfig) (w : World)
      → IsProxy pools configs w
      → Ends
          (λ w'.
            IsProxy pools configs w' × (w'.loop.timeouts ≡ kept (now_ms w.os).0 w.loop.timeouts))
          (IsProxy pools configs)
          (check_timeouts on_timeout w)
  unfolding IsProxy check_timeouts
  check_timeouts-kept pools configs w j =
      Ends-and ((keep_check_timeouts Listening-IsTimely).apply w j) (
        Ends-mono
          (fire_timeouts-kept pools configs (suc (length w.loop.timeouts)) (now_ms w.os).0 0 []
            w.loop.timeouts (record w { os = (now_ms w.os).1 }) refl (omega arith)
            (j.0, (j.1.0, refl)))
          (λ v k. k.1.1) (λ v k. k))
