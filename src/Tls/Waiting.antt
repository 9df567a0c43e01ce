-- ===== src/Tls/Waiting.antt =====
-- gpu-proxy-cpp/src/ssl_utils.cpp: the loop of `recv_line` ends, because time goes on.
use compute_market.Base.{
  ℕ, zero, suc, ◌≡◌, refl, ◌-◌, ◌+◌, ◌*◌, ◌/◌, ◌≤◌, ◌<◌, Bool, true, false, not, List, [], ◌∷◌,
  ◌++◌, Option, none, some, ◌==◌, ltb, ltb→lt, arith, Bool-cases, inl, inr, if◌then◌else◌,
}
use native.Mathlib.Nat.{add-mul, mul-le-mul_right}
use compute_market.Base.Text.{Text}
use compute_market.Platform.{Received, received, end_of_stream, receive_failed}
use compute_market.Tls.System.{TlsSystem, PollOne, poll_error, poll_nothing, poll_event}
use compute_market.Tls.State.{
  TlsConnection, Resource, descriptor, Call, TlsWorld, Ran, ran, crashed, T, and_then, ◌>>=◌, pure,
  log, call, using, using_socket, get_conn,
}
use compute_market.Tls.Receive.{
  continues, breaks, append_buffer, after_read, after_poll, wait_for_data, after_pending,
  recv_round, recv_rounds, recv_line,
}
use compute_market.Tls.Ledger.{Ledger}
use compute_market.Tls.Execs.{ends, Ends, Execs}
use compute_market.Tls.Ownership.{Linked, is_down, is_up}
use compute_market.Tls.Reading.{IsLine, recv_line-Linked}

-- The steady clock, over the physical time since its epoch: its ticks are all of `per_tick` units of
-- that time and it shows how many are over, so two reads may well show the same.  Reading it is work,
-- which takes physical time, and no call takes any back.
pub record IsSteady ⦃p : TlsSystem⦄ (clock : p.S → ℕ) (per_tick : ℕ) : Type 0 where
  pub shows : (s : p.S) → (p.steady_now s).0 * per_tick ≤ clock s
  pub shows_all : (s : p.S) → clock s < suc (p.steady_now s).0 * per_tick
  pub takes_time : (s : p.S) → clock s < clock (p.steady_now s).1
  pub pending : (s : p.S) (ssl : ℕ) → clock s ≤ clock (p.ssl_pending s ssl).1
  pub read : (s : p.S) (ssl n : ℕ) → clock s ≤ clock (p.ssl_read s ssl n).1
  pub poll : (s : p.S) (fd : Option ℕ) (ms : ℕ) → clock s ≤ clock (p.poll s fd ms).1

-- Time that a reading before the deadline leaves.
before_deadline :
    (reading deadline per_tick time : ℕ)
    → reading < deadline
    → time < suc reading * per_tick
    → time < deadline * per_tick
before_deadline reading deadline per_tick time h g =
    omega (arith, g, mul-le-mul_right {m = suc reading} {n = deadline} per_tick h)

-- Time from after a reading to the deadline that is set from it.
until_deadline :
    (reading timeout per_tick time time' fuel : ℕ)
    → reading * per_tick ≤ time
    → time < time'
    → timeout * per_tick < fuel
    → (reading + timeout) * per_tick - time' < fuel
until_deadline reading timeout per_tick time time' fuel h g k =
    rw (add-mul reading timeout per_tick) (omega (arith, h, g, k))

module _ ⦃p : TlsSystem⦄ (clock : p.S → ℕ) where
  -- The call returns not before `t`.
  data Later {A : Type 0} (t : ℕ) : Ran A → Type 0 where
    later : {a : A} {w : TlsWorld} → t ≤ clock w.os → Later t (ran a w)
    later_crash : Later t crashed

  record Advances {A : Type 0} (m : T A) : Type 0 where
    pub apply : (w : TlsWorld) → Later (clock w.os) (m w)

module _ ⦃p : TlsSystem⦄ {clock : p.S → ℕ} where
  Later-trans : {A : Type 0} {t u : ℕ} {r : Ran A} → Later clock u r → t ≤ u → Later clock t r
  Later-trans (later g) h = later (omega (arith, g, h))
  Later-trans later_crash h = later_crash

  Later-bind :
      {A B : Type 0} {t : ℕ} {r : Ran A} (f : A → T B)
      → Later clock t r
      → ((a : A) → Advances clock (f a))
      → Later clock t (and_then r f)
  Later-bind f (later {a} {w} h) k = Later-trans ((k a).apply w) h
  Later-bind f later_crash k = later_crash

  adv-bind :
      {A B : Type 0} {m : T A} {f : A → T B}
      → Advances clock m
      → ((a : A) → Advances clock (f a))
      → Advances clock (m >>= f)
  adv-bind {f} h k = record { apply = λ w. Later-bind f (h.apply w) k }

  adv-pure : {A : Type 0} (a : A) → Advances clock (pure a)
  adv-pure a = record { apply = λ w. later {w = w} (omega arith) }

  adv-log : (c : Call) → Advances clock (log c)
  adv-log c =
      unfold log in
      record { apply = λ w. later {w = record w { trace = w.trace ++ c ∷ [] }} (omega arith) }

  adv-call :
      {A : Type 0} (f : p.S → A × p.S)
      → ((s : p.S) → clock s ≤ clock (f s).1)
      → Advances clock (call f)
  adv-call f h = unfold call in record { apply = λ w. later (h w.os) }

  adv-using :
      {A : Type 0} (r : Resource) (f : p.S → A × p.S)
      → ((s : p.S) → clock s ≤ clock (f s).1)
      → Advances clock (using r f)
  adv-using r f h = unfold using log call in record { apply = λ w. later (h w.os) }

  adv-using_socket :
      {A : Type 0} (fd : Option ℕ) (f : p.S → A × p.S)
      → ((s : p.S) → clock s ≤ clock (f s).1)
      → Advances clock (using_socket fd f)
  unfolding using_socket
  adv-using_socket none f h = adv-call f h
  adv-using_socket (some fd) f h = adv-using (descriptor fd) f h

  adv-if :
      {A : Type 0} (b : Bool) {m k : T A}
      → Advances clock m
      → Advances clock k
      → Advances clock (if b then m else k)
  adv-if true h g = h
  adv-if false h g = g

module _ ⦃p : TlsSystem⦄ {clock : p.S → ℕ} {per_tick : ℕ} (steady : IsSteady clock per_tick) where
  adv-append_buffer : (r buf : Text) → Advances clock (append_buffer r buf)
  unfolding append_buffer
  adv-append_buffer r buf = adv-bind (adv-log _) (λ u. adv-pure _)

  adv-after_read : (ssl : ℕ) (r : Text) (got : Received) → Advances clock (after_read ssl r got)
  unfolding after_read
  adv-after_read ssl r (received buf) = adv-append_buffer r buf
  adv-after_read ssl r end_of_stream =
      adv-bind (adv-using _ _ (λ s. omega arith)) (λ err. adv-pure _)
  adv-after_read ssl r receive_failed =
      adv-bind (adv-using _ _ (λ s. omega arith)) (λ err. adv-pure _)

  adv-after_poll :
      (ssl : ℕ) (r : Text) (polled : PollOne) → Advances clock (after_poll ssl r polled)
  unfolding after_poll
  adv-after_poll ssl r poll_error = adv-pure _
  adv-after_poll ssl r poll_nothing = adv-pure _
  adv-after_poll ssl r poll_event =
      adv-bind (adv-using _ _ (λ s. steady.read s ssl 1023)) (adv-after_read ssl r)

  adv-now : Advances clock (call p.steady_now)
  adv-now = adv-call _ (λ s. omega (arith, steady.takes_time s))

  adv-wait_for_data :
      (fd : Option ℕ) (ssl deadline : ℕ) (r : Text)
      → Advances clock (wait_for_data fd ssl deadline r)
  unfolding wait_for_data
  adv-wait_for_data fd ssl deadline r = adv-bind adv-now λ now.
      adv-if ((deadline - now) / 1000000 == 0) (adv-pure _)
        (adv-bind (adv-using_socket fd _ (λ s. steady.poll s fd _)) (adv-after_poll ssl r))

  adv-after_pending :
      (fd : Option ℕ) (ssl deadline : ℕ) (r : Text) (got : Received)
      → Advances clock (after_pending fd ssl deadline r got)
  unfolding after_pending
  adv-after_pending fd ssl deadline r (received buf) = adv-append_buffer r buf
  adv-after_pending fd ssl deadline r end_of_stream = adv-wait_for_data fd ssl deadline r
  adv-after_pending fd ssl deadline r receive_failed = adv-wait_for_data fd ssl deadline r

  adv-recv_round :
      (fd : Option ℕ) (ssl deadline : ℕ) (r : Text) → Advances clock (recv_round fd ssl deadline r)
  unfolding recv_round
  adv-recv_round fd ssl deadline r = adv-bind (adv-using _ _ (λ s. steady.pending s ssl)) λ pending.
      adv-if (not pending) (adv-wait_for_data fd ssl deadline r) (
        adv-bind (adv-using _ _ (λ s. steady.read s ssl 1023))
          (adv-after_pending fd ssl deadline r))

module _ ⦃p : TlsSystem⦄ where
  -- There is an answer, if the code does not crash.
  data Answered {A : Type 0} : Ran (Option A) → Type 0 where
    answered : (a : A) (w : TlsWorld) → Answered (ran (some a) w)
    answered_crash : Answered crashed

  Answered-bind :
      {A B : Type 0} {r : Ran (Option A)} (f : Option A → T (Option B))
      → Answered r
      → ((a : A) (w : TlsWorld) → Answered (f (some a) w))
      → Answered (and_then r f)
  Answered-bind f (answered a w) k = k a w
  Answered-bind f answered_crash k = answered_crash

  -- What follows a call that does not fail to answer.
  Answered-after :
      {A B : Type 0} {clock : p.S → ℕ} {t : ℕ} {r : Ran A} (f : A → T (Option B))
      → Later clock t r
      → ((a : A) (w : TlsWorld) → t ≤ clock w.os → Answered (f a w))
      → Answered (and_then r f)
  Answered-after f (later {a} {w} h) k = k a w h
  Answered-after f later_crash k = answered_crash

module _ ⦃p : TlsSystem⦄ {clock : p.S → ℕ} {per_tick : ℕ} (steady : IsSteady clock per_tick) where
  recv_rounds-Answered :
      (fuel : ℕ) (fd ssl : Option ℕ) (deadline : ℕ) (r : Text) (w : TlsWorld)
      → deadline * per_tick - clock w.os < fuel
      → Answered (recv_rounds fuel fd ssl deadline r w)
  unfolding recv_rounds call
  recv_rounds-Answered zero fd ssl deadline r w h = absurd (omega (arith, h))
  recv_rounds-Answered (suc fuel) fd none deadline r w h =
      elim (Bool-cases (ltb (p.steady_now w.os).0 deadline)) [
        | inl e ↦ rw (e, recv_rounds) answered_crash
        | inr e ↦ rw (e, recv_rounds) (answered r _)
      ]
  recv_rounds-Answered (suc fuel) fd (some ssl) deadline r w h =
      elim (Bool-cases (ltb (p.steady_now w.os).0 deadline)) [
        | inr e ↦ rw (e, recv_rounds) (answered r _)
        | inl e ↦
            rw (e, recv_rounds)
              (Answered-after _ ((adv-recv_round steady fd ssl deadline r).apply _) λ round w' late.
                elim round
                  as (λ x. Answered (
                    (elim x as (λ y. T (Option Text)) [
                      | continues r' ↦ recv_rounds fuel fd (some ssl) deadline r'
                      | breaks r' ↦ pure (some r')
                    ])
                      w')) [
                        | continues r' ↦ recv_rounds-Answered fuel fd (some ssl) deadline r' w' (
                            omega (
                              arith,
                              h,
                              late,
                              steady.takes_time w.os,
                              before_deadline _ _ _ _ (ltb→lt _ _ e) (steady.shows_all w.os),
                            ))
                        | breaks r' ↦ answered r' w'
                      ])
      ]

module _ ⦃p : TlsSystem⦄ where
  both :
      {A : Type 0} {Q R : Option A → TlsConnection → Ledger → Type 0} {r : Ran (Option A)}
      → Ends Q r
      → Answered r
      → ((a : A) (c : TlsConnection) (l : Ledger) → Q (some a) c l → R (some a) c l)
      → Ends R r
  both (ends e q) (answered a w) k = ends e (k a w.conn _ q)

module _ ⦃p : TlsSystem⦄ {clock : p.S → ℕ} {per_tick : ℕ} (steady : IsSteady clock per_tick)
    {host : Text} {port : ℕ} {read : Text} where
  recv_line-Answered :
      {b : Bool} {c : TlsConnection} {l : Ledger} (fuel timeout_sec : ℕ)
      → Linked host port read b c l
      → timeout_sec * 1000000000 * per_tick < fuel
      → (os : p.S) (trace : List Call)
      → Answered (recv_line fuel timeout_sec (record { conn = c; os = os; trace = trace }))
  unfolding recv_line using_socket using log call get_conn
  recv_line-Answered fuel timeout_sec is_down enough os trace = answered [] _
  recv_line-Answered fuel timeout_sec (is_up fd ctx ssl) enough os trace =
      Answered-bind _
        (recv_rounds-Answered steady fuel (some fd) (some ssl) _ [] _ (
          until_deadline _ (timeout_sec * 1000000000) _ _ _ _ (steady.shows _) (steady.takes_time _)
            enough))
        (λ r w. answered _ _)

  -- On a steady clock, a call of `recv_line` on a connection that is down or up ends: as many rounds as
  -- the timeout has units of physical time, and one more, are enough.
  -- It leaves the connection as it is; its answer is what it has read, each buffer up to its first
  -- zero, before the first newline.
  pub recv_line-answers :
      {b : Bool} {c : TlsConnection} {l : Ledger} (fuel timeout_sec : ℕ)
      → Linked host port read b c l
      → timeout_sec * 1000000000 * per_tick < fuel
      → Execs c l (recv_line fuel timeout_sec) (λ answer c' l'.
        (bytes : Text) × Linked host port (read ++ bytes) b c' l'
        × ((line : Text) × (answer ≡ some line) × IsLine line bytes))
  recv_line-answers fuel timeout_sec h enough = record {
    apply = λ os trace e.
        both ((recv_line-Linked fuel timeout_sec h).apply os trace e)
          (recv_line-Answered fuel timeout_sec h enough os trace)
          (λ line c l q. (q.0, q.1, (line, refl, q.2)));
  }
