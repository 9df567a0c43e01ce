-- ===== src/Tls/Reading.antt =====
-- gpu-proxy-cpp/src/ssl_utils.cpp: what `recv_line` reads and returns.
use compute_market.Base.{
  ℕ, zero, suc, ◌≡◌, refl, sym, ap, subst, ◌≢◌, ◌⊎◌, inl, inr, Bool, true, false, not, List, [],
  ◌∷◌, ◌++◌, Option, none, some, ◌==◌, ltb, ◌-◌, ◌/◌, append_assoc, append-nil, All, ne_of_eqb,
  ==_iff, Bool-cases,
}
use compute_market.Base.Text.{Text}
use compute_market.Platform.{
  Received, received, end_of_stream, receive_failed, SslError, want_read, want_write, zero_return,
  other_error,
}
use compute_market.Tls.System.{TlsSystem, PollOne, poll_error, poll_nothing, poll_event}
use compute_market.Tls.State.{
  TlsConnection, Resource, descriptor, context, session, T, ◌>>=◌, pure, using_socket,
}
use compute_market.Tls.Receive.{
  until_nul, has_newline, trim_at_newline, Round, continues, breaks, after_append, append_buffer,
  after_error, after_read, after_poll, wait_for_data, after_pending, recv_round, recv_rounds,
  recv_line,
}
use compute_market.Tls.Ledger.{Ledger, holds, holds_head, holds_tail}
use compute_market.Tls.Execs.{
  Execs, exec-bind, exec-pure, exec-get, exec-using, exec-if, exec-call, exec-log_took,
}
use compute_market.Tls.Ownership.{Linked, is_down, is_up}

-- `line` is what `text` holds before its first newline.
pub record IsLine (line bytes : Text) : Type 0 where
  pub rest : Text
  pub whole : line ++ rest ≡ bytes
  pub single : All (λ c. c ≢ b'\n') line
  pub at_newline : (rest ≡ []) ⊎ ((more : Text) × (rest ≡ b'\n' ∷ more))

trim_at_newline-IsLine : (s : Text) → IsLine (trim_at_newline s) s
unfolding trim_at_newline
trim_at_newline-IsLine [] = record { rest = []; whole = refl; single = tt; at_newline = inl refl }
trim_at_newline-IsLine (c ∷ s) = elim (Bool-cases (c == b'\n')) [
  | inl e ↦
      rw (e, trim_at_newline)
        record {
          rest = c ∷ s;
          whole = refl;
          single = tt;
          at_newline = inr (s, ap (λ d. d ∷ s) ((==_iff c b'\n').0 e));
        }
  | inr e ↦
      let l = trim_at_newline-IsLine s in
      rw (e, trim_at_newline)
        record {
          rest = l.rest;
          whole = ap (λ t. c ∷ t) l.whole;
          single = (ne_of_eqb c b'\n' e, l.single);
          at_newline = l.at_newline;
        }
]

-- A round ends, and `result` is what was read since `base` was.
data Reads (c : TlsConnection) (held : List Resource) (base : Text)
    : Round → TlsConnection → Ledger → Type 0 where
  goes_on : (r : Text) → Reads c held base (continues r) c (held, base ++ r)
  leaves : (r : Text) → Reads c held base (breaks r) c (held, base ++ r)

-- So does the loop, unless its fuel runs out.
data ReadsAll (c : TlsConnection) (held : List Resource) (base : Text)
    : Option Text → TlsConnection → Ledger → Type 0 where
  out_of_fuel : (r : Text) → ReadsAll c held base none c (held, base ++ r)
  finished : (r : Text) → ReadsAll c held base (some r) c (held, base ++ r)

module _ ⦃p : TlsSystem⦄ {B : Type 0} {Q : B → TlsConnection → Ledger → Type 0} where
  by_Reads :
      {d : TlsConnection} {held : List Resource} {base : Text} (f : Round → T B) {round : Round}
      {c : TlsConnection} {l : Ledger}
      → Reads d held base round c l
      → ((r : Text) → Execs d (held, base ++ r) (f (continues r)) Q)
      → ((r : Text) → Execs d (held, base ++ r) (f (breaks r)) Q)
      → Execs c l (f round) Q
  by_Reads f (goes_on r) k n = k r
  by_Reads f (leaves r) k n = n r

  exec-round :
      {d : TlsConnection} {held : List Resource} {base : Text} {c : TlsConnection} {l : Ledger}
      {m : T Round} (f : Round → T B)
      → Execs c l m (Reads d held base)
      → ((r : Text) → Execs d (held, base ++ r) (f (continues r)) Q)
      → ((r : Text) → Execs d (held, base ++ r) (f (breaks r)) Q)
      → Execs c l (m >>= f) Q
  exec-round f h k n = exec-bind h (λ round c' l' q. by_Reads f q k n)

  by_ReadsAll :
      {d : TlsConnection} {held : List Resource} {base : Text} (f : Option Text → T B)
      {out : Option Text} {c : TlsConnection} {l : Ledger}
      → ReadsAll d held base out c l
      → ((r : Text) → Execs d (held, base ++ r) (f none) Q)
      → ((r : Text) → Execs d (held, base ++ r) (f (some r)) Q)
      → Execs c l (f out) Q
  by_ReadsAll f (out_of_fuel r) k n = k r
  by_ReadsAll f (finished r) k n = n r

  exec-all :
      {d : TlsConnection} {held : List Resource} {base : Text} {c : TlsConnection} {l : Ledger}
      {m : T (Option Text)} (f : Option Text → T B)
      → Execs c l m (ReadsAll d held base)
      → ((r : Text) → Execs d (held, base ++ r) (f none) Q)
      → ((r : Text) → Execs d (held, base ++ r) (f (some r)) Q)
      → Execs c l (m >>= f) Q
  exec-all f h k n = exec-bind h (λ out c' l' q. by_ReadsAll f q k n)

module _ ⦃p : TlsSystem⦄ (c : TlsConnection) (held : List Resource) (base : Text) where
  after_append-Reads :
      (r : Text) (read : Text)
      → read ≡ base ++ r
      → Execs c (held, read) (pure (after_append r)) (Reads c held base)
  unfolding after_append
  after_append-Reads r read e = elim (Bool-cases (has_newline r)) [
    | inl n ↦ rw (e, n, after_append) (exec-pure (leaves r))
    | inr n ↦ rw (e, n, after_append) (exec-pure (goes_on r))
  ]

  append_buffer-Reads :
      (r buf : Text) → Execs c (held, base ++ r) (append_buffer r buf) (Reads c held base)
  unfolding append_buffer
  append_buffer-Reads r buf = exec-log_took _ _ (
      after_append-Reads (r ++ until_nul buf) ((base ++ r) ++ until_nul buf)
        (append_assoc base r (until_nul buf)))

  after_error-Reads :
      (r : Text) (err : SslError)
      → Execs c (held, base ++ r) (pure (after_error r err)) (Reads c held base)
  after_error-Reads r want_read = exec-pure (goes_on r)
  after_error-Reads r want_write = exec-pure (goes_on r)
  after_error-Reads r zero_return = exec-pure (leaves r)
  after_error-Reads r other_error = exec-pure (leaves r)

  module _ (fd ssl : ℕ) (live : holds (session ssl) held ≡ true)
      (opened : holds (descriptor fd) held ≡ true) where
    after_read-Reads :
        (r : Text) (got : Received)
        → Execs c (held, base ++ r) (after_read ssl r got) (Reads c held base)
    unfolding after_read
    after_read-Reads r (received buf) = append_buffer-Reads r buf
    after_read-Reads r end_of_stream = exec-using _ _ _ live (after_error-Reads r)
    after_read-Reads r receive_failed = exec-using _ _ _ live (after_error-Reads r)

    after_poll-Reads :
        (r : Text) (polled : PollOne)
        → Execs c (held, base ++ r) (after_poll ssl r polled) (Reads c held base)
    unfolding after_poll
    after_poll-Reads r poll_error = exec-pure (leaves r)
    after_poll-Reads r poll_nothing = exec-pure (goes_on r)
    after_poll-Reads r poll_event = exec-using _ _ _ live (after_read-Reads r)

    wait_for_data-Reads :
        (deadline : ℕ) (r : Text)
        → Execs c (held, base ++ r) (wait_for_data (some fd) ssl deadline r) (Reads c held base)
    unfolding wait_for_data using_socket
    wait_for_data-Reads deadline r = exec-call _ _ λ now.
        exec-if ((deadline - now) / 1000000 == 0) (exec-pure (leaves r))
          (exec-using _ _ _ opened (after_poll-Reads r))

    after_pending-Reads :
        (deadline : ℕ) (r : Text) (got : Received)
        → Execs c (held, base ++ r) (after_pending (some fd) ssl deadline r got) (Reads c held base)
    unfolding after_pending
    after_pending-Reads deadline r (received buf) = append_buffer-Reads r buf
    after_pending-Reads deadline r end_of_stream = wait_for_data-Reads deadline r
    after_pending-Reads deadline r receive_failed = wait_for_data-Reads deadline r

    recv_round-Reads :
        (deadline : ℕ) (r : Text)
        → Execs c (held, base ++ r) (recv_round (some fd) ssl deadline r) (Reads c held base)
    unfolding recv_round
    recv_round-Reads deadline r = exec-using _ _ _ live λ pending.
        exec-if (not pending) (wait_for_data-Reads deadline r)
          (exec-using _ _ _ live (after_pending-Reads deadline r))

    recv_rounds-ReadsAll :
        (fuel deadline : ℕ) (r : Text)
        → Execs c
            (held, base ++ r)
            (recv_rounds fuel (some fd) (some ssl) deadline r)
            (ReadsAll c held base)
    unfolding recv_rounds
    recv_rounds-ReadsAll zero deadline r = exec-pure (out_of_fuel r)
    recv_rounds-ReadsAll (suc fuel) deadline r = exec-call _ _ λ now.
        exec-if (not (ltb now deadline)) (exec-pure (finished r)) (
          exec-round _ (recv_round-Reads deadline r) (recv_rounds-ReadsAll fuel deadline)
            (λ r'. exec-pure (finished r')))

    recv_rounds_from_nothing :
        (fuel deadline : ℕ)
        → Execs c
            (held, base)
            (recv_rounds fuel (some fd) (some ssl) deadline [])
            (ReadsAll c held base)
    recv_rounds_from_nothing fuel deadline =
        subst
          (λ t.
            Execs c (held, t) (recv_rounds fuel (some fd) (some ssl) deadline [])
              (ReadsAll c held base))
          (append-nil base) (recv_rounds-ReadsAll fuel deadline [])

-- What a call of `recv_line` that has read `bytes` answers.
abbrev pub Answers : Option Text → Text → Type 0
Answers none bytes = Unit
Answers (some line) bytes = IsLine line bytes

module _ ⦃p : TlsSystem⦄ {host : Text} {port : ℕ} {read : Text} where
  -- `recv_line` leaves the connection as it is; its answer is what it has read, each buffer up to its
  -- first zero, before the first newline. What comes after that is dropped.
  pub recv_line-Linked :
      {b : Bool} {c : TlsConnection} {l : Ledger} (fuel timeout_sec : ℕ)
      → Linked host port read b c l
      → Execs c l (recv_line fuel timeout_sec) (λ answer c' l'.
        (bytes : Text) × Linked host port (read ++ bytes) b c' l' × Answers answer bytes)
  unfolding recv_line trim_at_newline using_socket
  recv_line-Linked fuel timeout_sec is_down = exec-get _ (
      exec-pure (
        [],
        subst (λ t. Linked host port t false _ ([], read)) (sym (append-nil read)) is_down,
        trim_at_newline-IsLine [],
      ))
  recv_line-Linked fuel timeout_sec (is_up fd ctx ssl) =
      let there = holds_head (session ssl) (context ctx ∷ descriptor fd ∷ []) in
      let opened =
        holds_tail (descriptor fd) (session ssl) _
          (holds_tail (descriptor fd) (context ctx) _ (holds_head (descriptor fd) [])) in
      exec-get _ (
        exec-using _ _ _ opened λ flags. exec-using _ _ _ opened λ _. exec-call _ _ λ start.
          exec-all _ (recv_rounds_from_nothing _ _ read fd ssl there opened fuel _)
            (λ r. exec-pure (r, is_up fd ctx ssl, tt))
            (λ r.
              exec-using _ _ _ opened
                (λ _. exec-pure (r, is_up fd ctx ssl, trim_at_newline-IsLine r))))
