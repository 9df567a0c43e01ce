-- ===== src/Tls/Execs.antt =====
-- gpu-proxy-cpp/src/ssl_utils.cpp: how a method runs on a ledger of resources, and a rule for each way to
-- build a method.
use compute_market.Base.{
  ℕ, ◌≡◌, ◌∙◌, Bool, true, false, List, [], ◌∷◌, ◌++◌, Option, none, some, if◌then◌else◌, inl, inr,
  Option-cases,
}
use compute_market.Base.Text.{Text}
use compute_market.Tls.Receive.{until_nul}
use compute_market.Tls.System.{TlsSystem}
use compute_market.Tls.State.{
  TlsConnection, Resource, Call, acquired, used, released, took, TlsWorld, Ran, ran, T, and_then,
  ◌>>=◌, ◌>>◌, pure, get_conn, put_conn, log, call, match_option, acquire, using, release,
}
use compute_market.Tls.Ledger.{
  holds, Ledger, step, replay, replay-snoc, step_used, holds_head, step_released, holds_tail,
}

module _ ⦃p : TlsSystem⦄ where
  -- The method returns, with `Q` of its result, the connection and what is held.
  pub data Ends {A : Type 0} (Q : A → TlsConnection → Ledger → Type 0) : Ran A → Type 0 where
    ends :
        {a : A} {w : TlsWorld} {l : Ledger}
        → replay w.trace ([], []) ≡ some l
        → Q a w.conn l
        → Ends Q (ran a w)

  -- It does so from `c`, while `held` is held, in any state of the system.
  pub record Execs {A : Type 0} (c : TlsConnection) (l : Ledger) (m : T A)
      (Q : A → TlsConnection → Ledger → Type 0) : Type 0 where
    pub apply :
        (os : p.S) (trace : List Call)
        → replay trace ([], []) ≡ some l
        → Ends Q (m (record { conn = c; os = os; trace = trace }))

module _ ⦃p : TlsSystem⦄ {A B : Type 0} {Q : B → TlsConnection → Ledger → Type 0} where
  Ends-bind :
      {R : A → TlsConnection → Ledger → Type 0} {r : Ran A} (f : A → T B)
      → Ends R r
      → ((a : A) (c' : TlsConnection) (now : Ledger) → R a c' now → Execs c' now (f a) Q)
      → Ends Q (and_then r f)
  Ends-bind f (ends {a} {w} {l} e q) k = (k a w.conn l q).apply w.os w.trace e

module _ ⦃p : TlsSystem⦄ {A B : Type 0} {c : TlsConnection} {l : Ledger}
    {Q : B → TlsConnection → Ledger → Type 0} where
  pub exec-bind :
      {R : A → TlsConnection → Ledger → Type 0} {m : T A} {f : A → T B}
      → Execs c l m R
      → ((a : A) (c' : TlsConnection) (now : Ledger) → R a c' now → Execs c' now (f a) Q)
      → Execs c l (m >>= f) Q
  exec-bind {f} h k = record { apply = λ os trace e. Ends-bind f (h.apply os trace e) k }

module _ ⦃p : TlsSystem⦄ {A B : Type 0} {c : TlsConnection} {held : List Resource} {read : Text}
    {Q : B → TlsConnection → Ledger → Type 0} where
  pub exec-call :
      (f : p.S → A × p.S) (k : A → T B)
      → ((a : A) → Execs c (held, read) (k a) Q)
      → Execs c (held, read) (call f >>= k) Q
  exec-call f k h =
      unfold call in record { apply = λ os trace e. (h (f os).0).apply (f os).1 trace e }

  pub exec-using :
      (r : Resource) (f : p.S → A × p.S) (k : A → T B)
      → holds r held ≡ true
      → ((a : A) → Execs c (held, read) (k a) Q)
      → Execs c (held, read) (using r f >>= k) Q
  exec-using r f k there h =
      unfold using log call in
      record {
        apply = λ os trace e.
            (h (f os).0).apply (f os).1 _
              (replay-snoc trace (used r) ([], []) (held, read) e ∙ step_used r held read there);
      }

module _ ⦃p : TlsSystem⦄ {A : Type 0} {Q R : A → TlsConnection → Ledger → Type 0} where
  pub Ends-mono :
      {r : Ran A}
      → Ends Q r
      → ((a : A) (c : TlsConnection) (l : Ledger) → Q a c l → R a c l)
      → Ends R r
  Ends-mono (ends {a} {w} {l} e q) k = ends e (k a w.conn l q)

  pub exec-mono :
      {c : TlsConnection} {l : Ledger} {m : T A}
      → Execs c l m Q
      → ((a : A) (c : TlsConnection) (l : Ledger) → Q a c l → R a c l)
      → Execs c l m R
  exec-mono h k = record { apply = λ os trace e. Ends-mono (h.apply os trace e) k }

-- The one way in which a method ends.
pub data Becomes {A : Type 0} (c : TlsConnection) (l : Ledger)
    : A → TlsConnection → Ledger → Type 0 where
  becomes : (a : A) → Becomes c l a c l

module _ ⦃p : TlsSystem⦄ {A B : Type 0} {Q : B → TlsConnection → Ledger → Type 0} where
  become-by :
      (f : A → T B) {a : A} {c c' : TlsConnection} {l l' : Ledger}
      → Becomes c l a c' l'
      → ((a : A) → Execs c l (f a) Q)
      → Execs c' l' (f a) Q
  become-by f (becomes a) k = k a

  pub exec-after :
      {m : T A} (f : A → T B) {c c' : TlsConnection} {l l' : Ledger}
      → Execs c l m (Becomes c' l')
      → ((a : A) → Execs c' l' (f a) Q)
      → Execs c l (m >>= f) Q
  exec-after f h k = exec-bind h (λ a d now b. become-by f b k)

module _ ⦃p : TlsSystem⦄ where
  pub exec-put_last :
      {c : TlsConnection} {l : Ledger} {Q : Unit {0} → TlsConnection → Ledger → Type 0}
      (c' : TlsConnection)
      → Q tt c' l
      → Execs c l (put_conn c') Q
  exec-put_last c' q = unfold put_conn in record { apply = λ os trace e. ends e q }

module _ ⦃p : TlsSystem⦄ {B : Type 0} {c : TlsConnection} {held : List Resource} {read : Text}
    {Q : B → TlsConnection → Ledger → Type 0} where
  pub exec-pure : {b : B} → Q b c (held, read) → Execs c (held, read) (pure b) Q
  exec-pure q = record { apply = λ os trace e. ends e q }

  pub exec-get :
      (k : TlsConnection → T B)
      → Execs c (held, read) (k c) Q
      → Execs c (held, read) (get_conn >>= k) Q
  exec-get k h = unfold get_conn in record { apply = h.apply }

  pub exec-put :
      (c' : TlsConnection) (k : T B)
      → Execs c' (held, read) k Q
      → Execs c (held, read) (put_conn c' >> k) Q
  exec-put c' k h = unfold put_conn in record { apply = h.apply }

  pub exec-log_used :
      (r : Resource) (k : T B)
      → holds r held ≡ true
      → Execs c (held, read) k Q
      → Execs c (held, read) (log (used r) >> k) Q
  exec-log_used r k there h =
      unfold log in
      record {
        apply = λ os trace e.
            h.apply os _
              (replay-snoc trace (used r) ([], []) (held, read) e ∙ step_used r held read there);
      }

  pub exec-log_took :
      (s : Text) (k : T B)
      → Execs c (held, read ++ until_nul s) k Q
      → Execs c (held, read) (log (took s) >> k) Q
  exec-log_took s k h =
      unfold log step in
      record {
        apply = λ os trace e. h.apply os _ (replay-snoc trace (took s) ([], []) (held, read) e);
      }

  pub exec-acquire :
      (kind : ℕ → Resource) (f : p.S → Option ℕ × p.S) (k : Option ℕ → T B)
      → Execs c (held, read) (k none) Q
      → ((h : ℕ) → Execs c (kind h ∷ held, read) (k (some h)) Q)
      → Execs c (held, read) (acquire kind f >>= k) Q
  exec-acquire kind f k none_made made =
      unfold acquire step call log in
      record {
        apply = λ os trace e. elim (Option-cases (f os).0) [
          | inl n ↦ rw (n, acquire) (none_made.apply (f os).1 trace e)
          | inr (h, n) ↦
              rw (n, acquire)
                ((made h).apply (f os).1 _
                  (replay-snoc trace (acquired (kind h)) ([], []) (held, read) e))
        ];
      }

  pub exec-release :
      (r : Resource) (f : p.S → p.S) (k : T B)
      → Execs c (held, read) k Q
      → Execs c (r ∷ held, read) (release r f >> k) Q
  exec-release r f k h =
      unfold release log call in
      record {
        apply = λ os trace e. h.apply (f os) _ (
            replay-snoc trace (released r) ([], []) (r ∷ held, read) e ∙ step_released r held read);
      }

  pub exec-if :
      (b : Bool) {m k : T B}
      → Execs c (held, read) m Q
      → Execs c (held, read) k Q
      → Execs c (held, read) (if b then m else k) Q
  exec-if true h g = h
  exec-if false h g = g

  pub exec-option :
      {A : Type 0} (o : Option A) {k : T B} {f : A → T B}
      → Execs c (held, read) k Q
      → ((a : A) → Execs c (held, read) (f a) Q)
      → Execs c (held, read) (match_option o k f) Q
  exec-option none h g = h
  exec-option (some a) h g = g a

pub ruleset executing = (
  exec-call, exec-using, exec-get, exec-put, exec-log_used, exec-log_took, exec-acquire,
  exec-release, exec-if, exec-option, holds_head, holds_tail,
)
