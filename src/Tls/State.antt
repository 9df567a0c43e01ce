-- ===== src/Tls/State.antt =====
-- gpu-proxy-cpp/src/ssl_utils.hpp: the state of `TLSConnection`, and the monad in which its methods run.
-- `trace` is the history of the resources: which were acquired, used and released, and what was read.
use compute_market.Base.{ℕ, Bool, List, [], ◌∷◌, ◌++◌, Option, none, some}
use compute_market.Base.Text.{Text}
use compute_market.Tls.System.{TlsSystem}

pub record TlsConnection : Type 0 where
  pub host : Text
  pub port : ℕ
  pub socket_fd : Option ℕ
  pub ssl : Option ℕ
  pub ctx : Option ℕ
  pub connected : Bool

-- What must be given back: a descriptor, an `SSL_CTX`, an `SSL`.
pub data Resource : Type 0 where
  descriptor context session : ℕ → Resource

pub data Call : Type 0 where
  acquired used released : Resource → Call
  took : Text → Call

module _ ⦃p : TlsSystem⦄ where
  pub record TlsWorld : Type 0 where
    pub conn : TlsConnection
    pub os : p.S
    -- Newest last.
    pub trace : List Call

  -- A null pointer that OpenSSL is given is undefined behaviour.
  pub data Ran (A : Type 0) : Type 0 where
    ran : A → TlsWorld → Ran A
    crashed : Ran A

  abbrev pub T : Type 0 → Type 0
  T A = TlsWorld → Ran A

  infixl 5 ◌>>=◌ ◌>>◌
  abbrev pub and_then : {A B : Type 0} → Ran A → (A → T B) → Ran B
  and_then (ran a w) f = f a w
  and_then crashed f = crashed

  abbrev pub ◌>>=◌ : {A B : Type 0} → T A → (A → T B) → T B
  ◌>>=◌ m f w = and_then (m w) f

  abbrev pub ◌>>◌ : {B : Type 0} → T (Unit {0}) → T B → T B
  ◌>>◌ m k w = and_then (m w) (λ _. k)

  abbrev pub pure : {A : Type 0} → A → T A
  pure a w = ran a w

  abbrev pub done : T (Unit {0})
  done w = ran tt w

  abbrev pub crash : {A : Type 0} → T A
  crash w = crashed

  unfoldable pub get_conn : T TlsConnection
  get_conn w = ran w.conn w

  unfoldable pub put_conn : TlsConnection → T (Unit {0})
  put_conn c w = ran tt (record w { conn = c })

  unfoldable pub log : Call → T (Unit {0})
  log c w = ran tt (record w { trace = w.trace ++ (c ∷ []) })

  -- A call that concerns no resource.
  unfoldable pub call : {A : Type 0} → (p.S → A × p.S) → T A
  call f w = ran (f w.os).0 (record w { os = (f w.os).1 })

  abbrev pub match_option : {A B : Type 0} → Option A → T B → (A → T B) → T B
  match_option none k f = k
  match_option (some a) k f = f a

  -- A call that makes a resource or fails.
  unfoldable pub acquire : (ℕ → Resource) → (p.S → Option ℕ × p.S) → T (Option ℕ)
  acquire kind f = do
    made ← call f
    match_option made (pure none) λ h. do log (acquired (kind h)); pure (some h)

  -- A call on one.
  unfoldable pub using : {A : Type 0} → Resource → (p.S → A × p.S) → T A
  using r f = do log (used r); call f

  unfoldable pub release : Resource → (p.S → p.S) → T (Unit {0})
  release r f = do log (released r); call (λ s. (tt, f s))

  -- A call on the descriptor of the socket, or on -1.
  unfoldable pub using_socket : {A : Type 0} → Option ℕ → (p.S → A × p.S) → T A
  using_socket none f = call f
  using_socket (some fd) f = using (descriptor fd) f
