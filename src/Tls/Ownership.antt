-- ===== src/Tls/Ownership.antt =====
-- gpu-proxy-cpp/src/ssl_utils.cpp: what a connection owns before and after `connect`, `disconnect` and
-- `send_line`.
use compute_market.Base.{not, ℕ, ◌≡◌, refl, Bool, true, false, List, [], ◌∷◌, Option, none, some}
use compute_market.Base.Text.{Text}
use compute_market.Tls.System.{TlsSystem}
use compute_market.Tls.State.{TlsConnection, Resource, descriptor, context, session, T, ◌>>=◌}
use compute_market.Tls.{
  new_tls_connection, create_ssl_context, drop_ssl, perform_ssl_handshake, close_socket, secure,
  connect, disconnect, send_line, disconnect_ssl, disconnect_ctx, disconnect_socket,
}
use compute_market.Tls.Ledger.{Ledger, holds, holds_head}
use compute_market.Tls.Execs.{
  Becomes, becomes, exec-after, Execs, exec-bind, exec-pure, exec-get, exec-put, exec-put_last,
  exec-using, exec-option, exec-if, exec-call, exec-acquire, exec-release, exec-log_used,
}

-- A resource was made, and the connection points to it, or it was not.
pub data Made (kind : ℕ → Resource) (set : Option ℕ → TlsConnection) (held : List Resource)
    (read : Text) : Bool → TlsConnection → Ledger → Type 0 where
  made : (h : ℕ) → Made kind set held read true (set (some h)) (kind h ∷ held, read)
  not_made : Made kind set held read false (set none) (held, read)

module _ ⦃p : TlsSystem⦄ where
  -- A connection is up, and owns the session, the context and the descriptor that it points to, or it
  -- is as its constructor makes it, and owns nothing.
  pub data Linked (host : Text) (port : ℕ) (read : Text)
      : Bool → TlsConnection → Ledger → Type 0 where
    is_down : Linked host port read false (new_tls_connection host port) ([], read)
    is_up :
        (fd ctx ssl : ℕ)
        → Linked host port read true
            (record {
              host = host;
              port = port;
              socket_fd = some fd;
              ssl = some ssl;
              ctx = some ctx;
              connected = true;
            })
            (session ssl ∷ context ctx ∷ descriptor fd ∷ [], read)

  by_Made :
      {B : Type 0} {Q : B → TlsConnection → Ledger → Type 0} {kind : ℕ → Resource}
      {set : Option ℕ → TlsConnection} {held : List Resource} {read : Text} (f : Bool → T B)
      {b : Bool} {c : TlsConnection} {l : Ledger}
      → Made kind set held read b c l
      → ((h : ℕ) → Execs (set (some h)) (kind h ∷ held, read) (f true) Q)
      → Execs (set none) (held, read) (f false) Q
      → Execs c l (f b) Q
  by_Made f (made h) k n = k h
  by_Made f not_made k n = n

  exec-made :
      {B : Type 0} {Q : B → TlsConnection → Ledger → Type 0} {kind : ℕ → Resource}
      {set : Option ℕ → TlsConnection} {held : List Resource} {read : Text} {c : TlsConnection}
      {l : Ledger} {m : T Bool} (f : Bool → T B)
      → Execs c l m (Made kind set held read)
      → ((h : ℕ) → Execs (set (some h)) (kind h ∷ held, read) (f true) Q)
      → Execs (set none) (held, read) (f false) Q
      → Execs c l (m >>= f) Q
  exec-made f h k n = exec-bind h (λ b d now m. by_Made f m k n)

  create_ssl_context-Made :
      (c : TlsConnection) (held : List Resource) (read : Text)
      → Execs c (held, read) create_ssl_context (Made context (λ o. record c { ctx = o }) held read)
  unfolding create_ssl_context
  create_ssl_context-Made c held read =
      exec-acquire _ _ _ (exec-get _ (exec-put _ _ (exec-pure not_made))) λ h. exec-get _ (
        exec-put _ _ (
          exec-using _ _ _ (holds_head _ _) λ _. exec-using _ _ _ (holds_head _ _) λ ciphers.
            exec-if (not ciphers) (exec-release _ _ _ (exec-put _ _ (exec-pure not_made)))
              (exec-using _ _ _ (holds_head _ _) (λ _. exec-pure (made h)))))

  drop_ssl-Made :
      (c : TlsConnection) (ssl : ℕ) (held : List Resource) (read : Text)
      → Execs c
          (session ssl ∷ held, read)
          (drop_ssl ssl)
          (Made session (λ o. record c { ssl = o }) held read)
  unfolding drop_ssl
  drop_ssl-Made c ssl held read =
      exec-release _ _ _ (exec-get _ (exec-put _ _ (exec-pure not_made)))

  perform_ssl_handshake-Made :
      (c : TlsConnection) (ctx fd : ℕ) (held : List Resource) (read : Text)
      → holds (context ctx) held ≡ true
      → Execs c
          (held, read)
          (perform_ssl_handshake ctx fd)
          (Made session (λ o. record c { ssl = o }) held read)
  unfolding perform_ssl_handshake
  perform_ssl_handshake-Made c ctx fd held read there = exec-log_used _ _ there (
      exec-acquire _ _ _ (exec-get _ (exec-put _ _ (exec-pure not_made))) λ ssl. exec-get _ (
        exec-put _ _ (
          exec-using _ _ _ (holds_head _ _) λ _. exec-using _ _ _ (holds_head _ _) λ set.
            exec-if (not set) (drop_ssl-Made (record c { ssl = some ssl }) ssl held read) (
              exec-using _ _ _ (holds_head _ _) λ shaken.
                exec-if (not shaken) (drop_ssl-Made (record c { ssl = some ssl }) ssl held read)
                  (exec-pure (made ssl))))))

  disconnect_ssl-Becomes :
      (c : TlsConnection) (ssl : ℕ) (held : List Resource) (read : Text)
      → Execs c
          (session ssl ∷ held, read)
          (disconnect_ssl (some ssl))
          (Becomes (record c { ssl = none }) (held, read))
  unfolding disconnect_ssl
  disconnect_ssl-Becomes c ssl held read =
      exec-using _ _ _ (holds_head _ _)
        λ _. exec-release _ _ _ (exec-get _ (exec-put_last _ (becomes tt)))

  disconnect_ctx-Becomes :
      (c : TlsConnection) (ctx : ℕ) (held : List Resource) (read : Text)
      → Execs c
          (context ctx ∷ held, read)
          (disconnect_ctx (some ctx))
          (Becomes (record c { ctx = none }) (held, read))
  unfolding disconnect_ctx
  disconnect_ctx-Becomes c ctx held read =
      exec-release _ _ _ (exec-get _ (exec-put_last _ (becomes tt)))

  disconnect_socket-Becomes :
      (c : TlsConnection) (fd : ℕ) (held : List Resource) (read : Text)
      → Execs c
          (descriptor fd ∷ held, read)
          (disconnect_socket (some fd))
          (Becomes (record c { socket_fd = none }) (held, read))
  unfolding disconnect_socket
  disconnect_socket-Becomes c fd held read =
      exec-release _ _ _ (exec-get _ (exec-put_last _ (becomes tt)))

  module _ {host : Text} {port : ℕ} {read : Text} where
    close_socket-Linked :
        (fd : ℕ)
        → Execs
            (record (new_tls_connection host port) { socket_fd = some fd })
            (descriptor fd ∷ [], read)
            (close_socket fd)
            (Linked host port read)
    unfolding close_socket
    close_socket-Linked fd = exec-release _ _ _ (exec-get _ (exec-put _ _ (exec-pure is_down)))

    -- Whatever the handshake has done.
    secure-Linked :
        (ctx fd : ℕ)
        → Execs
            (record (new_tls_connection host port) { socket_fd = some fd; ctx = some ctx })
            (context ctx ∷ descriptor fd ∷ [], read)
            (secure ctx fd)
            (Linked host port read)
    unfolding secure
    secure-Linked ctx fd =
        exec-made _ (perform_ssl_handshake-Made _ ctx fd _ read (holds_head _ _))
          (λ ssl. exec-get _ (exec-put _ _ (exec-pure (is_up fd ctx ssl))))
          (exec-get _ (exec-release _ _ _ (exec-put _ _ (close_socket-Linked fd))))

    -- From a connection that is down, `connect` answers whether it is up, and a failure on the way
    -- gives back everything.
    pub connect-Linked :
        Execs (new_tls_connection host port) ([], read) connect (Linked host port read)
    unfolding connect
    connect-Linked = exec-acquire _ _ _ (exec-get _ (exec-put _ _ (exec-pure is_down))) λ fd.
        exec-get _ (
          exec-put _ _ (
            exec-using _ _ _ (holds_head _ _) λ flags. exec-using _ _ _ (holds_head _ _) λ _.
              exec-call _ _ λ resolved. exec-option resolved (close_socket-Linked fd) λ address.
                exec-using _ _ _ (holds_head _ _) λ reached.
                  exec-if (not reached) (close_socket-Linked fd) (
                    exec-made _ (create_ssl_context-Made _ _ read)
                      (λ ctx. exec-get _ (secure-Linked ctx fd)) (close_socket-Linked fd))))

    -- `disconnect` gives back what the connection owns.
    pub disconnect-Linked :
        {b : Bool} {c : TlsConnection} {l : Ledger}
        → Linked host port read b c l
        → Execs c l disconnect (λ _. Linked host port read false)
    unfolding disconnect
    disconnect-Linked is_down =
        unfold disconnect_ssl disconnect_ctx disconnect_socket in
        exec-get _ (exec-get _ (exec-put_last _ is_down))
    disconnect-Linked (is_up fd ctx ssl) = exec-get _ (
        exec-after _ (disconnect_ssl-Becomes _ ssl _ read) λ _.
          exec-after _ (disconnect_ctx-Becomes _ ctx _ read) λ _.
            exec-after _ (disconnect_socket-Becomes _ fd _ read)
              λ _. exec-get _ (exec-put_last _ is_down))

    -- A line is sent only over a connection that is up.
    pub send_line-Linked :
        {b : Bool} {c : TlsConnection} {l : Ledger} (line : Text)
        → Linked host port read b c l
        → Execs c l
            (send_line line)
            (λ sent c' l'. Linked host port read b c' l' × (b ≡ false → sent ≡ false))
    unfolding send_line
    send_line-Linked line is_down = exec-get _ (exec-pure (is_down, λ e. refl))
    send_line-Linked line (is_up fd ctx ssl) =
        exec-get _
          (exec-using _ _ _ (holds_head _ _) (λ written. exec-pure (is_up fd ctx ssl, λ e. cc)))
