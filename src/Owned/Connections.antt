-- ===== src/Owned/Connections.antt =====
-- gpu-proxy-cpp/src/connection.cpp: the methods of a connection that call no callback keep the
-- connections owned, and what making and deleting one does.
use compute_market.Base.{ℕ, refl, [], Option, none, some, inl, inr, Bool-cases}
use compute_market.Base.Text.{Text}
use compute_market.Base.Table.{Table}
use compute_market.Platform.{Platform, Sent, SslError}
use compute_market.World.{Connection, ConnectionState, ConnectionType}
use compute_market.Outcome.{load-some}
use compute_market.Connection.State.{
  StateCallback, set_state, no_callback, new_connection, allocate, destroy, free, mark_for_closing,
}
use compute_market.Connection.Tls.{create_ssl_context, setup_tls}
use compute_market.Connection.Io.{send_line, after_write}
use compute_market.Owned.{Keeps}
use compute_market.Owned.Changes.{allocated, freed}
use compute_market.Owned.Rules.{
  Known, first, writing, own_any, own_bind, own_then, own_load, own_store_then, own_when, own_done,
  own_os_call, own_os_run,
}
use compute_market.Owned.Pending.{
  Opens, yields, open_bind, open_then, open_pure, open_if, own_pending,
}
use compute_market.Connection.Connect.{
  open_connection, abandon, connect_socket, with_socket, connect_to_pool,
}

module _ ⦃p : Platform⦄ {held : Option ℕ} {facts : Table ℕ} where
  pub own_mark : (a : ℕ) → Keeps held facts (mark_for_closing a)
  unfolding mark_for_closing
  own_mark a = search writing depth 9

  own_after_write :
      (a : ℕ) (c : Connection) (n : Sent) (err : SslError) (total : ℕ)
      → Known a c.fd facts
      → Keeps held facts (after_write a c n err total)
  unfolding after_write
  own_after_write a c n err total k = search writing depth 9

  pub own_set_state :
      (cb : StateCallback) (a : ℕ) (s : ConnectionState)
      → Keeps held [] (cb s)
      → Keeps held facts (set_state cb a s)
  unfolding set_state
  own_set_state cb a s tame =
      own_load a λ c. own_when _ (own_store_then a _ first (own_when _ (own_any tame)))

module _ ⦃p : Platform⦄ {held : Option ℕ} {facts : Table ℕ} where
  pub own_send_line : (a : ℕ) (line : Text) → Keeps held facts (send_line a line)
  unfolding send_line
  own_send_line a line = search (writing, own_after_write) depth 12

  own_create_ssl_context : (a : ℕ) → Keeps held facts (create_ssl_context a)
  unfolding create_ssl_context
  own_create_ssl_context a = search writing depth 15

module _ ⦃p : Platform⦄ {held : Option ℕ} {facts : Table ℕ} where
  own_setup_tls : (a : ℕ) (host : Text) → Keeps held facts (setup_tls no_callback a host)
  unfolding setup_tls
  own_setup_tls a host =
      search (writing, own_create_ssl_context, own_set_state, own_bind, own_then) depth 20

module _ ⦃p : Platform⦄ where
  open_allocate : (c : Connection) → Opens none some (allocate c)
  unfolding allocate
  open_allocate c = record { apply = λ w o. yields (allocated o c) }

  -- The new connection is pending.
  pub open_new_connection :
      (fd : ℕ) (type : ConnectionType) (name : Text) → Opens none some (new_connection fd type name)
  unfolding new_connection
  open_new_connection fd type name = open_bind (open_allocate _) λ a.
      open_then (own_pending (own_set_state no_callback a _ own_done))
        (open_bind (own_pending (own_os_call λ s. p.set_nonblocking s fd)) λ _. open_pure some a)

  -- The pending connection is deleted.
  pub open_destroy : (a : ℕ) → Opens (some a) (λ _. none) (destroy a)
  unfolding destroy free
  open_destroy a = record {
    apply = λ w o.
        let (c, e) = o.pending a refl in
        elim (Bool-cases c.ssl) [
          | inl tls ↦ rw (load-some a c w e, tls) (yields (freed a o))
          | inr plain ↦ rw (load-some a c w e, plain) (yields (freed a o))
        ];
  }

  open_open_connection :
      (fd : ℕ) (host name : Text) → Opens none (λ o. o) (open_connection fd host name)
  unfolding open_connection
  open_open_connection fd host name = open_bind (open_new_connection fd _ name) λ a.
      open_bind (own_pending (own_setup_tls a host))
        λ tls. open_if tls (open_pure _ (some a)) (open_then (open_destroy a) (open_pure _ none))

  open_abandon : (fd : ℕ) → Opens none (λ o. o) (abandon fd)
  unfolding abandon
  open_abandon fd = open_then (own_pending (own_os_run _)) (open_pure _ none)

  open_connect_socket :
      (fd : ℕ) (host : Text) (port : ℕ) (name : Text) (o : Option p.Address)
      → Opens none (λ x. x) (connect_socket fd host port name o)
  unfolding connect_socket
  open_connect_socket fd host port name none = open_abandon fd
  open_connect_socket fd host port name (some address) =
      open_bind (own_pending (own_os_call _))
        λ started. open_if started (open_open_connection fd host name) (open_abandon fd)

  open_with_socket :
      (host : Text) (port : ℕ) (name : Text) (o : Option ℕ)
      → Opens none (λ x. x) (with_socket host port name o)
  unfolding with_socket
  open_with_socket host port name none = open_pure _ none
  open_with_socket host port name (some fd) =
      open_bind (own_pending (own_os_call λ s. p.set_nonblocking s fd)) λ nonblocking.
        open_if nonblocking
          (open_bind (own_pending (own_os_call λ s. p.get_addr_info s host))
            (open_connect_socket fd host port name))
          (open_abandon fd)

  -- What `connect_to_pool` returns is pending; if it returns the null pointer, nothing is left over.
  pub open_connect_to_pool :
      (host : Text) (port : ℕ) (name : Text) → Opens none (λ o. o) (connect_to_pool host port name)
  unfolding connect_to_pool
  open_connect_to_pool host port name =
      open_bind (own_pending (own_os_call p.socket)) (open_with_socket host port name)
