-- ===== src/Connection/Keeps.antt =====
-- gpu-proxy-cpp/src/connection.cpp: the methods of a connection that call no callback leave the state
-- of the two managers alone.
use compute_market.Base.{ℕ, Option, none, some}
use compute_market.Base.Text.{Text}
use compute_market.Platform.{Platform, Sent, SslError}
use compute_market.World.{Connection, ConnectionState, ConnectionType}
use compute_market.Preserve.{Invariant, Preserves, keeping}
use compute_market.Outcome.{ends_ok}
use compute_market.Connection.State.{
  set_state, no_callback, new_connection, allocate, destroy, free, mark_for_closing,
}
use compute_market.Connection.Tls.{create_ssl_context, setup_tls}
use compute_market.Connection.Io.{send_line, after_write}
use compute_market.Connection.Connect.{
  open_connection, abandon, connect_socket, with_socket, connect_to_pool,
}

module _ ⦃p : Platform⦄ {J : Invariant} where
  pub keep_mark : (a : ℕ) → Preserves J (mark_for_closing a)
  unfolding mark_for_closing
  keep_mark a = search keeping depth 9

  pub keep_after_write :
      (a : ℕ) (c : Connection) (n : Sent) (err : SslError) (total : ℕ)
      → Preserves J (after_write a c n err total)
  unfolding after_write
  keep_after_write a c n err total = search keeping depth 9

  pub keep_send_line : (a : ℕ) (line : Text) → Preserves J (send_line a line)
  unfolding send_line
  keep_send_line a line = search (keeping, keep_after_write) depth 9

  pub keep_set_state : (a : ℕ) (s : ConnectionState) → Preserves J (set_state no_callback a s)
  unfolding set_state
  keep_set_state a s = search keeping depth 9

  keep_allocate : (c : Connection) → Preserves J (allocate c)
  unfolding allocate
  keep_allocate c = record { apply = λ w j. ends_ok j }

  keep_free : (a : ℕ) → Preserves J (free a)
  unfolding free
  keep_free a = record { apply = λ w j. ends_ok j }

  pub keep_new_connection :
      (fd : ℕ) (type : ConnectionType) (name : Text) → Preserves J (new_connection fd type name)
  unfolding new_connection
  keep_new_connection fd type name = search (keeping, keep_allocate, keep_set_state) depth 9

  pub keep_destroy : (a : ℕ) → Preserves J (destroy a)
  unfolding destroy
  keep_destroy a = search (keeping, keep_free) depth 9

  keep_create_ssl_context : (a : ℕ) → Preserves J (create_ssl_context a)
  unfolding create_ssl_context
  keep_create_ssl_context a = search keeping depth 9

  keep_setup_tls : (a : ℕ) (host : Text) → Preserves J (setup_tls no_callback a host)
  unfolding setup_tls
  keep_setup_tls a host = search (keeping, keep_create_ssl_context, keep_set_state) depth 12

  keep_open_connection : (fd : ℕ) (host name : Text) → Preserves J (open_connection fd host name)
  unfolding open_connection
  keep_open_connection fd host name =
      search (keeping, keep_new_connection, keep_setup_tls, keep_destroy) depth 9

  keep_connect_socket :
      (fd : ℕ) (host : Text) (port : ℕ) (name : Text) (o : Option p.Address)
      → Preserves J (connect_socket fd host port name o)
  unfolding connect_socket abandon
  keep_connect_socket fd host port name none = search keeping depth 9
  keep_connect_socket fd host port name (some address) =
      search (keeping, keep_open_connection) depth 9

  keep_with_socket :
      (host : Text) (port : ℕ) (name : Text) (o : Option ℕ)
      → Preserves J (with_socket host port name o)
  unfolding with_socket abandon
  keep_with_socket host port name none = search keeping depth 9
  keep_with_socket host port name (some fd) = search (keeping, keep_connect_socket) depth 9

  pub keep_connect_to_pool :
      (host : Text) (port : ℕ) (name : Text) → Preserves J (connect_to_pool host port name)
  unfolding connect_to_pool
  keep_connect_to_pool host port name = search (keeping, keep_with_socket) depth 9
