-- ===== src/Owned/Callbacks.antt =====
-- gpu-proxy-cpp/src/connection.cpp: the methods that run callbacks keep the connections owned if the
-- callbacks do.
use compute_market.Base.{ℕ, zero, suc, Bool, true, false, [], Option, none, some}
use compute_market.Base.Text.{Text}
use compute_market.Base.Table.{Table}
use compute_market.Platform.{
  Platform, Received, received, end_of_stream, receive_failed, SslError, want_read, want_write,
  zero_return, other_error,
}
use compute_market.World.{ConnectionState, ◌>>◌, done}
use compute_market.Connection.Framing.{next_line}
use compute_market.Connection.State.{StateCallback, MessageCallback, set_state}
use compute_market.Connection.Tls.{attach_ssl, after_connect, perform_tls_handshake}
use compute_market.Connection.Io.{
  set_read_buffer, deliver_line, process_read_buffer, append_bytes, after_read, after_ssl_read,
  read_data,
}
use compute_market.Owned.{Keeps}
use compute_market.Owned.Rules.{
  writing, owning, own_any, own_store_then, first, own_bind, own_then, own_read, own_done, own_load,
  own_if, own_when, own_pure,
}
use compute_market.Owned.Connections.{own_mark, own_set_state}

module _ ⦃p : Platform⦄ (cb : StateCallback)
    (tame : (s : ConnectionState) → Keeps none [] (cb s)) where
  pub own_set_state_cb :
      {facts : Table ℕ} (a : ℕ) (s : ConnectionState) → Keeps none facts (set_state cb a s)
  own_set_state_cb a s = own_set_state cb a s (tame s)

  own_attach_ssl : (a : ℕ) → Keeps none [] (attach_ssl cb a)
  unfolding attach_ssl
  own_attach_ssl a = search (writing, own_set_state_cb, own_mark, own_then) depth 15

  own_after_connect :
      {facts : Table ℕ} (a : ℕ) (b : Bool) (err : SslError)
      → Keeps none facts (after_connect cb a b err)
  unfolding after_connect
  own_after_connect a true err = search (writing, own_set_state_cb, own_then) depth 15
  own_after_connect a false want_read = search writing depth 12
  own_after_connect a false want_write = search writing depth 12
  own_after_connect a false zero_return =
      search (own_then, own_set_state_cb, own_mark, own_pure) depth 9
  own_after_connect a false other_error =
      search (own_then, own_set_state_cb, own_mark, own_pure) depth 9

  pub own_perform_tls_handshake : (a : ℕ) → Keeps none [] (perform_tls_handshake cb a)
  unfolding perform_tls_handshake
  own_perform_tls_handshake a = own_load a λ c. own_if _ (own_pure _) (
      own_bind (own_any (own_attach_ssl a))
        λ attached. search (writing, own_after_connect) depth 15)

module _ ⦃p : Platform⦄ (cb : MessageCallback)
    (tame : (line : Text) → Keeps none [] (cb line)) where
  own_set_read_buffer : (a : ℕ) (s : Text) → Keeps none [] (set_read_buffer a s)
  unfolding set_read_buffer
  own_set_read_buffer a s = search writing depth 9

  own_deliver_line : (a : ℕ) (line after : Text) → Keeps none [] (deliver_line cb a line after)
  unfolding deliver_line
  own_deliver_line a line after = own_then (own_set_read_buffer a after) (
      own_read a
        (λ c. own_then (own_when c.has_callbacks (tame line)) (own_read a (λ d. own_done))))

  own_process_read_buffer :
      (fuel a : ℕ) (buffer : Text) → Keeps none [] (process_read_buffer fuel cb a buffer)
  unfolding process_read_buffer
  own_process_read_buffer zero a buffer = own_done
  own_process_read_buffer (suc fuel) a buffer =
      next (next_line buffer) (own_process_read_buffer fuel a)
    where
      next :
          (o : Option (Text × Text))
          → ((after : Text) → Keeps none [] (process_read_buffer fuel cb a after))
          → Keeps none [] (elim o [
            | none ↦ done
            | some (line, after) ↦
                deliver_line cb a line after >> process_read_buffer fuel cb a after
          ])
      next none ih = own_done
      next (some (line, after)) ih = own_then (own_deliver_line a line after) (ih after)

  own_append_bytes : (a : ℕ) (bytes : Text) → Keeps none [] (append_bytes cb a bytes)
  unfolding append_bytes
  own_append_bytes a bytes = own_load a λ c.
      own_store_then a _ first (own_then (own_any (own_process_read_buffer _ a _)) (own_pure _))

  own_after_read : (a : ℕ) (r : Received) (again : Bool) → Keeps none [] (after_read cb a r again)
  unfolding after_read
  own_after_read a (received bytes) again = own_append_bytes a bytes
  own_after_read a end_of_stream again = search (own_then, own_mark, own_pure) depth 9
  own_after_read a receive_failed again = search (own_if, own_then, own_mark, own_pure) depth 9

  own_after_ssl_read :
      (a : ℕ) (r : Received) (err : SslError) → Keeps none [] (after_ssl_read cb a r err)
  unfolding after_ssl_read
  own_after_ssl_read a (received bytes) err = own_append_bytes a bytes
  own_after_ssl_read a end_of_stream err = search (own_if, own_then, own_mark, own_pure) depth 9
  own_after_ssl_read a receive_failed err = search (own_if, own_then, own_mark, own_pure) depth 9

  pub own_read_data : (a : ℕ) → Keeps none [] (read_data cb a)
  unfolding read_data
  own_read_data a = search (owning, own_after_read, own_after_ssl_read) depth 15
