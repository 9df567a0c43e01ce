-- ===== src/Connection/Callbacks.antt =====
-- gpu-proxy-cpp/src/connection.cpp: the methods that run callbacks keep what the callbacks keep.
use compute_market.Base.{ℕ, zero, suc, Bool, true, false, Option, none, some}
use compute_market.Base.Text.{Text}
use compute_market.Platform.{
  Platform, Received, received, end_of_stream, receive_failed, SslError, want_read, want_write,
  zero_return, other_error,
}
use compute_market.World.{ConnectionState, ◌>>◌, done}
use compute_market.Preserve.{Invariant, Preserves, keeping, keep_then, keep_done}
use compute_market.Connection.Framing.{next_line}
use compute_market.Connection.State.{StateCallback, MessageCallback, set_state, mark_for_closing}
use compute_market.Connection.Tls.{attach_ssl, after_connect, perform_tls_handshake}
use compute_market.Connection.Io.{
  set_read_buffer, deliver_line, process_read_buffer, append_bytes, after_read, after_ssl_read,
  read_data,
}

module _ ⦃p : Platform⦄ {J : Invariant} where
  pub keep_mark_for_closing : (a : ℕ) → Preserves J (mark_for_closing a)
  unfolding mark_for_closing
  keep_mark_for_closing a = search keeping depth 9

module _ ⦃p : Platform⦄ {J : Invariant} (cb : StateCallback)
    (tame : (s : ConnectionState) → Preserves J (cb s)) where
  pub keep_set_state_cb : (a : ℕ) (s : ConnectionState) → Preserves J (set_state cb a s)
  unfolding set_state
  keep_set_state_cb a s = search (keeping, tame) depth 9

  keep_attach_ssl : (a : ℕ) → Preserves J (attach_ssl cb a)
  unfolding attach_ssl
  keep_attach_ssl a = search (keeping, keep_set_state_cb, keep_mark_for_closing) depth 12

  keep_after_connect : (a : ℕ) (b : Bool) (err : SslError) → Preserves J (after_connect cb a b err)
  unfolding after_connect
  keep_after_connect a true err = search (keeping, keep_set_state_cb) depth 12
  keep_after_connect a false want_read = search keeping depth 12
  keep_after_connect a false want_write = search keeping depth 12
  keep_after_connect a false zero_return =
      search (keeping, keep_set_state_cb, keep_mark_for_closing) depth 12
  keep_after_connect a false other_error =
      search (keeping, keep_set_state_cb, keep_mark_for_closing) depth 12

  pub keep_perform_tls_handshake : (a : ℕ) → Preserves J (perform_tls_handshake cb a)
  unfolding perform_tls_handshake
  keep_perform_tls_handshake a = search (keeping, keep_attach_ssl, keep_after_connect) depth 20

module _ ⦃p : Platform⦄ {J : Invariant} (cb : MessageCallback)
    (tame : (line : Text) → Preserves J (cb line)) where
  keep_deliver_line : (a : ℕ) (line after : Text) → Preserves J (deliver_line cb a line after)
  unfolding deliver_line set_read_buffer
  keep_deliver_line a line after = search (keeping, tame) depth 12

  keep_process_read_buffer :
      (fuel a : ℕ) (buffer : Text) → Preserves J (process_read_buffer fuel cb a buffer)
  unfolding process_read_buffer
  keep_process_read_buffer zero a buffer = keep_done
  keep_process_read_buffer (suc fuel) a buffer =
      next (next_line buffer) (keep_process_read_buffer fuel a)
    where
      next :
          (o : Option (Text × Text))
          → ((after : Text) → Preserves J (process_read_buffer fuel cb a after))
          → Preserves J (elim o [
            | none ↦ done
            | some (line, after) ↦
                deliver_line cb a line after >> process_read_buffer fuel cb a after
          ])
      next none ih = keep_done
      next (some (line, after)) ih = keep_then (keep_deliver_line a line after) (ih after)

  keep_append_bytes : (a : ℕ) (bytes : Text) → Preserves J (append_bytes cb a bytes)
  unfolding append_bytes
  keep_append_bytes a bytes = search (keeping, keep_process_read_buffer) depth 12

  keep_after_read : (a : ℕ) (r : Received) (again : Bool) → Preserves J (after_read cb a r again)
  unfolding after_read
  keep_after_read a (received bytes) again = keep_append_bytes a bytes
  keep_after_read a end_of_stream again = search (keeping, keep_mark_for_closing) depth 9
  keep_after_read a receive_failed again = search (keeping, keep_mark_for_closing) depth 9

  keep_after_ssl_read :
      (a : ℕ) (r : Received) (err : SslError) → Preserves J (after_ssl_read cb a r err)
  unfolding after_ssl_read
  keep_after_ssl_read a (received bytes) err = keep_append_bytes a bytes
  keep_after_ssl_read a end_of_stream err = search (keeping, keep_mark_for_closing) depth 9
  keep_after_ssl_read a receive_failed err = search (keeping, keep_mark_for_closing) depth 9

  pub keep_read_data : (a : ℕ) → Preserves J (read_data cb a)
  unfolding read_data
  keep_read_data a = search (keeping, keep_after_read, keep_after_ssl_read) depth 20
