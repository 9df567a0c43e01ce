-- ===== src/Tests/MoveCases.antt =====
-- The theorem about moved connections, at two objects.
use compute_market.Base.{◌≡◌, ℕ, refl, true, false, [], ◌∷◌, none, some, arith}
use compute_market.Base.Table.{find}
use compute_market.Base.Text.{text}
use compute_market.World.{ConnectionState, ConnectionType}
use compute_market.Connection.Moves.{
  Impl, Object, shut_down, freed_session, freed_context, closed, Memory, ◌>>◌, Rest, move_construct,
  move_assign, destroy_object,
}
use compute_market.Connection.Moves.Releases.{given, moved, move_assign-destroy}

abbrev whole : Impl
whole = record {
  ssl = true;
  ctx = true;
  sni_hostname = text "pool.example";
  tls_handshake_complete = true;
  tls_want_read = false;
  tls_want_write = false;
  ssl_fd_attached = true;
}

abbrev pool_object : ℕ → Object
pool_object fd = record {
  pimpl = some whole;
  fd = some fd;
  type = ConnectionType.pool;
  name = text "pool:main";
  state = ConnectionState.connected;
  read_buffer = [];
  has_message_cb = true;
  has_state_cb = true;
  should_close = false;
}

abbrev emptied : Rest
emptied = record { name = []; read_buffer = []; has_message_cb = false; has_state_cb = false }

abbrev two_objects : Memory
two_objects = record { objects = (0, pool_object 7) ∷ (1, pool_object 8) ∷ []; released = [] }

move_assign-destroy_example :
    (move_assign emptied 0 1 two_objects
      ≡ some (
        tt,
        given
            (closed 7 ∷ freed_session ∷ freed_context ∷ [])
            (moved emptied 0 1 (pool_object 8) two_objects),
      ))
    × ((move_assign emptied 0 1 >> destroy_object 0) two_objects
        ≡ some (
          tt,
          given
              (closed 7
                ∷ freed_session
                ∷ freed_context
                ∷ shut_down
                ∷ freed_session
                ∷ freed_context
                ∷ closed 8
                ∷ [])
              (moved emptied 0 1 (pool_object 8) two_objects),
        ))
    × ((move_assign emptied 0 1 >> destroy_object 1) two_objects ≡ none)
    × ((n : ℕ) → (move_construct emptied n 1 >> destroy_object 1) two_objects ≡ none)
unfolding find
move_assign-destroy_example =
    move_assign-destroy emptied 0 1 (pool_object 7) (pool_object 8) whole whole two_objects
      (omega arith) refl refl refl refl
