-- ===== src/EventLoop/Tables.antt =====
-- gpu-proxy-cpp/src/event_loop.cpp: the connections and the timeouts that the loop owns.
use compute_market.Base.{ℕ, ◌+◌, ◌*◌, ◌/◌, ◌%◌, ◌^◌, Bool, [], ◌∷◌, ◌++◌, Option, none, some}
use compute_market.Base.Table.{find, assign, erase}
use compute_market.Platform.{Platform}
use compute_market.World.{
  Timeout, TimeoutCallback, ok, M, ◌>>=◌, ◌>>◌, done, os_call, load, get_loop, put_loop,
}
use compute_market.Connection.{destroy}

-- A `uint64_t` sum.
abbrev pub add64 : ℕ → ℕ → ℕ
add64 a b = (a + b) % 2 ^ 64

module _ ⦃p : Platform⦄ where
  unfoldable pub now_ms : p.S → ℕ × p.S
  now_ms s =
      let (ts, s') = p.clock_gettime s in
      (add64 (ts.tv_sec * 1000 % 2 ^ 64) (ts.tv_nsec / 1000000), s')

  -- The owner of a dropped pointer deletes what it points to.
  unfoldable pub drop_pointer : Option ℕ → M (Unit {0})
  drop_pointer none = done
  drop_pointer (some a) = destroy a

  -- A connection that was there under the same descriptor is deleted.
  unfoldable pub add_connection : ℕ → M (Unit {0})
  add_connection a = do
    c ← load a
    l ← get_loop
    put_loop (record l { connections = assign c.fd a l.connections })
    drop_pointer (find c.fd l.connections)

  unfoldable pub remove_connection : ℕ → M (Unit {0})
  remove_connection fd = do
    l ← get_loop
    put_loop (record l { connections = erase fd l.connections })
    drop_pointer (find fd l.connections)

  unfoldable pub get_connection : ℕ → M (Option ℕ)
  get_connection fd w = ok (find fd w.loop.connections) w

  unfoldable pub set_timeout : ℕ → TimeoutCallback → Bool → M (Unit {0})
  set_timeout interval_ms callback recurring = do
    now ← os_call now_ms
    l ← get_loop
    let timeout : Timeout = record {
      next_fire_ms = add64 now interval_ms;
      interval_ms = interval_ms;
      callback = callback;
      recurring = recurring;
    }
    put_loop (record l { timeouts = l.timeouts ++ (timeout ∷ []) })
