-- ===== src/Connection/Moves.antt =====
-- gpu-proxy-cpp/src/connection.cpp: the two move operations of `Connection` and its destructor, over
-- objects that may have been moved from. What is given back is kept, newest last.
pub mod Releases
use compute_market.Base.{
  ℕ, ◌≡◌, ◌≢◌, refl, ap, sym, ◌∙◌, Bool, true, false, List, [], ◌∷◌, ◌++◌, Option, none, some, ◌==◌,
  if◌then◌else◌, inl, inr, Bool-cases, arith, append_assoc, append-nil,
}
use compute_market.Base.Text.{Text}
use compute_market.Base.Table.{Table, find, assign, find-assign_self, find-assign_ne}
use compute_market.World.{ConnectionState, ConnectionType}

-- `Connection::Impl`. `ssl` and `ctx` say whether the pointer is set.
pub record Impl : Type 0 where
  pub ssl : Bool
  pub ctx : Bool
  pub sni_hostname : Text
  pub tls_handshake_complete : Bool
  pub tls_want_read : Bool
  pub tls_want_write : Bool
  pub ssl_fd_attached : Bool

-- A connection as it lies in memory: `pimpl_` may be null, and the descriptor -1.
pub record Object : Type 0 where
  pub pimpl : Option Impl
  pub fd : Option ℕ
  pub type : ConnectionType
  pub name : Text
  pub state : ConnectionState
  pub read_buffer : Text
  pub has_message_cb : Bool
  pub has_state_cb : Bool
  pub should_close : Bool

pub data Release : Type 0 where
  shut_down freed_session freed_context : Release
  closed : ℕ → Release

pub record Memory : Type 0 where
  pub objects : Table Object
  pub released : List Release

-- `none` is undefined behaviour.
abbrev pub M : Type 0 → Type 0
M A = Memory → Option (A × Memory)

infixl 5 ◌>>=◌ ◌>>◌
abbrev and_then : {A B : Type 0} → Option (A × Memory) → (A → M B) → Option (B × Memory)
and_then none f = none
and_then (some (a, w)) f = f a w

abbrev pub ◌>>=◌ : {A B : Type 0} → M A → (A → M B) → M B
◌>>=◌ m f w = and_then (m w) f

abbrev pub ◌>>◌ : {B : Type 0} → M (Unit {0}) → M B → M B
m >> k = m >>= λ _. k

abbrev done : M (Unit {0})
done w = some (tt, w)

abbrev when : Bool → M (Unit {0}) → M (Unit {0})
when true m w = m w
when false m w = some (tt, w)

abbrev release : Release → M (Unit {0})
release r w = some (tt, record w { released = w.released ++ (r ∷ []) })

unfoldable pub read : ℕ → M Object
read a w = elim (find a w.objects) [ none ↦ none | some o ↦ some (o, w) ]

unfoldable write : ℕ → Object → M (Unit {0})
write a o w = some (tt, record w { objects = assign a o w.objects })

-- `pimpl_->` on a null pointer.
abbrev deref : Option Impl → M Impl
deref none w = none
deref (some i) w = some (i, w)

abbrev close_fd : Option ℕ → M (Unit {0})
close_fd none = done
close_fd (some fd) = release (closed fd)

-- What the moved-from members of an object are afterwards is not specified.
pub record Rest : Type 0 where
  pub name : Text
  pub read_buffer : Text
  pub has_message_cb : Bool
  pub has_state_cb : Bool

unfoldable pub moved_from : Rest → Object → Object
moved_from rest o = record o {
  pimpl = none;
  fd = none;
  name = rest.name;
  read_buffer = rest.read_buffer;
  has_message_cb = rest.has_message_cb;
  has_state_cb = rest.has_state_cb;
}

-- `Connection(Connection&& other)`, for a new object at `a`.
unfoldable pub move_construct : Rest → ℕ → ℕ → M (Unit {0})
unfolding moved_from write
move_construct rest a other = do o ← read other; write a o; write other (moved_from rest o)

-- `operator=(Connection&& other)`
unfoldable pub move_assign : Rest → ℕ → ℕ → M (Unit {0})
unfolding moved_from write
move_assign rest a other = if a == other then done else do
  self ← read a
  close_fd self.fd
  i ← deref self.pimpl
  when i.ssl (release freed_session)
  i' ← deref self.pimpl
  when i'.ctx (release freed_context)
  o ← read other
  write a o
  write other (moved_from rest o)

-- `~Connection()`
unfoldable pub destroy_object : ℕ → M (Unit {0})
destroy_object a = do
  self ← read a
  i ← deref self.pimpl
  when i.ssl (release shut_down >> release freed_session)
  when i.ctx (release freed_context)
  close_fd self.fd
