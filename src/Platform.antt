-- ===== src/Platform.antt =====
-- What the proxy calls and does not implement: nlohmann::json, the sockets of the operating system,
-- OpenSSL and the clock. `V` is the type of JSON values, `S` the state of the operating system and of
-- OpenSSL, which every call may change. All of it is an argument of the model.
use compute_market.Base.{ℕ, Bool, List, Option, String}
use compute_market.Base.Text.{Text}

-- The value that `SSL_get_error` returns.
pub data SslError : Type 0 where
  want_read want_write zero_return other_error : SslError

-- The result of `write` or `SSL_write`: the bytes taken, or a negative value.
pub data Sent : Type 0 where
  sent : ℕ → Sent
  send_failed : Sent

-- The result of `read` or `SSL_read`: one byte or more, 0, or a negative value.
pub data Received : Type 0 where
  received : Text → Received
  end_of_stream : Received
  receive_failed : Received

-- What `clock_gettime` fills in. The seconds are their bit pattern.
pub record Timespec : Type 0 where
  pub tv_sec : ℕ
  pub tv_nsec : ℕ

-- An accepted socket with the address of its peer.
pub record Peer : Type 0 where
  pub fd : ℕ
  pub ip : Text
  pub port : ℕ

-- The events asked for, or reported, for one descriptor.
pub record PollFd : Type 0 where
  pub fd : ℕ
  pub pollin : Bool
  pub pollout : Bool
  pub pollerr : Bool
  pub pollhup : Bool

-- `poll` fails, reports no event, or fills in the events of every descriptor.
pub data PollResult : Type 0 where
  poll_failed : PollResult
  poll_timed_out : PollResult
  poll_ready : List PollFd → PollResult

pub record Platform : Type 1 where
  -- nlohmann::json. A parse or a conversion that throws is `none`.
  pub V : Type 0
  pub null : V
  pub parse : Text → Option V
  -- `operator>>` of a stream: the value at its beginning, whatever comes after it.
  pub parse_stream : Text → Option V
  -- The value under a key of an object; `none` where `contains` is false.
  pub member : V → String → Option V
  -- The values that a range-based `for` walks, for an array those of its indices.
  pub elements : V → List V
  pub is_object : V → Bool
  pub is_array : V → Bool
  pub is_string : V → Bool
  pub is_null : V → Bool
  pub empty : V → Bool
  pub get_string : V → Option Text
  -- An `int` is its bit pattern.
  pub get_int : V → Option ℕ
  pub get_uint16 : V → Option ℕ
  pub get_uint64 : V → Option ℕ
  pub get_bool : V → Option Bool
  -- Values that are made: a number from the bit pattern of an `int`, an object from its members.
  pub of_int : ℕ → V
  pub object : List (String × V) → V
  -- `none` where it throws.
  pub dump : V → Option Text
  -- What an `int` holds that the code never writes.
  pub indeterminate : ℕ
  -- The same for a `uint64_t` and a `bool`.
  pub indeterminate_uint64 : ℕ
  pub indeterminate_bool : Bool
  -- Sockets.
  pub S : Type 0
  pub Address : Type 0
  pub socket : S → Option ℕ × S
  pub set_nonblocking : S → ℕ → Bool × S
  pub get_addr_info : S → Text → Option Address × S
  -- True for 0 and for EINPROGRESS.
  pub connect : S → ℕ → Address → ℕ → Bool × S
  pub bind : S → ℕ → ℕ → Bool × S
  pub listen : S → ℕ → Bool × S
  pub accept : S → ℕ → Option Peer × S
  pub close : S → ℕ → S
  pub write : S → ℕ → Text → Sent × S
  pub read : S → ℕ → ℕ → Received × S
  pub errno_is_eagain : S → Bool
  -- `SO_ERROR` of a socket; `none` if `getsockopt` fails.
  pub socket_error : S → ℕ → Option ℕ
  pub poll : S → List PollFd → ℕ → PollResult × S
  pub usleep : S → ℕ → S
  -- Whether the elements of a `std::vector` have moved since a loop over it took its iterator: asked
  -- where `push_back` has made the vector longer meanwhile.
  pub vector_moved : S → Bool
  -- The monotonic clock.
  pub clock_gettime : S → Timespec × S
  -- OpenSSL, with the descriptor for the `SSL` object.
  pub ssl_ctx_new : S → Bool × S
  pub ssl_ctx_set_cipher_list : S → Bool × S
  pub ssl_new : S → Bool × S
  pub ssl_set_fd : S → ℕ → Bool × S
  -- True for the return value 1.
  pub ssl_connect : S → ℕ → Bool × S
  pub ssl_write : S → ℕ → Text → Sent × S
  pub ssl_read : S → ℕ → ℕ → Received × S
  pub ssl_get_error : S → ℕ → SslError
  pub ssl_shutdown : S → ℕ → S
