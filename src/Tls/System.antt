-- ===== src/Tls/System.antt =====
-- What `TLSConnection` (gpu-proxy-cpp/src/ssl_utils.cpp) calls and does not implement: sockets in
-- blocking mode, OpenSSL's objects by handle, and the steady clock. `S` is the state of all of it.
use compute_market.Base.{ℕ, Bool, Option}
use compute_market.Base.Text.{Text}
use compute_market.Platform.{Sent, Received, SslError}

-- `poll` of one descriptor: a negative value, 0, or more.
pub data PollOne : Type 0 where
  poll_error poll_nothing poll_event : PollOne

-- A descriptor is `none` for -1.
pub record TlsSystem : Type 1 where
  pub S : Type 0
  pub Address : Type 0
  pub socket : S → Option ℕ × S
  -- `fcntl` with F_GETFL and F_SETFL, and what the code does to the bit O_NONBLOCK of the flags.
  pub get_flags : S → Option ℕ → ℕ × S
  pub set_flags : S → Option ℕ → ℕ → S
  pub clear_nonblock : ℕ → ℕ
  pub set_nonblock : ℕ → ℕ
  -- `none` for a result that is not 0.
  pub get_addr_info : S → Text → Option Address × S
  -- True for 0.
  pub connect : S → ℕ → Address → ℕ → Bool × S
  pub close : S → ℕ → S
  -- The number of milliseconds is an `int`, by its bit pattern.
  pub poll : S → Option ℕ → ℕ → PollOne × S
  -- In nanoseconds.
  pub steady_now : S → ℕ × S
  pub ssl_ctx_new : S → Option ℕ × S
  -- The oldest and the newest version are set to TLS 1.2.
  pub ssl_ctx_set_tls1_2 : S → ℕ → S
  -- True for a value above 0.
  pub ssl_ctx_set_cipher_list : S → ℕ → Text → Bool × S
  pub ssl_ctx_set_verify_none : S → ℕ → S
  pub ssl_ctx_free : S → ℕ → S
  pub ssl_new : S → ℕ → Option ℕ × S
  pub ssl_set_tlsext_host_name : S → ℕ → Text → S
  -- True for a value that is not 0.
  pub ssl_set_fd : S → ℕ → ℕ → Bool × S
  -- True for the return value 1.
  pub ssl_connect : S → ℕ → Bool × S
  pub ssl_shutdown : S → ℕ → S
  pub ssl_free : S → ℕ → S
  pub ssl_write : S → ℕ → Text → Sent × S
  -- True for a value above 0.
  pub ssl_pending : S → ℕ → Bool × S
  pub ssl_read : S → ℕ → ℕ → Received × S
  pub ssl_get_error : S → ℕ → SslError
