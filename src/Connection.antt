-- ===== src/Connection.antt =====
-- gpu-proxy-cpp/src/connection.cpp: one socket with its TLS state, its line framing and its writes.
-- `this` is an address. The two callbacks of a connection are arguments of what may call them.
pub mod Framing
pub mod Lines
pub mod Delivery
pub mod Sending
pub mod Keeps
pub mod Callbacks
pub mod Moves
pub mod State
pub mod Tls
pub mod Io
pub mod Connect
unfoldable pub use State.*
unfoldable pub use Tls.*
unfoldable pub use Io.*
unfoldable pub use Connect.*
