-- ===== src/EventLoop.antt =====
-- gpu-proxy-cpp/src/event_loop.cpp: the loop that owns the connections, polls them and fires timeouts.
pub mod Tables
pub mod Timers
pub mod Poll
pub mod Run
pub mod Closing
pub mod Waiting
pub mod Dispatch
pub mod Entries
pub mod Ownership
pub mod Keeps
unfoldable pub use Tables.*
unfoldable pub use Timers.*
unfoldable pub use Poll.*
unfoldable pub use Run.*
