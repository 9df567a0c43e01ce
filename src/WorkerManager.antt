-- ===== src/WorkerManager.antt =====
-- gpu-proxy-cpp/src/worker_manager.cpp: the miners that connect, their login, their jobs and shares.
pub mod Messages
pub mod Jobs
pub mod Accept
pub mod Requests
pub mod Broadcast
pub mod Admission
pub mod Invariant
pub mod Soundness
pub mod Serving
unfoldable pub use Messages.*
unfoldable pub use Jobs.*
unfoldable pub use Accept.*
unfoldable pub use Requests.*
