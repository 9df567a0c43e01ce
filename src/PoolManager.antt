-- ===== src/PoolManager.antt =====
-- gpu-proxy-cpp/src/pool_manager.cpp: the connection to a mining pool, with failover, login, jobs and
-- the routing of share responses.
pub mod Messages
pub mod Link
pub mod States
pub mod Responses
pub mod Traffic
pub mod Invariant
pub mod Soundness
pub mod Preservation
pub mod Shares
pub mod Failover
pub mod Reading
pub mod Machine
pub mod Linking
unfoldable pub use Messages.*
unfoldable pub use Link.*
unfoldable pub use States.*
unfoldable pub use Responses.*
unfoldable pub use Traffic.*
