-- ===== src/Proxy/Refinement.antt =====
-- gpu-proxy-cpp/src/pool_manager.cpp with main.cpp: every event of the pool manager is a step of the
-- abstract link.
use compute_market.Base.{ℕ, ◌≡◌}
use compute_market.Platform.{Platform}
use compute_market.World.{connecting, connected, authenticated, error, disconnected, World}
use compute_market.PoolManager.Machine.{Link, logged_in, Walks, Loses, Hears}
use compute_market.Proxy.Reachable.{PoolEvent, state_changed, message, share, reconnect_fires}

-- The step of the abstract link for an event.
abbrev pub LinkStep : ℕ → PoolEvent → Link → Link → Type 0
LinkStep n (state_changed connecting) l v = v ≡ l
LinkStep n (state_changed connected) l v = v ≡ l
LinkStep n (state_changed authenticated) l v = v ≡ logged_in l
LinkStep n (state_changed error) l v = Loses n l v
LinkStep n (state_changed disconnected) l v = Loses n l v
LinkStep n (message line) l v = Hears n l v
LinkStep n (share worker_id job_id nonce result) l v = v ≡ l
LinkStep n reconnect_fires l v = Walks n l.pool l v
