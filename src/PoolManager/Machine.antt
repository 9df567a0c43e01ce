-- ===== src/PoolManager/Machine.antt =====
-- gpu-proxy-cpp/src/pool_manager.cpp: the link to the pools as an abstract machine, which forgets the
-- connections, the jobs and the shares.
use compute_market.Base.{ℕ, ◌+◌, ◌%◌, ◌≤◌, ◌<◌, ◌≡◌, Bool, true, false, ◌⊎◌}
use compute_market.World.{PoolManager}

-- Is it logged in, is there work, how many times was it lost in a row, and at which pool.
pub record Link : Type 0 where
  pub online : Bool
  pub has_work : Bool
  pub tries : ℕ
  pub pool : ℕ

abbrev pub link_of : PoolManager → Link
link_of m = record {
  online = m.authenticated;
  has_work = m.has_job;
  tries = m.reconnect_attempts;
  pool = m.current_pool_index;
}

-- Logged in, and the losses forgotten.
abbrev pub logged_in : Link → Link
logged_in l = record l { online = true; tries = 0 }

abbrev pub given_work : Link → Link
given_work l = record l { has_work = true }

abbrev pub gone_down : ℕ → Link → Link
gone_down tries l = record { online = false; has_work = false; tries = tries; pool = l.pool }

-- The pools of a list of `n` are tried from `i` on, and the last one that was tried is kept.
pub data Walks (n i : ℕ) (l : Link) : Link → Type 0 where
  none_tried : Walks n i l l
  tried : (j : ℕ) → i ≤ j → j < n → Walks n i l (record l { pool = j })

-- The link is lost: five times it waits for the same pool, and then it goes to the next.
pub data Loses (n : ℕ) (l : Link) : Link → Type 0 where
  waits : l.tries < 5 → Loses n l (gone_down (l.tries + 1) l)
  fails_over :
      {l' : Link} → 5 ≤ l.tries → Walks n ((l.pool + 1) % n) (gone_down 0 l) l' → Loses n l l'

-- What a message of the pool does. Only an offline link takes an answer to the login.
pub data Hears (n : ℕ) (l : Link) : Link → Type 0 where
  stays : Hears n l l
  gets_work : Hears n l (given_work l)
  is_let_in :
      (l' : Link)
      → l.online ≡ false
      → l'.online ≡ true
      → l'.pool ≡ l.pool
      → (l'.tries ≡ l.tries) ⊎ (l'.tries ≡ 0)
      → Hears n l l'
  is_refused : {l' : Link} → l.online ≡ false → Loses n l l' → Hears n l l'
