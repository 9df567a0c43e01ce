-- ===== src/Owned.antt =====
-- gpu-proxy-cpp/src/event_loop.hpp: `connections_` holds the `unique_ptr` of every connection. Which
-- connections are alive, how each change of the heap and of the table leaves that, and what it is for
-- a method to keep it.
pub mod Tables
pub mod Changes
pub mod Rules
pub mod Pending
pub mod Connections
pub mod Callbacks
pub mod Closing
pub mod Loop
pub mod Pool
pub mod Workers
use compute_market.Base.{ℕ, ◌<◌, ◌≡◌, ◌≢◌, ◌⊎◌, [], Option, none, some, All}
use compute_market.Base.Table.{Table, find}
use compute_market.Platform.{Platform}
use compute_market.World.{Connection, World, M}
use compute_market.Outcome.{Ends}
use compute_market.EventLoop.Entries.{Unique}

-- The address holds a connection of that descriptor.
abbrev pub Live : ℕ → ℕ → Table Connection → Type 0
Live a fd heap = (c : Connection) × (find a heap ≡ some c) × (c.fd ≡ fd)

-- The table and the connections that are alive are one to one, but for the one that is held
-- elsewhere. The facts are descriptors that the code has read.
pub record IsOwned (held : Option ℕ) (facts : Table ℕ) (heap : Table Connection) (next : ℕ)
    (table : Table ℕ) : Type 0 where
  pub listed : (fd a : ℕ) → find fd table ≡ some a → Live a fd heap
  pub owned :
      (a : ℕ) (c : Connection) → find a heap ≡ some c → (held ≡ some a) ⊎ (find c.fd table ≡ some a)
  pub pending : (a : ℕ) → held ≡ some a → (c : Connection) × (find a heap ≡ some c)
  pub unlisted : (fd a : ℕ) → held ≡ some a → find fd table ≢ some a
  pub fresh : (a : ℕ) (c : Connection) → find a heap ≡ some c → a < next
  pub unique : Unique table
  pub known : All (λ f. Live f.0 f.1 heap) facts

module _ ⦃p : Platform⦄ where
  abbrev pub Owned : Option ℕ → Table ℕ → World → Type 0
  Owned held facts w = IsOwned held facts w.heap w.next_address w.loop.connections

  -- The facts may be lost, and no exception leaves a connection pending.
  pub record Keeps {A : Type 0} (held : Option ℕ) (facts : Table ℕ) (m : M A) : Type 0 where
    pub apply : (w : World) → Owned held facts w → Ends (Owned held []) (Owned none []) (m w)
