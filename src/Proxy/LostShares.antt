-- ===== src/Proxy/LostShares.antt =====
-- gpu-proxy-cpp/src/pool_manager.cpp and event_loop.cpp: what becomes of the shares after a hangup of
-- the pool's connection.
use compute_market.Base.{
  ℕ, ◌<◌, ◌≡◌, refl, sym, ap, ◌∙◌, true, ◌||◌, none, some, ◌==◌, ==_iff, get_elem?, inl, inr,
  Bool-cases, Option-cases,
}
use mathlib.Core.Option.{some-injective}
use compute_market.Base.Text.{Text}
use compute_market.Base.Table.{Table, find, assign, find-assign}
use compute_market.Platform.{Platform, PollFd}
use compute_market.World.{
  Connection, EventLoop, PoolConfig, PoolManager, World, Result, ok, and_then, store,
}
use compute_market.Outcome.{Returns, returns, Returns-mono, Ends, ends_ok, load-some}
use compute_market.Connection.State.{mark_for_closing}
use compute_market.EventLoop.Closing.{IsGone}
use compute_market.EventLoop.Entries.{Unique}
use compute_market.EventLoop.Ownership.{IsOwner, Cleaned, cleanup_closed-Cleaned}
use compute_market.EventLoop.Poll.{ConnectionCallbacks, cleanup_closed, process_event}
use compute_market.EventLoop.Tables.{get_connection}
use compute_market.PoolManager.Messages.{int_max}
use compute_market.PoolManager.Shares.{
  pool_target, tracked, submit_share-send, send_to_pool-unreached,
}
use compute_market.PoolManager.Traffic.{submit_share}
use compute_market.Proxy.Hangup.{hangup-SameManagers}

module _ ⦃p : Platform⦄ where
  -- The world in which a connection is marked for closing.
  abbrev marking : ℕ → Connection → World → World
  marking a c w = record w { heap = assign a (record c { should_close = true }) w.heap }

  marking-IsOwner :
      (a : ℕ) (c : Connection) (w : World)
      → find a w.heap ≡ some c
      → IsOwner w
      → IsOwner (marking a c w)
  marking-IsOwner a c w e own fd b h =
      let o = own fd b h in
      elim (Bool-cases (a == b)) [
        | inl hit ↦ (
          record c { should_close = true },
          find-assign a b _ w.heap ∙ rw hit,
          ap (λ x. x.fd)
                (some-injective _ _ (sym e ∙ (ap (λ n. find n w.heap) ((==_iff a b).0 hit) ∙ o.1)))
              ∙ o.2,
        )
        | inr miss ↦ (o.0, find-assign a b _ w.heap ∙ (rw miss o.1), o.2)
      ]

  -- The round of a hangup returns, and what it has deleted is not listed any more.
  hangup-Cleaned :
      (cbs : ConnectionCallbacks) (pfd : PollFd) (a : ℕ) (w : World)
      → (pfd.pollerr || pfd.pollhup) ≡ true
      → find pfd.fd w.loop.connections ≡ some a
      → IsOwner w
      → Unique w.loop.connections
      → Returns
          (λ _ w'. (v : World) × (v.loop ≡ w.loop) × Cleaned w.loop.connections v w')
          (and_then (process_event cbs pfd w) (λ _. cleanup_closed))
  unfolding process_event get_connection mark_for_closing store
  hangup-Cleaned cbs pfd a w e h own u =
      let o = own pfd.fd a h in
      rw (h, e, load-some a o.0 w o.1)
        (Returns-mono (cleanup_closed-Cleaned (marking a o.0 w) (marking-IsOwner a o.0 w o.1 own) u)
          (λ _ w' c. (marking a o.0 w, refl, c)))

  both :
      {A : Type 0} {Q : A → World → Type 0} {R : World → Type 0} {r : Result A}
      → Returns Q r
      → Ends R (λ _. ⊥) r
      → Returns (λ x w. Q x w × R w) r
  both (returns q) (ends_ok k) = returns (q, k)

  not_listed :
      (fd a : ℕ) (v w : World) (t : Table ℕ)
      → find fd v.loop.connections ≡ some a
      → Cleaned t v w
      → IsGone a w
      → find fd w.loop.connections ≡ none
  not_listed fd a v w t h c g = elim (Option-cases (find fd w.loop.connections)) [
    | inl e ↦ e
    | inr (b, e) ↦
        let s = c.shrinks fd b e in let o = c.owner fd b e in absurd (cc (o.1, g, s.0, h))
  ]

  gone_from :
      (fd a : ℕ) (w v : World)
      → ((x : World) × (x.loop ≡ w.loop) × Cleaned w.loop.connections x v)
      → find fd w.loop.connections ≡ some a
      → IsGone a v
      → find fd v.loop.connections ≡ none
  gone_from fd a w v (x, l, c) h g = not_listed fd a x v w.loop.connections (rw l h) c g

  unreached :
      (m : PoolManager) (l : EventLoop) (fd : ℕ)
      → m.pool_fd ≡ some fd
      → find fd l.connections ≡ none
      → pool_target m l ≡ none
  unreached m l fd h e = elim (Option-cases m.pool_conn) [
    | inl o ↦ rw o
    | inr (a, o) ↦ rw (o, h, e)
  ]

  -- A hangup or an error of the connection that the pool manager reaches its pool by, in a world where
  -- the loop's table lists a descriptor once and every entry points to a live connection of its
  -- descriptor, while the manager is connected, has a job, an identifier left and a current pool: the
  -- round returns, and a share that is submitted next takes an identifier and is kept with its worker,
  -- and nothing else happens, so that it is written nowhere.
  pub hangup-submit_share :
      (cbs : ConnectionCallbacks) (pfd : PollFd) (a : ℕ) (worker_id job_id nonce result : Text)
      (config : PoolConfig) (w : World)
      → (pfd.pollerr || pfd.pollhup) ≡ true
      → find pfd.fd w.loop.connections ≡ some a
      → IsOwner w
      → Unique w.loop.connections
      → w.pool_manager.pool_fd ≡ some pfd.fd
      → w.pool_manager.connected ≡ true
      → w.pool_manager.has_job ≡ true
      → w.pool_manager.next_id < int_max
      → get_elem? w.pool_manager.pools w.pool_manager.current_pool_index ≡ some config
      → Returns
          (λ _ v.
            submit_share worker_id job_id nonce result v
            ≡ ok tt (record v { pool_manager = tracked w.pool_manager worker_id }))
          (and_then (process_event cbs pfd w) (λ _. cleanup_closed))
  hangup-submit_share cbs pfd a worker_id job_id nonce result config w e h own u fd up working
        id_left configured =
      Returns-mono
        (both (hangup-Cleaned cbs pfd a w e h own u) (hangup-SameManagers cbs pfd a w e h))
        λ _ v (c, (same, gone)).
          let m = same.pool_same in
          submit_share-send worker_id job_id nonce result v config (rw m up) (rw m working)
            (rw m id_left) (rw m configured)
          ∙ send_to_pool-unreached _ _ (
              unreached (tracked v.pool_manager worker_id) v.loop pfd.fd (rw m fd)
                (gone_from pfd.fd a w v c h gone))
          ∙ ap (λ x. ok tt (record v { pool_manager = tracked x worker_id })) m
