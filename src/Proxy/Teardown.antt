-- ===== src/Proxy/Teardown.antt =====
-- gpu-proxy-cpp/src/main.cpp: `~GPUProxy`, which runs however the proxy ends, with the destructors of
-- its members in the opposite order of their declaration.
use compute_market.Base.{
  ℕ, ◌≡◌, ◌≢◌, sym, ◌∙◌, subst, List, [], ◌∷◌, none, some, All, inl, inr, Option-cases,
}
use compute_market.Base.Table.{Table, find, find-erase_ne}
use compute_market.Platform.{Platform}
use compute_market.World.{
  PoolConfig, WorkerConfig, World, M, and_then, ◌>>=◌, ◌>>◌, done, get_loop, put_loop,
}
use compute_market.Outcome.{Ends, Ends-mono, Returns, returns, Returns-bind, Returns-mono}
use compute_market.EventLoop.Poll.{close_one}
use compute_market.EventLoop.Run.{stop}
use compute_market.EventLoop.Ownership.{close_one-closed}
use compute_market.EventLoop.Entries.{Unique, All-both, entries_found, find-erase-some, find_later}
use compute_market.WorkerManager.Accept.{destroy_worker_manager}
use compute_market.Owned.{Owned}
use compute_market.Owned.Changes.{delisted, freed}
use compute_market.Proxy.{new_world, start, run_proxy}
use compute_market.Proxy.Ownership.{run_proxy-Owned}

module _ ⦃p : Platform⦄ where
  -- The nodes of `connections_` go one after the other, each with its connection.
  unfoldable pub drop_connections : Table ℕ → M (Unit {0})
  drop_connections [] = done
  drop_connections ((fd, a) ∷ rest) = do close_one fd a; drop_connections rest

  -- `~EventLoop`
  unfoldable pub destroy_event_loop : M (Unit {0})
  destroy_event_loop = do
    stop
    l ← get_loop
    put_loop (record l { timeouts = [] })
    drop_connections l.connections

  -- `~PoolManager` has nothing to give back.
  unfoldable pub destroy_proxy : M (Unit {0})
  destroy_proxy = do destroy_worker_manager; destroy_event_loop

  -- One entry is gone, and the others are there.
  record Closes (fd : ℕ) (w w' : World) : Type 0 where
    owns : Owned none [] w'
    kept :
        (fd' a' : ℕ)
        → fd ≢ fd'
        → find fd' w.loop.connections ≡ some a'
        → find fd' w'.loop.connections ≡ some a'
    left :
        (fd' a' : ℕ)
        → find fd' w'.loop.connections ≡ some a'
        → (fd ≢ fd') × (find fd' w.loop.connections ≡ some a')

  close_one-Closes :
      (fd a : ℕ) (w : World)
      → Owned none [] w
      → find fd w.loop.connections ≡ some a
      → Returns (λ _. Closes fd w) (close_one fd a w)
  close_one-Closes fd a w o l =
      let (c, e, f) = o.listed fd a l in
      Returns-mono (close_one-closed fd a c w e) λ _ w' k. subst (Closes fd w) (sym k.1) (record {
        owns = freed a (delisted fd a l o);
        kept = λ fd' a' ne h. find-erase_ne fd fd' w.loop.connections ne ∙ h;
        left = λ fd' a' h. find-erase-some fd fd' a' w.loop.connections h;
      })

  abbrev pub NoneAlive : World → Type 0
  NoneAlive w = (a : ℕ) → find a w.heap ≡ none

  none_listed :
      (w : World)
      → Owned none [] w
      → ((fd a : ℕ) → find fd w.loop.connections ≢ some a)
      → NoneAlive w
  none_listed w o h a = elim (Option-cases (find a w.heap)) [
    | inl e ↦ e
    | inr (c, e) ↦ elim (o.owned a c e) [ inl q ↦ cc | inr q ↦ absurd (h c.fd a q) ]
  ]

  not_found : (fd a : ℕ) → find {A = ℕ} fd [] ≢ some a
  unfolding find
  not_found fd a h = cc

  drop_connections-NoneAlive :
      (t : Table ℕ) (w : World)
      → Owned none [] w
      → Unique t
      → All (λ e. find e.0 w.loop.connections ≡ some e.1) t
      → ((fd a : ℕ) → find fd w.loop.connections ≡ some a → find fd t ≡ some a)
      → Returns (λ _. NoneAlive) (drop_connections t w)
  unfolding drop_connections
  drop_connections-NoneAlive [] w o u listed covers =
      returns (none_listed w o (λ fd a h. not_found fd a (covers fd a h)))
  drop_connections-NoneAlive ((fd, a) ∷ t) w o u listed covers =
      Returns-bind _ (close_one-Closes fd a w o listed.0) λ _ w' k.
        drop_connections-NoneAlive t w' k.owns u.1
          (All-both t (λ e ne h. k.kept e.0 e.1 ne h) u.0 listed.1)
          (λ fd' a' h.
            let (ne, h') = k.left fd' a' h in sym (find_later fd a fd' t ne) ∙ covers fd' a' h')

  destroy_event_loop-NoneAlive :
      (w : World) → Owned none [] w → Returns (λ _. NoneAlive) (destroy_event_loop w)
  unfolding destroy_event_loop stop
  destroy_event_loop-NoneAlive w o =
      drop_connections-NoneAlive w.loop.connections _ o o.unique
        (entries_found w.loop.connections o.unique) (λ fd a h. h)

  destroy_proxy-NoneAlive :
      (w : World) → Owned none [] w → Returns (λ _. NoneAlive) (destroy_proxy w)
  unfolding destroy_proxy destroy_worker_manager
  destroy_proxy-NoneAlive w o = elim (Option-cases w.worker_manager.listen_fd) [
    | inl e ↦ simp e (destroy_event_loop-NoneAlive w o)
    | inr (fd, e) ↦ simp e (destroy_event_loop-NoneAlive _ o)
  ]

  -- However a run ends, from the constructors through `start` and any number of rounds, by a return
  -- or by an exception, the destructor of the proxy returns, without undefined behaviour, and no
  -- connection is alive after it.
  pub run_proxy-destroy_proxy :
      (pools : List PoolConfig) (port : ℕ) (workers : List WorkerConfig) (os : p.S) (rounds : ℕ)
      → Ends
          (λ w. Returns (λ _. NoneAlive) (destroy_proxy w))
          (λ w. Returns (λ _. NoneAlive) (destroy_proxy w))
          (and_then (start (new_world pools port workers os)) (λ _. run_proxy rounds))
  run_proxy-destroy_proxy pools port workers os rounds =
      Ends-mono (run_proxy-Owned pools port workers os rounds) destroy_proxy-NoneAlive
        destroy_proxy-NoneAlive
