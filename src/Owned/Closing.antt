-- ===== src/Owned/Closing.antt =====
-- gpu-proxy-cpp/src/event_loop.cpp: the loop takes the pending connection into its table and deletes
-- those that are marked.
use compute_market.Base.{
  ℕ, refl, sym, subst, ◌∙◌, [], ◌∷◌, Option, none, some, inl, inr, Bool-cases, All, ◌≡◌,
}
use compute_market.Base.Table.{Table, find, find-erase_ne}
use compute_market.Platform.{Platform}
use compute_market.World.{World}
use compute_market.Outcome.{Returns, returns, Returns-bind, Returns-mono, Returns-Ends, load-some}
use compute_market.EventLoop.Tables.{drop_pointer, add_connection}
use compute_market.EventLoop.Poll.{close_if_marked, close_marked, cleanup_closed}
use compute_market.EventLoop.Ownership.{LeavesOthers, close_one-closed}
use compute_market.EventLoop.Entries.{Unique, All-both, entries_found}
use compute_market.Owned.{Owned, Keeps}
use compute_market.Owned.Changes.{enlisted, delisted, freed}
use compute_market.Owned.Pending.{Opens, yields}
use compute_market.Owned.Connections.{open_destroy}

module _ ⦃p : Platform⦄ where
  -- A pointer that is dropped is deleted, if there is one.
  open_drop_pointer : (o : Option ℕ) → Opens o (λ _. none) (drop_pointer o)
  unfolding drop_pointer
  open_drop_pointer none = record { apply = λ w o. yields o }
  open_drop_pointer (some a) = open_destroy a

  -- The pending connection goes into the table, and what it replaces is deleted.
  pub open_add_connection : (a : ℕ) → Opens (some a) (λ _. none) (add_connection a)
  unfolding add_connection
  open_add_connection a = record {
    apply = λ w o.
        let (c, e) = o.pending a refl in
        rw (load-some a c w e)
          ((open_drop_pointer (find c.fd w.loop.connections)).apply _ (enlisted a c e o));
  }

  close_if_marked-Owned :
      (fd a : ℕ) (w : World)
      → Owned none [] w
      → find fd w.loop.connections ≡ some a
      → Returns (λ _ w'. Owned none [] w' × LeavesOthers fd w w') (close_if_marked fd a w)
  unfolding close_if_marked
  close_if_marked-Owned fd a w o l =
      let (c, e, f) = o.listed fd a l in
      elim (Bool-cases c.should_close) [
        | inl marked ↦
            rw (load-some a c w e, marked)
              (Returns-mono (close_one-closed fd a c w e) λ _ w' k.
                subst (λ v. Owned none [] v × LeavesOthers fd w v) (sym k.1)
                  (
                    freed a (delisted fd a l o),
                    λ fd' a' ne h. find-erase_ne fd fd' w.loop.connections ne ∙ h,
                  ))
        | inr unmarked ↦ rw (load-some a c w e, unmarked) (returns (o, λ fd' a' ne h. h))
      ]

  close_marked-Owned :
      (t : Table ℕ) (w : World)
      → Owned none [] w
      → Unique t
      → All (λ e. find e.0 w.loop.connections ≡ some e.1) t
      → Returns (λ _. Owned none []) (close_marked t w)
  unfolding close_marked
  close_marked-Owned [] w o u listed = returns o
  close_marked-Owned ((fd, a) ∷ t) w o u listed =
      Returns-bind _ (close_if_marked-Owned fd a w o listed.0) λ _ w' k.
        close_marked-Owned t w' k.0 u.1 (All-both t (λ e ne h. k.1 e.0 e.1 ne h) u.0 listed.1)

  pub own_cleanup_closed : Keeps none [] cleanup_closed
  unfolding cleanup_closed
  own_cleanup_closed = record {
    apply = λ w o.
        Returns-Ends
          (close_marked-Owned w.loop.connections w o o.unique
            (entries_found w.loop.connections o.unique))
          (λ _ w' o'. o');
  }
