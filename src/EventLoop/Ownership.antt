-- ===== src/EventLoop/Ownership.antt =====
-- gpu-proxy-cpp/src/event_loop.cpp: the loop owns its connections, and `cleanup_closed` deletes just
-- those that are marked.
use compute_market.Base.{
  ℕ, ◌≡◌, ◌≢◌, refl, sym, ap, subst, ◌∙◌, true, false, [], ◌∷◌, some, inl, inr, Bool-cases, All,
}
use mathlib.Core.Option.{some-injective}
use compute_market.Base.Table.{Table, find, erase, find-erase_ne}
use compute_market.Platform.{Platform}
use compute_market.World.{Connection, World}
use compute_market.Outcome.{Returns, returns, Returns-bind, Returns-mono, load-some}
use compute_market.Connection.State.{destroy, free}
use compute_market.EventLoop.Poll.{close_one, close_if_marked, close_marked, cleanup_closed}
use compute_market.EventLoop.Entries.{Unique, find-erase-some, All-both, entries_found}

module _ ⦃p : Platform⦄ where
  -- Every entry of the table points to a live connection of that descriptor.
  abbrev pub IsOwner : World → Type 0
  IsOwner w =
      (fd a : ℕ)
      → find fd w.loop.connections ≡ some a
      → ((c : Connection) × (find a w.heap ≡ some c) × (c.fd ≡ fd))

  -- What a walk over entries of the table does.
  pub record Cleaned (t : Table ℕ) (w w' : World) : Type 0 where
    pub owner : IsOwner w'
    pub stays :
        (fd a : ℕ) (c : Connection)
        → find fd w.loop.connections ≡ some a
        → find a w.heap ≡ some c
        → c.should_close ≡ false
        → (find fd w'.loop.connections ≡ some a) × (find a w'.heap ≡ some c)
    pub shrinks :
        (fd a : ℕ)
        → find fd w'.loop.connections ≡ some a
        → (find fd w.loop.connections ≡ some a) × (find a w'.heap ≡ find a w.heap)
    pub clean :
        All
          (λ e.
            (c : Connection)
            → find e.0 w'.loop.connections ≡ some e.1
            → find e.1 w'.heap ≡ some c
            → c.should_close ≡ false)
          t

  same_cell :
      (w : World) (a b : ℕ) (c d : Connection)
      → find a w.heap ≡ some c
      → find b w.heap ≡ some d
      → c.fd ≢ d.fd
      → a ≢ b
  same_cell w a b c d e f ne h =
      ne (ap (λ x. x.fd) (some-injective _ _ (sym e ∙ (ap (λ n. find n w.heap) h ∙ f))))

  marks_differ : (c d : Connection) → c ≡ d → c.should_close ≡ true → d.should_close ≡ false → ⊥
  marks_differ c d e h k = cc

  -- The world in which one connection is closed.
  abbrev pub closed : ℕ → ℕ → p.S → World → World
  closed fd a os w = record w {
    heap = erase a w.heap;
    loop = record w.loop { connections = erase fd w.loop.connections };
    os = os;
  }

  pub close_one-closed :
      (fd a : ℕ) (c : Connection) (w : World)
      → find a w.heap ≡ some c
      → Returns (λ _ w'. (os : p.S) × (w' ≡ closed fd a os w)) (close_one fd a w)
  unfolding close_one destroy free
  close_one-closed fd a c w e = elim (Bool-cases c.ssl) [
    | inl tls ↦
        rw
          (
            load-some a c
                (record w { loop = record w.loop { connections = erase fd w.loop.connections } }) e,
            tls,
          )
          (returns (_, refl))
    | inr plain ↦
        rw
          (
            load-some a c
                (record w { loop = record w.loop { connections = erase fd w.loop.connections } }) e,
            plain,
          )
          (returns (_, refl))
  ]

  -- What is left of an entry of another descriptor.
  others_stay :
      (w : World) (fd a fd' a' : ℕ) (c c' : Connection)
      → find a w.heap ≡ some c
      → c.fd ≡ fd
      → find a' w.heap ≡ some c'
      → c'.fd ≡ fd'
      → fd ≢ fd'
      → find a' (erase a w.heap) ≡ some c'
  others_stay w fd a fd' a' c c' e f e' f' ne =
      find-erase_ne a a' w.heap (same_cell w a a' c c' e e' (λ g. ne (sym f ∙ (g ∙ f')))) ∙ e'

  closed-IsOwner :
      (fd a : ℕ) (c : Connection) (os : p.S) (w : World)
      → find a w.heap ≡ some c
      → c.fd ≡ fd
      → IsOwner w
      → IsOwner (closed fd a os w)
  closed-IsOwner fd a c os w e f own fd' a' h =
      let q = find-erase-some fd fd' a' w.loop.connections h in
      let o = own fd' a' q.1 in (o.0, others_stay w fd a fd' a' c o.0 e f o.1 o.2 q.0, o.2)

  -- The entries of other descriptors are listed as before.
  abbrev pub LeavesOthers : ℕ → World → World → Type 0
  LeavesOthers fd w w' =
      (fd' a' : ℕ)
      → fd ≢ fd'
      → find fd' w.loop.connections ≡ some a'
      → find fd' w'.loop.connections ≡ some a'

  closed-Cleaned :
      (fd a : ℕ) (c : Connection) (os : p.S) (w : World)
      → IsOwner w
      → find fd w.loop.connections ≡ some a
      → find a w.heap ≡ some c
      → c.fd ≡ fd
      → c.should_close ≡ true
      → Cleaned ((fd, a) ∷ []) w (closed fd a os w)
  closed-Cleaned fd a c os w own listed e f marked = record {
    owner = closed-IsOwner fd a c os w e f own;
    stays = λ fd' a' c' h e' unmarked.
        let o = own fd' a' h in
        let f' : c'.fd ≡ fd' = ap (λ x. x.fd) (some-injective _ _ (sym e' ∙ o.1)) ∙ o.2 in
        let ne : fd ≢ fd' = λ g.
          let a_same : a ≡ a' =
            some-injective _ _ (sym listed ∙ (ap (λ n. find n w.loop.connections) g ∙ h)) in
          let c_same : c ≡ c' =
            some-injective _ _ (sym e ∙ (ap (λ n. find n w.heap) a_same ∙ e')) in
          marks_differ c c' c_same marked unmarked in
        (
          find-erase_ne fd fd' w.loop.connections ne ∙ h,
          others_stay w fd a fd' a' c c' e f e' f' ne,
        );
    shrinks = λ fd' a' h.
        let q = find-erase-some fd fd' a' w.loop.connections h in
        let o = own fd' a' q.1 in (q.1, others_stay w fd a fd' a' c o.0 e f o.1 o.2 q.0 ∙ sym o.1);
    clean = (λ c' h e'. absurd ((find-erase-some fd fd a w.loop.connections h).0 refl), tt);
  }

  close_if_marked-Cleaned :
      (fd a : ℕ) (w : World)
      → IsOwner w
      → find fd w.loop.connections ≡ some a
      → Returns
          (λ _ w'. Cleaned ((fd, a) ∷ []) w w' × LeavesOthers fd w w')
          (close_if_marked fd a w)
  unfolding close_if_marked
  close_if_marked-Cleaned fd a w own listed =
      let o = own fd a listed in
      elim (Bool-cases o.0.should_close) [
        | inl marked ↦
            rw (load-some a o.0 w o.1, marked)
              (Returns-mono (close_one-closed fd a o.0 w o.1) λ _ w' k.
                subst (λ v. Cleaned ((fd, a) ∷ []) w v × LeavesOthers fd w v) (sym k.1)
                  (
                    closed-Cleaned fd a o.0 k.0 w own listed o.1 o.2 marked,
                    λ fd' a' ne h. find-erase_ne fd fd' w.loop.connections ne ∙ h,
                  ))
        | inr unmarked ↦
            rw (load-some a o.0 w o.1, unmarked)
              (returns (
                record {
                  owner = own;
                  stays = λ fd' a' c h e m. (h, e);
                  shrinks = λ fd' a' h. (h, refl);
                  clean = (
                    λ c h e. ap (λ x. x.should_close) (some-injective _ _ (sym e ∙ o.1)) ∙ unmarked,
                    tt,
                  );
                },
                λ fd' a' ne h. h,
              ))
      ]

  Cleaned-join :
      {fd a : ℕ} {t : Table ℕ} {u v w : World}
      → Cleaned ((fd, a) ∷ []) u v
      → Cleaned t v w
      → Cleaned ((fd, a) ∷ t) u w
  Cleaned-join {fd} {a} h k = record {
    owner = k.owner;
    stays = λ fd' a' c l e m. let s = h.stays fd' a' c l e m in k.stays fd' a' c s.0 s.1 m;
    shrinks =
        λ fd' a' l. let s = k.shrinks fd' a' l in let r = h.shrinks fd' a' s.0 in (r.0, s.1 ∙ r.1);
    clean = (λ c l e. let s = k.shrinks fd a l in h.clean.0 c s.0 (sym s.1 ∙ e), k.clean);
  }

  close_marked-Cleaned :
      (t : Table ℕ) (w : World)
      → IsOwner w
      → Unique t
      → All (λ e. find e.0 w.loop.connections ≡ some e.1) t
      → Returns (λ _. Cleaned t w) (close_marked t w)
  unfolding close_marked
  close_marked-Cleaned [] w own u listed = returns (record {
    owner = own;
    stays = λ fd a c h e m. (h, e);
    shrinks = λ fd a h. (h, refl);
    clean = tt;
  })
  close_marked-Cleaned ((fd, a) ∷ t) w own u listed =
      Returns-bind _ (close_if_marked-Cleaned fd a w own listed.0) λ _ w' k.
        Returns-mono
          (close_marked-Cleaned t w' k.0.owner u.1
            (All-both t (λ e ne h. k.1 e.0 e.1 ne h) u.0 listed.1))
          (λ _ w'' l. Cleaned-join k.0 l)

  -- In a world where every entry of the loop's table points to a live connection of its descriptor,
  -- `cleanup_closed` returns; the same holds again, the connections that are not marked for closing
  -- stay as they are, none is added or changed, and none that is left is marked.
  pub cleanup_closed-Cleaned :
      (w : World)
      → IsOwner w
      → Unique w.loop.connections
      → Returns (λ _. Cleaned w.loop.connections w) (cleanup_closed w)
  unfolding cleanup_closed
  cleanup_closed-Cleaned w own u =
      close_marked-Cleaned w.loop.connections w own u (entries_found w.loop.connections u)
