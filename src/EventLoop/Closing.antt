-- ===== src/EventLoop/Closing.antt =====
-- gpu-proxy-cpp/src/event_loop.cpp: what `cleanup_closed` deletes, and whom it does not tell.
use compute_market.Base.{
  ℕ, ◌≡◌, refl, ◌∙◌, true, false, [], ◌∷◌, none, some, ◌==◌, if◌then◌else◌, ◌⊎◌, inl, inr, arith,
  Bool-cases, Option-cases,
}
use compute_market.Base.Table.{Table, find, erase, find-erase, find-erase_self}
use compute_market.Platform.{Platform}
use compute_market.World.{Connection, World}
use compute_market.Outcome.{Ends, ends_ok, ends_faults, Ends-bind, Ends-mono, load-some, load-none}
use compute_market.Connection.State.{destroy, free}
use compute_market.EventLoop.Poll.{close_one, close_if_marked, close_marked}

hit_is_it :
    (j fd b a : ℕ) (rest : Table ℕ) → (j == fd) ≡ true → find fd ((j, b) ∷ rest) ≡ some a → b ≡ a
unfolding find
hit_is_it j fd b a rest hit e = ground arith

module _ ⦃p : Platform⦄ where
  -- The managers and the timeouts are as before.
  pub record SameManagers (w w' : World) : Type 0 where
    pub pool_same : w'.pool_manager ≡ w.pool_manager
    pub worker_same : w'.worker_manager ≡ w.worker_manager
    pub timeouts_same : w'.loop.timeouts ≡ w.loop.timeouts

  pub SameManagers-trans : {u v w : World} → SameManagers u v → SameManagers v w → SameManagers u w
  SameManagers-trans h k = record {
    pool_same = k.pool_same ∙ h.pool_same;
    worker_same = k.worker_same ∙ h.worker_same;
    timeouts_same = k.timeouts_same ∙ h.timeouts_same;
  }

  abbrev pub same_managers : (w : World) → SameManagers w w
  same_managers w = record { pool_same = refl; worker_same = refl; timeouts_same = refl }

  abbrev pub IsGone : ℕ → World → Type 0
  IsGone a w = find a w.heap ≡ none

  abbrev pub IsMarked : ℕ → World → Type 0
  IsMarked a w = (c : Connection) × (find a w.heap ≡ some c) × (c.should_close ≡ true)

  -- What closing one connection leaves.
  record Closes (a : ℕ) (w w' : World) : Type 0 where
    same : SameManagers w w'
    gone : IsGone a w'
    others : (b : ℕ) → find b w'.heap ≡ (if a == b then none else find b w.heap)

  abbrev unlisted : ℕ → World → World
  unlisted fd w = record w { loop = record w.loop { connections = erase fd w.loop.connections } }

  closes :
      (fd a : ℕ) (w : World) (os : p.S)
      → Closes a w (record w {
        loop = record w.loop { connections = erase fd w.loop.connections };
        os = os;
        heap = erase a w.heap;
      })
  closes fd a w os = record {
    same = record { pool_same = refl; worker_same = refl; timeouts_same = refl };
    gone = find-erase_self a w.heap;
    others = λ b. find-erase a b w.heap;
  }

  close_one-Closes : (fd a : ℕ) (w : World) → Ends (Closes a w) (λ _. ⊥) (close_one fd a w)
  unfolding close_one destroy free
  close_one-Closes fd a w = elim (Option-cases (find a w.heap)) [
    | inl gone ↦ rw (load-none a (unlisted fd w) gone) ends_faults
    | inr (c, e) ↦ elim (Bool-cases c.ssl) [
      | inl tls ↦ rw (load-some a c (unlisted fd w) e, tls) (ends_ok (closes fd a w _))
      | inr plain ↦ rw (load-some a c (unlisted fd w) e, plain) (ends_ok (closes fd a w _))
    ]
  ]

  -- Cells are only freed, and the state of the managers is left alone.
  record Frees (w w' : World) : Type 0 where
    same : SameManagers w w'
    freed : (b : ℕ) → (IsGone b w') ⊎ (find b w'.heap ≡ find b w.heap)

  Closes-Frees : {w w' : World} (a : ℕ) → Closes a w w' → Frees w w'
  Closes-Frees {w} {w'} a h = record { same = h.same; freed = λ b. pick b (Bool-cases (a == b)) }
    where
      pick :
          (b : ℕ)
          → ((a == b) ≡ true) ⊎ ((a == b) ≡ false)
          → (IsGone b w') ⊎ (find b w'.heap ≡ find b w.heap)
      pick b (inl e) = inl (h.others b ∙ rw e)
      pick b (inr e) = inr (h.others b ∙ rw e)

  Frees-all : (w : World) → Frees w w
  Frees-all w = record { same = same_managers w; freed = λ b. inr refl }

  Frees-trans : {u v w : World} → Frees u v → Frees v w → Frees u w
  Frees-trans {u} {v} {w} h k = record {
    same = SameManagers-trans h.same k.same;
    freed = λ b. join b (h.freed b) (k.freed b);
  }
    where
      join :
          (b : ℕ)
          → (IsGone b v) ⊎ (find b v.heap ≡ find b u.heap)
          → (IsGone b w) ⊎ (find b w.heap ≡ find b v.heap)
          → (IsGone b w) ⊎ (find b w.heap ≡ find b u.heap)
      join b x (inl g) = inl g
      join b (inl g) (inr e) = inl (e ∙ g)
      join b (inr f) (inr e) = inr (e ∙ f)

  close_if_marked-Frees : (fd a : ℕ) (w : World) → Ends (Frees w) (λ _. ⊥) (close_if_marked fd a w)
  unfolding close_if_marked
  close_if_marked-Frees fd a w = elim (Option-cases (find a w.heap)) [
    | inl gone ↦ rw (load-none a w gone) ends_faults
    | inr (c, e) ↦ elim (Bool-cases c.should_close) [
      | inl yes' ↦
          rw (load-some a c w e, yes')
            (Ends-mono (close_one-Closes fd a w) (λ w' h. Closes-Frees a h) (λ w' h. h))
      | inr no' ↦ rw (load-some a c w e, no') (ends_ok (Frees-all w))
    ]
  ]

  close_if_marked-IsGone :
      (fd a : ℕ) (w : World)
      → IsMarked a w
      → Ends (λ w'. Frees w w' × IsGone a w') (λ _. ⊥) (close_if_marked fd a w)
  unfolding close_if_marked
  close_if_marked-IsGone fd a w (c, e, m) =
      rw (load-some a c w e, m)
        (Ends-mono (close_one-Closes fd a w) (λ w' h. (Closes-Frees a h, h.gone)) (λ w' h. h))

  close_marked-Frees : (t : Table ℕ) (w : World) → Ends (Frees w) (λ _. ⊥) (close_marked t w)
  unfolding close_marked
  close_marked-Frees [] w = ends_ok (Frees-all w)
  close_marked-Frees ((fd, a) ∷ rest) w =
      Ends-bind _ (close_if_marked-Frees fd a w)
        λ _ w' h. Ends-mono (close_marked-Frees rest w') (λ w'' k. Frees-trans h k) (λ w'' x. x)

  -- What a marked connection comes to while the loop goes on.
  abbrev IsMarkedOrGone : ℕ → World → Type 0
  IsMarkedOrGone a w = IsGone a w ⊎ IsMarked a w

  Frees-marked : {w w' : World} (a : ℕ) → Frees w w' → IsMarkedOrGone a w → IsMarkedOrGone a w'
  Frees-marked {w} {w'} a h m = join (h.freed a) m
    where
      join :
          (IsGone a w') ⊎ (find a w'.heap ≡ find a w.heap)
          → IsMarkedOrGone a w
          → IsMarkedOrGone a w'
      join (inl g) m = inl g
      join (inr e) (inl g) = inl (e ∙ g)
      join (inr e) (inr (c, f, s)) = inr (c, e ∙ f, s)

  Frees-IsGone : {w w' : World} (a : ℕ) → Frees w w' → IsGone a w → IsGone a w'
  Frees-IsGone {w} {w'} a h g = join (h.freed a)
    where
      join : (IsGone a w') ⊎ (find a w'.heap ≡ find a w.heap) → IsGone a w'
      join (inl g') = g'
      join (inr e) = e ∙ g

  close_first :
      (fd a : ℕ) (w : World)
      → IsMarkedOrGone a w
      → Ends (λ w'. Frees w w' × IsGone a w') (λ _. ⊥) (close_if_marked fd a w)
  unfolding close_if_marked
  close_first fd a w (inl gone) = rw (load-none a w gone) ends_faults
  close_first fd a w (inr marked) = close_if_marked-IsGone fd a w marked

  after_first :
      (a : ℕ) (rest : Table ℕ) (w w' : World)
      → Frees w w'
      → IsGone a w'
      → Ends (λ w''. SameManagers w w'' × IsGone a w'') (λ _. ⊥) (close_marked rest w')
  after_first a rest w w' h gone =
      Ends-mono (close_marked-Frees rest w')
        (λ w'' k. (SameManagers-trans h.same k.same, Frees-IsGone a k gone)) (λ w'' x. x)

  pub close_marked-IsGone :
      (fd a : ℕ) (t : Table ℕ) (w : World)
      → find fd t ≡ some a
      → IsMarkedOrGone a w
      → Ends (λ w'. SameManagers w w' × IsGone a w') (λ _. ⊥) (close_marked t w)
  unfolding close_marked find
  close_marked-IsGone fd a [] w e m = cc
  close_marked-IsGone fd a ((j, b) ∷ rest) w e m = elim (Bool-cases (j == fd)) [
    | inr other ↦ Ends-bind _ (close_if_marked-Frees j b w) λ _ w' h.
        Ends-mono (close_marked-IsGone fd a rest w' (ground arith) (Frees-marked a h m))
          (λ w'' k. (SameManagers-trans h.same k.0, k.1)) (λ w'' x. x)
    | inl hit ↦
        rw (hit_is_it j fd b a rest hit e)
          (Ends-bind _ (close_first j a w m) λ _ w' h. after_first a rest w w' h.0 h.1)
  ]
