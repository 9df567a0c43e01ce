-- ===== src/Owned/Tables.antt =====
-- gpu-proxy-cpp/src/connection.hpp and event_loop.hpp: a connection is made, written, listed,
-- unlisted and deleted.
use compute_market.Base.{
  ℕ, ◌≡◌, ◌≢◌, ◌⊎◌, inl, inr, refl, sym, ap, subst, ◌∙◌, [], ◌∷◌, Option, some, arith, All, ◌==◌,
  Bool-cases, if◌then◌else◌, ==_iff,
}
use mathlib.Core.Option.{some-injective}
use compute_market.Base.Table.{
  Table, find, assign, erase, find-assign, find-assign_self, find-assign_ne,
}
use compute_market.World.{Connection}
use compute_market.EventLoop.Entries.{Unique}
use compute_market.Owned.{Live, IsOwned}

module _ {A : Type 0} where
  -- Where a value of a written table comes from.
  pub find-assign_cases :
      (k j : ℕ) (a : A) (t : Table A) {b : A}
      → find j (assign k a t) ≡ some b
      → ((k ≡ j) × (a ≡ b)) ⊎ ((k ≢ j) × (find j t ≡ some b))
  find-assign_cases k j a t h = elim (Bool-cases (k == j)) [
    | inl e ↦ inl (
      (==_iff k j).0 e,
      some-injective _ _
          (sym (find-assign k j a t ∙ ap (λ x. if x then some a else find j t) e) ∙ h),
    )
    | inr e ↦
        inr
          (ground arith, sym (find-assign k j a t ∙ ap (λ x. if x then some a else find j t) e) ∙ h)
  ]

module _ {A : Type 0} (P : ℕ × A → Type 0) where
  All-assign : (j : ℕ) (a : A) (t : Table A) → P (j, a) → All P t → All P (assign j a t)
  unfolding assign
  All-assign j a [] h g = (h, tt)
  All-assign j a ((i, b) ∷ t) h g = elim (Bool-cases (i == j)) [
    | inl e ↦ rw e (h, g.1)
    | inr e ↦ rw e (g.0, All-assign j a t h g.1)
  ]

  All-erase : (j : ℕ) (t : Table A) → All P t → All P (erase j t)
  unfolding erase
  All-erase j [] g = tt
  All-erase j ((i, b) ∷ t) g = elim (Bool-cases (i == j)) [
    | inl e ↦ rw e (All-erase j t g.1)
    | inr e ↦ rw e (g.0, All-erase j t g.1)
  ]

-- The keys stay different.
pub Unique-assign : (k a : ℕ) (t : Table ℕ) → Unique t → Unique (assign k a t)
unfolding assign
Unique-assign k a [] u = (tt, tt)
Unique-assign k a ((j, b) ∷ t) u = elim (Bool-cases (j == k)) [
  | inl e ↦ rw e (subst (λ n. All (λ f. n ≢ f.0) t) ((==_iff j k).0 e) u.0, u.1)
  | inr e ↦ rw e (All-assign _ k a t (ground arith) u.0, Unique-assign k a t u.1)
]

pub Unique-erase : (k : ℕ) (t : Table ℕ) → Unique t → Unique (erase k t)
unfolding erase
Unique-erase k [] u = tt
Unique-erase k ((j, b) ∷ t) u = elim (Bool-cases (j == k)) [
  | inl e ↦ rw e (Unique-erase k t u.1)
  | inr e ↦ rw e (All-erase _ k t u.0, Unique-erase k t u.1)
]

-- A connection that is alive has the descriptor it was read with.
pub Live-same :
    (a fd : ℕ) (c : Connection) (heap : Table Connection)
    → Live a fd heap
    → find a heap ≡ some c
    → c.fd ≡ fd
Live-same a fd c heap (c', e, f) h = ap (λ x. x.fd) (some-injective _ _ (sym h ∙ e)) ∙ f

pub find-assign_same :
    {A : Type 0} (k j : ℕ) (a : A) (t : Table A) → k ≡ j → find j (assign k a t) ≡ some a
find-assign_same k j a t e = subst (λ n. find n (assign k a t) ≡ some a) e (find-assign_self k a t)

-- Writing a connection, under its descriptor, leaves the descriptors as they are.
Live-assign :
    (a : ℕ) (c : Connection) (heap : Table Connection)
    → Live a c.fd heap
    → (b fd : ℕ) → Live b fd heap
    → Live b fd (assign a c heap)
Live-assign a c heap l b fd (c', e, f) = elim (Bool-cases (a == b)) [
  | inl same ↦
      let q : a ≡ b = (==_iff a b).0 same in
      (
        c,
        find-assign_same a b c heap q,
        sym (Live-same a c.fd c' heap l (ap (λ n. find n heap) q ∙ e)) ∙ f,
      )
  | inr other ↦ (c', find-assign_ne a b c heap (ground arith) ∙ e, f)
]

-- What a written heap holds was there under the same descriptor.
written_from :
    (a : ℕ) (c : Connection) (heap : Table Connection)
    → Live a c.fd heap
    → (b : ℕ) (d : Connection) → find b (assign a c heap) ≡ some d
    → Live b d.fd heap
written_from a c heap (c', e, f) b d h = elim (find-assign_cases a b c heap h) [
  | inl (q, r) ↦ (c', ap (λ n. find n heap) (sym q) ∙ e, f ∙ ap (λ x. x.fd) r)
  | inr (ne, e') ↦ (d, e', refl)
]

All-map : {P Q : ℕ × ℕ → Type 0} (t : Table ℕ) → ((e : ℕ × ℕ) → P e → Q e) → All P t → All Q t
All-map [] f h = tt
All-map (e ∷ t) f h = (f e h.0, All-map t f h.1)

module _ {held : Option ℕ} {facts : Table ℕ} {heap : Table Connection} {next : ℕ} {table : Table ℕ}
    (o : IsOwned held facts heap next table) where
  -- The facts are dropped.
  pub forget : IsOwned held [] heap next table
  forget = record {
    listed = o.listed;
    owned = o.owned;
    pending = o.pending;
    unlisted = o.unlisted;
    fresh = o.fresh;
    unique = o.unique;
    known = tt;
  }

  -- A connection is read.
  pub learn :
      (a : ℕ) (c : Connection)
      → find a heap ≡ some c
      → IsOwned held ((a, c.fd) ∷ facts) heap next table
  learn a c e = record {
    listed = o.listed;
    owned = o.owned;
    pending = o.pending;
    unlisted = o.unlisted;
    fresh = o.fresh;
    unique = o.unique;
    known = ((c, e, refl), o.known);
  }

  -- A connection is written, under its descriptor.
  pub written :
      (a : ℕ) (c : Connection) → Live a c.fd heap → IsOwned held facts (assign a c heap) next table
  written a c l = record {
    listed = λ fd b h. Live-assign a c heap l b fd (o.listed fd b h);
    owned = λ b d h. owned_by b d (written_from a c heap l b d h);
    pending = λ b h.
        let (d, e) = o.pending b h in
        let (d', e', f) = Live-assign a c heap l b d.fd (d, e, refl) in (d', e');
    unlisted = o.unlisted;
    fresh = λ b d h. let (d', e', f) = written_from a c heap l b d h in o.fresh b d' e';
    unique = o.unique;
    known = All-map facts (λ f. Live-assign a c heap l f.0 f.1) o.known;
  }
    where
      owned_by :
          (b : ℕ) (d : Connection) → Live b d.fd heap → (held ≡ some b) ⊎ (find d.fd table ≡ some b)
      owned_by b d (d', e, f) =
          subst (λ n. (held ≡ some b) ⊎ (find n table ≡ some b)) f (o.owned b d' e)
