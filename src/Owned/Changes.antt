-- ===== src/Owned/Changes.antt =====
-- gpu-proxy-cpp/src/event_loop.hpp: a connection is made, goes into the table, comes out of it, and is
-- deleted.
use compute_market.Base.{
  ℕ, suc, ◌≡◌, ◌≢◌, inl, inr, refl, sym, ap, ◌∙◌, [], none, some, arith, ◌==◌, Bool-cases, ==_iff,
}
use mathlib.Core.Option.{some-injective}
use compute_market.Base.Table.{Table, find, assign, erase, find-assign_ne, find-erase_ne}
use compute_market.World.{Connection}
use compute_market.EventLoop.Entries.{find-erase-some}
use compute_market.Owned.{IsOwned}
use compute_market.Owned.Tables.{
  find-assign_cases, find-assign_same, Unique-assign, Unique-erase, Live-same,
}

module _ {facts : Table ℕ} {heap : Table Connection} {next : ℕ} {table : Table ℕ} where
  not_next :
      IsOwned none facts heap next table
      → (a : ℕ) (c : Connection) → find a heap ≡ some c
      → next ≢ a
  not_next o a c e = omega (arith, o.fresh a c e)

  -- A connection is made at the next address.
  pub allocated :
      IsOwned none facts heap next table
      → (c : Connection) → IsOwned (some next) [] (assign next c heap) (suc next) table
  allocated o c = record {
    listed = λ fd a h.
        let (d, e, f) = o.listed fd a h in
        (d, find-assign_ne next a c heap (not_next o a d e) ∙ e, f);
    owned = λ a d h. elim (find-assign_cases next a c heap h) [
      | inl (q, r) ↦ inl (ap some q)
      | inr (ne, e) ↦ elim (o.owned a d e) [ inl q ↦ cc | inr q ↦ inr q ]
    ];
    pending = λ a q. (c, find-assign_same next a c heap (some-injective _ _ q));
    unlisted =
        λ fd a q h. let (d, e, f) = o.listed fd a h in not_next o a d e (some-injective _ _ q);
    fresh = λ a d h. elim (find-assign_cases next a c heap h) [
      | inl (q, r) ↦ omega arith
      | inr (ne, e) ↦ omega (arith, o.fresh a d e)
    ];
    unique = o.unique;
    known = tt;
  }

  -- The pending connection goes into the table. What was there under its descriptor comes out.
  pub enlisted :
      (a : ℕ) (c : Connection)
      → find a heap ≡ some c
      → IsOwned (some a) facts heap next table
      → IsOwned (find c.fd table) [] heap next (assign c.fd a table)
  enlisted a c e o = record {
    listed = λ fd b h. elim (find-assign_cases c.fd fd a table h) [
      | inl (q, r) ↦ (c, ap (λ n. find n heap) (sym r) ∙ e, q)
      | inr (ne, h') ↦ o.listed fd b h'
    ];
    owned = λ b d h. elim (o.owned b d h) [
      | inl q ↦
          let r : a ≡ b = some-injective _ _ q in
          let same : c ≡ d = some-injective _ _ (sym e ∙ (ap (λ n. find n heap) r ∙ h)) in
          inr (find-assign_same c.fd d.fd a table (ap (λ x. x.fd) same) ∙ q)
      | inr q ↦ elim (Bool-cases (c.fd == d.fd)) [
        | inl t ↦ inl (ap (λ n. find n table) ((==_iff c.fd d.fd).0 t) ∙ q)
        | inr t ↦ inr (find-assign_ne c.fd d.fd a table (ground arith) ∙ q)
      ]
    ];
    pending = λ b q. let (d, h, f) = o.listed c.fd b q in (d, h);
    unlisted = λ fd b q h. elim (find-assign_cases c.fd fd a table h) [
      | inl (r, t) ↦ o.unlisted c.fd a refl (q ∙ ap some (sym t))
      | inr (ne, h') ↦
          let (d, k, f) = o.listed c.fd b q in
          ne (sym f ∙ Live-same b fd d heap (o.listed fd b h') k)
    ];
    fresh = o.fresh;
    unique = Unique-assign c.fd a table o.unique;
    known = tt;
  }

  -- A connection comes out of the table.
  pub delisted :
      (fd a : ℕ)
      → find fd table ≡ some a
      → IsOwned none facts heap next table
      → IsOwned (some a) [] heap next (erase fd table)
  delisted fd a l o = record {
    listed = λ fd' b h. o.listed fd' b (find-erase-some fd fd' b table h).1;
    owned = λ b d h. elim (o.owned b d h) [
      | inl q ↦ cc
      | inr q ↦ elim (Bool-cases (fd == d.fd)) [
        | inl t ↦ inl (sym l ∙ (ap (λ n. find n table) ((==_iff fd d.fd).0 t) ∙ q))
        | inr t ↦ inr (find-erase_ne fd d.fd table (ground arith) ∙ q)
      ]
    ];
    pending = λ b q. let (d, h, f) = o.listed fd b (l ∙ q) in (d, h);
    unlisted = λ fd' b q h.
        let (ne, h') = find-erase-some fd fd' b table h in
        let (d, k, f) = o.listed fd b (l ∙ q) in
        ne (sym f ∙ Live-same b fd' d heap (o.listed fd' b h') k);
    fresh = o.fresh;
    unique = Unique-erase fd table o.unique;
    known = tt;
  }

  -- The pending connection is deleted.
  pub freed :
      (a : ℕ) → IsOwned (some a) facts heap next table → IsOwned none [] (erase a heap) next table
  freed a o = record {
    listed = λ fd b h.
        let (d, e, f) = o.listed fd b h in
        (d, find-erase_ne a b heap (λ q. o.unlisted fd a refl (h ∙ ap some (sym q))) ∙ e, f);
    owned = λ b d h.
        let (ne, e) = find-erase-some a b d heap h in
        elim (o.owned b d e) [ inl q ↦ absurd (ne (some-injective _ _ q)) | inr q ↦ inr q ];
    pending = λ b q. cc;
    unlisted = λ fd b q. cc;
    fresh = λ b d h. o.fresh b d (find-erase-some a b d heap h).1;
    unique = o.unique;
    known = tt;
  }
