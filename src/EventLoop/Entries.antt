-- ===== src/EventLoop/Entries.antt =====
-- The table of the loop, gpu-proxy-cpp/src/event_loop.cpp: its keys differ, and its entries are found.
use compute_market.Base.{
  ℕ, ◌≡◌, ◌≢◌, refl, sym, ◌∙◌, true, false, [], ◌∷◌, Option, none, some, ◌==◌, if◌then◌else◌, arith,
  All, ne_of_eqb, Bool,
}
use compute_market.Base.Table.{Table, find, erase, find-erase}

-- The keys of a map differ.
abbrev pub Unique : Table ℕ → Type 0
Unique [] = Unit
Unique (e ∷ t) = All (λ f. e.0 ≢ f.0) t × Unique t

if_none :
    {A : Type 0} (b : Bool) (o : Option A) {a : A}
    → (if b then none else o) ≡ some a
    → (b ≡ false) × (o ≡ some a)
if_none true o e = cc
if_none false o e = (refl, e)

pub find-erase-some :
    {A : Type 0} (k j : ℕ) (a : A) (t : Table A)
    → find j (erase k t) ≡ some a
    → (k ≢ j) × (find j t ≡ some a)
find-erase-some k j a t e =
    let q = if_none (k == j) (find j t) (sym (find-erase k j t) ∙ e) in (ne_of_eqb k j q.0, q.1)

pub All-both :
    {P Q R : ℕ × ℕ → Type 0} (t : Table ℕ)
    → ((e : ℕ × ℕ) → P e → Q e → R e)
    → All P t
    → All Q t
    → All R t
All-both [] f h k = tt
All-both (e ∷ t) f h k = (f e h.0 k.0, All-both t f h.1 k.1)

find_first : (fd a : ℕ) (t : Table ℕ) → find fd ((fd, a) ∷ t) ≡ some a
unfolding find
find_first fd a t = ground arith

pub find_later : (fd a fd' : ℕ) (t : Table ℕ) → fd ≢ fd' → find fd' ((fd, a) ∷ t) ≡ find fd' t
unfolding find
find_later fd a fd' t ne = ground arith

-- An entry of a map is found under its key.
pub entries_found : (t : Table ℕ) → Unique t → All (λ e. find e.0 t ≡ some e.1) t
entries_found [] u = tt
entries_found ((fd, a) ∷ t) u = (
  find_first fd a t,
  All-both t (λ e ne h. find_later fd a e.0 t ne ∙ h) u.0 (entries_found t u.1),
)
