-- ===== src/Base/Table.antt =====
-- `std::map` and `std::unordered_map` with integer keys, as association lists. The order of the
-- entries stands for the order in which the container is walked.
use Prim.Native.Nat.{ℕ}
use mathlib.Core.Path.{◌≡◌, refl, sym, ap, subst, ◌∙◌}
use mathlib.Core.Logic.{◌≢◌, inl, inr}
use mathlib.Core.Option.{Option, none, some, some-injective}
use mathlib.Core.List.{List, [], ◌∷◌}
use native.Mathlib.Omega.{arith}
use compute_market.Base.Tests.{◌==◌, if◌then◌else◌, Bool-cases}
use compute_market.Base.Lists.{All}

abbrev pub Table {ℓ} : Type ℓ → Type ℓ
Table A = List (ℕ × A)

module _ {ℓ} {A : Type ℓ} where
  unfoldable pub find : ℕ → Table A → Option A
  find k [] = none
  find k ((j, a) ∷ t) = if j == k then some a else find k t

  -- `m[k] = a`
  unfoldable pub assign : ℕ → A → Table A → Table A
  assign k a [] = (k, a) ∷ []
  assign k a ((j, b) ∷ t) = if j == k then (k, a) ∷ t else (j, b) ∷ assign k a t

  unfoldable pub erase : ℕ → Table A → Table A
  erase k [] = []
  erase k ((j, a) ∷ t) = if j == k then erase k t else (j, a) ∷ erase k t

  pub find-assign :
      (k j : ℕ) (a : A) (t : Table A)
      → find j (assign k a t) ≡ (if k == j then some a else find j t)
  unfolding find assign
  find-assign k j a [] = refl
  find-assign k j a ((i, b) ∷ t) = ground (arith, find-assign k j a t)

  pub find-erase :
      (k j : ℕ) (t : Table A) → find j (erase k t) ≡ (if k == j then none else find j t)
  unfolding find erase
  find-erase k j [] = ground arith
  find-erase k j ((i, b) ∷ t) = ground (arith, find-erase k j t)

  pub find-assign_self : (k : ℕ) (a : A) (t : Table A) → find k (assign k a t) ≡ some a
  find-assign_self k a t = ground (arith, find-assign k k a t)

  pub find-assign_ne : (k j : ℕ) (a : A) (t : Table A) → k ≢ j → find j (assign k a t) ≡ find j t
  find-assign_ne k j a t h = ground (arith, find-assign k j a t)

  pub find-erase_self : (k : ℕ) (t : Table A) → find k (erase k t) ≡ none
  find-erase_self k t = ground (arith, find-erase k k t)

  pub find-erase_ne : (k j : ℕ) (t : Table A) → k ≢ j → find j (erase k t) ≡ find j t
  find-erase_ne k j t h = ground (arith, find-erase k j t)

-- What holds of every value of a table.
module _ {ℓ} {A : Type ℓ} (P : A → Type 0) where
  abbrev pub AllValues : Table A → Type 0
  AllValues t = All (λ e. P e.1) t

  pub AllValues-assign :
      (k : ℕ) (v : A) (t : Table A) → P v → AllValues t → AllValues (assign k v t)
  unfolding assign
  AllValues-assign k v [] h b = (h, tt)
  AllValues-assign k v ((j, u) ∷ t) h b = elim (Bool-cases (j == k)) [
    | inl e ↦ rw e (h, b.1)
    | inr e ↦ rw e (b.0, AllValues-assign k v t h b.1)
  ]

  pub AllValues-erase : (k : ℕ) (t : Table A) → AllValues t → AllValues (erase k t)
  unfolding erase
  AllValues-erase k [] b = tt
  AllValues-erase k ((j, u) ∷ t) b = elim (Bool-cases (j == k)) [
    | inl e ↦ rw e (AllValues-erase k t b.1)
    | inr e ↦ rw e (b.0, AllValues-erase k t b.1)
  ]

  pub AllValues-find : (k : ℕ) (v : A) (t : Table A) → find k t ≡ some v → AllValues t → P v
  unfolding find
  AllValues-find k v [] h b = cc
  AllValues-find k v ((j, u) ∷ t) h b = elim (Bool-cases (j == k)) [
    | inl e ↦
        subst P (some-injective _ _ (sym (ap (λ x. if x then some u else find k t) e) ∙ h)) b.0
    | inr e ↦ AllValues-find k v t (sym (ap (λ x. if x then some u else find k t) e) ∙ h) b.1
  ]
