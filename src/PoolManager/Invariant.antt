-- ===== src/PoolManager/Invariant.antt =====
-- gpu-proxy-cpp/src/pool_manager.cpp: what holds of the pool manager between two events.
use compute_market.Base.{
  ℕ, zero, suc, ◌≤◌, ◌<◌, ◌≡◌, Bool, ◌++◌, List, [], ◌∷◌, length, drop, All, arith,
}
use compute_market.Base.Text.{Text}
use compute_market.Base.Table.{Table, assign, erase}
use compute_market.Platform.{Platform}
use compute_market.World.{
  PoolConfig, PoolManager, WorkerManager, Timeout, M, ◌>>=◌, ◌>>◌, get_pool_manager,
  put_pool_manager,
}
use compute_market.Preserve.{Invariant, Preserves, keep_update, keep_update_last}

abbrev pub KeysBelow : ℕ → Table Text → Type 0
KeysBelow n t = All (λ e. e.0 < n) t

-- `pools` is the configuration, which never changes.
pub record IsSound (pools : List PoolConfig) (m : PoolManager) : Type 0 where
  pub configured : m.pools ≡ pools
  pub in_range : 0 < length pools → m.current_pool_index < length pools
  pub linked : m.connected ≡ m.authenticated
  pub attempts_bounded : m.reconnect_attempts ≤ 5
  pub ids_used : KeysBelow m.next_id m.share_to_worker

-- What is asked of the rest of the program meanwhile.
abbrev pub Rest : Type 1
Rest = WorkerManager → List Timeout → Bool → Type 0

-- Timeouts may be added at any time.
abbrev pub Grows : Rest → Type 0
Grows R =
    (n : WorkerManager) (ts : List Timeout) (r : Bool) (t : Timeout)
    → R n ts r
    → R n (ts ++ t ∷ []) r

abbrev pub Sound : List PoolConfig → Rest → Invariant
Sound pools R m n ts r = IsSound pools m × R n ts r

module _ ⦃p : Platform⦄ {pools : List PoolConfig} {R : Rest} where
  pub keep_pool :
      {B : Type 0} (f : PoolManager → PoolManager) (k : PoolManager → M B)
      → ((m : PoolManager) → IsSound pools m → IsSound pools (f m))
      → ((m : PoolManager) → Preserves (Sound pools R) (k m))
      → Preserves (Sound pools R) (get_pool_manager >>= (λ m. put_pool_manager (f m) >> k m))
  keep_pool f k h = keep_update f k (λ m n ts r s. (h m s.0, s.1))

  pub keep_pool_last :
      (f : PoolManager → PoolManager)
      → ((m : PoolManager) → IsSound pools m → IsSound pools (f m))
      → Preserves (Sound pools R) (get_pool_manager >>= (λ m. put_pool_manager (f m)))
  keep_pool_last f h = keep_update_last f (λ m n ts r s. (h m s.0, s.1))

pub KeysBelow-assign :
    (n k : ℕ) (v : Text) (t : Table Text) → k < n → KeysBelow n t → KeysBelow n (assign k v t)
unfolding assign
KeysBelow-assign n k v [] h b = (h, tt)
KeysBelow-assign n k v ((j, u) ∷ t) h b = ground (arith, KeysBelow-assign n k v t)

pub KeysBelow-erase : (n k : ℕ) (t : Table Text) → KeysBelow n t → KeysBelow n (erase k t)
unfolding erase
KeysBelow-erase n k [] b = tt
KeysBelow-erase n k ((j, u) ∷ t) b = ground (arith, KeysBelow-erase n k t)

pub KeysBelow-mono : (m n : ℕ) (t : Table Text) → m ≤ n → KeysBelow m t → KeysBelow n t
KeysBelow-mono m n [] h b = tt
KeysBelow-mono m n (e ∷ t) h b = (omega arith, KeysBelow-mono m n t h b.1)

pub drop-lt {ℓ} :
    {A : Type ℓ} (i : ℕ) (xs : List A) {y : A} {ys : List A}
    → drop i xs ≡ y ∷ ys
    → (i < length xs) × (drop (suc i) xs ≡ ys)
drop-lt zero [] h = cc
drop-lt zero (x ∷ xs) h = (omega arith, cc)
drop-lt (suc i) [] h = cc
drop-lt (suc i) (x ∷ xs) h = let r = drop-lt i xs h in (omega (arith, r.0), r.1)
