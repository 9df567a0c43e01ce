-- ===== src/Proxy/Shares.antt =====
-- gpu-proxy-cpp/src/pool_manager.cpp with main.cpp: the response to a share goes to the worker that
-- submitted it.
use compute_market.Base.{
  ℕ, ◌+◌, ◌≡◌, refl, ap, ◌∙◌, Bool, true, false, ◌||◌, [], ◌∷◌, ◌++◌, Option, none, some,
  if◌then◌else◌, arith,
}
use compute_market.Base.Text.{Text}
use compute_market.Base.Table.{
  Table, find, assign, erase, find-assign, find-erase, find-assign_self,
}
use compute_market.Platform.{Platform}
use compute_market.World.{PoolManager, share_response, World, ok, and_then, or_throw, pure}
use compute_market.Outcome.{Returns, returns, Returns-bind}
use compute_market.Stratum.{StratumResponse}
use compute_market.PoolManager.Messages.{submit_message}
use compute_market.PoolManager.Responses.{
  error_text, forget_share, handle_share_response, handle_login_job, after_login_job,
  handle_response,
}
use compute_market.PoolManager.Invariant.{KeysBelow}
use compute_market.PoolManager.Traffic.{submit_share}
use compute_market.PoolManager.Shares.{CanSubmit, line_to, submit_share-Returns}
use compute_market.Proxy.{pool_callbacks}

module _ ⦃p : Platform⦄ where
  -- The verdict and the text that the proxy reads from the error of a response.
  abbrev pub verdict : p.V → Bool
  verdict e = p.is_null e || p.empty e

  abbrev pub reason : p.V → Option Text
  reason e = if p.is_string e then p.get_string e else some []

  -- The entry of a share is dropped.
  abbrev pub settled : PoolManager → ℕ → PoolManager
  settled m id = record m { share_to_worker = erase id m.share_to_worker }

  or_throw-if :
      (b : Bool) (o : Option Text) (w : World)
      → (if b then or_throw o else pure []) w ≡ or_throw (if b then o else some []) w
  or_throw-if true o w = refl
  or_throw-if false o w = refl

  error_text_lem : (e : p.V) (w : World) (s : Text) → reason e ≡ some s → error_text e w ≡ ok s w
  unfolding error_text
  error_text_lem e w s h = or_throw-if (p.is_string e) (p.get_string e) w ∙ ap (λ o. or_throw o w) h

  -- Once the pool is authenticated, a response whose result is an object that is not empty, to an
  -- identifier that is kept, reports the verdict to the worker of that identifier and drops the entry;
  -- nothing else changes.
  pub handle_response-share :
      (resp : StratumResponse) (worker_id err : Text) (w : World)
      → w.pool_manager.authenticated ≡ true
      → p.is_object resp.result ≡ true
      → p.empty resp.result ≡ false
      → reason resp.error ≡ some err
      → find resp.id w.pool_manager.share_to_worker ≡ some worker_id
      → handle_response pool_callbacks resp w
        ≡ ok tt (record w {
          pool_manager = settled w.pool_manager resp.id;
          trace = w.trace ++ share_response worker_id (verdict resp.error) err ∷ [];
        })
  unfolding handle_response handle_login_job after_login_job handle_share_response forget_share
  handle_response-share resp worker_id err w auth obj full why kept =
      simp (auth, obj, full, error_text_lem resp.error w err why, kept)

  find-below : (n : ℕ) (t : Table Text) → KeysBelow n t → find n t ≡ none
  unfolding find
  find-below n [] b = refl
  find-below n ((j, v) ∷ t) b = ground (arith, find-below n t b.1)

  erase-assign :
      (n k : ℕ) (v : Text) (t : Table Text)
      → KeysBelow n t
      → find k (erase n (assign n v t)) ≡ find k t
  erase-assign n k v t b =
      ground (arith, find-erase n k (assign n v t), find-assign n k v t, find-below n t b)

  -- A share that is submitted while the proxy can submit, the pool's connection alive and ready among
  -- that, and then answered, under its identifier, by an object that is not empty: the line is written
  -- to that connection, the verdict of the response goes to the worker that submitted, and what the
  -- manager keeps of the shares is as before.
  pub submit_share-handle_response :
      (worker_id job_id nonce result err : Text) (resp : StratumResponse) (w : World)
      (h : CanSubmit w)
      → w.pool_manager.authenticated ≡ true
      → KeysBelow w.pool_manager.next_id w.pool_manager.share_to_worker
      → resp.id ≡ w.pool_manager.next_id
      → p.is_object resp.result ≡ true
      → p.empty resp.result ≡ false
      → reason resp.error ≡ some err
      → Returns
          (λ _ w'.
            (w'.trace
              ≡ (w.trace
                  ++ line_to h.pool
                      (submit_message w.pool_manager.next_id worker_id job_id nonce result)
                    ∷ [])
                ++ share_response worker_id (verdict resp.error) err ∷ [])
            × ((k : ℕ)
                → find k w'.pool_manager.share_to_worker ≡ find k w.pool_manager.share_to_worker)
            × (w'.pool_manager.next_id ≡ w.pool_manager.next_id + 1))
          (and_then
            (submit_share worker_id job_id nonce result w)
            (λ _. handle_response pool_callbacks resp))
  submit_share-handle_response worker_id job_id nonce result err resp w can auth below same obj full
        why =
      Returns-bind _ (submit_share-Returns worker_id job_id nonce result w can) λ _ w' q.
        let kept =
          ap (λ (m : PoolManager). find resp.id m.share_to_worker) q.0
          ∙ ap
              (λ n. find n (assign w.pool_manager.next_id worker_id w.pool_manager.share_to_worker))
              same
          ∙ find-assign_self w.pool_manager.next_id worker_id w.pool_manager.share_to_worker in
        rw
          (handle_response-share resp worker_id err w'
            (ap (λ (m : PoolManager). m.authenticated) q.0 ∙ auth) obj full why kept)
          (returns (
            ap (λ t. t ++ share_response worker_id (verdict resp.error) err ∷ []) q.1,
            (λ k.
                ap (λ n. find k (erase n w'.pool_manager.share_to_worker)) same
                ∙ ap (λ (m : PoolManager). find k (erase w.pool_manager.next_id m.share_to_worker))
                    q.0
                ∙ erase-assign w.pool_manager.next_id k worker_id w.pool_manager.share_to_worker
                    below),
            ap (λ (m : PoolManager). m.next_id) q.0,
          ))
