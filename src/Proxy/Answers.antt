-- ===== src/Proxy/Answers.antt =====
-- gpu-proxy-cpp/src/pool_manager.cpp with main.cpp: what a message of the pool does to the abstract link.
use compute_market.Base.{
  ℕ, ◌≡◌, refl, sym, ap, subst, ◌⊎◌, inl, inr, List, length, Bool-cases, Option-cases,
}
use compute_market.Base.Text.{Text}
use compute_market.Platform.{Platform}
use compute_market.World.{PoolConfig, World}
use compute_market.Outcome.{ends_throws, Ends-bind, Ends-mono}
use compute_market.Preserve.{
  Preserves, keeping, keep_bind, keep_done, keep_if, keep_update, catch_all, keep_get_pool_manager,
}
use compute_market.Stratum.{StratumMethod, contains}
use compute_market.PoolManager.Responses.{handle_response, handle_notification}
use compute_market.PoolManager.Machine.{Link, link_of, given_work, Hears, stays, gets_work}
use compute_market.PoolManager.Linking.{On, on_get_next_id, on_current_config, on_send_to_pool}
use compute_market.PoolManager.Traffic.{
  response_id, member_or_null, dispatch_message, on_pool_message, submit_share,
}
use compute_market.Proxy.{pool_callbacks}
use compute_market.Proxy.Losses.{on_handle_notification, Moves, Moves-mono}
use compute_market.Proxy.Logins.{handle_response-Hears}

-- What a notification does.
abbrev Told : Link → Link → Type 0
Told l v = (v ≡ l) ⊎ (v ≡ given_work l)

Told-given_work : (l v : Link) → Told l v → Told l (given_work v)
Told-given_work l v (inl e) = inr (ap given_work e)
Told-given_work l v (inr e) = inr (ap given_work e)

Told-Hears : (n : ℕ) (l v : Link) → Told l v → Hears n l v
Told-Hears n l v (inl e) = subst (Hears n l) (sym e) stays
Told-Hears n l v (inr e) = subst (Hears n l) (sym e) gets_work

module _ ⦃p : Platform⦄ (pools : List PoolConfig) where
  handle_notification-Hears :
      (method : StratumMethod) (v : p.V) (w : World)
      → w.pool_manager.pools ≡ pools
      → Moves pools
          (Hears (length pools) (link_of w.pool_manager))
          (handle_notification pool_callbacks method v w)
  handle_notification-Hears method v w h =
      let l = link_of w.pool_manager in
      Moves-mono pools (Told l) (Hears (length pools) l) (Told-Hears (length pools) l)
        ((on_handle_notification (Told l) (Told-given_work l) method v).apply w (h, inl refl))

  on_response_id : (P : Link → Type 0) (j : p.V) → Preserves (On pools P) (response_id j)
  unfolding response_id
  on_response_id P j = search keeping depth 9

  dispatch_message-Hears :
      (line : Text) (j : p.V) (w : World)
      → w.pool_manager.pools ≡ pools
      → Moves pools
          (Hears (length pools) (link_of w.pool_manager))
          (dispatch_message pool_callbacks line j w)
  unfolding dispatch_message
  dispatch_message-Hears line j w h =
      let l = link_of w.pool_manager in
      let n = length pools in
      elim (Bool-cases (contains j "method")) [
        | inl e ↦ rw (e, dispatch_message) (handle_notification-Hears _ _ w h)
        | inr e ↦
            rw (e, dispatch_message)
              (Ends-bind _
                (Ends-mono ((on_response_id (λ v. v ≡ l) j).apply w (h, refl)) (λ w' s. s)
                  (λ w' s. (s.0, subst (Hears n l) (sym s.1) stays)))
                λ id w' s.
                  subst
                    (λ v. Moves pools (Hears n v) (
                      handle_response pool_callbacks
                        (record {
                          id = id;
                          result = member_or_null j "result";
                          error = member_or_null j "error";
                        })
                        w'))
                    s.1 (handle_response-Hears pools _ w' s.0))
      ]

  pub on_pool_message-Hears :
      (line : Text) (w : World)
      → w.pool_manager.pools ≡ pools
      → Moves pools
          (Hears (length pools) (link_of w.pool_manager))
          (on_pool_message pool_callbacks line w)
  unfolding on_pool_message
  on_pool_message-Hears line w h =
      catch_all (On pools (Hears (length pools) (link_of w.pool_manager)))
        (elim (Option-cases (p.parse line)) [
          | inl e ↦ rw e (ends_throws (h, stays))
          | inr (j, e) ↦ rw e (dispatch_message-Hears line j w h)
        ])

  pub on_submit_share :
      (P : Link → Type 0) (worker_id job_id nonce result : Text)
      → Preserves (On pools P) (submit_share worker_id job_id nonce result)
  unfolding submit_share
  on_submit_share P worker_id job_id nonce result = keep_bind keep_get_pool_manager λ m.
      keep_if _ keep_done (
        keep_bind (on_get_next_id P) λ id.
          keep_update _ _ (λ m' n ts r s. s)
            λ m'. keep_bind (on_current_config P) λ c. on_send_to_pool P _)
