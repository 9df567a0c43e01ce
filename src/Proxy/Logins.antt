-- ===== src/Proxy/Logins.antt =====
-- gpu-proxy-cpp/src/pool_manager.cpp with main.cpp: what a response of the pool does to the abstract
-- link.
use compute_market.Base.{
  ◌≡◌, refl, sym, subst, Bool, true, false, ◌⊎◌, inl, inr, List, if◌then◌else◌, not, ◌||◌, length,
  Bool-cases, Option-cases,
}
use compute_market.Base.Text.{text, text_eq}
use compute_market.Platform.{Platform}
use compute_market.World.{
  authenticated, PoolConfig, World, ◌>>=◌, ◌>>◌, done, pure, match_option, put_pool_manager,
}
use compute_market.Outcome.{ends_ok, ends_throws, Ends-bind}
use compute_market.Preserve.{Holds, Preserves, keeping, keep_update, keep_emit}
use compute_market.Stratum.{StratumResponse}
use compute_market.PoolManager.States.{on_authenticated, on_pool_state}
use compute_market.PoolManager.Responses.{
  adopt_login_job, handle_login_job, handle_status, after_login_job, handle_response,
}
use compute_market.PoolManager.Machine.{
  Link, link_of, given_work, Loses, Hears, stays, is_let_in, is_refused,
}
use compute_market.PoolManager.Linking.{On}
use compute_market.Proxy.{pool_callbacks}
use compute_market.Proxy.Losses.{
  on_modify_job, on_send_job, on_handle_share_response, on_got_job, Moves, Moves-mono,
  on_connection_lost-Loses,
}

-- What the answer to a login does that lets the proxy in.
abbrev LetIn : Link → Link → Type 0
LetIn l v = (v.online ≡ true) × (v.pool ≡ l.pool) × ((v.tries ≡ l.tries) ⊎ (v.tries ≡ 0))

LetIn-given_work : (l v : Link) → LetIn l v → LetIn l (given_work v)
LetIn-given_work l v s = s

module _ ⦃p : Platform⦄ (pools : List PoolConfig) where
  on_authenticated_state :
      (l : Link) → Preserves (On pools (LetIn l)) (on_pool_state pool_callbacks authenticated)
  unfolding on_pool_state on_authenticated
  on_authenticated_state l =
      keep_update _ _ (λ m n ts r s. (s.0, (refl, s.1.1, inr refl))) (λ m. keep_emit _)

  on_adopt_login_job :
      (l : Link) (v : p.V) → Preserves (On pools (LetIn l)) (adopt_login_job pool_callbacks v)
  unfolding adopt_login_job
  on_adopt_login_job l v =
      search
        (
          keeping,
          on_modify_job (LetIn l),
          on_got_job (LetIn l) (LetIn-given_work l),
          on_authenticated_state,
          on_send_job (LetIn l),
        )
        depth 30

  -- A proxy that is logged in takes it for the answer to a share.
  after_login_job-online :
      (P : Link → Type 0) (resp : StratumResponse) (w : World)
      → w.pool_manager.authenticated ≡ true
      → Holds (On pools P) w
      → Moves pools P (after_login_job pool_callbacks resp w)
  unfolding after_login_job
  after_login_job-online P resp w e s = simp e ((on_handle_share_response P resp).apply w s)

  handle_status-Hears :
      (v : p.V) (w : World)
      → w.pool_manager.pools ≡ pools
      → w.pool_manager.authenticated ≡ false
      → Moves pools
          (Hears (length pools) (link_of w.pool_manager))
          (handle_status pool_callbacks v w)
  unfolding handle_status on_pool_state
  handle_status-Hears v w h off =
      let l = link_of w.pool_manager in
      elim (Option-cases (p.get_string v)) [
        | inl e ↦ rw (e, handle_status) (ends_throws (h, stays))
        | inr (status, e) ↦ elim (Bool-cases (text_eq status (text "OK"))) [
          | inl ok ↦
              rw (e, handle_status, ok)
                (Moves-mono pools (LetIn l) (Hears (length pools) l)
                  (λ v k. is_let_in v off k.0 k.1 k.2)
                  ((on_authenticated_state l).apply _ (h, (refl, refl, inl refl))))
          | inr refused ↦
              rw (e, handle_status, refused)
                (Moves-mono pools (Loses (length pools) l) (Hears (length pools) l)
                  (λ v k. is_refused off k) (on_connection_lost-Loses pools w h))
        ]
      ]

  after_login_job-offline :
      (resp : StratumResponse) (w : World)
      → w.pool_manager.authenticated ≡ false
      → after_login_job pool_callbacks resp w
        ≡ match_option (p.member resp.result "status") done (λ v. handle_status pool_callbacks v) w
  unfolding after_login_job
  after_login_job-offline resp w off = simp off refl

  -- Without a job in the result.
  after_login_job-Hears :
      (resp : StratumResponse) (w : World)
      → w.pool_manager.pools ≡ pools
      → w.pool_manager.authenticated ≡ false
      → Moves pools
          (Hears (length pools) (link_of w.pool_manager))
          (after_login_job pool_callbacks resp w)
  after_login_job-Hears resp w h off =
      rw (after_login_job-offline resp w off) (elim (Option-cases (p.member resp.result "status")) [
        | inl e ↦ rw e (ends_ok (h, stays))
        | inr (v, e) ↦ rw e (handle_status-Hears v w h off)
      ])

  handle_login_job-offline :
      (resp : StratumResponse) (w : World)
      → w.pool_manager.authenticated ≡ false
      → handle_login_job pool_callbacks resp w
        ≡ match_option
            (p.member resp.result "job")
            (pure false)
            (λ result_job.
              put_pool_manager (record w.pool_manager {
                authenticated = true;
                connected = true;
                subscribed = true;
              })
              >> adopt_login_job pool_callbacks result_job)
            w
  unfolding handle_login_job
  handle_login_job-offline resp w off = simp off refl

  -- A job in the result lets the proxy in.
  handle_login_job-Hears :
      (resp : StratumResponse) (w : World)
      → w.pool_manager.pools ≡ pools
      → w.pool_manager.authenticated ≡ false
      → Moves pools (Hears (length pools) (link_of w.pool_manager)) (
          (handle_login_job pool_callbacks resp >>= λ returned.
          if returned then done else after_login_job pool_callbacks resp)
            w)
  handle_login_job-Hears resp w h off =
      let l = link_of w.pool_manager in
      rw (handle_login_job-offline resp w off) (elim (Option-cases (p.member resp.result "job")) [
        | inl e ↦ rw e (after_login_job-Hears resp w h off)
        | inr (v, e) ↦ rw e (
            Moves-mono pools (LetIn l) (Hears (length pools) l) (λ v k. is_let_in v off k.0 k.1 k.2)
              (Ends-bind _ ((on_adopt_login_job l v).apply _ (h, (refl, refl, inl refl)))
                λ returned w' s. let_in returned w' s))
      ])
    where
      let_in :
          (returned : Bool) (w' : World)
          → Holds (On pools (LetIn (link_of w.pool_manager))) w'
          → Moves pools
              (LetIn (link_of w.pool_manager))
              ((if returned then done else after_login_job pool_callbacks resp) w')
      let_in true w' s = ends_ok s
      let_in false w' s = after_login_job-online (LetIn (link_of w.pool_manager)) resp w' s.1.0 s

  handle_login_job-online :
      (resp : StratumResponse) (w : World)
      → w.pool_manager.authenticated ≡ true
      → handle_login_job pool_callbacks resp w ≡ pure false w
  unfolding handle_login_job
  handle_login_job-online resp w on = simp on refl

  pub handle_response-Hears :
      (resp : StratumResponse) (w : World)
      → w.pool_manager.pools ≡ pools
      → Moves pools
          (Hears (length pools) (link_of w.pool_manager))
          (handle_response pool_callbacks resp w)
  unfolding handle_response
  handle_response-Hears resp w h =
      let l = link_of w.pool_manager in
      elim (Bool-cases (not (p.is_object resp.result) || p.empty resp.result)) [
        | inl e ↦ rw (e, handle_response) (ends_ok (h, stays))
        | inr e ↦ elim (Bool-cases w.pool_manager.authenticated) [
          | inl on ↦
              rw (e, handle_response, handle_login_job-online resp w on)
                (Moves-mono pools (λ v. v ≡ l) (Hears (length pools) l)
                  (λ v k. subst (Hears (length pools) l) (sym k) stays)
                  (after_login_job-online (λ v. v ≡ l) resp w on (h, refl)))
          | inr off ↦ rw (e, handle_response) (handle_login_job-Hears resp w h off)
        ]
      ]
