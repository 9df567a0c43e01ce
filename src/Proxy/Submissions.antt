-- ===== src/Proxy/Submissions.antt =====
-- gpu-proxy-cpp/src/main.cpp with worker_manager.cpp and pool_manager.cpp: a share on its way from a
-- worker to the pool.
use compute_market.Base.{
  ℕ, ◌≡◌, refl, ap, ◌∙◌, true, false, if◌then◌else◌, [], ◌∷◌, ◌++◌, some, get_elem?,
}
use compute_market.Base.Text.{Text, text, text_eq}
use compute_market.Base.Table.{find}
use compute_market.Platform.{Platform}
use compute_market.World.{Connection, PoolManager, WorkerInfo, World, wrote, pure, load, ◌>>=◌}
use compute_market.Outcome.{Returns, Returns-bind, Returns-mono, Quiet, Quiet-find, load-some}
use compute_market.Stratum.{monero_submit, method_of}
use compute_market.Connection.Sending.{rejects, send_line-Quiet}
use compute_market.PoolManager.Messages.{submit_message}
use compute_market.PoolManager.Shares.{
  tracked, pool_target, line_to, CanSubmit, submit_share-Returns,
}
use compute_market.WorkerManager.Messages.{submit_response}
use compute_market.WorkerManager.Requests.{
  Share, text_member, monero_share, read_share, handle_submit, dispatch_request, on_worker_message,
}
use compute_market.Proxy.{share_callback}
use compute_market.Proxy.Lines.{IsRequest, parse_request-read, caught}

module _ ⦃p : Platform⦄ where
  -- The proxy can submit after something quiet just if it could before.
  target_same :
      {w w' : World}
      → Quiet w w'
      → pool_target w'.pool_manager w'.loop ≡ pool_target w.pool_manager w.loop
  target_same {w} {w'} q =
      ap (λ m. pool_target m w'.loop) q.pool_same
      ∙ ap (λ l. pool_target w.pool_manager l) q.loop_same

  -- A mark for closing does not make it refuse.
  CanSubmit-Quiet :
      {w w' : World} → Quiet w w' → (h : CanSubmit w) → (k : CanSubmit w') × (k.pool.fd ≡ h.pool.fd)
  CanSubmit-Quiet {w} {w'} q h =
      let (c, e, same) = Quiet-find h.address h.pool q h.alive in
      (
        record {
          up = ap (λ m. m.connected) q.pool_same ∙ h.up;
          working = ap (λ m. m.has_job) q.pool_same ∙ h.working;
          id_left = rw (ap (λ m. m.next_id) q.pool_same) h.id_left;
          config = h.config;
          configured = ap (λ m. get_elem? m.pools m.current_pool_index) q.pool_same ∙ h.configured;
          address = h.address;
          pool = c;
          reached = target_same q ∙ h.reached;
          alive = e;
          ready = ap rejects same ∙ h.ready;
        },
        ap (λ (d : Connection). d.fd) same,
      )

  -- A line that submits a share: the method "submit" with an object of four texts.
  pub record Submits (line worker_id job_id nonce result : Text) (id : ℕ) : Type 0 where
    pub params : p.V
    pub request : IsRequest line id (text "submit") params
    pub worker_value : p.V
    pub job_value : p.V
    pub nonce_value : p.V
    pub result_value : p.V
    pub is_an_object : p.is_object params ≡ true
    pub has_worker : p.member params "id" ≡ some worker_value
    pub has_job_id : p.member params "job_id" ≡ some job_value
    pub has_nonce : p.member params "nonce" ≡ some nonce_value
    pub has_result : p.member params "result" ≡ some result_value
    pub worker_read : p.get_string worker_value ≡ some worker_id
    pub job_id_read : p.get_string job_value ≡ some job_id
    pub nonce_read : p.get_string nonce_value ≡ some nonce
    pub result_read : p.get_string result_value ≡ some result

  method_of-submit : method_of (text "submit") ≡ monero_submit
  unfolding method_of text text_eq
  method_of-submit = refl

  -- The worker's line is acknowledged, and the share is sent to the pool under the next identifier,
  -- which is kept with the worker; nothing else of the managers and of the loop changes.
  pub record Submitted (worker_id job_id nonce result : Text) (id : ℕ) (c pool : Connection)
      (w w' : World) : Type 0 where
    pub output :
        w'.trace
        ≡ (w.trace ++ line_to c (submit_response id) ∷ [])
          ++ line_to pool (submit_message w.pool_manager.next_id worker_id job_id nonce result) ∷ []
    pub pool_same : w'.pool_manager ≡ tracked w.pool_manager worker_id
    pub worker_same : w'.worker_manager ≡ w.worker_manager
    pub loop_same : w'.loop ≡ w.loop

  module _ {line worker_id job_id nonce result : Text} {id : ℕ}
      (h : Submits line worker_id job_id nonce result id) where
    abbrev message_of : PoolManager → Text
    message_of m = submit_message m.next_id worker_id job_id nonce result

    abbrev share : Share
    share = record { worker_id = worker_id; job_id = job_id; nonce = nonce; result = result }

    read_share-share : (w : World) → read_share monero_submit h.params w ≡ pure share w
    unfolding read_share monero_share text_member
    read_share-share w = simp (
      h.is_an_object, h.has_worker, h.has_job_id, h.has_nonce, h.has_result, h.worker_read,
      h.job_id_read, h.nonce_read, h.result_read,
    )

    handle_submit-Returns :
        (a : ℕ) (c : Connection) (info : WorkerInfo) (w : World)
        → find a w.heap ≡ some c
        → find c.fd w.worker_manager.workers ≡ some info
        → rejects c ≡ false
        → (can : CanSubmit w)
        → Returns
            (λ _. Submitted worker_id job_id nonce result id c can.pool w)
            (handle_submit share_callback a
              (record { id = id; method = monero_submit; params = h.params })
              w)
    unfolding handle_submit
    handle_submit-Returns a c info w e known open_ can =
        rw (load-some a c w e, known, read_share-share w)
          (Returns-bind _ (send_line-Quiet a (submit_response id) c w e) λ _ w' q.
            let (still, same) = CanSubmit-Quiet q.0 can in
            Returns-mono (submit_share-Returns worker_id job_id nonce result w' still) λ _ w'' r.
              record {
                output =
                    r.1
                    ∙ ap (λ t. t ++ line_to still.pool (message_of w'.pool_manager) ∷ [])
                        (q.1
                          ∙ ap
                              (λ b.
                                w.trace ++ (if b then [] else line_to c (submit_response id) ∷ []))
                              open_)
                    ∙ ap
                        (λ m.
                          (w.trace ++ line_to c (submit_response id) ∷ [])
                          ++ line_to still.pool (message_of m) ∷ [])
                        q.0.pool_same
                    ∙ ap
                        (λ fd.
                          (w.trace ++ line_to c (submit_response id) ∷ [])
                          ++ wrote fd (message_of w.pool_manager ++ b'\n' ∷ []) ∷ [])
                        same;
                pool_same = r.0 ∙ ap (λ m. tracked m worker_id) q.0.pool_same;
                worker_same = r.2 ∙ q.0.worker_same;
                loop_same = r.3 ∙ q.0.loop_same;
              })

    -- A line of a known worker, whose connection is ready, that submits a share, while the proxy can
    -- submit, the pool's connection alive and ready among that: the handler returns, it has written the
    -- acknowledgement to the worker, at once, and the share to the pool's connection under the next
    -- identifier, which is kept with the worker; nothing else of the managers and of the loop changes.
    pub on_worker_message-Submitted :
        (a : ℕ) (c : Connection) (info : WorkerInfo) (w : World)
        → find a w.heap ≡ some c
        → find c.fd w.worker_manager.workers ≡ some info
        → rejects c ≡ false
        → (can : CanSubmit w)
        → Returns
            (λ _. Submitted worker_id job_id nonce result id c can.pool w)
            (on_worker_message share_callback a line w)
    unfolding on_worker_message dispatch_request
    on_worker_message-Submitted a c info w e known open_ can =
        rw (parse_request-read h.request, method_of-submit)
          (caught
            (load a >>= λ _.
              handle_submit share_callback a
                (record { id = id; method = monero_submit; params = h.params }))
            w (rw (load-some a c w e) (handle_submit-Returns a c info w e known open_ can)))
