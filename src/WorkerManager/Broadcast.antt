-- ===== src/WorkerManager/Broadcast.antt =====
-- gpu-proxy-cpp/src/worker_manager.cpp: who gets a job from `send_job`, and what a dangling pointer
-- does to it.
use compute_market.Base.{
  ℕ, ◌≡◌, refl, ap, sym, ◌∙◌, Bool, true, false, ◌&&◌, ◌||◌, not, List, [], ◌∷◌, ◌++◌, Option, none,
  some, if◌then◌else◌, arith, append-nil, append_assoc, Bool-cases, Option-cases, inl, inr, ◌⊎◌,
  All,
}
use compute_market.Base.Text.{Text}
use compute_market.Base.Table.{Table, find}
use compute_market.Platform.{Platform}
use compute_market.World.{Connection, Job, Output, WorkerInfo, World, ok, faults, and_then}
use compute_market.Outcome.{
  Returns, returns, Returns-bind, Returns-mono, Quiet, Quiet-refl, Quiet-trans, Quiet-find,
  load-none, Returns-faults, Quiet-find-none,
}
use compute_market.Connection.Io.{send_line}
use compute_market.Connection.Sending.{output_at, output_at-unmarked, send_line-Quiet}
use compute_market.WorkerManager.Messages.{job_message}
use compute_market.WorkerManager.Jobs.{deref, send_to_worker, send_to_workers, send_job}

abbrev pub is_eligible : WorkerInfo → Bool
is_eligible info = info.subscribed && info.authorized

abbrev pub output_to : Table Connection → Option ℕ → Text → List Output
output_to heap none msg = []
output_to heap (some a) msg = output_at (find a heap) msg

-- The writes of a broadcast: one line to each worker that is subscribed and authorized.
unfoldable pub broadcast : Table Connection → Text → Table WorkerInfo → List Output
broadcast heap msg [] = []
broadcast heap msg ((fd, info) ∷ rest) =
    (if is_eligible info then output_to heap info.conn msg else []) ++ broadcast heap msg rest

eligible_tests :
    (info : WorkerInfo)
    → is_eligible info ≡ true
    → (not info.subscribed || not info.authorized) ≡ false
eligible_tests info e = ground arith

ineligible_tests :
    (info : WorkerInfo)
    → is_eligible info ≡ false
    → (not info.subscribed || not info.authorized) ≡ true
ineligible_tests info e = ground arith

module _ ⦃p : Platform⦄ where
  abbrev pub PointsTo : World → Option ℕ → Type 0
  PointsTo w none = ⊥
  PointsTo w (some a) = (c : Connection) × (find a w.heap ≡ some c)

  -- The pointers of the workers that jobs go to are good.
  abbrev pub IsLive : World → Table WorkerInfo → Type 0
  IsLive w ws = All (λ e. is_eligible e.1 ≡ true → PointsTo w e.1.conn) ws

  output_to-Quiet :
      (w w' : World) (o : Option ℕ) (msg : Text)
      → Quiet w w'
      → output_to w'.heap o msg ≡ output_to w.heap o msg
  output_to-Quiet w w' none msg q = refl
  output_to-Quiet w w' (some a) msg q = output_at-unmarked _ _ msg (q.heap_same a)

  broadcast-Quiet :
      (w w' : World) (msg : Text) (ws : Table WorkerInfo)
      → Quiet w w'
      → broadcast w'.heap msg ws ≡ broadcast w.heap msg ws
  unfolding broadcast
  broadcast-Quiet w w' msg [] q = refl
  broadcast-Quiet w w' msg ((fd, info) ∷ rest) q =
      rw (output_to-Quiet w w' info.conn msg q, broadcast-Quiet w w' msg rest q)

  PointsTo-Quiet : (w w' : World) (o : Option ℕ) → Quiet w w' → PointsTo w o → PointsTo w' o
  PointsTo-Quiet w w' none q h = h
  PointsTo-Quiet w w' (some a) q (c, e) = let r = Quiet-find a c q e in (r.0, r.1)

  IsLive-Quiet : (w w' : World) (ws : Table WorkerInfo) → Quiet w w' → IsLive w ws → IsLive w' ws
  IsLive-Quiet w w' [] q h = tt
  IsLive-Quiet w w' ((fd, info) ∷ rest) q h =
      ((λ e. PointsTo-Quiet w w' info.conn q (h.0 e)), IsLive-Quiet w w' rest q h.1)

  -- The write to the connection behind a pointer.
  send_at :
      (w : World) (o : Option ℕ) (msg : Text)
      → PointsTo w o
      → Returns
          (λ _ w'. Quiet w w' × (w'.trace ≡ w.trace ++ output_to w.heap o msg))
          (and_then (deref o w) (λ a w'. and_then (send_line a msg w') (λ _ w''. ok tt w'')))
  send_at w none msg h = absurd h
  send_at w (some a) msg (c, e) =
      Returns-bind _ (send_line-Quiet a msg c w e)
        λ sent w' q. returns (q.0, q.1 ∙ ap (λ o. w.trace ++ output_at o msg) (sym e))

  send_to_worker-Returns :
      (w : World) (msg : Text) (info : WorkerInfo)
      → (is_eligible info ≡ true → PointsTo w info.conn)
      → Returns
          (λ _ w'.
            Quiet w w'
            × (w'.trace
                ≡ w.trace ++ (if is_eligible info then output_to w.heap info.conn msg else [])))
          (send_to_worker msg info w)
  unfolding send_to_worker
  send_to_worker-Returns w msg info h = elim (Bool-cases (is_eligible info)) [
    | inl e ↦ rw (e, send_to_worker) (rw (eligible_tests info e) (send_at w info.conn msg (h e)))
    | inr e ↦ rw (e, ineligible_tests info e) (returns (Quiet-refl w, sym (append-nil w.trace)))
  ]

  send_to_workers-Returns :
      (w : World) (msg : Text) (ws : Table WorkerInfo)
      → IsLive w ws
      → Returns
          (λ _ w'. Quiet w w' × (w'.trace ≡ w.trace ++ broadcast w.heap msg ws))
          (send_to_workers msg ws w)
  unfolding send_to_workers broadcast
  send_to_workers-Returns w msg [] h = returns (Quiet-refl w, sym (append-nil w.trace))
  send_to_workers-Returns w msg ((fd, info) ∷ rest) h =
      Returns-bind _ (send_to_worker-Returns w msg info h.0) λ _ w' q.
        Returns-mono (send_to_workers-Returns w' msg rest (IsLive-Quiet w w' rest q.0 h.1))
          λ _ w'' r. (
            Quiet-trans q.0 r.0,
            r.1
                ∙ ap (λ (o : List Output). w'.trace ++ o) (broadcast-Quiet w w' msg rest q.0)
                ∙ ap (λ (t : List Output). t ++ broadcast w.heap msg rest) q.1
                ∙ append_assoc w.trace
                    (if is_eligible info then output_to w.heap info.conn msg else [])
                    (broadcast w.heap msg rest),
          )

  pub send_job-broadcast :
      (job : Job) (w : World)
      → IsLive w w.worker_manager.workers
      → Returns
          (λ _ w'.
            (w'.trace ≡ w.trace ++ broadcast w.heap (job_message job) w.worker_manager.workers)
            × (w'.worker_manager ≡ record w.worker_manager { current_job = job; has_job = true })
            × (w'.loop ≡ w.loop)
            × (w'.pool_manager ≡ w.pool_manager))
          (send_job job w)
  unfolding send_job
  send_job-broadcast job w h =
      Returns-mono
        (send_to_workers-Returns
          (record w {
            worker_manager = record w.worker_manager { current_job = job; has_job = true };
          })
          (job_message job) w.worker_manager.workers h)
        λ _ w' r. (r.1, r.0.worker_same, r.0.loop_same, r.0.pool_same)

  -- A pointer that some worker's jobs go through, to a connection that is deleted.
  abbrev pub Dangles : World → Table WorkerInfo → Type 0
  Dangles w [] = ⊥
  Dangles w ((fd, info) ∷ rest) =
      ((a : ℕ) × (is_eligible info ≡ true) × (info.conn ≡ some a) × (find a w.heap ≡ none))
      ⊎ Dangles w rest

  send_line-faults :
      (a : ℕ) (line : Text) (w : World) → find a w.heap ≡ none → send_line a line w ≡ faults
  unfolding send_line
  send_line-faults a line w h = rw (load-none a w h)

  send_at-cases :
      (w : World) (o : Option ℕ) (msg : Text)
      → let r = and_then (deref o w) (λ a w'. and_then (send_line a msg w') (λ _ w''. ok tt w'')) in
        (r ≡ faults) ⊎ Returns (λ _ w'. Quiet w w') r
  send_at-cases w none msg = inl refl
  send_at-cases w (some a) msg = elim (Option-cases (find a w.heap)) [
    | inl gone ↦ inl (rw (send_line-faults a msg w gone))
    | inr (c, e) ↦ inr (Returns-mono (send_at w (some a) msg (c, e)) (λ _ w' q. q.0))
  ]

  send_to_worker-cases :
      (w : World) (msg : Text) (info : WorkerInfo)
      → (send_to_worker msg info w ≡ faults)
        ⊎ Returns (λ _ w'. Quiet w w') (send_to_worker msg info w)
  unfolding send_to_worker
  send_to_worker-cases w msg info = elim (Bool-cases (is_eligible info)) [
    | inl e ↦ rw (eligible_tests info e) (send_at-cases w info.conn msg)
    | inr e ↦ inr (rw (ineligible_tests info e) (returns (Quiet-refl w)))
  ]

  send_to_worker-faults :
      (w : World) (msg : Text) (info : WorkerInfo) (a : ℕ)
      → is_eligible info ≡ true
      → info.conn ≡ some a
      → find a w.heap ≡ none
      → send_to_worker msg info w ≡ faults
  unfolding send_to_worker
  send_to_worker-faults w msg info a e o gone =
      rw (eligible_tests info e, o, send_line-faults a msg w gone)

  Dangles-Quiet : (w w' : World) (ws : Table WorkerInfo) → Quiet w w' → Dangles w ws → Dangles w' ws
  Dangles-Quiet w w' [] q h = h
  Dangles-Quiet w w' (e ∷ rest) q (inl (a, t, o, gone)) = inl (a, t, o, Quiet-find-none a q gone)
  Dangles-Quiet w w' (e ∷ rest) q (inr h) = inr (Dangles-Quiet w w' rest q h)

  -- It is enough that one pointer dangles.
  send_to_workers-faults :
      (w : World) (msg : Text) (ws : Table WorkerInfo)
      → Dangles w ws
      → send_to_workers msg ws w ≡ faults
  unfolding send_to_workers
  send_to_workers-faults w msg [] h = absurd h
  send_to_workers-faults w msg ((fd, info) ∷ rest) (inl (a, e, o, gone)) =
      rw (send_to_worker-faults w msg info a e o gone)
  send_to_workers-faults w msg ((fd, info) ∷ rest) (inr h) =
      elim (send_to_worker-cases w msg info) [
        | inl e ↦ rw e
        | inr r ↦
            Returns-faults _ r
              (λ _ w' q. send_to_workers-faults w' msg rest (Dangles-Quiet w w' rest q h))
      ]

  -- A broadcast is undefined behaviour as soon as a subscribed and authorized worker is left whose
  -- connection is deleted.
  pub send_job-faults :
      (job : Job) (w : World) → Dangles w w.worker_manager.workers → send_job job w ≡ faults
  unfolding send_job
  send_job-faults job w h = send_to_workers-faults _ (job_message job) w.worker_manager.workers h
