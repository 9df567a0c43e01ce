-- ===== src/WorkerManager/Admission.antt =====
-- gpu-proxy-cpp/src/worker_manager.cpp: what `authorize` and `login` do to the worker that sends them.
use compute_market.Base.{
  ℕ, ◌≡◌, ◌≢◌, refl, ap, sym, ◌∙◌, subst, Bool, true, false, ◌++◌, some, if◌then◌else◌,
}
use compute_market.Base.Text.{Text}
use compute_market.Base.Table.{Table, find, assign, find-assign_self, find-assign_ne}
use compute_market.Platform.{Platform}
use compute_market.World.{Connection, WorkerInfo, WorkerManager, World, and_then, pure, store}
use compute_market.Outcome.{Returns, returns, Returns-bind, Returns-mono, Quiet-find, load-some}
use compute_market.Stratum.{StratumRequest}
use compute_market.Connection.State.{mark_for_closing}
use compute_market.Connection.Io.{send_line}
use compute_market.Connection.Sending.{written, send_line-Quiet}
use compute_market.EventLoop.Closing.{IsMarked}
use compute_market.WorkerManager.Messages.{authorize_response}
use compute_market.WorkerManager.Jobs.{allowed, is_worker_allowed, close_worker}
use compute_market.WorkerManager.Requests.{
  update_worker, authorize_name, login_name, login_answer, handle_authorize, handle_login,
}

-- One record of the table has changed.
pub record Replaces (fd : ℕ) (info : WorkerInfo) (ws ws' : Table WorkerInfo) : Type 0 where
  pub here : find fd ws' ≡ some info
  pub elsewhere : (j : ℕ) → j ≢ fd → find j ws' ≡ find j ws

Replaces-assign :
    (fd : ℕ) (info : WorkerInfo) (ws : Table WorkerInfo) → Replaces fd info ws (assign fd info ws)
Replaces-assign fd info ws = record {
  here = find-assign_self fd info ws;
  elsewhere = λ j h. find-assign_ne fd j info ws (λ e. h (sym e));
}

Replaces-trans :
    {fd : ℕ} {info info' : WorkerInfo} {ws ws' ws'' : Table WorkerInfo}
    → Replaces fd info ws ws'
    → Replaces fd info' ws' ws''
    → Replaces fd info' ws ws''
Replaces-trans r s = record { here = s.here; elsewhere = λ j h. s.elsewhere j h ∙ r.elsewhere j h }

module _ ⦃p : Platform⦄ where
  update_worker-some :
      (fd : ℕ) (f : WorkerInfo → WorkerInfo) (info : WorkerInfo) (w : World)
      → find fd w.worker_manager.workers ≡ some info
      → Returns
          (λ _ w'.
            (w' ≡ record w {
              worker_manager = record w.worker_manager {
                workers = assign fd (f info) w.worker_manager.workers;
              };
            }))
          (update_worker fd f w)
  update_worker-some fd f info w h = rw h (returns refl)

  close_worker-marks :
      (info : WorkerInfo) (a : ℕ) (c : Connection) (w : World)
      → info.conn ≡ some a
      → find a w.heap ≡ some c
      → Returns
          (λ _ w'. IsMarked a w' × (w'.worker_manager ≡ w.worker_manager) × (w'.trace ≡ w.trace))
          (close_worker info w)
  unfolding close_worker mark_for_closing store
  close_worker-marks info a c w o h =
      rw (o, load-some a c w h)
        (returns
          ((record c { should_close = true }, find-assign_self a _ w.heap, refl), refl, refl))

  -- The end of both handlers: the worker is taken in, or its connection is marked.
  decide-Returns :
      (b : Bool) (fd : ℕ) (g : WorkerInfo → WorkerInfo) (now info : WorkerInfo) (a : ℕ)
      (c : Connection) (w : World)
      → find fd w.worker_manager.workers ≡ some now
      → info.conn ≡ some a
      → find a w.heap ≡ some c
      → Returns
          (λ _ w'.
            Replaces fd
              (if b then g now else now)
              w.worker_manager.workers
              w'.worker_manager.workers
            × (w'.trace ≡ w.trace)
            × (b ≡ false → IsMarked a w'))
          ((if b then update_worker fd g else close_worker info) w)
  decide-Returns true fd g now info a c w h o l =
      Returns-mono (update_worker-some fd g now w h) λ _ w' e. (
        rw e (Replaces-assign fd (g now) w.worker_manager.workers),
        ap (λ (v : World). v.trace) e,
        (λ q. cc),
      )
  decide-Returns false fd g now info a c w h o l =
      Returns-mono (close_worker-marks info a c w o l) λ _ w' q. (
        record {
          here = ap (λ (m : WorkerManager). find fd m.workers) q.1 ∙ h;
          elsewhere = λ j n. ap (λ (m : WorkerManager). find j m.workers) q.1;
        },
        q.2,
        (λ e. q.0),
      )

  -- The world in which the name is noted.
  abbrev noted : ℕ → WorkerInfo → World → World
  noted fd info w = record w {
    worker_manager = record w.worker_manager { workers = assign fd info w.worker_manager.workers };
  }

  answer-Returns :
      (b : Bool) (fd : ℕ) (g : WorkerInfo → WorkerInfo) (now info : WorkerInfo) (msg : Text) (a : ℕ)
      (c : Connection) (w : World)
      → info.conn ≡ some a
      → find a w.heap ≡ some c
      → Returns
          (λ _ w'.
            Replaces fd
              (if b then g now else now)
              w.worker_manager.workers
              w'.worker_manager.workers
            × (w'.trace ≡ w.trace ++ written c msg)
            × (b ≡ false → IsMarked a w'))
          (and_then
            (send_line a msg (noted fd now w))
            (λ _. if b then update_worker fd g else close_worker info))
  answer-Returns b fd g now info msg a c w o l =
      Returns-bind _ (send_line-Quiet a msg c (noted fd now w) l) λ _ w' q.
        let (d, e, _) = Quiet-find a c q.0 l in
        let same = ap (λ (m : WorkerManager). m.workers) q.0.worker_same in
        Returns-mono
          (decide-Returns b fd g now info a d w'
            (ap (find fd) same ∙ find-assign_self fd now w.worker_manager.workers) o e)
          λ _ w'' r. (
            Replaces-trans (Replaces-assign fd now w.worker_manager.workers) (
                subst (λ ws. Replaces fd (if b then g now else now) ws w''.worker_manager.workers)
                  same r.0),
            r.1 ∙ q.1,
            r.2,
          )

  -- A worker that is known, on a connection that is there, and whose first parameter is read as a
  -- name: `authorize` notes the name, answers with the whitelist's verdict, and either sets the
  -- authorization or marks the connection for closing. No other worker changes.
  pub handle_authorize-Returns :
      (a : ℕ) (req : StratumRequest) (name : Text) (c : Connection) (info : WorkerInfo) (w : World)
      → find a w.heap ≡ some c
      → find c.fd w.worker_manager.workers ≡ some info
      → info.conn ≡ some a
      → authorize_name req.params ≡ pure name
      → let ok_name = allowed w.worker_manager name in
        let named = record info { worker_id = name } in
        Returns
          (λ _ w'.
            Replaces c.fd
              (if ok_name then record named { authorized = true } else named)
              w.worker_manager.workers
              w'.worker_manager.workers
            × (w'.trace ≡ w.trace ++ written c (authorize_response req.id ok_name))
            × (ok_name ≡ false → IsMarked a w'))
          (handle_authorize a req w)
  unfolding handle_authorize allowed is_worker_allowed
  handle_authorize-Returns a req name c info w l h o r =
      rw (load-some a c w l, h, r, h)
        (answer-Returns (allowed w.worker_manager name) c.fd (λ i. record i { authorized = true })
          (record info { worker_id = name }) info _ a c w o l)

  -- A worker that is known, on a connection that is there, and whose `login` is read as a name: `login`
  -- notes the name, answers "OK" whatever the whitelist says, with the job if there is one, and either
  -- subscribes and authorizes the worker or marks the connection for closing. No other worker changes.
  pub handle_login-Returns :
      (a : ℕ) (req : StratumRequest) (name : Text) (c : Connection) (info : WorkerInfo) (w : World)
      → find a w.heap ≡ some c
      → find c.fd w.worker_manager.workers ≡ some info
      → info.conn ≡ some a
      → login_name req.params ≡ pure name
      → let ok_name = allowed w.worker_manager name in
        let named = record info { worker_id = name } in
        Returns
          (λ _ w'.
            Replaces c.fd
              (if ok_name then record named { subscribed = true; authorized = true } else named)
              w.worker_manager.workers
              w'.worker_manager.workers
            × (w'.trace ≡ w.trace ++ written c (login_answer w.worker_manager req.id c.fd))
            × (ok_name ≡ false → IsMarked a w'))
          (handle_login a req w)
  unfolding handle_login allowed is_worker_allowed login_answer
  handle_login-Returns a req name c info w l h o r =
      rw (load-some a c w l, h, r, h)
        (answer-Returns (allowed w.worker_manager name) c.fd
          (λ i. record i { subscribed = true; authorized = true })
          (record info { worker_id = name }) info _ a c w o l)
