-- ===== src/Owned/Workers.antt =====
-- gpu-proxy-cpp/src/worker_manager.cpp: every method of the worker manager keeps the connections owned.
use compute_market.Base.{
  true, ℕ, [], ◌∷◌, List, Option, none, some, Option-cases, inl, inr, ◌≡◌, refl,
}
use compute_market.Base.Text.{Text}
use compute_market.Base.Table.{Table, find}
use compute_market.Platform.{Platform, Peer}
use compute_market.World.{
  ConnectionState, connecting, connected, authenticated, error, disconnected, Job, WorkerInfo,
  WorkerManager, M, done, pure, ◌>>=◌, match_option, store, load, ◌>>◌, or_throw,
}
use compute_market.Outcome.{load-some}
use compute_market.Stratum.{
  StratumRequest, StratumMethod, subscribe, authorize, submit, login, monero_submit,
}
use compute_market.WorkerManager.Jobs.{
  ShareCallback, deref, close_worker, send_to_worker, send_to_workers, send_job, resend_job,
}
use compute_market.WorkerManager.Accept.{
  start_listening, start, register_worker, welcome, accept_worker, forget_worker, on_worker_state,
}
use compute_market.WorkerManager.Requests.{
  known_worker, handle_subscribe, authorize_name, handle_authorize, login_name, handle_login,
  read_share, text_member, monero_share, array_share, handle_submit, dispatch_request,
  on_worker_message,
}
use compute_market.EventLoop.Tables.{add_connection, get_connection}
use compute_market.Owned.{Keeps}
use compute_market.Owned.Tables.{written}
use compute_market.Owned.Rules.{
  owning, own_bind, own_then, own_done, own_pure, own_fault, own_option, own_or_throw, own_if,
  own_catching, own_read, own_get_worker_manager,
}
use compute_market.Owned.Pending.{Opens, open_bind, own_opened, own_pending, open_then}
use compute_market.Owned.Connections.{own_mark, own_send_line, open_new_connection}
use compute_market.Owned.Loop.{own_get_connection, own_set_timeout}
use compute_market.Owned.Closing.{open_add_connection}

module _ ⦃p : Platform⦄ where
  own_deref : (o : Option ℕ) → Keeps none [] (deref o)
  own_deref none = own_fault
  own_deref (some a) = own_pure a

  own_close_worker : (info : WorkerInfo) → Keeps none [] (close_worker info)
  unfolding close_worker
  own_close_worker info = search (owning, own_deref, own_mark) depth 9

  own_send_to_worker : (msg : Text) (info : WorkerInfo) → Keeps none [] (send_to_worker msg info)
  unfolding send_to_worker
  own_send_to_worker msg info = search (owning, own_deref, own_send_line) depth 9

  own_send_to_workers :
      (msg : Text) (ws : Table WorkerInfo) → Keeps none [] (send_to_workers msg ws)
  unfolding send_to_workers
  own_send_to_workers msg [] = own_done
  own_send_to_workers msg ((fd, info) ∷ rest) =
      own_then (own_send_to_worker msg info) (own_send_to_workers msg rest)

  pub own_send_job : (job : Job) → Keeps none [] (send_job job)
  unfolding send_job
  own_send_job job = search (owning, own_send_to_workers) depth 9

  own_resend_job : Keeps none [] resend_job
  unfolding resend_job
  own_resend_job = search (owning, own_send_job) depth 9

  own_register_worker : (fd : ℕ) (conn : Option ℕ) → Keeps none [] (register_worker fd conn)
  unfolding register_worker
  own_register_worker fd conn = search owning depth 9

  -- A worker's connection is made, gets its callbacks and goes to the loop.
  own_welcome : (peer : Peer) → Keeps none [] (welcome peer)
  unfolding welcome store
  own_welcome peer = own_opened (open_bind (open_new_connection peer.fd _ _) listed)
    where
      registered :
          Keeps none []
            (get_connection peer.fd >>= λ conn. register_worker peer.fd conn >> resend_job)
      registered = search (owning, own_get_connection, own_register_worker, own_resend_job) depth 9

      listed :
          (a : ℕ)
          → Opens
              (some a)
              (λ _. none)
              (load a >>= λ c.
                store a (record c { has_callbacks = true })
                >> (add_connection a
                    >> (get_connection peer.fd >>= λ conn.
                        register_worker peer.fd conn >> resend_job)))
      listed a = record {
        apply = λ w o.
            let (c, e) = o.pending a refl in
            rw (load-some a c w e) (
              (open_then (open_add_connection a) (own_pending registered)).apply _
                (written o a (record c { has_callbacks = true }) (c, e, refl)));
      }

  pub own_accept_worker : Keeps none [] accept_worker
  unfolding accept_worker
  own_accept_worker = search (owning, own_welcome) depth 12

  own_start_listening : (m : WorkerManager) → Keeps none [] (start_listening m)
  unfolding start_listening
  own_start_listening m = search (owning, own_set_timeout) depth 30

  pub own_worker_start : Keeps none [] start
  unfolding start
  own_worker_start = own_bind own_get_worker_manager own_start_listening

  own_forget_worker : (fd : ℕ) → Keeps none [] (forget_worker fd)
  unfolding forget_worker
  own_forget_worker fd = search owning depth 9

  pub own_on_worker_state : (a : ℕ) (s : ConnectionState) → Keeps none [] (on_worker_state a s)
  unfolding on_worker_state
  own_on_worker_state a error = own_read a (λ c. own_forget_worker c.fd)
  own_on_worker_state a disconnected = own_read a (λ c. own_forget_worker c.fd)
  own_on_worker_state a connected = own_read a (λ c. own_done)
  own_on_worker_state a connecting = own_read a (λ c. own_done)
  own_on_worker_state a authenticated = own_read a (λ c. own_done)

  own_known_worker :
      (a : ℕ) (body : ℕ → WorkerInfo → M (Unit {0}))
      → ((fd : ℕ) (info : WorkerInfo) → Keeps none [] (body fd info))
      → Keeps none [] (known_worker a body)
  own_known_worker a body h =
      own_read a
        λ c. own_bind own_get_worker_manager λ m. own_option (find c.fd m.workers) own_done (h c.fd)

  own_handle_subscribe : (a : ℕ) (req : StratumRequest) → Keeps none [] (handle_subscribe a req)
  unfolding handle_subscribe
  own_handle_subscribe a req =
      own_known_worker a _ λ fd info. search (owning, own_send_line, own_resend_job) depth 12

  own_authorize_name : (v : p.V) → Keeps none [] (authorize_name v)
  unfolding authorize_name
  own_authorize_name v = own_if (p.is_array v) (first (p.elements v)) (own_pure [])
    where
      first :
          (vs : List p.V)
          → Keeps {A = Text} none []
              (elim vs [ [] ↦ pure [] | x ∷ rest ↦ or_throw (p.get_string x) ])
      first [] = own_pure []
      first (x ∷ rest) = own_or_throw (p.get_string x)

  own_handle_authorize : (a : ℕ) (req : StratumRequest) → Keeps none [] (handle_authorize a req)
  unfolding handle_authorize
  own_handle_authorize a req =
      own_known_worker a _
        λ fd info. search (owning, own_authorize_name, own_send_line, own_close_worker) depth 15

  own_login_name : (v : p.V) → Keeps none [] (login_name v)
  unfolding login_name
  own_login_name v = search owning depth 9

  own_handle_login : (a : ℕ) (req : StratumRequest) → Keeps none [] (handle_login a req)
  unfolding handle_login
  own_handle_login a req =
      own_known_worker a _
        λ fd info. search (owning, own_login_name, own_send_line, own_close_worker) depth 15

  own_array_share : (vs : List p.V) → Keeps none [] (array_share vs)
  unfolding array_share
  own_array_share [] = own_pure _
  own_array_share (a ∷ []) = own_pure _
  own_array_share (a ∷ b ∷ []) = own_pure _
  own_array_share (a ∷ b ∷ c ∷ []) = own_pure _
  own_array_share (a ∷ b ∷ c ∷ d ∷ rest) = search owning depth 12

  own_monero_share : (v : p.V) → Keeps none [] (monero_share v)
  unfolding monero_share text_member
  own_monero_share v = search owning depth 15

  own_read_share : (method : StratumMethod) (v : p.V) → Keeps none [] (read_share method v)
  unfolding read_share
  own_read_share method v =
      own_if _ (own_monero_share v) (own_if _ (own_array_share (p.elements v)) (own_pure _))

module _ ⦃p : Platform⦄ (share_cb : ShareCallback)
    (tame : (submit_to_pool : Text → Text → Text → Text → M (Unit {0}))
      → share_cb ≡ some submit_to_pool
      → (w j n r : Text) → Keeps none [] (submit_to_pool w j n r)) where
  own_forward :
      (w j n r : Text)
      → Keeps none [] (match_option share_cb done λ submit_to_pool. submit_to_pool w j n r)
  own_forward w j n r = elim (Option-cases share_cb) [
    | inl e ↦ rw e own_done
    | inr (f, e) ↦ rw e (tame f e w j n r)
  ]

  own_handle_submit : (a : ℕ) (req : StratumRequest) → Keeps none [] (handle_submit share_cb a req)
  unfolding handle_submit
  own_handle_submit a req = own_known_worker a _ λ fd info.
      own_bind (own_read_share req.method req.params) λ share.
        own_bind (own_send_line a _)
          λ _. own_forward share.worker_id share.job_id share.nonce share.result

  own_dispatch_request :
      (a : ℕ) (method : StratumMethod) (req : StratumRequest)
      → Keeps none [] (dispatch_request share_cb a method req)
  unfolding dispatch_request
  own_dispatch_request a subscribe req = own_handle_subscribe a req
  own_dispatch_request a authorize req = own_handle_authorize a req
  own_dispatch_request a login req = own_handle_login a req
  own_dispatch_request a submit req = own_handle_submit a req
  own_dispatch_request a monero_submit req = own_handle_submit a req
  own_dispatch_request a _ req = own_done

  pub own_on_worker_message :
      (a : ℕ) (line : Text) → Keeps none [] (on_worker_message share_cb a line)
  unfolding on_worker_message
  own_on_worker_message a line = own_catching (own_read a λ c. own_dispatch_request a _ _)
