-- ===== src/Proxy/Hangup.antt =====
-- gpu-proxy-cpp/src/event_loop.cpp with the two managers: what a hangup or an error of a socket leads
-- to. The loop marks the connection and deletes it, and calls no callback.
use compute_market.Base.{
  ℕ, ◌≡◌, refl, ap, ◌∙◌, true, ◌||◌, [], ◌∷◌, some, ◌⊎◌, inl, inr, Option-cases,
}
use compute_market.Base.Table.{Table, find, find-assign_self}
use compute_market.Platform.{Platform, PollFd}
use compute_market.World.{Job, WorkerInfo, World, faults, and_then, store}
use compute_market.Outcome.{
  Ends, ends_ok, ends_faults, Ends-bind, Ends-mono, Ends-faults, load-some, load-none,
}
use compute_market.Connection.State.{mark_for_closing}
use compute_market.EventLoop.Poll.{ConnectionCallbacks, cleanup_closed, process_event}
use compute_market.EventLoop.Tables.{get_connection}
use compute_market.EventLoop.Closing.{
  SameManagers, SameManagers-trans, IsGone, IsMarked, close_marked-IsGone,
}
use compute_market.WorkerManager.Jobs.{send_job}
use compute_market.WorkerManager.Broadcast.{is_eligible, Dangles, send_job-faults}

-- Some worker that jobs go to has its pointer at this address.
abbrev pub Serves : ℕ → Table WorkerInfo → Type 0
Serves a [] = ⊥
Serves a ((fd, info) ∷ rest) = ((is_eligible info ≡ true) × (info.conn ≡ some a)) ⊎ Serves a rest

module _ ⦃p : Platform⦄ where
  Serves-Dangles :
      (a : ℕ) (w : World) (ws : Table WorkerInfo) → IsGone a w → Serves a ws → Dangles w ws
  Serves-Dangles a w [] g h = h
  Serves-Dangles a w (e ∷ rest) g (inl (t, o)) = inl (a, t, o, g)
  Serves-Dangles a w (e ∷ rest) g (inr h) = inr (Serves-Dangles a w rest g h)

  -- What marking a connection does.
  record Marks (fd a : ℕ) (w w' : World) : Type 0 where
    same : SameManagers w w'
    listed : w'.loop.connections ≡ w.loop.connections
    marked : IsMarked a w'

  mark-Marks : (fd a : ℕ) (w : World) → Ends (Marks fd a w) (λ _. ⊥) (mark_for_closing a w)
  unfolding mark_for_closing store
  mark-Marks fd a w = elim (Option-cases (find a w.heap)) [
    | inl gone ↦ rw (load-none a w gone) ends_faults
    | inr (c, e) ↦ rw (load-some a c w e) (
        ends_ok (record {
          same = record { pool_same = refl; worker_same = refl; timeouts_same = refl };
          listed = refl;
          marked = (record c { should_close = true }, find-assign_self a _ w.heap, refl);
        }))
  ]

  -- The event of a socket with an error or a hangup.
  hangup-Marks :
      (cbs : ConnectionCallbacks) (pfd : PollFd) (a : ℕ) (w : World)
      → (pfd.pollerr || pfd.pollhup) ≡ true
      → find pfd.fd w.loop.connections ≡ some a
      → Ends (Marks pfd.fd a w) (λ _. ⊥) (process_event cbs pfd w)
  unfolding process_event get_connection
  hangup-Marks cbs pfd a w e h = rw (h, process_event, e) (mark-Marks pfd.fd a w)

  -- A connection with a hangup or an error is deleted in the same round, and neither manager hears of
  -- it: the pool stays "connected", no reconnection is scheduled, and no worker is removed, unless the
  -- round comes to undefined behaviour.
  pub hangup-SameManagers :
      (cbs : ConnectionCallbacks) (pfd : PollFd) (a : ℕ) (w : World)
      → (pfd.pollerr || pfd.pollhup) ≡ true
      → find pfd.fd w.loop.connections ≡ some a
      → Ends
          (λ w'. SameManagers w w' × IsGone a w')
          (λ _. ⊥)
          (and_then (process_event cbs pfd w) (λ _. cleanup_closed))
  unfolding cleanup_closed
  hangup-SameManagers cbs pfd a w e h = Ends-bind _ (hangup-Marks cbs pfd a w e h) λ _ w' m.
      Ends-mono
        (close_marked-IsGone pfd.fd a w'.loop.connections w' (ap (find pfd.fd) m.listed ∙ h)
          (inr m.marked))
        (λ w'' k. (SameManagers-trans m.same k.0, k.1)) (λ w'' x. x)

  -- After the hangup of a worker that is subscribed and authorized, the next broadcast of a job is
  -- undefined behaviour: its record still points to the deleted connection.
  pub hangup-send_job :
      (cbs : ConnectionCallbacks) (pfd : PollFd) (a : ℕ) (job : Job) (w : World)
      → (pfd.pollerr || pfd.pollhup) ≡ true
      → find pfd.fd w.loop.connections ≡ some a
      → Serves a w.worker_manager.workers
      → and_then (and_then (process_event cbs pfd w) (λ _. cleanup_closed)) (λ _. send_job job)
        ≡ faults
  hangup-send_job cbs pfd a job w e h s =
      Ends-faults _ (hangup-SameManagers cbs pfd a w e h) λ _ w' q.
        send_job-faults job w'
          (Serves-Dangles a w' w'.worker_manager.workers q.1 (rw (q.0.worker_same) s))
