-- ===== src/Tests/Cases.antt =====
-- The theorems about the managers and the proxy at the worlds of `Demo`.
use compute_market.Base.{
  ℕ, ◌+◌, ◌≡◌, refl, true, false, [], ◌∷◌, ◌++◌, ◌⊎◌, inl, ◌↔◌, arith, Any, if◌then◌else◌,
}
use compute_market.Base.Text.{Text, text, text_eq}
use compute_market.Proxy.{pool_callbacks, connection_callbacks, new_world, new_worker_manager}
use compute_market.Base.Table.{find}
use compute_market.Platform.{PollFd}
use compute_market.World.{
  ConnectionState, ConnectionType, World, Result, ok, throws, faults, and_then, share_response,
  Connection,
}
use compute_market.Outcome.{Returns, Ends}
use compute_market.Preserve.{Preserves}
use compute_market.Stratum.{StratumResponse, StratumRequest, authorize, login}
use compute_market.Connection.Sending.{written}
use compute_market.EventLoop.Tables.{set_timeout}
use compute_market.EventLoop.Poll.{process_event, cleanup_closed}
use compute_market.EventLoop.Closing.{SameManagers, IsGone, IsMarked}
use compute_market.PoolManager.{
  on_pool_state, on_pool_message, submit_share, on_connection_lost, schedule_reconnect,
}
use compute_market.PoolManager.Messages.{submit_message}
use compute_market.PoolManager.Responses.{handle_response}
use compute_market.PoolManager.Invariant.{IsSound, Sound}
use compute_market.PoolManager.Preservation.{on_pool_message-IsSound}
use compute_market.PoolManager.Shares.{CanSubmit, tracked, line_to, submit_share-Returns}
use compute_market.WorkerManager.Jobs.{send_job, allowed}
use compute_market.WorkerManager.Messages.{authorize_response}
use compute_market.WorkerManager.Broadcast.{send_job-faults}
use compute_market.Proxy.Hangup.{hangup-SameManagers, hangup-send_job}
use compute_market.Proxy.Reachable.{
  Reach, initially, event, run_event, state_changed, pool_callbacks-Tame, Reach-IsSound, Anything,
  Anything-Grows,
}
use compute_market.Proxy.Shares.{submit_share-handle_response}
use compute_market.Proxy.Whitelist.{allowed-new_worker_manager}
use compute_market.WorkerManager.Requests.{
  handle_authorize, handle_login, authorize_name, login_name, login_answer,
}
use compute_market.WorkerManager.Admission.{
  Replaces, handle_authorize-Returns, handle_login-Returns,
}
use compute_market.Tests.Demo.{
  words, field, item, no_items, no_fields, demo, mining, open_connection_at, whitelist, two_pools,
  rig, some_job, share_result, first_pool, nothing,
}

allowed-new_worker_manager_example :
    (allowed (new_worker_manager ⦃p = demo⦄ 4444 whitelist) (text "rig") ≡ true)
    ↔ ((whitelist ≡ []) ⊎ Any (λ c. c.id ≡ text "rig") whitelist)
allowed-new_worker_manager_example =
    allowed-new_worker_manager ⦃p = demo⦄ 4444 whitelist (text "rig")

-- The same proxy when the connection of the worker is deleted.
abbrev hung_up : World ⦃p = demo⦄
hung_up = record mining { heap = (0, open_connection_at 7 ConnectionType.pool) ∷ [] }

send_job-faults_example : send_job ⦃p = demo⦄ some_job hung_up ≡ faults
unfolding find
send_job-faults_example = send_job-faults ⦃p = demo⦄ some_job hung_up (inl (1, refl, refl, refl))

abbrev hangup : PollFd
hangup = record { fd = 8; pollin = false; pollout = false; pollerr = false; pollhup = true }

hangup-SameManagers_example :
    Ends ⦃p = demo⦄
      (λ w'. SameManagers ⦃p = demo⦄ mining w' × IsGone ⦃p = demo⦄ 1 w')
      (λ _. ⊥)
      (and_then ⦃p = demo⦄
        (process_event ⦃p = demo⦄ (connection_callbacks ⦃p = demo⦄) hangup mining)
        (λ _. cleanup_closed ⦃p = demo⦄))
unfolding find
hangup-SameManagers_example =
    hangup-SameManagers ⦃p = demo⦄ (connection_callbacks ⦃p = demo⦄) hangup 1 mining refl refl

hangup-send_job_example :
    and_then ⦃p = demo⦄
      (and_then ⦃p = demo⦄
        (process_event ⦃p = demo⦄ (connection_callbacks ⦃p = demo⦄) hangup mining)
        (λ _. cleanup_closed ⦃p = demo⦄))
      (λ _. send_job ⦃p = demo⦄ some_job)
    ≡ faults
unfolding find
hangup-send_job_example =
    hangup-send_job ⦃p = demo⦄ (connection_callbacks ⦃p = demo⦄) hangup 1 some_job mining refl refl
      (inl ((refl, refl)))

abbrev can_submit : CanSubmit ⦃p = demo⦄ mining
unfolding find
can_submit = record {
  up = refl;
  working = refl;
  id_left = omega arith;
  config = first_pool;
  configured = refl;
  address = 0;
  pool = open_connection_at 7 ConnectionType.pool;
  reached = refl;
  alive = refl;
  ready = refl;
}

abbrev share_message : Text
share_message = submit_message 2 (text "rig") (text "j1") (text "00ff") (text "beef")

submit_share-Returns_example :
    Returns ⦃p = demo⦄
      (λ _ w'.
        (w'.pool_manager ≡ tracked mining.pool_manager (text "rig"))
        × (w'.trace ≡ [] ++ line_to (open_connection_at 7 ConnectionType.pool) share_message ∷ [])
        × (w'.worker_manager ≡ mining.worker_manager)
        × (w'.loop ≡ mining.loop))
      (submit_share ⦃p = demo⦄ (text "rig") (text "j1") (text "00ff") (text "beef") mining)
unfolding can_submit
submit_share-Returns_example =
    submit_share-Returns ⦃p = demo⦄ (text "rig") (text "j1") (text "00ff") (text "beef") mining
      can_submit

abbrev accepted_answer : StratumResponse ⦃p = demo⦄
accepted_answer = record { id = 2; result = share_result; error = nothing }

submit_share-handle_response_example :
    Returns ⦃p = demo⦄
      (λ _ w'.
        (w'.trace
          ≡ ([] ++ line_to (open_connection_at 7 ConnectionType.pool) share_message ∷ [])
            ++ share_response (text "rig") true [] ∷ [])
        × ((k : ℕ) → find k w'.pool_manager.share_to_worker ≡ find k [])
        × (w'.pool_manager.next_id ≡ 2 + 1))
      (and_then ⦃p = demo⦄
        (submit_share ⦃p = demo⦄ (text "rig") (text "j1") (text "00ff") (text "beef") mining)
        (λ _. handle_response ⦃p = demo⦄ (pool_callbacks ⦃p = demo⦄) accepted_answer))
unfolding can_submit
submit_share-handle_response_example =
    submit_share-handle_response ⦃p = demo⦄ (text "rig") (text "j1") (text "00ff") (text "beef") []
      accepted_answer mining can_submit refl tt refl refl refl refl

on_pool_message-IsSound_example :
    Preserves ⦃p = demo⦄
      (Sound two_pools Anything)
      (on_pool_message ⦃p = demo⦄ (pool_callbacks ⦃p = demo⦄) (text "{"))
on_pool_message-IsSound_example =
    on_pool_message-IsSound ⦃p = demo⦄ {pools = two_pools}
      (pool_callbacks-Tame ⦃p = demo⦄ {pools = two_pools}) Anything-Grows (text "{")

-- The proxy after it has lost its pool.
abbrev world_of : Result ⦃p = demo⦄ (Unit {0}) → World ⦃p = demo⦄
world_of (ok a w) = w
world_of (throws w) = w
world_of faults = mining

abbrev lost : World ⦃p = demo⦄
lost = world_of (
    run_event ⦃p = demo⦄ (state_changed ConnectionState.disconnected)
      (new_world ⦃p = demo⦄ two_pools 4444 whitelist 3))

lost-Reach : Reach ⦃p = demo⦄ two_pools lost
unfolding run_event on_pool_state on_connection_lost schedule_reconnect new_world set_timeout
lost-Reach = event (state_changed ConnectionState.disconnected) (initially 4444 whitelist 3) refl

Reach-IsSound_example : IsSound two_pools lost.pool_manager
Reach-IsSound_example = Reach-IsSound ⦃p = demo⦄ {pools = two_pools} {w = lost} lost-Reach

abbrev rig_connection : Connection
rig_connection = open_connection_at 8 ConnectionType.worker

abbrev authorize_request : StratumRequest ⦃p = demo⦄
authorize_request = record {
  id = 5;
  method = authorize;
  params = item (words (text "stranger")) no_items;
}

handle_authorize-Returns_example :
    Returns ⦃p = demo⦄
      (λ _ w'.
        Replaces 8
          (if allowed mining.worker_manager (text "stranger")
            then record rig { worker_id = text "stranger"; authorized = true }
            else record rig { worker_id = text "stranger" })
          mining.worker_manager.workers
          w'.worker_manager.workers
        × (w'.trace
            ≡ []
              ++ written rig_connection
                  (authorize_response 5 (allowed mining.worker_manager (text "stranger"))))
        × (allowed mining.worker_manager (text "stranger") ≡ false → IsMarked ⦃p = demo⦄ 1 w'))
      (handle_authorize ⦃p = demo⦄ 1 authorize_request mining)
unfolding find authorize_name
handle_authorize-Returns_example =
    handle_authorize-Returns ⦃p = demo⦄ 1 authorize_request (text "stranger") rig_connection rig
      mining refl refl refl refl

abbrev login_request : StratumRequest ⦃p = demo⦄
login_request = record {
  id = 6;
  method = login;
  params = field (text "login") (words (text "rig")) no_fields;
}

handle_login-Returns_example :
    Returns ⦃p = demo⦄
      (λ _ w'.
        Replaces 8
          (if allowed mining.worker_manager (text "rig")
            then record rig { worker_id = text "rig"; subscribed = true; authorized = true }
            else record rig { worker_id = text "rig" })
          mining.worker_manager.workers
          w'.worker_manager.workers
        × (w'.trace
            ≡ [] ++ written rig_connection (login_answer ⦃p = demo⦄ mining.worker_manager 6 8))
        × (allowed mining.worker_manager (text "rig") ≡ false → IsMarked ⦃p = demo⦄ 1 w'))
      (handle_login ⦃p = demo⦄ 1 login_request mining)
unfolding find login_name text_eq text
handle_login-Returns_example =
    handle_login-Returns ⦃p = demo⦄ 1 login_request (text "rig") rig_connection rig mining refl refl
      refl refl
