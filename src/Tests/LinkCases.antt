-- ===== src/Tests/LinkCases.antt =====
-- The theorems about jobs and shares on their way and about ownership, at concrete worlds.
use compute_market.Base.{◌≡◌, refl, true, [], ◌∷◌, ◌++◌, some, arith}
use compute_market.Base.Table.{find}
use compute_market.Base.Text.{text, text_eq}
use compute_market.Platform.{Platform}
use compute_market.World.{ConnectionType, Job, World, and_then}
use compute_market.Outcome.{Ends, Returns}
use compute_market.Stratum.{read_id}
use compute_market.PoolManager.Traffic.{on_pool_message}
use compute_market.WorkerManager.Messages.{job_message}
use compute_market.WorkerManager.Broadcast.{broadcast}
use compute_market.WorkerManager.Requests.{on_worker_message}
use compute_market.PoolManager.Shares.{CanSubmit}
use compute_market.Proxy.{pool_callbacks, share_callback, start, new_world, run_proxy}
use compute_market.Preserve.{Preserves}
use compute_market.PoolManager.Invariant.{Sound}
use compute_market.WorkerManager.Invariant.{Serving}
use compute_market.WorkerManager.Serving.{on_worker_message-IsServing}
use compute_market.Proxy.Clock.{Listening, Listening-IsTimely}
use compute_market.Proxy.Running.{keep_share_callback}
use compute_market.Proxy.Jobs.{Announces, on_pool_message-broadcast}
use compute_market.Proxy.Submissions.{Submits, Submitted, on_worker_message-Submitted}
use compute_market.Proxy.Ownership.{OwnsAll, run_proxy-OwnsAll}
use compute_market.Proxy.Teardown.{NoneAlive, destroy_proxy, run_proxy-destroy_proxy}
use compute_market.Tests.Demo.{
  Json, words, number, object_of, demo, mining, two_pools, whitelist, rig, open_connection_at,
  first_pool,
}

run_proxy-OwnsAll_example : Ends ⦃p = demo⦄ (OwnsAll ⦃p = demo⦄) (OwnsAll ⦃p = demo⦄) (
    and_then ⦃p = demo⦄
      (start ⦃p = demo⦄ (new_world ⦃p = demo⦄ two_pools 4444 whitelist 3))
      (λ _. run_proxy ⦃p = demo⦄ 7))
run_proxy-OwnsAll_example = run_proxy-OwnsAll ⦃p = demo⦄ two_pools 4444 whitelist 3 7

run_proxy-destroy_proxy_example :
    Ends ⦃p = demo⦄
      (λ w. Returns ⦃p = demo⦄ (λ _. NoneAlive ⦃p = demo⦄) (destroy_proxy ⦃p = demo⦄ w))
      (λ w. Returns ⦃p = demo⦄ (λ _. NoneAlive ⦃p = demo⦄) (destroy_proxy ⦃p = demo⦄ w))
      (and_then ⦃p = demo⦄
        (start ⦃p = demo⦄ (new_world ⦃p = demo⦄ two_pools 4444 whitelist 3))
        (λ _. run_proxy ⦃p = demo⦄ 7))
run_proxy-destroy_proxy_example = run_proxy-destroy_proxy ⦃p = demo⦄ two_pools 4444 whitelist 3 7

abbrev job_params : Json
job_params = object_of (
    ("job_id", words (text "j2"))
    ∷ ("blob", words (text "0808"))
    ∷ ("target", words (text "00ff"))
    ∷ ("height", number 13)
    ∷ [])

abbrev job_object : Json
job_object = object_of (("method", words (text "job")) ∷ ("params", job_params) ∷ [])

-- Every line announces this job.
abbrev announcing : Platform
announcing = record demo { parse = λ line. some job_object }

announces : Announces ⦃p = announcing⦄ (text "{") (text "j2") (text "0808") (text "00ff") 13
unfolding text text_eq read_id
announces = record {
  id = 0;
  params = job_params;
  request = record {
    json = job_object;
    method_value = words (text "job");
    parsed = refl;
    has_id = refl;
    has_method = refl;
    named = refl;
    has_params = refl;
  };
  id_value = words (text "j2");
  blob_value = words (text "0808");
  target_value = words (text "00ff");
  height_value = number 13;
  has_job_id = refl;
  has_blob = refl;
  has_target = refl;
  has_height = refl;
  job_id_read = refl;
  blob_read = refl;
  target_read = refl;
  height_read = refl;
}

abbrev told : World ⦃p = announcing⦄
told = record {
  heap = mining.heap;
  next_address = mining.next_address;
  loop = mining.loop;
  pool_manager = mining.pool_manager;
  worker_manager = mining.worker_manager;
  os = mining.os;
  trace = mining.trace;
}

abbrev next_job : Job
next_job = record mining.pool_manager.current_job {
  job_id = text "j2";
  blob = text "0808";
  target = text "00ff";
  height = 13;
}

on_pool_message-broadcast_example :
    Returns ⦃p = announcing⦄
      (λ _ w'.
        (w'.trace ≡ [] ++ broadcast told.heap (job_message next_job) told.worker_manager.workers)
        × (w'.worker_manager
            ≡ record told.worker_manager { current_job = next_job; has_job = true })
        × (w'.loop ≡ told.loop)
        × (w'.pool_manager ≡ record told.pool_manager { current_job = next_job; has_job = true }))
      (on_pool_message ⦃p = announcing⦄ (pool_callbacks ⦃p = announcing⦄) (text "{") told)
unfolding find
on_pool_message-broadcast_example =
    on_pool_message-broadcast ⦃p = announcing⦄ announces told
      ((λ e. (open_connection_at 8 ConnectionType.worker, refl)), tt)

abbrev share_params : Json
share_params = object_of (
    ("id", words (text "rig"))
    ∷ ("job_id", words (text "j1"))
    ∷ ("nonce", words (text "00ff"))
    ∷ ("result", words (text "beef"))
    ∷ [])

abbrev share_object : Json
share_object =
    object_of (("id", number 4) ∷ ("method", words (text "submit")) ∷ ("params", share_params) ∷ [])

-- Every line submits this share.
abbrev submitting : Platform
submitting = record demo { parse = λ line. some share_object }

abbrev offered : World ⦃p = submitting⦄
offered = record {
  heap = mining.heap;
  next_address = mining.next_address;
  loop = mining.loop;
  pool_manager = mining.pool_manager;
  worker_manager = mining.worker_manager;
  os = mining.os;
  trace = mining.trace;
}

submits : Submits ⦃p = submitting⦄ (text "{") (text "rig") (text "j1") (text "00ff") (text "beef") 4
unfolding text text_eq read_id
submits = record {
  params = share_params;
  request = record {
    json = share_object;
    method_value = words (text "submit");
    parsed = refl;
    has_id = refl;
    has_method = refl;
    named = refl;
    has_params = refl;
  };
  worker_value = words (text "rig");
  job_value = words (text "j1");
  nonce_value = words (text "00ff");
  result_value = words (text "beef");
  is_an_object = refl;
  has_worker = refl;
  has_job_id = refl;
  has_nonce = refl;
  has_result = refl;
  worker_read = refl;
  job_id_read = refl;
  nonce_read = refl;
  result_read = refl;
}

can_submit : CanSubmit ⦃p = submitting⦄ offered
unfolding find
can_submit = record {
  up = refl;
  working = refl;
  id_left = omega arith;
  config = first_pool;
  configured = refl;
  address = 0;
  pool = open_connection_at 7 ConnectionType.pool;
  reached = refl;
  alive = refl;
  ready = refl;
}

on_worker_message-Submitted_example :
    Returns ⦃p = submitting⦄
      (λ _.
        Submitted ⦃p = submitting⦄
          (text "rig")
          (text "j1")
          (text "00ff")
          (text "beef")
          4
          (open_connection_at 8 ConnectionType.worker)
          (open_connection_at 7 ConnectionType.pool)
          offered)
      (on_worker_message ⦃p = submitting⦄ (share_callback ⦃p = submitting⦄) 1 (text "{") offered)
unfolding can_submit find
on_worker_message-Submitted_example =
    on_worker_message-Submitted ⦃p = submitting⦄ submits 1
      (open_connection_at 8 ConnectionType.worker) rig offered refl refl refl can_submit

-- A worker's share, with the callback of the proxy.
on_worker_message-IsServing_example :
    Preserves ⦃p = submitting⦄
      (Sound two_pools (Serving whitelist Listening))
      (on_worker_message ⦃p = submitting⦄ (share_callback ⦃p = submitting⦄) 1 (text "{"))
on_worker_message-IsServing_example =
    on_worker_message-IsServing ⦃p = submitting⦄ {pools = two_pools} {configs = whitelist} Listening
      (share_callback ⦃p = submitting⦄)
      (keep_share_callback ⦃p = submitting⦄ {pools = two_pools} {configs = whitelist}
        Listening-IsTimely)
      1 (text "{")
