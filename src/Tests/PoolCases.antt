-- ===== src/Tests/PoolCases.antt =====
-- The theorems about the loss of a pool and about its responses, at the worlds of `Demo` and `Runs`.
use compute_market.Base.{
  ◌≡◌, refl, List, [], ◌∷◌, ◌++◌, none, some, ap, arith, drop, ◌+◌, inl, if◌then◌else◌, String,
}
use compute_market.World.{World, error, catching}
use compute_market.Outcome.{Returns}
use compute_market.Tests.Demo.{
  mining, nothing, share_result, object_of, member_of, Json, number, demo, two_pools,
}
use compute_market.Base.Text.{text, text_eq}
use compute_market.Platform.{Platform}
use compute_market.EventLoop.Tables.{now_ms}
use compute_market.PoolManager.States.{on_pool_state}
use compute_market.PoolManager.Failover.{
  lost, tried, attempts, reconnect_timer, on_pool_state-retries, on_pool_state-gives_up,
}
use compute_market.Proxy.{pool_callbacks, new_pool_manager}
use compute_market.Stratum.{StratumResponse, response_object, to_json}
use compute_market.PoolManager.Traffic.{on_pool_message}
use compute_market.PoolManager.Responses.{handle_response}
use compute_market.PoolManager.Reading.{lookup, on_pool_message-to_json}
use compute_market.Tests.Runs.{configured, made}

on_pool_state-retries_example :
    Returns ⦃p = demo⦄
      (λ _ w'.
        (w'.pool_manager ≡ record (lost mining.pool_manager) { reconnect_attempts = 0 + 1 })
        × (w'.loop ≡ record mining.loop {
          timeouts = mining.loop.timeouts ++ reconnect_timer ⦃p = demo⦄ 9 ∷ [];
        })
        × (w'.worker_manager ≡ mining.worker_manager))
      (on_pool_state ⦃p = demo⦄ (pool_callbacks ⦃p = demo⦄) error mining)
unfolding now_ms
on_pool_state-retries_example =
    on_pool_state-retries ⦃p = demo⦄ (pool_callbacks ⦃p = demo⦄) error mining (inl refl) refl
      (omega arith)

-- The fifth attempt was in vain.
abbrev worn_out : World ⦃p = configured⦄
worn_out = record made {
  pool_manager = record (new_pool_manager ⦃p = configured⦄ two_pools) { reconnect_attempts = 5 };
}

on_pool_state-gives_up_example :
    Returns ⦃p = configured⦄
      (λ _ w'.
        (w'.pool_manager
          ≡ tried 1
              (drop 1 two_pools)
              (record (lost worn_out.pool_manager) { reconnect_attempts = 0 }))
        × (w'.pool_manager.pool_conn ≡ none)
        × (w'.os ≡ attempts ⦃p = configured⦄ (drop 1 two_pools) worn_out.os)
        × (w'.loop ≡ worn_out.loop)
        × (w'.worker_manager ≡ worn_out.worker_manager))
      (on_pool_state ⦃p = configured⦄ (pool_callbacks ⦃p = configured⦄) error worn_out)
unfolding new_pool_manager
on_pool_state-gives_up_example =
    on_pool_state-gives_up ⦃p = configured⦄ (pool_callbacks ⦃p = configured⦄) error worn_out
      (λ os host. refl) (inl refl) refl (omega arith) (omega arith)

-- A library that parses every line as the response to a share.
abbrev answering : Platform
answering = record demo {
  parse = λ line.
      some (object_of (("id", number 2) ∷ ("result", share_result) ∷ ("error", nothing) ∷ []));
}

abbrev share_answer : StratumResponse ⦃p = answering⦄
share_answer = record { id = 2; result = share_result; error = nothing }

object_of-lookup :
    (fs : List (String × Json)) (k : String) → member_of (object_of fs) (text k) ≡ lookup k fs
unfolding lookup
object_of-lookup [] k = refl
object_of-lookup ((j, v) ∷ rest) k =
    ap (λ o. if text_eq (text j) (text k) then some v else o) (object_of-lookup rest k)

abbrev mining_there : World ⦃p = answering⦄
mining_there = record {
  heap = mining.heap;
  next_address = 2;
  loop = mining.loop;
  pool_manager = mining.pool_manager;
  worker_manager = mining.worker_manager;
  os = 9;
  trace = [];
}

on_pool_message-to_json_example :
    on_pool_message ⦃p = answering⦄ (pool_callbacks ⦃p = answering⦄) [] mining_there
    ≡ catching ⦃p = answering⦄
        (handle_response ⦃p = answering⦄ (pool_callbacks ⦃p = answering⦄) share_answer)
        mining_there
unfolding response_object to_json
on_pool_message-to_json_example =
    on_pool_message-to_json ⦃p = answering⦄ (pool_callbacks ⦃p = answering⦄) share_answer []
      mining_there refl (λ s e. refl) object_of-lookup refl
