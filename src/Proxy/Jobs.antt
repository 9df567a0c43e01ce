-- ===== src/Proxy/Jobs.antt =====
-- gpu-proxy-cpp/src/main.cpp with pool_manager.cpp and worker_manager.cpp: a job on its way from the
-- pool to the workers.
use compute_market.Base.{ℕ, ◌≡◌, refl, true, ◌++◌, some}
use compute_market.Base.Text.{Text, text, text_eq}
use compute_market.Platform.{Platform}
use compute_market.World.{Job, PoolManager, World}
use compute_market.Outcome.{Returns}
use compute_market.Stratum.{job, method_of, contains}
use compute_market.PoolManager.Responses.{handle_job, handle_notification, const_member}
use compute_market.PoolManager.Traffic.{dispatch_message, on_pool_message}
use compute_market.WorkerManager.Messages.{job_message}
use compute_market.WorkerManager.Jobs.{send_job}
use compute_market.WorkerManager.Broadcast.{broadcast, IsLive, send_job-broadcast}
use compute_market.Proxy.{pool_callbacks}
use compute_market.Proxy.Lines.{IsRequest, parse_request-read, caught}

module _ ⦃p : Platform⦄ where
  -- A line that announces a job: a JSON object of the method "job" with the four members.
  pub record Announces (line job_id blob target : Text) (height : ℕ) : Type 0 where
    pub id : ℕ
    pub params : p.V
    pub request : IsRequest line id (text "job") params
    pub id_value : p.V
    pub blob_value : p.V
    pub target_value : p.V
    pub height_value : p.V
    pub has_job_id : p.member params "job_id" ≡ some id_value
    pub has_blob : p.member params "blob" ≡ some blob_value
    pub has_target : p.member params "target" ≡ some target_value
    pub has_height : p.member params "height" ≡ some height_value
    pub job_id_read : p.get_string id_value ≡ some job_id
    pub blob_read : p.get_string blob_value ≡ some blob
    pub target_read : p.get_string target_value ≡ some target
    pub height_read : p.get_uint64 height_value ≡ some height

  method_of-job : method_of (text "job") ≡ job
  unfolding method_of text text_eq
  method_of-job = refl

  module _ {line job_id blob target : Text} {height : ℕ}
      (h : Announces line job_id blob target height) where
    -- The current job with the members of the line.
    abbrev announced : PoolManager → Job
    announced m = record m.current_job {
      job_id = job_id;
      blob = blob;
      target = target;
      height = height;
    }

    handle_job-send :
        (w : World)
        → handle_job pool_callbacks h.params w
          ≡ send_job (announced w.pool_manager) (record w {
            pool_manager = record w.pool_manager {
              current_job = announced w.pool_manager;
              has_job = true;
            };
          })
    unfolding handle_job const_member
    handle_job-send w = simp (
      h.has_job_id, h.has_blob, h.has_target, h.has_height, h.job_id_read, h.blob_read,
      h.target_read, h.height_read,
    )

    dispatch_message-job :
        dispatch_message pool_callbacks line h.request.json ≡ handle_job pool_callbacks h.params
    unfolding dispatch_message handle_notification
    dispatch_message-job =
        rw (h.request.has_method, contains, parse_request-read h.request, method_of-job)

    -- A line of the pool that announces a job goes, as the broadcast of that job, to every subscribed
    -- and authorized worker, if their pointers are good: one line is written to each of them and none
    -- to others, both managers have the job, and nothing else of them and of the loop changes.
    pub on_pool_message-broadcast :
        (w : World)
        → IsLive w w.worker_manager.workers
        → Returns
            (λ _ w'.
              (w'.trace
                ≡ w.trace
                  ++ broadcast w.heap
                      (job_message (announced w.pool_manager))
                      w.worker_manager.workers)
              × (w'.worker_manager ≡ record w.worker_manager {
                current_job = announced w.pool_manager;
                has_job = true;
              })
              × (w'.loop ≡ w.loop)
              × (w'.pool_manager ≡ record w.pool_manager {
                current_job = announced w.pool_manager;
                has_job = true;
              }))
            (on_pool_message pool_callbacks line w)
    unfolding on_pool_message
    on_pool_message-broadcast w live =
        rw (h.request.parsed, dispatch_message-job)
          (caught (handle_job pool_callbacks h.params) w
            (rw (handle_job-send w) (send_job-broadcast (announced w.pool_manager) _ live)))
