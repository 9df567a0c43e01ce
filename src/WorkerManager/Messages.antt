-- ===== src/WorkerManager/Messages.antt =====
-- gpu-proxy-cpp/src/worker_manager.cpp: the lines that the proxy sends to its workers.
use compute_market.Base.{ℕ, Bool, ◌++◌, if◌then◌else◌}
use compute_market.Base.Text.{Text, text, to_string, int_to_string}
use compute_market.World.{Job}

-- The raw literal that holds the result does not end before `error`, so the parts of the expression
-- that look as if they put in the descriptor are text of the message.
unfoldable pub subscribe_response : ℕ → Text
subscribe_response id =
    text "{\"id\": "
    ++ (int_to_string id
        ++ (text ", \"result\": [[[\"mining.notify\", \"]\" + std::to_string(fd) +\n"
            ++ text "        R\"(\"], \"\"], \"8\"], \"error\": null}"))

unfoldable pub authorize_response : ℕ → Bool → Text
authorize_response id allowed =
    text "{\"id\": "
    ++ (int_to_string id
        ++ (text ", \"result\": "
            ++ ((if allowed then text "true" else text "false") ++ text ", \"error\": null}")))

unfoldable pub login_response : ℕ → ℕ → Text
login_response id fd =
    text "{\"id\": "
    ++ (int_to_string id
        ++ (text ", \"jsonrpc\": \"2.0\", \"result\": {\"id\": \""
            ++ (to_string fd ++ text "\", \"status\": \"OK\"}, \"error\": null}")))

unfoldable pub login_response_with_job : ℕ → ℕ → Job → Text
login_response_with_job id fd job =
    text "{\"id\": "
    ++ (int_to_string id
        ++ (text ", \"jsonrpc\": \"2.0\", \"result\": {\"id\": \""
            ++ (to_string fd
                ++ (text "\", \"job\": {\"algo\":\"cuckaroo\",\"blob\":\""
                    ++ (job.blob
                        ++ (text "\",\"job_id\":\""
                            ++ (job.job_id
                                ++ (text "\",\"target\":\""
                                    ++ (job.target
                                        ++ (text "\",\"height\":"
                                            ++ (to_string job.height
                                                ++ text
                                                    "}, \"status\": \"OK\"}, \"error\": null}")))))))))))

unfoldable pub submit_response : ℕ → Text
submit_response id =
    text "{\"id\": " ++ (int_to_string id ++ text ", \"jsonrpc\": \"2.0\", \"result\": true}")

-- The line that `send_job` sends.
unfoldable pub job_message : Job → Text
job_message job =
    text
      "{\"jsonrpc\":\"2.0\", \"method\": \"job\", \"params\": {\"algo\": \"cuckaroo\", \"blob\": \""
    ++ (job.blob
        ++ (text "\", \"job_id\": \""
            ++ (job.job_id
                ++ (text "\", \"target\": \""
                    ++ (job.target
                        ++ (text "\", \"height\": " ++ (to_string job.height ++ text "}}")))))))
