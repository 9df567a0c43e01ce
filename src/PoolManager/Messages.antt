-- ===== src/PoolManager/Messages.antt =====
-- gpu-proxy-cpp/src/pool_manager.cpp: the lines that the proxy sends to its pool.
use compute_market.Base.{ℕ, ◌++◌}
use compute_market.Base.Text.{Text, text, int_to_string}
use compute_market.World.{PoolConfig}

abbrev pub max_reconnect_attempts : ℕ
max_reconnect_attempts = 5

abbrev pub reconnect_delay_ms : ℕ
reconnect_delay_ms = 5000

-- `next_id_++` beyond INT_MAX is undefined.
abbrev pub int_max : ℕ
int_max = 2147483647

unfoldable pub login_message : PoolConfig → ℕ → Text
login_message pool id =
    text "{\"method\":\"login\",\"params\":{\"login\":\""
    ++ (pool.wallet
        ++ (text "\",\"pass\":\""
            ++ (pool.password
                ++ (text "\",\"agent\":\"gpu-proxy/2.0\"},\"id\":"
                    ++ (int_to_string id ++ text "}")))))

unfoldable pub submit_message : ℕ → Text → Text → Text → Text → Text
submit_message id worker_id job_id nonce result =
    text "{\"id\": "
    ++ (int_to_string id
        ++ (text ", \"method\": \"submit\", \"params\": {\"id\": \""
            ++ (worker_id
                ++ (text "\", \"job_id\": \""
                    ++ (job_id
                        ++ (text "\", \"nonce\": \""
                            ++ (nonce
                                ++ (text "\", \"result\": \""
                                    ++ (result ++ text "\"}, \"jsonrpc\": \"2.0\"}")))))))))
