-- ===== src/Tests/TlsCases.antt =====
-- The theorems about `TLSConnection` at a system whose clock is its state: a handshake works, and the
-- peer answers a line and a half.
use compute_market.Base.{ℕ, suc, ◌+◌, ◌≡◌, true, false, List, [], ◌∷◌, ◌++◌, some, length, arith}
use compute_market.Base.Text.{Text, text}
use compute_market.Platform.{sent, received, zero_return}
use compute_market.Tls.System.{TlsSystem, poll_event}
use compute_market.Tls.State.{TlsConnection, descriptor, context, session, ◌>>◌}
use compute_market.Tls.{new_tls_connection, disconnect}
use compute_market.Tls.Receive.{recv_line}
use compute_market.Tls.Execs.{Execs}
use compute_market.Tls.Ownership.{Linked, is_down, is_up}
use compute_market.Tls.Reading.{IsLine}
use compute_market.Tls.Waiting.{IsSteady, recv_line-answers}
use compute_market.Tls.Client.{
  TlsOp, connects, disconnects, sends, receives, run_ops, Refined, run_ops-Refined,
  run_ops-disconnect,
}

abbrev quick : TlsSystem
quick = record {
  S = ℕ;
  Address = Unit;
  socket = λ s. (some 5, s);
  get_flags = λ s fd. (2, s);
  set_flags = λ s fd flags. s;
  clear_nonblock = λ flags. flags;
  set_nonblock = λ flags. flags + 2048;
  get_addr_info = λ s host. (some tt, s);
  connect = λ s fd address port. (true, s);
  close = λ s fd. s;
  poll = λ s fd ms. (poll_event, s);
  steady_now = λ s. (s, suc s);
  ssl_ctx_new = λ s. (some 1, s);
  ssl_ctx_set_tls1_2 = λ s ctx. s;
  ssl_ctx_set_cipher_list = λ s ctx ciphers. (true, s);
  ssl_ctx_set_verify_none = λ s ctx. s;
  ssl_ctx_free = λ s ctx. s;
  ssl_new = λ s ctx. (some 2, s);
  ssl_set_tlsext_host_name = λ s ssl name. s;
  ssl_set_fd = λ s ssl fd. (true, s);
  ssl_connect = λ s ssl. (true, s);
  ssl_shutdown = λ s ssl. s;
  ssl_free = λ s ssl. s;
  ssl_write = λ s ssl line. (sent (length line), s);
  ssl_pending = λ s ssl. (false, s);
  ssl_read = λ s ssl n. (received (b'o' ∷ b'k' ∷ b'\n' ∷ b'x' ∷ []), s);
  ssl_get_error = λ s ssl. zero_return;
}

abbrev history : List TlsOp
history = connects ∷ sends (text "hello") ∷ receives 9 1 ∷ connects ∷ disconnects ∷ connects ∷ []

run_ops-disconnect_example :
    Execs ⦃p = quick⦄
      (new_tls_connection ⦃p = quick⦄ (text "pool") 443)
      ([], [])
      (◌>>◌ ⦃p = quick⦄ (run_ops ⦃p = quick⦄ history) (disconnect ⦃p = quick⦄))
      (λ _ c l. (c ≡ new_tls_connection ⦃p = quick⦄ (text "pool") 443) × (l.0 ≡ []))
run_ops-disconnect_example =
    run_ops-disconnect ⦃p = quick⦄ {host = text "pool"} {port = 443} history

run_ops-Refined_example :
    Execs ⦃p = quick⦄
      (new_tls_connection ⦃p = quick⦄ (text "pool") 443)
      ([], [])
      (run_ops ⦃p = quick⦄ history)
      (Refined ⦃p = quick⦄ (text "pool") 443 history false)
run_ops-Refined_example = run_ops-Refined ⦃p = quick⦄ history is_down

abbrev quick-IsSteady : IsSteady ⦃p = quick⦄ (λ s. s) 1
quick-IsSteady = record {
  shows = λ s. omega arith;
  shows_all = λ s. omega arith;
  takes_time = λ s. omega arith;
  pending = λ s ssl. omega arith;
  read = λ s ssl n. omega arith;
  poll = λ s fd ms. omega arith;
}

abbrev up_connection : TlsConnection
up_connection = record {
  host = text "pool";
  port = 443;
  socket_fd = some 5;
  ssl = some 2;
  ctx = some 1;
  connected = true;
}

recv_line-answers_example :
    Execs ⦃p = quick⦄ up_connection
      (session 2 ∷ context 1 ∷ descriptor 5 ∷ [], [])
      (recv_line ⦃p = quick⦄ 1000000001 1)
      (λ answer c l.
        (bytes : Text) × Linked ⦃p = quick⦄ (text "pool") 443 ([] ++ bytes) true c l
        × ((line : Text) × (answer ≡ some line) × IsLine line bytes))
recv_line-answers_example =
    recv_line-answers ⦃p = quick⦄ {clock = λ s. s} {per_tick = 1} quick-IsSteady 1000000001 1
      (is_up 5 1 2) (omega arith)
