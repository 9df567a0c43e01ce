-- ===== src/Tls/Client.antt =====
-- gpu-proxy-cpp/src/ssl_utils.hpp: the histories of a connection, and what is left at their end. The
-- client connects only a connection that is not connected, and disconnects or deletes it in the end.
use compute_market.Base.{ℕ, ◌≡◌, refl, Bool, true, false, List, [], ◌∷◌, if◌then◌else◌}
use compute_market.Base.Text.{Text}
use compute_market.Tls.System.{TlsSystem}
use compute_market.Tls.State.{TlsConnection, T, ◌>>=◌, ◌>>◌, done, get_conn}
use compute_market.Tls.{new_tls_connection, is_connected, connect, disconnect, send_line}
use compute_market.Tls.Receive.{recv_line}
use compute_market.Tls.Ledger.{Ledger}
use compute_market.Tls.Execs.{Execs, exec-mono, exec-bind, exec-pure}
use compute_market.Tls.Ownership.{
  Linked, is_down, is_up, connect-Linked, disconnect-Linked, send_line-Linked,
}
use compute_market.Tls.Reading.{recv_line-Linked}

pub data TlsOp : Type 0 where
  connects disconnects : TlsOp
  sends : Text → TlsOp
  receives : ℕ → ℕ → TlsOp

module _ ⦃p : TlsSystem⦄ where
  unfoldable pub run_op : TlsOp → T (Unit {0})
  run_op connects = do up ← is_connected; if up then done else do _ ← connect; done
  run_op disconnects = disconnect
  run_op (sends line) = do _ ← send_line line; done
  run_op (receives fuel timeout_sec) = do _ ← recv_line fuel timeout_sec; done

  unfoldable pub run_ops : List TlsOp → T (Unit {0})
  run_ops [] = done
  run_ops (op ∷ ops) = do run_op op; run_ops ops

  exec-is_connected :
      {B : Type 0} {Q : B → TlsConnection → Ledger → Type 0} {c : TlsConnection} {l : Ledger}
      (k : Bool → T B)
      → Execs c l (k c.connected) Q
      → Execs c l (is_connected >>= k) Q
  exec-is_connected k h = unfold is_connected get_conn in record { apply = h.apply }

  -- The machine that a connection implements: down or up.
  pub data LinkStep : TlsOp → Bool → Bool → Type 0 where
    fails_to_connect : LinkStep connects false false
    comes_up : LinkStep connects false true
    is_up_already : LinkStep connects true true
    goes_down : {up : Bool} → LinkStep disconnects up false
    stays_sending : {up : Bool} (line : Text) → LinkStep (sends line) up up
    stays_receiving :
        {up : Bool} (fuel timeout_sec : ℕ) → LinkStep (receives fuel timeout_sec) up up

  pub data LinkRun : List TlsOp → Bool → Bool → Type 0 where
    rests : {up : Bool} → LinkRun [] up up
    step :
        {op : TlsOp} {ops : List TlsOp} {up next last : Bool}
        → LinkStep op up next
        → LinkRun ops next last
        → LinkRun (op ∷ ops) up last

  -- The connection after a step, or a run, of the machine from `up`.
  abbrev Stepped : Text → ℕ → TlsOp → Bool → Unit {0} → TlsConnection → Ledger → Type 0
  Stepped host port op up a c l =
      (next : Bool) × LinkStep op up next × ((read : Text) × Linked host port read next c l)

  abbrev pub Refined : Text → ℕ → List TlsOp → Bool → Unit {0} → TlsConnection → Ledger → Type 0
  Refined host port ops up a c l =
      (last : Bool) × LinkRun ops up last × ((read : Text) × Linked host port read last c l)

  connected_step : (b : Bool) → LinkStep connects false b
  connected_step true = comes_up
  connected_step false = fails_to_connect

  module _ {host : Text} {port : ℕ} where
    run_op-Stepped :
        (op : TlsOp) {b : Bool} {read : Text} {c : TlsConnection} {l : Ledger}
        → Linked host port read b c l
        → Execs c l (run_op op) (Stepped host port op b)
    unfolding run_op
    run_op-Stepped connects is_down =
        exec-is_connected _
          (exec-bind connect-Linked (λ b c l h. exec-pure (b, connected_step b, (_, h))))
    run_op-Stepped connects (is_up fd ctx ssl) =
        exec-is_connected _ (exec-pure (true, is_up_already, (_, is_up fd ctx ssl)))
    run_op-Stepped disconnects h =
        exec-mono (disconnect-Linked h) (λ u c l g. (false, goes_down, (_, g)))
    run_op-Stepped (sends line) h =
        exec-bind (send_line-Linked line h)
          (λ sent c l g. exec-pure (_, stays_sending line, (_, g.0)))
    run_op-Stepped (receives fuel timeout_sec) h =
        exec-bind (recv_line-Linked fuel timeout_sec h)
          (λ out c l g. exec-pure (_, stays_receiving fuel timeout_sec, (_, g.1)))

    -- Any history of a connection, from any state that it can be in, is a run of the machine; the
    -- connection is as that state says, and holds the resources of that state, each of them used only
    -- while it was held.
    pub run_ops-Refined :
        (ops : List TlsOp) {b : Bool} {read : Text} {c : TlsConnection} {l : Ledger}
        → Linked host port read b c l
        → Execs c l (run_ops ops) (Refined host port ops b)
    unfolding run_ops
    run_ops-Refined [] h = exec-pure (_, rests, (_, h))
    run_ops-Refined (op ∷ ops) h =
        exec-bind (run_op-Stepped op h)
          λ u c l g. exec-mono (run_ops-Refined ops g.2.1) (λ v c' l' k. (k.0, step g.1 k.1, k.2))

    cleared :
        {read : Text} {c : TlsConnection} {l : Ledger}
        → Linked host port read false c l
        → (c ≡ new_tls_connection host port) × (l.0 ≡ [])
    cleared is_down = (refl, refl)

    -- Whatever a client does that connects only while it is not connected, and whatever the system and
    -- the peer answer: no call is on a null pointer or on what is not held, and after the `disconnect` at the end, which the
    -- destructor does, every session, context and descriptor has been given back once, the newest
    -- first, and the connection is as it was made.
    pub run_ops-disconnect :
        (ops : List TlsOp)
        → Execs
            (new_tls_connection host port)
            ([], [])
            (do run_ops ops; disconnect)
            (λ _ c l. (c ≡ new_tls_connection host port) × (l.0 ≡ []))
    run_ops-disconnect ops =
        exec-bind (run_ops-Refined ops is_down)
          (λ _ c l s. exec-mono (disconnect-Linked s.2.1) (λ _ c' l' h. cleared h))
