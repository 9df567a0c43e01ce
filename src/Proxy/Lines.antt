-- ===== src/Proxy/Lines.antt =====
-- gpu-proxy-cpp/src/stratum.cpp: the lines that the managers read, by what the JSON library makes of
-- them.
use compute_market.Base.{ℕ, ◌≡◌, some}
use compute_market.Base.Text.{Text}
use compute_market.Platform.{Platform}
use compute_market.World.{World, Result, ok, throws, faults, M, catching}
use compute_market.Outcome.{Returns, returns}
use compute_market.Stratum.{read_id, read_method, read_params, parse_request, request_of, method_of}

module _ ⦃p : Platform⦄ where
  caught_elim :
      {Q : Unit {0} → World → Type 0} {r : Result (Unit {0})}
      → Returns Q r
      → Returns Q (elim r [ ok a w' ↦ ok tt w' | throws w' ↦ ok tt w' | faults ↦ faults ])
  caught_elim (returns q) = returns q

  -- A handler that returns throws nothing to catch.
  pub caught :
      {Q : Unit {0} → World → Type 0} (m : M (Unit {0})) (w : World)
      → Returns Q (m w)
      → Returns Q (catching m w)
  caught m w h = caught_elim h

  -- The line is a JSON object with an identifier or none, a method of that name, and parameters.
  pub record IsRequest (line : Text) (id : ℕ) (name : Text) (params : p.V) : Type 0 where
    pub json : p.V
    pub method_value : p.V
    pub parsed : p.parse line ≡ some json
    pub has_id : read_id json ≡ some id
    pub has_method : p.member json "method" ≡ some method_value
    pub named : p.get_string method_value ≡ some name
    pub has_params : p.member json "params" ≡ some params

  module _ {line : Text} {id : ℕ} {name : Text} {params : p.V}
      (h : IsRequest line id name params) where
    method_read : read_method h.json ≡ some (method_of name)
    unfolding read_method
    method_read = rw (h.has_method, read_method, h.named)

    params_read : read_params h.json ≡ params
    unfolding read_params
    params_read = rw (h.has_params, read_params)

    request_read : request_of h.json ≡ record { id = id; method = method_of name; params = params }
    unfolding request_of
    request_read = rw (h.has_id, request_of, method_read, params_read)

    pub parse_request-read :
        parse_request line ≡ record { id = id; method = method_of name; params = params }
    unfolding parse_request
    parse_request-read = rw (h.parsed, parse_request) request_read
