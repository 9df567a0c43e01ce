-- ===== src/PoolManager/Reading.antt =====
-- gpu-proxy-cpp/src/stratum.cpp with pool_manager.cpp: a response as `to_json` writes it and
-- `on_pool_message` reads it.
use compute_market.Base.{
  ℕ, ◌≡◌, refl, ap, ◌∙◌, List, [], ◌∷◌, Option, none, some, if◌then◌else◌, String,
}
use compute_market.Base.Text.{Text, text, text_eq}
use compute_market.Platform.{Platform}
use compute_market.World.{World, catching, and_then, or_throw}
use compute_market.Stratum.{StratumResponse, response_object, to_json, contains}
use compute_market.PoolManager.Link.{PoolCallbacks}
use compute_market.PoolManager.Responses.{handle_response}
use compute_market.PoolManager.Traffic.{
  response_id, member_or_null, dispatch_message, on_pool_message,
}

-- The value of a member, the first one of that name.
unfoldable pub lookup {ℓ} : {A : Type ℓ} → String → List (String × A) → Option A
lookup k [] = none
lookup k ((j, v) ∷ rest) = if text_eq (text j) (text k) then some v else lookup k rest

module _ ⦃p : Platform⦄ where
  -- An object has the members that it is made from.
  abbrev pub KeepsMembers : Type 0
  KeepsMembers = (fs : List (String × p.V)) (k : String) → p.member (p.object fs) k ≡ lookup k fs

  dispatch_message-response :
      (cbs : PoolCallbacks) (line : Text) (j v result error : p.V) (id : ℕ)
      → p.member j "method" ≡ none
      → p.member j "id" ≡ some v
      → p.get_int v ≡ some id
      → p.member j "result" ≡ some result
      → p.member j "error" ≡ some error
      → dispatch_message cbs line j
        ≡ handle_response cbs (record { id = id; result = result; error = error })
  unfolding dispatch_message response_id
  dispatch_message-response cbs line j v result error id m i n r e =
      rw (m, i, n, r, e, contains, member_or_null) refl

  -- A response that `to_json` has written is read as it was: the message is handled as that response.
  -- This is for a JSON library that parses what it prints of it, keeps the members of an object and
  -- the number in a value.
  pub on_pool_message-to_json :
      (cbs : PoolCallbacks) (r : StratumResponse) (line : Text) (w : World)
      → to_json r ≡ some line
      → ((s : Text) → p.dump (response_object r) ≡ some s → p.parse s ≡ some (response_object r))
      → KeepsMembers
      → p.get_int (p.of_int r.id) ≡ some r.id
      → on_pool_message cbs line w ≡ catching (handle_response cbs r) w
  unfolding on_pool_message to_json response_object
  on_pool_message-to_json cbs r line w e parses members int =
      unfold lookup text text_eq in
      let d =
        dispatch_message-response cbs line (response_object r) (p.of_int r.id) r.result r.error r.id
          (members _ "method") (members _ "id") int (members _ "result") (members _ "error") in
      ap (λ o. catching (λ v. and_then (or_throw o v) (dispatch_message cbs line)) w)
        (parses line e)
      ∙ ap (λ k. catching k w) d
