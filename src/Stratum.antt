-- ===== src/Stratum.antt =====
-- gpu-proxy-cpp/src/stratum.cpp and stratum.hpp: the requests of the Stratum protocol and its jobs.
use compute_market.Base.{
  ℕ, Bool, true, false, ◌&&◌, List, [], ◌∷◌, Option, none, some, leb, if◌then◌else◌, length, String,
}
use compute_market.Base.Text.{Text, text, text_eq}
use compute_market.Platform.{Platform}
use compute_market.World.{Job}

pub data StratumMethod : Type 0 where
  subscribe authorize submit notify set_difficulty login job monero_submit unknown : StratumMethod

unfoldable pub method_of : Text → StratumMethod
method_of s =
    if text_eq s (text "mining.subscribe")
    then subscribe
    else if text_eq s (text "mining.authorize")
    then authorize
    else if text_eq s (text "mining.submit")
    then submit
    else if text_eq s (text "mining.notify")
    then notify
    else if text_eq s (text "mining.set_difficulty")
    then set_difficulty
    else if text_eq s (text "login")
    then login
    else if text_eq s (text "job")
    then job
    else if text_eq s (text "submit")
    then monero_submit
    else unknown

infixl 5 ◌>>=◌
abbrev ◌>>=◌ {ℓ κ} : {A : Type ℓ} {B : Type κ} → Option A → (A → Option B) → Option B
none >>= f = none
some a >>= f = f a

abbrev pub blank_job : Job
blank_job = record {
  job_id = [];
  blob = [];
  target = [];
  difficulty = [];
  height = 0;
  clean_jobs = false;
}

module _ ⦃p : Platform⦄ where
  pub record StratumRequest : Type 0 where
    pub id : ℕ
    pub method : StratumMethod
    pub params : p.V

  pub record StratumResponse : Type 0 where
    pub id : ℕ
    pub result : p.V
    pub error : p.V

  unfoldable pub response_object : StratumResponse → p.V
  response_object r =
      p.object (("id", p.of_int r.id) ∷ ("result", r.result) ∷ ("error", r.error) ∷ [])

  -- `none` is an exception.
  unfoldable pub to_json : StratumResponse → Option Text
  unfolding response_object
  to_json r = p.dump (response_object r)

  abbrev pub contains : p.V → String → Bool
  contains j k = elim (p.member j k) [ none ↦ false | some v ↦ true ]

  -- The three reads of `StratumRequest::parse`; `none` is an exception.
  unfoldable pub read_id : p.V → Option ℕ
  read_id j = elim (p.member j "id") [ none ↦ some 0 | some v ↦ p.get_int v ]

  unfoldable pub read_method : p.V → Option StratumMethod
  read_method j = elim (p.member j "method") [
    | none ↦ some unknown
    | some v ↦ do s ← p.get_string v; some (method_of s)
  ]

  unfoldable pub read_params : p.V → p.V
  read_params j = elim (p.member j "params") [ none ↦ p.null | some v ↦ v ]

  -- What is left when an exception is caught.
  abbrev pub invalid_request : ℕ → StratumRequest
  invalid_request id = record { id = id; method = unknown; params = p.null }

  unfoldable pub request_of : p.V → StratumRequest
  unfolding read_id read_method read_params
  request_of j = elim (read_id j) [
    | none ↦ invalid_request p.indeterminate
    | some id ↦ elim (read_method j) [
      | none ↦ invalid_request id
      | some m ↦ record { id = id; method = m; params = read_params j }
    ]
  ]

  unfoldable pub parse_request : Text → StratumRequest
  parse_request line = elim (p.parse line) [
    | none ↦ invalid_request p.indeterminate
    | some j ↦ request_of j
  ]

  read_height : Job → List p.V → Option Job
  read_height j [] = some j
  read_height j (h ∷ []) = do height ← p.get_uint64 h; some (record j { height = height })
  read_height j (h ∷ c ∷ rest) = do
    height ← p.get_uint64 h
    clean ← p.get_bool c
    some (record j { height = height; clean_jobs = clean })

  from_array : List p.V → Option Job
  unfolding read_height
  from_array (a ∷ b ∷ c ∷ d ∷ rest) = do
    job_id ← p.get_string a
    blob ← p.get_string b
    target ← p.get_string c
    difficulty ← p.get_string d
    read_height
        (record blank_job {
          job_id = job_id;
          blob = blob;
          target = target;
          difficulty = difficulty;
        })
        rest
  from_array _ = some blank_job

  -- `none` is a conversion that throws.
  unfoldable pub from_notify : p.V → Option Job
  unfolding from_array
  from_notify params =
      if p.is_array params && leb 4 (length (p.elements params))
      then from_array (p.elements params)
      else some blank_job
