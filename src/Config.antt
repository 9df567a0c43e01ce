-- ===== src/Config.antt =====
-- gpu-proxy-cpp/src/config.cpp: the address of a pool, and the configuration file. The file's text is
-- an argument, `none` where it cannot be opened.
pub mod Address
use compute_market.Base.{
  ℕ, ◌+◌, ◌-◌, ◌%◌, Bool, true, false, ◌&&◌, ◌||◌, List, [], ◌∷◌, ◌++◌, Option, none, some, ◌==◌,
  ltb, leb, if◌then◌else◌, String,
}
use compute_market.Base.Text.{Text, text, value_of}
use compute_market.Platform.{Platform}
use compute_market.World.{
  PoolConfig, WorkerConfig, M, ◌>>=◌, ◌>>◌, pure, throw, or_throw, match_option,
}
use compute_market.PoolManager.Responses.{const_member}

-- `url.find(':')`, with the two parts around the colon.
unfoldable pub split_colon : Text → Option (Text × Text)
split_colon [] = none
split_colon (c ∷ s) =
    if c == b':'
    then some ([], s)
    else elim (split_colon s) [ none ↦ none | some (host, port) ↦ some (c ∷ host, port) ]

abbrev pub is_space : ℕ → Bool
is_space c = c == 32 || (leb 9 c && leb c 13)

abbrev pub is_decimal : ℕ → Bool
is_decimal c = leb 48 c && leb c 57

unfoldable pub skip_spaces : Text → Text
skip_spaces [] = []
skip_spaces (c ∷ s) = if is_space c then skip_spaces s else c ∷ s

unfoldable pub leading_digits : Text → Text
leading_digits [] = []
leading_digits (c ∷ s) = if is_decimal c then c ∷ leading_digits s else []

-- A number that is too large is the greatest one.
abbrev pub clamp16 : ℕ → ℕ
clamp16 n = if ltb 65535 n then 65535 else n

-- A minus sign is taken and the number negated modulo 2^16.
unfoldable pub read_signed : Text → ℕ
unfolding leading_digits
read_signed [] = 0
read_signed (c ∷ s) =
    let plain = clamp16 (value_of 10 0 (leading_digits (c ∷ s))) in
    let after_sign = value_of 10 0 (leading_digits s) in
    if c == b'-'
    then (if ltb 65535 after_sign then 65535 else (65536 - after_sign) % 65536)
    else if c == b'+'
    then clamp16 after_sign
    else plain

-- `iss >> port` with a `uint16_t`: at the end of the stream the variable keeps its value.
unfoldable pub read_uint16 : ℕ → Text → ℕ
unfolding skip_spaces read_signed
read_uint16 old s = elim (skip_spaces s) [ [] ↦ old | c ∷ rest ↦ read_signed (c ∷ rest) ]

-- The host and the port, which was `old` before.
unfoldable pub parse_host_port : Text → ℕ → Text × ℕ
unfolding split_colon read_uint16
parse_host_port url old = elim (split_colon url) [
  | none ↦ (url, 3333)
  | some (host, port) ↦ (host, read_uint16 old port)
]

pub record ProxyConfig : Type 0 where
  pub listen_port : ℕ
  pub api_port : ℕ
  pub log_level : Text
  pub pools : List PoolConfig
  pub workers : List WorkerConfig

module _ ⦃p : Platform⦄ where
  -- `if (j.contains(k)) j[k].get_to(x)`
  get_if : p.V → String → (A : Type 0) → A → (p.V → Option A) → M A
  get_if j k A old read = match_option (p.member j k) (pure old) λ v. or_throw (read v)

  -- `j[k].get_to(x)` on a constant value.
  get_from : p.V → String → (A : Type 0) → (p.V → Option A) → M A
  get_from j k A read = do v ← const_member j k; or_throw (read v)

  unfoldable pub read_pool : p.V → M PoolConfig
  unfolding get_from
  read_pool v = do
    name ← get_from v "name" Text p.get_string
    url ← get_from v "url" Text p.get_string
    let address = parse_host_port url (p.indeterminate % 65536)
    wallet ← get_from v "wallet" Text p.get_string
    password ← get_from v "password" Text p.get_string
    tls ← get_from v "tls" Bool p.get_bool
    priority ← get_from v "priority" ℕ p.get_int
    pure (record {
      name = name;
      host = address.0;
      port = address.1;
      wallet = wallet;
      password = password;
      tls = tls;
      priority = priority;
    })

  unfoldable pub read_pools : List p.V → M (List PoolConfig)
  read_pools [] = pure []
  read_pools (v ∷ rest) = do pool ← read_pool v; pools ← read_pools rest; pure (pool ∷ pools)

  unfoldable pub read_worker : p.V → M WorkerConfig
  unfolding get_from
  read_worker v = do
    id ← get_from v "id" Text p.get_string
    password ← get_from v "password" Text p.get_string
    pure (record { id = id; password = password })

  unfoldable pub read_workers : List p.V → M (List WorkerConfig)
  read_workers [] = pure []
  read_workers (v ∷ rest) = do
    worker ← read_worker v
    workers ← read_workers rest
    pure (worker ∷ workers)

  -- A configuration as it is declared: the ports hold anything.
  abbrev pub blank_config : ProxyConfig
  blank_config = record {
    listen_port = p.indeterminate % 65536;
    api_port = p.indeterminate % 65536;
    log_level = [];
    pools = [];
    workers = [];
  }

  unfoldable pub read_settings : p.V → M ProxyConfig
  unfolding get_if
  read_settings settings = do
    listen_port ← get_if settings "listen_port" ℕ (blank_config.listen_port) p.get_uint16
    api_port ← get_if settings "api_port" ℕ (blank_config.api_port) p.get_uint16
    log_level ← get_if settings "log_level" Text [] p.get_string
    pure (record blank_config {
      listen_port = listen_port;
      api_port = api_port;
      log_level = log_level;
    })

  unfoldable pub read_config : p.V → M ProxyConfig
  read_config j = do
    config ← match_option (p.member j "settings") (pure blank_config) read_settings
    pools ← match_option (p.member j "pools") (pure []) (λ v. read_pools (p.elements v))
    workers ← match_option (p.member j "workers") (pure []) (λ v. read_workers (p.elements v))
    pure (record config { pools = pools; workers = workers })

  unfoldable pub load_from_file : Option Text → M ProxyConfig
  load_from_file file = do
    content ← or_throw file
    j ← or_throw (p.parse_stream content)
    read_config j

  abbrev pub load_default : ProxyConfig
  load_default = record blank_config {
    listen_port = 3334;
    api_port = 8083;
    log_level = text "INFO";
  }
