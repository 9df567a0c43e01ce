-- ===== src/Tests/Demo.antt =====
-- A platform to run the model on: a few JSON values, sockets numbered by a counter, and a peer that
-- never sends. Two pools and a worker.
use compute_market.Base.{
  ℕ, suc, ◌*◌, Bool, true, false, List, [], ◌∷◌, Option, none, some, if◌then◌else◌, length, String,
}
use compute_market.Base.Text.{Text, text, text_eq}
use compute_market.Platform.{Platform, zero_return, sent, end_of_stream, poll_timed_out}
use compute_market.World.{
  Connection, ConnectionState, ConnectionType, Job, PoolConfig, WorkerConfig, WorkerInfo, World,
  accept_worker,
}

pub data Json : Type 0 where
  nothing : Json
  words : Text → Json
  number : ℕ → Json
  no_fields : Json
  field : Text → Json → Json → Json
  no_items : Json
  item : Json → Json → Json

abbrev pub member_of : Json → Text → Option Json
member_of (field k v rest) key = if text_eq k key then some v else member_of rest key
member_of _ key = none

abbrev pub words_of : Json → Option Text
words_of (words t) = some t
words_of _ = none

abbrev pub number_of : Json → Option ℕ
number_of (number n) = some n
number_of _ = none

abbrev pub is_object_of : Json → Bool
is_object_of no_fields = true
is_object_of (field k v rest) = true
is_object_of _ = false

abbrev pub items_of : Json → List Json
items_of (item v rest) = v ∷ items_of rest
items_of _ = []

abbrev pub is_array_of : Json → Bool
is_array_of no_items = true
is_array_of (item v rest) = true
is_array_of _ = false

abbrev pub is_empty : Json → Bool
is_empty no_fields = true
is_empty no_items = true
is_empty nothing = true
is_empty _ = false

abbrev pub is_words : Json → Bool
is_words (words t) = true
is_words _ = false

abbrev pub is_nothing : Json → Bool
is_nothing nothing = true
is_nothing _ = false

abbrev pub object_of : List (String × Json) → Json
object_of [] = no_fields
object_of ((k, v) ∷ rest) = field (text k) v (object_of rest)

-- The result of a share that the pool takes.
abbrev pub share_result : Json
share_result = field (text "status") (words (text "OK")) no_fields

abbrev pub answer : Json
answer = field (text "id") (number 2) (field (text "result") share_result no_fields)

abbrev pub demo : Platform
demo = record {
  V = Json;
  null = nothing;
  parse = λ line. elim line [ [] ↦ none | c ∷ cs ↦ some answer ];
  parse_stream = λ line. elim line [ [] ↦ none | c ∷ cs ↦ some answer ];
  member = λ j k. member_of j (text k);
  elements = items_of;
  is_object = is_object_of;
  is_array = is_array_of;
  is_string = is_words;
  is_null = is_nothing;
  empty = is_empty;
  get_string = words_of;
  get_int = number_of;
  get_uint16 = number_of;
  get_uint64 = number_of;
  get_bool = λ j. none;
  of_int = number;
  object = object_of;
  dump = λ v. some [];
  indeterminate = 0;
  indeterminate_uint64 = 0;
  indeterminate_bool = false;
  vector_moved = λ s. true;
  S = ℕ;
  Address = Unit;
  socket = λ s. (some s, suc s);
  set_nonblocking = λ s fd. (true, s);
  get_addr_info = λ s host. (some tt, s);
  connect = λ s fd address port. (true, s);
  bind = λ s fd port. (true, s);
  listen = λ s fd. (true, s);
  accept = λ s fd. (none, s);
  close = λ s fd. s;
  write = λ s fd line. (sent (length line), s);
  read = λ s fd n. (end_of_stream, s);
  errno_is_eagain = λ s. false;
  socket_error = λ s fd. some 0;
  poll = λ s pfds ms. (poll_timed_out, s);
  usleep = λ s us. s;
  clock_gettime = λ s. (record { tv_sec = 0; tv_nsec = s * 1000000 }, s);
  ssl_ctx_new = λ s. (true, s);
  ssl_ctx_set_cipher_list = λ s. (true, s);
  ssl_new = λ s. (true, s);
  ssl_set_fd = λ s fd. (true, s);
  ssl_connect = λ s fd. (true, s);
  ssl_write = λ s fd line. (sent (length line), s);
  ssl_read = λ s fd n. (end_of_stream, s);
  ssl_get_error = λ s fd. zero_return;
  ssl_shutdown = λ s fd. s;
}

abbrev pub first_pool : PoolConfig
first_pool = record {
  name = text "main";
  host = text "pool.example";
  port = 3333;
  wallet = text "wallet";
  password = text "x";
  tls = false;
  priority = 0;
}

abbrev pub second_pool : PoolConfig
second_pool = record first_pool { name = text "spare"; port = 3334; priority = 1 }

abbrev pub two_pools : List PoolConfig
two_pools = first_pool ∷ second_pool ∷ []

abbrev pub whitelist : List WorkerConfig
whitelist = record { id = text "rig"; password = text "pw" } ∷ []

abbrev pub some_job : Job
some_job = record {
  job_id = text "j1";
  blob = text "0707";
  target = text "ffff";
  difficulty = [];
  height = 12;
  clean_jobs = true;
}

abbrev pub open_connection_at : ℕ → ConnectionType → Connection
open_connection_at fd type = record {
  fd = fd;
  type = type;
  name = text "peer";
  state = ConnectionState.connected;
  read_buffer = [];
  should_close = false;
  has_callbacks = true;
  ssl = false;
  ctx = false;
  sni_hostname = [];
  tls_handshake_complete = false;
  tls_want_read = false;
  tls_want_write = false;
  ssl_fd_attached = false;
}

abbrev pub rig : WorkerInfo
rig = record {
  conn = some 1;
  worker_id = text "rig";
  subscribed = true;
  authorized = true;
  extra_nonce2 = text "00000000";
}

-- A proxy that mines: the pool is connection 0 on socket 7, the worker connection 1 on socket 8.
abbrev pub mining : World ⦃p = demo⦄
mining = record {
  heap =
      (0, open_connection_at 7 ConnectionType.pool)
      ∷ (1, open_connection_at 8 ConnectionType.worker)
      ∷ [];
  next_address = 2;
  loop = record {
    connections = (7, 0) ∷ (8, 1) ∷ [];
    timeouts =
        record { next_fire_ms = 250; interval_ms = 100; callback = accept_worker; recurring = true }
        ∷ [];
    running = true;
  };
  pool_manager = record {
    pools = two_pools;
    current_pool_index = 0;
    current_pool = text "main";
    pool_conn = some 0;
    pool_fd = some 7;
    connected = true;
    authenticated = true;
    subscribed = true;
    current_job = some_job;
    has_job = true;
    share_to_worker = [];
    next_id = 2;
    reconnect_attempts = 0;
  };
  worker_manager = record {
    listen_fd = some 6;
    listen_port = 4444;
    workers = (8, rig) ∷ [];
    worker_configs = whitelist;
    require_whitelist = true;
    current_job = some_job;
    has_job = true;
    next_extra_nonce2 = 1;
  };
  os = 9;
  trace = [];
}
