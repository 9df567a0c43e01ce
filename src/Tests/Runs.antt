-- ===== src/Tests/Runs.antt =====
-- The theorems about whole runs of the proxy, from the command line on. `configured` is `demo` with a
-- configuration file of one pool, whose host cannot be resolved.
use compute_market.Base.{◌≡◌, ◌≢◌, refl, true, false, List, [], ◌∷◌, ◌++◌, Option, none, some, Bool}
use compute_market.Base.Text.{Text, text, text_eq}
use compute_market.Platform.{Platform}
use compute_market.World.{World, Result, ok, throws, faults, and_then}
use compute_market.Outcome.{Ends}
use compute_market.Preserve.{Preserves}
use compute_market.Config.{
  ProxyConfig, load_from_file, read_config, read_pools, read_pool, parse_host_port,
}
use compute_market.Proxy.{start, new_world, run_proxy, on_timeout}
use compute_market.Proxy.Timing.{check_timeouts-kept}
use compute_market.Proxy.Kept.{kept}
use compute_market.EventLoop.Tables.{now_ms}
use compute_market.EventLoop.Timers.{check_timeouts}
use compute_market.Proxy.Running.{every_round}
use compute_market.Proxy.Clock.{Listening}
use compute_market.Proxy.Whole.{IsProxy, run_proxy-IsProxy, run_proxy-every_round, start-IsProxy}
use compute_market.Proxy.Main.{
  runs, shows_help, parse_arguments, default_path, load_config, main, returns, is_config, is_help,
}
use compute_market.Proxy.CommandLine.{
  Argument, config, other, written, last_path, parse_arguments-written,
}
use compute_market.Proxy.Exit.{main-never_done, main-CannotStart, no_file}
use compute_market.PoolManager.Responses.{const_member}
use compute_market.PoolManager.Invariant.{Sound}
use compute_market.WorkerManager.Invariant.{Serving}
use compute_market.WorkerManager.Accept.{accept_worker as accept_clients}
use compute_market.WorkerManager.Soundness.{accept_worker-IsServing}
use compute_market.WorkerManager
use compute_market.PoolManager
use compute_market.PoolManager.Link.{try_connect_pool, try_pools}
use compute_market.Connection.Connect.{connect_to_pool}
use compute_market.EventLoop.Tables.{set_timeout}
use compute_market.Tests.Demo.{
  Json, words, number, field, item, no_items, no_fields, demo, two_pools, whitelist, first_pool,
}

abbrev pool_entry : Json
pool_entry = field (text "name") (words (text "main")) (
    field (text "url") (words (text "pool.example")) (
      field (text "wallet") (words (text "wallet")) (
        field (text "password") (words (text "x"))
          (field (text "tls") (words (text "no")) (field (text "priority") (number 0) no_fields)))))

abbrev pub configured : Platform
configured = record demo {
  parse_stream = λ line. some (field (text "pools") (item pool_entry no_items) no_fields);
  get_bool = λ j. some false;
  get_addr_info = λ s host. (none, s);
}

run_proxy-IsProxy_example :
    Ends ⦃p = configured⦄
      (IsProxy ⦃p = configured⦄ two_pools whitelist)
      (IsProxy ⦃p = configured⦄ two_pools whitelist)
      (and_then ⦃p = configured⦄
        (start ⦃p = configured⦄ (new_world ⦃p = configured⦄ two_pools 4444 whitelist 3))
        (λ _. run_proxy ⦃p = configured⦄ 7))
run_proxy-IsProxy_example = run_proxy-IsProxy ⦃p = configured⦄ two_pools 4444 whitelist 3 7

abbrev config_files : Text → Option Text
config_files path = some (text "{}")

passed_over : (is_config (text "-v") ≡ false) × (is_help (text "-v") ≡ false)
unfolding text text_eq
passed_over = (refl, refl)

help : (is_config (text "-h") ≡ false) × (is_help (text "-h") ≡ true)
unfolding text text_eq
help = (refl, refl)

abbrev arguments : List Argument
arguments =
    other (text "-v") passed_over.0 passed_over.1
    ∷ config (text "/tmp/a")
    ∷ config (text "/tmp/b")
    ∷ []

abbrev one_pool : ProxyConfig
one_pool = record {
  listen_port = 0;
  api_port = 0;
  log_level = [];
  pools =
      record first_pool {
        name = text "main";
        host = text "pool.example";
        port = 3333;
        wallet = text "wallet";
        password = text "x";
        tls = false;
        priority = 0;
      }
      ∷ [];
  workers = [];
}

parse_arguments-written_example :
    (parse_arguments default_path (written arguments) ≡ runs (last_path default_path arguments))
    × (parse_arguments default_path (written arguments ++ text "--config" ∷ [])
        ≡ runs (last_path default_path arguments))
    × (parse_arguments default_path (written arguments ++ text "-h" ∷ []) ≡ shows_help)
parse_arguments-written_example = parse_arguments-written arguments (text "-h") [] help.0 help.1

loaded :
    load_config ⦃p = configured⦄ config_files 3 default_path
    ≡ ok one_pool (new_world ⦃p = configured⦄ [] 0 [] 3)
unfolding load_config load_from_file read_config read_pools read_pool text_eq text const_member
    parse_host_port
loaded = refl

abbrev world_of : Result ⦃p = configured⦄ Bool → World ⦃p = configured⦄ → World ⦃p = configured⦄
world_of (ok b w) w' = w
world_of (throws w) w' = w
world_of faults w' = w'

-- The proxy as its constructors make it, and after `start`.
abbrev pub made : World ⦃p = configured⦄
made = new_world ⦃p = configured⦄ one_pool.pools one_pool.listen_port one_pool.workers 3

abbrev started : World ⦃p = configured⦄
started = world_of (start ⦃p = configured⦄ made) made

made-started : start ⦃p = configured⦄ made ≡ ok true started
unfolding start new_world PoolManager.start try_connect_pool try_pools connect_to_pool
    WorkerManager.start set_timeout
made-started = refl

started-listens : started.worker_manager.listen_fd ≡ some 4
unfolding start new_world PoolManager.start try_connect_pool try_pools connect_to_pool
    WorkerManager.start set_timeout
started-listens = refl

plain : parse_arguments default_path [] ≡ runs default_path
unfolding parse_arguments
plain = refl

main-never_done_example : main ⦃p = configured⦄ config_files [] 7 3 [] ≢ returns 0
unfolding new_world
main-never_done_example =
    main-never_done ⦃p = configured⦄ config_files 7 3 [] default_path one_pool
      (new_world ⦃p = configured⦄ [] 0 [] 3) started 4 plain loaded made-started started-listens

started-IsProxy : IsProxy ⦃p = configured⦄ one_pool.pools one_pool.workers started
started-IsProxy = start-IsProxy ⦃p = configured⦄ one_pool.pools 0 one_pool.workers 3 made-started

run_proxy-every_round_example :
    run_proxy ⦃p = configured⦄ 7 started
    ≡ every_round ⦃p = configured⦄ 7
        (record started { loop = record started.loop { running = true } })
run_proxy-every_round_example =
    run_proxy-every_round ⦃p = configured⦄ one_pool.pools one_pool.workers 4 7 started
      started-IsProxy started-listens

main-CannotStart_example : main ⦃p = configured⦄ (λ path. none) (15 ∷ []) 7 3 [] ≡ returns 1
main-CannotStart_example =
    main-CannotStart ⦃p = configured⦄ (λ path. none) (15 ∷ []) 7 3 [] default_path plain
      (no_file refl)

accept_worker-IsServing_example :
    Preserves ⦃p = demo⦄ (Sound two_pools (Serving whitelist Listening)) (accept_clients ⦃p = demo⦄)
accept_worker-IsServing_example =
    accept_worker-IsServing ⦃p = demo⦄ {pools = two_pools} {configs = whitelist} Listening

check_timeouts-kept_example :
    Ends ⦃p = configured⦄
      (λ w'.
        IsProxy ⦃p = configured⦄ one_pool.pools one_pool.workers w'
        × (w'.loop.timeouts ≡ kept (now_ms ⦃p = configured⦄ started.os).0 started.loop.timeouts))
      (IsProxy ⦃p = configured⦄ one_pool.pools one_pool.workers)
      (check_timeouts ⦃p = configured⦄ (on_timeout ⦃p = configured⦄) started)
check_timeouts-kept_example =
    check_timeouts-kept ⦃p = configured⦄ one_pool.pools one_pool.workers started started-IsProxy
