-- ===== src/Proxy/Main.antt =====
-- gpu-proxy-cpp/src/main.cpp: `main`. The files are an argument, and so are the signals that
-- arrive before `running` is tested.
use compute_market.Base.{ℕ, Bool, true, false, ◌||◌, List, [], ◌∷◌, Option, if◌then◌else◌}
use compute_market.Base.Text.{Text, text, text_eq}
use compute_market.Platform.{Platform}
use compute_market.World.{Result, ok, throws, faults, M, ◌>>=◌, ◌>>◌, pure}
use compute_market.Config.{ProxyConfig, load_from_file}
use compute_market.EventLoop.Run.{stop}
use compute_market.Proxy.{new_world, start, run_proxy}

-- What the command line asks for.
pub data Command : Type 0 where
  shows_help : Command
  runs : Text → Command

abbrev pub default_path : Text
default_path = text "/etc/gpu-proxy/config.json"

abbrev pub is_config : Text → Bool
is_config arg = text_eq arg (text "--config")

abbrev pub is_help : Text → Bool
is_help arg = text_eq arg (text "--help") || text_eq arg (text "-h")

-- The loop over the arguments after the program's name, with `config_path`.
unfoldable pub parse_arguments : Text → List Text → Command
parse_arguments path [] = runs path
parse_arguments path (arg ∷ []) = if is_help arg then shows_help else runs path
parse_arguments path (arg ∷ next ∷ rest) =
    let taken = parse_arguments next rest in
    let passed = parse_arguments path (next ∷ rest) in
    if is_config arg then taken else if is_help arg then shows_help else passed

-- The signal and `running` before it.
unfoldable pub signal_handler : ℕ → Bool → Bool
signal_handler signum running = false

unfoldable pub deliver : Bool → List ℕ → Bool
unfolding signal_handler
deliver running [] = running
deliver running (signum ∷ signals) = deliver (signal_handler signum running) signals

-- How `main` ends, if it does. `still_running` is a loop that goes on.
pub data Exit : Type 0 where
  returns : ℕ → Exit
  still_running undefined : Exit

module _ ⦃p : Platform⦄ where
  -- `proxy.stop()`, if the loop has ended.
  unfoldable pub finish : Bool → M Bool
  finish ended = if ended then (do stop; pure true) else pure false

  -- `while (running) { proxy.run(); break; }`
  unfoldable pub run_until_signal : Bool → ℕ → M Bool
  unfolding finish
  run_until_signal running rounds = do
    ended ← if running then run_proxy rounds else pure true
    finish ended

  -- The handler of `std::exception` returns 1.
  unfoldable pub exit_of : Result Bool → Exit
  exit_of (ok true w) = returns 0
  exit_of (ok false w) = still_running
  exit_of (throws w) = returns 1
  exit_of faults = undefined

  -- The body of `try` after the constructor.
  unfoldable pub exit_after_start : Bool → ℕ → Result Bool → Exit
  unfolding exit_of
  exit_after_start running rounds (ok true w) = exit_of (run_until_signal running rounds w)
  exit_after_start running rounds (ok false w) = returns 1
  exit_after_start running rounds (throws w) = returns 1
  exit_after_start running rounds faults = undefined

  unfoldable pub exit_after_load : Bool → ℕ → Result ProxyConfig → Exit
  unfolding exit_after_start
  exit_after_load running rounds (ok config w) =
      exit_after_start running rounds
        (start (new_world config.pools config.listen_port config.workers w.os))
  exit_after_load running rounds (throws w) = returns 1
  exit_after_load running rounds faults = undefined

  -- `GPUProxy proxy(config_path)`, before there are pools and workers.
  unfoldable pub load_config : (Text → Option Text) → p.S → Text → Result ProxyConfig
  load_config files os path = load_from_file (files path) (new_world [] 0 [] os)

  unfoldable pub run_command : (Text → Option Text) → Bool → ℕ → p.S → Command → Exit
  unfolding load_config exit_after_load
  run_command files running rounds os shows_help = returns 0
  run_command files running rounds os (runs path) =
      exit_after_load running rounds (load_config files os path)

  unfoldable pub main : (Text → Option Text) → List ℕ → ℕ → p.S → List Text → Exit
  unfolding run_command deliver
  main files signals rounds os args =
      run_command files (deliver true signals) rounds os (parse_arguments default_path args)
