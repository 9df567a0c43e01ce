-- ===== src/Proxy/Exit.antt =====
-- gpu-proxy-cpp/src/main.cpp: the exit codes of `main`.
use compute_market.Base.{
  ℕ, zero, suc, ◌≡◌, ◌≢◌, refl, ap, ◌∙◌, sym, Bool, true, false, List, [], Option, none, some,
}
use compute_market.Base.Text.{Text}
use compute_market.Platform.{Platform}
use compute_market.World.{
  PoolConfig, WorkerConfig, World, Result, ok, throws, faults, M, and_then, or_throw,
}
use compute_market.Config.{ProxyConfig, load_from_file, read_config}
use compute_market.EventLoop.Run.{run_once}
use compute_market.Proxy.{
  connection_callbacks, on_timeout, new_world, new_pool_manager, start, run_proxy,
}
use compute_market.Proxy.Running.{every_round}
use compute_market.Proxy.Whole.{start-IsProxy, run_proxy-every_round}
use compute_market.Proxy.Main.{
  runs, parse_arguments, default_path, returns, run_until_signal, finish, exit_of, exit_after_start,
  exit_after_load, load_config, run_command, deliver, main,
}

module _ ⦃p : Platform⦄ where
  -- A run that has not come to its end.
  data Unended : Result Bool → Type 0 where
    goes_on : (w : World) → Unended (ok false w)
    unended_throws : (w : World) → Unended (throws w)
    unended_faults : Unended faults

  Unended-after :
      {A : Type 0} (r : Result A) {k : M Bool}
      → ((w : World) → Unended (k w))
      → Unended (and_then r (λ _. k))
  Unended-after (ok a w) h = h w
  Unended-after (throws w) h = unended_throws w
  Unended-after faults h = unended_faults

  every_round-Unended : (rounds : ℕ) (w : World) → Unended (every_round rounds w)
  unfolding every_round
  every_round-Unended zero w = goes_on w
  every_round-Unended (suc rounds) w =
      Unended-after (run_once connection_callbacks on_timeout w) (every_round-Unended rounds)

  exit_of-Unended : {r : Result Bool} → Unended r → exit_of (and_then r finish) ≢ returns 0
  unfolding exit_of finish
  exit_of-Unended (goes_on w) e = cc
  exit_of-Unended (unended_throws w) e = cc
  exit_of-Unended unended_faults e = cc

  run_until_signal-Unended :
      (rounds : ℕ) (w w' : World)
      → run_proxy rounds w ≡ every_round rounds w'
      → exit_of (run_until_signal true rounds w) ≢ returns 0
  unfolding run_until_signal
  run_until_signal-Unended rounds w w' e h =
      exit_of-Unended (every_round-Unended rounds w')
        (ap (λ r. exit_of (and_then r finish)) (sym e) ∙ h)

  -- What `main` does for a configuration that is loaded.
  main-loaded :
      (files : Text → Option Text) (signals : List ℕ) (rounds : ℕ) (os : p.S) (args : List Text)
      (path : Text) (config : ProxyConfig) (w0 : World) (r : Result Bool)
      → parse_arguments default_path args ≡ runs path
      → load_config files os path ≡ ok config w0
      → start (new_world config.pools config.listen_port config.workers w0.os) ≡ r
      → main files signals rounds os args ≡ exit_after_start (deliver true signals) rounds r
  unfolding main run_command exit_after_load
  main-loaded files signals rounds os args path config w0 r h l s =
      ap (run_command files (deliver true signals) rounds os) h
      ∙ (ap (exit_after_load (deliver true signals) rounds) l
          ∙ ap (exit_after_start (deliver true signals) rounds) s)

  -- A proxy that has started and listens does not come to the end of `main`, after any number of
  -- rounds: it is still running, or a round has thrown, which is the exit code 1, or was undefined
  -- behaviour. No signal has come before the flag is tested.
  pub main-never_done :
      (files : Text → Option Text) (rounds : ℕ) (os : p.S) (args : List Text) (path : Text)
      (config : ProxyConfig) (w0 w : World) (fd : ℕ)
      → parse_arguments default_path args ≡ runs path
      → load_config files os path ≡ ok config w0
      → start (new_world config.pools config.listen_port config.workers w0.os) ≡ ok true w
      → w.worker_manager.listen_fd ≡ some fd
      → main files [] rounds os args ≢ returns 0
  unfolding exit_after_start deliver
  main-never_done files rounds os args path config w0 w fd h l s listens e =
      run_until_signal-Unended rounds w _
        (run_proxy-every_round config.pools config.workers fd rounds w
          (start-IsProxy config.pools config.listen_port config.workers w0.os s) listens)
        (sym (main-loaded files [] rounds os args path config w0 (ok true w) h l s) ∙ e)

  exit_after_start-nil :
      (running : Bool) (rounds port : ℕ) (workers : List WorkerConfig) (os : p.S)
      (pools : List PoolConfig)
      → pools ≡ []
      → exit_after_start running rounds (start (new_world pools port workers os)) ≡ returns 1
  unfolding exit_after_start start new_world new_pool_manager
  exit_after_start-nil running rounds port workers os pools e =
      ap (λ ps. exit_after_start running rounds (start (new_world ps port workers os))) e

  main-fails :
      (files : Text → Option Text) (signals : List ℕ) (rounds : ℕ) (os : p.S) (args : List Text)
      (path : Text) (w0 : World)
      → parse_arguments default_path args ≡ runs path
      → load_config files os path ≡ throws w0
      → main files signals rounds os args ≡ returns 1
  unfolding main run_command exit_after_load
  main-fails files signals rounds os args path w0 h l =
      ap (run_command files (deliver true signals) rounds os) h
      ∙ ap (exit_after_load (deliver true signals) rounds) l

  -- What `load_from_file` does with the text of the file.
  abbrev after_reading : Text → M ProxyConfig
  after_reading content w = and_then (or_throw (p.parse_stream content) w) read_config

  load-no_file :
      (files : Text → Option Text) (os : p.S) (path : Text)
      → files path ≡ none
      → load_config files os path ≡ throws (new_world [] 0 [] os)
  unfolding load_config load_from_file
  load-no_file files os path e =
      ap (λ o. and_then (or_throw o (new_world [] 0 [] os)) after_reading) e

  load-no_json :
      (files : Text → Option Text) (os : p.S) (path content : Text)
      → files path ≡ some content
      → p.parse_stream content ≡ none
      → load_config files os path ≡ throws (new_world [] 0 [] os)
  unfolding load_config load_from_file
  load-no_json files os path content e n =
      ap (λ o. and_then (or_throw o (new_world [] 0 [] os)) after_reading) e
      ∙ ap (λ o. and_then (or_throw o (new_world [] 0 [] os)) read_config) n

  -- Why the proxy cannot start: there is no file, it does not begin with a JSON value, or it names no
  -- pool.
  pub data CannotStart (files : Text → Option Text) (os : p.S) (path : Text) : Type 0 where
    no_file : files path ≡ none → CannotStart files os path
    no_json :
        (content : Text)
        → files path ≡ some content
        → p.parse_stream content ≡ none
        → CannotStart files os path
    no_pools :
        (config : ProxyConfig) (w : World)
        → load_config files os path ≡ ok config w
        → config.pools ≡ []
        → CannotStart files os path

  -- If there is no configuration file, it does not begin with a JSON value or it names no pool, `main`
  -- returns 1, whatever the signals and the number of rounds.
  pub main-CannotStart :
      (files : Text → Option Text) (signals : List ℕ) (rounds : ℕ) (os : p.S) (args : List Text)
      (path : Text)
      → parse_arguments default_path args ≡ runs path
      → CannotStart files os path
      → main files signals rounds os args ≡ returns 1
  main-CannotStart files signals rounds os args path h (no_file e) =
      main-fails files signals rounds os args path _ h (load-no_file files os path e)
  main-CannotStart files signals rounds os args path h (no_json content e n) =
      main-fails files signals rounds os args path _ h (load-no_json files os path content e n)
  main-CannotStart files signals rounds os args path h (no_pools config w l e) =
      main-loaded files signals rounds os args path config w _ h l refl
      ∙ exit_after_start-nil (deliver true signals) rounds config.listen_port config.workers w.os
          config.pools e
