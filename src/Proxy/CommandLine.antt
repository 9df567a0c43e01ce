-- ===== src/Proxy/CommandLine.antt =====
-- gpu-proxy-cpp/src/main.cpp: the command line as a list of options.
use compute_market.Base.{◌≡◌, refl, ap, ◌∙◌, sym, true, false, List, [], ◌∷◌, ◌++◌, append-nil}
use compute_market.Base.Text.{Text, text, text_eq, text_eq_refl}
use compute_market.Proxy.Main.{shows_help, runs, is_config, is_help, parse_arguments, default_path}

-- An option with its path, or an argument that `main` passes over.
pub data Argument : Type 0 where
  config : Text → Argument
  other : (arg : Text) → is_config arg ≡ false → is_help arg ≡ false → Argument

unfoldable pub written : List Argument → List Text
written [] = []
written (config path ∷ args) = text "--config" ∷ path ∷ written args
written (other arg c h ∷ args) = arg ∷ written args

-- The path that is given last.
unfoldable pub last_path : Text → List Argument → Text
last_path path [] = path
last_path path (config next ∷ args) = last_path next args
last_path path (other arg c h ∷ args) = last_path path args

parse-config :
    (path next : Text) (rest : List Text)
    → parse_arguments path (text "--config" ∷ next ∷ rest) ≡ parse_arguments next rest
unfolding parse_arguments
parse-config path next rest = rw (text_eq_refl (text "--config"), parse_arguments) refl

parse-other :
    (path arg : Text) (rest : List Text)
    → is_config arg ≡ false
    → is_help arg ≡ false
    → parse_arguments path (arg ∷ rest) ≡ parse_arguments path rest
unfolding parse_arguments
parse-other path arg [] c h = rw (h, parse_arguments) refl
parse-other path arg (next ∷ rest) c h = rw (c, h, parse_arguments) refl

-- The arguments before a suffix only set the path.
parse-written :
    (args : List Argument) (path : Text) (rest : List Text)
    → parse_arguments path (written args ++ rest) ≡ parse_arguments (last_path path args) rest
unfolding written last_path
parse-written [] path rest = refl
parse-written (config next ∷ args) path rest =
    parse-config path next (written args ++ rest) ∙ parse-written args next rest
parse-written (other arg c h ∷ args) path rest =
    parse-other path arg (written args ++ rest) c h ∙ parse-written args path rest

parse-help :
    (path arg : Text) (rest : List Text)
    → is_config arg ≡ false
    → is_help arg ≡ true
    → parse_arguments path (arg ∷ rest) ≡ shows_help
unfolding parse_arguments
parse-help path arg [] c h = rw (h, parse_arguments) refl
parse-help path arg (next ∷ rest) c h = rw (c, h, parse_arguments) refl

parse-nothing : (path : Text) → parse_arguments path [] ≡ runs path
unfolding parse_arguments
parse-nothing path = refl

parse-last_config : (path : Text) → parse_arguments path (text "--config" ∷ []) ≡ runs path
unfolding parse_arguments text text_eq
parse-last_config path = refl

-- The path is the one of the last `--config`, or the default; a `--config` at the end, with no path, is
-- passed over; `--help` and `-h` win over all that follows them, but not where they stand as a path.
pub parse_arguments-written :
    (args : List Argument) (arg : Text) (rest : List Text)
    → is_config arg ≡ false
    → is_help arg ≡ true
    → (parse_arguments default_path (written args) ≡ runs (last_path default_path args))
      × (parse_arguments default_path (written args ++ text "--config" ∷ [])
          ≡ runs (last_path default_path args))
      × (parse_arguments default_path (written args ++ arg ∷ rest) ≡ shows_help)
parse_arguments-written args arg rest c h = (
  ap (parse_arguments default_path) (sym (append-nil (written args)))
      ∙ (parse-written args default_path [] ∙ parse-nothing _),
  parse-written args default_path (text "--config" ∷ []) ∙ parse-last_config _,
  parse-written args default_path (arg ∷ rest) ∙ parse-help _ arg rest c h,
)
