-- ===== src/Cli/Run.antt =====
-- `Application::run` and `setup_commands` of src/cli.cpp, and src/main.cpp. CLI11 is not part of the
-- repository: what it makes of the arguments is a parameter.
use passdoq.Prelude.{
  ℕ, Bool, false, not, ◌||◌, Option, none, some, List, [], ◌∷◌, ◌++◌, if◌then◌else◌, drop, ◌==◌,
}
use passdoq.Prelude.Exec.{Result, ok, throw, fault, Exec, pure, modify, ◌>>◌}
use passdoq.Prelude.Text.{Text, codes, eq_text}
use passdoq.Platform.{Platform}
use passdoq.Runcom.{Config, get_string}
use passdoq.Runcom.Files.{Host, load_defaults}
use passdoq.Cli.Console.{App, err, say}
use passdoq.Cli.Commands.{
  cmd_init, cmd_add, cmd_get, cmd_list, cmd_search, cmd_lock, cmd_unlock, cmd_config, what,
}
use passdoq.Cli.Changes.{cmd_update, cmd_delete}

-- The subcommands of `setup_commands`.
pub data Command : Type 0 where
  init add get list search update delete lock unlock config : Command

-- What the parse of the arguments gives: an error with its exit code (a call for help is one, with
-- the code 0), or the value of `--vault` and the subcommands in turn.
pub data Parsed : Type 0 where
  parse_error : ℕ → Parsed
  parsed : Option Text → List Command → Parsed

abbrev default_path : Text
default_path = codes "~/.passdoq.vault"

abbrev with_home : Option Text → Text → Text
with_home none path = path
with_home (some home) path = home ++ drop 1 path

abbrev starts_with_tilde : Text → Bool
starts_with_tilde [] = false
starts_with_tilde (c ∷ t) = c == 126

-- The path of the vault before the arguments are parsed; `home` is the variable `HOME`.
unfoldable pub start_path : Option Text → Config → Text → Text
start_path home c path =
    let chosen =
      if eq_text path [] || eq_text path default_path
      then get_string (codes "vault.path") default_path c
      else path in
    if starts_with_tilde chosen then with_home home chosen else chosen

abbrev pub set_path : Option Text → App → App
set_path none a = a
set_path (some path) a = record a { vault_path = path }

module _ ⦃p : Platform⦄ where
  -- The handler of a subcommand.
  unfoldable pub handler : Command → Exec App ℕ
  handler init = cmd_init
  handler add = cmd_add
  handler get = cmd_get
  handler list = cmd_list
  handler search = cmd_search
  handler update = cmd_update
  handler delete = cmd_delete
  handler lock = cmd_lock
  handler unlock = cmd_unlock
  handler config = cmd_config

  -- The callbacks, whose results are dropped: CLI11 takes them as functions without one.
  unfoldable pub callbacks : List Command → Exec App (Unit {0})
  unfolding handler
  callbacks [] = pure tt
  callbacks (c ∷ cs) = do handler c; callbacks cs

  -- `app_->parse`, which runs the callbacks, and what follows it.
  unfoldable pub parse_arguments : Parsed → Exec App ℕ
  unfolding callbacks
  parse_arguments (parse_error code) = pure code
  parse_arguments (parsed vault commands) = do modify (set_path vault); callbacks commands; pure 0

  -- The configuration that was loaded, and the path that follows from it.
  abbrev pub set_up : Host → Config → App → App
  set_up h c a = record a {
    config = c;
    vault_path = start_path (h.getenv (codes "HOME")) c a.vault_path;
  }

  abbrev run_loaded : Host → Parsed → Option (Bool × Config) → App → Option (Result ℕ × App)
  run_loaded h arguments none a = none
  run_loaded h arguments (some (loaded, c)) a = some (parse_arguments arguments (set_up h c a))

  -- `run`; `crypto_init` is the result of `crypto::init`, and the fuel is that of `load_defaults`.
  unfoldable pub run : Host → ℕ → Bool → Parsed → App → Option (Result ℕ × App)
  unfolding parse_arguments start_path
  run h fuel crypto_init arguments a =
      if not crypto_init
      then some ((do say (err (codes "Failed to initialize crypto library")); pure 1) a)
      else run_loaded h arguments (load_defaults h fuel a.config) a

-- `main`, around what `run` gives: the exit code, or `none` for undefined behaviour.
unfoldable pub main_code : Result ℕ × App → Option ℕ × App
main_code (ok n, a) = (some n, a)
main_code (throw e, a) = (some 1, (say (err (codes "Fatal error: " ++ what e)) a).1)
main_code (fault, a) = (none, a)
