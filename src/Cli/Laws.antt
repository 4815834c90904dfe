-- ===== src/Cli/Laws.antt =====
-- The handlers of src/cli.cpp that stop before they touch the vault, and the exit code of `run`.
use passdoq.Prelude.{ℕ, ◌≡◌, refl, ap, Bool, true, false, Option, some, List, [], ◌∷◌}
use passdoq.Prelude.Exec.{ok}
use passdoq.Prelude.Text.{Text, codes, eq_text}
use passdoq.Platform.{Platform}
use passdoq.Cli.Console.{App, say, read_line, prompt_input, prompt_password}
use passdoq.Cli.Commands.{cmd_init}
use passdoq.Cli.Changes.{delete_body}
use passdoq.Runcom.{Config}
use passdoq.Runcom.Files.{Host, load_defaults}
use passdoq.Cli.Run.{Command, handler, callbacks, parsed, parse_arguments, set_path, set_up, run}

module _ ⦃p : Platform⦄ where
  -- Where the two passwords that are typed differ, `init` ends with the exit code 1, the vault
  -- and the disk are as they were, and both lines are used up.
  cmd_init-mismatch :
      (password confirm : Text) (later : List Text) (a : App)
      → a.input ≡ password ∷ confirm ∷ later
      → eq_text password confirm ≡ false
      → let (r, b) = cmd_init a in (r ≡ ok 1) × (b.session ≡ a.session) × (b.input ≡ later)
  unfolding cmd_init prompt_password say read_line
  cmd_init-mismatch password confirm later a hi hd = rw (hi, hd) (refl, refl, refl)

  -- Where the answer to `Are you sure?` is not `yes`, the deletion ends with the exit code 0, and
  -- the vault and the disk are as they were.
  delete_body-cancelled :
      (id answer : Text) (later : List Text) (a : App)
      → a.input ≡ id ∷ answer ∷ later
      → eq_text answer (codes "yes") ≡ false
      → let (r, b) = delete_body a in (r ≡ ok 0) × (b.session ≡ a.session) × (b.input ≡ later)
  unfolding delete_body prompt_input say read_line
  delete_body-cancelled id answer later a hi hd = rw (hi, hd) (refl, refl, refl)

  -- Where a subcommand is given and its handler returns any code at all, `run` comes to its end with
  -- what the handler left, and its result, the exit code of the process, is 0.
  pub run-exit_code :
      (h : Host) (fuel n : ℕ) (vault : Option Text) (command : Command) (a b : App) (loaded : Bool)
      (c : Config)
      → load_defaults h fuel a.config ≡ some (loaded, c)
      → handler command (set_path vault (set_up h c a)) ≡ (ok n, b)
      → run h fuel true (parsed vault (command ∷ [])) a ≡ some (ok 0, b)
  unfolding run parse_arguments callbacks
  run-exit_code h fuel n vault command a b loaded c l e = rw l (ap some (rw e refl))
