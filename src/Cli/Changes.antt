-- ===== src/Cli/Changes.antt =====
-- The commands of src/cli.cpp that change or delete an entry.
use passdoq.Prelude.{ℕ, Bool, false, not, ◌||◌, ◌++◌, if◌then◌else◌}
use passdoq.Prelude.Exec.{Exec, pure, ◌>>=◌, ◌>>◌}
use passdoq.Prelude.Text.{Text, Bytes, codes, eq_text}
use passdoq.Platform.{Platform}
use passdoq.Vault.Entries
use passdoq.Cli.Console.{out, App, on_session, say, prompt_input, read_secret, print_entry}
use passdoq.Cli.Commands.{fail_with, succeed_with, keep_if_empty, caught, when_unlocked, save_and}

module _ ⦃p : Platform⦄ where
  abbrev new_secret : Text → Bytes → Exec App Bytes
  new_secret answer old =
      if eq_text answer (codes "y") || eq_text answer (codes "yes") then read_secret else pure old

  abbrev finish_update : Bool → Exec App ℕ
  finish_update updated =
      if not updated
      then fail_with (codes "Failed to update entry")
      else save_and (codes "Entry updated successfully")

  -- The body of the `try` of `cmd_update`.
  unfoldable pub update_found : Text → Exec App ℕ
  unfolding save_and
  update_found id = do
    entry ← on_session (Entries.get_entry id)
    say (out (codes "Current entry:"))
    print_entry entry false
    say (out (codes "\nEnter new values (leave empty to keep current):"))
    name ← prompt_input (codes "Name [" ++ entry.name ++ codes "]: ")
    username ← prompt_input (codes "Username [" ++ entry.username ++ codes "]: ")
    answer ← prompt_input (codes "Update secret? (y/n): ")
    secret ← new_secret answer entry.secret
    updated ← on_session (
        Entries.update_entry id (record entry {
          name = keep_if_empty name entry.name;
          username = keep_if_empty username entry.username;
          secret = secret;
        }))
    finish_update updated

  unfoldable pub update_body : Exec App ℕ
  unfolding update_found
  update_body = do id ← prompt_input (codes "Entry ID: "); caught (update_found id)

  unfoldable pub cmd_update : Exec App ℕ
  unfolding when_unlocked update_body
  cmd_update = when_unlocked update_body

  abbrev finish_delete : Bool → Exec App ℕ
  finish_delete deleted =
      if not deleted
      then fail_with (codes "Failed to delete entry")
      else save_and (codes "Entry deleted successfully")

  unfoldable pub delete_body : Exec App ℕ
  unfolding save_and
  delete_body = do
    id ← prompt_input (codes "Entry ID: ")
    confirm ← prompt_input (codes "Are you sure? (yes/no): ")
    if not (eq_text confirm (codes "yes"))
        then succeed_with (codes "Cancelled")
        else do deleted ← on_session (Entries.delete_entry id); finish_delete deleted

  unfoldable pub cmd_delete : Exec App ℕ
  unfolding when_unlocked delete_body
  cmd_delete = when_unlocked delete_body
