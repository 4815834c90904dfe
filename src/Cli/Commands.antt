-- ===== src/Cli/Commands.antt =====
-- The command handlers of src/cli.cpp; the result is the exit code.
use passdoq.Prelude.{ℕ, Bool, true, false, not, List, [], ◌∷◌, ◌++◌, if◌then◌else◌, length}
use passdoq.Prelude.Exec.{
  Result, ok, throw, fault, Error, runtime_error, invalid_argument, library_error, Exec, pure, gets,
  ◌>>=◌, ◌>>◌,
}
use passdoq.Prelude.Text.{Text, Bytes, codes, eq_text}
use passdoq.Platform.{Platform}
use passdoq.Vault.{Entry, is_uninitialized_state, is_unlocked}
use passdoq.Vault.Time.{decimal}
use passdoq.Vault.Storage
use passdoq.Vault.Keys
use passdoq.Vault.Entries
use passdoq.Runcom.{Config, get_string, list_keys}
use passdoq.Cli.Console.{
  Line, out, err, App, on_session, say, prompt_input, prompt_password, read_secret, parse_tags,
  print_entry, print_lines, list_lines, rule,
}

-- A message on the error stream, and the exit code 1.
abbrev pub fail_with : Text → Exec App ℕ
fail_with message = do say (err message); pure 1

abbrev pub succeed_with : Text → Exec App ℕ
succeed_with message = do say (out message); pure 0

-- `if (!text.empty()) field = text`
abbrev pub keep_if_empty : Text → Text → Text
keep_if_empty [] old = old
keep_if_empty (c ∷ t) old = c ∷ t

abbrev pub entry_of : Text → Text → Bytes → List Text → Entry
entry_of name username secret tags = record {
  id = [];
  name = name;
  username = username;
  secret = secret;
  metadata = [];
  tags = tags;
  created = 0;
  modified = 0;
}

-- `e.what()`; the text of an exception that a library throws is the library's, and is left out.
abbrev pub what : Error → Text
what (runtime_error m) = m
what (invalid_argument m) = m
what library_error = []

abbrev report : Result ℕ × App → Result ℕ × App
report (ok n, a) = (ok n, a)
report (throw e, a) = fail_with (codes "Error: " ++ what e) a
report (fault, a) = (fault, a)

-- `try { body } catch (const std::exception& e)`, where the handler prints the message.
abbrev pub caught : Exec App ℕ → Exec App ℕ
caught body a = report (body a)

abbrev print_found : List Entry → List Line → Exec App ℕ
print_found [] header = succeed_with (codes "No entries found")
print_found (e ∷ es) header = do
  print_lines header
  print_lines (rule ∷ list_lines (e ∷ es))
  pure 0

config_lines : List Text → Config → List Line
config_lines [] c = []
config_lines (k ∷ ks) c =
    out (codes "  " ++ k ++ codes " = " ++ get_string k [] c) ∷ config_lines ks c

module _ ⦃p : Platform⦄ where
  unfoldable pub ensure_vault_open : Exec App Bool
  ensure_vault_open a =
      if is_uninitialized_state (a.session.state)
      then (do
        opened ← on_session (Keys.open_vault a.vault_path)
        if not opened
            then (do
              say (err (codes "Failed to open vault. Use 'init' to create a new vault."))
              pure false)
            else pure true)
          a
      else pure true a

  -- `ensure_vault_unlocked` once the vault is open.
  unfoldable pub ask_password : Exec App Bool
  ask_password a =
      if not (is_unlocked (a.session.vault))
      then (do
        password ← prompt_password (codes "Password: ")
        opened ← on_session (Keys.unlock password)
        if not opened
            then (do say (err (codes "Failed to unlock vault")); pure false)
            else pure true)
          a
      else pure true a

  unfoldable pub ensure_vault_unlocked : Exec App Bool
  unfolding ensure_vault_open ask_password
  ensure_vault_unlocked = do
    opened ← ensure_vault_open
    if not opened then pure false else ask_password

  -- The first lines of a command that needs the entries.
  unfoldable pub when_unlocked : Exec App ℕ → Exec App ℕ
  when_unlocked body = do ready ← ensure_vault_unlocked; if not ready then pure 1 else body

  unfoldable pub save_and : Text → Exec App ℕ
  save_and message = do
    saved ← on_session Storage.save
    if not saved then fail_with (codes "Failed to save vault") else succeed_with message

  unfoldable pub init_with : Text → Text → Exec App ℕ
  init_with path password = do
    created ← on_session (Keys.create path password)
    if not created
        then fail_with (codes "Failed to create vault")
        else succeed_with (codes "Vault created successfully")

  unfoldable pub cmd_init : Exec App ℕ
  unfolding init_with
  cmd_init = do
    path ← gets (λ a. a.vault_path)
    say (out (codes "Initializing new vault at: " ++ path))
    password ← prompt_password (codes "Enter master password: ")
    confirm ← prompt_password (codes "Confirm master password: ")
    if not (eq_text password confirm)
        then fail_with (codes "Passwords do not match")
        else init_with path password

  unfoldable pub add_body : Exec App ℕ
  unfolding save_and
  add_body = do
    name ← prompt_input (codes "Name: ")
    username ← prompt_input (codes "Username: ")
    secret ← read_secret
    tags_str ← prompt_input (codes "Tags (comma-separated): ")
    id ← on_session (Entries.add_entry (entry_of name username secret (parse_tags tags_str)))
    save_and (codes "Entry added with ID: " ++ id)

  unfoldable pub cmd_add : Exec App ℕ
  unfolding when_unlocked add_body
  cmd_add = when_unlocked add_body

  unfoldable pub get_body : Exec App ℕ
  get_body = do
    id ← prompt_input (codes "Entry ID: ")
    caught (do entry ← on_session (Entries.get_entry id); print_entry entry true; pure 0)

  unfoldable pub cmd_get : Exec App ℕ
  unfolding when_unlocked get_body
  cmd_get = when_unlocked get_body

  unfoldable pub list_body : Exec App ℕ
  list_body = do
    entries ← on_session Entries.list_entries
    print_found entries (out (codes "\nEntries:") ∷ [])

  unfoldable pub cmd_list : Exec App ℕ
  unfolding when_unlocked list_body
  cmd_list = when_unlocked list_body

  unfoldable pub search_body : Exec App ℕ
  search_body = do
    query ← prompt_input (codes "Search query: ")
    entries ← on_session (Entries.search_entries query)
    print_found entries
        (out (codes "\nFound " ++ decimal (length entries) ++ codes " entries:") ∷ [])

  unfoldable pub cmd_search : Exec App ℕ
  unfolding when_unlocked search_body
  cmd_search = when_unlocked search_body

  unfoldable pub cmd_lock : Exec App ℕ
  cmd_lock = do on_session Keys.lock; succeed_with (codes "Vault locked")

  unfoldable pub unlock_body : Exec App ℕ
  unlock_body = do
    password ← prompt_password (codes "Password: ")
    opened ← on_session (Keys.unlock password)
    if not opened
        then fail_with (codes "Failed to unlock vault (incorrect password?)")
        else succeed_with (codes "Vault unlocked")

  unfoldable pub cmd_unlock : Exec App ℕ
  unfolding unlock_body
  cmd_unlock = do opened ← ensure_vault_open; if not opened then pure 1 else unlock_body

-- `cmd_config` prints the keys with their values as texts.
unfoldable pub cmd_config : Exec App ℕ
unfolding config_lines
cmd_config = do
  config ← gets (λ a. a.config)
  print_lines (out (codes "Configuration:") ∷ config_lines (list_keys config) config)
  pure 0
