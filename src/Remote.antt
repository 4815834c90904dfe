-- ===== src/Remote.antt =====
-- src/remote.cpp and src/remote.hpp: the handlers that the RPC server binds, over the session of
-- its vault, and what the client makes of their answers. The transport is rpclib's: an answer is
-- the result of a handler, and an exception there or on the way is an exception in the client.
pub mod Laws
use passdoq.Prelude.{ℕ, Bool, true, false, not, ◌&&◌, ◌||◌, List, [], ◌∷◌, if◌then◌else◌, map}
use passdoq.Prelude.Exec.{Result, ok, throw, fault, Exec, pure, gets, try_catch, ◌>>=◌, ◌>>◌}
use passdoq.Prelude.Text.{Text, Bytes, eq_text}
use passdoq.Platform.{Platform}
use passdoq.Vault.{Entry, Session, is_unlocked}
use passdoq.Vault.Storage.{save}
use passdoq.Vault.Keys
use passdoq.Vault.Entries

pub record RpcServer : Type 0 where
  pub port : ℕ
  pub is_running : Bool
  -- whether `bind_vault` was called: `vault_` is not null
  pub bound : Bool

abbrev pub new_server : ℕ → RpcServer
new_server port = record { port = port; is_running = false; bound = false }

unfoldable pub bind_vault : RpcServer → RpcServer
bind_vault r = record r { bound = true }

unfoldable pub start_server : RpcServer → Bool × RpcServer
start_server r = if r.is_running then (false, r) else (true, record r { is_running = true })

unfoldable pub stop_server : RpcServer → Bool × RpcServer
stop_server r = if not r.is_running then (false, r) else (true, record r { is_running = false })

-- `run`, up to the loop of rpclib, which serves the calls.
unfoldable pub run_server : RpcServer → RpcServer
unfolding start_server
run_server r = if not r.is_running then (start_server r).1 else r

abbrev pub Answer : Type 0
Answer = Text × Text × Text

abbrev no_answer : Answer
no_answer = ([], [], [])

-- The entry that `add_entry` of the server makes of its arguments.
abbrev pub plain_entry : Text → Text → Bytes → Entry
plain_entry name username secret = record {
  id = [];
  name = name;
  username = username;
  secret = secret;
  metadata = [];
  tags = [];
  created = 0;
  modified = 0;
}

abbrev ids : List Entry → List Text
ids l = map (λ e. e.id) l

module _ ⦃p : Platform⦄ (r : RpcServer) where
  -- `vault_ && vault_->is_unlocked()`
  abbrev pub is_open : Session → Bool
  is_open s = r.bound && is_unlocked s.vault

  unfoldable pub handle_unlock : Text → Exec Session Bool
  handle_unlock passphrase s = if not r.bound then pure false s else Keys.unlock passphrase s

  unfoldable pub handle_lock : Exec Session (Unit {0})
  handle_lock s = if r.bound then Keys.lock s else pure tt s

  -- The result of `save` is dropped.
  unfoldable pub handle_add_entry : Text → Text → Bytes → Exec Session Text
  unfolding is_unlocked
  handle_add_entry name username secret s =
      if not (is_open s)
      then pure [] s
      else (do id ← Entries.add_entry (plain_entry name username secret); save; pure id) s

  unfoldable pub handle_get_entry : Text → Exec Session Answer
  unfolding is_unlocked
  handle_get_entry id s =
      if not (is_open s)
      then pure no_answer s
      else try_catch
          (do entry ← Entries.get_entry id; pure (entry.name, entry.username, entry.secret))
          (pure no_answer) s

  unfoldable pub handle_list_entries : Exec Session (List Text)
  unfolding is_unlocked
  handle_list_entries s =
      if not (is_open s)
      then pure [] s
      else (do entries ← Entries.list_entries; pure (ids entries)) s

  abbrev save_if : Bool → Exec Session Bool
  save_if false = pure false
  save_if true = do save; pure true

  unfoldable pub handle_delete_entry : Text → Exec Session Bool
  unfolding is_unlocked
  handle_delete_entry id s =
      if not (is_open s)
      then pure false s
      else (do result ← Entries.delete_entry id; save_if result) s

-- `RpcClient`. rpclib connects by itself, at the first call, and no method looks at `connected_`.
pub record RpcClient : Type 0 where
  pub host : Text
  pub port : ℕ
  pub is_connected : Bool

abbrev pub new_client : Text → ℕ → RpcClient
new_client host port = record { host = host; port = port; is_connected = false }

unfoldable pub connect : RpcClient → Bool × RpcClient
connect c = (true, record c { is_connected = true })

unfoldable pub disconnect : RpcClient → RpcClient
disconnect c = record c { is_connected = false }

-- `RpcClient::get_entry`: whether an entry was found, and the three texts of the caller, `old`
-- before, which stay where the call throws.
unfoldable pub client_get_entry : Answer → Result Answer → Bool × Answer
client_get_entry old (ok (name, username, secret)) =
    (not (eq_text name []), (name, username, secret))
client_get_entry old (throw e) = (false, old)
client_get_entry old fault = (false, old)

-- The other methods of `RpcClient`: the answer, or a default where the call throws.
abbrev answer_or : {A : Type 0} → A → Result A → A
answer_or d (ok a) = a
answer_or d (throw e) = d
answer_or d fault = d

unfoldable pub client_unlock : Result Bool → Bool
client_unlock r = answer_or false r

unfoldable pub client_lock : Result (Unit {0}) → Unit {0}
client_lock r = answer_or tt r

unfoldable pub client_add_entry : Result Text → Text
client_add_entry r = answer_or [] r

unfoldable pub client_list_entries : Result (List Text) → List Text
client_list_entries r = answer_or [] r

unfoldable pub client_delete_entry : Result Bool → Bool
client_delete_entry r = answer_or false r
