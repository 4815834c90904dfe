-- ===== src/Vault/Keys.antt =====
-- `create`, `open`, `unlock`, `lock` and `rekey` of src/vault.cpp: the state of the vault and its
-- two keys.
pub mod Reopen
pub mod Lifecycle
pub mod Locking
pub mod Created
use passdoq.Prelude.{
  ℕ, Bool, true, false, not, Option, none, some, List, [], ◌++◌, length, drop, replicate, ltb, ◌==◌,
  if◌then◌else◌,
}
use passdoq.Prelude.Exec.{Exec, pure, gets, modify, or_undefined, try_catch, ◌>>=◌, ◌>>◌}
use passdoq.Prelude.Text.{Text, Bytes}
use passdoq.Platform.{Platform}
use passdoq.Crypto.{
  DerivedKey, EncryptedData, master_key_size, data_key_size, generate_data_key, derive_master_key,
  encrypt, decrypt,
}
use passdoq.Vault.{
  VaultHeader, Vault, VaultState, locked, unlocked, uninitialized, Session, on_world,
  is_unlocked_state, is_locked_state, is_uninitialized_state, ensure_unlocked,
}
use passdoq.Vault.Storage.{save, load, set_header}

-- `std::copy(source.begin(), source.end(), target)`; `none` is a write past the end.
abbrev pub copy_into : Bytes → Bytes → Option Bytes
copy_into source target =
    if ltb (length target) (length source)
    then none
    else some (source ++ drop (length source) target)

abbrev pub set_path : Text → Session → Session
set_path path s = record s { vault = record (s.vault) { path = path } }

abbrev pub set_state : VaultState → Session → Session
set_state state s = record s { vault = record (s.vault) { state = state } }

abbrev pub set_master_key : Option Bytes → Session → Session
set_master_key key s = record s { vault = record (s.vault) { master_key = key } }

abbrev pub set_data_key : Option Bytes → Session → Session
set_data_key key s = record s { vault = record (s.vault) { data_key = key } }

-- `master_key_ = make_unique<SecureBuffer>(MASTER_KEY_SIZE)`, and the copy into it.
unfoldable pub store_master_key : Bytes → Exec Session (Unit {0})
store_master_key key = do
  buffer ← or_undefined (copy_into key (replicate master_key_size 0))
  modify (set_master_key (some buffer))

unfoldable pub store_data_key : Bytes → Exec Session (Unit {0})
store_data_key key = do
  buffer ← or_undefined (copy_into key (replicate data_key_size 0))
  modify (set_data_key (some buffer))

-- The assignments to the header that keep its version.
abbrev pub set_encrypted_key : EncryptedData → Session → Session
set_encrypted_key e s =
    set_header (record (s.header) { encrypted_data_key = e.ciphertext; data_key_nonce = e.nonce }) s

-- The data key of the header, as it is handed to `decrypt`.
abbrev pub wrapped_key : VaultHeader → EncryptedData
wrapped_key h = record { ciphertext = h.encrypted_data_key; nonce = h.data_key_nonce; mac = [] }

module _ ⦃p : Platform⦄ where
  -- The end of `create`: the header is set, and the empty vault saved.
  unfoldable pub finish_create : DerivedKey → EncryptedData → Exec Session Bool
  finish_create derived encrypted_dk = do
    modify (
        set_header (record {
          version = 1;
          salt = derived.salt;
          encrypted_data_key = encrypted_dk.ciphertext;
          data_key_nonce = encrypted_dk.nonce;
        }))
    modify (set_state unlocked)
    save

  -- `create` from the new data key on.
  unfoldable pub store_new_key : DerivedKey → Bytes → Exec Session Bool
  unfolding store_data_key finish_create
  store_new_key derived data_key = do
    store_data_key data_key
    data_key_vec ← (λ s. or_undefined s.data_key s)
    encrypted_dk ← on_world (encrypt data_key_vec derived.key)
    finish_create derived encrypted_dk

  unfoldable pub store_new_keys : DerivedKey → Exec Session Bool
  unfolding store_master_key store_new_key
  store_new_keys derived = do
    store_master_key derived.key
    data_key ← on_world generate_data_key
    store_new_key derived data_key

  -- `create` behind its guard.
  unfoldable pub create_new : Text → Text → Exec Session Bool
  unfolding store_new_keys
  create_new path passphrase = do
    modify (set_path path)
    derived ← on_world (derive_master_key passphrase [])
    store_new_keys derived

  unfoldable pub create : Text → Text → Exec Session Bool
  unfolding create_new
  create path passphrase s =
      if not (is_uninitialized_state s.state) then pure false s else create_new path passphrase s

  abbrev pub finish_open : Bool → Exec Session Bool
  finish_open loaded = if not loaded then pure false else (modify (set_state locked) >> pure true)

  unfoldable pub open_vault : Text → Exec Session Bool
  open_vault path s =
      if not (is_uninitialized_state s.state)
      then pure false s
      else (do modify (set_path path); loaded ← load; finish_open loaded) s

  -- The body of the `try` of `unlock`, from the copies into secure memory on.
  unfoldable pub store_keys : DerivedKey → Bytes → Exec Session Bool
  unfolding store_master_key store_data_key
  store_keys derived data_key = do
    store_master_key derived.key
    store_data_key data_key
    modify (set_state unlocked)
    load

  unfoldable pub unlock_with : DerivedKey → Exec Session Bool
  unfolding store_keys
  unlock_with derived = do
    header ← gets (λ s. s.header)
    data_key ← on_world (decrypt (wrapped_key header) derived.key)
    store_keys derived data_key

  unfoldable pub unlock : Text → Exec Session Bool
  unfolding unlock_with
  unlock passphrase s =
      if not (is_locked_state s.state)
      then pure false s
      else (do
        header ← gets (λ s. s.header)
        derived ← on_world (derive_master_key passphrase header.salt)
        try_catch (unlock_with derived) (pure false))
          s

  -- The buffers are zeroed as they are destroyed, the entries cleared.
  unfoldable pub lock : Exec Session (Unit {0})
  lock s =
      if is_unlocked_state s.state
      then modify
          (λ s. record s {
            vault = record (s.vault) {
              state = locked;
              master_key = none;
              data_key = none;
              entries = [];
            };
          })
          s
      else pure tt s

  unfoldable pub finish_rekey : EncryptedData → Exec Session Bool
  finish_rekey encrypted_dk = do modify (set_encrypted_key encrypted_dk); save

  -- `rekey` behind its guards. The key in memory is overwritten first.
  unfoldable pub rekey_with : Bytes → Exec Session Bool
  unfolding finish_rekey
  rekey_with new_data_key = do
    data_key ← (λ s. or_undefined s.data_key s)
    buffer ← or_undefined (copy_into new_data_key data_key)
    modify (set_data_key (some buffer))
    master_key ← (λ s. or_undefined s.master_key s)
    encrypted_dk ← on_world (encrypt new_data_key master_key)
    finish_rekey encrypted_dk

  unfoldable pub rekey : Bytes → Exec Session Bool
  unfolding rekey_with
  rekey new_data_key = do
    ensure_unlocked
    if not (length new_data_key == data_key_size) then pure false else rekey_with new_data_key
