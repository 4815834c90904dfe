-- ===== src/Vault/Storage.antt =====
-- `save` and `load` of src/vault.cpp: the file of the vault.
pub mod Roundtrip
use passdoq.Prelude.{
  ℕ, Bool, true, false, not, ◌&&◌, Option, none, some, List, [], ◌∷◌, get_or, is_set, if◌then◌else◌,
}
use passdoq.Prelude.Exec.{
  Exec, Error, library_error, pure, gets, modify, or_raise, or_undefined, try_catch, ◌>>=◌, ◌>>◌,
}
use passdoq.Prelude.Text.{Text, Bytes, codes, eq_text}
use passdoq.StdMap.{StdMap, find}
use passdoq.Platform.{
  Platform, Object, nil, uint, str, bin, array, dict, Fields, no_fields, field, World,
}
use passdoq.Crypto.{EncryptedData, encrypt, decrypt}
use passdoq.Vault.{VaultHeader, Vault, VaultState, Session, on_world, is_unlocked_state}
use passdoq.Vault.Codec.{at_key, serialize_entries, as_or_throw, deserialize_entries}

-- The document that `save` packs.
unfoldable pub vault_object : VaultHeader → EncryptedData → Object
vault_object h encrypted = dict (
    field (codes "version") (uint h.version) (
      field (codes "salt") (bin h.salt) (
        field (codes "encrypted_data_key") (bin h.encrypted_data_key) (
          field (codes "data_key_nonce") (bin h.data_key_nonce) (
            field (codes "encrypted_entries")
              (dict (
                field (codes "ciphertext") (bin encrypted.ciphertext)
                  (field (codes "nonce") (bin encrypted.nonce) no_fields)))
              no_fields)))))

-- The file at `path` has the content `bytes`.
abbrev pub set_file : Text → Bytes → World → World
set_file path bytes w = record w { files = λ q. if eq_text path q then some bytes else w.files q }

abbrev pub set_header : VaultHeader → Session → Session
set_header h s = record s { vault = record (s.vault) { header = h } }

module _ ⦃p : Platform⦄ where
  -- `std::ofstream file(path); if (!file) return false; file.write(…); return file.good();`
  unfoldable pub write_file : Text → Bytes → Exec World Bool
  write_file path bytes w =
      if p.can_write path
      then (let (left, good) = p.write path bytes in pure good (set_file path left w))
      else pure false w

  unfoldable pub save_unlocked : Exec Session Bool
  save_unlocked = do
    entries ← gets (λ s. s.entries)
    data_key ← (λ s. or_undefined s.data_key s)
    encrypted ← on_world (encrypt (serialize_entries entries) data_key)
    header ← gets (λ s. s.header)
    path ← gets (λ s. s.path)
    on_world (write_file path (p.pack (vault_object header encrypted)))

  unfoldable pub save : Exec Session Bool
  unfolding save_unlocked
  save s =
      if not (is_unlocked_state s.state)
      then pure false s
      else try_catch save_unlocked (pure false) s

  -- The fields of the header are assigned one by one.
  unfoldable pub load_header : StdMap Object → Exec Session (Unit {0})
  load_header m = do
    version ← as_or_throw (p.as_uint32 (at_key m (codes "version")))
    modify (λ s. set_header (record (s.header) { version = version }) s)
    salt ← as_or_throw (p.as_bytes (at_key m (codes "salt")))
    modify (λ s. set_header (record (s.header) { salt = salt }) s)
    encrypted_data_key ← as_or_throw (p.as_bytes (at_key m (codes "encrypted_data_key")))
    modify (λ s. set_header (record (s.header) { encrypted_data_key = encrypted_data_key }) s)
    data_key_nonce ← as_or_throw (p.as_bytes (at_key m (codes "data_key_nonce")))
    modify (λ s. set_header (record (s.header) { data_key_nonce = data_key_nonce }) s)

  unfoldable pub load_entries : StdMap Object → Bytes → Exec Session (Unit {0})
  load_entries m data_key = do
    inner ← as_or_throw (p.as_fields (at_key m (codes "encrypted_entries")))
    ciphertext ← as_or_throw (p.as_bytes (at_key inner (codes "ciphertext")))
    nonce ← as_or_throw (p.as_bytes (at_key inner (codes "nonce")))
    decrypted ←
        on_world (decrypt (record { ciphertext = ciphertext; nonce = nonce; mac = [] }) data_key)
    deserialize_entries decrypted

  -- `state_ == VaultState::UNLOCKED && data_key_`
  unfoldable pub load_if_unlocked : StdMap Object → Exec Session Bool
  load_if_unlocked m s =
      if is_unlocked_state s.state
      then elim s.data_key [
        | none ↦ pure true s
        | some data_key ↦ (load_entries m data_key >> pure true) s
      ]
      else pure true s

  unfoldable pub load_bytes : Bytes → Exec Session Bool
  load_bytes bytes = do
    object ← as_or_throw (p.unpack bytes)
    m ← as_or_throw (p.as_fields object)
    load_header m
    load_if_unlocked m

  -- `none` is a file that cannot be opened.
  abbrev pub load_content : Option Bytes → Exec Session Bool
  load_content none = pure false
  load_content (some bytes) = load_bytes bytes

  unfoldable pub load_file : Exec Session Bool
  load_file s = load_content (s.files s.path) s

  unfoldable pub load : Exec Session Bool
  load = try_catch load_file (pure false)
