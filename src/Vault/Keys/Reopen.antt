-- ===== src/Vault/Keys/Reopen.antt =====
-- A vault that was saved is opened and unlocked again with its passphrase, and with no other.
use passdoq.Prelude.{
  ◌≤◌, ◌<◌, ◌≡◌, refl, true, false, none, some, [], append-nil, length, drop, drop-length,
  replicate, arith,
}
use passdoq.Prelude.Exec.{ok, pure, try_catch, ◌>>◌}
use passdoq.Prelude.Text.{Text, Bytes}
use passdoq.StdMap.{StdMap}
use passdoq.StdMap.Laws.{IsSorted}
use passdoq.Platform.{Platform, World}
use passdoq.Platform.Laws.{MsgpackLaws}
use passdoq.Crypto.{decrypt}
use passdoq.Crypto.Laws.{decrypt_lem, derive_master_key_lem}
use passdoq.Vault.{Entry, VaultHeader, locked, unlocked, Session, new_vault}
use passdoq.Vault.Codec.Roundtrip.{IsKeyed, AllStorable, stored_entries}
use passdoq.Vault.Storage.{set_header, load}
use passdoq.Vault.Storage.Roundtrip.{HoldsVault, load-locked, load-unlocked}
use passdoq.Vault.Keys.{
  open_vault, unlock, set_path, set_state, set_master_key, set_data_key, store_master_key,
  store_data_key, copy_into,
}

-- A copy that fills the buffer exactly.
pub copy_into-exact : (a b : Bytes) → length a ≡ length b → copy_into a b ≡ some a
copy_into-exact a b h =
    let e : drop (length a) b ≡ [] = rw h (drop-length b) in ground (arith, e, append-nil a)

-- The session after a vault file was opened and unlocked.
abbrev pub reopened : Text → VaultHeader → Bytes → Bytes → StdMap Entry → World → Session
reopened path h master k m w = record {
  vault = record {
    path = path;
    state = unlocked;
    header = h;
    master_key = some master;
    data_key = some k;
    entries = stored_entries m;
  };
  world = w;
}

module _ ⦃p : Platform⦄ where
  -- The header wraps the data key `k` under the passphrase.
  pub record Seals (passphrase : Text) (h : VaultHeader) (k : Bytes) : Type 0 where
    pub master : Bytes
    pub salt_size : 16 ≤ length h.salt
    pub derives : p.pwhash passphrase h.salt ≡ some master
    pub master_size : length master ≡ 32
    pub key_size : length k ≡ 32
    pub nonce_size : length h.data_key_nonce ≡ 24
    pub wrapped_size : 16 ≤ length h.encrypted_data_key
    pub opens : p.secretbox_open_easy h.encrypted_data_key h.data_key_nonce master ≡ some k

  -- The session once the keys are stored.
  abbrev pub with_keys : Bytes → Bytes → Session → Session
  with_keys master k s = set_state unlocked (set_data_key (some k) (set_master_key (some master) s))

  pub store_master_key_lem :
      (k : Bytes) (s : Session)
      → length k ≡ 32
      → store_master_key k s ≡ (ok tt, set_master_key (some k) s)
  unfolding store_master_key
  store_master_key_lem k s h = rw (copy_into-exact k (replicate 32 0) h)

  pub store_data_key_lem :
      (k : Bytes) (s : Session)
      → length k ≡ 32
      → store_data_key k s ≡ (ok tt, set_data_key (some k) s)
  unfolding store_data_key
  store_data_key_lem k s h = rw (copy_into-exact k (replicate 32 0) h)

  -- A locked vault whose header wraps `k` under the passphrase stores both keys, and goes on to
  -- load the entries.
  pub unlock-Seals :
      (passphrase : Text) (k : Bytes) (s : Session) (w : Seals passphrase s.header k)
      → s.state ≡ locked
      → unlock passphrase s ≡ try_catch load (pure false) (with_keys w.master k s)
  unfolding unlock
  unlock-Seals passphrase k s w hs = ground (
    arith,
    derive_master_key_lem passphrase s.header.salt w.master s.world w.salt_size w.derives,
    decrypt_lem
        (record {
          ciphertext = s.header.encrypted_data_key;
          nonce = s.header.data_key_nonce;
          mac = [];
        })
        w.master k s.world w.master_size w.nonce_size w.wrapped_size w.opens,
    store_master_key_lem w.master s w.master_size,
    store_data_key_lem k (set_master_key (some w.master) s) w.key_size,
  )

  -- A locked vault with a salt and a nonce that are long enough: where libsodium derives a key
  -- from the passphrase, and does not open the wrapped data key with it, `unlock` returns false
  -- and changes nothing.
  pub unlock-wrong_passphrase :
      (passphrase : Text) (master : Bytes) (s : Session)
      → s.state ≡ locked
      → 16 ≤ length s.header.salt
      → 24 ≤ length s.header.data_key_nonce
      → p.pwhash passphrase s.header.salt ≡ some master
      → p.secretbox_open_easy s.header.encrypted_data_key s.header.data_key_nonce master ≡ none
      → unlock passphrase s ≡ (ok false, s)
  unfolding unlock decrypt
  unlock-wrong_passphrase passphrase master s hs salt nonce derives closed =
      ground (arith, derive_master_key_lem passphrase s.header.salt master s.world salt derives)

  module _ (laws : MsgpackLaws p.msgpack) where
    -- `open` of a file that holds a vault locks a new vault on it, with its header.
    pub open_vault-HoldsVault :
        (path : Text) (w : World) (h : VaultHeader) (k : Bytes) (m : StdMap Entry)
        → HoldsVault w path h k m
        → h.version < 4294967296
        → open_vault path (record { vault = new_vault; world = w }) ≡ (
          ok true,
          set_state locked (set_header h (set_path path (record { vault = new_vault; world = w }))),
        )
    unfolding open_vault
    open_vault-HoldsVault path w h k m file v = ground (
      arith,
      load-locked laws (set_path path (record { vault = new_vault; world = w })) h k m file,
    )

    -- Where a file holds a vault under a data key that its header wraps under the passphrase,
    -- with a version below 2^32, its entries in order under their own ids, with sorted metadata
    -- and times up to 2262, and msgpack does what is documented: a new vault object that opens
    -- the file and is unlocked returns true and has the header, both keys, and every entry with
    -- its times rounded down to seconds.
    pub unlock-open_vault :
        (path passphrase : Text) (w : World) (h : VaultHeader) (k : Bytes) (m : StdMap Entry)
        → HoldsVault w path h k m
        → (sealed : Seals passphrase h k) → h.version < 4294967296
        → IsSorted m
        → IsKeyed m
        → AllStorable m
        → (open_vault path >> unlock passphrase) (record { vault = new_vault; world = w })
          ≡ (ok true, reopened path h sealed.master k m w)
    unlock-open_vault path passphrase w h k m file sealed v sorted keyed storable =
        let opened : Session =
          set_state locked
            (set_header h (set_path path (record { vault = new_vault; world = w }))) in
        rw (open_vault-HoldsVault path w h k m file v) (
          rw (unlock-Seals passphrase k opened sealed refl) (
            rw (
              load-unlocked laws (with_keys sealed.master k opened) h k m file refl refl
                sealed.key_size v sorted keyed storable)))
