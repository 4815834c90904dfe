-- ===== src/Vault/Storage/Roundtrip.antt =====
-- What `save` writes, `load` reads.
use passdoq.Prelude.{◌≤◌, ◌<◌, ◌≡◌, ◌≢◌, refl, true, some, [], ◌∷◌, length, take, arith}
use passdoq.Prelude.Exec.{ok}
use passdoq.Prelude.Text.{Text, Bytes, codes, eq_text, lt_text, eq_text_refl}
use passdoq.StdMap.{StdMap, find, insert, insert_all}
use passdoq.StdMap.Laws.{IsSorted}
use passdoq.Platform.{Platform, Object, uint, bin, dict, no_fields, field, World}
use passdoq.Platform.Laws.{SodiumLaws, MsgpackLaws, IsHealthy}
use passdoq.Crypto.{EncryptedData}
use passdoq.Crypto.Laws.{next_nonce, drawn, encrypt_lem, decrypt_lem}
use passdoq.Vault.{Entry, VaultHeader, unlocked, Session}
use passdoq.Vault.Codec.{serialize_entries, set_entries}
use passdoq.Vault.Codec.Roundtrip.{IsKeyed, AllStorable, stored_entries, deserialize-serialize}
use passdoq.Vault.Storage.{
  vault_object, set_file, set_header, write_file, save, load_header, load_entries, load_if_unlocked,
  load_bytes, load_file, load,
}

-- The map of the document, and that of its last field.
abbrev vault_map : VaultHeader → EncryptedData → StdMap Object
vault_map h e =
    (codes "data_key_nonce", bin h.data_key_nonce)
    ∷ (codes "encrypted_data_key", bin h.encrypted_data_key)
    ∷ (
      codes "encrypted_entries",
      dict (
          field (codes "ciphertext") (bin e.ciphertext)
            (field (codes "nonce") (bin e.nonce) no_fields)),
    )
    ∷ (codes "salt", bin h.salt)
    ∷ (codes "version", uint h.version)
    ∷ []

abbrev inner_map : EncryptedData → StdMap Object
inner_map e = (codes "ciphertext", bin e.ciphertext) ∷ (codes "nonce", bin e.nonce) ∷ []

module _ ⦃p : Platform⦄ where
  -- The file at `path` is a document with the header `h`, whose entries open with the key `k` and
  -- are `m`.
  pub record HoldsVault (w : World) (path : Text) (h : VaultHeader) (k : Bytes) (m : StdMap Entry)
      : Type 0 where
    pub encrypted : EncryptedData
    pub at_path : w.files path ≡ some (p.pack (vault_object h encrypted))
    pub nonce_size : length encrypted.nonce ≡ 24
    pub ciphertext_size : 16 ≤ length encrypted.ciphertext
    pub opens :
        p.secretbox_open_easy encrypted.ciphertext encrypted.nonce k ≡ some (serialize_entries m)

  write_file_lem :
      (path : Text) (bytes : Bytes) (w : World)
      → IsHealthy p.disk path
      → write_file path bytes w ≡ (ok true, set_file path bytes w)
  unfolding write_file
  write_file_lem path bytes w d = rw d.can_be_written (rw (d.write_whole bytes))

  -- What `save` seals, and the session after it.
  abbrev saved_data : Session → Bytes → EncryptedData
  saved_data s c = record { ciphertext = c; nonce = next_nonce s.world; mac = take 16 c }

  abbrev saved_session : Session → Bytes → Session
  saved_session s c = record s {
    world = set_file s.path (p.pack (vault_object s.header (saved_data s c))) (drawn s.world);
  }

  save_lem :
      (s : Session) (k c : Bytes)
      → s.state ≡ unlocked
      → s.data_key ≡ some k
      → length k ≡ 32
      → p.secretbox_easy (serialize_entries s.entries) (next_nonce s.world) k ≡ some c
      → IsHealthy p.disk s.path
      → save s ≡ (ok true, saved_session s c)
  unfolding save
  save_lem s k c hs hk len e healthy = ground (
    arith,
    encrypt_lem (serialize_entries s.entries) k c s.world len e,
    write_file_lem s.path (p.pack (vault_object s.header (saved_data s c))) (drawn s.world) healthy,
  )

  module _ (sodium_laws : SodiumLaws p.sodium) where
    -- Where libsodium does what is documented and the disk takes the file, `save` of an unlocked
    -- vault with a data key of 32 bytes returns true, leaves the vault as it is, and the file
    -- holds its header and its entries under the data key.
    pub save-HoldsVault :
        (s : Session) (k : Bytes)
        → s.state ≡ unlocked
        → s.data_key ≡ some k
        → length k ≡ 32
        → IsHealthy p.disk s.path
        → ((save s).0 ≡ ok true)
          × ((save s).1.vault ≡ s.vault)
          × HoldsVault (save s).1.world s.path s.header k s.entries
    save-HoldsVault s k hs hk len healthy =
        let nonce_len = sodium_laws.length-randombytes_buf s.draws 24 in
        let (c, e, clen) =
          sodium_laws.secretbox_easy_total (serialize_entries s.entries) (next_nonce s.world) k
            nonce_len len in
        rw (save_lem s k c hs hk len e healthy) (
          refl,
          refl,
          record {
            encrypted = saved_data s c;
            at_path = rw eq_text_refl refl;
            nonce_size = nonce_len;
            ciphertext_size = omega (arith, clen);
            opens = sodium_laws.open-easy _ (next_nonce s.world) k nonce_len len e;
          },
        )

  module _ (laws : MsgpackLaws p.msgpack) where
    as_fields-vault_object :
        (h : VaultHeader) (e : EncryptedData)
        → p.as_fields (vault_object h e) ≡ some (vault_map h e)
    unfolding vault_object insert_all insert eq_text lt_text
    as_fields-vault_object h e = laws.as_fields-dict _

    as_fields-inner :
        (e : EncryptedData)
        → p.as_fields (
            dict (
              field
                (codes "ciphertext")
                (bin e.ciphertext)
                (field (codes "nonce") (bin e.nonce) no_fields)))
          ≡ some (inner_map e)
    unfolding insert_all insert eq_text lt_text
    as_fields-inner e = laws.as_fields-dict _

    load_header-vault_map :
        (h : VaultHeader) (e : EncryptedData) (s : Session)
        → h.version < 4294967296
        → load_header (vault_map h e) s ≡ (ok tt, set_header h s)
    unfolding load_header find eq_text
    load_header-vault_map h e s v = simp (laws.as_uint32-uint h.version v, laws.as_bytes-bin)

    load_entries-vault_map :
        (h : VaultHeader) (e : EncryptedData) (k : Bytes) (m : StdMap Entry) (s : Session)
        → length k ≡ 32
        → length e.nonce ≡ 24
        → 16 ≤ length e.ciphertext
        → p.secretbox_open_easy e.ciphertext e.nonce k ≡ some (serialize_entries m)
        → IsSorted m
        → IsKeyed m
        → AllStorable m
        → load_entries (vault_map h e) k s ≡ (ok tt, set_entries (stored_entries m) s)
    unfolding load_entries find eq_text
    load_entries-vault_map h e k m s len nonce_len clen opens sorted keyed storable =
        simp
          (
            as_fields-inner e,
            laws.as_bytes-bin,
            decrypt_lem (record { ciphertext = e.ciphertext; nonce = e.nonce; mac = [] }) k
                (serialize_entries m) s.world len nonce_len clen opens,
          )
          (deserialize-serialize laws m s sorted keyed storable)

    -- Where the file of an unlocked vault with a data key of 32 bytes holds a header with a
    -- version below 2^32 and entries under this key, in order under their own ids, with sorted
    -- metadata and times up to 2262, and msgpack does what is documented, `load` returns true
    -- and gives the vault this header and these entries, with their times rounded down to
    -- seconds.
    pub load-unlocked :
        (s : Session) (h : VaultHeader) (k : Bytes) (m : StdMap Entry)
        → HoldsVault s.world s.path h k m
        → s.state ≡ unlocked
        → s.data_key ≡ some k
        → length k ≡ 32
        → h.version < 4294967296
        → IsSorted m
        → IsKeyed m
        → AllStorable m
        → load s ≡ (ok true, set_entries (stored_entries m) (set_header h s))
    unfolding load load_file load_bytes load_if_unlocked
    load-unlocked s h k m file hs hk len v sorted keyed storable = ground (
      arith,
      file.at_path,
      laws.unpack-pack (vault_object h file.encrypted),
      as_fields-vault_object h file.encrypted,
      load_header-vault_map h file.encrypted s v,
      load_entries-vault_map h file.encrypted k m (set_header h s) len file.nonce_size
          file.ciphertext_size file.opens sorted keyed storable,
    )

    -- Loading it into a vault that is not unlocked gives the header only.
    pub load-locked :
        (s : Session) (h : VaultHeader) (k : Bytes) (m : StdMap Entry)
        → HoldsVault s.world s.path h k m
        → s.state ≢ unlocked
        → h.version < 4294967296
        → load s ≡ (ok true, set_header h s)
    unfolding load load_file load_bytes load_if_unlocked
    load-locked s h k m file hs v = ground (
      arith,
      file.at_path,
      laws.unpack-pack (vault_object h file.encrypted),
      as_fields-vault_object h file.encrypted,
      load_header-vault_map h file.encrypted s v,
    )
