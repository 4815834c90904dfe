-- ===== src/Vault/Keys/Lifecycle.antt =====
-- A vault that was created, or whose data key was changed, is on disk as it is in memory and opens
-- again with its passphrase.
use passdoq.Prelude.{◌+◌, ◌<◌, ◌≡◌, refl, true, some, length, arith}
use passdoq.Prelude.Exec.{ok, ◌>>◌}
use passdoq.Prelude.Text.{Text, Bytes}
use passdoq.StdMap.Laws.{IsSorted}
use passdoq.Platform.{Platform}
use passdoq.Platform.Laws.{SodiumLaws, MsgpackLaws, IsHealthy}
use passdoq.Crypto.Laws.{next_nonce, drawn, encrypt_lem}
use passdoq.Vault.{VaultHeader, Vault, unlocked, Session, new_vault, ensure_unlocked}
use passdoq.Vault.Codec.Roundtrip.{IsKeyed, AllStorable}
use passdoq.Vault.Storage.{save}
use passdoq.Vault.Storage.Roundtrip.{HoldsVault, save-HoldsVault}
use passdoq.Vault.Keys.{open_vault, unlock, rekey}
use passdoq.Vault.Keys.Reopen.{copy_into-exact, Seals, reopened, unlock-open_vault}

module _ ⦃p : Platform⦄ where
  -- An unlocked vault that holds the data key `k`, and whose header wraps it under the passphrase.
  pub record IsReady (passphrase : Text) (k : Bytes) (v : Vault) : Type 0 where
    pub is_unlocked : v.state ≡ unlocked
    pub data_key : v.data_key ≡ some k
    pub seals : Seals passphrase v.header k
    pub master_key : v.master_key ≡ some (seals.master)
    pub version : v.header.version < 4294967296

  module _ (sodium_laws : SodiumLaws p.sodium) where
    -- A vault that is ready under a passphrase (unlocked, with its data key wrapped in the
    -- header), whose entries are in order under their own ids, with sorted metadata and times up
    -- to 2262: where libsodium and msgpack do what is documented and the disk takes the file,
    -- `save` returns true, and a new vault object that opens the path and is unlocked with the
    -- passphrase returns true and has the header, both keys, and every entry with its times
    -- rounded down to seconds.
    pub save-reopen :
        MsgpackLaws p.msgpack
        → (passphrase : Text) (k : Bytes) (s : Session) (ready : IsReady passphrase k s.vault)
        → IsHealthy p.disk s.path
        → IsSorted s.entries
        → IsKeyed s.entries
        → AllStorable s.entries
        → let w = (save s).1.world in
          ((save s).0 ≡ ok true)
          × ((open_vault s.path >> unlock passphrase) (record { vault = new_vault; world = w })
              ≡ (ok true, reopened s.path s.header ready.seals.master k s.entries w))
    save-reopen laws passphrase k s ready healthy sorted keyed storable =
        let (saved, same, file) =
          save-HoldsVault sodium_laws s k ready.is_unlocked ready.data_key ready.seals.key_size
            healthy in
        (
          saved,
          unlock-open_vault laws s.path passphrase (save s).1.world s.header k s.entries file
              ready.seals ready.version sorted keyed storable,
        )

    -- The header that `rekey` makes.
    abbrev rekeyed_header : Session → Bytes → VaultHeader
    rekeyed_header s c = record (s.header) {
      encrypted_data_key = c;
      data_key_nonce = next_nonce s.world;
    }

    abbrev rekeyed_session : Session → Bytes → Bytes → Session
    rekeyed_session s k c = record s {
      vault = record (s.vault) { header = rekeyed_header s c; data_key = some k };
      world = drawn s.world;
    }

    rekey_lem :
        (s : Session) (old master k c : Bytes)
        → s.state ≡ unlocked
        → s.data_key ≡ some old
        → s.master_key ≡ some master
        → length old ≡ 32
        → length master ≡ 32
        → length k ≡ 32
        → p.secretbox_easy k (next_nonce s.world) master ≡ some c
        → rekey k s ≡ save (rekeyed_session s k c)
    unfolding rekey ensure_unlocked
    rekey_lem s old master k c hs hold hmaster lold lmaster lk e =
        ground
          (arith, copy_into-exact k old (omega arith), encrypt_lem k master c s.world lmaster e)

    -- `rekey` of a ready vault with a new key of 32 bytes, where libsodium does what is
    -- documented and the disk takes the file, returns true, leaves the vault ready under the
    -- same passphrase and the new key, with the path and the entries that it had, and the file
    -- holds it.
    pub rekey-IsReady :
        (passphrase : Text) (old k : Bytes) (s : Session)
        → IsReady passphrase old s.vault
        → length k ≡ 32
        → IsHealthy p.disk s.path
        → let (r, t) = rekey k s in
          (r ≡ ok true)
          × IsReady passphrase k t.vault
          × (t.entries ≡ s.entries)
          × (t.path ≡ s.path)
          × HoldsVault t.world s.path t.header k s.entries
    rekey-IsReady passphrase old k s ready lk healthy =
        let sealed = ready.seals in
        let nonce_len = sodium_laws.length-randombytes_buf s.draws 24 in
        let (c, e, clen) =
          sodium_laws.secretbox_easy_total k (next_nonce s.world) sealed.master nonce_len
            sealed.master_size in
        let u : Session = rekeyed_session s k c in
        let (saved, same, file) =
          save-HoldsVault sodium_laws u k ready.is_unlocked refl lk healthy in
        rw
          (rekey_lem s old sealed.master k c ready.is_unlocked ready.data_key ready.master_key
            sealed.key_size sealed.master_size lk e)
          (saved, rw same (wrapped c e clen), rw same refl, rw same refl, rw same file)
      where
        wrapped :
            (c : Bytes)
            → p.secretbox_easy k (next_nonce s.world) ready.seals.master ≡ some c
            → length c ≡ length k + 16
            → IsReady passphrase k (rekeyed_session s k c).vault
        wrapped c e clen =
            let nonce_len = sodium_laws.length-randombytes_buf s.draws 24 in
            record {
              is_unlocked = ready.is_unlocked;
              data_key = refl;
              seals = record {
                master = ready.seals.master;
                salt_size = ready.seals.salt_size;
                derives = ready.seals.derives;
                master_size = ready.seals.master_size;
                key_size = lk;
                nonce_size = nonce_len;
                wrapped_size = omega (arith, clen);
                opens =
                    sodium_laws.open-easy k (next_nonce s.world) ready.seals.master nonce_len
                      ready.seals.master_size e;
              };
              master_key = ready.master_key;
              version = ready.version;
            }
