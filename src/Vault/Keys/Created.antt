-- ===== src/Vault/Keys/Created.antt =====
-- What `create` leaves in memory and on disk.
use passdoq.Prelude.{◌+◌, ◌≡◌, refl, true, some, [], length, replicate, arith}
use passdoq.Prelude.Exec.{ok}
use passdoq.Prelude.Text.{Text, Bytes}
use passdoq.Platform.{Platform, World}
use passdoq.Platform.Laws.{SodiumLaws, IsHealthy}
use passdoq.Crypto.{derive_master_key, generate_data_key}
use passdoq.Crypto.Laws.{next_nonce, drawn, encrypt_lem}
use passdoq.Vault.{VaultHeader, unlocked, uninitialized, Session}
use passdoq.Vault.Storage.{save}
use passdoq.Vault.Storage.Roundtrip.{HoldsVault, save-HoldsVault}
use passdoq.Vault.Keys.{create}
use passdoq.Vault.Keys.Reopen.{copy_into-exact}
use passdoq.Vault.Keys.Lifecycle.{IsReady}

module _ ⦃p : Platform⦄ where
  -- The salt and the data key that `create` draws.
  abbrev pub new_salt : World → Bytes
  new_salt w = p.randombytes_buf w.draws 16

  abbrev pub new_data_key : World → Bytes
  new_data_key w = p.randombytes_buf (w.draws + 1) 32

module _ ⦃p : Platform⦄ (laws : SodiumLaws p.sodium) where
  derive_new :
      (passphrase : Text) (master : Bytes) (w : World)
      → p.pwhash passphrase (new_salt w) ≡ some master
      → derive_master_key passphrase [] w
        ≡ (ok (record { key = master; salt = new_salt w }), drawn w)
  unfolding derive_master_key
  derive_new passphrase master w e = ground (arith, laws.length-randombytes_buf w.draws 16)

  abbrev created_header : World → Bytes → VaultHeader
  created_header w c = record {
    version = 1;
    salt = new_salt w;
    encrypted_data_key = c;
    data_key_nonce = next_nonce (drawn (drawn w));
  }

  abbrev created_session : Text → Bytes → Bytes → Session → Session
  created_session path master c s = record {
    vault = record {
      path = path;
      state = unlocked;
      header = created_header s.world c;
      master_key = some master;
      data_key = some (new_data_key s.world);
      entries = s.entries;
    };
    world = drawn (drawn (drawn s.world));
  }

  create_lem :
      (path passphrase : Text) (master c : Bytes) (s : Session)
      → s.state ≡ uninitialized
      → p.pwhash passphrase (new_salt s.world) ≡ some master
      → length master ≡ 32
      → p.secretbox_easy (new_data_key s.world) (next_nonce (drawn (drawn s.world))) master ≡ some c
      → create path passphrase s ≡ save (created_session path master c s)
  unfolding create generate_data_key
  create_lem path passphrase master c s hs derives lm e = ground (
    arith,
    derive_new passphrase master s.world derives,
    copy_into-exact master (replicate 32 0) lm,
    copy_into-exact (new_data_key s.world) (replicate 32 0)
        (laws.length-randombytes_buf (s.draws + 1) 32),
    encrypt_lem (new_data_key s.world) master c (drawn (drawn s.world)) lm e,
  )

  -- `create` with a new vault object, where libsodium does what is documented, the derivation
  -- does not fail and the disk takes the file, returns true, and leaves a vault that is ready
  -- under the passphrase, with the data key that was drawn and the entries of the object; the
  -- file holds it.
  pub create-IsReady :
      (path passphrase : Text) (master : Bytes) (s : Session)
      → s.state ≡ uninitialized
      → p.pwhash passphrase (new_salt s.world) ≡ some master
      → IsHealthy p.disk path
      → let (r, t) = create path passphrase s in
        (r ≡ ok true)
        × IsReady passphrase (new_data_key s.world) t.vault
        × (t.entries ≡ s.entries)
        × HoldsVault t.world path t.header (new_data_key s.world) s.entries
  create-IsReady path passphrase master s hs derives healthy =
      let lm = laws.length-pwhash passphrase (new_salt s.world) derives in
      let lk = laws.length-randombytes_buf (s.draws + 1) 32 in
      let n = next_nonce (drawn (drawn s.world)) in
      let ln = laws.length-randombytes_buf (s.draws + 1 + 1) 24 in
      let (c, e, clen) = laws.secretbox_easy_total (new_data_key s.world) n master ln lm in
      let u : Session = created_session path master c s in
      let (saved, same, file) =
        save-HoldsVault laws u (new_data_key s.world) refl refl lk healthy in
      let ready : IsReady passphrase (new_data_key s.world) u.vault = record {
        is_unlocked = refl;
        data_key = refl;
        seals = record {
          master = master;
          salt_size = omega (arith, laws.length-randombytes_buf s.draws 16);
          derives = derives;
          master_size = lm;
          key_size = lk;
          nonce_size = ln;
          wrapped_size = omega (arith, clen);
          opens = laws.open-easy (new_data_key s.world) n master ln lm e;
        };
        master_key = refl;
        version = omega arith;
      } in
      rw (create_lem path passphrase master c s hs derives lm e)
        (saved, rw same ready, rw same refl, rw same file)
