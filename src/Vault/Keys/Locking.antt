-- ===== src/Vault/Keys/Locking.antt =====
-- Locking and unlocking the same vault object, and an `unlock` that fails after the key was opened.
use passdoq.Prelude.{◌≡◌, refl, true, false, none, [], arith}
use passdoq.Prelude.Exec.{Result, ok, throw, fault, pure, try_catch, ◌>>◌}
use passdoq.Prelude.Exec.Keeps.{After}
use passdoq.Prelude.Text.{Text, Bytes}
use passdoq.Platform.{Platform}
use passdoq.Platform.Laws.{SodiumLaws, MsgpackLaws, IsHealthy}
use passdoq.Vault.{locked, unlocked, Session}
use passdoq.Vault.Codec.{set_entries}
use passdoq.Vault.Codec.Roundtrip.{AllStorable, stored_entries}
use passdoq.Vault.Storage.{save, load}
use passdoq.Vault.Storage.Roundtrip.{HoldsVault, save-HoldsVault, load-unlocked}
use passdoq.Vault.Keys.{unlock, lock}
use passdoq.Vault.Keys.Reopen.{Seals, with_keys, unlock-Seals}
use passdoq.Vault.Keys.Lifecycle.{IsReady}
use passdoq.Vault.Invariant.{IsFramed, load-IsFramed}
use passdoq.Vault.Invariant.Methods.{Valid}

module _ ⦃p : Platform⦄ where
  -- What `lock` leaves of an unlocked vault.
  abbrev pub locked_session : Session → Session
  locked_session s = record s {
    vault = record (s.vault) { state = locked; master_key = none; data_key = none; entries = [] };
  }

  lock_lem : (s : Session) → s.state ≡ unlocked → lock s ≡ (ok tt, locked_session s)
  unfolding lock
  lock_lem s h = ground arith

  save_returns :
      (s : Session)
      → (save s).0 ≡ ok true
      → (save s).1.vault ≡ s.vault
      → save s ≡ (ok true, record s { world = (save s).1.world })
  save_returns s saved same i = (saved i, record { vault = same i; world = (save s).1.world })

  -- A valid vault that is ready under a passphrase, with sorted metadata and times up to 2262:
  -- where libsodium and msgpack do what is documented and the disk takes the file, saving,
  -- locking and unlocking it with the passphrase returns true and gives the vault as it was, its
  -- entries with their times rounded down to seconds.
  pub save-lock-unlock :
      SodiumLaws p.sodium
      → MsgpackLaws p.msgpack
      → (passphrase : Text) (k : Bytes) (s : Session) (ready : IsReady passphrase k s.vault)
      → IsHealthy p.disk s.path
      → Valid s
      → AllStorable s.entries
      → let w = (save s).1.world in
        (save >> (lock >> unlock passphrase)) s
        ≡ (ok true, set_entries (stored_entries s.entries) (record s { world = w }))
  save-lock-unlock sodium_laws laws passphrase k s ready healthy v storable =
      let (saved, same, file) =
        save-HoldsVault sodium_laws s k ready.is_unlocked ready.data_key ready.seals.key_size
          healthy in
      let u : Session = locked_session (record s { world = (save s).1.world }) in
      let e =
        load-unlocked laws (with_keys ready.seals.master k u) s.header k s.entries file refl refl
          ready.seals.key_size ready.version v.sorted v.keyed storable in
      rw (save_returns s saved same) (
        rw (lock_lem (record s { world = (save s).1.world }) ready.is_unlocked) (
          rw (unlock-Seals passphrase k u ready.seals refl)
            (rw e (ground (arith, ready.is_unlocked, ready.data_key, ready.master_key)))))

  caught :
      (u : Session) → (load u).0 ≡ ok false → try_catch load (pure false) u ≡ (ok false, (load u).1)
  caught u h = ground arith

  framed-state :
      {A : Type 0} (s : Session) (r : Result A) (t : Session)
      → After (IsFramed s.state s.master_key s.data_key) (r, t)
      → (b : A) → r ≡ ok b
      → (t.state ≡ s.state) × (t.data_key ≡ s.data_key)
  framed-state s (ok a) t h b e = (h.same_state, h.same_data)
  framed-state s (throw x) t h b e = absurd (ground arith)
  framed-state s fault t h b e = absurd (ground arith)

  -- A valid locked vault whose header wraps a data key under the passphrase, where loading the
  -- entries with that key returns false (the file is gone, or its entries are damaged): `unlock`
  -- with the passphrase returns false and yet leaves the vault unlocked; the next `save`, on a
  -- disk that takes the file, returns true, and the file then holds the entries that are in
  -- memory after the failure.
  pub unlock_failed-unlocked :
      SodiumLaws p.sodium
      → (passphrase : Text) (k : Bytes) (s : Session) (sealed : Seals passphrase s.header k)
      → s.state ≡ locked
      → Valid s
      → (load (with_keys sealed.master k s)).0 ≡ ok false
      → IsHealthy p.disk (load (with_keys sealed.master k s)).1.path
      → let t = (unlock passphrase s).1 in
        ((unlock passphrase s).0 ≡ ok false)
        × (t.state ≡ unlocked)
        × ((save t).0 ≡ ok true)
        × HoldsVault (save t).1.world t.path t.header k t.entries
  unlock_failed-unlocked laws passphrase k s sealed hs v failed healthy =
      let u : Session = with_keys sealed.master k s in
      let framed = (load-IsFramed u.state u.master_key u.data_key).at u (record {
        same_state = refl;
        same_master = refl;
        same_data = refl;
        sorted = v.sorted;
        keyed = v.keyed;
        closed = λ n. absurd (n refl);
      }) in
      let (state, key) = framed-state u (load u).0 (load u).1 framed false failed in
      let (saved, _, file) = save-HoldsVault laws (load u).1 k state key sealed.key_size healthy in
      rw (unlock-Seals passphrase k s sealed hs) (rw (caught u failed) (refl, state, saved, file))
