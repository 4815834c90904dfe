-- ===== src/Plugin/Laws.antt =====
-- What the plugin leaves when it changes the data key, when it waits, and when it fails.
use passdoq.Prelude.{
  ℕ, ◌+◌, ◌/◌, ◌<◌, ◌≤◌, ◌≡◌, ◌≢◌, refl, some, Bool, true, false, [], ◌∷◌, ◌++◌, length, replicate,
  arith, ltb, leb, if◌then◌else◌,
}
use passdoq.Prelude.Exec.{Result, ok, throw, fault, ◌>>◌}
use passdoq.Prelude.Text.{Text, Bytes, codes, eq_text, eq_text_iff}
use passdoq.StdMap.Laws.{IsSorted}
use passdoq.Platform.{Platform}
use passdoq.Platform.Laws.{SodiumLaws, MsgpackLaws, IsHealthy}
use passdoq.Crypto.{secure_zero}
use passdoq.Crypto.Laws.{drawn}
use passdoq.Vault.{Session, new_vault}
use passdoq.Vault.Codec.Roundtrip.{IsKeyed, AllStorable, stored_entries}
use passdoq.Vault.Keys.{open_vault, unlock, rekey}
use passdoq.Vault.Keys.Lifecycle.{IsReady, rekey-IsReady}
use passdoq.Vault.Keys.Reopen.{reopened, unlock-open_vault}
use passdoq.Plugin.{Run, now_sec, minus_64, on_vault_unlock, on_config}
use passdoq.Plugin.Settings.{ullong_max, strtoull-decimal, strtoull_fits}
use passdoq.Modules.{vault_rekey}
use passdoq.Vault.Time.{decimal}

secure_zero_lem : (b : Bytes) → length b ≡ 32 → secure_zero b ≡ replicate 32 0
unfolding secure_zero
secure_zero_lem b h = rw h

module _ ⦃p : Platform⦄ where
  -- The interval has passed.
  abbrev pub IsDue : Run → Type 0
  IsDue s = ltb (minus_64 (now_sec s.world) s.last_rotation) s.rotation_interval ≡ false

  -- The key that the hook draws.
  abbrev pub next_key : Run → Bytes
  next_key s = p.randombytes_buf s.draws 32

  abbrev pub drawn_session : Run → Session
  drawn_session s = record (s.session) { world = drawn s.world }

  -- What the hook leaves when the vault took the key.
  abbrev rotated : Run → Session → Run
  rotated s t = record {
    statics = record (s.statics) { last_rotation = now_sec s.world };
    session = t;
    output = s.output ++ codes "[INFO] [EphemeralDataKey] Data key rotated" ∷ [];
    new_key = secure_zero (next_key s);
  }

  on_vault_unlock-rekey :
      (s : Run) (t : Session)
      → IsDue s
      → rekey (next_key s) (drawn_session s) ≡ (ok true, t)
      → on_vault_unlock true true s ≡ (ok true, rotated s t)
  unfolding on_vault_unlock now_sec
  on_vault_unlock-rekey s t due e = ground (arith, due, e)

  -- A vault that is ready under a passphrase, whose entries are in order under their own ids, with
  -- sorted metadata and times up to 2262, where the interval of the plugin has passed, libsodium
  -- and msgpack do what is documented and the disk takes the file: the hook returns 0 and leaves
  -- the vault ready under the same passphrase with the key that it drew and the entries that it
  -- had, its own copy of the key zeroed, and the time noted; and a new vault object that opens
  -- the file and is unlocked with the passphrase returns true and has that key, and every entry
  -- with its times rounded down to seconds.
  pub on_vault_unlock-reopen :
      SodiumLaws p.sodium
      → MsgpackLaws p.msgpack
      → (passphrase : Text) (old : Bytes) (s : Run) → IsReady passphrase old s.vault
      → IsDue s
      → IsHealthy p.disk s.path
      → IsSorted s.entries
      → IsKeyed s.entries
      → AllStorable s.entries
      → let (r, t) = on_vault_unlock true true s in
        (r ≡ ok true)
        × IsReady passphrase (next_key s) t.vault
        × (t.entries ≡ s.entries)
        × (t.new_key ≡ replicate 32 0)
        × (t.last_rotation ≡ now_sec s.world)
        × ((u : Session) × ((open_vault s.path >> unlock passphrase)
                (record { vault = new_vault; world = t.world })
              ≡ (ok true, u))
            × (u.data_key ≡ some (next_key s))
            × (u.entries ≡ stored_entries s.entries))
  on_vault_unlock-reopen sodium_laws laws passphrase old s ready due healthy sorted keyed storable =
      let k : Bytes = next_key s in
      let lk = sodium_laws.length-randombytes_buf s.draws 32 in
      let d : Session = drawn_session s in
      let t : Session = (rekey k d).1 in
      let (done, sealed, same, at, file) =
        rekey-IsReady sodium_laws passphrase old k d ready lk healthy in
      let e : rekey k d ≡ (ok true, t) = λ i. (done i, t) in
      let back =
        unlock-open_vault laws s.path passphrase t.world t.header k s.entries file sealed.seals
          sealed.version sorted keyed storable in
      rw (on_vault_unlock-rekey s t due e) (
        refl,
        sealed,
        same,
        secure_zero_lem k lk,
        refl,
        (reopened s.path t.header sealed.seals.master k s.entries t.world, back, refl, refl),
      )

  abbrev pub at_time : ℕ → Run → Run
  at_time later s = record s {
    session = record (s.session) { world = record (s.world) { now = later } };
  }

  -- After the hook has changed the key of a ready vault, where libsodium does what is documented
  -- and the disk takes the file, it does nothing and returns 0 each time it is called before the
  -- interval has passed, counted in whole seconds that fit in 64 bits.
  pub on_vault_unlock-waits :
      SodiumLaws p.sodium
      → (passphrase : Text) (old : Bytes) (s : Run) → IsReady passphrase old s.vault
      → IsDue s
      → IsHealthy p.disk s.path
      → (later : ℕ) → s.now / 1000000000 ≤ later / 1000000000
      → later / 1000000000 < s.now / 1000000000 + s.rotation_interval
      → later / 1000000000 < 18446744073709551616
      → (has_ctx has_vault : Bool)
      → let t = at_time later (on_vault_unlock true true s).1 in
        on_vault_unlock has_ctx has_vault t ≡ (ok true, t)
  on_vault_unlock-waits sodium_laws passphrase old s ready due healthy later h k f has_ctx
        has_vault =
      let d : Session = drawn_session s in
      let t : Session = (rekey (next_key s) d).1 in
      let done =
        (rekey-IsReady sodium_laws passphrase old (next_key s) d ready
          (sodium_laws.length-randombytes_buf s.draws 32) healthy).0 in
      let e : rekey (next_key s) d ≡ (ok true, t) = λ i. (done i, t) in
      rw (on_vault_unlock-rekey s t due e) (unfold on_vault_unlock now_sec in ground arith)

  kept_key :
      (has_ctx has_vault : Bool) (s : Run) (r : Result Bool) (t : Session)
      → IsDue s
      → vault_rekey has_ctx has_vault (next_key s) (drawn_session s) ≡ (r, t)
      → (on_vault_unlock has_ctx has_vault s).0 ≢ ok true
      → on_vault_unlock has_ctx has_vault s ≡ (r, record s { session = t; new_key = next_key s })
  unfolding on_vault_unlock now_sec
  kept_key has_ctx has_vault s (ok true) t due e h = absurd (h (ground (arith, due, e)))
  kept_key has_ctx has_vault s (ok false) t due e h = ground (arith, due, e)
  kept_key has_ctx has_vault s (throw x) t due e h = ground (arith, due, e)
  kept_key has_ctx has_vault s fault t due e h = ground (arith, due, e)

  -- Where the interval has passed and yet the hook does not return 0 (without a vault, for one that
  -- is locked, or where the key cannot be wrapped or the file not written): its result is that of the
  -- change of the key, an exception included, no rotation is noted or logged, and the key that it
  -- drew stays in its array.
  on_vault_unlock-keeps :
      (has_ctx has_vault : Bool) (s : Run)
      → IsDue s
      → (on_vault_unlock has_ctx has_vault s).0 ≢ ok true
      → let (r, t) = vault_rekey has_ctx has_vault (next_key s) (drawn_session s) in
        on_vault_unlock has_ctx has_vault s ≡ (r, record s { session = t; new_key = next_key s })
  on_vault_unlock-keeps has_ctx has_vault s due h =
      let c = vault_rekey has_ctx has_vault (next_key s) (drawn_session s) in
      kept_key has_ctx has_vault s c.0 c.1 due refl h

abbrev pub set_interval : ℕ → Run → Run
set_interval n s = record s { statics = record (s.statics) { rotation_interval = n } }

-- The setting of the interval: the printed number `n` is read back, where it fits in 64 bits, and
-- as the largest number of 64 bits else; any value leaves an interval of 64 bits; and another key
-- is not handled and changes nothing.
pub on_config-decimal :
    (key value : Text) (n : ℕ) (s : Run)
    → (on_config (codes "ephemeral.rotation_seconds") (decimal n) s
        ≡ (ok true, set_interval (if leb n ullong_max then n else ullong_max) s))
      × ((on_config (codes "ephemeral.rotation_seconds") value s).1.rotation_interval
          < 18446744073709551616)
      × (key ≢ codes "ephemeral.rotation_seconds" → on_config key value s ≡ (ok false, s))
unfolding on_config eq_text
on_config-decimal key value n s = (
  rw (strtoull-decimal n) refl,
  omega (arith, strtoull_fits value),
  λ h. ground (arith, eq_text_iff key (codes "ephemeral.rotation_seconds")),
)
