-- ===== src/Tests/VaultTests.antt =====
-- The theorems on the life of a vault at concrete inputs.
use passdoq.Prelude.{◌≡◌, refl, true, false, some, List, [], ◌∷◌, ◌++◌, take, arith, replicate}
use passdoq.Prelude.Exec.{ok, ◌>>◌, returns}
use passdoq.Prelude.Text.{codes, eq_text}
use passdoq.StdMap.{StdMap}
use passdoq.Platform.{World}
use passdoq.Platform.Sample.{toy, toy_world, toy_sodium-laws, toy_msgpack-laws, toy_disk-IsHealthy}
use passdoq.Vault.{Entry, new_vault, unlocked}
use passdoq.Tests.Sessions.{
  path, pass, fresh, dkey, salt, master, header, two, ready, closed, header-Seals, ready-IsReady,
  ready-IsValid, closed-IsValid, two-IsSorted, two-IsKeyed, two-AllStorable,
}
use passdoq.Prelude.Exec.Keeps.{After}
use passdoq.Vault.Time.{time_to_string, string_to_time, string_to_time-time_to_string}
use passdoq.Vault.Codec.{serialize_entries, deserialize_entries, set_entries}
use passdoq.Vault.Codec.Roundtrip.{deserialize-serialize, stored_entries}
use passdoq.Vault.Storage.{save, load, load_file}
use passdoq.Vault.Storage.Roundtrip.{HoldsVault, save-HoldsVault}
use passdoq.Vault.Keys.{create, open_vault, unlock, lock, rekey}
use passdoq.Vault.Keys.Created.{create-IsReady, new_data_key}
use passdoq.Vault.Keys.Lifecycle.{IsReady, save-reopen, rekey-IsReady}
use passdoq.Vault.Keys.Reopen.{reopened, unlock-wrong_passphrase}
use passdoq.Vault.Keys.Locking.{save-lock-unlock, unlock_failed-unlocked}
use passdoq.Vault.Trace.{Call, run, run-IsValid, new_vault-IsValid}
use passdoq.Vault.Invariant.Methods.{Valid, vault-save, save-returns}

string_to_time-time_to_string_example : string_to_time (time_to_string 1500000000) ≡ some 1000000000
string_to_time-time_to_string_example = string_to_time-time_to_string 1500000000 (omega arith)

-- The entries of `ready` as they are read back.
abbrev read_back : StdMap Entry
read_back = stored_entries two

deserialize-serialize_example :
    deserialize_entries (serialize_entries two) fresh ≡ (ok tt, set_entries read_back fresh)
deserialize-serialize_example =
    deserialize-serialize toy_msgpack-laws two fresh two-IsSorted two-IsKeyed two-AllStorable

-- A script: create, lock, unlock with a wrong passphrase and with the right one, and list.
abbrev script : List Call
script =
    Call.create path pass
    ∷ Call.lock
    ∷ Call.unlock (codes "no")
    ∷ Call.unlock pass
    ∷ Call.list_entries
    ∷ []

run-IsValid_example : After Valid (run script fresh)
run-IsValid_example = run-IsValid script fresh new_vault-IsValid

create-IsReady_example :
    let (r, t) = create path pass fresh in
    (r ≡ ok true)
    × IsReady pass (new_data_key toy_world) t.vault
    × (t.entries ≡ [])
    × HoldsVault t.world path t.header (new_data_key toy_world) []
create-IsReady_example =
    create-IsReady toy_sodium-laws path pass _ fresh refl refl (toy_disk-IsHealthy path)

-- The world after `ready` was saved.
abbrev saved_world : World
saved_world = (save ready).1.world

saved_file : HoldsVault saved_world path header dkey two
saved_file = (save-HoldsVault toy_sodium-laws ready dkey refl refl refl (toy_disk-IsHealthy path)).2

save-reopen_example :
    ((save ready).0 ≡ ok true)
    × ((open_vault path >> unlock pass) (record { vault = new_vault; world = saved_world })
        ≡ (ok true, reopened path header master dkey two saved_world))
unfolding ready-IsReady header-Seals
save-reopen_example =
    save-reopen toy_sodium-laws toy_msgpack-laws pass dkey ready ready-IsReady
      (toy_disk-IsHealthy path) two-IsSorted two-IsKeyed two-AllStorable

rekey-IsReady_example :
    let (r, t) = rekey (replicate 32 9) ready in
    (r ≡ ok true)
    × IsReady pass (replicate 32 9) t.vault
    × (t.entries ≡ two)
    × (t.path ≡ path)
    × HoldsVault t.world path t.header (replicate 32 9) two
rekey-IsReady_example =
    rekey-IsReady toy_sodium-laws pass dkey (replicate 32 9) ready ready-IsReady refl
      (toy_disk-IsHealthy path)

save-lock-unlock_example :
    (save >> (lock >> unlock pass)) ready
    ≡ (ok true, set_entries read_back (record ready { world = saved_world }))
save-lock-unlock_example =
    save-lock-unlock toy_sodium-laws toy_msgpack-laws pass dkey ready ready-IsReady
      (toy_disk-IsHealthy path) ready-IsValid two-AllStorable

unlock-wrong_passphrase_example : unlock (codes "no") closed ≡ (ok false, closed)
unfolding eq_text
unlock-wrong_passphrase_example =
    unlock-wrong_passphrase (codes "no") (take 32 (codes "no" ++ (salt ++ replicate 32 0))) closed
      refl (omega arith) (omega arith) refl refl

-- The file of `closed` is not there.
unlock_failed-unlocked_example :
    let t = (unlock pass closed).1 in
    ((unlock pass closed).0 ≡ ok false)
    × (t.state ≡ unlocked)
    × ((save t).0 ≡ ok true)
    × HoldsVault (save t).1.world t.path t.header dkey t.entries
unfolding load load_file
unlock_failed-unlocked_example =
    unlock_failed-unlocked toy_sodium-laws pass dkey closed header-Seals refl closed-IsValid refl
      (toy_disk-IsHealthy _)

vault-save_example : (save ready).1.vault ≡ ready.vault
vault-save_example = vault-save ready

save-returns_example : returns (save ready).0 ≡ true
save-returns_example = save-returns ready ready-IsValid
