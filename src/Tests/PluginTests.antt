-- ===== src/Tests/PluginTests.antt =====
-- The theorems on the plugin that changes the data key at concrete inputs.
use passdoq.Prelude.{
  ◌<◌, ◌≡◌, ◌≢◌, refl, true, false, some, [], if◌then◌else◌, leb, replicate, arith,
}
use passdoq.Prelude.Exec.{ok, ◌>>◌}
use passdoq.Prelude.Text.{codes}
use passdoq.Platform.Sample.{toy, toy_sodium-laws, toy_msgpack-laws, toy_disk-IsHealthy}
use passdoq.Vault.{Session, new_vault}
use passdoq.Vault.Time.{decimal}
use passdoq.Vault.Codec.Roundtrip.{stored_entries}
use passdoq.Vault.Keys.{open_vault, unlock}
use passdoq.Vault.Keys.Lifecycle.{IsReady}
use passdoq.Plugin.{Run, initial_statics, now_sec, on_vault_unlock, on_config}
use passdoq.Plugin.Settings.{ullong_max}
use passdoq.Plugin.Laws.{
  IsDue, next_key, at_time, set_interval, on_vault_unlock-reopen, on_vault_unlock-waits,
  on_config-decimal,
}
use passdoq.Tests.Sessions.{
  path, pass, dkey, ready, closed, two, ready-IsReady, two-IsSorted, two-IsKeyed, two-AllStorable,
}

abbrev first_unlock : Run
first_unlock = record {
  statics = initial_statics;
  session = ready;
  output = [];
  new_key = replicate 32 0;
}

abbrev while_locked : Run
while_locked = record first_unlock { session = closed }

first_unlock-IsDue : IsDue first_unlock
unfolding now_sec
first_unlock-IsDue = refl

while_locked-IsDue : IsDue while_locked
unfolding now_sec
while_locked-IsDue = refl

on_vault_unlock-reopen_example :
    let (r, t) = on_vault_unlock true true first_unlock in
    (r ≡ ok true)
    × IsReady pass (next_key first_unlock) t.vault
    × (t.entries ≡ two)
    × (t.new_key ≡ replicate 32 0)
    × (t.last_rotation ≡ now_sec first_unlock.world)
    × ((u : Session) × ((open_vault path >> unlock pass)
            (record { vault = new_vault; world = t.world })
          ≡ (ok true, u))
        × (u.data_key ≡ some (next_key first_unlock))
        × (u.entries ≡ stored_entries two))
on_vault_unlock-reopen_example =
    on_vault_unlock-reopen toy_sodium-laws toy_msgpack-laws pass dkey first_unlock ready-IsReady
      first_unlock-IsDue (toy_disk-IsHealthy path) two-IsSorted two-IsKeyed two-AllStorable

-- 299 seconds later.
on_vault_unlock-waits_example :
    let t = at_time 1000000299500000000 (on_vault_unlock true true first_unlock).1 in
    on_vault_unlock true false t ≡ (ok true, t)
on_vault_unlock-waits_example =
    on_vault_unlock-waits toy_sodium-laws pass dkey first_unlock ready-IsReady first_unlock-IsDue
      (toy_disk-IsHealthy path) 1000000299500000000 (omega arith) (omega arith) (omega arith) true
      false

on_config-decimal_example :
    (on_config (codes "ephemeral.rotation_seconds") (decimal 3600) first_unlock
      ≡ (ok true, set_interval (if leb 3600 ullong_max then 3600 else ullong_max) first_unlock))
    × ((on_config
          (codes "ephemeral.rotation_seconds")
          (codes "-1")
          first_unlock).1.rotation_interval
        < 18446744073709551616)
    × (codes "other" ≢ codes "ephemeral.rotation_seconds"
        → on_config (codes "other") (codes "-1") first_unlock ≡ (ok false, first_unlock))
on_config-decimal_example = on_config-decimal (codes "other") (codes "-1") 3600 first_unlock
