-- ===== src/Plugin.antt =====
-- src/examples/plugins/ephemeral_datakey.c: the plugin that changes the data key when the vault is
-- unlocked, at most once in an interval.
pub mod Settings
pub mod Laws
pub mod Loading
use passdoq.Prelude.{
  ℕ, ◌+◌, ◌-◌, ◌/◌, ◌%◌, Bool, true, false, none, some, not, List, if◌then◌else◌, ltb,
}
use passdoq.Prelude.Exec.{Exec, pure, gets, modify, ◌>>=◌, ◌>>◌}
use passdoq.Prelude.Text.{Text, Bytes, codes, eq_text}
use passdoq.Platform.{Platform, World}
use passdoq.Vault.{Session, on_world}
use passdoq.Modules.{Module, Library, with_module, vault_rekey}
use passdoq.Modules.Api.{log, log_info, crypto_random, secure_memzero}
use passdoq.Plugin.Settings.{strtoull}

-- The two static variables, in seconds.
pub record Statics : Type 0 where
  pub last_rotation : ℕ
  pub rotation_interval : ℕ

abbrev pub initial_statics : Statics
initial_statics = record { last_rotation = 0; rotation_interval = 300 }

-- The descriptor of the module, and its entry point. There are no hooks for its loading, its unloading
-- and the locking of the vault.
abbrev pub descriptor : Module
descriptor = record {
  name = codes "EphemeralDataKey";
  init = none;
  deinit = false;
  on_vault_unlock = some true;
  on_vault_lock = none;
  on_config = some true;
}

abbrev pub passdoq_module_init : Library
passdoq_module_init = with_module descriptor

-- What the hooks read and change: the static variables, the vault and the world, the standard
-- output, and the memory of the array `new_key`, which is on the stack and keeps its content when a
-- hook is left.
pub record Run : Type 0 where
  pub statics : Statics
  pub open statics use *
  pub session : Session
  pub open session use *
  pub output : List Text
  pub new_key : Bytes

abbrev pub on_session : {A : Type 0} → Exec Session A → Exec Run A
on_session m s = let (r, t) = m s.session in (r, record s { session = t })

abbrev pub two_64 : ℕ
two_64 = 18446744073709551616

-- `time(NULL)` as a `uint64_t`.
unfoldable pub now_sec : World → ℕ
now_sec w = w.now / 1000000000 % two_64

-- `a - b` on `uint64_t`.
abbrev pub minus_64 : ℕ → ℕ → ℕ
minus_64 a b = (a + two_64 - b) % two_64

abbrev set_key : Bytes → Run → Run
set_key key s = record s { new_key = key }

abbrev set_last_rotation : ℕ → Run → Run
set_last_rotation now s = record s { statics = record (s.statics) { last_rotation = now } }

-- `on_vault_unlock` from the zeroing of the key on.
unfoldable pub finish_rotation : ℕ → Exec Run Bool
unfolding secure_memzero log
finish_rotation now = do
  modify (λ s. set_key (secure_memzero s.new_key) s)
  modify (set_last_rotation now)
  modify (λ s. record s {
    output = log log_info (codes "[EphemeralDataKey] Data key rotated") s.output;
  })
  pure true

module _ ⦃p : Platform⦄ where
  -- The call of `passdoq_crypto_random` for the 32 bytes of the array.
  unfoldable pub draw_key : Exec Run Bool
  unfolding crypto_random
  draw_key = do
    drawn ← on_session (on_world (crypto_random 32))
    modify (set_key drawn.1)
    pure drawn.0

  -- The call of `passdoq_vault_rekey`, and what follows it.
  unfoldable pub rekey_and_finish : Bool → Bool → ℕ → Exec Run Bool
  unfolding vault_rekey finish_rotation
  rekey_and_finish has_ctx has_vault now = do
    key ← gets (λ s. s.new_key)
    rekeyed ← on_session (vault_rekey has_ctx has_vault key)
    if not rekeyed then pure false else finish_rotation now

  unfoldable pub rotate : Bool → Bool → ℕ → Exec Run Bool
  unfolding draw_key rekey_and_finish
  rotate has_ctx has_vault now = do
    drawn ← draw_key
    if not drawn then pure false else rekey_and_finish has_ctx has_vault now

  -- With a context, or with a null pointer as the context or as its vault: true is the result 0, false
  -- the result -1.
  unfoldable pub on_vault_unlock : Bool → Bool → Exec Run Bool
  unfolding now_sec rotate
  on_vault_unlock has_ctx has_vault s =
      let now = now_sec s.world in
      if ltb (minus_64 now s.last_rotation) s.rotation_interval
      then pure true s
      else rotate has_ctx has_vault now s

-- True is the result 0, false the result 1 of a key that is not handled. Key and value are without
-- the zero byte that ends them.
unfoldable pub on_config : Text → Text → Exec Run Bool
unfolding strtoull
on_config key value s =
    if eq_text key (codes "ephemeral.rotation_seconds")
    then (do
      modify (λ r. record r { statics = record (r.statics) { rotation_interval = strtoull value } })
      pure true)
        s
    else pure false s
