-- ===== src/Vault.antt =====
-- src/vault.hpp: the data of the vault, and the state in which its methods run.
pub mod Time
pub mod Codec
pub mod Storage
pub mod Keys
pub mod Entries
pub mod Invariant
pub mod Trace
pub mod Refinement
use passdoq.Prelude.{ℕ, Bool, true, false, Option, none, List, []}
use passdoq.Prelude.Exec.{Result, ok, throw, fault, Exec, runtime_error, raise, pure}
use passdoq.Prelude.Text.{Text, Bytes, codes}
use passdoq.StdMap.{StdMap}
use passdoq.Platform.{World}

-- Times are in nanoseconds since 1970, the ticks of `std::chrono::system_clock`.
pub record Entry : Type 0 where
  pub id : Text
  pub name : Text
  pub username : Text
  pub secret : Bytes
  pub metadata : StdMap Text
  pub tags : List Text
  pub created : ℕ
  pub modified : ℕ

pub data VaultState : Type 0 where
  locked unlocked uninitialized : VaultState

pub record VaultHeader : Type 0 where
  pub version : ℕ
  pub salt : Bytes
  pub encrypted_data_key : Bytes
  pub data_key_nonce : Bytes

-- The two keys are the content of their `SecureBuffer`; `none` is a null pointer.
pub record Vault : Type 0 where
  pub path : Text
  pub state : VaultState
  pub header : VaultHeader
  pub master_key : Option Bytes
  pub data_key : Option Bytes
  pub entries : StdMap Entry

-- `Vault::Vault`. The version of the header is not initialized there; no method reads it before
-- it is set.
abbrev pub new_vault : Vault
new_vault = record {
  path = [];
  state = uninitialized;
  header = record { version = 0; salt = []; encrypted_data_key = []; data_key_nonce = [] };
  master_key = none;
  data_key = none;
  entries = [];
}

-- What a method of the vault reads and changes: the object and the world outside.
pub record Session : Type 0 where
  pub vault : Vault
  pub open vault use *
  pub world : World
  pub open world use *

abbrev pub on_world : {A : Type 0} → Exec World A → Exec Session A
on_world m s = let (r, w) = m s.world in (r, record s { world = w })

abbrev pub is_unlocked_state : VaultState → Bool
is_unlocked_state unlocked = true
is_unlocked_state locked = false
is_unlocked_state uninitialized = false

abbrev pub is_locked_state : VaultState → Bool
is_locked_state locked = true
is_locked_state unlocked = false
is_locked_state uninitialized = false

abbrev pub is_uninitialized_state : VaultState → Bool
is_uninitialized_state uninitialized = true
is_uninitialized_state locked = false
is_uninitialized_state unlocked = false

unfoldable pub is_unlocked : Vault → Bool
is_unlocked v = is_unlocked_state v.state

-- `ensure_unlocked`
unfoldable pub ensure_unlocked : Exec Session (Unit {0})
ensure_unlocked s = (
  elim (is_unlocked_state s.state) [
    | true ↦ ok tt
    | false ↦ throw (runtime_error (codes "Vault is locked"))
  ],
  s,
)
