-- ===== src/Vault/Invariant/Methods.antt =====
-- Every method of the vault keeps its invariant, and only `unlock` and `load` can run into
-- undefined behaviour once a vault is valid.
use passdoq.Prelude.{◌≡◌, ◌≢◌, refl, true, some, [], length, arith}
use passdoq.Prelude.Exec.{Result, ok, throw, fault, returns, Exec, ◌>>=◌}
use passdoq.Prelude.Exec.Keeps.{After}
use passdoq.Prelude.Text.{Bytes}
use passdoq.StdMap.Laws.{IsSorted}
use passdoq.Platform.{Platform, World}
use passdoq.Crypto.{encrypt}
use passdoq.Vault.{Vault, unlocked, Session, on_world}
use passdoq.Vault.Codec.Roundtrip.{IsKeyed}
use passdoq.Vault.Storage.{write_file, save, load}
use passdoq.Vault.Keys.{lock}
use passdoq.Vault.Invariant.{IsFramed, load-IsFramed}

-- An unlocked vault has both keys, of 32 bytes; one that is not unlocked holds no entry; the
-- entries are in order under their own ids.
pub record IsValid (v : Vault) : Type 0 where
  pub keys :
      v.state ≡ unlocked
      → (m k : Bytes) × (v.master_key ≡ some m)
        × (v.data_key ≡ some k)
        × (length m ≡ 32)
        × (length k ≡ 32)
  pub closed : v.state ≢ unlocked → v.entries ≡ []
  pub sorted : IsSorted v.entries
  pub keyed : IsKeyed v.entries

abbrev pub Valid : Session → Type 0
Valid s = IsValid s.vault

module _ ⦃p : Platform⦄ where
  -- Saving changes nothing in memory, whatever its outcome.
  pub vault-save : (s : Session) → (save s).1.vault ≡ s.vault
  unfolding save encrypt write_file
  vault-save s = ground arith

  -- Saving a valid vault returns, whatever libsodium and the disk do: no exception leaves it,
  -- and nothing in it is undefined.
  pub save-returns : (s : Session) → Valid s → returns (save s).0 ≡ true
  unfolding save encrypt write_file
  save-returns s v = ground (arith, v.keys)

  pub lock-IsValid : (s : Session) → Valid s → Valid (lock s).1
  unfolding lock
  lock-IsValid s v = record {
    keys = ground (arith, v.keys);
    closed = ground (arith, v.closed);
    sorted = ground (arith, v.sorted);
    keyed = ground (arith, v.keyed);
  }

-- A method of the world outside leaves the vault as it is.
on_world-result :
    {A B : Type 0} (P : Session → Type 0) (r : Result A) (w : World) (f : A → Exec Session B)
    (s : Session)
    → P (record s { world = w })
    → ((a : A) → After P (f a (record s { world = w })))
    → After P (((λ (_ : Session). (r, record s { world = w })) >>= f) s)
on_world-result P (ok a) w f s h k = k a
on_world-result P (throw e) w f s h k = h
on_world-result P fault w f s h k = tt

pub on_world-bind :
    {A B : Type 0} (m : Exec World A) (f : A → Exec Session B) (s : Session)
    → Valid s
    → ((a : A) (w : World) → After Valid (f a (record s { world = w })))
    → After Valid ((on_world m >>= f) s)
on_world-bind m f s h k =
    on_world-result Valid (m s.world).0 (m s.world).1 f s
      (record { keys = h.keys; closed = h.closed; sorted = h.sorted; keyed = h.keyed })
      (λ a. k a (m s.world).1)

-- What `load` and `save` make of a valid vault.
module _ ⦃p : Platform⦄ where
  pub IsFramed-IsValid :
      {A : Type 0} (s : Session) (r : Result A) (t : Session)
      → Valid s
      → After (IsFramed s.state s.master_key s.data_key) (r, t)
      → After Valid (r, t)
  IsFramed-IsValid s (ok a) t v h = record {
    keys = rw (h.same_state, h.same_master, h.same_data) v.keys;
    closed = rw h.same_state h.closed;
    sorted = h.sorted;
    keyed = h.keyed;
  }
  IsFramed-IsValid s (throw e) t v h = record {
    keys = rw (h.same_state, h.same_master, h.same_data) v.keys;
    closed = rw h.same_state h.closed;
    sorted = h.sorted;
    keyed = h.keyed;
  }
  IsFramed-IsValid s fault t v h = tt

  -- `load` keeps the invariant, whatever the file holds.
  pub load-IsValid : (s : Session) → Valid s → After Valid (load s)
  load-IsValid s v = IsFramed-IsValid s (load s).0 (load s).1 v (
      (load-IsFramed s.state s.master_key s.data_key).at s (record {
        same_state = refl;
        same_master = refl;
        same_data = refl;
        sorted = v.sorted;
        keyed = v.keyed;
        closed = v.closed;
      }))

  After-of_vault :
      {A : Type 0} (s : Session) (r : Result A) (t : Session)
      → Valid s
      → t.vault ≡ s.vault
      → After Valid (r, t)
  After-of_vault s (ok a) t v e = rw e v
  After-of_vault s (throw x) t v e = rw e v
  After-of_vault s fault t v e = tt

  pub save-IsValid : (s : Session) → Valid s → After Valid (save s)
  save-IsValid s v = After-of_vault s (save s).0 (save s).1 v (vault-save s)
