-- ===== src/Vault/Invariant.antt =====
-- The invariant of the vault object, which every method of src/vault.cpp keeps.
pub mod Methods
pub mod KeyMethods
pub mod CreateMethod
pub mod RekeyMethod
pub mod EntryMethods
use passdoq.Prelude.{
  ℕ, ◌≡◌, ◌≢◌, refl, sym, ◌∙◌, Bool, true, false, not, Option, none, some, List, [], ◌∷◌, length,
  arith, if◌then◌else◌, replicate, Option-cases, Bool-cases, inl, inr,
}
use passdoq.Prelude.Exec.{
  Result, ok, throw, fault, Exec, modify, pure, try_catch, ◌>>=◌, ◌>>◌, Error,
}
use passdoq.Prelude.Exec.Keeps.{After, Keeps, Keeps-bind, Keeps-pure, Keeps-try, keeps_rules}
use passdoq.Prelude.Text.{Text, Bytes, eq_text, eq_text_iff}
use passdoq.StdMap.{StdMap, find, insert, erase}
use passdoq.StdMap.Laws.{IsSorted, insert-IsSorted, erase-IsSorted}
use passdoq.Platform.{Platform, World, Object}
use passdoq.Crypto.{EncryptedData, encrypt, decrypt, secure_zero}
use passdoq.Vault.{
  Entry, VaultHeader, Vault, VaultState, locked, unlocked, uninitialized, Session, on_world,
  ensure_unlocked, is_unlocked_state,
}
use passdoq.Vault.Codec.{
  set_entries, put_entry, read_entry, read_item, read_items, deserialize_entries,
}
use passdoq.Vault.Codec.Roundtrip.{IsKeyed}
use passdoq.Vault.Storage.{
  set_header, write_file, save_unlocked, save, load_header, load_entries, load_if_unlocked,
  load_bytes, load_content, load_file, load,
}

pub insert-IsKeyed : (e : Entry) (m : StdMap Entry) → IsKeyed m → IsKeyed (insert e.id e m)
unfolding insert
insert-IsKeyed e [] k = (refl, tt)
insert-IsKeyed e ((j, x) ∷ m) k = ground (arith, eq_text_iff e.id j, insert-IsKeyed e m k.1)

pub erase-IsKeyed : (k : Text) (m : StdMap Entry) → IsKeyed m → IsKeyed (erase k m)
unfolding erase
erase-IsKeyed k [] h = tt
erase-IsKeyed k ((j, x) ∷ m) h = ground (arith, erase-IsKeyed k m h.1)

is_unlocked→eq : (t : VaultState) → is_unlocked_state t ≡ true → t ≡ unlocked
is_unlocked→eq t e = ground arith

-- What the steps of `load` leave alone, and what they keep of the entries: the keys and the state
-- are the given ones, the entries are in order under their own ids, and there are none unless the
-- state is unlocked.
module _ (state : VaultState) (master data_key : Option Bytes) where
  pub record IsFramed (s : Session) : Type 0 where
    pub same_state : s.state ≡ state
    pub same_master : s.master_key ≡ master
    pub same_data : s.data_key ≡ data_key
    pub sorted : IsSorted s.entries
    pub keyed : IsKeyed s.entries
    pub closed : state ≢ unlocked → s.entries ≡ []

  on_world-After :
      {A : Type 0} (r : Result A) (w : World) (s : Session)
      → IsFramed s
      → After IsFramed (r, record s { world = w })
  on_world-After (ok a) w s h = record {
    same_state = h.same_state;
    same_master = h.same_master;
    same_data = h.same_data;
    sorted = h.sorted;
    keyed = h.keyed;
    closed = h.closed;
  }
  on_world-After (throw e) w s h = record {
    same_state = h.same_state;
    same_master = h.same_master;
    same_data = h.same_data;
    sorted = h.sorted;
    keyed = h.keyed;
    closed = h.closed;
  }
  on_world-After fault w s h = tt

  pub on_world-IsFramed : {A : Type 0} (m : Exec World A) → Keeps IsFramed (on_world m)
  on_world-IsFramed m = record { at = λ s h. on_world-After (m s.world).0 (m s.world).1 s h }

  header-IsFramed : (f : Session → VaultHeader) → Keeps IsFramed (modify (λ s. set_header (f s) s))
  header-IsFramed f = record {
    at = λ s h. record {
      same_state = h.same_state;
      same_master = h.same_master;
      same_data = h.same_data;
      sorted = h.sorted;
      keyed = h.keyed;
      closed = h.closed;
    };
  }

  module _ ⦃p : Platform⦄ where
    load_header-IsFramed : (m : StdMap Object) → Keeps IsFramed (load_header m)
    unfolding load_header
    load_header-IsFramed m = search (keeps_rules, header-IsFramed) depth 20

    module _ (open_state : state ≡ unlocked) where
      set_entries-IsFramed :
          (f : Session → StdMap Entry)
          → ((s : Session) → IsFramed s → IsSorted (f s) × IsKeyed (f s))
          → Keeps IsFramed (modify (λ s. set_entries (f s) s))
      set_entries-IsFramed f k = record {
        at = λ s h. record {
          same_state = h.same_state;
          same_master = h.same_master;
          same_data = h.same_data;
          sorted = (k s h).0;
          keyed = (k s h).1;
          closed = λ n. absurd (n open_state);
        };
      }

      put_entry-IsFramed : (e : Entry) → Keeps IsFramed (modify (put_entry e))
      put_entry-IsFramed e =
          set_entries-IsFramed (λ s. insert e.id e s.entries)
            (λ s h. (insert-IsSorted e.id e s.entries h.sorted, insert-IsKeyed e s.entries h.keyed))

      clear-IsFramed : Keeps IsFramed (modify (set_entries []))
      clear-IsFramed = set_entries-IsFramed (λ s. []) (λ s h. (tt, tt))

      read_entry-IsFramed : (m : StdMap Object) → Keeps IsFramed (read_entry m)
      unfolding read_entry
      read_entry-IsFramed m = search keeps_rules depth 30

      read_item-IsFramed : (o : Object) → Keeps IsFramed (read_item o)
      unfolding read_item
      read_item-IsFramed o = search (keeps_rules, read_entry-IsFramed, put_entry-IsFramed)

      read_items-IsFramed : (l : List Object) → Keeps IsFramed (read_items l)
      unfolding read_items
      read_items-IsFramed [] = search keeps_rules
      read_items-IsFramed (o ∷ l) =
          Keeps-bind (read_item o) (λ _. read_items l) (read_item-IsFramed o)
            (λ _. read_items-IsFramed l)

      deserialize_entries-IsFramed : (b : Bytes) → Keeps IsFramed (deserialize_entries b)
      unfolding deserialize_entries
      deserialize_entries-IsFramed b =
          search (keeps_rules, clear-IsFramed, read_items-IsFramed) depth 12

      load_entries-IsFramed : (m : StdMap Object) (k : Bytes) → Keeps IsFramed (load_entries m k)
      unfolding load_entries
      load_entries-IsFramed m k =
          search (keeps_rules, on_world-IsFramed, deserialize_entries-IsFramed) depth 16

    load_if_unlocked-After :
        (m : StdMap Object) (s : Session) → IsFramed s → After IsFramed (load_if_unlocked m s)
    unfolding load_if_unlocked
    load_if_unlocked-After m s h = elim (Bool-cases (is_unlocked_state s.state)) [
      | inr e ↦ rw e h
      | inl e ↦ elim (Option-cases s.data_key) [
        | inl f ↦ simp (e, f) h
        | inr (k, f) ↦
            simp (e, f)
              ((Keeps-bind (load_entries m k) (λ _. pure true)
                  (load_entries-IsFramed (sym h.same_state ∙ is_unlocked→eq s.state e) m k)
                  (λ _. Keeps-pure true)).at
                s h)
      ]
    ]

    load_if_unlocked-IsFramed : (m : StdMap Object) → Keeps IsFramed (load_if_unlocked m)
    load_if_unlocked-IsFramed m = record { at = load_if_unlocked-After m }

    load_bytes-IsFramed : (b : Bytes) → Keeps IsFramed (load_bytes b)
    unfolding load_bytes
    load_bytes-IsFramed b =
        search (keeps_rules, load_header-IsFramed, load_if_unlocked-IsFramed) depth 12

    load_content-IsFramed : (o : Option Bytes) → Keeps IsFramed (load_content o)
    load_content-IsFramed none = Keeps-pure false
    load_content-IsFramed (some b) = load_bytes-IsFramed b

    load_file-IsFramed : Keeps IsFramed load_file
    unfolding load_file
    load_file-IsFramed = record { at = λ s h. (load_content-IsFramed (s.files s.path)).at s h }

    -- `load` keeps the frame, whatever the file holds.
    pub load-IsFramed : Keeps IsFramed load
    unfolding load
    load-IsFramed = Keeps-try load_file (pure false) load_file-IsFramed (Keeps-pure false)
