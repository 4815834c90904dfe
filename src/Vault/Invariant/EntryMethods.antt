-- ===== src/Vault/Invariant/EntryMethods.antt =====
-- The methods on entries keep the invariant of the vault and are always defined, and so is every
-- sequence of calls of the methods of the vault.
use passdoq.Prelude.{◌+◌, ◌≡◌, true, Option, none, some, arith, Bool-cases, inl, inr}
use passdoq.Prelude.Text.{Text}
use passdoq.StdMap.{StdMap, find, insert, erase}
use passdoq.StdMap.Laws.{IsSorted, insert-IsSorted, erase-IsSorted}
use passdoq.Platform.{Platform, World}
use passdoq.Crypto.{random_bytes}
use passdoq.Vault.{Entry, Session, ensure_unlocked, is_unlocked_state}
use passdoq.Vault.Codec.{set_entries, put_entry}
use passdoq.Vault.Codec.Roundtrip.{IsKeyed}
use passdoq.Vault.Entries.{
  add_entry, update_entry, replace_entry, delete_entry, get_entry, list_entries, search_entries,
  search_by_tag,
}
use passdoq.Vault.Invariant.{insert-IsKeyed, erase-IsKeyed}
use passdoq.Vault.Invariant.Methods.{Valid}

pub unlocked-IsValid :
    (m : StdMap Entry) (w : World) (s : Session)
    → Valid s
    → is_unlocked_state s.state ≡ true
    → IsSorted m
    → IsKeyed m
    → Valid (set_entries m (record s { world = w }))
unlocked-IsValid m w s v h sorted keyed = record {
  keys = v.keys;
  closed = λ n. absurd (n (ground arith));
  sorted = sorted;
  keyed = keyed;
}

put_entry-IsValid :
    (e : Entry) (w : World) (s : Session)
    → Valid s
    → is_unlocked_state s.state ≡ true
    → Valid (put_entry e (record s { world = w }))
put_entry-IsValid e w s v h =
    unlocked-IsValid (insert e.id e s.entries) w s v h (insert-IsSorted e.id e s.entries v.sorted)
      (insert-IsKeyed e s.entries v.keyed)

replace_entry-IsValid :
    (id : Text) (e : Entry) (o : Option Entry) (s : Session)
    → Valid s
    → is_unlocked_state s.state ≡ true
    → Valid (replace_entry id e o s).1
replace_entry-IsValid id e none s v h = v
replace_entry-IsValid id e (some old) s v h = put_entry-IsValid _ s.world s v h

module _ ⦃p : Platform⦄ where
  pub add_entry-IsValid : (e : Entry) (s : Session) → Valid s → Valid (add_entry e s).1
  unfolding add_entry random_bytes ensure_unlocked
  add_entry-IsValid e s v = elim (Bool-cases (is_unlocked_state s.state)) [
    | inr h ↦ rw h v
    | inl h ↦ rw h (put_entry-IsValid _ (record (s.world) { draws = s.draws + 1 }) s v h)
  ]

  pub update_entry-IsValid :
      (id : Text) (e : Entry) (s : Session) → Valid s → Valid (update_entry id e s).1
  unfolding update_entry ensure_unlocked
  update_entry-IsValid id e s v = elim (Bool-cases (is_unlocked_state s.state)) [
    | inr h ↦ rw h v
    | inl h ↦ rw h (replace_entry-IsValid id e (find id s.entries) s v h)
  ]

  pub delete_entry-IsValid : (id : Text) (s : Session) → Valid s → Valid (delete_entry id s).1
  unfolding delete_entry ensure_unlocked
  delete_entry-IsValid id s v = elim (Bool-cases (is_unlocked_state s.state)) [
    | inr h ↦ rw h v
    | inl h ↦ rw h (
        unlocked-IsValid (erase id s.entries) s.world s v h (erase-IsSorted id s.entries v.sorted)
          (erase-IsKeyed id s.entries v.keyed))
  ]

  -- The methods that only read.
  pub reads_unchanged :
      (a : Text) (s : Session)
      → ((get_entry a s).1 ≡ s)
        × ((list_entries s).1 ≡ s)
        × ((search_entries a s).1 ≡ s)
        × ((search_by_tag a s).1 ≡ s)
  unfolding get_entry list_entries search_entries search_by_tag ensure_unlocked
  reads_unchanged a s = (ground arith, ground arith, ground arith, ground arith)
