-- ===== src/Vault/Entries/Access.antt =====
-- What the methods on entries return and change.
use passdoq.Prelude.{◌≡◌, ◌≢◌, true, false, none, some, arith, if◌then◌else◌, is_set}
use passdoq.Prelude.Exec.{Result, ok, throw, runtime_error}
use passdoq.Prelude.Text.{Text, Bytes, codes, eq_text, eq_text_iff}
use passdoq.StdMap.{find, contains_key}
use passdoq.StdMap.Laws.{find-insert, find-erase}
use passdoq.Platform.{Platform}
use passdoq.Crypto.{random_bytes}
use passdoq.Vault.{Entry, Session, unlocked, ensure_unlocked}
use passdoq.Vault.Keys.{rekey}
use passdoq.Vault.Entries.{
  hex, add_entry, update_entry, delete_entry, get_entry, list_entries, search_entries,
  search_by_tag,
}

module _ ⦃p : Platform⦄ where
  -- The exception of `ensure_unlocked`, with nothing changed.
  abbrev pub refused : {A : Type 0} → Session → Result A × Session
  refused s = (throw (runtime_error (codes "Vault is locked")), s)

  -- A vault that is not unlocked refuses every method on entries and the change of its key, and
  -- they change nothing.
  pub locked_refuses :
      (s : Session) (e : Entry) (a : Text) (key : Bytes)
      → s.state ≢ unlocked
      → (add_entry e s ≡ refused s)
        × (update_entry a e s ≡ refused s)
        × (delete_entry a s ≡ refused s)
        × (get_entry a s ≡ refused s)
        × (list_entries s ≡ refused s)
        × (search_entries a s ≡ refused s)
        × (search_by_tag a s ≡ refused s)
        × (rekey key s ≡ refused s)
  unfolding add_entry update_entry delete_entry get_entry list_entries search_entries search_by_tag
      rekey ensure_unlocked
  locked_refuses s e a key h = (
    ground arith,
    ground arith,
    ground arith,
    ground arith,
    ground arith,
    ground arith,
    ground arith,
    ground arith,
  )

  -- The id that the next `add_entry` makes, and the entry that it stores.
  abbrev pub next_id : Session → Text
  next_id s = hex (p.randombytes_buf s.draws 16)

  abbrev pub added : Entry → Session → Entry
  added e s = record e { id = next_id s; created = s.now; modified = s.now }

  -- `add_entry` to an unlocked vault returns an id that is drawn; `get_entry` of it then returns the entry
  -- with this id and both times set to the present, and of any other id what it returned before.
  get-add_entry :
      (e : Entry) (s : Session) (j : Text)
      → s.state ≡ unlocked
      → let (r, t) = add_entry e s in
        (r ≡ ok (next_id s))
        × ((get_entry j t).0
            ≡ (if eq_text (next_id s) j then ok (added e s) else (get_entry j s).0))
  unfolding add_entry get_entry random_bytes ensure_unlocked
  get-add_entry e s j h =
      (ground arith, ground (arith, find-insert (next_id s) j (added e s) s.entries))

  -- `update_entry` of an id that is in an unlocked vault returns true; `get_entry` of it then
  -- returns the new entry with this id, the old time of creation and the present as the time of
  -- modification, and of any other id what it returned before.
  get-update_entry :
      (id j : Text) (e old : Entry) (s : Session)
      → s.state ≡ unlocked
      → find id s.entries ≡ some old
      → let (r, t) = update_entry id e s in
        (r ≡ ok true)
        × ((get_entry j t).0 ≡ (
            if eq_text id j
            then ok (record e { id = id; created = old.created; modified = s.now })
            else (get_entry j s).0))
  unfolding update_entry get_entry ensure_unlocked
  get-update_entry id j e old s h f = (
    ground arith,
    ground (
      arith,
      find-insert id j (record e { id = id; created = old.created; modified = s.now }) s.entries,
    ),
  )

  -- With an id that is not in an unlocked vault, `update_entry` returns false and changes
  -- nothing, `delete_entry` returns false and `get_entry` then returns of any id what it did
  -- before, and `get_entry` of this id throws.
  missing_id :
      (id j : Text) (e : Entry) (s : Session)
      → s.state ≡ unlocked
      → find id s.entries ≡ none
      → (update_entry id e s ≡ (ok false, s))
        × ((delete_entry id s).0 ≡ ok false)
        × ((get_entry j (delete_entry id s).1).0 ≡ (get_entry j s).0)
        × (get_entry id s ≡ (throw (runtime_error (codes "Entry not found")), s))
  unfolding update_entry delete_entry contains_key get_entry ensure_unlocked
  missing_id id j e s h f = (
    ground arith,
    ground arith,
    ground (arith, find-erase id j s.entries, eq_text_iff id j),
    ground arith,
  )

  -- `delete_entry` from an unlocked vault returns whether the id was there; afterwards
  -- `get_entry` of it throws, and of any other id returns what it returned before.
  get-delete_entry :
      (id j : Text) (s : Session)
      → s.state ≡ unlocked
      → let (r, t) = delete_entry id s in
        (r ≡ ok (is_set (find id s.entries)))
        × ((get_entry j t).0 ≡ (
            if eq_text id j
            then throw (runtime_error (codes "Entry not found"))
            else (get_entry j s).0))
  unfolding delete_entry contains_key get_entry ensure_unlocked
  get-delete_entry id j s h = (ground arith, ground (arith, find-erase id j s.entries))
