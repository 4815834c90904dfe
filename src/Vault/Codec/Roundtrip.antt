-- ===== src/Vault/Codec/Roundtrip.antt =====
-- Entries that are serialized are read back, with their times rounded down to seconds.
use passdoq.Prelude.{◌/◌, ◌≤◌, ◌≡◌, refl, some, [], ◌∷◌}
use passdoq.Prelude.Exec.{ok}
use passdoq.Prelude.Text.{Text, codes, eq_text, lt_text}
use passdoq.StdMap.{StdMap, find, insert, insert_all}
use passdoq.StdMap.Laws.{IsSorted, insert_all_self, Below}
use passdoq.Platform.{Platform, Object, str, bin, array, dict}
use passdoq.Platform.Laws.{MsgpackLaws, text_items, text_fields, items_list}
use passdoq.Vault.{Entry, Session}
use passdoq.Vault.Time.{
  time_to_string, floor_seconds, ticks_per_second, string_to_time-time_to_string,
}
use passdoq.Vault.Codec.{
  entry_object, entries_items, serialize_entries, read_entry, read_item, read_items, set_entries,
  put_entry, deserialize_entries,
}

-- The entry as a saved file has it.
abbrev pub stored : Entry → Entry
stored e = record e { created = floor_seconds e.created; modified = floor_seconds e.modified }

-- The times fit in 64 bits, and the metadata is a map.
pub record IsStorable (e : Entry) : Type 0 where
  pub created_fits : e.created / ticks_per_second ≤ 9223372036
  pub modified_fits : e.modified / ticks_per_second ≤ 9223372036
  pub metadata-IsSorted : IsSorted e.metadata

-- The map that an entry is read from.
abbrev entry_map : Entry → StdMap Object
entry_map e =
    (codes "created", str (time_to_string e.created))
    ∷ (codes "id", str e.id)
    ∷ (codes "metadata", dict (text_fields e.metadata))
    ∷ (codes "modified", str (time_to_string e.modified))
    ∷ (codes "name", str e.name)
    ∷ (codes "secret", bin e.secret)
    ∷ (codes "tags", array (text_items e.tags))
    ∷ (codes "username", str e.username)
    ∷ []

module _ ⦃p : Platform⦄ (laws : MsgpackLaws p.msgpack) where
  as_fields-entry_object : (e : Entry) → p.as_fields (entry_object e) ≡ some (entry_map e)
  unfolding entry_object insert_all insert eq_text lt_text
  as_fields-entry_object e = laws.as_fields-dict _

  read_entry-entry_map :
      (e : Entry) (s : Session) → IsStorable e → read_entry (entry_map e) s ≡ (ok (stored e), s)
  unfolding read_entry find eq_text
  read_entry-entry_map e s h = simp (
    laws.as_text-str,
    laws.as_bytes-bin,
    laws.as_metadata-dict,
    laws.as_texts-array,
    insert_all_self e.metadata h.metadata-IsSorted,
    string_to_time-time_to_string e.created h.created_fits,
    string_to_time-time_to_string e.modified h.modified_fits,
  )

  read_item-entry_object :
      (e : Entry) (s : Session)
      → IsStorable e
      → read_item (entry_object e) s ≡ (ok tt, put_entry (stored e) s)
  unfolding read_item
  read_item-entry_object e s h = simp (as_fields-entry_object e, read_entry-entry_map e s h)

-- Each entry stands under its own id.
abbrev pub IsKeyed : StdMap Entry → Type 0
IsKeyed [] = Unit
IsKeyed ((k, e) ∷ m) = (e.id ≡ k) × IsKeyed m

abbrev pub AllStorable : StdMap Entry → Type 0
AllStorable [] = Unit
AllStorable ((k, e) ∷ m) = IsStorable e × AllStorable m

abbrev pub stored_entries : StdMap Entry → StdMap Entry
stored_entries [] = []
stored_entries ((k, e) ∷ m) = (k, stored e) ∷ stored_entries m

stored_entries-Below : (k : Text) (m : StdMap Entry) → Below k m → Below k (stored_entries m)
stored_entries-Below k [] h = tt
stored_entries-Below k ((j, e) ∷ m) h = (h.0, stored_entries-Below k m h.1)

pub stored_entries-IsSorted : (m : StdMap Entry) → IsSorted m → IsSorted (stored_entries m)
stored_entries-IsSorted [] h = tt
stored_entries-IsSorted ((k, e) ∷ m) h =
    (stored_entries-Below k m h.0, stored_entries-IsSorted m h.1)

module _ ⦃p : Platform⦄ (laws : MsgpackLaws p.msgpack) where
  read_items-entries_items :
      (m : StdMap Entry) (s : Session)
      → IsKeyed m
      → AllStorable m
      → read_items (items_list (entries_items m)) s
        ≡ (ok tt, set_entries (insert_all (stored_entries m) s.entries) s)
  unfolding read_items entries_items insert_all
  read_items-entries_items [] s k h = refl
  read_items-entries_items ((j, e) ∷ m) s k h =
      rw (read_item-entry_object laws e s h.0)
        (rw (← k.0) (read_items-entries_items m (put_entry (stored e) s) k.1 h.1))

  -- Where msgpack does what is documented, reading back the serialized entries of a map, which
  -- are in order under their own ids, with sorted metadata and times up to 2262, succeeds and
  -- gives every entry with its times rounded down to seconds, whatever entries there were
  -- before.
  pub deserialize-serialize :
      (m : StdMap Entry) (s : Session)
      → IsSorted m
      → IsKeyed m
      → AllStorable m
      → deserialize_entries (serialize_entries m) s ≡ (ok tt, set_entries (stored_entries m) s)
  unfolding deserialize_entries serialize_entries
  deserialize-serialize m s sorted keyed h = rw (laws.unpack-pack (array (entries_items m))) (
      rw (laws.as_objects-array (entries_items m)) (
        rw (read_items-entries_items m (set_entries [] s) keyed h)
          (rw (insert_all_self (stored_entries m) (stored_entries-IsSorted m sorted)) refl)))
