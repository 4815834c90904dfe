-- ===== src/Vault/Codec.antt =====
-- `serialize_entries` and `deserialize_entries` of src/vault.cpp: the entries as one msgpack array
-- of maps with eight fields.
pub mod Roundtrip
use passdoq.Prelude.{ℕ, Bool, true, false, Option, none, some, List, [], ◌∷◌, get_or}
use passdoq.Prelude.Exec.{
  Exec, Error, library_error, pure, modify, or_raise, or_undefined, ◌>>=◌, ◌>>◌,
}
use passdoq.Prelude.Text.{Text, Bytes, codes}
use passdoq.StdMap.{StdMap, find, insert}
use passdoq.Platform.{
  Platform, Object, nil, uint, str, bin, array, dict, Items, no_items, item, Fields, no_fields,
  field,
}
use passdoq.Platform.Laws.{text_items, text_fields}
use passdoq.Vault.{Entry, Vault, Session}
use passdoq.Vault.Time.{time_to_string, string_to_time}

-- The eight fields of one entry, in the order in which they are packed.
unfoldable pub entry_object : Entry → Object
entry_object e = dict (
    field (codes "id") (str e.id) (
      field (codes "name") (str e.name) (
        field (codes "username") (str e.username) (
          field (codes "secret") (bin e.secret) (
            field (codes "metadata") (dict (text_fields e.metadata)) (
              field (codes "tags") (array (text_items e.tags)) (
                field (codes "created") (str (time_to_string e.created))
                  (field (codes "modified") (str (time_to_string e.modified)) no_fields))))))))

unfoldable pub entries_items : StdMap Entry → Items
unfolding entry_object
entries_items [] = no_items
entries_items ((k, e) ∷ m) = item (entry_object e) (entries_items m)

-- `map["key"]` of a map of objects: a missing key gives a new object, which is nil.
abbrev pub at_key : StdMap Object → Text → Object
at_key m k = get_or (find k m) nil

-- `object::as<T>()`, which throws `msgpack::type_error`.
abbrev pub as_or_throw : {A : Type 0} → Option A → Exec Session A
as_or_throw o = or_raise o library_error

abbrev pub set_entries : StdMap Entry → Session → Session
set_entries m s = record s { vault = record (s.vault) { entries = m } }

-- `entries_[entry.id] = entry`
abbrev pub put_entry : Entry → Session → Session
put_entry e s = set_entries (insert e.id e s.entries) s

module _ ⦃p : Platform⦄ where
  unfoldable pub serialize_entries : StdMap Entry → Bytes
  unfolding entries_items
  serialize_entries entries = p.pack (array (entries_items entries))

  -- The body of the loop, up to the insertion.
  unfoldable pub read_entry : StdMap Object → Exec Session Entry
  read_entry m = do
    id ← as_or_throw (p.as_text (at_key m (codes "id")))
    name ← as_or_throw (p.as_text (at_key m (codes "name")))
    username ← as_or_throw (p.as_text (at_key m (codes "username")))
    secret ← as_or_throw (p.as_bytes (at_key m (codes "secret")))
    metadata ← as_or_throw (p.as_metadata (at_key m (codes "metadata")))
    tags ← as_or_throw (p.as_texts (at_key m (codes "tags")))
    created_text ← as_or_throw (p.as_text (at_key m (codes "created")))
    created ← or_undefined (string_to_time created_text)
    modified_text ← as_or_throw (p.as_text (at_key m (codes "modified")))
    modified ← or_undefined (string_to_time modified_text)
    pure (record {
      id = id;
      name = name;
      username = username;
      secret = secret;
      metadata = metadata;
      tags = tags;
      created = created;
      modified = modified;
    })

  unfoldable pub read_item : Object → Exec Session (Unit {0})
  unfolding read_entry
  read_item o = do m ← as_or_throw (p.as_fields o); entry ← read_entry m; modify (put_entry entry)

  unfoldable pub read_items : List Object → Exec Session (Unit {0})
  unfolding read_item
  read_items [] = pure tt
  read_items (o ∷ l) = do read_item o; read_items l

  -- The entries are cleared first, and stay as far as they were read when a later one throws.
  unfoldable pub deserialize_entries : Bytes → Exec Session (Unit {0})
  unfolding read_items
  deserialize_entries bytes = do
    modify (set_entries [])
    object ← as_or_throw (p.unpack bytes)
    objects ← as_or_throw (p.as_objects object)
    read_items objects
