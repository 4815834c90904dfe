-- ===== src/Platform/Laws.antt =====
-- What is relied on of libsodium, msgpack-c and the disk, as their documentation states it.
use passdoq.Prelude.{ℕ, ◌+◌, ◌<◌, ◌≡◌, true, some, List, [], ◌∷◌, length}
use passdoq.Prelude.Text.{Text, Bytes}
use passdoq.StdMap.{StdMap, insert_all}
use passdoq.Platform.{
  Object, Items, Fields, uint, str, bin, array, dict, no_items, item, no_fields, field, Sodium,
  Msgpack, Disk,
}

-- The sizes are `crypto_secretbox_KEYBYTES`, `…_NONCEBYTES` and `…_MACBYTES`.
pub record SodiumLaws (s : Sodium) : Type 0 where
  pub length-pwhash :
      (p : Text) (salt : Bytes) {k : Bytes} → s.pwhash p salt ≡ some k → length k ≡ 32
  pub length-randombytes_buf : (n size : ℕ) → length (s.randombytes_buf n size) ≡ size
  -- Encryption never fails at the sizes required, and adds the tag of 16 bytes.
  pub secretbox_easy_total :
      (m n k : Bytes)
      → length n ≡ 24
      → length k ≡ 32
      → (c : Bytes) × (s.secretbox_easy m n k ≡ some c) × (length c ≡ length m + 16)
  -- What was encrypted is decrypted with the same nonce and key.
  pub open-easy :
      (m n k : Bytes) {c : Bytes}
      → length n ≡ 24
      → length k ≡ 32
      → s.secretbox_easy m n k ≡ some c
      → s.secretbox_open_easy c n k ≡ some m

abbrev pub items_list : Items → List Object
items_list no_items = []
items_list (item o i) = o ∷ items_list i

abbrev pub fields_list : Fields → List (Text × Object)
fields_list no_fields = []
fields_list (field k o f) = (k, o) ∷ fields_list f

-- A list of objects as the elements of an array, and a map from text to text.
abbrev pub to_items : List Object → Items
to_items [] = no_items
to_items (o ∷ l) = item o (to_items l)

abbrev pub text_items : List Text → Items
text_items [] = no_items
text_items (t ∷ l) = item (str t) (text_items l)

abbrev pub text_fields : StdMap Text → Fields
text_fields [] = no_fields
text_fields ((k, v) ∷ m) = field k (str v) (text_fields m)

-- What is packed is unpacked, and `as<T>()` of a packed `T` is the value.
pub record MsgpackLaws (m : Msgpack) : Type 0 where
  pub unpack-pack : (o : Object) → m.unpack (m.pack o) ≡ some o
  pub as_uint32-uint : (n : ℕ) → n < 4294967296 → m.as_uint32 (uint n) ≡ some n
  pub as_text-str : (t : Text) → m.as_text (str t) ≡ some t
  pub as_bytes-bin : (b : Bytes) → m.as_bytes (bin b) ≡ some b
  pub as_objects-array : (i : Items) → m.as_objects (array i) ≡ some (items_list i)
  pub as_fields-dict : (f : Fields) → m.as_fields (dict f) ≡ some (insert_all (fields_list f) [])
  pub as_texts-array : (l : List Text) → m.as_texts (array (text_items l)) ≡ some l
  pub as_metadata-dict :
      (d : StdMap Text) → m.as_metadata (dict (text_fields d)) ≡ some (insert_all d [])

-- The file at `path` can be written, and a write of it is complete.
pub record IsHealthy (d : Disk) (path : Text) : Type 0 where
  pub can_be_written : d.can_write path ≡ true
  pub write_whole : (b : Bytes) → d.write path b ≡ (b, true)
