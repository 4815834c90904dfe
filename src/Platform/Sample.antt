-- ===== src/Platform/Sample.antt =====
-- A small platform that meets all the laws, so that theorems about the program can be applied at
-- concrete inputs. It stands for no real library.
mod Codec
use passdoq.Prelude.{
  ℕ, zero, suc, ◌+◌, ◌≤◌, ◌<◌, ◌≡◌, refl, sym, ◌∙◌, ap, subst, Bool, true, false, Option, none,
  some, List, [], ◌∷◌, ◌++◌, length, take, drop, replicate, length-append, length-take,
  length-replicate, take-length_append, drop-length_append, arith, if◌then◌else◌, ◌%◌,
}
use passdoq.Prelude.Text.{Text, Bytes, codes, eq_text, eq_text_refl}
use passdoq.StdMap.{StdMap, insert_all}
use passdoq.Platform.{
  Object, nil, uint, str, bin, array, dict, Items, no_items, item, Fields, no_fields, field, Sodium,
  Msgpack, Disk, Platform, World,
}
use passdoq.Platform.Laws.{
  SodiumLaws, MsgpackLaws, IsHealthy, items_list, fields_list, text_items, text_fields,
}
use Codec.{encode, decode_all, decode_all-encode}

abbrev toy_seal : Bytes → Bytes → Bytes → Option Bytes
toy_seal m n k = some (take 16 k ++ m)

abbrev toy_open : Bytes → Bytes → Bytes → Option Bytes
toy_open c n k = if eq_text (take 16 c) (take 16 k) then some (drop 16 c) else none

abbrev pub toy_sodium : Sodium
toy_sodium = record {
  pwhash = λ passphrase salt. some (take 32 (passphrase ++ (salt ++ replicate 32 0)));
  secretbox_easy = toy_seal;
  secretbox_open_easy = toy_open;
  randombytes_buf = λ n size. replicate size (n % 256);
}

toy_key_size : (k : Bytes) → length k ≡ 32 → length (take 16 k) ≡ 16
toy_key_size k h = omega (arith, length-take 16 k)

toy_open-seal :
    (m n k : Bytes) {c : Bytes}
    → length n ≡ 24
    → length k ≡ 32
    → toy_seal m n k ≡ some c
    → toy_open c n k ≡ some m
toy_open-seal m n k hn hk e =
    let h = toy_key_size k hk in
    let front : take 16 (take 16 k ++ m) ≡ take 16 k =
      subst (λ j. take j (take 16 k ++ m) ≡ take 16 k) h (take-length_append (take 16 k) m) in
    let back : drop 16 (take 16 k ++ m) ≡ m =
      subst (λ j. drop j (take 16 k ++ m) ≡ m) h (drop-length_append (take 16 k) m) in
    ground (arith, front, back, eq_text_refl (take 16 k))

toy_pwhash_size :
    (t : Text) (salt : Bytes) {k : Bytes} → toy_sodium.pwhash t salt ≡ some k → length k ≡ 32
toy_pwhash_size t salt h = ground (
  arith,
  length-take 32 (t ++ (salt ++ replicate 32 0)),
  length-append t (salt ++ replicate 32 0),
  length-append salt (replicate 32 0),
)

pub toy_sodium-laws : SodiumLaws toy_sodium
toy_sodium-laws = record {
  length-pwhash = toy_pwhash_size;
  length-randombytes_buf = λ n size. length-replicate size (n % 256);
  secretbox_easy_total = λ m n k hn hk.
      (take 16 k ++ m, refl, omega (arith, length-append (take 16 k) m, toy_key_size k hk));
  open-easy = toy_open-seal;
}

pub toy_uint : Object → Option ℕ
toy_uint (uint n) = some n
toy_uint _ = none

pub toy_text : Object → Option Text
toy_text (str t) = some t
toy_text _ = none

pub toy_bytes : Object → Option Bytes
toy_bytes (bin b) = some b
toy_bytes _ = none

pub toy_objects : Object → Option (List Object)
toy_objects (array i) = some (items_list i)
toy_objects _ = none

pub toy_fields : Object → Option (StdMap Object)
toy_fields (dict f) = some (insert_all (fields_list f) [])
toy_fields _ = none

toy_cons : {A : Type 0} → Option A → Option (List A) → Option (List A)
toy_cons (some a) (some l) = some (a ∷ l)
toy_cons _ _ = none

toy_item_texts : Items → Option (List Text)
unfolding toy_text toy_cons
toy_item_texts no_items = some []
toy_item_texts (item o i) = toy_cons (toy_text o) (toy_item_texts i)

pub toy_texts : Object → Option (List Text)
unfolding toy_item_texts
toy_texts (array i) = toy_item_texts i
toy_texts _ = none

toy_pair : Text → Option Text → Option (Text × Text)
toy_pair k none = none
toy_pair k (some v) = some (k, v)

toy_field_texts : Fields → Option (List (Text × Text))
unfolding toy_text toy_cons toy_pair
toy_field_texts no_fields = some []
toy_field_texts (field k o f) = toy_cons (toy_pair k (toy_text o)) (toy_field_texts f)

toy_insert : Option (List (Text × Text)) → Option (StdMap Text)
toy_insert none = none
toy_insert (some l) = some (insert_all l [])

pub toy_metadata : Object → Option (StdMap Text)
unfolding toy_field_texts toy_insert
toy_metadata (dict f) = toy_insert (toy_field_texts f)
toy_metadata _ = none

toy_texts-text_items : (l : List Text) → toy_item_texts (text_items l) ≡ some l
unfolding toy_item_texts
toy_texts-text_items [] = refl
toy_texts-text_items (t ∷ l) = rw (toy_texts-text_items l)

toy_fields-text_fields : (d : StdMap Text) → toy_field_texts (text_fields d) ≡ some d
unfolding toy_field_texts
toy_fields-text_fields [] = refl
toy_fields-text_fields ((k, v) ∷ d) = rw (toy_fields-text_fields d)

abbrev pub toy_msgpack : Msgpack
toy_msgpack = record {
  pack = encode;
  unpack = decode_all;
  as_uint32 = toy_uint;
  as_text = toy_text;
  as_bytes = toy_bytes;
  as_objects = toy_objects;
  as_fields = toy_fields;
  as_texts = toy_texts;
  as_metadata = toy_metadata;
}

pub toy_msgpack-laws : MsgpackLaws toy_msgpack
unfolding toy_uint toy_text toy_bytes toy_objects toy_fields toy_texts toy_metadata
toy_msgpack-laws = record {
  unpack-pack = decode_all-encode;
  as_uint32-uint = λ n h. refl;
  as_text-str = λ t. refl;
  as_bytes-bin = λ b. refl;
  as_objects-array = λ i. refl;
  as_fields-dict = λ f. refl;
  as_texts-array = toy_texts-text_items;
  as_metadata-dict = λ d. ap toy_insert (toy_fields-text_fields d);
}

abbrev pub toy_disk : Disk
toy_disk = record { can_write = λ path. true; write = λ path bytes. (bytes, true) }

pub toy_disk-IsHealthy : (path : Text) → IsHealthy toy_disk path
toy_disk-IsHealthy path = record { can_be_written = refl; write_whole = λ b. refl }

instance abbrev pub toy : Platform
toy = record { sodium = toy_sodium; msgpack = toy_msgpack; disk = toy_disk }

-- No file, no random number drawn, and a time in 2001.
abbrev pub toy_world : World
toy_world = record { files = λ path. none; draws = 0; now = 1000000000500000000 }
