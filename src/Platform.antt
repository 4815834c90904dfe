-- ===== src/Platform.antt =====
-- What the program calls and does not implement: libsodium, msgpack-c, the clock and the files of
-- the operating system. They are one instance argument of every definition that uses them.
pub mod Laws
pub mod Sample
use passdoq.Prelude.{ℕ, Bool, Option, List}
use passdoq.Prelude.Text.{Text, Bytes}
use passdoq.StdMap.{StdMap}

-- The values that the sources hand to `msgpack::packer`, and `nil`, which is the value of
-- a `msgpack::object` made by `map["key"]` where the key is missing.
mutual
  pub data Object : Type 0 where
    nil : Object
    uint : ℕ → Object
    str : Text → Object
    bin : Bytes → Object
    array : Items → Object
    dict : Fields → Object

  pub data Items : Type 0 where
    no_items : Items
    item : Object → Items → Items

  pub data Fields : Type 0 where
    no_fields : Fields
    field : Text → Object → Fields → Fields

-- `crypto_pwhash`, `crypto_secretbox_easy` and `crypto_secretbox_open_easy`: `none` is a result
-- other than 0.
pub record Sodium : Type 0 where
  -- the passphrase and the salt
  pub pwhash : Text → Bytes → Option Bytes
  -- the message (the ciphertext), the nonce and the key
  pub secretbox_easy : Bytes → Bytes → Bytes → Option Bytes
  pub secretbox_open_easy : Bytes → Bytes → Bytes → Option Bytes
  -- the bytes that the n-th call of `randombytes_buf` writes into a buffer of the given size
  pub randombytes_buf : ℕ → ℕ → Bytes

-- `packer.pack…`, `msgpack::unpack` and `object::as<T>()`; `none` is an exception.
pub record Msgpack : Type 0 where
  pub pack : Object → Bytes
  pub unpack : Bytes → Option Object
  pub as_uint32 : Object → Option ℕ
  pub as_text : Object → Option Text
  pub as_bytes : Object → Option Bytes
  pub as_objects : Object → Option (List Object)
  pub as_fields : Object → Option (StdMap Object)
  pub as_texts : Object → Option (List Text)
  pub as_metadata : Object → Option (StdMap Text)

-- A file that is opened by `std::ofstream`, and what a write leaves in it: the content, and
-- whether the stream is good.
pub record Disk : Type 0 where
  pub can_write : Text → Bool
  pub write : Text → Bytes → Bytes × Bool

pub record Platform : Type 0 where
  pub sodium : Sodium
  pub open sodium use *
  pub msgpack : Msgpack
  pub open msgpack use *
  pub disk : Disk
  pub open disk use *

-- What the calls read and change: the files by their path (`none` cannot be opened for reading),
-- the number of calls of `randombytes_buf` so far, and the system clock in nanoseconds.
pub record World : Type 0 where
  pub files : Text → Option Bytes
  pub draws : ℕ
  pub now : ℕ
