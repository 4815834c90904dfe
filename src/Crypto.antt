-- ===== src/Crypto.antt =====
-- src/crypto.cpp and src/crypto.hpp: keys, random bytes, encryption and decryption over libsodium.
pub mod Laws
use passdoq.Prelude.{
  ℕ, ◌+◌, ◌-◌, ◌≡◌, true, false, not, Option, none, some, List, [], ◌∷◌, length, take, drop, ltb,
  ◌==◌, replicate, if◌then◌else◌,
}
use passdoq.Prelude.Exec.{
  Error, runtime_error, invalid_argument, Exec, pure, raise, undefined, or_raise, ◌>>=◌, ◌>>◌,
}
use passdoq.Prelude.Text.{Text, Bytes, codes}
use passdoq.Platform.{Platform, World}

abbrev pub master_key_size : ℕ
master_key_size = 32

abbrev pub data_key_size : ℕ
data_key_size = 32

abbrev pub salt_size : ℕ
salt_size = 16

-- `crypto_secretbox_KEYBYTES`, `crypto_secretbox_NONCEBYTES` and `crypto_secretbox_MACBYTES`.
abbrev pub key_bytes : ℕ
key_bytes = 32

abbrev pub nonce_bytes : ℕ
nonce_bytes = 24

abbrev pub mac_bytes : ℕ
mac_bytes = 16

pub record DerivedKey : Type 0 where
  pub key : Bytes
  pub salt : Bytes

pub record EncryptedData : Type 0 where
  pub ciphertext : Bytes
  pub nonce : Bytes
  pub mac : Bytes

-- `sodium_memzero` over a whole buffer.
unfoldable pub secure_zero : Bytes → Bytes
secure_zero buffer = replicate (length buffer) 0

module _ ⦃p : Platform⦄ where
  -- A call of `randombytes_buf` for a buffer of `size` bytes.
  unfoldable pub random_bytes : ℕ → Exec World Bytes
  random_bytes size w = pure (p.randombytes_buf w.draws size) (record w { draws = w.draws + 1 })

  unfoldable pub generate_data_key : Exec World Bytes
  unfolding random_bytes
  generate_data_key = random_bytes data_key_size

  -- An empty salt asks for a random one.
  unfoldable pub choose_salt : Bytes → Exec World Bytes
  unfolding random_bytes
  choose_salt [] = random_bytes salt_size
  choose_salt (b ∷ salt) = pure (b ∷ salt)

  -- `crypto_pwhash` reads `SALT_SIZE` bytes of the salt, whatever its length.
  unfoldable pub derive_key : Text → Bytes → Exec World DerivedKey
  derive_key passphrase salt = if ltb (length salt) salt_size then undefined else do
    key ←
        or_raise (p.pwhash passphrase salt) (runtime_error (codes "Argon2id key derivation failed"))
    pure (record { key = key; salt = salt })

  unfoldable pub derive_master_key : Text → Bytes → Exec World DerivedKey
  unfolding choose_salt derive_key
  derive_master_key passphrase salt = do chosen ← choose_salt salt; derive_key passphrase chosen

  unfoldable pub encrypt : Bytes → Bytes → Exec World EncryptedData
  unfolding random_bytes
  encrypt plaintext key =
      if not (length key == key_bytes)
      then raise (invalid_argument (codes "Invalid key size"))
      else do
        nonce ← random_bytes nonce_bytes
        ciphertext ←
            or_raise (p.secretbox_easy plaintext nonce key)
              (runtime_error (codes "Encryption failed"))
        pure (record { ciphertext = ciphertext; nonce = nonce; mac = take mac_bytes ciphertext })

  -- `crypto_secretbox_open_easy` reads `NONCE_SIZE` bytes of the nonce, whatever its length.
  unfoldable pub decrypt : EncryptedData → Bytes → Exec World Bytes
  decrypt encrypted key =
      if not (length key == key_bytes)
      then raise (invalid_argument (codes "Invalid key size"))
      else if ltb (length encrypted.ciphertext) mac_bytes
      then raise (invalid_argument (codes "Invalid ciphertext size"))
      else if ltb (length encrypted.nonce) nonce_bytes
      then undefined
      else or_raise (p.secretbox_open_easy encrypted.ciphertext encrypted.nonce key)
          (runtime_error (codes "Decryption failed (authentication error)"))
