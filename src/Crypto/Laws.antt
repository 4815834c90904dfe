-- ===== src/Crypto/Laws.antt =====
-- What encryption and decryption do, on every branch.
use passdoq.Prelude.{refl, All, ◌+◌, ◌<◌, ◌≤◌, ◌≡◌, ◌≢◌, ◌↔◌, some, [], ◌∷◌, length, take, arith}
use passdoq.Prelude.Exec.{ok, throw, fault, invalid_argument, ◌>>=◌}
use passdoq.Prelude.Text.{Text, Bytes, codes}
use passdoq.Platform.{Platform, World}
use passdoq.Platform.Laws.{SodiumLaws}
use passdoq.Crypto.{secure_zero, EncryptedData, derive_master_key, encrypt, decrypt}

-- Bytes that are zeros only.
abbrev pub IsZeroed : Bytes → Type 0
IsZeroed b = All (λ n. n ≡ 0) b

pub secure_zero-IsZeroed : (b : Bytes) → IsZeroed (secure_zero b)
unfolding secure_zero
secure_zero-IsZeroed [] = tt
secure_zero-IsZeroed (x ∷ b) = (refl, secure_zero-IsZeroed b)

module _ ⦃p : Platform⦄ where
  -- The nonce that the next `encrypt` draws.
  abbrev pub next_nonce : World → Bytes
  next_nonce w = p.randombytes_buf w.draws 24

  abbrev pub drawn : World → World
  drawn w = record w { draws = w.draws + 1 }

  -- With a key of 32 bytes `encrypt` returns what libsodium makes with a new nonce, and the first
  -- 16 bytes of it as the tag.
  pub encrypt_lem :
      (m k c : Bytes) (w : World)
      → length k ≡ 32
      → p.secretbox_easy m (next_nonce w) k ≡ some c
      → encrypt m k w
        ≡ (ok (record { ciphertext = c; nonce = next_nonce w; mac = take 16 c }), drawn w)
  unfolding encrypt
  encrypt_lem m k c w hk e = ground arith

  -- A decryption that the code gets as far as libsodium with.
  pub decrypt_lem :
      (e : EncryptedData) (k m : Bytes) (w : World)
      → length k ≡ 32
      → length e.nonce ≡ 24
      → 16 ≤ length e.ciphertext
      → p.secretbox_open_easy e.ciphertext e.nonce k ≡ some m
      → decrypt e k w ≡ (ok m, w)
  unfolding decrypt
  decrypt_lem e k m w hk hn hc h = ground arith

  -- Where libsodium does what is documented, `decrypt` after `encrypt` with the same key of 32
  -- bytes returns the plaintext, and one nonce is drawn.
  pub decrypt-encrypt :
      SodiumLaws p.sodium
      → (m k : Bytes) (w : World) → length k ≡ 32
      → (encrypt m k >>= λ e. decrypt e k) w ≡ (ok m, drawn w)
  decrypt-encrypt laws m k w hk =
      let hn = laws.length-randombytes_buf w.draws 24 in
      let (c, e, hc) = laws.secretbox_easy_total m (next_nonce w) k hn hk in
      rw (encrypt_lem m k c w hk e) (
        decrypt_lem (record { ciphertext = c; nonce = next_nonce w; mac = take 16 c }) k m (drawn w)
          hk hn (omega (arith, hc)) (laws.open-easy m (next_nonce w) k hn hk e))

  -- `encrypt` and `decrypt` throw at a key that has not 32 bytes, and draw no random bytes.
  bad_key_refused :
      (m k : Bytes) (e : EncryptedData) (w : World)
      → length k ≢ 32
      → (encrypt m k w ≡ (throw (invalid_argument (codes "Invalid key size")), w))
        × (decrypt e k w ≡ (throw (invalid_argument (codes "Invalid key size")), w))
  unfolding encrypt decrypt
  bad_key_refused m k e w h = (ground arith, ground arith)

  -- `decrypt` of a nonce that is too short reads past its end: no check stands before the call.
  pub decrypt-short_nonce :
      (e : EncryptedData) (k : Bytes) (w : World)
      → length k ≡ 32
      → 16 ≤ length e.ciphertext
      → length e.nonce < 24
      → decrypt e k w ≡ (fault, w)
  unfolding decrypt
  decrypt-short_nonce e k w hk hc hn = ground arith

  -- `decrypt` reads past the end of a buffer exactly where the key has 32 bytes, the ciphertext has
  -- room for its tag, and the nonce has fewer than 24 bytes.
  decrypt-fault :
      (e : EncryptedData) (k : Bytes) (w : World)
      → ((decrypt e k w).0 ≡ fault)
        ↔ ((length k ≡ 32) × (16 ≤ length e.ciphertext) × (length e.nonce < 24))
  unfolding decrypt
  decrypt-fault e k w =
      ((λ h. (ground arith, ground arith, ground arith)), (λ (a, b, c). ground arith))

  -- A salt that is neither empty nor 16 bytes long is read past its end.
  pub derive_master_key-short_salt :
      (passphrase : Text) (salt : Bytes) (w : World)
      → 0 < length salt
      → length salt < 16
      → derive_master_key passphrase salt w ≡ (fault, w)
  unfolding derive_master_key
  derive_master_key-short_salt passphrase [] w h k = absurd (omega arith)
  derive_master_key-short_salt passphrase (b ∷ salt) w h k = ground arith

  pub derive_master_key_lem :
      (passphrase : Text) (salt key : Bytes) (w : World)
      → 16 ≤ length salt
      → p.pwhash passphrase salt ≡ some key
      → derive_master_key passphrase salt w ≡ (ok (record { key = key; salt = salt }), w)
  unfolding derive_master_key
  derive_master_key_lem passphrase [] key w h e = absurd (omega arith)
  derive_master_key_lem passphrase (b ∷ salt) key w h e = ground arith
