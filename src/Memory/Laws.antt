-- ===== src/Memory/Laws.antt =====
-- A buffer that was locked stays closed, and one that expired is open again after a refresh.
use passdoq.Prelude.{
  ℕ, ◌+◌, ◌≡◌, ◌∙◌, refl, ap, true, not, ◌&&◌, List, [], ◌∷◌, if◌then◌else◌, ltb, length, replicate,
  arith, length-replicate,
}
use passdoq.Prelude.Exec.{ok, throw, runtime_error}
use passdoq.Prelude.Text.{Bytes, codes}
use passdoq.Crypto.{secure_zero}
use passdoq.Memory.{
  TimeLimitedBuffer, is_expired, read_data, write_data, refresh_timeout, lock_buffer, zero_buffer,
  destroy_buffer,
}

-- The uses of a buffer, each at a time.
pub data Use : Type 0 where
  write : ℕ → Bytes → Use
  refresh : ℕ → Use
  lock : Use

abbrev apply_use : Use → TimeLimitedBuffer → TimeLimitedBuffer
apply_use (write now bytes) b = (write_data now bytes b).1
apply_use (refresh now) b = refresh_timeout now b
apply_use lock b = lock_buffer b

abbrev pub use_all : List Use → TimeLimitedBuffer → TimeLimitedBuffer
use_all [] b = b
use_all (u ∷ us) b = use_all us (apply_use u b)

zero_buffer_lem : (l : Bytes) → zero_buffer l ≡ replicate (length l) 0
unfolding zero_buffer secure_zero
zero_buffer_lem [] = refl
zero_buffer_lem (x ∷ l) = refl

zero_buffer-zeros : (n : ℕ) → zero_buffer (replicate n 0) ≡ replicate n 0
zero_buffer-zeros n = rw (zero_buffer_lem (replicate n 0)) (rw (length-replicate {A = ℕ} n 0) refl)

-- The buffer is locked, and holds `n` zeros.
IsClosed : ℕ → TimeLimitedBuffer → Type 0
IsClosed n b = (b.is_locked ≡ true) × (b.buffer ≡ replicate n 0)

apply_use-IsClosed :
    (n : ℕ) (u : Use) (b : TimeLimitedBuffer) → IsClosed n b → IsClosed n (apply_use u b)
unfolding IsClosed write_data refresh_timeout lock_buffer
apply_use-IsClosed n (write now bytes) b c = (ground (arith, c.0), ground (arith, c.0, c.1))
apply_use-IsClosed n (refresh now) b c = c
apply_use-IsClosed n lock b c = (refl, ap zero_buffer c.1 ∙ zero_buffer-zeros n)

use_all-IsClosed :
    (n : ℕ) (us : List Use) (b : TimeLimitedBuffer) → IsClosed n b → IsClosed n (use_all us b)
use_all-IsClosed n [] b c = c
use_all-IsClosed n (u ∷ us) b c = use_all-IsClosed n us (apply_use u b) (apply_use-IsClosed n u b c)

-- Once a buffer was locked, whatever writes, refreshes and locks follow, its content is zeros only
-- and reading it throws, at any time; and any buffer, locked or not, leaves zeros only in the memory
-- that its destructor frees.
pub lock_buffer-final :
    (us : List Use) (now : ℕ) (b : TimeLimitedBuffer)
    → let c = use_all us (lock_buffer b) in
      (c.buffer ≡ replicate (length b.buffer) 0)
      × (read_data now c ≡ throw (runtime_error (codes "Buffer is locked or expired")))
      × (destroy_buffer b ≡ replicate (length b.buffer) 0)
unfolding IsClosed lock_buffer read_data destroy_buffer
lock_buffer-final us now b =
    let (locked, zeros) =
      use_all-IsClosed (length b.buffer) us (lock_buffer b) (refl, zero_buffer_lem b.buffer) in
    (
      zeros,
      ground (arith, locked),
      ap zero_buffer (zero_buffer_lem b.buffer) ∙ zero_buffer-zeros (length b.buffer),
    )

-- A refresh opens a buffer that is not locked until the timeout has passed once more, with the
-- content that it had, also where it had expired before.
read-refresh :
    (now later : ℕ) (b : TimeLimitedBuffer)
    → read_data later (refresh_timeout now b) ≡ (
        if not b.is_locked && ltb later (now + b.timeout)
        then ok b.buffer
        else throw (runtime_error (codes "Buffer is locked or expired")))
unfolding read_data refresh_timeout is_expired
read-refresh now later b = ground arith
