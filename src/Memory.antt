-- ===== src/Memory.antt =====
-- src/memory.cpp and src/memory.hpp: the content of the buffers that are zeroed, and the one
-- that expires. The clock is an argument, in nanoseconds.
pub mod Laws
pub mod Buffers
pub mod Allocator
use passdoq.Prelude.{
  ℕ, ◌+◌, ◌*◌, Bool, true, false, ◌||◌, List, [], ◌∷◌, if◌then◌else◌, leb, length, replicate, drop,
  ◌++◌, not, ltb,
}
use passdoq.Prelude.Exec.{Result, ok, throw, fault, runtime_error}
use passdoq.Prelude.Text.{Bytes, codes}
use passdoq.Crypto.{secure_zero}

-- `SecureBuffer`: its content.
abbrev pub SecureBuffer : Type 0
SecureBuffer = Bytes

-- `SecureBuffer::SecureBuffer`
unfoldable pub new_secure_buffer : ℕ → SecureBuffer
new_secure_buffer size = replicate size 0

-- `SecureBuffer::zero`, where nothing is done for an empty buffer.
unfoldable pub zero_buffer : SecureBuffer → SecureBuffer
unfolding secure_zero
zero_buffer [] = []
zero_buffer (b ∷ l) = secure_zero (b ∷ l)

pub record TimeLimitedBuffer : Type 0 where
  pub buffer : SecureBuffer
  pub expiry : ℕ
  pub timeout : ℕ
  pub is_locked : Bool

-- The timeout is in seconds.
unfoldable pub new_buffer : ℕ → ℕ → ℕ → TimeLimitedBuffer
unfolding new_secure_buffer
new_buffer size seconds now = record {
  buffer = new_secure_buffer size;
  expiry = now + seconds * 1000000000;
  timeout = seconds * 1000000000;
  is_locked = false;
}

unfoldable pub is_expired : ℕ → TimeLimitedBuffer → Bool
is_expired now b = leb b.expiry now

-- What is read through the pointer of `data`.
unfoldable pub read_data : ℕ → TimeLimitedBuffer → Result Bytes
unfolding is_expired
read_data now b =
    if b.is_locked || is_expired now b
    then throw (runtime_error (codes "Buffer is locked or expired"))
    else ok b.buffer

abbrev overwrite : Bytes → TimeLimitedBuffer → Result (Unit {0}) × TimeLimitedBuffer
overwrite bytes b =
    if ltb (length b.buffer) (length bytes)
    then (fault, b)
    else (ok tt, record b { buffer = bytes ++ drop (length bytes) b.buffer })

-- Bytes that a caller copies through the pointer of `data`, from its beginning on.
unfoldable pub write_data : ℕ → Bytes → TimeLimitedBuffer → Result (Unit {0}) × TimeLimitedBuffer
unfolding is_expired
write_data now bytes b =
    if b.is_locked || is_expired now b
    then (throw (runtime_error (codes "Buffer is locked or expired")), b)
    else overwrite bytes b

unfoldable pub size : TimeLimitedBuffer → ℕ
size b = length b.buffer

unfoldable pub refresh_timeout : ℕ → TimeLimitedBuffer → TimeLimitedBuffer
refresh_timeout now b = record b { expiry = now + b.timeout }

-- `TimeLimitedBuffer::lock`
unfoldable pub lock_buffer : TimeLimitedBuffer → TimeLimitedBuffer
unfolding zero_buffer
lock_buffer b = record b { buffer = zero_buffer b.buffer; is_locked = true }

-- `TimeLimitedBuffer::~TimeLimitedBuffer`, with the destructor of its buffer: the content of the memory
-- that is freed.
unfoldable pub destroy_buffer : TimeLimitedBuffer → Bytes
unfolding lock_buffer zero_buffer
destroy_buffer b = zero_buffer (lock_buffer b).buffer
