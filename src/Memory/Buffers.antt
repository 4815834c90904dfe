-- ===== src/Memory/Buffers.antt =====
-- `SecureBuffer` of src/memory.cpp as an object that owns its memory: construction, the two moves,
-- `zero` and destruction, with the calls of `mlock` and `munlock`, and what is freed.
pub mod Laws
use passdoq.Prelude.{
  ℕ, ◌+◌, ◌==◌, Bool, true, false, Option, none, some, List, [], ◌∷◌, ◌++◌, if◌then◌else◌,
  replicate, ltb, length, drop, at_number,
}
use passdoq.Prelude.Text.{Bytes}
use passdoq.Memory.{zero_buffer}

-- The calls for the pages of a block. The source drops their results.
pub data PageCall : Type 0 where
  mlock munlock : ℕ → PageCall

-- The objects, each with the number of its block: `none` for an object that is empty, was moved from,
-- or is not there. The blocks are numbered in the order of their allocation.
pub record Heap : Type 0 where
  pub owned : ℕ → Option ℕ
  pub content : ℕ → Bytes
  -- the last call first
  pub calls : List PageCall
  pub next : ℕ
  -- the contents of blocks at the time when they were freed
  pub freed : List Bytes

abbrev pub empty_heap : Heap
empty_heap = record { owned = λ i. none; content = λ k. []; calls = []; next = 0; freed = [] }

abbrev pub set_owned : ℕ → Option ℕ → Heap → Heap
set_owned i k h = record h { owned = at_number i k h.owned }

-- `SecureBuffer::SecureBuffer`, of the object `i`.
unfoldable pub construct : ℕ → ℕ → Heap → Heap
construct i size h = if size == 0 then h else record (set_owned i (some h.next) h) {
  content = at_number h.next (replicate size 0) h.content;
  calls = mlock h.next ∷ h.calls;
  next = h.next + 1;
}

-- `zero`, on the block of an object.
abbrev pub zero_block : Option ℕ → Heap → Heap
zero_block none h = h
zero_block (some k) h = record h { content = at_number k (zero_buffer (h.content k)) h.content }

unfoldable pub zero : ℕ → Heap → Heap
unfolding zero_buffer
zero i h = zero_block (h.owned i) h

-- `munlock`, and the end of the vector that had the block.
abbrev pub free_block : Option ℕ → Heap → Heap
free_block none h = h
free_block (some k) h = record h {
  calls = munlock k ∷ h.calls;
  freed = h.freed ++ h.content k ∷ [];
}

-- `SecureBuffer::~SecureBuffer`
unfoldable pub destroy : ℕ → Heap → Heap
unfolding zero
destroy i h = set_owned i none (free_block (h.owned i) (zero i h))

-- The move of a vector into one that has no block.
abbrev pub take_over : ℕ → ℕ → Heap → Heap
take_over i j h = record h { owned = at_number i (h.owned j) (at_number j none h.owned) }

-- `SecureBuffer::SecureBuffer(SecureBuffer&&)`: the object `i` from `j`.
unfoldable pub move_construct : ℕ → ℕ → Heap → Heap
move_construct i j h = take_over i j h

-- `SecureBuffer::operator=(SecureBuffer&&)`: the object `i` from `j`.
unfoldable pub move_assign : ℕ → ℕ → Heap → Heap
unfolding destroy
move_assign i j h = if i == j then h else take_over i j (destroy i h)

-- Bytes that are copied through `data`, from its beginning on; a copy past the end is undefined, and
-- here without effect.
abbrev overwrite : Bytes → Bytes → Bytes
overwrite bytes old =
    if ltb (length old) (length bytes) then old else bytes ++ drop (length bytes) old

abbrev write_block : Option ℕ → Bytes → Heap → Heap
write_block none bytes h = h
write_block (some k) bytes h = record h {
  content = at_number k (overwrite bytes (h.content k)) h.content;
}

unfoldable pub write : ℕ → Bytes → Heap → Heap
write i bytes h = write_block (h.owned i) bytes h
