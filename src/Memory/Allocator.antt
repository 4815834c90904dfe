-- ===== src/Memory/Allocator.antt =====
-- `SecureAllocator`, `lock_memory` and `unlock_memory` of src/memory.cpp over the memory of libsodium,
-- whose calls are parameters.
use passdoq.Prelude.{
  ℕ, ◌+◌, ◌*◌, ◌%◌, ◌≡◌, ◌==◌, Bool, true, false, Option, none, some, if◌then◌else◌, at_number,
  arith, Bool-cases, inl, inr, refl,
}
use passdoq.Prelude.Exec.{library_error, Result, throw, fault, Exec, ok, pure, raise, ◌>>=◌, ◌>>◌}

-- Whether `sodium_malloc` and the locking of pages succeed for a number of bytes.
pub record SodiumMemory : Type 0 where
  pub can_allocate : ℕ → Bool
  pub can_lock : ℕ → Bool

-- The blocks, numbered in the order of their allocation, with their size in bytes (`none` for one that
-- is not there), and whether their pages are locked.
pub record Arena : Type 0 where
  pub blocks : ℕ → Option ℕ
  pub is_pinned : ℕ → Bool
  pub next : ℕ

-- `lock_memory` and `unlock_memory` of a block, with the result of the system call.
unfoldable pub lock_memory : Bool → ℕ → Exec Arena Bool
lock_memory locks k s =
    if locks
    then pure true (record s { is_pinned = at_number k true s.is_pinned })
    else pure false s

unfoldable pub unlock_memory : Bool → ℕ → Exec Arena Bool
unlock_memory unlocks k s =
    if unlocks
    then pure true (record s { is_pinned = at_number k false s.is_pinned })
    else pure false s

-- `sodium_malloc`
abbrev new_block : SodiumMemory → ℕ → Exec Arena ℕ
new_block m bytes s =
    if m.can_allocate bytes
    then pure s.next
        (record s { blocks = at_number s.next (some bytes) s.blocks; next = s.next + 1 })
    else raise library_error s

-- `SecureAllocator<T>::allocate` of `n` objects, each of `size` bytes; `none` is a null pointer.
unfoldable pub allocate : SodiumMemory → ℕ → ℕ → Exec Arena (Option ℕ)
unfolding lock_memory
allocate m size n s =
    if n == 0
    then pure none s
    else (do
      let bytes = n * size % 18446744073709551616
      k ← new_block m bytes
      lock_memory (m.can_lock bytes) k
      pure (some k))
        s

-- `SecureAllocator<T>::deallocate`: `sodium_munlock`, and `sodium_free`.
unfoldable pub deallocate : Option ℕ → Arena → Arena
deallocate none s = s
deallocate (some k) s = record s {
  blocks = at_number k none s.blocks;
  is_pinned = at_number k false s.is_pinned;
}

-- The pointer that a call returned; a null pointer where it threw.
abbrev pub pointer : Result (Option ℕ) → Option ℕ
pointer (ok o) = o
pointer (throw e) = none
pointer fault = none

-- What an allocation took is given back: an allocation, and the deallocation of what it returned,
-- leave the same blocks, and the same pages locked, whether or not it succeeded.
pub deallocate-allocate :
    (m : SodiumMemory) (size n : ℕ) (s : Arena) (k : ℕ)
    → s.blocks s.next ≡ none
    → s.is_pinned s.next ≡ false
    → let (r, t) = allocate m size n s in
      let u = deallocate (pointer r) t in
      (u.blocks k ≡ s.blocks k) × (u.is_pinned k ≡ s.is_pinned k)
unfolding allocate deallocate lock_memory
deallocate-allocate m size n s k free unpinned =
    let bytes = n * size % 18446744073709551616 in
    elim (Bool-cases (n == 0)) [
      | inl e ↦ rw e (refl, refl)
      | inr e ↦ elim (Bool-cases (m.can_allocate bytes)) [
        | inl f ↦ elim (Bool-cases (m.can_lock bytes)) [
          | inl g ↦ rw (e, f, g) (grind (arith, free), grind (arith, unpinned))
          | inr g ↦ rw (e, f, g) (grind (arith, free), grind (arith, unpinned))
        ]
        | inr f ↦ rw (e, f) (refl, refl)
      ]
    ]
