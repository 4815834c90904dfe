-- ===== src/Tests/BufferTests.antt =====
-- The theorems on the buffers that own their memory at concrete inputs.
use passdoq.Prelude.{ℕ, ◌≡◌, ◌≤◌, ◌↔◌, refl, true, false, some, All, arith}
use passdoq.Prelude.Text.{codes}
use passdoq.Crypto.Laws.{IsZeroed}
use passdoq.Memory.Buffers.{Heap, empty_heap, construct, write, move_assign, destroy}
use passdoq.Memory.Buffers.Laws.{
  Steps, here, next_step, constructed, written, assigned, munlock-owned, mlocks, munlocks,
  is_locked, destroy-unlocks_shared,
}

-- Two buffers, of which the second is written and moved into the first.
abbrev heap : Heap
heap = move_assign 0 1 (write 1 (codes "key") (construct 1 3 (construct 0 2 empty_heap)))

heap-Steps : Steps empty_heap heap
unfolding construct
heap-Steps =
    next_step
      (next_step
        (next_step (next_step here (constructed empty_heap 0 2 refl))
          (constructed (construct 0 2 empty_heap) 1 3 refl))
        (written (construct 1 3 (construct 0 2 empty_heap)) 1 (codes "key")))
      (assigned (write 1 (codes "key") (construct 1 3 (construct 0 2 empty_heap))) 0 1)

munlock-owned_example :
    (mlocks 1 heap.calls ≡ 1)
    × (munlocks 1 heap.calls ≤ 1)
    × ((munlocks 1 heap.calls ≡ 0) ↔ ((i : ℕ) × (heap.owned i ≡ some 1)))
    × ((i j : ℕ) → heap.owned i ≡ some 1 → heap.owned j ≡ some 1 → i ≡ j)
    × All IsZeroed heap.freed
unfolding construct move_assign destroy write
munlock-owned_example = munlock-owned heap 1 heap-Steps (omega arith)

-- Two buffers of 32 bytes, on one page.
abbrev keys : Heap
keys = construct 1 32 (construct 0 32 empty_heap)

keys-Steps : Steps empty_heap keys
unfolding construct
keys-Steps =
    next_step (next_step here (constructed empty_heap 0 32 refl))
      (constructed (construct 0 32 empty_heap) 1 32 refl)

destroy-unlocks_shared_example :
    let g = destroy 0 keys in
    (is_locked (λ k page. true) (λ k. true) g.calls 0 ≡ false)
    × (g.owned 1 ≡ some 1)
    × (g.content 1 ≡ keys.content 1)
    × (munlocks 1 g.calls ≡ 0)
unfolding construct
destroy-unlocks_shared_example =
    destroy-unlocks_shared (λ k page. true) (λ k. true) keys 0 1 0 1 0 keys-Steps (ground arith)
      refl refl refl refl
