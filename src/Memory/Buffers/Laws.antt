-- ===== src/Memory/Buffers/Laws.antt =====
-- Which blocks of `SecureBuffer`s the program has asked to lock and to unlock, what is in a block when
-- it is freed, and what becomes of a page that two blocks share.
use passdoq.Prelude.{
  ℕ, ◌+◌, ◌<◌, ◌≤◌, ◌==◌, ==_iff, ◌≡◌, ◌≢◌, ◌↔◌, refl, Bool, true, false, not, ◌&&◌, ◌||◌, none,
  some, List, [], ◌∷◌, if◌then◌else◌, ltb, arith, All, All-append, Bool-cases, Option-cases, inl,
  inr, at_number,
}
use passdoq.Prelude.Text.{Bytes}
use passdoq.Crypto.Laws.{IsZeroed, secure_zero-IsZeroed}
use passdoq.Memory.{zero_buffer}
use passdoq.Memory.Buffers.{
  PageCall, mlock, munlock, Heap, empty_heap, set_owned, construct, zero_block, zero, free_block,
  destroy, take_over, move_construct, move_assign, write,
}

-- What a program does with its objects, whichever they are; an object that is constructed has no
-- block before.
pub data Step : Heap → Heap → Type 0 where
  constructed : (h : Heap) (i size : ℕ) → h.owned i ≡ none → Step h (construct i size h)
  written : (h : Heap) (i : ℕ) (bytes : Bytes) → Step h (write i bytes h)
  zeroed : (h : Heap) (i : ℕ) → Step h (zero i h)
  destroyed : (h : Heap) (i : ℕ) → Step h (destroy i h)
  moved : (h : Heap) (i j : ℕ) → h.owned i ≡ none → Step h (move_construct i j h)
  assigned : (h : Heap) (i j : ℕ) → Step h (move_assign i j h)

pub data Steps (g : Heap) : Heap → Type 0 where
  here : Steps g g
  next_step : {h k : Heap} → Steps g h → Step h k → Steps g k

-- How often `mlock` and `munlock` were called for a block, and whether the last call was `mlock`.
abbrev pub mlocks : ℕ → List PageCall → ℕ
mlocks k [] = 0
mlocks k (mlock j ∷ l) = (if j == k then 1 else 0) + mlocks k l
mlocks k (munlock j ∷ l) = mlocks k l

abbrev pub munlocks : ℕ → List PageCall → ℕ
munlocks k [] = 0
munlocks k (mlock j ∷ l) = munlocks k l
munlocks k (munlock j ∷ l) = (if j == k then 1 else 0) + munlocks k l

abbrev wants_lock : ℕ → List PageCall → Bool
wants_lock k [] = false
wants_lock k (mlock j ∷ l) = if j == k then true else wants_lock k l
wants_lock k (munlock j ∷ l) = if j == k then false else wants_lock k l

pub record IsOwning (h : Heap) : Type 0 where
  owner : (k : ℕ) → wants_lock k h.calls ≡ true → (i : ℕ) × (h.owned i ≡ some k)
  pinned : (i k : ℕ) → h.owned i ≡ some k → wants_lock k h.calls ≡ true
  balanced :
      (k : ℕ) → mlocks k h.calls ≡ munlocks k h.calls + (if wants_lock k h.calls then 1 else 0)
  once : (k : ℕ) → mlocks k h.calls ≡ (if ltb k h.next then 1 else 0)
  unique : (i j k : ℕ) → h.owned i ≡ some k → h.owned j ≡ some k → i ≡ j
  fresh : (i k : ℕ) → h.owned i ≡ some k → k < h.next
  clean : All IsZeroed h.freed

zero_buffer-IsZeroed : (b : Bytes) → IsZeroed (zero_buffer b)
unfolding zero_buffer
zero_buffer-IsZeroed [] = tt
zero_buffer-IsZeroed (x ∷ b) = secure_zero-IsZeroed (x ∷ b)

construct-IsOwning :
    (i size : ℕ) (h : Heap) → h.owned i ≡ none → IsOwning h → IsOwning (construct i size h)
unfolding construct
construct-IsOwning i size h n v = elim (Bool-cases (size == 0)) [
  | inl e ↦ rw e v
  | inr e ↦ rw e (record {
    owner = λ k p. elim (Bool-cases (h.next == k)) [
      | inl f ↦ (i, grind arith)
      | inr f ↦ let (a, o) = v.owner k (grind arith) in (a, grind (arith, n, o))
    ];
    pinned = λ a k p. grind (arith, v.pinned a k, v.fresh a k);
    balanced = λ k. ground (arith, v.balanced k, v.once k);
    once = λ k. ground (arith, v.once k);
    unique = λ a b k p q. grind (arith, v.fresh a k, v.fresh b k, v.unique a b k);
    fresh = λ a k p. grind (arith, v.fresh a k);
    clean = v.clean;
  })
]

-- The content of a block plays no part.
content-IsOwning :
    (k : ℕ) (c : Bytes) (h : Heap)
    → IsOwning h
    → IsOwning (record h { content = at_number k c h.content })
content-IsOwning k c h v = record {
  owner = v.owner;
  pinned = v.pinned;
  balanced = v.balanced;
  once = v.once;
  unique = v.unique;
  fresh = v.fresh;
  clean = v.clean;
}

write-IsOwning : (i : ℕ) (bytes : Bytes) (h : Heap) → IsOwning h → IsOwning (write i bytes h)
unfolding write
write-IsOwning i bytes h v = elim (Option-cases (h.owned i)) [
  | inl e ↦ rw e v
  | inr (k, e) ↦ rw e (content-IsOwning k _ h v)
]

zero-IsOwning : (i : ℕ) (h : Heap) → IsOwning h → IsOwning (zero i h)
unfolding zero
zero-IsOwning i h v = elim (Option-cases (h.owned i)) [
  | inl e ↦ rw e v
  | inr (k, e) ↦ rw e (content-IsOwning k _ h v)
]

-- An object loses its block, which is freed.
free_block-IsOwning :
    (i k : ℕ) (h : Heap)
    → h.owned i ≡ some k
    → IsZeroed (h.content k)
    → IsOwning h
    → IsOwning (set_owned i none (free_block (some k) h))
free_block-IsOwning i k h e z v = record {
  owner = λ l p. let (a, o) = v.owner l (grind arith) in (a, grind (arith, o, e));
  pinned = λ a l p. grind (arith, v.pinned a l, v.unique a i l, e);
  balanced = λ l. ground (arith, v.balanced l, v.pinned i k e);
  once = v.once;
  unique = λ a b l p q. grind (arith, v.unique a b l);
  fresh = λ a l p. grind (arith, v.fresh a l);
  clean = All-append IsZeroed h.freed (h.content k) v.clean z;
}

-- An object without a block stays without one.
set_none-IsOwning :
    (i : ℕ) (h : Heap) → h.owned i ≡ none → IsOwning h → IsOwning (set_owned i none h)
set_none-IsOwning i h e v = record {
  owner = λ l p. let (a, o) = v.owner l p in (a, grind (arith, o, e));
  pinned = λ a l p. grind (arith, v.pinned a l);
  balanced = v.balanced;
  once = v.once;
  unique = λ a b l p q. grind (arith, v.unique a b l);
  fresh = λ a l p. grind (arith, v.fresh a l);
  clean = v.clean;
}

take_over-IsOwning :
    (i j : ℕ) (h : Heap) → h.owned i ≡ none → IsOwning h → IsOwning (take_over i j h)
take_over-IsOwning i j h e v = record {
  owner = λ l p.
      let (a, o) = v.owner l p in
      elim (Bool-cases (j == a)) [
        | inl f ↦ (i, grind (arith, o, f))
        | inr f ↦ (a, grind (arith, o, f, e))
      ];
  pinned = λ a l p. grind (arith, v.pinned a l, v.pinned j l);
  balanced = v.balanced;
  once = v.once;
  unique = λ a b l p q. grind (arith, v.unique a b l, v.unique j b l, v.unique a j l, e);
  fresh = λ a l p. grind (arith, v.fresh a l, v.fresh j l);
  clean = v.clean;
}

destroy-IsOwning : (i : ℕ) (h : Heap) → IsOwning h → IsOwning (destroy i h)
unfolding destroy zero
destroy-IsOwning i h v = elim (Option-cases (h.owned i)) [
  | inl e ↦ rw e (set_none-IsOwning i h e v)
  | inr (k, e) ↦
      let same : (k == k) ≡ true = (==_iff k k).1 refl in
      let z : IsZeroed (at_number k (zero_buffer (h.content k)) h.content k) =
        rw same (zero_buffer-IsZeroed (h.content k)) in
      rw e (free_block-IsOwning i k (zero_block (some k) h) e z (content-IsOwning k _ h v))
]

owned-destroy : (i : ℕ) (h : Heap) → (destroy i h).owned i ≡ none
unfolding destroy zero
owned-destroy i h = grind arith

if-IsOwning : (b : Bool) (g h : Heap) → IsOwning g → IsOwning h → IsOwning (if b then g else h)
if-IsOwning true g h v w = v
if-IsOwning false g h v w = w

move_assign-IsOwning : (i j : ℕ) (h : Heap) → IsOwning h → IsOwning (move_assign i j h)
unfolding move_assign
move_assign-IsOwning i j h v =
    if-IsOwning (i == j) h (take_over i j (destroy i h)) v
      (take_over-IsOwning i j (destroy i h) (owned-destroy i h) (destroy-IsOwning i h v))

Step-IsOwning : {g h : Heap} → Step g h → IsOwning g → IsOwning h
unfolding move_construct
Step-IsOwning (constructed h i size e) v = construct-IsOwning i size h e v
Step-IsOwning (written h i bytes) v = write-IsOwning i bytes h v
Step-IsOwning (zeroed h i) v = zero-IsOwning i h v
Step-IsOwning (destroyed h i) v = destroy-IsOwning i h v
Step-IsOwning (moved h i j e) v = take_over-IsOwning i j h e v
Step-IsOwning (assigned h i j) v = move_assign-IsOwning i j h v

empty_heap-IsOwning : IsOwning empty_heap
empty_heap-IsOwning = record {
  owner = λ k p. cc;
  pinned = λ i k p. cc;
  balanced = λ k. refl;
  once = λ k. ground arith;
  unique = λ i j k p q. cc;
  fresh = λ i k p. cc;
  clean = tt;
}

Steps-IsOwning : {h : Heap} → Steps empty_heap h → IsOwning h
Steps-IsOwning here = empty_heap-IsOwning
Steps-IsOwning (next_step l s) = Step-IsOwning s (Steps-IsOwning l)

-- Whatever constructions, moves, writes, calls of `zero` and destructions of buffers happen, in any
-- order and number: `mlock` is called once for every block, `munlock` once when no object owns it
-- any more, and not before; at most one object owns a block; and a block holds zeros only when it
-- is freed.
pub munlock-owned :
    (h : Heap) (k : ℕ)
    → Steps empty_heap h
    → k < h.next
    → (mlocks k h.calls ≡ 1)
      × (munlocks k h.calls ≤ 1)
      × ((munlocks k h.calls ≡ 0) ↔ ((i : ℕ) × (h.owned i ≡ some k)))
      × ((i j : ℕ) → h.owned i ≡ some k → h.owned j ≡ some k → i ≡ j)
      × All IsZeroed h.freed
munlock-owned h k steps allocated =
    let v = Steps-IsOwning steps in
    (
      ground (arith, v.once k),
      ground (arith, v.once k, v.balanced k),
      (
        (λ z. v.owner k (ground (arith, v.once k, v.balanced k, z))),
        λ p. ground (arith, v.once k, v.balanced k, v.pinned p.0 k p.1),
      ),
      (λ i j p q. v.unique i j k p q),
      v.clean,
    )

-- Whether a page is locked after the calls, where `covers` tells which pages a block stands on, and
-- `grants` for which blocks `mlock` succeeds. Locks do not stack: `munlock` unlocks a page however
-- often it was locked.
abbrev pub is_locked : (ℕ → ℕ → Bool) → (ℕ → Bool) → List PageCall → ℕ → Bool
is_locked covers grants [] page = false
is_locked covers grants (mlock k ∷ l) page =
    (grants k && covers k page) || is_locked covers grants l page
is_locked covers grants (munlock k ∷ l) page = not (covers k page) && is_locked covers grants l page

-- Of two objects whose blocks share a page, after any uses of buffers, and whether or not `mlock`
-- succeeds: destroying the one leaves the page unlocked, while the other still owns its block, with
-- the content that it had, and `munlock` was never called for it.
pub destroy-unlocks_shared :
    (covers : ℕ → ℕ → Bool) (grants : ℕ → Bool)
    → (h : Heap) (i j k l page : ℕ) → Steps empty_heap h
    → i ≢ j
    → h.owned i ≡ some k
    → h.owned j ≡ some l
    → covers k page ≡ true
    → covers l page ≡ true
    → let g = destroy i h in
      (is_locked covers grants g.calls page ≡ false)
      × (g.owned j ≡ some l)
      × (g.content l ≡ h.content l)
      × (munlocks l g.calls ≡ 0)
unfolding destroy zero
destroy-unlocks_shared covers grants h i j k l page steps differ owns_k owns_l on_k on_l =
    let v = Steps-IsOwning steps in
    let apart : k ≢ l = λ e. differ (v.unique i j l (ground (arith, owns_k, e)) owns_l) in
    rw owns_k (
      ground arith,
      ground arith,
      ground arith,
      ground (arith, v.balanced l, v.once l, v.fresh j l owns_l, v.pinned j l owns_l),
    )
