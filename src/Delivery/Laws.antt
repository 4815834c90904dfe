-- ===== src/Delivery/Laws.antt =====
-- Which method delivers, what is left of a secret in the arrays of the memory methods, and what a
-- failed allocation leaves.
use passdoq.Prelude.{
  ℕ, ltb, All-append, ◌≡◌, ◌∙◌, ◌+◌, refl, Bool, true, false, Option, none, some, List, [], ◌∷◌,
  ◌++◌, All, Bool-cases, Option-cases, inl, inr, arith, length, take, drop, if◌then◌else◌,
}
use passdoq.Prelude.Exec.{Result, ok, throw, fault, library_error, returns}
use passdoq.Prelude.Text.{Text, Bytes, codes, eq_text}
use passdoq.Platform.{Platform}
use passdoq.Crypto.{secure_zero}
use passdoq.Crypto.Laws.{IsZeroed}
use passdoq.Delivery.{
  DeliveryMethod, clipboard, stdout, file, memory, null, dangling, allocated, Outside, method_name,
  free_buffer, deliver_by, deliver, destroy_method, destroy_manager, DeliveryManager,
}

-- No method has the name.
abbrev pub NoneNamed : Text → DeliveryManager → Type 0
NoneNamed name ms = All (λ m. eq_text (method_name m) name ≡ false) ms

abbrev pub Clean : Outside → Type 0
Clean o = All IsZeroed o.freed

-- A memory method has a null pointer, or an array of its size.
abbrev pub IsWhole : DeliveryMethod → Type 0
IsWhole clipboard = Unit
IsWhole stdout = Unit
IsWhole (file path) = Unit
IsWhole (memory null size) = Unit
IsWhole (memory dangling size) = ⊥
IsWhole (memory (allocated b) size) = size ≡ length b

-- Every array can be allocated.
abbrev pub Allocates : Outside → Type 0
Allocates o = (n size : ℕ) → o.can_allocate n size ≡ true

ltb_irrefl : (n : ℕ) → ltb n n ≡ false
ltb_irrefl n = ground arith

wiped-IsZeroed : (b : Bytes) → IsZeroed (secure_zero (take (length b) b) ++ drop (length b) b)
unfolding secure_zero
wiped-IsZeroed [] = tt
wiped-IsZeroed (x ∷ b) = (refl, wiped-IsZeroed b)

-- What is outside once an array was zeroed and freed.
abbrev wiped : Bytes → Outside → Outside
wiped b o = record o {
  freed = o.freed ++ (secure_zero (take (length b) b) ++ drop (length b) b) ∷ [];
}

wiped-Clean : (b : Bytes) (o : Outside) → Clean o → Clean (wiped b o)
wiped-Clean b o c = All-append IsZeroed o.freed _ c (wiped-IsZeroed b)

free_buffer-whole :
    (b : Bytes) (o : Outside) → free_buffer (allocated b) (length b) o ≡ some (wiped b o)
unfolding free_buffer
free_buffer-whole b o = rw (ltb_irrefl (length b)) refl

destroy_manager-next :
    (m : DeliveryMethod) (ms : DeliveryManager) (o q : Outside)
    → destroy_method m o ≡ some q
    → destroy_manager (m ∷ ms) o ≡ destroy_manager ms q
unfolding destroy_manager
destroy_manager-next m ms o q e = rw (e, destroy_manager) refl

module _ ⦃p : Platform⦄ where
  -- The first method with the name delivers the secret, and no other changes; where no method has
  -- it, the result is false and nothing changes.
  deliver-first :
      (before after : DeliveryManager) (m : DeliveryMethod) (name : Text) (secret : Bytes)
      (o : Outside)
      → NoneNamed name before
      → eq_text (method_name m) name ≡ true
      → let (b, n, q) = deliver_by m secret o in
        (deliver name secret (before ++ m ∷ after) o ≡ (b, before ++ n ∷ after, q))
        × (deliver name secret before o ≡ (ok false, before, o))
  unfolding deliver
  deliver-first [] after m name secret o h e = (rw e refl, refl)
  deliver-first (k ∷ before) after m name secret o h e =
      let (found, missed) = deliver-first before after m name secret o h.1 e in
      (rw (h.0) (rw found refl), rw (h.0) (rw missed refl))

  -- A delivery that returns, with the freed arrays zeroed and the method whole.
  abbrev Returns : Result Bool × DeliveryMethod × Outside → Type 0
  Returns (ok b, m, o) = IsWhole m × Clean o × Allocates o
  Returns (throw e, m, o) = ⊥
  Returns (fault, m, o) = ⊥

  deliver_by-Returns :
      (m : DeliveryMethod) (secret : Bytes) (o : Outside)
      → IsWhole m
      → Clean o
      → Allocates o
      → Returns (deliver_by m secret o)
  unfolding deliver_by
  deliver_by-Returns clipboard secret o w c a = (tt, c, a)
  deliver_by-Returns stdout secret o w c a = (tt, c, a)
  deliver_by-Returns (file path) secret o w c a = elim (Bool-cases (p.can_write path)) [
    | inr e ↦ rw e (tt, c, a)
    | inl e ↦ elim (Bool-cases (p.write path secret).1) [
      | inl g ↦ rw (e, g) (tt, c, a)
      | inr g ↦ rw (e, g) (tt, c, a)
    ]
  ]
  deliver_by-Returns (memory null size) secret o w c a =
      unfold free_buffer in rw (a o.allocations (length secret)) (refl, c, a)
  deliver_by-Returns (memory dangling size) secret o w c a = absurd w
  deliver_by-Returns (memory (allocated b) size) secret o w c a =
      rw (w, deliver_by, free_buffer-whole b o, a o.allocations (length secret))
        (refl, wiped-Clean b o c, a)

  -- The same for the whole manager.
  abbrev AllReturns : Result Bool × DeliveryManager × Outside → Type 0
  AllReturns (ok b, ms, o) = All IsWhole ms × Clean o × Allocates o
  AllReturns (throw e, ms, o) = ⊥
  AllReturns (fault, ms, o) = ⊥

  first-AllReturns :
      (r : Result Bool) (n : DeliveryMethod) (q : Outside) (ms : DeliveryManager)
      → All IsWhole ms
      → Returns (r, n, q)
      → AllReturns (r, n ∷ ms, q)
  first-AllReturns (ok b) n q ms w (i, c, a) = ((i, w), c, a)
  first-AllReturns (throw e) n q ms w h = h
  first-AllReturns fault n q ms w h = h

  later-AllReturns :
      (r : Result Bool) (m : DeliveryMethod) (q : Outside) (ns : DeliveryManager)
      → IsWhole m
      → AllReturns (r, ns, q)
      → AllReturns (r, m ∷ ns, q)
  later-AllReturns (ok b) m q ns i (w, c, a) = ((i, w), c, a)
  later-AllReturns (throw e) m q ns i h = h
  later-AllReturns fault m q ns i h = h

  deliver-AllReturns :
      (name : Text) (secret : Bytes) (ms : DeliveryManager) (o : Outside)
      → All IsWhole ms
      → Clean o
      → Allocates o
      → AllReturns (deliver name secret ms o)
  unfolding deliver
  deliver-AllReturns name secret [] o w c a = (tt, c, a)
  deliver-AllReturns name secret (m ∷ ms) o w c a =
      elim (Bool-cases (eq_text (method_name m) name)) [
        | inl e ↦
            let d = deliver_by m secret o in
            rw e (first-AllReturns d.0 d.1 d.2 ms w.1 (deliver_by-Returns m secret o w.0 c a))
        | inr e ↦
            let d = deliver name secret ms o in
            rw e (later-AllReturns d.0 m d.2 d.1 w.0 (deliver-AllReturns name secret ms o w.1 c a))
      ]

  -- Each delivery of a list, in turn, up to the first that does not return.
  abbrev pub deliver_each :
      List (Text × Bytes) → DeliveryManager → Outside → Bool × DeliveryManager × Outside
  deliver_each [] ms o = (true, ms, o)
  deliver_each ((name, secret) ∷ l) ms o =
      let (r, ns, q) = deliver name secret ms o in
      let rest = deliver_each l ns q in if returns r then rest else (false, ns, q)

  -- An end that is defined, with the freed arrays zeroed.
  abbrev EndsClean : Option Outside → Type 0
  EndsClean none = ⊥
  EndsClean (some o) = Clean o

  destroy_manager-EndsClean :
      (ms : DeliveryManager) (o : Outside)
      → All IsWhole ms
      → Clean o
      → EndsClean (destroy_manager ms o)
  unfolding destroy_manager destroy_method
  destroy_manager-EndsClean [] o w c = c
  destroy_manager-EndsClean (clipboard ∷ ms) o w c = destroy_manager-EndsClean ms _ w.1 c
  destroy_manager-EndsClean (stdout ∷ ms) o w c = destroy_manager-EndsClean ms o w.1 c
  destroy_manager-EndsClean (file path ∷ ms) o w c = destroy_manager-EndsClean ms o w.1 c
  destroy_manager-EndsClean (memory null size ∷ ms) o w c =
      unfold free_buffer in destroy_manager-EndsClean ms o w.1 c
  destroy_manager-EndsClean (memory dangling size ∷ ms) o w c = absurd (w.0)
  destroy_manager-EndsClean (memory (allocated b) size ∷ ms) o w c = rw (w.0) (
      rw
        (destroy_manager-next (memory (allocated b) (length b)) ms o (wiped b o)
          (free_buffer-whole b o))
        (destroy_manager-EndsClean ms (wiped b o) w.1 (wiped-Clean b o c)))

  of_EndsClean : (r : Option Outside) → EndsClean r → (e : Outside) × (r ≡ some e) × Clean e
  of_EndsClean none c = absurd c
  of_EndsClean (some e) c = (e, refl, c)

  of_AllReturns :
      (r : Result Bool) (ns : DeliveryManager) (q : Outside)
      → AllReturns (r, ns, q)
      → (b : Bool) × (r ≡ ok b) × All IsWhole ns × Clean q × Allocates q
  of_AllReturns (ok b) ns q (w, c, a) = (b, refl, w, c, a)
  of_AllReturns (throw e) ns q h = absurd h
  of_AllReturns fault ns q h = absurd h

  -- Where every array can be allocated, and the memory methods have a null pointer or an array of
  -- their size: whatever secrets are delivered by whatever methods, in turn, each delivery returns,
  -- the destruction of the methods with their manager at last is defined, and every array that a
  -- memory method has freed then, its last one too, was zeroed before.
  pub deliver_each-Clean :
      (l : List (Text × Bytes)) (ms : DeliveryManager) (o : Outside)
      → All IsWhole ms
      → Clean o
      → Allocates o
      → let (r, ns, q) = deliver_each l ms o in
        (r ≡ true) × ((e : Outside) × (destroy_manager ns q ≡ some e) × Clean e)
  deliver_each-Clean [] ms o w c a =
      (refl, of_EndsClean (destroy_manager ms o) (destroy_manager-EndsClean ms o w c))
  deliver_each-Clean ((name, secret) ∷ l) ms o w c a =
      let d = deliver name secret ms o in
      let (b, e, w', c', a') =
        of_AllReturns d.0 d.1 d.2 (deliver-AllReturns name secret ms o w c a) in
      rw e (deliver_each-Clean l d.1 d.2 w' c' a')

  -- A method with a dangling pointer makes the end of its manager undefined.
  destroy_manager-dangling :
      (before after : DeliveryManager) (size : ℕ) (o : Outside)
      → destroy_manager (before ++ memory dangling size ∷ after) o ≡ none
  unfolding destroy_manager
  destroy_manager-dangling [] after size o =
      unfold destroy_manager destroy_method free_buffer in refl
  destroy_manager-dangling (m ∷ before) after size o = elim (Option-cases (destroy_method m o)) [
    | inl e ↦ rw (destroy_manager, e) refl
    | inr (q, e) ↦
        destroy_manager-next m (before ++ memory dangling size ∷ after) o q e
        ∙ destroy_manager-dangling before after size q
  ]

  -- A memory method that has an array and is the first of its manager with its name, where the
  -- array for the next secret cannot be allocated: the delivery throws, and leaves the pointer to
  -- the freed array; the next delivery by the method, of any secret, is undefined, and so is the
  -- destruction of the manager.
  pub deliver_failed-dangling :
      (before after : DeliveryManager) (b secret other : Bytes) (o : Outside)
      → NoneNamed (codes "memory") before
      → o.can_allocate o.allocations (length secret) ≡ false
      → let ms = before ++ memory (allocated b) (length b) ∷ after in
        let (r, ns, q) = deliver (codes "memory") secret ms o in
        (r ≡ throw library_error)
        × ((deliver (codes "memory") other ns q).0 ≡ fault)
        × (destroy_manager ns q ≡ none)
  unfolding deliver_by method_name eq_text secure_zero
  deliver_failed-dangling before after b secret other o h full =
      let left = memory dangling (length secret) in
      let q = record (wiped b o) { allocations = o.allocations + 1 } in
      let thrown : deliver_by (memory (allocated b) (length b)) secret o
          ≡ (throw library_error, left, q) =
        rw (deliver_by, free_buffer-whole b o, full) refl in
      let first =
        (deliver-first before after (memory (allocated b) (length b)) (codes "memory") secret o h
          refl).0 in
      let next = (deliver-first before after left (codes "memory") other q h refl).0 in
      rw (first, thrown)
        (
          refl,
          rw next (unfold deliver_by free_buffer in refl),
          destroy_manager-dangling before after (length secret) q,
        )
