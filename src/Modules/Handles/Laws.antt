-- ===== src/Modules/Handles/Laws.antt =====
-- A library that an object of `ModuleHandle` took is closed exactly once, when the last object that
-- has it lets it go.
use passdoq.Prelude.{
  ℕ, ◌+◌, ◌<◌, ◌≤◌, ◌==◌, ◌≡◌, ◌↔◌, refl, sym, fun_ext, false, Option, none, some, List, [], ◌∷◌,
  ◌++◌, if◌then◌else◌, arith, Bool-cases, inl, inr,
}
use passdoq.Modules.{Module}
use passdoq.Modules.Handles.{
  Call, deinit_called, dlclose, Store, empty_store, construct, deinit_calls, close_calls,
  with_closed, destroy, move_construct, move_assign,
}

-- How often a library is in a list, and is closed.
abbrev pub count : ℕ → List ℕ → ℕ
count h [] = 0
count h (k ∷ l) = (if h == k then 1 else 0) + count h l

abbrev closes_of : ℕ → Call → ℕ
closes_of h (dlclose k) = if h == k then 1 else 0
closes_of h (deinit_called name) = 0

abbrev pub closes_handle : ℕ → List Call → ℕ
closes_handle h [] = 0
closes_handle h (c ∷ l) = closes_of h c + closes_handle h l

-- What a program does with its objects, after the opened libraries that are listed. An object that is
-- constructed has no library before, and the library that it takes was just opened.
pub data Steps : List ℕ → Store → Type 0 where
  start : Steps [] empty_store
  constructed :
      (l : List ℕ) (s : Store) (i h : ℕ) (m : Option Module)
      → Steps l s
      → (s.slots i).handle ≡ none
      → count h l ≡ 0
      → Steps (h ∷ l) (construct i (some h) m s)
  destroyed : (l : List ℕ) (s : Store) (i : ℕ) → Steps l s → Steps l (destroy i s)
  moved :
      (l : List ℕ) (s : Store) (i j : ℕ)
      → Steps l s
      → (s.slots i).handle ≡ none
      → Steps l (move_construct i j s)
  assigned : (l : List ℕ) (s : Store) (i j : ℕ) → Steps l s → Steps l (move_assign i j s)

record IsOwning (l : List ℕ) (s : Store) : Type 0 where
  once : (h : ℕ) → count h l ≤ 1
  bounded : (h : ℕ) → closes_handle h s.calls ≤ count h l
  owner : (h : ℕ) → closes_handle h s.calls < count h l → (i : ℕ) × ((s.slots i).handle ≡ some h)
  held : (i h : ℕ) → (s.slots i).handle ≡ some h → closes_handle h s.calls < count h l
  unique : (i j h : ℕ) → (s.slots i).handle ≡ some h → (s.slots j).handle ≡ some h → i ≡ j

closes-append :
    (h : ℕ) (l k : List Call) → closes_handle h (l ++ k) ≡ closes_handle h l + closes_handle h k
closes-append h [] k = omega arith
closes-append h (c ∷ l) k = omega (arith, closes-append h l k)

closes-deinit : (h : ℕ) (m : Option Module) → closes_handle h (deinit_calls m) ≡ 0
closes-deinit h none = refl
closes-deinit h (some m) = ground arith

abbrev closed_by : ℕ → Option ℕ → ℕ
closed_by h none = 0
closed_by h (some k) = if h == k then 1 else 0

closes-close_calls :
    (h : ℕ) (o : Option ℕ) (m : Option Module) → closes_handle h (close_calls o m) ≡ closed_by h o
closes-close_calls h none m = refl
closes-close_calls h (some k) m =
    rw (closes-append h (deinit_calls m) (dlclose k ∷ [])) (omega (arith, closes-deinit h m))

-- What is closed with the library of an object.
closes-destroy :
    (h : ℕ) (l : List Call) (o : Option ℕ) (m : Option Module)
    → closes_handle h (l ++ close_calls o m) ≡ closes_handle h l + closed_by h o
closes-destroy h l o m =
    rw (closes-append h l (close_calls o m)) (omega (arith, closes-close_calls h o m))

start-IsOwning : IsOwning [] empty_store
start-IsOwning = record {
  once = λ h. omega arith;
  bounded = λ h. omega arith;
  owner = λ h p. absurd (omega arith);
  held = λ i h p. cc;
  unique = λ i j h p q. cc;
}

construct-IsOwning :
    (l : List ℕ) (s : Store) (i h : ℕ) (m : Option Module)
    → (s.slots i).handle ≡ none
    → count h l ≡ 0
    → IsOwning l s
    → IsOwning (h ∷ l) (construct i (some h) m s)
unfolding construct
construct-IsOwning l s i h m n f v = record {
  once = λ k. grind (arith, v.once k);
  bounded = λ k. grind (arith, v.bounded k);
  owner = λ k p. elim (Bool-cases (k == h)) [
    | inl e ↦ (i, grind arith)
    | inr e ↦ let (a, o) = v.owner k (grind arith) in (a, grind (arith, n, o))
  ];
  held = λ a k p. grind (arith, v.held a k, v.bounded k);
  unique = λ a b k p q. grind (arith, v.held a k, v.held b k, v.bounded k, v.unique a b k);
}

-- An object without a library gets that of another one, which loses it.
take-IsOwning :
    (l : List ℕ) (s : Store) (i j : ℕ)
    → (s.slots i).handle ≡ none
    → IsOwning l s
    → IsOwning l (move_construct i j s)
unfolding move_construct
take-IsOwning l s i j n v = record {
  once = v.once;
  bounded = v.bounded;
  owner = λ k p.
      let (a, o) = v.owner k p in
      elim (Bool-cases (j == a)) [
        | inl f ↦ (i, grind (arith, o, f, n))
        | inr f ↦ (a, grind (arith, o, f, n))
      ];
  held = λ a k p. grind (arith, v.held a k, v.held j k);
  unique = λ a b k p q. grind (arith, v.unique a b k, v.unique j b k, v.unique a j k, n);
}

destroy-IsOwning : (l : List ℕ) (s : Store) (i : ℕ) → IsOwning l s → IsOwning l (destroy i s)
unfolding destroy
destroy-IsOwning l s i v = record {
  once = v.once;
  bounded = λ h.
      rw (closes-destroy h s.calls (s.slots i).handle (s.slots i).descriptor)
        (grind (arith, v.bounded h, v.held i h));
  owner = λ h p.
      let q : closes_handle h s.calls + closed_by h (s.slots i).handle < count h l =
        rw (sym (closes-destroy h s.calls (s.slots i).handle (s.slots i).descriptor)) p in
      let (a, o) = v.owner h (omega arith) in (a, grind (arith, o, q, v.once h));
  held = λ a h p.
      rw (closes-destroy h s.calls (s.slots i).handle (s.slots i).descriptor)
        (grind (arith, v.held a h, v.unique a i h));
  unique = λ a b h p q. grind (arith, v.unique a b h);
}

handle-destroy : (i : ℕ) (s : Store) → ((destroy i s).slots i).handle ≡ none
unfolding destroy
handle-destroy i s = grind arith

-- A move assignment destroys the object first, and then moves the other one into it.
move_assign-destroy :
    (i j : ℕ) (s : Store)
    → (i == j) ≡ false
    → move_construct i j (with_closed i s) ≡ move_construct i j (destroy i s)
unfolding move_construct destroy
move_assign-destroy i j s e k =
    let f : (move_construct i j (with_closed i s)).slots
        ≡ (move_construct i j (destroy i s)).slots =
      fun_ext (λ q. grind (arith, e)) in
    record { slots = f k; calls = (with_closed i s).calls }

move_assign-IsOwning :
    (l : List ℕ) (s : Store) (i j : ℕ) → IsOwning l s → IsOwning l (move_assign i j s)
unfolding move_assign
move_assign-IsOwning l s i j v = elim (Bool-cases (i == j)) [
  | inl e ↦ rw e v
  | inr e ↦ rw e (
      rw (move_assign-destroy i j s e)
        (take-IsOwning l (destroy i s) i j (handle-destroy i s) (destroy-IsOwning l s i v)))
]

Steps-IsOwning : {l : List ℕ} {s : Store} → Steps l s → IsOwning l s
Steps-IsOwning start = start-IsOwning
Steps-IsOwning (constructed l s i h m p n f) = construct-IsOwning l s i h m n f (Steps-IsOwning p)
Steps-IsOwning (destroyed l s i p) = destroy-IsOwning l s i (Steps-IsOwning p)
Steps-IsOwning (moved l s i j p n) = take-IsOwning l s i j n (Steps-IsOwning p)
Steps-IsOwning (assigned l s i j p) = move_assign-IsOwning l s i j (Steps-IsOwning p)

-- Whatever constructions, moves and destructions of handles happen, in any order and number, where
-- each object that is constructed takes a library that was just opened: a library that was taken is
-- open while an object has it, and then one object only, and has been closed exactly once when none
-- has it; and a library that was not taken is not closed.
pub closed-once :
    (l : List ℕ) (s : Store) (h : ℕ)
    → Steps l s
    → (closes_handle h s.calls ≤ 1)
      × (count h l ≡ 0 → closes_handle h s.calls ≡ 0)
      × (count h l ≡ 1 → (closes_handle h s.calls ≡ 0) ↔ ((i : ℕ) × ((s.slots i).handle ≡ some h)))
      × ((i j : ℕ) → (s.slots i).handle ≡ some h → (s.slots j).handle ≡ some h → i ≡ j)
closed-once l s h steps =
    let v = Steps-IsOwning steps in
    (
      omega (arith, v.once h, v.bounded h),
      λ e. omega (arith, v.bounded h),
      λ e. (λ z. v.owner h (omega arith), λ o. omega (arith, v.held o.0 h o.1, v.once h)),
      λ i j p q. v.unique i j h p q,
    )
