-- ===== src/Prelude/Lists.antt =====
-- Lists measured by native numbers, under the library's names, and predicates on lists.
use Prim.Native.Nat.{ℕ, zero, suc, ◌+◌, ◌-◌, min}
use mathlib.Core.Path.{◌≡◌, refl, ap, ◌∙◌}
use mathlib.Core.List.{List, [], ◌∷◌, ◌++◌, map}
use mathlib.Core.Bool.{Bool, true}
use mathlib.Core.Logic.{◌⊎◌, inl, inr}
use native.Mathlib.Omega.{arith}
use passdoq.Prelude.Tests.{if◌then◌else◌, Bool-cases}

module _ {ℓ} {A : Type ℓ} where
  abbrev pub length : List A → ℕ
  length [] = 0
  length (x ∷ xs) = suc (length xs)

  abbrev pub take : ℕ → List A → List A
  take zero xs = []
  take (suc n) [] = []
  take (suc n) (x ∷ xs) = x ∷ take n xs

  abbrev pub drop : ℕ → List A → List A
  drop zero xs = xs
  drop (suc n) [] = []
  drop (suc n) (x ∷ xs) = drop n xs

  abbrev pub replicate : ℕ → A → List A
  replicate zero a = []
  replicate (suc n) a = a ∷ replicate n a

  abbrev pub filter_by : (A → Bool) → List A → List A
  filter_by p [] = []
  filter_by p (x ∷ xs) = let rest = filter_by p xs in if p x then x ∷ rest else rest

  pub length-append : (xs ys : List A) → length (xs ++ ys) ≡ length xs + length ys
  length-append [] ys = omega arith
  length-append (x ∷ xs) ys = omega (arith, length-append xs ys)

  pub take-append-drop : (n : ℕ) (xs : List A) → take n xs ++ drop n xs ≡ xs
  take-append-drop zero xs = refl
  take-append-drop (suc n) [] = refl
  take-append-drop (suc n) (x ∷ xs) = ap (λ t. x ∷ t) (take-append-drop n xs)

  pub take-length_append : (xs ys : List A) → take (length xs) (xs ++ ys) ≡ xs
  take-length_append [] ys = refl
  take-length_append (x ∷ xs) ys = ap (λ t. x ∷ t) (take-length_append xs ys)

  pub drop-length_append : (xs ys : List A) → drop (length xs) (xs ++ ys) ≡ ys
  drop-length_append [] ys = refl
  drop-length_append (x ∷ xs) ys = drop-length_append xs ys

  pub drop-length : (xs : List A) → drop (length xs) xs ≡ []
  drop-length [] = refl
  drop-length (x ∷ xs) = drop-length xs

  pub length-take : (n : ℕ) (xs : List A) → length (take n xs) ≡ min n (length xs)
  length-take zero xs = omega arith
  length-take (suc n) [] = omega arith
  length-take (suc n) (x ∷ xs) = omega (arith, length-take n xs)

  pub length-drop : (n : ℕ) (xs : List A) → length (drop n xs) ≡ length xs - n
  length-drop zero xs = omega arith
  length-drop (suc n) [] = omega arith
  length-drop (suc n) (x ∷ xs) = omega (arith, length-drop n xs)

  pub length-replicate : (n : ℕ) (a : A) → length (replicate n a) ≡ n
  length-replicate zero a = refl
  length-replicate (suc n) a = ap suc (length-replicate n a)

abbrev pub All {ℓ κ} : {A : Type ℓ} → (A → Type κ) → List A → Type κ
All P [] = Unit
All P (x ∷ xs) = P x × All P xs

-- `x` is an item of the list.
abbrev pub In : {A : Type 0} → A → List A → Type 0
In x [] = ⊥
In x (y ∷ l) = (y ≡ x) ⊎ In x l

module _ {A : Type 0} (f : A → Bool) (x : A) where
  In-cons :
      (y : A) (l k : List A)
      → (f y ≡ true)
      → (In x k → In x l × (f x ≡ true))
      → In x (y ∷ k)
      → In x (y ∷ l) × (f x ≡ true)
  In-cons y l k e ih (inl h) = (inl h, ground arith)
  In-cons y l k e ih (inr h) = let (m, g) = ih h in (inr m, g)

  pub In-filter_by→ : (l : List A) → In x (filter_by f l) → In x l × (f x ≡ true)
  In-filter_by→ [] h = absurd h
  In-filter_by→ (y ∷ l) h = elim (Bool-cases (f y)) [
    | inl e ↦ In-cons y l (filter_by f l) e (In-filter_by→ l) (rw e at h)
    | inr e ↦ let (m, g) = In-filter_by→ l (rw e at h) in (inr m, g)
  ]

  pub In-filter_by← : (l : List A) → In x l → f x ≡ true → In x (filter_by f l)
  In-filter_by← [] h e = absurd h
  In-filter_by← (y ∷ l) (inl h) e = let g : f y ≡ true = ground arith in rw g (inl h)
  In-filter_by← (y ∷ l) (inr h) e = elim (Bool-cases (f y)) [
    | inl g ↦ rw g (inr (In-filter_by← l h e))
    | inr g ↦ rw g (In-filter_by← l h e)
  ]

module _ {A B : Type 0} (f : A → B) (b : B) where
  pub In-map→ : (l : List A) → In b (map f l) → (a : A) × In a l × (f a ≡ b)
  In-map→ [] h = absurd h
  In-map→ (a ∷ l) (inl e) = (a, inl refl, e)
  In-map→ (a ∷ l) (inr h) = let (c, k, e) = In-map→ l h in (c, inr k, e)

  pub In-map← : (l : List A) (a : A) → In a l → f a ≡ b → In b (map f l)
  In-map← [] a h e = absurd h
  In-map← (c ∷ l) a (inl k) e = inl (ap f k ∙ e)
  In-map← (c ∷ l) a (inr k) e = inr (In-map← l a k e)

pub length-map : {A B : Type 0} (f : A → B) (l : List A) → length (map f l) ≡ length l
length-map f [] = refl
length-map f (a ∷ l) = ap suc (length-map f l)

pub All-append {ℓ κ} :
    {A : Type ℓ} (P : A → Type κ) (l : List A) (a : A) → All P l → P a → All P (l ++ a ∷ [])
All-append P [] a h k = (k, tt)
All-append P (b ∷ l) a h k = (h.0, All-append P l a h.1 k)
