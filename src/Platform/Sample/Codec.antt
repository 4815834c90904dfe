-- ===== src/Platform/Sample/Codec.antt =====
-- An encoding of objects as lists of numbers, with its decoder.
use passdoq.Prelude.{
  ℕ, zero, suc, ◌+◌, ◌≤◌, ◌≡◌, refl, Option, none, some, [], ◌∷◌, ◌++◌, length, take, drop,
  take-length_append, drop-length_append, arith,
}
use passdoq.Prelude.Text.{Bytes}
use passdoq.Platform.{
  Object, nil, uint, str, bin, array, dict, Items, no_items, item, Fields, no_fields, field,
}

-- The encoding in front of the rest `r`.
mutual
  encode_on : Object → Bytes → Bytes
  encode_on nil r = 0 ∷ r
  encode_on (uint n) r = 1 ∷ n ∷ r
  encode_on (str t) r = 2 ∷ length t ∷ (t ++ r)
  encode_on (bin b) r = 3 ∷ length b ∷ (b ++ r)
  encode_on (array i) r = 4 ∷ encode_items i r
  encode_on (dict f) r = 5 ∷ encode_fields f r

  encode_items : Items → Bytes → Bytes
  encode_items no_items r = 0 ∷ r
  encode_items (item o i) r = 1 ∷ encode_on o (encode_items i r)

  encode_fields : Fields → Bytes → Bytes
  encode_fields no_fields r = 0 ∷ r
  encode_fields (field k o f) r = 1 ∷ length k ∷ (k ++ encode_on o (encode_fields f r))

abbrev Parse : Type 0 → Type 0
Parse A = Option (A × Bytes)

abbrev with_rest : {A B : Type 0} → Parse A → (A → Bytes → Parse B) → Parse B
with_rest none f = none
with_rest (some (a, r)) f = f a r

mutual
  decode : ℕ → Bytes → Parse Object
  decode zero l = none
  decode (suc f) [] = none
  decode (suc f) (zero ∷ r) = some (nil, r)
  decode (suc f) (suc zero ∷ []) = none
  decode (suc f) (suc zero ∷ n ∷ r) = some (uint n, r)
  decode (suc f) (suc (suc zero) ∷ []) = none
  decode (suc f) (suc (suc zero) ∷ n ∷ r) = some (str (take n r), drop n r)
  decode (suc f) (suc (suc (suc zero)) ∷ []) = none
  decode (suc f) (suc (suc (suc zero)) ∷ n ∷ r) = some (bin (take n r), drop n r)
  decode (suc f) (suc (suc (suc (suc zero))) ∷ r) =
      with_rest (decode_items f r) (λ i q. some (array i, q))
  decode (suc f) (suc (suc (suc (suc (suc n)))) ∷ r) =
      with_rest (decode_fields f r) (λ i q. some (dict i, q))

  decode_items : ℕ → Bytes → Parse Items
  decode_items zero l = none
  decode_items (suc f) [] = none
  decode_items (suc f) (zero ∷ r) = some (no_items, r)
  decode_items (suc f) (suc n ∷ r) =
      with_rest (decode f r) (λ o q. with_rest (decode_items f q) (λ i q'. some (item o i, q')))

  decode_fields : ℕ → Bytes → Parse Fields
  decode_fields zero l = none
  decode_fields (suc f) [] = none
  decode_fields (suc f) (zero ∷ r) = some (no_fields, r)
  decode_fields (suc f) (suc n ∷ []) = none
  decode_fields (suc f) (suc n ∷ k ∷ r) =
      with_rest (decode f (drop k r))
        (λ o q. with_rest (decode_fields f q) (λ i q'. some (field (take k r) o i, q')))

mutual
  size : Object → ℕ
  size nil = 1
  size (uint n) = 1
  size (str t) = 1
  size (bin b) = 1
  size (array i) = suc (size_items i)
  size (dict f) = suc (size_fields f)

  size_items : Items → ℕ
  size_items no_items = 1
  size_items (item o i) = suc (size o + size_items i)

  size_fields : Fields → ℕ
  size_fields no_fields = 1
  size_fields (field k o f) = suc (size o + size_fields f)

mutual
  unfolding decode encode_on size decode_items decode_fields encode_items encode_fields size_items
      size_fields

  decode-encode_on :
      (o : Object) (f : ℕ) (r : Bytes) → size o ≤ f → decode f (encode_on o r) ≡ some (o, r)
  decode-encode_on nil zero r h = absurd (omega arith)
  decode-encode_on nil (suc f) r h = refl
  decode-encode_on (uint n) zero r h = absurd (omega arith)
  decode-encode_on (uint n) (suc f) r h = refl
  decode-encode_on (str t) zero r h = absurd (omega arith)
  decode-encode_on (str t) (suc f) r h = cc (take-length_append t r, drop-length_append t r)
  decode-encode_on (bin t) zero r h = absurd (omega arith)
  decode-encode_on (bin t) (suc f) r h = cc (take-length_append t r, drop-length_append t r)
  decode-encode_on (array i) zero r h = absurd (omega arith)
  decode-encode_on (array i) (suc f) r h = rw (decode-encode_items i f r (omega arith))
  decode-encode_on (dict i) zero r h = absurd (omega arith)
  decode-encode_on (dict i) (suc f) r h = rw (decode-encode_fields i f r (omega arith))

  decode-encode_items :
      (i : Items) (f : ℕ) (r : Bytes)
      → size_items i ≤ f
      → decode_items f (encode_items i r) ≡ some (i, r)
  decode-encode_items no_items zero r h = absurd (omega arith)
  decode-encode_items no_items (suc f) r h = refl
  decode-encode_items (item o i) zero r h = absurd (omega arith)
  decode-encode_items (item o i) (suc f) r h =
      rw (decode-encode_on o f (encode_items i r) (omega arith))
        (rw (decode-encode_items i f r (omega arith)))

  decode-encode_fields :
      (i : Fields) (f : ℕ) (r : Bytes)
      → size_fields i ≤ f
      → decode_fields f (encode_fields i r) ≡ some (i, r)
  decode-encode_fields no_fields zero r h = absurd (omega arith)
  decode-encode_fields no_fields (suc f) r h = refl
  decode-encode_fields (field k o i) zero r h = absurd (omega arith)
  decode-encode_fields (field k o i) (suc f) r h =
      rw (drop-length_append k (encode_on o (encode_fields i r))) (
        rw (take-length_append k (encode_on o (encode_fields i r))) (
          rw (decode-encode_on o f (encode_fields i r) (omega arith))
            (rw (decode-encode_fields i f r (omega arith)))))

-- The fuel stands in front of the encoding.
pub encode : Object → Bytes
encode o = size o ∷ encode_on o []

abbrev first : Parse Object → Option Object
first none = none
first (some (o, r)) = some o

pub decode_all : Bytes → Option Object
decode_all [] = none
decode_all (f ∷ l) = first (decode f l)

pub decode_all-encode : (o : Object) → decode_all (encode o) ≡ some o
unfolding decode_all encode
decode_all-encode o = rw (decode-encode_on o (size o) [] (omega arith))
