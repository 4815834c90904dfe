-- ===== src/StdMap/Laws.antt =====
-- Lookup after each update, and the order of the keys.
use passdoq.Prelude.{
  ◌≡◌, refl, sym, ◌∙◌, true, none, some, List, [], ◌∷◌, ◌++◌, arith, if◌then◌else◌, append-nil,
  append_assoc,
}
use passdoq.Prelude.Text.{
  Text, eq_text, lt_text, eq_text_iff, eq_text_refl, lt_text_irrefl, lt_text_trans, lt_text_total,
}
use passdoq.StdMap.{StdMap, find, insert, erase, insert_all}

module _ {ℓ} {V : Type ℓ} where
  pub find-insert :
      (k j : Text) (v : V) (m : StdMap V)
      → find j (insert k v m) ≡ (if eq_text k j then some v else find j m)
  unfolding find insert
  find-insert k j v [] = ground (arith, eq_text_iff k j, eq_text_iff j k)
  find-insert k j v ((i, w) ∷ m) = ground (
    arith,
    eq_text_iff k j,
    eq_text_iff j k,
    eq_text_iff k i,
    eq_text_iff j i,
    find-insert k j v m,
  )

  pub find-insert_self : (k : Text) (v : V) (m : StdMap V) → find k (insert k v m) ≡ some v
  find-insert_self k v m = rw (find-insert, eq_text_refl)

  pub find-erase :
      (k j : Text) (m : StdMap V) → find j (erase k m) ≡ (if eq_text k j then none else find j m)
  unfolding find erase
  find-erase k j [] = ground arith
  find-erase k j ((i, w) ∷ m) =
      ground (arith, eq_text_iff k j, eq_text_iff k i, eq_text_iff j i, find-erase k j m)

  -- `k` stands before every key of the map.
  abbrev pub Below : Text → StdMap V → Type 0
  Below k [] = Unit
  Below k ((j, v) ∷ m) = (lt_text k j ≡ true) × Below k m

  -- The keys ascend, so no key stands twice.
  abbrev pub IsSorted : StdMap V → Type 0
  IsSorted [] = Unit
  IsSorted ((k, v) ∷ m) = Below k m × IsSorted m

  Below-trans : (k j : Text) (m : StdMap V) → lt_text k j ≡ true → Below j m → Below k m
  Below-trans k j [] h b = tt
  Below-trans k j ((i, w) ∷ m) h b = (lt_text_trans k j i h b.0, Below-trans k j m h b.1)

  pub find-Below : (k : Text) (m : StdMap V) → Below k m → find k m ≡ none
  unfolding find
  find-Below k [] h = refl
  find-Below k ((j, w) ∷ m) h =
      ground (arith, eq_text_iff k j, lt_text_irrefl k, find-Below k m h.1)

  insert-Below :
      (k j : Text) (v : V) (m : StdMap V) → lt_text j k ≡ true → Below j m → Below j (insert k v m)
  unfolding insert
  insert-Below k j v [] h b = (h, tt)
  insert-Below k j v ((i, w) ∷ m) h b = ground (arith, insert-Below k j v m h b.1)

  pub insert-IsSorted : (k : Text) (v : V) (m : StdMap V) → IsSorted m → IsSorted (insert k v m)
  unfolding insert
  insert-IsSorted k v [] s = (tt, tt)
  insert-IsSorted k v ((i, w) ∷ m) s =
      ground (
        arith,
        Below-trans k i m,
        lt_text_total k i,
        insert-Below k i v m,
        insert-IsSorted k v m s.1,
      )

  erase-Below : (k j : Text) (m : StdMap V) → Below j m → Below j (erase k m)
  unfolding erase
  erase-Below k j [] b = tt
  erase-Below k j ((i, w) ∷ m) b = ground (arith, erase-Below k j m b.1)

  pub erase-IsSorted : (k : Text) (m : StdMap V) → IsSorted m → IsSorted (erase k m)
  unfolding erase
  erase-IsSorted k [] s = tt
  erase-IsSorted k ((i, w) ∷ m) s = ground (arith, erase-Below k i m s.0, erase-IsSorted k m s.1)

  pub insert_all-IsSorted :
      (l : List (Text × V)) (m : StdMap V) → IsSorted m → IsSorted (insert_all l m)
  unfolding insert_all
  insert_all-IsSorted [] m s = s
  insert_all-IsSorted ((k, v) ∷ l) m s =
      insert_all-IsSorted l (insert k v m) (insert-IsSorted k v m s)

  -- Every key of the map stands before `k`.
  abbrev Above : StdMap V → Text → Type 0
  Above [] k = Unit
  Above ((j, v) ∷ m) k = (lt_text j k ≡ true) × Above m k

  insert-Above : (k : Text) (v : V) (m : StdMap V) → Above m k → insert k v m ≡ m ++ (k, v) ∷ []
  unfolding insert
  insert-Above k v [] h = refl
  insert-Above k v ((j, w) ∷ m) h = ground (
    arith,
    eq_text_iff k j,
    lt_text_irrefl k,
    lt_text_trans j k j,
    lt_text_irrefl j,
    insert-Above k v m h.1,
  )

  Above-append :
      (m : StdMap V) (j k : Text) (w : V)
      → Above m k
      → lt_text j k ≡ true
      → Above (m ++ (j, w) ∷ []) k
  Above-append [] j k w h b = (b, tt)
  Above-append ((i, x) ∷ m) j k w h b = (h.0, Above-append m j k w h.1 b)

  -- Each key of `m` stands before each key of `l`.
  abbrev AllAbove : StdMap V → StdMap V → Type 0
  AllAbove m [] = Unit
  AllAbove m ((k, v) ∷ l) = Above m k × AllAbove m l

  AllAbove-append :
      (m l : StdMap V) (j : Text) (w : V) → AllAbove m l → Below j l → AllAbove (m ++ (j, w) ∷ []) l
  AllAbove-append m [] j w h b = tt
  AllAbove-append m ((k, v) ∷ l) j w h b =
      (Above-append m j k w h.0 b.0, AllAbove-append m l j w h.1 b.1)

  insert_all-append : (l m : StdMap V) → IsSorted l → AllAbove m l → insert_all l m ≡ m ++ l
  unfolding insert_all
  insert_all-append [] m s h = sym (append-nil m)
  insert_all-append ((k, v) ∷ l) m s h = rw (insert-Above k v m h.0) (
      insert_all-append l (m ++ (k, v) ∷ []) s.1 (AllAbove-append m l k v h.1 s.0)
      ∙ append_assoc m ((k, v) ∷ []) l)

  AllAbove-nil : (l : StdMap V) → AllAbove [] l
  AllAbove-nil [] = tt
  AllAbove-nil ((k, v) ∷ l) = (tt, AllAbove-nil l)

  -- A map that is written out in order and read back is the map.
  pub insert_all_self : (m : StdMap V) → IsSorted m → insert_all m [] ≡ m
  insert_all_self m s = insert_all-append m [] s (AllAbove-nil m)
