-- ===== src/StdMap.antt =====
-- `std::map<std::string, V>` of the standard library: the pairs in ascending order of their keys,
-- which is the order in which the sources iterate over `entries_`, `services_`, `values_` and
-- `modules_`. A key that is compared as equal to one that is there replaces its value.
pub mod Laws
use passdoq.Prelude.{Bool, Option, none, some, List, [], ◌∷◌, if◌then◌else◌, is_set}
use passdoq.Prelude.Text.{Text, eq_text, lt_text}

abbrev pub StdMap {ℓ} : Type ℓ → Type ℓ
StdMap V = List (Text × V)

module _ {ℓ} {V : Type ℓ} where
  -- `m.find(k)`, with `m.end()` as `none`.
  unfoldable pub find : Text → StdMap V → Option V
  find k [] = none
  find k ((j, v) ∷ m) = if eq_text k j then some v else find k m

  -- `m.find(k) != m.end()`
  unfoldable pub contains_key : Text → StdMap V → Bool
  contains_key k m = is_set (find k m)

  -- `m[k] = v`
  unfoldable pub insert : Text → V → StdMap V → StdMap V
  insert k v [] = (k, v) ∷ []
  insert k v ((j, w) ∷ m) =
      if eq_text k j
      then (j, v) ∷ m
      else if lt_text k j
      then (k, v) ∷ (j, w) ∷ m
      else (j, w) ∷ insert k v m

  -- `m.erase(k)`
  unfoldable pub erase : Text → StdMap V → StdMap V
  erase k [] = []
  erase k ((j, w) ∷ m) = let rest = erase k m in if eq_text k j then rest else (j, w) ∷ rest

  -- The values, in the order of an iteration.
  unfoldable pub values : StdMap V → List V
  values [] = []
  values ((k, v) ∷ m) = v ∷ values m

  unfoldable pub keys : StdMap V → List Text
  keys [] = []
  keys ((k, v) ∷ m) = k ∷ keys m

  -- Each pair in turn, `m[k] = v`.
  unfoldable pub insert_all : List (Text × V) → StdMap V → StdMap V
  insert_all [] m = m
  insert_all ((k, v) ∷ l) m = insert_all l (insert k v m)
