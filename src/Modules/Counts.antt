-- ===== src/Modules/Counts.antt =====
-- How often a path is opened and closed in a log of calls, and how many modules it holds.
use passdoq.Prelude.{
  ℕ, ◌+◌, ◌≡◌, refl, none, some, List, [], ◌∷◌, ◌++◌, if◌then◌else◌, arith, Bool-cases, inl, inr,
}
use passdoq.Prelude.Text.{Text, eq_text, eq_text_iff}
use passdoq.StdMap.{StdMap, find, insert, erase}
use passdoq.StdMap.Laws.{find-Below, IsSorted}
use passdoq.Modules.{Event, opened, closed, ModuleHandle, destroy, destroy_all}

module _ (path : Text) where
  -- How many times `path` was opened, and closed.
  abbrev pub opens_of : Event → ℕ
  opens_of (opened q) = if eq_text path q then 1 else 0
  opens_of _ = 0

  abbrev pub closes_of : Event → ℕ
  closes_of (closed q) = if eq_text path q then 1 else 0
  closes_of _ = 0

  abbrev pub opens : List Event → ℕ
  opens [] = 0
  opens (e ∷ l) = opens_of e + opens l

  abbrev pub closes : List Event → ℕ
  closes [] = 0
  closes (e ∷ l) = closes_of e + closes l

  abbrev pub held_by : ModuleHandle → ℕ
  held_by h = if eq_text path h.handle then 1 else 0

  -- How many modules are held by a handle for `path`.
  abbrev pub held : StdMap ModuleHandle → ℕ
  held [] = 0
  held ((name, h) ∷ m) = held_by h + held m

  pub opens-append : (l k : List Event) → opens (l ++ k) ≡ opens l + opens k
  opens-append [] k = omega arith
  opens-append (e ∷ l) k = omega (arith, opens-append l k)

  pub closes-append : (l k : List Event) → closes (l ++ k) ≡ closes l + closes k
  closes-append [] k = omega arith
  closes-append (e ∷ l) k = omega (arith, closes-append l k)

  pub held-insert :
      (name : Text) (h : ModuleHandle) (m : StdMap ModuleHandle)
      → find name m ≡ none
      → held (insert name h m) ≡ held_by h + held m
  unfolding insert find
  held-insert name h [] e = omega arith
  held-insert name h ((j, g) ∷ m) e = ground (arith, held-insert name h m)

  held-erase_missing :
      (name : Text) (m : StdMap ModuleHandle) → find name m ≡ none → held (erase name m) ≡ held m
  unfolding erase find
  held-erase_missing name [] e = refl
  held-erase_missing name ((j, g) ∷ m) e = ground (arith, held-erase_missing name m)

  pub held-erase :
      (name : Text) (h : ModuleHandle) (m : StdMap ModuleHandle)
      → IsSorted m
      → find name m ≡ some h
      → held m ≡ held_by h + held (erase name m)
  unfolding erase find
  held-erase name h [] s e = absurd (ground arith)
  held-erase name h ((j, g) ∷ m) s e = elim (Bool-cases (eq_text name j)) [
    | inl q ↦ ground (arith, eq_text_iff name j, held-erase_missing name m, find-Below name m)
    | inr q ↦ ground (arith, held-erase name h m s.1)
  ]

  pub destroy_lem : (h : ModuleHandle) → (opens (destroy h) ≡ 0) × (closes (destroy h) ≡ held_by h)
  unfolding destroy
  destroy_lem h = (ground arith, ground arith)

  pub destroy_all_lem :
      (m : StdMap ModuleHandle) → (opens (destroy_all m) ≡ 0) × (closes (destroy_all m) ≡ held m)
  unfolding destroy_all
  destroy_all_lem [] = (refl, refl)
  destroy_all_lem ((name, h) ∷ m) =
      let (o, c) = destroy_all_lem m in
      let (o', c') = destroy_lem h in
      (
        omega (arith, opens-append (destroy h) (destroy_all m)),
        omega (arith, closes-append (destroy h) (destroy_all m)),
      )
