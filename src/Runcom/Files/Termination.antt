-- ===== src/Runcom/Files/Termination.antt =====
-- The preprocessor ends, since there are only so many paths, and one that it has loaded is not loaded
-- again. A path is a text here: one file can have several.
use passdoq.Prelude.{
  ℕ, zero, suc, ◌+◌, ◌*◌, ◌≤◌, ◌<◌, ◌≡◌, length, All, true, false, none, some, List, [], ◌∷◌, ◌++◌,
  if◌then◌else◌,
}
use passdoq.Prelude.Text.{Text}
use passdoq.Runcom.Files.{Host, is_circular_include, Output}

-- How many of the paths `u` are not loaded yet.
abbrev pub remaining : List Text → List Text → ℕ
remaining [] l = 0
remaining (q ∷ u) l = let rest = remaining u l in if is_circular_include q l then rest else suc rest

-- No path stands twice in the list.
abbrev pub IsDistinct : List Text → Type 0
IsDistinct [] = Unit
IsDistinct (p ∷ l) = (is_circular_include p l ≡ false) × IsDistinct l

module _ (h : Host) (u : List Text) where
  -- A run that began with the loaded paths `l` has ended; no more paths remain than before, and no
  -- path was put on the list twice.
  abbrev pub Finishes : List Text → Output → Type 0
  Finishes l none = ⊥
  Finishes l (some (out, l')) = (remaining u l' ≤ remaining u l) × (IsDistinct l → IsDistinct l')

  -- Every path that can be opened is one of `u`.
  abbrev pub Covers : Type 0
  Covers = (path text : Text) → h.content path ≡ some text → is_circular_include path u ≡ true

-- The paths of at most `limit` bytes: how many there are, and all of them.
abbrev pub path_count : ℕ → ℕ
path_count zero = 1
path_count (suc limit) = 256 * path_count limit + 1

begin_with : ℕ → List Text → List Text
begin_with c [] = []
begin_with c (t ∷ ts) = (c ∷ t) ∷ begin_with c ts

extend : ℕ → List Text → List Text
extend zero ts = []
extend (suc n) ts = begin_with n ts ++ extend n ts

all_paths : ℕ → List Text
all_paths zero = [] ∷ []
all_paths (suc limit) = [] ∷ extend 256 (all_paths limit)

-- Only paths of at most `limit` bytes can be opened, as with the `PATH_MAX` of the system.
abbrev pub HasPathMax : ℕ → Host → Type 0
HasPathMax limit h =
    (path text : Text)
    → h.content path ≡ some text
    → (length path ≤ limit) × All (λ c. c < 256) path
