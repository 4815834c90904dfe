-- ===== src/Runcom/Files.antt =====
-- The configuration files of src/runcom.cpp: `load`, `load_defaults`, the preprocessor and
-- `get_default_paths`.
pub mod Termination
use passdoq.Prelude.{
  ℕ, zero, suc, Bool, true, false, not, ◌&&◌, ◌||◌, Option, none, some, List, [], ◌∷◌, ◌++◌,
  if◌then◌else◌, is_set, ◌==◌,
}
use passdoq.Prelude.Text.{Text, codes, eq_text, starts_with}
use passdoq.Runcom.{Config}
use passdoq.Runcom.Prl.{Match, parse_prl}

-- The file system and the environment. `content` is `none` where `std::ifstream` cannot open the
-- path; `prl` tells which rules of the grammar match in a text, and whether all of it matches.
pub record Host : Type 0 where
  pub content : Text → Option Text
  pub exists : Text → Bool
  pub getenv : Text → Option Text
  pub prl : Text → Bool × List Match

-- `std::find(loaded_files_, path) != end`
unfoldable pub is_circular_include : Text → List Text → Bool
is_circular_include path [] = false
is_circular_include path (q ∷ l) = eq_text q path || is_circular_include path l

abbrev add_to_first : ℕ → List Text → List Text
add_to_first c [] = (c ∷ []) ∷ []
add_to_first c (l ∷ ls) = (c ∷ l) ∷ ls

-- The lines that `std::getline` reads; a newline at the end begins no further line.
unfoldable pub lines : Text → List Text
lines [] = []
lines (c ∷ t) = let rest = lines t in if c == 10 then [] ∷ rest else add_to_first c rest

-- The text behind the first quote, and the text before the last one.
unfoldable pub after_quote : Text → Option Text
after_quote [] = none
after_quote (c ∷ t) = let rest = after_quote t in if c == 34 then some t else rest

abbrev add_to_some : ℕ → Option Text → Option Text
add_to_some c none = none
add_to_some c (some t) = some (c ∷ t)

unfoldable pub before_quote : Text → Option Text
before_quote [] = none
before_quote (c ∷ t) =
    let rest = before_quote t in
    if is_set rest then add_to_some c rest else if c == 34 then some [] else none

-- `line.substr(start + 1, end - start - 1)`, where the first and the last quote differ.
unfoldable pub quoted_name : Text → Option Text
unfolding after_quote before_quote
quoted_name line = elim (after_quote line) [ none ↦ none | some t ↦ before_quote t ]

-- `std::filesystem::path(base) / name`
abbrev ends_with_slash : Text → Bool
ends_with_slash [] = false
ends_with_slash (c ∷ []) = c == 47
ends_with_slash (c ∷ d ∷ t) = ends_with_slash (d ∷ t)

unfoldable pub join_path : Text → Text → Text
join_path base name =
    if starts_with (codes "/") name || eq_text base []
    then name
    else if ends_with_slash base
    then base ++ name
    else base ++ codes "/" ++ name

-- `path.parent_path()`: the text before the last slash; a path of one component under the root has
-- the root as its parent.
unfoldable pub before_slash : Text → Option Text
before_slash [] = none
before_slash (c ∷ t) =
    let rest = before_slash t in
    if is_set rest then add_to_some c rest else if c == 47 then some [] else none

-- The text without the slashes at its end.
unfoldable pub strip_slashes : Text → Text
strip_slashes [] = []
strip_slashes (c ∷ t) =
    let rest = strip_slashes t in if c == 47 && eq_text rest [] then [] else c ∷ rest

abbrev root_if_empty : Text → Text
root_if_empty [] = codes "/"
root_if_empty (c ∷ t) = c ∷ t

unfoldable pub parent_path : Text → Text
unfolding before_slash strip_slashes
parent_path path = elim (before_slash path) [ none ↦ [] | some t ↦ root_if_empty (strip_slashes t) ]

-- The text so far and the files that are loaded; `none` where the fuel ran out.
abbrev pub Output : Type 0
Output = Option (Text × List Text)

abbrev pub append_to : Text → Output → Output
append_to t none = none
append_to t (some (rest, loaded)) = some (t ++ rest, loaded)

module _ (h : Host) where
  -- The file of an `#include` line, if there is one that is read.
  abbrev pub readable_include : Text → List Text → Option Text → Option (Text × Text)
  readable_include base loaded none = none
  readable_include base loaded (some name) =
      let path = join_path base name in
      if is_circular_include path loaded
      then none
      else elim (h.content path) [ none ↦ none | some text ↦ some (path, text) ]

  -- The file that a line includes; `none` for a line that includes nothing.
  unfoldable pub included : Text → Text → List Text → Option (Text × Text)
  unfolding quoted_name
  included line base loaded = readable_include base loaded (quoted_name line)

  -- The rest of the lines, behind what an included file gave.
  abbrev pub splice : (List Text → Output) → Output → Output
  splice rest none = none
  splice rest (some (out, loaded)) = append_to out (rest loaded)

  -- An included file is put on the list before it is preprocessed itself.
  abbrev pub include_file :
      (Text → Text → List Text → Output)
      → (List Text → Output)
      → List Text
      → Option (Text × Text)
      → Output
  include_file nested rest loaded none = rest loaded
  include_file nested rest loaded (some (path, text)) =
      splice rest (nested text (parent_path path) (loaded ++ path ∷ []))

  unfoldable pub preprocess_lines :
      (Text → Text → List Text → Output) → List Text → Text → List Text → Output
  preprocess_lines nested [] base loaded = some ([], loaded)
  preprocess_lines nested (line ∷ ls) base loaded =
      let plain = append_to (line ++ 10 ∷ []) (preprocess_lines nested ls base loaded) in
      let spliced =
        include_file nested (preprocess_lines nested ls base) loaded (included line base loaded) in
      if starts_with (codes "#include") line then spliced else plain

  -- `preprocess`, with fuel for the depth of the includes.
  unfoldable pub preprocess : ℕ → Text → Text → List Text → Output
  preprocess zero content base loaded = none
  preprocess (suc fuel) content base loaded =
      preprocess_lines (preprocess fuel) (lines content) base loaded

  abbrev parse_output : Config → Output → Option (Bool × Config)
  parse_output c none = none
  parse_output c (some (text, loaded)) =
      let (b, values) = parse_prl h.prl text c.values in
      some (b, record { values = values; loaded_files = loaded })

  abbrev load_content : ℕ → Text → Config → Option Text → Option (Bool × Config)
  load_content fuel path c none = some (false, c)
  load_content fuel path c (some text) =
      parse_output c (preprocess fuel text (parent_path path) (c.loaded_files ++ path ∷ []))

  unfoldable pub load : ℕ → Text → Config → Option (Bool × Config)
  load fuel path c =
      if is_circular_include path c.loaded_files
      then some (false, c)
      else load_content fuel path c (h.content path)

  -- The loop of `load_defaults`.
  unfoldable pub load_first : ℕ → List Text → Config → Option (Bool × Config)
  unfolding load
  load_first fuel [] c = some (false, c)
  load_first fuel (path ∷ paths) c =
      if h.exists path
      then (elim (load fuel path c) [
        | none ↦ none
        | some (loaded, c') ↦ elim loaded [
          | true ↦ some (true, c')
          | false ↦ load_first fuel paths c'
        ]
      ])
      else load_first fuel paths c

  abbrev path_if : Option Text → Text → List Text
  path_if none suffix = []
  path_if (some dir) suffix = (dir ++ suffix) ∷ []

  abbrev config_dir : Option Text → Option Text → List Text
  config_dir (some xdg) home = (xdg ++ codes "/passdoq/Passdoq.cnf") ∷ []
  config_dir none home = path_if home (codes "/.config/passdoq/Passdoq.cnf")

  unfoldable pub get_default_paths : List Text
  get_default_paths =
      path_if (h.getenv (codes "PASSDOQ_RUNCOM_FILE")) []
      ++ config_dir (h.getenv (codes "XDG_CONFIG_HOME")) (h.getenv (codes "HOME"))
      ++ path_if (h.getenv (codes "HOME")) (codes "/.passdoqrc")

  unfoldable pub load_defaults : ℕ → Config → Option (Bool × Config)
  unfolding load_first get_default_paths
  load_defaults fuel c = load_first fuel get_default_paths c
