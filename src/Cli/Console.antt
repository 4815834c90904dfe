-- ===== src/Cli/Console.antt =====
-- The console of src/cli.cpp: prompts, the lines that are read, and what is printed.
use passdoq.Prelude.{
  ℕ, Bool, false, not, ◌&&◌, ◌||◌, List, [], ◌∷◌, ◌++◌, if◌then◌else◌, ◌==◌, replicate,
}
use passdoq.Prelude.Exec.{Exec, pure, modify, ◌>>=◌, ◌>>◌}
use passdoq.Prelude.Text.{Text, Bytes, codes, eq_text}
use passdoq.StdMap.{StdMap}
use passdoq.Vault.{Entry, Session}
use passdoq.Runcom.{Config}

-- `std::cout` and `std::cerr`, one text for each line or prompt.
pub data Line : Type 0 where
  out err : Text → Line

-- The lines that will be typed, and what was printed. At the end of the input a read gives the
-- empty text.
pub record App : Type 0 where
  pub session : Session
  pub config : Config
  pub vault_path : Text
  pub input : List Text
  pub printed : List Line

abbrev pub on_session : {A : Type 0} → Exec Session A → Exec App A
on_session m a = let (r, s) = m a.session in (r, record a { session = s })

unfoldable pub say : Line → Exec App (Unit {0})
say line = modify (λ a. record a { printed = a.printed ++ line ∷ [] })

-- `std::getline(std::cin, line)`
abbrev pub first_line : List Text → Text
first_line [] = []
first_line (l ∷ ls) = l

abbrev pub later_lines : List Text → List Text
later_lines [] = []
later_lines (l ∷ ls) = ls

unfoldable pub read_line : Exec App Text
read_line a = pure (first_line a.input) (record a { input = later_lines a.input })

unfoldable pub prompt_input : Text → Exec App Text
unfolding say read_line
prompt_input prompt = do say (out prompt); read_line

-- The echo of the terminal is off while the line is typed, and a line break is printed after it.
unfoldable pub prompt_password : Text → Exec App Text
unfolding say read_line
prompt_password prompt = do
  say (out prompt)
  password ← read_line
  say (out (codes "\n"))
  pure password

unfoldable pub read_secret : Exec App Bytes
unfolding prompt_password
read_secret = prompt_password (codes "Secret: ")

-- The parts of `tags_str` between its commas, as `std::getline(iss, tag, ',')` reads them.
abbrev add_to_first : ℕ → List Text → List Text
add_to_first c [] = (c ∷ []) ∷ []
add_to_first c (l ∷ ls) = (c ∷ l) ∷ ls

unfoldable pub split_commas : Text → List Text
split_commas [] = []
split_commas (c ∷ t) =
    let rest = split_commas t in if c == 44 then [] ∷ rest else add_to_first c rest

abbrev pub is_blank : ℕ → Bool
is_blank c = c == 32 || c == 9

-- `tag.erase(0, tag.find_first_not_of(" \t"))`; where there is no such position, all is erased.
unfoldable pub trim_front : Text → Text
trim_front [] = []
trim_front (c ∷ t) = let rest = trim_front t in if is_blank c then rest else c ∷ t

-- `tag.erase(tag.find_last_not_of(" \t") + 1)`; where there is no such position, all is erased.
unfoldable pub trim_back : Text → Text
trim_back [] = []
trim_back (c ∷ t) = let rest = trim_back t in if is_blank c && eq_text rest [] then [] else c ∷ rest

-- The loop over the tags.
unfoldable pub trimmed_tags : List Text → List Text
unfolding trim_front trim_back
trimmed_tags [] = []
trimmed_tags (t ∷ ts) =
    let tag = trim_back (trim_front t) in
    let rest = trimmed_tags ts in if not (eq_text tag []) then tag ∷ rest else rest

unfoldable pub parse_tags : Text → List Text
unfolding split_commas trimmed_tags
parse_tags tags_str = trimmed_tags (split_commas tags_str)

-- The tags with a comma and a blank between two.
unfoldable pub join_tags : List Text → Text
join_tags [] = []
join_tags (t ∷ []) = t
join_tags (t ∷ u ∷ ts) = t ++ codes ", " ++ join_tags (u ∷ ts)

unfoldable pub metadata_lines : StdMap Text → List Line
metadata_lines [] = []
metadata_lines ((k, v) ∷ m) = out (codes "  " ++ k ++ codes ": " ++ v) ∷ metadata_lines m

abbrev tag_lines : List Text → List Line
tag_lines [] = []
tag_lines (t ∷ ts) = out (codes "Tags: " ++ join_tags (t ∷ ts)) ∷ []

abbrev all_metadata_lines : StdMap Text → List Line
all_metadata_lines [] = []
all_metadata_lines (kv ∷ m) = out (codes "Metadata:") ∷ metadata_lines (kv ∷ m)

-- The lines that `print_entry` prints.
unfoldable pub entry_lines : Entry → Bool → List Line
unfolding join_tags metadata_lines
entry_lines e show_secret =
    out (codes "ID: " ++ e.id)
    ∷ out (codes "Name: " ++ e.name)
    ∷ out (codes "Username: " ++ e.username)
    ∷ ((if show_secret then out (codes "Secret: " ++ e.secret) ∷ [] else [])
        ++ (tag_lines e.tags ++ all_metadata_lines e.metadata))

unfoldable pub print_lines : List Line → Exec App (Unit {0})
print_lines l = modify (λ a. record a { printed = a.printed ++ l })

unfoldable pub print_entry : Entry → Bool → Exec App (Unit {0})
unfolding entry_lines print_lines
print_entry e show_secret = print_lines (entry_lines e show_secret)

-- `std::string(80, '-')`
abbrev pub rule : Line
rule = out (replicate 80 45)

-- The loop of `cmd_list` and `cmd_search`.
unfoldable pub list_lines : List Entry → List Line
unfolding entry_lines
list_lines [] = []
list_lines (e ∷ es) = entry_lines e false ++ rule ∷ list_lines es
