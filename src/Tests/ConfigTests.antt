-- ===== src/Tests/ConfigTests.antt =====
-- The theorems on the configuration at concrete inputs.
use passdoq.Prelude.{true, List, [], ◌∷◌}
use passdoq.Prelude.Text.{Text, codes}
use passdoq.Runcom.{Config, pos, from_string, get_string, get_int, get_bool, get_list, has_key}
use passdoq.Runcom.Laws.{
  Reads, Setting, some_int, some_bool, some_list, string_or, int_or, bool_or, list_or,
}
use passdoq.Runcom.Typed.{set_all, last_setting, read_last, set_all-Reads}

abbrev config : Config
config = record { values = (codes "a", from_string (codes "x")) ∷ []; loaded_files = [] }

-- A key is set twice, and another one once.
abbrev settings : List (Text × Setting)
settings =
    (codes "a", some_int (pos 3))
    ∷ (codes "b", some_bool true)
    ∷ (codes "a", some_list (codes "y" ∷ []))
    ∷ []

set_all-Reads_example :
    let o = last_setting (codes "a") settings in
    Reads
      (codes "a")
      []
      (pos 1)
      true
      (set_all settings config)
      (read_last (λ v. string_or v []) (get_string (codes "a") [] config) o)
      (read_last (λ v. int_or v (pos 1)) (get_int (codes "a") (pos 1) config) o)
      (read_last (λ v. bool_or v true) (get_bool (codes "a") true config) o)
      (read_last (λ v. list_or v) (get_list (codes "a") config) o)
      (read_last (λ v. true) (has_key (codes "a") config) o)
set_all-Reads_example = set_all-Reads (codes "a") [] (pos 1) true settings config
