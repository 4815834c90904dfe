-- ===== src/Runcom/Prl.antt =====
-- The parse of a configuration text in src/runcom.cpp: `parse_prl`, and the actions that PEGTL runs
-- where a rule of the grammar matches. PEGTL is not part of the repository: which rules with an
-- action match in a text, in turn, and whether all of it matches, is a parameter.
pub mod Laws
use passdoq.Prelude.{
  ℕ, ◌+◌, ◌-◌, Bool, true, false, not, ◌&&◌, ◌||◌, Option, none, some, List, [], ◌∷◌, ◌++◌,
  if◌then◌else◌, ◌==◌, leb, length, take, drop,
}
use passdoq.Prelude.Exec.{
  Result, ok, throw, fault, library_error, Exec, modify, or_raise, pure, returns, ◌>>=◌, ◌>>◌,
}
use passdoq.Prelude.Text.{Text, codes, eq_text}
use passdoq.StdMap.{StdMap, insert}
use passdoq.Vault.Time.{read_digits}
use passdoq.Runcom.{ℤ, pos, negsuc, Value, from_string, from_int, from_bool, from_list}

-- A match of a rule that has an action, with the text that it matched.
pub data Match : Type 0 where
  identifier string_value integer boolean : Text → Match
  list_value assignment : Match

pub record ParseState : Type 0 where
  pub values : StdMap Value
  pub current_key : Text
  pub current_string : Text
  pub current_list : List Text
  pub in_list : Bool

abbrev pub new_state : StdMap Value → ParseState
new_state values = record {
  values = values;
  current_key = [];
  current_string = [];
  current_list = [];
  in_list = false;
}

abbrev pub is_empty : Text → Bool
is_empty [] = true
is_empty (c ∷ t) = false

unfoldable pub ends_with_quote : Text → Bool
ends_with_quote [] = false
ends_with_quote (c ∷ []) = c == 34
ends_with_quote (c ∷ d ∷ t) = ends_with_quote (d ∷ t)

abbrev starts_with_quote : Text → Bool
starts_with_quote [] = false
starts_with_quote (c ∷ t) = c == 34

-- The value without its quotes. No match of the rule is empty. A single quote is both the first
-- and the last character; the length wraps around in the source then, and `substr` gives nothing.
unfoldable pub unquote : Text → Text
unfolding ends_with_quote
unquote val =
    if starts_with_quote val && ends_with_quote val then take (length val - 2) (drop 1 val) else val

abbrev non_negative : ℕ → Option ℤ
non_negative n = if leb n 9223372036854775807 then some (pos n) else none

abbrev negative : ℕ → Option ℤ
negative n =
    if n == 0
    then some (pos 0)
    else if leb n 9223372036854775808
    then some (negsuc (n - 1))
    else none

-- `std::stoll` of an optional minus and digits; `none` is `std::out_of_range`.
unfoldable pub stoll : Text → Option ℤ
unfolding read_digits
stoll [] = none
stoll (c ∷ t) =
    if c == b'-' then negative (read_digits 0 t) else non_negative (read_digits 0 (c ∷ t))

abbrev pub is_true : Text → Bool
is_true val = eq_text val (codes "true") || (eq_text val (codes "yes") || eq_text val (codes "1"))

abbrev set_current : Value → ParseState → ParseState
set_current v s = record s { values = insert s.current_key v s.values }

abbrev keep_string : Text → ParseState → ParseState
keep_string val s =
    if s.in_list
    then record s { current_list = s.current_list ++ val ∷ [] }
    else record s { current_string = val }

abbrev finish_list : ParseState → ParseState
finish_list s = record (set_current (from_list s.current_list) s) { current_list = [] }

abbrev finish_string : ParseState → ParseState
finish_string s =
    if not (is_empty s.current_key) && not (is_empty s.current_string)
    then record (set_current (from_string s.current_string) s) { current_string = [] }
    else s

abbrev when_named : Exec ParseState (Unit {0}) → Exec ParseState (Unit {0})
when_named m s = if not (is_empty s.current_key) then m s else pure tt s

-- `prl_action<Rule>::apply`
unfoldable pub apply : Match → Exec ParseState (Unit {0})
unfolding unquote stoll from_string from_int from_bool from_list
apply (identifier t) = modify (λ s. record s { current_key = t })
apply (string_value t) = modify (keep_string (unquote t))
apply (integer t) =
    when_named (do n ← or_raise (stoll t) library_error; modify (set_current (from_int n)))
apply (boolean t) = when_named (modify (set_current (from_bool (is_true t))))
apply list_value = when_named (modify finish_list)
apply assignment = modify (λ s. record (finish_string s) { current_key = [] })

unfoldable pub apply_all : List Match → Exec ParseState (Unit {0})
unfolding apply
apply_all [] = pure tt
apply_all (m ∷ ms) = do apply m; apply_all ms

-- `parse_prl`; what was set before an exception stays set.
unfoldable pub parse_prl : (Text → Bool × List Match) → Text → StdMap Value → Bool × StdMap Value
unfolding apply_all
parse_prl prl content values =
    let (matched, ms) = prl content in
    let (r, s) = apply_all ms (new_state values) in (returns r && matched, s.values)
