-- ===== src/Runcom/Grammar.antt =====
-- The grammar of the configuration files in src/runcom.cpp, as the rules that it is made of.
pub mod Peg
pub mod Laws
pub mod Lists
pub mod Reading
pub mod Written
pub mod Sample
use passdoq.Prelude.{ℕ, List, [], ◌∷◌}
use passdoq.Prelude.Text.{Text, codes}
use passdoq.Runcom.Prl.{Match}

-- The rules for which `prl_action` has an `apply`, and the match that it is called with.
pub data Action : Type 0 where
  on_identifier on_string_value on_integer on_boolean on_list_value on_assignment : Action

abbrev pub match_of : Action → Text → Match
match_of on_identifier t = Match.identifier t
match_of on_string_value t = Match.string_value t
match_of on_integer t = Match.integer t
match_of on_boolean t = Match.boolean t
match_of on_list_value t = Match.list_value
match_of on_assignment t = Match.assignment

-- The rules of PEGTL that the grammar uses; `seq` and `sor` of more than two rules are nested.
-- `until_end` is `until` with one argument, and `with_action` a rule with an action.
pub data Rule : Type 0 where
  one : ℕ → Rule
  not_one : List ℕ → Rule
  string : Text → Rule
  space digit peg_identifier eol eof eolf : Rule
  seq sor : Rule → Rule → Rule
  star plus opt until_end : Rule → Rule
  until : Rule → Rule → Rule
  list : Rule → Rule → Rule → Rule
  with_action : Action → Rule → Rule

abbrev pub ws : Rule
ws = star space

abbrev pub comment : Rule
comment = seq (one b'#') (until_end eolf)

abbrev pub identifier : Rule
identifier = with_action on_identifier peg_identifier

abbrev pub quoted_string : Rule
quoted_string = seq (one 34) (until_end (one 34))

abbrev pub unquoted_string : Rule
unquoted_string = plus (not_one (32 ∷ 9 ∷ 10 ∷ 13 ∷ 35 ∷ []))

abbrev pub string_value : Rule
string_value = with_action on_string_value (sor quoted_string unquoted_string)

abbrev pub integer : Rule
integer = with_action on_integer (seq (opt (one b'-')) (plus digit))

abbrev pub boolean : Rule
boolean = with_action on_boolean (
    sor (string (codes "true")) (
      sor (string (codes "false"))
        (sor (string (codes "yes")) (sor (string (codes "no")) (sor (one b'1') (one b'0'))))))

abbrev pub list_item : Rule
list_item = seq ws (seq string_value ws)

abbrev pub list_value : Rule
list_value =
    with_action on_list_value (seq (one b'[') (seq (list list_item (one b',') ws) (one b']')))

abbrev pub value : Rule
value = sor list_value (sor boolean (sor integer string_value))

abbrev pub assignment : Rule
assignment = with_action on_assignment (seq identifier (seq ws (seq (one b'=') (seq ws value))))

abbrev pub statement : Rule
statement = seq ws (seq (opt assignment) (seq ws (seq (opt comment) eol)))

abbrev pub grammar : Rule
grammar = until eof statement
