-- ===== src/Runcom/Prl/Laws.antt =====
-- What the lines of a configuration text set; those with a list are left out, which are never read to
-- their end.
use passdoq.Prelude.{
  ◌≡◌, ◌∙◌, refl, Bool, true, false, ◌&&◌, none, some, List, [], ◌∷◌, ◌++◌, All, if◌then◌else◌,
  Option-cases, inl, inr,
}
use passdoq.Prelude.Exec.{returns}
use passdoq.Prelude.Text.{Text}
use passdoq.StdMap.{StdMap, insert}
use passdoq.Runcom.{ℤ, Value, from_string, from_int, from_bool}
use passdoq.Runcom.Prl.{
  Match, identifier, string_value, integer, boolean, assignment, ParseState, new_state, is_empty,
  unquote, stoll, is_true, apply, apply_all, parse_prl,
}

-- A line that assigns a value: a key, and what was written behind the `=`.
pub data Line : Type 0 where
  text_line int_line bool_line : Text → Text → Line

abbrev key_of : Line → Text
key_of (text_line k t) = k
key_of (int_line k t) = k
key_of (bool_line k t) = k

abbrev pub IsNamed : Line → Type 0
IsNamed l = is_empty (key_of l) ≡ false

-- The matches of a line.
abbrev pub matches_of : Line → List Match
matches_of (text_line k t) = identifier k ∷ string_value t ∷ assignment ∷ []
matches_of (int_line k t) = identifier k ∷ integer t ∷ assignment ∷ []
matches_of (bool_line k t) = identifier k ∷ boolean t ∷ assignment ∷ []

abbrev pub all_matches : List Line → List Match
all_matches [] = []
all_matches (l ∷ ls) = matches_of l ++ all_matches ls

-- A text is set unless it is empty.
abbrev set_text : Text → Text → StdMap Value → StdMap Value
set_text k t m = if is_empty t then m else insert k (from_string t) m

-- What the lines set, in turn, up to an integer that does not fit, and whether there is none.
abbrev pub set_lines : List Line → StdMap Value → Bool × StdMap Value
set_lines [] m = (true, m)
set_lines (text_line k t ∷ ls) m = set_lines ls (set_text k (unquote t) m)
set_lines (int_line k t ∷ ls) m = elim (stoll t) [
  | none ↦ (false, m)
  | some n ↦ set_lines ls (insert k (from_int n) m)
]
set_lines (bool_line k t ∷ ls) m = set_lines ls (insert k (from_bool (is_true t)) m)

-- A key was read, and a text that is not yet set.
abbrev keyed_state : Text → Text → StdMap Value → ParseState
keyed_state k t m = record (new_state m) { current_key = k; current_string = t }

assignment_lem :
    (k t : Text) (m : StdMap Value) (ms : List Match)
    → is_empty k ≡ false
    → apply_all (assignment ∷ ms) (keyed_state k t m) ≡ apply_all ms (new_state (set_text k t m))
unfolding apply_all apply
assignment_lem k [] m ms h = rw h refl
assignment_lem k (c ∷ t) m ms h = rw h refl

boolean_lem :
    (k t : Text) (m : StdMap Value) (ms : List Match)
    → is_empty k ≡ false
    → apply_all (boolean t ∷ ms) (keyed_state k [] m)
      ≡ apply_all ms (keyed_state k [] (insert k (from_bool (is_true t)) m))
unfolding apply_all apply
boolean_lem k t m ms h = rw h refl

integer_lem :
    (k t : Text) (n : ℤ) (m : StdMap Value) (ms : List Match)
    → is_empty k ≡ false
    → stoll t ≡ some n
    → apply_all (integer t ∷ ms) (keyed_state k [] m)
      ≡ apply_all ms (keyed_state k [] (insert k (from_int n) m))
unfolding apply_all apply
integer_lem k t n m ms h f = rw (h, f) refl

-- The matches set what the lines say.
Sets : List Line → StdMap Value → Type 0
Sets ls m =
    let (r, s) = apply_all (all_matches ls) (new_state m) in
    (returns r ≡ (set_lines ls m).0) × (s.values ≡ (set_lines ls m).1)

-- The state after the matches of one line, which the rest of the matches goes on with.
SetsLine : Line → StdMap Value → StdMap Value → Type 0
SetsLine l m n =
    (ms : List Match) → apply_all (matches_of l ++ ms) (new_state m) ≡ apply_all ms (new_state n)

text_line-SetsLine :
    (k t : Text) (m : StdMap Value)
    → is_empty k ≡ false
    → SetsLine (text_line k t) m (set_text k (unquote t) m)
unfolding SetsLine apply_all apply
text_line-SetsLine k t m h ms = assignment_lem k (unquote t) m ms h

int_line-SetsLine :
    (k t : Text) (n : ℤ) (m : StdMap Value)
    → is_empty k ≡ false
    → stoll t ≡ some n
    → SetsLine (int_line k t) m (insert k (from_int n) m)
unfolding SetsLine apply_all apply
int_line-SetsLine k t n m h f ms =
    integer_lem k t n m (assignment ∷ ms) h f ∙ assignment_lem k [] (insert k (from_int n) m) ms h

bool_line-SetsLine :
    (k t : Text) (m : StdMap Value)
    → is_empty k ≡ false
    → SetsLine (bool_line k t) m (insert k (from_bool (is_true t)) m)
unfolding SetsLine apply_all apply
bool_line-SetsLine k t m h ms =
    boolean_lem k t m (assignment ∷ ms) h
    ∙ assignment_lem k [] (insert k (from_bool (is_true t)) m) ms h

matches-Sets : (ls : List Line) (m : StdMap Value) → All IsNamed ls → Sets ls m
unfolding Sets SetsLine apply_all apply
matches-Sets [] m h = (refl, refl)
matches-Sets (text_line k t ∷ ls) m h =
    rw (text_line-SetsLine k t m h.0 (all_matches ls))
      (matches-Sets ls (set_text k (unquote t) m) h.1)
matches-Sets (int_line k t ∷ ls) m h = elim (Option-cases (stoll t)) [
  | inl f ↦ rw (set_lines, f, h.0) (refl, refl)
  | inr (n, f) ↦
      rw (int_line-SetsLine k t n m h.0 f (all_matches ls), set_lines, f)
        (matches-Sets ls (insert k (from_int n) m) h.1)
]
matches-Sets (bool_line k t ∷ ls) m h =
    rw (bool_line-SetsLine k t m h.0 (all_matches ls))
      (matches-Sets ls (insert k (from_bool (is_true t)) m) h.1)

-- In a configuration text in which lines match that assign a value to a key, each sets its key, in
-- turn: a text is set without its quotes, unless it is empty; an integer and a Boolean are set as
-- such. Where an integer does not fit, the lines before it are set. The result is whether all of the
-- text matched and all integers fit.
pub parse_prl-lines :
    (prl : Text → Bool × List Match) (content : Text) (ls : List Line) (m : StdMap Value)
    → (prl content).1 ≡ all_matches ls
    → All IsNamed ls
    → parse_prl prl content m ≡ ((set_lines ls m).0 && (prl content).0, (set_lines ls m).1)
unfolding Sets parse_prl
parse_prl-lines prl content ls m h named = let (r, v) = matches-Sets ls m named in rw (h, r, v) refl
