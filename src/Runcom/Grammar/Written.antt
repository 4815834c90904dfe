-- ===== src/Runcom/Grammar/Written.antt =====
-- What reading a configuration text sets that the grammar matches: from the grammar, over the
-- actions, to the values.
use passdoq.Prelude.{
  ℕ, ◌≡◌, refl, ap, ◌∙◌, Bool, true, false, ◌-◌, some, List, [], ◌∷◌, ◌++◌, if◌then◌else◌, length,
  length-append, take-length_append, arith, All, inl, inr,
}
use passdoq.Prelude.Text.{Text}
use passdoq.StdMap.{StdMap, insert}
use passdoq.Runcom.{Value, from_string}
use passdoq.Runcom.Prl.{Match, parse_prl, unquote, ends_with_quote, is_empty}
use passdoq.Runcom.Prl.Laws.{all_matches, IsNamed, set_lines, parse_prl-lines}
use passdoq.Runcom.Grammar.{eof, on_identifier, on_assignment, assignment, statement, grammar}
use passdoq.Runcom.Grammar.Peg.{Matching, PegLaws, is_space, is_letter}
use passdoq.Runcom.Grammar.Reading.{
  Written, IsWritten, key_of, quoted, line_before, written_text, lines_of, both, present, acts,
  no_ws, to_line_end, value_quoted,
}

letter-no_space : (c : ℕ) → is_letter c ≡ true → is_space c ≡ false
letter-no_space c h = ground (arith, h)

module _ {R : Matching} (laws : PegLaws R) where
  assignment_matches :
      (w : Written) (r : Text)
      → IsWritten w
      → R assignment
          (line_before w r)
          (some (35 ∷ (w.note ++ 10 ∷ 10 ∷ r)))
          (Match.identifier (key_of w) ∷ Match.string_value (quoted w.text) ∷ Match.assignment ∷ [])
  assignment_matches w r h =
      let s : Text = 35 ∷ (w.note ++ 10 ∷ 10 ∷ r) in
      let v : Text = 34 ∷ (w.text ++ 34 ∷ s) in
      let e : line_before w r ≡ key_of w ++ 61 ∷ v = refl in
      let named =
        acts laws on_identifier (key_of w) e
          (laws.identifier_matches w.first 61 w.rest v h.letter h.names refl) in
      let body = both laws named (
        both laws (no_ws laws 61 v refl) (
          both laws (laws.one_matches 61 v) (
            both laws (no_ws laws 34 (w.text ++ 34 ∷ s) refl)
              (value_quoted laws w.text s h.plain)))) in
      let (x, f) = laws.takes _ (line_before w r) s _ body in acts laws on_assignment x f body

  statement_matches :
      (w : Written) (r : Text)
      → IsWritten w
      → R statement (line_before w r) (some r) (all_matches (lines_of (w ∷ [])))
  statement_matches w r h =
      let below : Text = 10 ∷ r in
      let s : Text = w.note ++ 10 ∷ below in
      let noted = both laws (laws.one_matches 35 s) (to_line_end laws w.note below h.inline) in
      both laws (no_ws laws w.first _ (letter-no_space w.first h.letter)) (
        both laws (present laws (assignment_matches w r h))
          (both laws (no_ws laws 35 s refl) (both laws (present laws noted) (laws.eol_matches r))))

  pub grammar_matches :
      (l : List Written)
      → All IsWritten l
      → R grammar (written_text l) (some []) (all_matches (lines_of l))
  grammar_matches [] h =
      (laws.until_lem eof statement [] (some []) []).1 (inl ([], laws.eof_matches, refl))
  grammar_matches (w ∷ l) h =
      let r = written_text l in
      (laws.until_lem eof statement (line_before w r) (some []) (all_matches (lines_of (w ∷ l)))).1
        (inr (
          [],
          laws.eof_fails w.first _,
          inl (r, _, _, statement_matches w r h.0, grammar_matches l h.1, refl),
        ))

ends_with_quote-append : (t : Text) → ends_with_quote (t ++ 34 ∷ []) ≡ true
unfolding ends_with_quote
ends_with_quote-append [] = refl
ends_with_quote-append (c ∷ []) = refl
ends_with_quote-append (c ∷ d ∷ t) = ends_with_quote-append (d ∷ t)

ends_with_quote-quoted : (t : Text) → ends_with_quote (quoted t) ≡ true
ends_with_quote-quoted t = ends_with_quote-append (34 ∷ t)

length-quoted : (t : Text) → length (quoted t) - 2 ≡ length t
length-quoted t = omega (arith, length-append t (34 ∷ []))

unquote-quoted : (t : Text) → unquote (quoted t) ≡ t
unfolding unquote
unquote-quoted t = rw (ends_with_quote-quoted t, length-quoted t) (take-length_append t (34 ∷ []))

-- What the lines set: each its text under its key, unless the text is empty.
abbrev pub read_texts : List Written → StdMap Value → StdMap Value
read_texts [] values = values
read_texts (w ∷ l) values =
    read_texts l (if is_empty w.text then values else insert (key_of w) (from_string w.text) values)

lines_of-IsNamed : (l : List Written) → All IsNamed (lines_of l)
lines_of-IsNamed [] = tt
lines_of-IsNamed (w ∷ l) = (refl, lines_of-IsNamed l)

set_lines-lines_of :
    (l : List Written) (values : StdMap Value)
    → set_lines (lines_of l) values ≡ (true, read_texts l values)
set_lines-lines_of [] values = refl
set_lines-lines_of (w ∷ l) values =
    rw (set_lines, unquote-quoted w.text)
      (set_lines-lines_of l
        (if is_empty w.text then values else insert (key_of w) (from_string w.text) values))

-- Where PEGTL does what is documented, and `prl` tells that a text matches, and with which actions,
-- where the grammar does: a configuration text in which each line assigns a text in quotes to a name, with a comment
-- and an empty line behind it, is read without an error, and sets each key to its text without the quotes, in
-- turn; an empty text is not set. The texts have no quotes in them and the comments no end of a line.
pub parse_prl-written :
    {R : Matching} (laws : PegLaws R) (prl : Text → Bool × List Match)
    → (l : List Written) (values : StdMap Value)
    → ((u : Text) (m : List Match)
        → R grammar (written_text l) (some u) m
        → prl (written_text l) ≡ (true, m))
    → All IsWritten l
    → parse_prl prl (written_text l) values ≡ (true, read_texts l values)
parse_prl-written laws prl l values agrees h =
    let e = agrees [] _ (grammar_matches laws l h) in
    parse_prl-lines prl (written_text l) (lines_of l) values (ap (λ p. p.1) e) (lines_of-IsNamed l)
    ∙ rw (set_lines-lines_of l values, e) refl
