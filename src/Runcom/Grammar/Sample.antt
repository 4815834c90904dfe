-- ===== src/Runcom/Grammar/Sample.antt =====
-- A small instance of what PEGTL documents: the rules as combinators of matchers.
pub mod Exact
pub mod Loops
pub mod Instance
use passdoq.Prelude.{
  ℕ, ◌≡◌, ◌⊎◌, Bool, true, false, not, ◌||◌, Option, none, some, List, [], ◌∷◌, ◌++◌, ◌==◌,
  if◌then◌else◌,
}
use passdoq.Prelude.Text.{Text}
use passdoq.Runcom.Prl.{Match}
use passdoq.Runcom.Grammar.{
  Rule, Action, match_of, one, not_one, string, space, digit, peg_identifier, eol, eof, eolf, seq,
  sor, star, plus, opt, until_end, until, list, with_action,
}
use passdoq.Runcom.Grammar.Peg.{is_space, is_digit, is_letter, is_name}

abbrev pub Matcher : Type 1
Matcher = Text → Option Text → List Match → Type 0

abbrev pub by : (Text → Option Text) → Matcher
by f t o m = (f t ≡ o) × (m ≡ [])

abbrev pub and_then : Matcher → Matcher → Matcher
and_then A B t o m =
    ((u : Text) × (k : List Match) × (l : List Match) × A t (some u) k × B u o l × (m ≡ k ++ l))
    ⊎ (A t none m × (o ≡ none))

abbrev pub or_else : Matcher → Matcher → Matcher
or_else A B t o m =
    ((u : Text) × A t (some u) m × (o ≡ some u))
    ⊎ ((k : List Match) × (l : List Match) × A t none k × B t o l × (m ≡ k ++ l))

abbrev pub or_nothing : Matcher → Matcher
or_nothing A t o m = ((u : Text) × A t (some u) m × (o ≡ some u)) ⊎ (A t none m × (o ≡ some t))

abbrev pub called : Action → Matcher → Matcher
called x A t o m =
    ((w : Text) × (u : Text) × (k : List Match) × (t ≡ w ++ u)
      × A t (some u) k
      × (o ≡ some u)
      × (m ≡ k ++ match_of x w ∷ []))
    ⊎ (A t none m × (o ≡ none))

pub data Star (A : Matcher) : Text → Option Text → List Match → Type 0 where
  stop : {t : Text} {o : Option Text} {m : List Match} → A t none m → o ≡ some t → Star A t o m
  again :
      {t : Text} {o : Option Text} {m : List Match} (u : Text) (k l : List Match)
      → A t (some u) k
      → Star A u o l
      → m ≡ k ++ l
      → Star A t o m

pub data Until (C A : Matcher) : Text → Option Text → List Match → Type 0 where
  found :
      {t : Text} {o : Option Text} {m : List Match} (u : Text)
      → C t (some u) m
      → o ≡ some u
      → Until C A t o m
  further :
      {t : Text} {o : Option Text} {m : List Match} (u : Text) (j k l : List Match)
      → C t none j
      → A t (some u) k
      → Until C A u o l
      → m ≡ j ++ (k ++ l)
      → Until C A t o m
  stuck :
      {t : Text} {o : Option Text} {m : List Match} (j k : List Match)
      → C t none j
      → A t none k
      → o ≡ none
      → m ≡ j ++ k
      → Until C A t o m

abbrev pub char_of : (ℕ → Bool) → Text → Option Text
char_of p [] = none
char_of p (c ∷ t) = if p c then some t else none

abbrev pub text_of : Text → Text → Option Text
text_of [] t = some t
text_of (c ∷ s) [] = none
text_of (c ∷ s) (d ∷ t) = let rest = text_of s t in if c == d then rest else none

abbrev pub is_one_of : List ℕ → ℕ → Bool
is_one_of [] c = false
is_one_of (d ∷ l) c = c == d || is_one_of l c

abbrev pub end_of : Text → Option Text
end_of [] = some []
end_of (c ∷ t) = none

abbrev pub line_end : Matcher
line_end =
    or_else (by (char_of (λ c. c == 10)))
      (and_then (by (char_of (λ c. c == 13))) (by (char_of (λ c. c == 10))))

abbrev pub any : Matcher
any = by (char_of (λ c. true))

abbrev pub peg_matches : Rule → Matcher
peg_matches (one c) = by (char_of (λ d. c == d))
peg_matches (not_one l) = by (char_of (λ d. not (is_one_of l d)))
peg_matches (string s) = by (text_of s)
peg_matches space = by (char_of is_space)
peg_matches digit = by (char_of is_digit)
peg_matches peg_identifier = and_then (by (char_of is_letter)) (Star (by (char_of is_name)))
peg_matches eol = line_end
peg_matches eof = by end_of
peg_matches eolf = or_else (by end_of) line_end
peg_matches (seq a b) = and_then (peg_matches a) (peg_matches b)
peg_matches (sor a b) = or_else (peg_matches a) (peg_matches b)
peg_matches (star a) = Star (peg_matches a)
peg_matches (plus a) = and_then (peg_matches a) (Star (peg_matches a))
peg_matches (opt a) = or_nothing (peg_matches a)
peg_matches (until_end c) = Until (peg_matches c) any
peg_matches (until c a) = Until (peg_matches c) (peg_matches a)
peg_matches (list a s p) =
    let pad = and_then (Star (peg_matches p)) (and_then (peg_matches s) (Star (peg_matches p))) in
    and_then (peg_matches a) (Star (and_then pad (peg_matches a)))
peg_matches (with_action x a) = called x (peg_matches a)
