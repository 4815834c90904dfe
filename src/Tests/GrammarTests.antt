-- ===== src/Tests/GrammarTests.antt =====
-- The theorems on the grammar of the configuration files at concrete inputs, over the sample of PEGTL.
use passdoq.Prelude.{◌≡◌, ◌⊎◌, inl, inr, refl, ap, Bool, true, some, List, [], ◌∷◌, All}
use passdoq.Prelude.Text.{Text, codes}
use passdoq.StdMap.{insert}
use passdoq.Runcom.{from_string}
use passdoq.Runcom.Prl.{Match, parse_prl}
use passdoq.Runcom.Prl.Laws.{all_matches}
use passdoq.Runcom.Grammar.{grammar, list_item, list_value}
use passdoq.Runcom.Grammar.Reading.{Written, IsWritten, written_text, lines_of}
use passdoq.Runcom.Grammar.Written.{grammar_matches, parse_prl-written}
use passdoq.Runcom.Grammar.Sample.{stop, again, peg_matches}
use passdoq.Runcom.Grammar.Sample.Instance.{sample_peg-laws}
use passdoq.Runcom.Grammar.Laws.{HasComment, parse_prl-HasComment}
use passdoq.Runcom.Grammar.Lists.{list_value-endless}

-- `path="a b"#x` and `mode=""#`, each with an empty line.
abbrev two_lines : List Written
two_lines =
    record { first = b'p'; rest = codes "ath"; text = codes "a b"; note = codes "x" }
    ∷ record { first = b'm'; rest = codes "ode"; text = []; note = [] }
    ∷ []

two_lines-IsWritten : All IsWritten two_lines
two_lines-IsWritten = (
  record {
    letter = refl;
    names = (refl, (refl, (refl, tt)));
    plain = (refl, (refl, (refl, tt)));
    inline = (refl, tt);
  },
  (record { letter = refl; names = (refl, (refl, (refl, tt))); plain = tt; inline = tt }, tt),
)

abbrev reads : Text → Bool × List Match
reads content = (true, all_matches (lines_of two_lines))

parse_prl-written_example :
    parse_prl reads (written_text two_lines) []
    ≡ (true, (codes "path", from_string (codes "a b")) ∷ [])
unfolding insert
parse_prl-written_example =
    parse_prl-written sample_peg-laws reads two_lines []
      (λ u m h.
        ap (λ n. (true, n))
          (sample_peg-laws.one_outcome grammar (written_text two_lines) (some []) (some u) _ m
            (grammar_matches sample_peg-laws two_lines two_lines-IsWritten) h).1)
      two_lines-IsWritten

parse_prl-HasComment_example : (written_text two_lines ≡ []) ⊎ HasComment (written_text two_lines)
unfolding parse_prl
parse_prl-HasComment_example =
    parse_prl-HasComment sample_peg-laws reads (written_text two_lines) []
      (λ e. ([], _, grammar_matches sample_peg-laws two_lines two_lines-IsWritten)) refl

-- The item takes the bracket too.
item_matches : peg_matches list_item (codes "x]") (some []) (Match.string_value (codes "x]") ∷ [])
item_matches =
    let taken = inl (
      codes "]",
      [],
      [],
      (refl, refl),
      again [] [] [] (refl, refl) (stop (refl, refl) refl) refl,
      refl,
    ) in
    inl (
      codes "x]",
      [],
      _,
      stop (refl, refl) refl,
      inl (
        [],
        _,
        [],
        inl (
          codes "x]",
          [],
          [],
          refl,
          inr ([], [], inr ((refl, refl), refl), taken, refl),
          refl,
          refl,
        ),
        stop (refl, refl) refl,
        refl,
      ),
      refl,
    )

list_value-endless_example : ¬ peg_matches list_value (codes "[x]") (some []) []
list_value-endless_example =
    list_value-endless sample_peg-laws (codes "x]") [] (some [])
      (Match.string_value (codes "x]") ∷ []) [] item_matches
