-- ===== src/Runcom/Grammar/Laws.antt =====
-- Which texts the grammar matches: a statement has to have a comment.
use passdoq.Prelude.{
  Option, ◌≡◌, ◌≢◌, ◌⊎◌, inl, inr, ap, ◌∙◌, sym, subst, append_assoc, Bool, true, false, none, some,
  List, [], ◌∷◌, ◌++◌, arith,
}
use passdoq.Prelude.Text.{Text}
use passdoq.StdMap.{StdMap}
use passdoq.Runcom.{Value}
use passdoq.Runcom.Prl.{Match, parse_prl}
use passdoq.Runcom.Grammar.{
  Rule, space, eol, eof, seq, opt, ws, comment, assignment, statement, grammar, until_end, eolf,
  one,
}
use passdoq.Runcom.Grammar.Peg.{Matching, PegLaws}

-- The text `v` begins behind an end of line at the beginning of `y`.
abbrev pub NextLine : Text → Text → Type 0
NextLine y v = (y ≡ 10 ∷ v) ⊎ (y ≡ 13 ∷ 10 ∷ v)

-- There is a comment in the text, with its end of line, and an empty line behind it.
abbrev pub HasComment : Text → Type 0
HasComment t = (a x y v w : Text) × (t ≡ a ++ 35 ∷ (x ++ y)) × NextLine y v × NextLine v w

append-HasComment : (b t : Text) → HasComment t → HasComment (b ++ t)
append-HasComment b t (a, x, y, v, w, e, first, second) =
    let z : Text = 35 ∷ (x ++ y) in
    let f : b ++ t ≡ b ++ (a ++ z) = ap (λ q. b ++ q) e in
    let g : b ++ (a ++ z) ≡ (b ++ a) ++ z = sym (append_assoc b a z) in
    (b ++ a, x, y, v, w, f ∙ g, first, second)

no_line : (v : Text) → NextLine [] v → ⊥
no_line v (inl e) = cc
no_line v (inr e) = cc

true-not_false : true ≢ false
true-not_false e = cc

-- An outcome, whatever matches come on the way.
abbrev pub Ends : Matching → Rule → Text → Option Text → Type 0
Ends R r t o = (m : List Match) × R r t o m

module _ {R : Matching} (laws : PegLaws R) where
  -- Both parts of a sequence that matches.
  seq_both :
      (a b : Rule) (t v : Text)
      → Ends R (seq a b) t (some v)
      → (u : Text) × Ends R a t (some u) × Ends R b u (some v)
  seq_both a b t v (m, h) = elim ((laws.seq_lem a b t (some v) m).0 h) [
    | inl (u, k, l, f, g, _) ↦ (u, (k, f), (l, g))
    | inr (_, e) ↦ absurd cc
  ]

  before-HasComment : (r : Rule) (t u : Text) → Ends R r t (some u) → HasComment u → HasComment t
  before-HasComment r t u (m, f) h =
      let (w, e) = laws.takes r t u m f in subst HasComment (sym e) (append-HasComment w u h)

  comment-HasComment :
      (t u v : Text) → Ends R comment t (some u) → Ends R eol u (some v) → HasComment t
  comment-HasComment t u v c (n, ends) =
      let (q, (k, h), (l, rest)) = seq_both (one 35) (until_end eolf) t u c in
      let (x, y, j, e, last) = laws.until_end_lem eolf q u l rest in
      let found : t ≡ 35 ∷ (x ++ y) = laws.one_lem 35 t q k h ∙ ap (λ z. 35 ∷ z) e in
      let below = laws.eol_lem u v n ends in
      elim (laws.eolf_lem y u j last) [
        | inl f ↦ ([], x, y, u, v, found, inl f, below)
        | inr (inl f) ↦ ([], x, y, u, v, found, inr f, below)
        | inr (inr (_, f)) ↦ absurd (no_line v (subst (λ z. NextLine z v) f below))
      ]

  ws_stops : (t u : Text) → Ends R ws t (some u) → Ends R space u none
  ws_stops t u (m, w) =
      let (x, n, same, stops) = laws.star_stops space t (some u) m w in
      let e : u ≡ x = cc in (n, subst (λ y. R space y none n) (sym e) stops)

  -- Behind white space there is no end of a line.
  no_eol : (t u v : Text) → Ends R ws t (some u) → ¬ Ends R eol u (some v)
  no_eol t u v w (m, e) =
      let (n, stops) = ws_stops t u w in
      elim (laws.eol_lem u v m e) [
        | inl f ↦ true-not_false (laws.space_lem 10 v n (subst (λ y. R space y none n) f stops))
        | inr f ↦
            true-not_false (laws.space_lem 13 (10 ∷ v) n (subst (λ y. R space y none n) f stops))
      ]

  opt_cases : (a : Rule) (t u : Text) → Ends R (opt a) t (some u) → Ends R a t (some u) ⊎ (t ≡ u)
  opt_cases a t u (m, h) = elim ((laws.opt_lem a t (some u) m).0 h) [
    | inl (x, f, e) ↦ let g : x ≡ u = cc in inl (m, subst (λ y. R a t (some y) m) g f)
    | inr (_, e) ↦ inr cc
  ]

  statement-HasComment : (t v : Text) → Ends R statement t (some v) → HasComment t
  statement-HasComment t v m =
      let (t1, w1, m1) = seq_both ws _ t v m in
      let (t2, a2, m2) = seq_both (opt assignment) _ t1 v m1 in
      let (t3, w3, m3) = seq_both ws _ t2 v m2 in
      let (t4, c4, e4) = seq_both (opt comment) eol t3 v m3 in
      before-HasComment ws t t1 w1 (
        before-HasComment (opt assignment) t1 t2 a2 (
          before-HasComment ws t2 t3 w3 (elim (opt_cases comment t3 t4 c4) [
            | inl c ↦ comment-HasComment t3 t4 v c e4
            | inr e ↦ absurd (no_eol t2 t3 v w3 (subst (λ y. Ends R eol y (some v)) (sym e) e4))
          ])))

  -- Where PEGTL does what is documented, and `prl` tells that a text matches only where the grammar
  -- does: a text that is read without an error is empty, or has a comment with an empty line
  -- behind it.
  pub parse_prl-HasComment :
      (prl : Text → Bool × List Match) (content : Text) (values : StdMap Value)
      → ((prl content).0 ≡ true → (u : Text) × (m : List Match) × R grammar content (some u) m)
      → (parse_prl prl content values).0 ≡ true
      → (content ≡ []) ⊎ HasComment content
  unfolding parse_prl
  parse_prl-HasComment prl content values runs read =
      let (u, m, g) = runs (ground arith) in
      elim ((laws.until_lem eof statement content (some u) m).0 g) [
        | inl (v, e, _) ↦ inl (laws.eof_lem content v m e)
        | inr (_, _, inl (v, k, _, f, _, _)) ↦ inr (statement-HasComment content v (k, f))
        | inr (_, _, inr (_, _, e, _)) ↦ absurd cc
      ]
