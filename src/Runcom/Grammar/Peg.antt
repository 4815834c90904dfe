-- ===== src/Runcom/Grammar/Peg.antt =====
-- What PEGTL documents of the rules that the grammar uses.
use passdoq.Prelude.{
  ℕ, ◌≡◌, ◌↔◌, ◌⊎◌, Bool, true, false, ◌||◌, ◌&&◌, Option, none, some, List, [], ◌∷◌, ◌++◌, leb,
  ◌==◌, All,
}
use passdoq.Prelude.Text.{Text, starts_with}
use passdoq.Runcom.Prl.{Match}
use passdoq.Runcom.Grammar.{
  Rule, Action, match_of, one, string, space, digit, peg_identifier, eol, eof, eolf, until_end, seq,
  sor, star, plus, opt, until, list, with_action,
}

-- `R r t (some u) ms`: the rule `r` matches at the beginning of `t` and leaves `u`; `R r t none ms`: it
-- fails. `ms` are the matches for which an action is called on the way, in turn, those within a rule
-- that fails later included. Where there is no outcome, the match does not end.
abbrev pub Matching : Type 1
Matching = Rule → Text → Option Text → List Match → Type 0

-- `space` is ASCII white space; a name begins with a letter or `_`, and goes on with digits too.
abbrev pub is_space : ℕ → Bool
is_space c = c == 32 || (leb 9 c && leb c 13)

abbrev pub is_digit : ℕ → Bool
is_digit c = leb 48 c && leb c 57

abbrev pub is_letter : ℕ → Bool
is_letter c = leb 97 c && leb c 122 || (leb 65 c && leb c 90 || c == 95)

abbrev pub is_name : ℕ → Bool
is_name c = is_letter c || is_digit c

pub record PegLaws (R : Matching) : Type 0 where
  -- A match takes a part of the text from its beginning.
  pub takes :
      (r : Rule) (t u : Text) (m : List Match) → R r t (some u) m → (w : Text) × (t ≡ w ++ u)
  -- One outcome at most.
  pub one_outcome :
      (r : Rule) (t : Text) (o q : Option Text) (m n : List Match)
      → R r t o m
      → R r t q n
      → (o ≡ q) × (m ≡ n)
  pub one_lem : (c : ℕ) (t u : Text) (m : List Match) → R (one c) t (some u) m → t ≡ c ∷ u
  pub one_matches : (c : ℕ) (t : Text) → R (one c) (c ∷ t) (some t) []
  pub one_fails : (c d : ℕ) (t : Text) → (c == d) ≡ false → R (one c) (d ∷ t) none []
  pub string_fails : (s t : Text) → starts_with s t ≡ false → R (string s) t none []
  pub space_lem : (c : ℕ) (t : Text) (m : List Match) → R space (c ∷ t) none m → is_space c ≡ false
  pub space_fails : (c : ℕ) (t : Text) → is_space c ≡ false → R space (c ∷ t) none []
  pub digit_fails : (c : ℕ) (t : Text) → is_digit c ≡ false → R digit (c ∷ t) none []
  pub identifier_matches :
      (c d : ℕ) (k t : Text)
      → is_letter c ≡ true
      → All (λ x. is_name x ≡ true) k
      → is_name d ≡ false
      → R peg_identifier (c ∷ (k ++ d ∷ t)) (some (d ∷ t)) []
  -- A line feed, or a carriage return and a line feed.
  pub eol_lem :
      (t u : Text) (m : List Match) → R eol t (some u) m → (t ≡ 10 ∷ u) ⊎ (t ≡ 13 ∷ 10 ∷ u)
  pub eol_matches : (t : Text) → R eol (10 ∷ t) (some t) []
  -- An end of a line, or the end of the text.
  pub eolf_lem :
      (t u : Text) (m : List Match)
      → R eolf t (some u) m
      → (t ≡ 10 ∷ u) ⊎ ((t ≡ 13 ∷ 10 ∷ u) ⊎ ((t ≡ []) × (u ≡ [])))
  pub eolf_matches : (t : Text) → R eolf (10 ∷ t) (some t) []
  pub eolf_fails :
      (c : ℕ) (t : Text) → (c == 10) ≡ false → (c == 13) ≡ false → R eolf (c ∷ t) none []
  pub eof_lem : (t u : Text) (m : List Match) → R eof t (some u) m → t ≡ []
  pub eof_matches : R eof [] (some []) []
  pub eof_fails : (c : ℕ) (t : Text) → R eof (c ∷ t) none []
  pub seq_lem :
      (a b : Rule) (t : Text) (o : Option Text) (m : List Match)
      → R (seq a b) t o m ↔ (
          ((u : Text) × (k : List Match) × (l : List Match) × R a t (some u) k
            × R b u o l
            × (m ≡ k ++ l))
          ⊎ (R a t none m × (o ≡ none)))
  -- The second rule is tried where the first one fails.
  pub sor_lem :
      (a b : Rule) (t : Text) (o : Option Text) (m : List Match)
      → R (sor a b) t o m ↔ (
          ((u : Text) × R a t (some u) m × (o ≡ some u))
          ⊎ ((k : List Match) × (l : List Match) × R a t none k × R b t o l × (m ≡ k ++ l)))
  pub opt_lem :
      (a : Rule) (t : Text) (o : Option Text) (m : List Match)
      → R (opt a) t o m
        ↔ (((u : Text) × R a t (some u) m × (o ≡ some u)) ⊎ (R a t none m × (o ≡ some t)))
  -- `star` matches its rule until it fails, and does not fail.
  pub star_stops :
      (a : Rule) (t : Text) (o : Option Text) (m : List Match)
      → R (star a) t o m
      → (u : Text) × (n : List Match) × (o ≡ some u) × R a u none n
  pub star_ends : (a : Rule) (t : Text) (m : List Match) → R a t none m → R (star a) t (some t) m
  pub plus_fails : (a : Rule) (t : Text) (m : List Match) → R a t none m → R (plus a) t none m
  -- `until` of one rule takes what there is before the rule matches, and its match.
  pub until_end_lem :
      (c : Rule) (t u : Text) (m : List Match)
      → R (until_end c) t (some u) m
      → (x : Text) × (y : Text) × (n : List Match) × (t ≡ x ++ y) × R c y (some u) n
  pub until_end_found :
      (c : Rule) (t u : Text) (m : List Match) → R c t (some u) m → R (until_end c) t (some u) m
  pub until_end_further :
      (c : Rule) (d : ℕ) (t : Text) (o : Option Text) (m : List Match)
      → R c (d ∷ t) none []
      → R (until_end c) t o m
      → R (until_end c) (d ∷ t) o m
  pub until_lem :
      (c a : Rule) (t : Text) (o : Option Text) (m : List Match)
      → R (until c a) t o m ↔ (
          ((u : Text) × R c t (some u) m × (o ≡ some u))
          ⊎ ((j : List Match) × R c t none j
              × (((u : Text) × (k : List Match) × (l : List Match) × R a t (some u) k
                    × R (until c a) u o l
                    × (m ≡ j ++ (k ++ l)))
                  ⊎ ((k : List Match) × R a t none k × (o ≡ none) × (m ≡ j ++ k)))))
  -- `list<R, S, P>` is `seq<R, star<pad<S, P>, R>>`, and `pad<S, P>` is `seq<star<P>, S, star<P>>`.
  pub list_lem :
      (a s p : Rule) (t : Text) (o : Option Text) (m : List Match)
      → R (list a s p) t o m ↔ R (seq a (star (seq (seq (star p) (seq s (star p))) a))) t o m
  -- The action is called with the part of the text that its rule took.
  pub action_lem :
      (x : Action) (a : Rule) (t : Text) (o : Option Text) (m : List Match)
      → R (with_action x a) t o m ↔ (
          ((w : Text) × (u : Text) × (k : List Match) × (t ≡ w ++ u)
            × R a t (some u) k
            × (o ≡ some u)
            × (m ≡ k ++ match_of x w ∷ []))
          ⊎ (R a t none m × (o ≡ none)))
