-- ===== src/Runcom/Grammar/Sample/Instance.antt =====
-- The sample has the laws of Runcom/Grammar/Peg.
use passdoq.Prelude.{
  ℕ, ◌≡◌, subst, ◌⊎◌, inl, inr, refl, sym, ap, ◌∙◌, Option, none, some, List, [], ◌∷◌, ◌++◌, arith,
  true, false, ◌==◌, All, Bool,
}
use passdoq.Prelude.Text.{Text, starts_with}
use passdoq.Runcom.Prl.{Match}
use passdoq.Runcom.Grammar.{peg_identifier}
use passdoq.Runcom.Grammar.Peg.{PegLaws, is_space, is_digit, is_letter, is_name}
use passdoq.Runcom.Grammar.Sample.{
  Matcher, by, or_else, Star, stop, again, Until, found, further, stuck, char_of, text_of, end_of,
  line_end, any, peg_matches,
}
use passdoq.Runcom.Grammar.Sample.Loops.{peg_matches-IsExact}

char_lem : (c : ℕ) (t u : Text) → char_of (λ d. c == d) t ≡ some u → t ≡ c ∷ u
char_lem c [] u e = absurd cc
char_lem c (d ∷ t) u e = ground arith

text_of-fails : (s t : Text) → starts_with s t ≡ false → text_of s t ≡ none
unfolding starts_with
text_of-fails [] t e = absurd cc
text_of-fails (c ∷ s) [] e = refl
text_of-fails (c ∷ s) (d ∷ t) e = ground (arith, text_of-fails s t)

char_at : (c : ℕ) (t u : Text) → char_of (λ d. d == c) t ≡ some u → t ≡ c ∷ u
char_at c [] u e = absurd cc
char_at c (d ∷ t) u e = ground arith

char_matches : (p : ℕ → Bool) (c : ℕ) (t : Text) → p c ≡ true → char_of p (c ∷ t) ≡ some t
char_matches p c t e = rw e refl

char_fails : (p : ℕ → Bool) (c : ℕ) (t : Text) → p c ≡ false → char_of p (c ∷ t) ≡ none
char_fails p c t e = rw e refl

space_lem : (c : ℕ) (t : Text) → char_of is_space (c ∷ t) ≡ none → is_space c ≡ false
space_lem c t e = ground arith

eol_lem : (t u : Text) (m : List Match) → line_end t (some u) m → (t ≡ 10 ∷ u) ⊎ (t ≡ 13 ∷ 10 ∷ u)
eol_lem t u m (inl (v, f, e)) = inl (char_at 10 t u (f.0 ∙ sym e))
eol_lem t u m (inr (k, l, f, inl (v, i, j, g, h, _), _)) =
    inr (char_at 13 t v g.0 ∙ ap (λ x. 13 ∷ x) (char_at 10 v u h.0))
eol_lem t u m (inr (k, l, f, inr (_, e), _)) = absurd cc

eol_matches : (t : Text) → line_end (10 ∷ t) (some t) []
eol_matches t = inl (t, (refl, refl), refl)

end_lem : (t u : Text) → end_of t ≡ some u → (t ≡ []) × (u ≡ [])
end_lem [] u e = (refl, cc)
end_lem (c ∷ t) u e = absurd cc

eolf_lem :
    (t u : Text) (m : List Match)
    → or_else (by end_of) line_end t (some u) m
    → (t ≡ 10 ∷ u) ⊎ ((t ≡ 13 ∷ 10 ∷ u) ⊎ ((t ≡ []) × (u ≡ [])))
eolf_lem t u m (inl (v, f, e)) = inr (inr (end_lem t u (f.0 ∙ sym e)))
eolf_lem t u m (inr (k, l, _, g, _)) = elim (eol_lem t u l g) [
  | inl e ↦ inl e
  | inr e ↦ inr (inl e)
]

eolf_fails :
    (c : ℕ) (t : Text)
    → (c == 10) ≡ false
    → (c == 13) ≡ false
    → or_else (by end_of) line_end (c ∷ t) none []
eolf_fails c t e f =
    let lf = char_fails (λ d. d == 10) c t e in
    let cr = char_fails (λ d. d == 13) c t f in
    inr ([], [], (refl, refl), inr ([], [], (lf, refl), inr ((cr, refl), refl), refl), refl)

names :
    (d : ℕ) (k t : Text)
    → All (λ x. is_name x ≡ true) k
    → is_name d ≡ false
    → Star (by (char_of is_name)) (k ++ d ∷ t) (some (d ∷ t)) []
names d [] t h e = stop (char_fails is_name d t e, refl) refl
names d (c ∷ k) t h e =
    again (k ++ d ∷ t) [] [] (char_matches is_name c (k ++ d ∷ t) h.0, refl) (names d k t h.1 e)
      refl

identifier_matches :
    (c d : ℕ) (k t : Text)
    → is_letter c ≡ true
    → All (λ x. is_name x ≡ true) k
    → is_name d ≡ false
    → peg_matches peg_identifier (c ∷ (k ++ d ∷ t)) (some (d ∷ t)) []
identifier_matches c d k t e h f =
    inl (k ++ d ∷ t, [], [], (char_matches is_letter c (k ++ d ∷ t) e, refl), names d k t h f, refl)

Star-stops :
    (A : Matcher) (t : Text) (o : Option Text) (m : List Match)
    → Star A t o m
    → (u : Text) × (n : List Match) × (o ≡ some u) × A u none n
Star-stops A t o m (stop f e) = (t, m, e, f)
Star-stops A t o m (again u k l f s e) = Star-stops A u o l s

any_takes : (t v : Text) (m : List Match) → any t (some v) m → (c : ℕ) × (t ≡ c ∷ v)
any_takes [] v m e = absurd (ground (arith, e.0))
any_takes (c ∷ t) v m (e, _) = (c, cc)

until_end_lem :
    (C : Matcher) (t : Text) (o : Option Text) (m : List Match)
    → Until C any t o m
    → (u : Text) → o ≡ some u
    → (x : Text) × (y : Text) × (n : List Match) × (t ≡ x ++ y) × C y (some u) n
until_end_lem C t o m (found v f e) u h =
    let g : v ≡ u = cc in ([], t, m, refl, subst (λ z. C t (some z) m) g f)
until_end_lem C t o m (further v j k l n f s _) u h =
    let (c, e) = any_takes t v k f in
    let (x, y, i, g, a) = until_end_lem C v o l s u h in (c ∷ x, y, i, e ∙ ap (λ z. c ∷ z) g, a)
until_end_lem C t o m (stuck _ _ _ _ e _) u h = absurd cc

-- The cases of `until`.
UntilCases : Matcher → Matcher → Text → Option Text → List Match → Type 0
UntilCases C A t o m =
    ((u : Text) × C t (some u) m × (o ≡ some u))
    ⊎ ((j : List Match) × C t none j
        × (((u : Text) × (k : List Match) × (l : List Match) × A t (some u) k
              × Until C A u o l
              × (m ≡ j ++ (k ++ l)))
            ⊎ ((k : List Match) × A t none k × (o ≡ none) × (m ≡ j ++ k))))

Until-into :
    (C A : Matcher) (t : Text) (o : Option Text) (m : List Match)
    → Until C A t o m
    → UntilCases C A t o m
unfolding UntilCases
Until-into C A t o m (found u f e) = inl (u, f, e)
Until-into C A t o m (further u j k l f g s e) = inr (j, f, inl (u, k, l, g, s, e))
Until-into C A t o m (stuck j k f g e h) = inr (j, f, inr (k, g, e, h))

Until-back :
    (C A : Matcher) (t : Text) (o : Option Text) (m : List Match)
    → UntilCases C A t o m
    → Until C A t o m
unfolding UntilCases
Until-back C A t o m (inl (u, f, e)) = found u f e
Until-back C A t o m (inr (j, f, inl (u, k, l, g, s, e))) = further u j k l f g s e
Until-back C A t o m (inr (j, f, inr (k, g, e, h))) = stuck j k f g e h

pub sample_peg-laws : PegLaws peg_matches
unfolding UntilCases
sample_peg-laws = record {
  takes = λ r. (peg_matches-IsExact r).takes;
  one_outcome = λ r. (peg_matches-IsExact r).one_outcome;
  one_lem = λ c t u m e. char_lem c t u e.0;
  one_matches = λ c t. (ground arith, refl);
  one_fails = λ c d t e. (ground arith, refl);
  string_fails = λ s t e. (text_of-fails s t e, refl);
  space_lem = λ c t m e. space_lem c t e.0;
  space_fails = λ c t e. (char_fails is_space c t e, refl);
  digit_fails = λ c t e. (char_fails is_digit c t e, refl);
  identifier_matches = identifier_matches;
  eol_lem = eol_lem;
  eol_matches = eol_matches;
  eolf_lem = eolf_lem;
  eolf_matches = λ t. inr ([], [], (refl, refl), eol_matches t, refl);
  eolf_fails = eolf_fails;
  eof_lem = λ t u m e. (end_lem t u e.0).0;
  eof_matches = (refl, refl);
  eof_fails = λ c t. (refl, refl);
  seq_lem = λ a b t o m. (λ h. h, λ h. h);
  sor_lem = λ a b t o m. (λ h. h, λ h. h);
  opt_lem = λ a t o m. (λ h. h, λ h. h);
  star_stops = λ a t o m. Star-stops (peg_matches a) t o m;
  star_ends = λ a t m f. stop f refl;
  plus_fails = λ a t m f. inr (f, refl);
  until_end_lem = λ c t u m h. until_end_lem (peg_matches c) t (some u) m h u refl;
  until_end_found = λ c t u m f. found u f refl;
  until_end_further = λ c d t o m f s. further t [] [] m f (refl, refl) s refl;
  until_lem = λ c a t o m. (
    Until-into (peg_matches c) (peg_matches a) t o m,
    Until-back (peg_matches c) (peg_matches a) t o m,
  );
  list_lem = λ a s p t o m. (λ h. h, λ h. h);
  action_lem = λ x a t o m. (λ h. h, λ h. h);
}
