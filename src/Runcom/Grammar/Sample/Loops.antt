-- ===== src/Runcom/Grammar/Sample/Loops.antt =====
-- The loops of the sample, and so all its matchers, take a part of the text and have one outcome at
-- most.
use passdoq.Prelude.{
  ℕ, ◌≡◌, refl, ap, ◌∙◌, sym, subst, Bool, true, Option, none, some, List, [], ◌∷◌, ◌++◌, arith,
}
use passdoq.Prelude.Text.{Text}
use passdoq.Runcom.Prl.{Match}
use passdoq.Runcom.Grammar.{
  Rule, one, not_one, string, space, digit, peg_identifier, eol, eof, eolf, seq, sor, star, plus,
  opt, until_end, until, list, with_action,
}
use passdoq.Runcom.Grammar.Sample.{
  Matcher, by, Star, stop, again, Until, found, further, stuck, char_of, text_of, end_of, line_end,
  peg_matches,
}
use passdoq.Runcom.Grammar.Sample.Exact.{
  IsExact, no_clash, same_rest, joined, compose, by-IsExact, and_then-IsExact, or_else-IsExact,
  or_nothing-IsExact, called-IsExact,
}

Star-takes :
    (A : Matcher)
    → IsExact A
    → (t : Text) (o : Option Text) (m : List Match) → Star A t o m
    → (u : Text) → o ≡ some u
    → (w : Text) × (t ≡ w ++ u)
Star-takes A a t o m (stop f e) u h = let g : t ≡ u = cc in ([], g)
Star-takes A a t o m (again v k l f s _) u h =
    let (w, e) = a.takes t v k f in
    let (x, g) = Star-takes A a v o l s u h in (w ++ x, compose t v u w x e g)

Star-one :
    (A : Matcher)
    → IsExact A
    → (t : Text) (o : Option Text) (m : List Match) → Star A t o m
    → (q : Option Text) (n : List Match) → Star A t q n
    → (o ≡ q) × (m ≡ n)
Star-one A a t o m (stop f e) q n (stop g h) = (e ∙ sym h, (a.one_outcome t none none m n f g).1)
Star-one A a t o m (stop f e) q n (again u k l g s _) = absurd (no_clash A a t u k m g f)
Star-one A a t o m (again u k l f s _) q n (stop g h) = absurd (no_clash A a t u k n f g)
Star-one A a t o m (again u k l f s e) q n (again v i j g r h) =
    let (b, c) = same_rest A a t u v k i f g in
    let (x, y) = Star-one A a u o l s q j (subst (λ z. Star A z q j) (sym b) r) in
    (x, e ∙ joined k l i j c y ∙ sym h)

Star-IsExact : (A : Matcher) → IsExact A → IsExact (Star A)
Star-IsExact A a = record {
  takes = λ t u m s. Star-takes A a t (some u) m s u refl;
  one_outcome = λ t o q m n r s. Star-one A a t o m r q n s;
}

Until-takes :
    (C A : Matcher)
    → IsExact C
    → IsExact A
    → (t : Text) (o : Option Text) (m : List Match) → Until C A t o m
    → (u : Text) → o ≡ some u
    → (w : Text) × (t ≡ w ++ u)
Until-takes C A c a t o m (found v f e) u h =
    let g : v ≡ u = cc in c.takes t u m (subst (λ y. C t (some y) m) g f)
Until-takes C A c a t o m (further v j k l _ f s _) u h =
    let (w, e) = a.takes t v k f in
    let (x, g) = Until-takes C A c a v o l s u h in (w ++ x, compose t v u w x e g)
Until-takes C A c a t o m (stuck j k _ _ e _) u h = absurd cc

Until-one :
    (C A : Matcher)
    → IsExact C
    → IsExact A
    → (t : Text) (o : Option Text) (m : List Match) → Until C A t o m
    → (q : Option Text) (n : List Match) → Until C A t q n
    → (o ≡ q) × (m ≡ n)
Until-one C A c a t o m (found u f e) q n (found v g h) =
    let (x, y) = same_rest C c t u v m n f g in (e ∙ ap some x ∙ sym h, y)
Until-one C A c a t o m (found u f e) q n (further v j k l g _ _ _) =
    absurd (no_clash C c t u m j f g)
Until-one C A c a t o m (found u f e) q n (stuck j k g _ _ _) = absurd (no_clash C c t u m j f g)
Until-one C A c a t o m (further u j k l f _ _ _) q n (found v g h) =
    absurd (no_clash C c t v n j g f)
Until-one C A c a t o m (further u j k l f g s e) q n (further v j' k' l' f' g' s' e') =
    let (x, y) = same_rest A a t u v k k' g g' in
    let (z, w) = Until-one C A c a u o l s q l' (subst (λ r. Until C A r q l') (sym x) s') in
    let b = (c.one_outcome t none none j j' f f').1 in
    (z, e ∙ joined j (k ++ l) j' (k' ++ l') b (joined k l k' l' y w) ∙ sym e')
Until-one C A c a t o m (further u j k l f g _ _) q n (stuck i h _ b _ _) =
    absurd (no_clash A a t u k h g b)
Until-one C A c a t o m (stuck j k f _ _ _) q n (found v g h) = absurd (no_clash C c t v n j g f)
Until-one C A c a t o m (stuck i h _ b _ _) q n (further u j k l f g _ _) =
    absurd (no_clash A a t u k h g b)
Until-one C A c a t o m (stuck j k f g e h) q n (stuck j' k' f' g' e' h') =
    let b = (c.one_outcome t none none j j' f f').1 in
    let d = (a.one_outcome t none none k k' g g').1 in
    (e ∙ sym e', h ∙ joined j k j' k' b d ∙ sym h')

Until-IsExact : (C A : Matcher) → IsExact C → IsExact A → IsExact (Until C A)
Until-IsExact C A c a = record {
  takes = λ t u m s. Until-takes C A c a t (some u) m s u refl;
  one_outcome = λ t o q m n r s. Until-one C A c a t o m r q n s;
}

char-IsExact : (p : ℕ → Bool) → IsExact (by (char_of p))
char-IsExact p = by-IsExact (char_of p) go
  where
    go : (t u : Text) → char_of p t ≡ some u → (w : Text) × (t ≡ w ++ u)
    go [] u e = absurd cc
    go (c ∷ t) u e = (c ∷ [], ground (arith, e))

text-IsExact : (s : Text) → IsExact (by (text_of s))
text-IsExact s = by-IsExact (text_of s) (go s)
  where
    go : (s t u : Text) → text_of s t ≡ some u → (w : Text) × (t ≡ w ++ u)
    go [] t u e = ([], cc)
    go (c ∷ s) [] u e = absurd cc
    go (c ∷ s) (d ∷ t) u e = let (w, f) = go s t u (ground (arith, e)) in (d ∷ w, ground (arith, f))

end-IsExact : IsExact (by end_of)
end-IsExact = by-IsExact end_of go
  where
    go : (t u : Text) → end_of t ≡ some u → (w : Text) × (t ≡ w ++ u)
    go [] u e = ([], cc)
    go (c ∷ t) u e = absurd cc

line_end-IsExact : IsExact line_end
line_end-IsExact =
    or_else-IsExact _ _ (char-IsExact _) (and_then-IsExact _ _ (char-IsExact _) (char-IsExact _))

pub peg_matches-IsExact : (r : Rule) → IsExact (peg_matches r)
peg_matches-IsExact (one c) = char-IsExact _
peg_matches-IsExact (not_one l) = char-IsExact _
peg_matches-IsExact (string s) = text-IsExact s
peg_matches-IsExact space = char-IsExact _
peg_matches-IsExact digit = char-IsExact _
peg_matches-IsExact peg_identifier =
    and_then-IsExact _ _ (char-IsExact _) (Star-IsExact _ (char-IsExact _))
peg_matches-IsExact eol = line_end-IsExact
peg_matches-IsExact eof = end-IsExact
peg_matches-IsExact eolf = or_else-IsExact _ _ end-IsExact line_end-IsExact
peg_matches-IsExact (seq a b) = and_then-IsExact _ _ (peg_matches-IsExact a) (peg_matches-IsExact b)
peg_matches-IsExact (sor a b) = or_else-IsExact _ _ (peg_matches-IsExact a) (peg_matches-IsExact b)
peg_matches-IsExact (star a) = Star-IsExact _ (peg_matches-IsExact a)
peg_matches-IsExact (plus a) =
    and_then-IsExact _ _ (peg_matches-IsExact a) (Star-IsExact _ (peg_matches-IsExact a))
peg_matches-IsExact (opt a) = or_nothing-IsExact _ (peg_matches-IsExact a)
peg_matches-IsExact (until_end c) =
    Until-IsExact _ _ (peg_matches-IsExact c) (char-IsExact (λ x. true))
peg_matches-IsExact (until c a) = Until-IsExact _ _ (peg_matches-IsExact c) (peg_matches-IsExact a)
peg_matches-IsExact (list a s p) =
    let blanks = Star-IsExact _ (peg_matches-IsExact p) in
    let pad = and_then-IsExact _ _ blanks (and_then-IsExact _ _ (peg_matches-IsExact s) blanks) in
    and_then-IsExact _ _ (peg_matches-IsExact a)
      (Star-IsExact _ (and_then-IsExact _ _ pad (peg_matches-IsExact a)))
peg_matches-IsExact (with_action x a) = called-IsExact x _ (peg_matches-IsExact a)
