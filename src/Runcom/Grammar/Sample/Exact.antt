-- ===== src/Runcom/Grammar/Sample/Exact.antt =====
-- The matchers of the sample take a part of the text, and have one outcome at most.
use passdoq.Prelude.{
  ℕ, ◌≡◌, inl, inr, refl, ap, ◌∙◌, sym, subst, append_assoc, Option, none, some, List, [], ◌∷◌,
  ◌++◌, arith, length, length-append,
}
use passdoq.Prelude.Text.{Text}
use passdoq.Runcom.Prl.{Match}
use passdoq.Runcom.Grammar.{Action, match_of}
use passdoq.Runcom.Grammar.Sample.{Matcher, by, and_then, or_else, or_nothing, called}

-- A matcher that takes a part of the text, and has one outcome at most.
pub record IsExact (A : Matcher) : Type 0 where
  pub takes : (t u : Text) (m : List Match) → A t (some u) m → (w : Text) × (t ≡ w ++ u)
  pub one_outcome :
      (t : Text) (o q : Option Text) (m n : List Match) → A t o m → A t q n → (o ≡ q) × (m ≡ n)

pub no_clash :
    (A : Matcher) → IsExact A → (t u : Text) (m n : List Match) → A t (some u) m → A t none n → ⊥
no_clash A a t u m n f g = let e = (a.one_outcome t (some u) none m n f g).0 in cc

pub same_rest :
    (A : Matcher)
    → IsExact A
    → (t u v : Text) (m n : List Match) → A t (some u) m
    → A t (some v) n
    → (u ≡ v) × (m ≡ n)
same_rest A a t u v m n f g = let (e, h) = a.one_outcome t (some u) (some v) m n f g in (cc, h)

pub joined : (k l i j : List Match) → k ≡ i → l ≡ j → k ++ l ≡ i ++ j
joined k l i j e f = ap (λ x. x ++ l) e ∙ ap (λ x. i ++ x) f

pub compose : (t u v w x : Text) → t ≡ w ++ u → u ≡ x ++ v → t ≡ (w ++ x) ++ v
compose t u v w x e f = e ∙ ap (λ y. w ++ y) f ∙ sym (append_assoc w x v)

pub by-IsExact :
    (f : Text → Option Text)
    → ((t u : Text) → f t ≡ some u → (w : Text) × (t ≡ w ++ u))
    → IsExact (by f)
by-IsExact f h = record {
  takes = λ t u m e. h t u e.0;
  one_outcome = λ t o q m n a b. (sym a.0 ∙ b.0, a.1 ∙ sym b.1);
}

pub and_then-IsExact : (A B : Matcher) → IsExact A → IsExact B → IsExact (and_then A B)
and_then-IsExact A B a b = record { takes = go; one_outcome = same }
  where
    go : (t u : Text) (m : List Match) → and_then A B t (some u) m → (w : Text) × (t ≡ w ++ u)
    go t u m (inl (v, k, l, f, g, _)) =
        let (w, e) = a.takes t v k f in
        let (x, h) = b.takes v u l g in (w ++ x, compose t v u w x e h)
    go t u m (inr (_, e)) = absurd cc

    same :
        (t : Text) (o q : Option Text) (m n : List Match)
        → and_then A B t o m
        → and_then A B t q n
        → (o ≡ q) × (m ≡ n)
    same t o q m n (inl (u, k, l, f, g, e)) (inl (v, i, j, f', g', e')) =
        let (r, s) = same_rest A a t u v k i f f' in
        let (x, y) = b.one_outcome v o q l j (subst (λ z. B z o l) r g) g' in
        (x, e ∙ joined k l i j s y ∙ sym e')
    same t o q m n (inl (u, k, l, f, g, e)) (inr (h, _)) = absurd (no_clash A a t u k n f h)
    same t o q m n (inr (h, _)) (inl (u, k, l, f, g, e)) = absurd (no_clash A a t u k m f h)
    same t o q m n (inr (f, e)) (inr (g, h)) = (e ∙ sym h, (a.one_outcome t none none m n f g).1)

pub or_else-IsExact : (A B : Matcher) → IsExact A → IsExact B → IsExact (or_else A B)
or_else-IsExact A B a b = record { takes = go; one_outcome = same }
  where
    go : (t u : Text) (m : List Match) → or_else A B t (some u) m → (w : Text) × (t ≡ w ++ u)
    go t u m (inl (v, f, e)) = let g : v ≡ u = cc in a.takes t u m (subst (λ y. A t (some y) m) g f)
    go t u m (inr (k, l, _, g, _)) = b.takes t u l g

    same :
        (t : Text) (o q : Option Text) (m n : List Match)
        → or_else A B t o m
        → or_else A B t q n
        → (o ≡ q) × (m ≡ n)
    same t o q m n (inl (u, f, e)) (inl (v, g, h)) =
        let (x, y) = a.one_outcome t (some u) (some v) m n f g in (e ∙ x ∙ sym h, y)
    same t o q m n (inl (u, f, e)) (inr (k, l, g, _, _)) = absurd (no_clash A a t u m k f g)
    same t o q m n (inr (k, l, g, _, _)) (inl (u, f, e)) = absurd (no_clash A a t u n k f g)
    same t o q m n (inr (k, l, f, g, e)) (inr (i, j, f', g', e')) =
        let (x, y) = b.one_outcome t o q l j g g' in
        (x, e ∙ joined k l i j (a.one_outcome t none none k i f f').1 y ∙ sym e')

pub or_nothing-IsExact : (A : Matcher) → IsExact A → IsExact (or_nothing A)
or_nothing-IsExact A a = record { takes = go; one_outcome = same }
  where
    go : (t u : Text) (m : List Match) → or_nothing A t (some u) m → (w : Text) × (t ≡ w ++ u)
    go t u m (inl (v, f, e)) = let g : v ≡ u = cc in a.takes t u m (subst (λ y. A t (some y) m) g f)
    go t u m (inr (_, e)) = ([], cc)

    same :
        (t : Text) (o q : Option Text) (m n : List Match)
        → or_nothing A t o m
        → or_nothing A t q n
        → (o ≡ q) × (m ≡ n)
    same t o q m n (inl (u, f, e)) (inl (v, g, h)) =
        let (x, y) = a.one_outcome t (some u) (some v) m n f g in (e ∙ x ∙ sym h, y)
    same t o q m n (inl (u, f, e)) (inr (g, _)) = absurd (no_clash A a t u m n f g)
    same t o q m n (inr (g, _)) (inl (u, f, e)) = absurd (no_clash A a t u n m f g)
    same t o q m n (inr (f, e)) (inr (g, h)) = (e ∙ sym h, (a.one_outcome t none none m n f g).1)

longer : (b : ℕ) (w u : Text) → length (b ∷ (w ++ u)) ≡ length u → ⊥
longer b w u e = omega (arith, length-append w u)

append_cancel : (v w u : Text) → v ++ u ≡ w ++ u → v ≡ w
append_cancel [] [] u e = refl
append_cancel [] (b ∷ w) u e = absurd (longer b w u (ap length (sym e)))
append_cancel (a ∷ v) [] u e = absurd (longer a v u (ap length e))
append_cancel (a ∷ v) (b ∷ w) u e =
    let h : a ≡ b = cc in let f : v ++ u ≡ w ++ u = cc in λ i. h i ∷ append_cancel v w u f i

pub called-IsExact : (x : Action) (A : Matcher) → IsExact A → IsExact (called x A)
called-IsExact x A a = record { takes = go; one_outcome = same }
  where
    go : (t u : Text) (m : List Match) → called x A t (some u) m → (w : Text) × (t ≡ w ++ u)
    go t u m (inl (w, v, k, e, f, g, h)) = let s : v ≡ u = cc in (w, e ∙ ap (λ y. w ++ y) s)
    go t u m (inr (_, e)) = absurd cc

    same :
        (t : Text) (o q : Option Text) (m n : List Match)
        → called x A t o m
        → called x A t q n
        → (o ≡ q) × (m ≡ n)
    same t o q m n (inl (w, u, k, e, f, g, h)) (inl (w', v, l, e', f', g', h')) =
        let (r, s) = same_rest A a t u v k l f f' in
        let z : w ++ v ≡ w' ++ v = ap (λ y. w ++ y) (sym r) ∙ sym e ∙ e' in
        let c = append_cancel w w' v z in
        (
          g ∙ ap some r ∙ sym g',
          h
              ∙ joined k (match_of x w ∷ []) l (match_of x w' ∷ []) s
                  (ap (λ y. match_of x y ∷ []) c)
              ∙ sym h',
        )
    same t o q m n (inl (w, u, k, e, f, g, h)) (inr (f', _)) = absurd (no_clash A a t u k n f f')
    same t o q m n (inr (f', _)) (inl (w, u, k, e, f, g, h)) = absurd (no_clash A a t u k m f f')
    same t o q m n (inr (f, e)) (inr (g, h)) = (e ∙ sym h, (a.one_outcome t none none m n f g).1)
