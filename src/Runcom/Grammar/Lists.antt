-- ===== src/Runcom/Grammar/Lists.antt =====
-- A list of the grammar is never read to its end.
use passdoq.Prelude.{[], List, ◌≡◌, inl, inr, subst, Option, none, some, ◌∷◌}
use passdoq.Prelude.Text.{Text}
use passdoq.Runcom.Grammar.{
  Rule, space, seq, star, ws, one, list, list_item, list_value, Action, with_action, on_list_value,
}
use passdoq.Runcom.Prl.{Match}
use passdoq.Runcom.Grammar.Laws.{Ends}
use passdoq.Runcom.Grammar.Peg.{Matching, PegLaws}

module _ {R : Matching} (laws : PegLaws R) where
  -- `ws` does not fail, so `star<ws>` has no end.
  endless : (t : Text) (o : Option Text) → ¬ Ends R (star ws) t o
  endless t o (m, h) =
      let (u, n, _, f) = laws.star_stops ws t o m h in
      let (v, _, e, _) = laws.star_stops space u none n f in cc

  -- The outcome of the first rule of a sequence.
  first_part :
      (a b : Rule) (t : Text) (o : Option Text)
      → Ends R (seq a b) t o
      → (q : Option Text) × Ends R a t q
  first_part a b t o (m, h) = elim ((laws.seq_lem a b t o m).0 h) [
    | inl (u, k, _, f, _, _) ↦ (some u, (k, f))
    | inr (f, _) ↦ (none, (m, f))
  ]

  -- A sequence goes on with the second rule where the first one matches.
  second_part :
      (a b : Rule) (t u : Text) (o : Option Text)
      → Ends R a t (some u)
      → Ends R (seq a b) t o
      → Ends R b u o
  second_part a b t u o (j, f) (m, h) = elim ((laws.seq_lem a b t o m).0 h) [
    | inl (v, k, l, g, rest, _) ↦
        let e = (laws.one_outcome a t (some v) (some u) k j g f).0 in
        let same : v ≡ u = cc in (l, subst (λ x. R b x o l) same rest)
    | inr (g, _) ↦ let e = (laws.one_outcome a t none (some u) m j g f).0 in cc
  ]

  within_action :
      (x : Action) (a : Rule) (t : Text) (o : Option Text)
      → Ends R (with_action x a) t o
      → (q : Option Text) × Ends R a t q
  within_action x a t o (m, h) = elim ((laws.action_lem x a t o m).0 h) [
    | inl (w, u, k, _, f, _, _) ↦ (some u, (k, f))
    | inr (f, _) ↦ (none, (m, f))
  ]

  -- Where PEGTL does what is documented: no match of a list comes to an end once its first item has
  -- matched; reading such a text does not return.
  pub list_value-endless :
      (t u : Text) (o : Option Text) (k m : List Match)
      → R list_item t (some u) k
      → ¬ R list_value (91 ∷ t) o m
  list_value-endless t u o k m item h =
      let (p, whole) = within_action on_list_value _ (91 ∷ t) o (m, h) in
      let body = second_part (one 91) _ (91 ∷ t) t p ([], laws.one_matches 91 t) whole in
      let (q, (n, l)) = first_part (list list_item (one 44) ws) _ t p body in
      let rest =
        second_part list_item _ t u q (k, item)
          (n, (laws.list_lem list_item (one 44) ws t q n).0 l) in
      let (x, j, _, stop) = laws.star_stops _ u q rest.0 rest.1 in
      let (_, pad) =
        first_part (seq (star ws) (seq (one 44) (star ws))) list_item x none (j, stop) in
      let (y, stars) = first_part (star ws) _ x _ pad in endless x y stars
