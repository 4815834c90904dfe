-- ===== src/Runcom/Grammar/Reading.antt =====
-- A configuration text that the grammar matches: lines that assign a text in quotes, each with a
-- comment and an empty line behind it.
use passdoq.Prelude.{
  ℕ, ◌≡◌, refl, ap, sym, append_assoc, true, false, ◌||◌, Option, none, some, List, [], ◌∷◌, ◌++◌,
  ◌==◌, arith, All, inl, inr,
}
use passdoq.Prelude.Text.{Text, codes, starts_with}
use passdoq.Runcom.Prl.{Match}
use passdoq.Runcom.Prl.Laws.{Line, text_line}
use passdoq.Runcom.Grammar.{
  Rule, Action, match_of, one, space, digit, eolf, until_end, seq, sor, opt, with_action,
  on_string_value, on_integer, on_boolean, on_list_value, ws, integer, boolean, value,
}
use passdoq.Runcom.Grammar.Peg.{Matching, PegLaws, is_space, is_letter, is_name}

-- A key (its first character and the others), a text and a comment.
pub record Written : Type 0 where
  pub first : ℕ
  pub rest : Text
  pub text : Text
  pub note : Text

abbrev pub key_of : Written → Text
key_of w = w.first ∷ w.rest

-- The text in its quotes.
abbrev pub quoted : Text → Text
quoted t = 34 ∷ (t ++ 34 ∷ [])

-- The key is a name, the text has no quotes and the comment no end of a line.
pub record IsWritten (w : Written) : Type 0 where
  pub letter : is_letter w.first ≡ true
  pub names : All (λ c. is_name c ≡ true) w.rest
  pub plain : All (λ c. (34 == c) ≡ false) w.text
  pub inline : All (λ c. (c == 10 || c == 13) ≡ false) w.note

-- `key="text"#note`, and an empty line.
abbrev pub line_before : Written → Text → Text
line_before w r = w.first ∷ (w.rest ++ 61 ∷ 34 ∷ (w.text ++ 34 ∷ 35 ∷ (w.note ++ 10 ∷ 10 ∷ r)))

abbrev pub written_text : List Written → Text
written_text [] = []
written_text (w ∷ l) = line_before w (written_text l)

abbrev pub lines_of : List Written → List Line
lines_of [] = []
lines_of (w ∷ l) = text_line (key_of w) (quoted w.text) ∷ lines_of l

module _ {R : Matching} (laws : PegLaws R) where
  pub both :
      {a b : Rule} {t u : Text} {o : Option Text} {k l : List Match}
      → R a t (some u) k
      → R b u o l
      → R (seq a b) t o (k ++ l)
  both {a} {b} {t} {u} {o} {k} {l} f g =
      (laws.seq_lem a b t o (k ++ l)).1 (inl (u, k, l, f, g, refl))

  first_fails : {a b : Rule} {t : Text} {m : List Match} → R a t none m → R (seq a b) t none m
  first_fails {a} {b} {t} {m} f = (laws.seq_lem a b t none m).1 (inr (f, refl))

  other :
      {a b : Rule} {t : Text} {o : Option Text} {k l : List Match}
      → R a t none k
      → R b t o l
      → R (sor a b) t o (k ++ l)
  other {a} {b} {t} {o} {k} {l} f g = (laws.sor_lem a b t o (k ++ l)).1 (inr (k, l, f, g, refl))

  left : {a b : Rule} {t u : Text} {m : List Match} → R a t (some u) m → R (sor a b) t (some u) m
  left {a} {b} {t} {u} {m} f = (laws.sor_lem a b t (some u) m).1 (inl (u, f, refl))

  pub present : {a : Rule} {t u : Text} {m : List Match} → R a t (some u) m → R (opt a) t (some u) m
  present {a} {t} {u} {m} f = (laws.opt_lem a t (some u) m).1 (inl (u, f, refl))

  absent : {a : Rule} {t : Text} {m : List Match} → R a t none m → R (opt a) t (some t) m
  absent {a} {t} {m} f = (laws.opt_lem a t (some t) m).1 (inr (f, refl))

  pub acts :
      {a : Rule} {t u : Text} {k : List Match} (x : Action) (w : Text)
      → t ≡ w ++ u
      → R a t (some u) k
      → R (with_action x a) t (some u) (k ++ match_of x w ∷ [])
  acts {a} {t} {u} {k} x w e f =
      (laws.action_lem x a t (some u) (k ++ match_of x w ∷ [])).1 (inl (w, u, k, e, f, refl, refl))

  fails :
      {a : Rule} {t : Text} {m : List Match} (x : Action)
      → R a t none m
      → R (with_action x a) t none m
  fails {a} {t} {m} x f = (laws.action_lem x a t none m).1 (inr (f, refl))

  pub no_ws : (c : ℕ) (t : Text) → is_space c ≡ false → R ws (c ∷ t) (some (c ∷ t)) []
  no_ws c t e = laws.star_ends space (c ∷ t) [] (laws.space_fails c t e)

  to_quote :
      (v s : Text)
      → All (λ c. (34 == c) ≡ false) v
      → R (until_end (one 34)) (v ++ 34 ∷ s) (some s) []
  to_quote [] s h = laws.until_end_found (one 34) (34 ∷ s) s [] (laws.one_matches 34 s)
  to_quote (c ∷ v) s h =
      laws.until_end_further (one 34) c (v ++ 34 ∷ s) (some s) []
        (laws.one_fails 34 c (v ++ 34 ∷ s) h.0) (to_quote v s h.1)

  pub to_line_end :
      (x s : Text)
      → All (λ c. (c == 10 || c == 13) ≡ false) x
      → R (until_end eolf) (x ++ 10 ∷ s) (some s) []
  to_line_end [] s h = laws.until_end_found eolf (10 ∷ s) s [] (laws.eolf_matches s)
  to_line_end (c ∷ x) s h =
      laws.until_end_further eolf c (x ++ 10 ∷ s) (some s) []
        (laws.eolf_fails c (x ++ 10 ∷ s) (ground (arith, h.0)) (ground (arith, h.0)))
        (to_line_end x s h.1)

  no_boolean : (t : Text) → R boolean (34 ∷ t) none []
  unfolding starts_with
  no_boolean t = fails on_boolean (
      other (laws.string_fails (codes "true") (34 ∷ t) refl) (
        other (laws.string_fails (codes "false") (34 ∷ t) refl) (
          other (laws.string_fails (codes "yes") (34 ∷ t) refl) (
            other (laws.string_fails (codes "no") (34 ∷ t) refl)
              (other (laws.one_fails 49 34 t refl) (laws.one_fails 48 34 t refl))))))

  no_integer : (t : Text) → R integer (34 ∷ t) none []
  no_integer t = fails on_integer (
      both (absent (laws.one_fails 45 34 t refl))
        (laws.plus_fails digit (34 ∷ t) [] (laws.digit_fails 34 t refl)))

  pub value_quoted :
      (v s : Text)
      → All (λ c. (34 == c) ≡ false) v
      → R value (34 ∷ (v ++ 34 ∷ s)) (some s) (Match.string_value (quoted v) ∷ [])
  value_quoted v s h =
      let t : Text = v ++ 34 ∷ s in
      let e : 34 ∷ t ≡ quoted v ++ s = ap (λ x. 34 ∷ x) (sym (append_assoc v (34 ∷ []) s)) in
      other (fails on_list_value (first_fails (laws.one_fails 91 34 t refl))) (
        other (no_boolean t) (
          other (no_integer t) (
            acts on_string_value (quoted v) e
              (left (both (laws.one_matches 34 t) (to_quote v s h))))))
