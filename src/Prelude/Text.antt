-- ===== src/Prelude/Text.antt =====
-- `std::string` and `std::vector<uint8_t>`: sequences of bytes, compared as `operator<` and
-- `operator==` compare them (bytes as unsigned numbers, in lexicographic order), and `find`.
use Prim.Native.Char.{code}
use Prim.Native.String.{String}
use Prim.Native.Nat.{ℕ}
use mathlib.Core.Path.{◌≡◌, refl, ap}
use mathlib.Core.Logic.{◌↔◌, inl, inr}
use mathlib.Core.Bool.{Bool, true, false, ◌&&◌, ◌||◌}
use mathlib.Core.List.{List, [], ◌∷◌, ◌++◌}
use native.Mathlib.Omega.{arith}
use passdoq.Prelude.Tests.{ltb, ◌==◌, Bool-cases}

abbrev pub Bytes : Type 0
Bytes = List ℕ

abbrev pub Text : Type 0
Text = List ℕ

-- A literal of the source.
abbrev pub codes : String → Text
codes String.[] = []
codes (String.◌∷◌ c s) = code c ∷ codes s

unfoldable pub eq_text : Text → Text → Bool
eq_text [] [] = true
eq_text [] (b ∷ t) = false
eq_text (a ∷ s) [] = false
eq_text (a ∷ s) (b ∷ t) = a == b && eq_text s t

unfoldable pub lt_text : Text → Text → Bool
lt_text [] [] = false
lt_text [] (b ∷ t) = true
lt_text (a ∷ s) [] = false
lt_text (a ∷ s) (b ∷ t) = ltb a b || (a == b && lt_text s t)

pub eq_text_iff : (s t : Text) → (eq_text s t ≡ true) ↔ (s ≡ t)
unfolding eq_text
eq_text_iff [] [] = (λ _. refl, λ _. refl)
eq_text_iff [] (b ∷ t) = (λ h. cc, λ h. cc)
eq_text_iff (a ∷ s) [] = (λ h. cc, λ h. cc)
eq_text_iff (a ∷ s) (b ∷ t) = ground (arith, eq_text_iff s t)

pub eq_text_refl : (s : Text) → eq_text s s ≡ true
eq_text_refl s = (eq_text_iff s s).1 refl

pub lt_text_irrefl : (s : Text) → lt_text s s ≡ false
unfolding lt_text
lt_text_irrefl [] = refl
lt_text_irrefl (a ∷ s) = ground (arith, lt_text_irrefl s)

pub lt_text_trans : (s t u : Text) → lt_text s t ≡ true → lt_text t u ≡ true → lt_text s u ≡ true
unfolding lt_text
lt_text_trans [] [] u h k = cc
lt_text_trans [] (b ∷ t) [] h k = cc
lt_text_trans [] (b ∷ t) (c ∷ u) h k = refl
lt_text_trans (a ∷ s) [] u h k = cc
lt_text_trans (a ∷ s) (b ∷ t) [] h k = cc
lt_text_trans (a ∷ s) (b ∷ t) (c ∷ u) h k = ground (arith, lt_text_trans s t u)

pub lt_text_total : (s t : Text) → eq_text s t ≡ false → lt_text s t ≡ false → lt_text t s ≡ true
unfolding eq_text lt_text
lt_text_total [] [] h k = cc
lt_text_total [] (b ∷ t) h k = cc
lt_text_total (a ∷ s) [] h k = refl
lt_text_total (a ∷ s) (b ∷ t) h k = ground (arith, lt_text_total s t)

-- `s.find(q) == 0`
unfoldable pub starts_with : Text → Text → Bool
starts_with [] s = true
starts_with (q ∷ qs) [] = false
starts_with (q ∷ qs) (c ∷ s) = q == c && starts_with qs s

-- `s.find(q) != npos`: `q` stands at some position of `s`.
unfoldable pub contains : Text → Text → Bool
unfolding starts_with
contains q [] = starts_with q []
contains q (c ∷ s) = starts_with q (c ∷ s) || contains q s

starts_with_append : (q s : Text) → starts_with q (q ++ s) ≡ true
unfolding starts_with
starts_with_append [] s = refl
starts_with_append (c ∷ q) s = ground (arith, starts_with_append q s)

starts_with_split : (q s : Text) → starts_with q s ≡ true → (r : Text) × (s ≡ q ++ r)
unfolding starts_with
starts_with_split [] s h = (s, refl)
starts_with_split (c ∷ q) [] h = (([]), cc)
starts_with_split (c ∷ q) (d ∷ s) h =
    let (r, e) = starts_with_split q s (ground arith) in (r, ground arith)

-- A text contains `q` exactly when it is `q` between two other texts.
pub contains-split : (q s : Text) → contains q s ≡ true → (a b : Text) × (s ≡ a ++ q ++ b)
unfolding contains
contains-split q [] h = let (b, e) = starts_with_split q [] h in ([], b, e)
contains-split q (c ∷ s) h = elim (Bool-cases (starts_with q (c ∷ s))) [
  | inl e ↦ let (b, f) = starts_with_split q (c ∷ s) e in ([], b, f)
  | inr e ↦ let (a, b, f) = contains-split q s (ground arith) in (c ∷ a, b, ap (λ t. c ∷ t) f)
]

pub contains-append : (q a b : Text) → contains q (a ++ q ++ b) ≡ true
unfolding contains
contains-append [] [] [] = refl
contains-append [] [] (x ∷ b) = refl
contains-append (c ∷ q) [] b = ground (arith, starts_with_append (c ∷ q) b)
contains-append q (c ∷ a) b = ground (arith, contains-append q a b)
