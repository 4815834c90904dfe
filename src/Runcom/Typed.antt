-- ===== src/Runcom/Typed.antt =====
-- The configuration as a store of typed values: what every getter returns after any settings.
use passdoq.Prelude.{
  ◌≡◌, ◌∙◌, refl, Bool, true, false, Option, none, some, List, [], ◌∷◌, if◌then◌else◌,
}
use passdoq.Prelude.Text.{Text, eq_text}
use passdoq.Runcom.{ℤ, Config, get_string, get_int, get_bool, get_list, has_key}
use passdoq.Runcom.Laws.{Reads, Setting, set_one, string_or, int_or, bool_or, list_or, get-set}

abbrev pub set_all : List (Text × Setting) → Config → Config
set_all [] c = c
set_all ((k, v) ∷ l) c = set_all l (set_one k v c)

abbrev pub or_last : Option Setting → Option Setting → Option Setting
or_last (some v) o = some v
or_last none o = o

-- The last value that the key was set to.
abbrev pub last_setting : Text → List (Text × Setting) → Option Setting
last_setting j [] = none
last_setting j ((k, v) ∷ l) = or_last (last_setting j l) (if eq_text k j then some v else none)

-- What is read of the last value, or what was read before where there is none.
abbrev pub read_last : {A : Type 0} → (Setting → A) → A → Option Setting → A
read_last f old none = old
read_last f old (some v) = f v

read_last_lem :
    {A : Type 0} (f : Setting → A) (old : A) (o : Option Setting) (b : Bool) (v : Setting)
    → read_last f (if b then f v else old) o
      ≡ read_last f old (or_last o (if b then some v else none))
read_last_lem f old (some w) b v = refl
read_last_lem f old none true v = refl
read_last_lem f old none false v = refl

-- After any settings, each to a value of one of the four types: for every key that was set, the
-- getter of the type of its last value returns that value, the other three getters return their
-- defaults, and `has` is true; every other key reads as before.
pub set_all-Reads :
    (j d : Text) (i : ℤ) (b : Bool) (l : List (Text × Setting)) (c : Config)
    → let o = last_setting j l in
      Reads j d i b
        (set_all l c)
        (read_last (λ v. string_or v d) (get_string j d c) o)
        (read_last (λ v. int_or v i) (get_int j i c) o)
        (read_last (λ v. bool_or v b) (get_bool j b c) o)
        (read_last (λ v. list_or v) (get_list j c) o)
        (read_last (λ v. true) (has_key j c) o)
set_all-Reads j d i b [] c = (refl, refl, refl, refl, refl)
set_all-Reads j d i b ((k, v) ∷ l) c =
    let o = last_setting j l in
    let e = eq_text k j in
    let (s, n, t, r, h) = set_all-Reads j d i b l (set_one k v c) in
    let (s', n', t', r', h') = get-set k j d i b c v in
    (
      s ∙ rw s' (read_last_lem (λ v. string_or v d) (get_string j d c) o e v),
      n ∙ rw n' (read_last_lem (λ v. int_or v i) (get_int j i c) o e v),
      t ∙ rw t' (read_last_lem (λ v. bool_or v b) (get_bool j b c) o e v),
      r ∙ rw r' (read_last_lem (λ v. list_or v) (get_list j c) o e v),
      h ∙ rw h' (read_last_lem (λ v. true) (has_key j c) o e v),
    )
