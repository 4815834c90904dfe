-- ===== src/Runcom/Laws.antt =====
-- The getters and the setters of the configuration.
use passdoq.Prelude.{Bool, true, List, [], if◌then◌else◌, ◌≡◌, arith}
use passdoq.Prelude.Text.{Text, eq_text}
use passdoq.StdMap.Laws.{find-insert}
use passdoq.Runcom.{
  ℤ, Config, from_string, from_int, from_bool, from_list, get_string, get_int, get_bool, get_list,
  set_string, set_int, set_bool, set_list, has_key,
}

-- What every getter returns for the key `j`, with the defaults that it is given, and `has`.
abbrev pub Reads : Text → Text → ℤ → Bool → Config → Text → ℤ → Bool → List Text → Bool → Type 0
Reads j d i b c s n t l h =
    (get_string j d c ≡ s)
    × (get_int j i c ≡ n)
    × (get_bool j b c ≡ t)
    × (get_list j c ≡ l)
    × (has_key j c ≡ h)

-- A value for one of the four setters.
pub data Setting : Type 0 where
  some_string : Text → Setting
  some_int : ℤ → Setting
  some_bool : Bool → Setting
  some_list : List Text → Setting

abbrev pub set_one : Text → Setting → Config → Config
set_one k (some_string v) c = set_string k v c
set_one k (some_int v) c = set_int k v c
set_one k (some_bool v) c = set_bool k v c
set_one k (some_list v) c = set_list k v c

-- The value where it has the type of a getter, or the getter's default.
abbrev pub string_or : Setting → Text → Text
string_or (some_string v) d = v
string_or (some_int v) d = d
string_or (some_bool v) d = d
string_or (some_list v) d = d

abbrev pub int_or : Setting → ℤ → ℤ
int_or (some_string v) d = d
int_or (some_int v) d = v
int_or (some_bool v) d = d
int_or (some_list v) d = d

abbrev pub bool_or : Setting → Bool → Bool
bool_or (some_string v) d = d
bool_or (some_int v) d = d
bool_or (some_bool v) d = v
bool_or (some_list v) d = d

abbrev pub list_or : Setting → List Text
list_or (some_string v) = []
list_or (some_int v) = []
list_or (some_bool v) = []
list_or (some_list v) = v

module _ (k j d : Text) (i : ℤ) (b : Bool) (c : Config) where
  -- A choice between the key that was set and another key.
  abbrev at_key : {A : Type 0} → A → A → A
  at_key new old = if eq_text k j then new else old

  get-set_string :
      (v : Text)
      → Reads j d i b
          (set_string k v c)
          (at_key v (get_string j d c))
          (at_key i (get_int j i c))
          (at_key b (get_bool j b c))
          (at_key [] (get_list j c))
          (at_key true (has_key j c))
  unfolding set_string get_string get_int get_bool get_list has_key
  get-set_string v =
      let f = find-insert k j (from_string v) c.values in
      (
        ground (arith, f),
        ground (arith, f),
        ground (arith, f),
        ground (arith, f),
        ground (arith, f),
      )

  get-set_int :
      (v : ℤ)
      → Reads j d i b
          (set_int k v c)
          (at_key d (get_string j d c))
          (at_key v (get_int j i c))
          (at_key b (get_bool j b c))
          (at_key [] (get_list j c))
          (at_key true (has_key j c))
  unfolding set_int get_string get_int get_bool get_list has_key
  get-set_int v =
      let f = find-insert k j (from_int v) c.values in
      (
        ground (arith, f),
        ground (arith, f),
        ground (arith, f),
        ground (arith, f),
        ground (arith, f),
      )

  get-set_bool :
      (v : Bool)
      → Reads j d i b
          (set_bool k v c)
          (at_key d (get_string j d c))
          (at_key i (get_int j i c))
          (at_key v (get_bool j b c))
          (at_key [] (get_list j c))
          (at_key true (has_key j c))
  unfolding set_bool get_string get_int get_bool get_list has_key
  get-set_bool v =
      let f = find-insert k j (from_bool v) c.values in
      (
        ground (arith, f),
        ground (arith, f),
        ground (arith, f),
        ground (arith, f),
        ground (arith, f),
      )

  get-set_list :
      (v : List Text)
      → Reads j d i b
          (set_list k v c)
          (at_key d (get_string j d c))
          (at_key i (get_int j i c))
          (at_key b (get_bool j b c))
          (at_key v (get_list j c))
          (at_key true (has_key j c))
  unfolding set_list get_string get_int get_bool get_list has_key
  get-set_list v =
      let f = find-insert k j (from_list v) c.values in
      (
        ground (arith, f),
        ground (arith, f),
        ground (arith, f),
        ground (arith, f),
        ground (arith, f),
      )

  -- After a key is set to a value of any of the four types, its getter of the same type returns the
  -- value and the others their defaults, `has` is true, and every other key reads as before.
  pub get-set :
      (v : Setting)
      → Reads j d i b
          (set_one k v c)
          (at_key (string_or v d) (get_string j d c))
          (at_key (int_or v i) (get_int j i c))
          (at_key (bool_or v b) (get_bool j b c))
          (at_key (list_or v) (get_list j c))
          (at_key true (has_key j c))
  get-set (some_string v) = get-set_string v
  get-set (some_int v) = get-set_int v
  get-set (some_bool v) = get-set_bool v
  get-set (some_list v) = get-set_list v
