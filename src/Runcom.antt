-- ===== src/Runcom.antt =====
-- src/runcom.cpp and src/runcom.hpp: the configuration store, the parse of a text into it, and its
-- files.
pub mod Files
pub mod Grammar
pub mod Laws
pub mod Prl
pub mod Typed
use passdoq.Prelude.{
  ℕ, Bool, true, false, Option, none, some, List, [], ◌∷◌, ◌++◌, if◌then◌else◌, is_set,
}
use passdoq.Prelude.Text.{Text, codes}
use passdoq.StdMap.{StdMap, find, contains_key, insert, keys}

pub data ValueType : Type 0 where
  string integer boolean list : ValueType

-- The integers of an `int64_t`; `negsuc n` is `- (n + 1)`.
pub data ℤ : Type 0 where
  pos negsuc : ℕ → ℤ

pub record Value : Type 0 where
  pub type : ValueType
  pub string_value : Text
  pub int_value : ℤ
  pub bool_value : Bool
  pub list_value : List Text

-- `Value::Value`
abbrev pub default_value : Value
default_value = record {
  type = string;
  string_value = [];
  int_value = pos 0;
  bool_value = false;
  list_value = [];
}

unfoldable pub from_string : Text → Value
from_string s = record default_value { type = string; string_value = s }

unfoldable pub from_int : ℤ → Value
from_int n = record default_value { type = integer; int_value = n }

unfoldable pub from_bool : Bool → Value
from_bool b = record default_value { type = boolean; bool_value = b }

unfoldable pub from_list : List Text → Value
from_list l = record default_value { type = list; list_value = l }

pub record Config : Type 0 where
  pub values : StdMap Value
  pub loaded_files : List Text

abbrev pub new_config : Config
new_config = record { values = []; loaded_files = [] }

-- The tests of the getters, on the value that was looked up and its type.
abbrev string_if : ValueType → Text → Text → Text
string_if string v d = v
string_if _ v d = d

abbrev int_if : ValueType → ℤ → ℤ → ℤ
int_if integer v d = v
int_if _ v d = d

abbrev bool_if : ValueType → Bool → Bool → Bool
bool_if boolean v d = v
bool_if _ v d = d

abbrev list_if : ValueType → List Text → List Text
list_if list v = v
list_if _ v = []

abbrev string_of : Option Value → Text → Text
string_of none d = d
string_of (some v) d = string_if v.type v.string_value d

abbrev int_of : Option Value → ℤ → ℤ
int_of none d = d
int_of (some v) d = int_if v.type v.int_value d

abbrev bool_of : Option Value → Bool → Bool
bool_of none d = d
bool_of (some v) d = bool_if v.type v.bool_value d

abbrev list_of : Option Value → List Text
list_of none = []
list_of (some v) = list_if v.type v.list_value

unfoldable pub get_string : Text → Text → Config → Text
get_string key default_val c = string_of (find key c.values) default_val

unfoldable pub get_int : Text → ℤ → Config → ℤ
get_int key default_val c = int_of (find key c.values) default_val

unfoldable pub get_bool : Text → Bool → Config → Bool
get_bool key default_val c = bool_of (find key c.values) default_val

unfoldable pub get_list : Text → Config → List Text
get_list key c = list_of (find key c.values)

unfoldable pub set_value : Text → Value → Config → Config
set_value key value c = record c { values = insert key value c.values }

unfoldable pub set_string : Text → Text → Config → Config
unfolding set_value from_string
set_string key v c = set_value key (from_string v) c

unfoldable pub set_int : Text → ℤ → Config → Config
unfolding set_value from_int
set_int key v c = set_value key (from_int v) c

unfoldable pub set_bool : Text → Bool → Config → Config
unfolding set_value from_bool
set_bool key v c = set_value key (from_bool v) c

unfoldable pub set_list : Text → List Text → Config → Config
unfolding set_value from_list
set_list key v c = set_value key (from_list v) c

unfoldable pub has_key : Text → Config → Bool
unfolding contains_key
has_key key c = contains_key key c.values

unfoldable pub list_keys : Config → List Text
list_keys c = keys c.values
