-- ===== src/Json.antt =====
-- The values of serde_json, and cli/src/framework/canonical_json.rs.
pub mod Canonical
use sec_fa.Prelude.{ℕ, String, Bool, true, false, Option, none, some, List, [], ◌∷◌, if◌then◌else◌}
use sec_fa.Prelude.Text.{format, str_ltb}
use text.Mathlib.Text.{◌==◌}

-- A signed integer: `negsuc n` is -(n + 1).
pub data ℤ : Type 0 where
  pos : ℕ → ℤ
  negsuc : ℕ → ℤ

-- A number is an integer, or a float, which stands for the text that serde_json prints for it.
pub data Number : Type 0 where
  int : ℤ → Number
  float : String → Number

mutual
  pub data Value : Type 0 where
    null : Value
    bool : Bool → Value
    number : Number → Value
    string : String → Value
    array : Items → Value
    object : Fields → Value

  pub data Items : Type 0 where
    nil : Items
    cons : Value → Items → Items

  -- The fields of an object in the order in which they were written.
  pub data Fields : Type 0 where
    end : Fields
    field : String → Value → Fields → Fields

-- `json!` of an object whose fields are all texts.
unfoldable pub text_fields : List (String × String) → Fields
text_fields [] = end
text_fields ((k, v) ∷ rest) = field k (string v) (text_fields rest)

-- `json!` of an object.
abbrev pub fields_of : List (String × Value) → Fields
fields_of [] = end
fields_of ((k, v) ∷ rest) = field k v (fields_of rest)

abbrev pub text_object : List (String × String) → Value
text_object fs = object (text_fields fs)

unfoldable pub text_items : List String → Items
text_items [] = nil
text_items (s ∷ rest) = cons (string s) (text_items rest)

-- `json!` of a list of values.
abbrev pub value_items : List Value → Items
value_items [] = nil
value_items (v ∷ vs) = cons v (value_items vs)

-- `json!` of a list of texts, and of an optional text.
abbrev pub text_array : List String → Value
text_array xs = array (text_items xs)

abbrev pub optional : Option String → Value
optional none = null
optional (some s) = string s

unfoldable pub get_field : String → Fields → Option Value
get_field k end = none
get_field k (field j v fs) = if j == k then some v else get_field k fs

-- `Value::get` on a text.
abbrev pub get : String → Value → Option Value
get k (object fs) = get_field k fs
get k _ = none

abbrev pub as_str : Value → Option String
as_str (string s) = some s
as_str _ = none

abbrev pub as_i64 : Value → Option ℤ
as_i64 (number (int z)) = some z
as_i64 _ = none

-- `Map::insert`: the value of a key that is there is replaced in its place.
unfoldable pub insert_field : String → Value → Fields → Fields
insert_field k v end = field k v end
insert_field k v (field j w fs) = if j == k then field j v fs else field j w (insert_field k v fs)
