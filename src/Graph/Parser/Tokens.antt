-- ===== src/Graph/Parser/Tokens.antt =====
-- The parts of a line of a `.flow` text: `require_len`, `parse_layer`, `parse_resource`,
-- `parse_key_value`, `parse_node_role`, `parse_bool`, `parse_i64` and `parse_flow_value` of
-- cli/src/framework/graph.rs.
use Prim.Native.Char.{code}
use text.Mathlib.Text.{◌==◌}
use sec_fa.Prelude.{
  ℕ, ◌-◌, String, Bool, true, false, not, ◌||◌, Option, none, some, List, [], ◌∷◌, length, nat_eq,
  if◌then◌else◌,
}
use sec_fa.Prelude.Text.{format}
use sec_fa.Outcome.{Result, ok, err, ◌>>=◌, ◌>>◌, bail_if, context, with_context}
use sec_fa.Decimal.{decimal, parse_i64_text}
use sec_fa.Json.{ℤ, pos, Value, int, float, null, bool, number, string}
use sec_fa.Graph.{LayerSpec, ResourceSpec}
use sec_fa.Graph.Lexer.{trim, is_empty}

-- `line {line_no}: ..`
abbrev pub at_line : ℕ → List String → String
at_line line_no pieces = format ("line " ∷ decimal line_no ∷ ": " ∷ pieces)

abbrev pub head_of : List String → String
head_of [] = ""
head_of (t ∷ ts) = t

unfoldable pub require_len : List String → ℕ → ℕ → Result (Unit {0})
require_len tokens len line_no = bail_if (not (nat_eq (length tokens) len)) (
    at_line line_no ("`" ∷ head_of tokens ∷ "` expects " ∷ decimal (len - 1) ∷ " argument(s)" ∷ []))

-- `tokens[index..]` behind an optional parent: the key fields.
unfoldable pub layer_key : String → Option String → List String → ℕ → Result LayerSpec
layer_key layer parent [] line_no = err (at_line line_no ("layer requires a key field list" ∷ []))
layer_key layer parent (key ∷ key_fields) line_no = do
  bail_if (not (key == "key")) (at_line line_no ("layer requires a key field list" ∷ []))
  bail_if (nat_eq (length key_fields) 0) (at_line line_no ("layer key list must not be empty" ∷ []))
  ok (record { layer = layer; parent = parent; key_fields = key_fields })

unfoldable pub parse_layer : List String → ℕ → Result LayerSpec
unfolding layer_key
parse_layer (word ∷ layer ∷ first ∷ second ∷ rest) line_no =
    if first == "parent"
    then layer_key layer (some second) rest line_no
    else layer_key layer none (first ∷ second ∷ rest) line_no
parse_layer tokens line_no =
    err (at_line line_no ("layer syntax is `layer <name> [parent <name>] key <fields...>`" ∷ []))

unfoldable pub parse_i64 : Option String → ℕ → Result ℤ
parse_i64 value line_no = do
  text ← context value "integer value is required"
  with_context (parse_i64_text text) (at_line line_no ("invalid integer" ∷ []))

-- What stands before the first separator, and what stands behind it.
unfoldable pub split_once : ℕ → String → Option (String × String)
split_once separator String.[] = none
split_once separator (String.◌∷◌ c s) =
    if nat_eq (code c) separator then some ("", s) else (elim (split_once separator s) [
      | none ↦ none
      | some (left, right) ↦ some (String.◌∷◌ c left, right)
    ])

-- `str::split` at a character.
unfoldable pub split_at : ℕ → String → List String
split_at separator String.[] = "" ∷ []
split_at separator (String.◌∷◌ c s) = elim (split_at separator s) [
  | [] ↦ []
  | part ∷ parts ↦
      if nat_eq (code c) separator then "" ∷ part ∷ parts else String.◌∷◌ c part ∷ parts
]

unfoldable pub trimmed_parts : List String → List String
trimmed_parts [] = []
trimmed_parts (part ∷ parts) =
    if is_empty (trim part) then trimmed_parts parts else trim part ∷ trimmed_parts parts

-- One field of a resource line, and the value behind it.
unfoldable pub resource_field : ResourceSpec → String → Option String → ℕ → Result ResourceSpec
unfolding trimmed_parts
resource_field resource name value line_no =
    if name == "max_concurrent"
    then (do n ← parse_i64 value line_no; ok (record resource { max_concurrent = n }))
    else if name == "min_interval_ms"
    then (do n ← parse_i64 value line_no; ok (record resource { min_interval_ms = n }))
    else if name == "allowed_modes"
    then (do
      modes ← context value "allowed_modes requires a value"
      ok (record resource { allowed_modes = trimmed_parts (split_at b',' modes) }))
    else if name == "hazard_class"
    then (do
      class ← context value "hazard_class requires a value"
      ok (record resource { hazard_class = class }))
    else err (at_line line_no ("unknown resource field `" ∷ name ∷ "`" ∷ []))

unfoldable pub resource_fields : ResourceSpec → List String → ℕ → Result ResourceSpec
unfolding resource_field
resource_fields resource [] line_no = ok resource
resource_fields resource (name ∷ []) line_no = resource_field resource name none line_no
resource_fields resource (name ∷ value ∷ rest) line_no = do
  resource' ← resource_field resource name (some value) line_no
  resource_fields resource' rest line_no

unfoldable pub parse_resource : List String → ℕ → Result ResourceSpec
unfolding resource_fields
parse_resource (word ∷ resource_id ∷ resource_kind ∷ rest) line_no =
    resource_fields
      (record {
        resource_id = resource_id;
        resource_kind = resource_kind;
        max_concurrent = pos 1;
        min_interval_ms = pos 0;
        allowed_modes = [];
        hazard_class = "C";
      })
      rest line_no
parse_resource tokens line_no =
    err (at_line line_no ("resource syntax is `resource <id> <kind> ...`" ∷ []))

-- The key of `key=value` is not empty.
unfoldable pub key_given : Option (String × String) → Option (String × String)
key_given none = none
key_given (some (key, value)) = if is_empty key then none else some (key, value)

unfoldable pub parse_key_value : String → ℕ → Result (String × String)
unfolding key_given split_once
parse_key_value token line_no =
    context (key_given (split_once b'=' token))
      (at_line line_no ("expected key=value, got `" ∷ token ∷ "`" ∷ []))

unfoldable pub both_given : Option (String × String) → Option (String × String)
both_given none = none
both_given (some (node, role)) = if is_empty node || is_empty role then none else some (node, role)

unfoldable pub parse_node_role : String → ℕ → Result (String × String)
unfolding both_given split_once
parse_node_role value line_no =
    context (both_given (split_once b'.' value))
      (at_line line_no ("expected <node>.<role>, got `" ∷ value ∷ "`" ∷ []))

unfoldable pub parse_bool : String → ℕ → Result Bool
parse_bool value line_no =
    if value == "true"
    then ok true
    else if value == "false"
    then ok false
    else err (at_line line_no ("expected true or false, got `" ∷ value ∷ "`" ∷ []))

-- What `str::parse::<f64>` reads: a number with the text that serde_json prints for it, or one
-- that is not finite, for which `json!` gives null.
pub data Float : Type 0 where
  finite : String → Float
  non_finite : Float

abbrev pub json_float : Float → Value
json_float (finite text) = number (float text)
json_float non_finite = null

unfoldable pub parse_flow_value : (String → Option Float) → String → Value
parse_flow_value parse_f64 value =
    if value == "true"
    then bool true
    else if value == "false"
    then bool false
    else (elim (parse_i64_text value) [
      | ok n ↦ number (int n)
      | err e ↦ elim (parse_f64 value) [ some f ↦ json_float f | none ↦ string value ]
    ])
