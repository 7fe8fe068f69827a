-- ===== src/Serde.antt =====
-- What the program takes from serde_json: the texts of numbers and strings, and the decoding of
-- texts; and from Rust, the text of a string under `{:?}`. `to_canonical_json` is that of
-- cli/src/framework/canonical_json.rs.
use sec_fa.Prelude.{String, ◌≡◌, Option, some, List}
use sec_fa.Json.{Number, Value, text_array}
use sec_fa.Json.Canonical.{canonical_value}

pub record Serde : Type 0 where
  pub number_text : Number → String
  pub quoted : String → String
  -- `serde_json::from_str::<Vec<String>>`
  pub strings_of : String → Option (List String)
  -- `serde_json::from_str::<Value>`
  pub value_of : String → Option Value
  -- the text of `{:?}`
  pub debug_text : String → String

abbrev pub to_canonical_json : Serde → Value → String
to_canonical_json s v = canonical_value s.number_text s.quoted v

-- A list of texts is read back from its canonical text.
abbrev pub ReadsBack : Serde → List String → Type 0
ReadsBack s xs = s.strings_of (to_canonical_json s (text_array xs)) ≡ some xs
