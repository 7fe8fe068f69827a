-- ===== src/Commands/Names.antt =====
-- The copies in cli/src/main.rs of functions of filings/src/lib.rs, and the functions on forms and
-- names that only it has.
pub mod Agree
use Prim.Native.Char.{Char, code}
use Prim.Native.String
use text.Mathlib.Text.{◌==◌}
use sec_fa.Prelude.{
  ℕ, ◌-◌, String, Bool, true, false, not, ◌&&◌, ◌||◌, Option, none, some, List, [], ◌∷◌, ◌++◌, map,
  unwrap_or, if◌then◌else◌,
}
use sec_fa.Prelude.Ascii.{
  to_ascii_lowercase, to_ascii_uppercase, ends_with, remove_char, char_count, is_ascii_alphanumeric,
  lower_char,
}
use sec_fa.Prelude.Text.{format, str_ltb}
use sec_fa.BTreeMap.{BTreeMap, string_ord, insert, contains_key}
use sec_fa.Outcome.{Result, ok, ◌>>◌, bail_if}
use sec_fa.Hash.{sort}
use sec_fa.Replay.{int_text}
use sec_fa.Graph.Lexer.{trim, is_empty, push}
use sec_fa.Filings.Names.{
  digits_of, skip_chars, zeros, form_values, is_wildcard, form_clause, is_nil, cik_number,
  document_of, is_unsafe_name, unsafe_item, join,
}

unfoldable pub normalize_cik : String → String
unfolding digits_of skip_chars zeros
normalize_cik cik =
    let digits = digits_of cik in
    let last = skip_chars (char_count digits - 10) digits in zeros (10 - char_count last) last

-- `collect` into a `BTreeSet`.
unfoldable pub collect_set : List String → BTreeMap String (Unit {0})
collect_set [] = []
collect_set (x ∷ xs) = insert x tt (collect_set xs)

unfoldable pub parse_form_set : String → BTreeMap String (Unit {0})
unfolding collect_set
parse_form_set forms = collect_set (form_values forms)

unfoldable pub form_allowed : BTreeMap String (Unit {0}) → String → Bool
form_allowed forms form =
    contains_key "*" forms
    || contains_key "ALL" forms
    || contains_key (to_ascii_uppercase (trim form)) forms

-- `into_iter().filter(|s| s != "*" && s != "ALL")`
unfoldable pub named_forms : BTreeMap String (Unit {0}) → List String
named_forms [] = []
named_forms ((s, _) ∷ rest) = if is_wildcard s then named_forms rest else s ∷ named_forms rest

unfoldable pub sql_form_filter_clause : String → String → Option (String × List String)
unfolding parse_form_set named_forms sort
sql_form_filter_clause column forms =
    let values = named_forms (parse_form_set forms) in
    if is_nil values then none else some (form_clause column (sort values), sort values)

unfoldable pub is_package_artifact_name : String → String → Bool
unfolding to_ascii_lowercase ends_with
is_package_artifact_name name primary =
    if is_unsafe_name name
    then false
    else (let lower = to_ascii_lowercase name in
        name == primary
        || ends_with lower ".xml"
        || ends_with lower ".xsd"
        || ((ends_with lower ".htm" || ends_with lower ".html") && is_empty primary))

-- The names of a decoded index, without repetitions and in order.
unfoldable pub artifact_set : List String → String → BTreeMap String (Unit {0})
unfolding is_package_artifact_name
artifact_set [] primary = []
artifact_set (name ∷ names) primary =
    let rest = artifact_set names primary in
    if is_package_artifact_name name primary then insert name tt rest else rest

abbrev pub keys_of : BTreeMap String (Unit {0}) → List String
keys_of [] = []
keys_of ((s, _) ∷ rest) = s ∷ keys_of rest

unfoldable pub package_artifact_names : List String → String → List String
unfolding artifact_set
package_artifact_names names primary = keys_of (artifact_set names primary)

unfoldable pub archive_local_path : String → String → Result String
unfolding join bail_if
archive_local_path root name =
    bail_if (is_unsafe_name name) (unsafe_item name) >> ok (join root name)

unfoldable pub archive_url : String → String → Option String → String
unfolding remove_char
archive_url cik10 accession doc = format (
    "https://www.sec.gov/Archives/edgar/data/"
    ∷ int_text (cik_number cik10)
    ∷ "/"
    ∷ remove_char b'-' accession
    ∷ "/"
    ∷ document_of doc
    ∷ [])

-- The variables of the loop of `normalized_metadata_value`.
pub record Slug : Type 0 where
  pub out : String
  pub last_underscore : Bool

abbrev pub slug_step : Char → Slug → Slug
slug_step c s =
    if is_ascii_alphanumeric c
    then record { out = push s.out (lower_char c); last_underscore = false }
    else if not s.last_underscore && not (is_empty s.out)
    then record { out = push s.out "_"; last_underscore = true }
    else s

unfoldable pub slug_scan : String → Slug → Slug
slug_scan String.[] s = s
slug_scan (String.◌∷◌ c rest) s = slug_scan rest (slug_step c s)

-- `while out.ends_with('_') { out.pop(); }`
unfoldable pub drop_underscores : String → String
drop_underscores String.[] = ""
drop_underscores (String.◌∷◌ c s) =
    let rest = drop_underscores s in
    if is_empty rest && String.◌∷◌ c "" == "_" then "" else String.◌∷◌ c rest

unfoldable pub normalized_metadata_value : String → Option String
unfolding slug_scan drop_underscores trim
normalized_metadata_value raw =
    some
      (drop_underscores (slug_scan (trim raw) (record { out = ""; last_underscore = false })).out)

pub record SecurityPeerMetadata : Type 0 where
  pub peer_group : String
  pub sector : String
  pub industry : String

unfoldable pub security_peer_metadata : String → String → String → SecurityPeerMetadata
unfolding normalized_metadata_value
security_peer_metadata peer_group sector industry = record {
  peer_group = unwrap_or (normalized_metadata_value peer_group) "";
  sector = unwrap_or (normalized_metadata_value sector) "";
  industry = unwrap_or (normalized_metadata_value industry) "";
}
