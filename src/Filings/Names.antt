-- ===== src/Filings/Names.antt =====
-- The names in filings/src/lib.rs: CIKs, form filters, archive paths and URLs. The copies of these
-- functions in cli/src/main.rs are in Commands. A `Path` is its text, read as on Unix.
pub mod Cik
pub mod Forms
pub mod Inside
use Prim.Native.Char.{code}
use Prim.Native.String
use text.Mathlib.Text.{◌==◌, starts_with}
use sec_fa.Prelude.{
  ℕ, zero, suc, ◌-◌, String, Bool, true, false, not, ◌&&◌, ◌||◌, Option, none, some, List, [], ◌∷◌,
  ◌++◌, map, any, length, leb, nat_eq, unwrap_or, if◌then◌else◌,
}
use sec_fa.Prelude.Ascii.{
  is_ascii_digit, to_ascii_lowercase, to_ascii_uppercase, ends_with, remove_char, char_count,
}
use sec_fa.Prelude.Text.{format, str_ltb}
use sec_fa.Outcome.{Result, ok, err, ◌>>◌, bail_if}
use sec_fa.Decimal.{parse_i64_text}
use sec_fa.Hash.{sort}
use sec_fa.Json.{ℤ, pos}
use sec_fa.Replay.{int_text}
use sec_fa.Graph.Lexer.{trim, is_empty}
use sec_fa.Graph.Parser.Tokens.{split_at, trimmed_parts}

-- `chars().filter(|c| c.is_ascii_digit()).collect()`
unfoldable pub digits_of : String → String
digits_of String.[] = ""
digits_of (String.◌∷◌ c s) =
    let rest = digits_of s in if is_ascii_digit c then String.◌∷◌ c rest else rest

unfoldable pub skip_chars : ℕ → String → String
skip_chars zero s = s
skip_chars (suc n) String.[] = ""
skip_chars (suc n) (String.◌∷◌ c s) = skip_chars n s

unfoldable pub zeros : ℕ → String → String
zeros zero s = s
zeros (suc n) s = String.◌∷◌ "0" (zeros n s)

-- `digits[digits.len() - 10..]`, and `{:0>10}`, which fills up on the left.
unfoldable pub normalize_cik : String → String
unfolding digits_of skip_chars zeros
normalize_cik cik =
    let digits = digits_of cik in
    let last = skip_chars (char_count digits - 10) digits in zeros (10 - char_count last) last

-- `forms.split(',')`, each trimmed and in upper case, without the empty ones.
abbrev pub form_values : String → List String
form_values forms = map to_ascii_uppercase (trimmed_parts (split_at b',' forms))

abbrev pub is_wildcard : String → Bool
is_wildcard s = s == "*" || s == "ALL"

abbrev pub dedup_from : String → List String → List String
dedup_from x [] = x ∷ []
dedup_from x (y ∷ ys) = let rest = dedup_from y ys in if x == y then rest else x ∷ rest

-- `Vec::dedup` on a list without a first element, and on one with it.
unfoldable pub dedup : List String → List String
dedup [] = []
dedup (x ∷ xs) = dedup_from x xs

abbrev marks : List String → List String
marks [] = []
marks (v ∷ []) = "?" ∷ []
marks (v ∷ w ∷ vs) = "?" ∷ "," ∷ marks (w ∷ vs)

abbrev pub form_clause : String → List String → String
form_clause column values = format (" AND upper(" ∷ column ∷ ") IN (" ∷ (marks values ++ ")" ∷ []))

abbrev pub is_nil : List String → Bool
is_nil [] = true
is_nil (x ∷ xs) = false

unfoldable pub sql_form_filter_clause : String → String → Option (String × List String)
unfolding dedup sort
sql_form_filter_clause column forms =
    let values = form_values forms in
    if is_nil values || any is_wildcard values
    then none
    else (let sorted = dedup (sort values) in some (form_clause column sorted, sorted))

abbrev pub archive_base_url : String
archive_base_url = "https://www.sec.gov/Archives/edgar/data"

abbrev pub parsed_or_zero : Result ℤ → ℤ
parsed_or_zero (ok n) = n
parsed_or_zero (err e) = pos 0

-- `cik10.parse::<i64>().unwrap_or(0)`
abbrev pub cik_number : String → ℤ
cik_number cik10 = parsed_or_zero (parse_i64_text cik10)

abbrev pub document_of : Option String → String
document_of none = "index.json"
document_of (some doc) = if is_empty doc then "index.json" else doc

unfoldable pub archive_url : String → String → Option String → String
unfolding remove_char
archive_url cik10 accession doc = format (
    archive_base_url
    ∷ "/"
    ∷ int_text (cik_number cik10)
    ∷ "/"
    ∷ remove_char b'-' accession
    ∷ "/"
    ∷ document_of doc
    ∷ [])

-- `Path::components`: the parts between slashes, without empty parts and single dots. A leading
-- slash is the root, which `is_absolute` tests.
unfoldable pub components : List String → List String
components [] = []
components (part ∷ parts) =
    if is_empty part || part == "." then components parts else part ∷ components parts

abbrev pub path_components : String → List String
path_components path = components (split_at b'/' path)

abbrev pub is_absolute : String → Bool
is_absolute String.[] = false
is_absolute (String.◌∷◌ c s) = nat_eq (code c) b'/'

abbrev pub is_parent_dir : String → Bool
is_parent_dir part = part == ".."

-- The test that two functions share.
abbrev pub is_unsafe_name : String → Bool
is_unsafe_name name = is_empty name || is_absolute name || any is_parent_dir (path_components name)

unfoldable pub is_package_artifact_name : String → String → Bool
unfolding components split_at to_ascii_lowercase ends_with
is_package_artifact_name name primary =
    if is_unsafe_name name
    then false
    else (let lower = to_ascii_lowercase name in
        name == primary
        || ends_with lower ".xml"
        || ends_with lower ".xsd"
        || ((ends_with lower ".htm" || ends_with lower ".html") && is_empty primary))

abbrev last_of : String → List String → String
last_of part [] = part
last_of part (next ∷ parts) = last_of next parts

abbrev has_dot : String → Bool
has_dot String.[] = false
has_dot (String.◌∷◌ c s) = nat_eq (code c) b'.' || has_dot s

abbrev dot_inside : String → Bool
dot_inside String.[] = false
dot_inside (String.◌∷◌ c s) = has_dot s

abbrev file_name_extended : List String → Bool
file_name_extended [] = false
file_name_extended (part ∷ parts) =
    not (is_parent_dir (last_of part parts)) && dot_inside (last_of part parts)

-- `Path::new(name).extension().is_some()`: the last component has a dot behind its first character.
abbrev pub has_extension : String → Bool
has_extension name = file_name_extended (path_components name)

abbrev pub ends_in_slash : String → Bool
ends_in_slash String.[] = true
ends_in_slash (String.◌∷◌ c String.[]) = nat_eq (code c) b'/'
ends_in_slash (String.◌∷◌ c s) = ends_in_slash s

-- `Path::join`
unfoldable pub join : String → String → String
join root name =
    if is_absolute name
    then name
    else if ends_in_slash root
    then String.◌++◌ root name
    else String.◌++◌ root (String.◌∷◌ "/" name)

abbrev pub unsafe_item : String → String
unsafe_item name = format ("unsafe SEC archive item name: " ∷ name ∷ [])

unfoldable pub archive_local_path : String → String → Result String
unfolding is_package_artifact_name components split_at join bail_if
archive_local_path root name =
    bail_if (not (is_package_artifact_name name "") && not (has_extension name)) (unsafe_item name)
    >> bail_if (is_unsafe_name name) (unsafe_item name)
    >> ok (join root name)

unfoldable pub is_extracted_inline_instance_name : String → Bool
unfolding to_ascii_lowercase ends_with
is_extracted_inline_instance_name name = ends_with (to_ascii_lowercase name) "_htm.xml"

unfoldable pub package_file_kind : String → String → Bool → String
unfolding to_ascii_lowercase ends_with
package_file_kind name primary has_extracted_instance =
    let lower = to_ascii_lowercase name in
    if ends_with lower ".htm" || ends_with lower ".html"
    then (if has_extracted_instance && name == primary then "primary_document" else "inline_xbrl")
    else if ends_with lower ".xsd"
    then "xbrl_schema"
    else if ends_with lower "_lab.xml"
        || ends_with lower "_pre.xml"
        || ends_with lower "_def.xml"
        || ends_with lower "_cal.xml"
    then "xbrl_linkbase"
    else if lower == "filingsummary.xml" || lower == "metalinks.json"
    then "xbrl_report_metadata"
    else "xbrl_instance"
