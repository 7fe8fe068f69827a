-- ===== src/Filings/Facts.antt =====
-- The facts that filings/src/lib.rs reads from a document.
pub mod Fit
use text.Mathlib.Text.{◌==◌, starts_with}
use Prim.Native.Char.{code}
use sec_fa.Prelude.{
  ℕ, String, Bool, true, false, ◌&&◌, ◌||◌, Option, none, some, List, [], ◌∷◌, ◌++◌, nat_eq,
  unwrap_or, if◌then◌else◌,
}
use sec_fa.Prelude.Ascii.{remove_char, ends_with}
use sec_fa.Prelude.Text.{format, str_ltb}
use sec_fa.BTreeMap.{BTreeMap, string_ord, get}
use sec_fa.Json.{ℤ, pos, Value, null, object, fields_of, string, optional, text_object}
use sec_fa.Graph.Lexer.{trim, is_empty}
use sec_fa.Graph.Parser.Tokens.{Float, json_float}
use sec_fa.Filings.{Tools, ContextInfo, UnitInfo, RawFact, stable_id}
use sec_fa.Filings.Xml.{Node, elements, attr, text_of, tag_name, namespace}
use sec_fa.Filings.Periods.{i32_of}
use sec_fa.Filings.Contexts.{split_qname, taxonomy_for_space}

-- `trim_start_matches` and `trim_end_matches` of a character.
unfoldable trim_start_matches : ℕ → String → String
trim_start_matches n String.[] = ""
trim_start_matches n (String.◌∷◌ c s) =
    let rest = trim_start_matches n s in if nat_eq (code c) n then rest else String.◌∷◌ c s

unfoldable trim_end_matches : ℕ → String → String
trim_end_matches n String.[] = ""
trim_end_matches n (String.◌∷◌ c s) =
    let rest = trim_end_matches n s in
    if is_empty rest && nat_eq (code c) n then "" else String.◌∷◌ c rest

abbrev without_separators : String → String
without_separators value = remove_char 0xa0 (remove_char b',' value)

abbrev in_parentheses : String → Bool
in_parentheses clean = starts_with clean "(" && ends_with clean ")"

abbrev scale_or_zero : Option ℤ → ℤ
scale_or_zero none = pos 0
scale_or_zero (some n) = n

module _ (tools : Tools) where
  abbrev scaled_number : Bool → String → Option Float → Option Float
  scaled_number negative scale none = none
  scaled_number negative scale (some number) = some (
      tools.scaled (if negative then tools.negate number else number)
        (scale_or_zero (i32_of (trim scale))))

  unfoldable pub parse_scaled_number : String → String → Option Float
  unfolding trim remove_char ends_with trim_start_matches trim_end_matches
  parse_scaled_number value scale =
      let clean = without_separators (trim value) in
      if is_empty clean
      then none
      else if in_parentheses clean
      then scaled_number true scale
          (tools.parse_f64 (trim_end_matches b')' (trim_start_matches b'(' clean)))
      else scaled_number false scale (tools.parse_f64 clean)

-- The greatest of a list of texts.
unfoldable pub max_string : List String → String
max_string [] = ""
max_string (s ∷ rest) = let m = max_string rest in if str_ltb s m then m else s

abbrev raw_id_of : Option UnitInfo → Value
raw_id_of none = null
raw_id_of (some u) = string u.raw_id

abbrev optional_float : Option Float → Value
optional_float none = null
optional_float (some x) = json_float x

-- What every fact of a document shares.
pub record Source : Type 0 where
  pub doc_id : String
  pub security_id : ℤ
  pub cik : String
  pub accession : String
  pub form : String
  pub filed_at : String
  pub accepted_at : String

module _ (tools : Tools) (source : Source) where
  abbrev fact_hash :
      String → String → ContextInfo → Option UnitInfo → Option Float → Option String → String
  fact_hash taxonomy local context unit value text = tools.sha256_hex (
      tools.json_text (
        object (
          fields_of (
            ("source_doc_id", string source.doc_id)
            ∷ ("cik", string source.cik)
            ∷ ("accession_number", string source.accession)
            ∷ ("taxonomy", string taxonomy)
            ∷ ("concept_qname", string (format (taxonomy ∷ ":" ∷ local ∷ [])))
            ∷ ("raw_context_id", string context.raw_id)
            ∷ ("unit_id", raw_id_of unit)
            ∷ ("value_decimal", optional_float value)
            ∷ ("value_text", optional text)
            ∷ []))))

  unfoldable pub build_raw_fact :
      String
      → String
      → ContextInfo
      → Option UnitInfo
      → Option Float
      → Option String
      → Option String
      → Option String
      → RawFact
  unfolding stable_id max_string
  build_raw_fact taxonomy local context unit value text decimals precision =
      let raw_hash = fact_hash taxonomy local context unit value text in
      record {
        fact_id = stable_id tools "fact" (text_object (("raw_fact_hash", raw_hash) ∷ []));
        source_doc_id = source.doc_id;
        security_id = source.security_id;
        cik = source.cik;
        accession = source.accession;
        taxonomy = taxonomy;
        concept_qname = format (taxonomy ∷ ":" ∷ local ∷ []);
        concept_local_name = local;
        context = context;
        unit = unit;
        value_decimal = value;
        value_text = text;
        decimals_attr = decimals;
        precision_attr = precision;
        is_nil = pos 0;
        form = source.form;
        filed_at = source.filed_at;
        accepted_at = source.accepted_at;
        available_at = max_string (source.filed_at ∷ source.accepted_at ∷ []);
        raw_fact_hash = raw_hash;
      }

  module _ (contexts : BTreeMap String ContextInfo) (units : BTreeMap String UnitInfo) where
    abbrev unit_at : Option String → Option UnitInfo
    unit_at none = none
    unit_at (some u) = get u units

    abbrev context_at : Option String → Option ContextInfo
    context_at none = none
    context_at (some c) = get c contexts

    -- The fact of an element of a taxonomy and a name in a context.
    abbrev fact_of : Node → String → String → Option Float → Option String → ContextInfo → RawFact
    fact_of n taxonomy local value text context =
        build_raw_fact taxonomy local context (unit_at (attr n "unitRef")) value text
          (attr n "decimals") (attr n "precision")

    abbrev inline_fact : Node → Option String → Option ContextInfo → List RawFact
    inline_fact n none context = []
    inline_fact n (some name) none = []
    inline_fact n (some name) (some context) =
        let (taxonomy, local) = split_qname name in
        if tag_name n == "nonFraction"
        then fact_of n taxonomy local
            (parse_scaled_number tools (text_of n) (unwrap_or (attr n "scale") "0")) none context
          ∷ []
        else fact_of n taxonomy local none (some (text_of n)) context ∷ []

    abbrev is_inline : Node → Bool
    is_inline n = tag_name n == "nonFraction" || tag_name n == "nonNumeric"

    abbrev inline_facts_from : List Node → List RawFact
    inline_facts_from [] = []
    inline_facts_from (n ∷ ns) =
        let rest = inline_facts_from ns in
        if is_inline n
        then inline_fact n (attr n "name") (context_at (attr n "contextRef")) ++ rest
        else rest

    unfoldable pub parse_inline_facts : Node → List RawFact
    unfolding elements attr text_of split_qname get build_raw_fact parse_scaled_number
    parse_inline_facts root = inline_facts_from (elements root "")

    abbrev classic_value : String → Option Float → Option Float × Option String
    classic_value raw none = (none, some raw)
    classic_value raw (some v) = (some v, none)

    abbrev classic_fact : Node → Option String → Option ContextInfo → List RawFact
    classic_fact n none context = []
    classic_fact n (some taxonomy) none = []
    classic_fact n (some taxonomy) (some context) =
        let raw = text_of n in
        let (value, text) = classic_value raw (parse_scaled_number tools raw "0") in
        fact_of n taxonomy (tag_name n) value text context ∷ []

    abbrev classic_facts_from : List Node → List RawFact
    classic_facts_from [] = []
    classic_facts_from (n ∷ ns) =
        classic_fact n (taxonomy_for_space (namespace n)) (context_at (attr n "contextRef"))
        ++ classic_facts_from ns

    unfoldable pub parse_classic_facts : Node → List RawFact
    unfolding elements attr text_of taxonomy_for_space get build_raw_fact parse_scaled_number
    parse_classic_facts root = classic_facts_from (elements root "")
