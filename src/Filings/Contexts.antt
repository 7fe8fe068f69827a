-- ===== src/Filings/Contexts.antt =====
-- The contexts, units and fiscal metadata that filings/src/lib.rs reads from a document.
use text.Mathlib.Text.{◌==◌}
use sec_fa.Prelude.{
  String, Bool, ◌||◌, Option, none, some, List, [], ◌∷◌, map, any, length, unwrap_or, if◌then◌else◌,
}
use sec_fa.Prelude.Ascii.{contains, to_ascii_lowercase}
use sec_fa.Prelude.Text.{str_ltb}
use sec_fa.BTreeMap.{BTreeMap, string_ord, insert}
use sec_fa.Json.{Value, array, text_object, value_items}
use sec_fa.Graph.Lexer.{trim}
use sec_fa.Graph.Parser.Tokens.{split_once}
use sec_fa.Filings.{Tools, Calendar, PeriodInfo, ContextInfo, UnitInfo, no_period, stable_id}
use sec_fa.Filings.Xml.{
  Node, elements, first_child, first_descendant, attr, text_of, text_or_default,
}
use sec_fa.Filings.Periods.{parse_period, period_identity_json}

abbrev qname_or : String → Option (String × String) → String × String
qname_or value none = ("", value)
qname_or value (some parts) = parts

unfoldable pub split_qname : String → String × String
unfolding split_once
split_qname value = qname_or value (split_once b':' value)

unfoldable pub taxonomy_for_space : Option String → Option String
unfolding contains
taxonomy_for_space ns =
    let space = unwrap_or ns "" in
    if contains space "us-gaap"
    then some "us-gaap"
    else if contains space "xbrl.sec.gov/dei"
    then some "dei"
    else none

unfoldable pub normalize_measure : String → String
unfolding trim contains
normalize_measure value =
    let clean = trim value in
    if clean == "iso4217:USD" || clean == "USD"
    then "USD"
    else if clean == "xbrli:shares" || clean == "shares"
    then "shares"
    else if contains clean "USD"
    then "USD"
    else clean

abbrev pub total_dimensions_json : String
total_dimensions_json = "{}"

unfoldable pub total_dimensions_hash : Tools → String
total_dimensions_hash tools = tools.sha256_hex total_dimensions_json

-- A member of a dimension: the dimension, then the member.
abbrev pub Dimension : Type 0
Dimension = String × String

abbrev dimensions_of : List Node → List Dimension
dimensions_of [] = []
dimensions_of (n ∷ ns) = (unwrap_or (attr n "dimension") "", text_of n) ∷ dimensions_of ns

-- `sort_by`, which is stable, on the dimensions.
abbrev insert_dimension : Dimension → List Dimension → List Dimension
insert_dimension d [] = d ∷ []
insert_dimension d (e ∷ es) = if str_ltb e.0 d.0 then e ∷ insert_dimension d es else d ∷ e ∷ es

unfoldable pub sort_dimensions : List Dimension → List Dimension
sort_dimensions [] = []
sort_dimensions (d ∷ ds) = insert_dimension d (sort_dimensions ds)

abbrev dimension_json : Dimension → Value
dimension_json (dimension, member) =
    text_object (("dimension", dimension) ∷ ("member", member) ∷ [])

abbrev is_product : Dimension → Bool
is_product d = contains (to_ascii_lowercase d.0) "product"

module _ (tools : Tools) where
  -- A context without dimensions keeps the fields it was made with.
  abbrev with_dimensions : List Dimension → ContextInfo → ContextInfo
  with_dimensions [] info = info
  with_dimensions (d ∷ ds) info =
      let dims = sort_dimensions (d ∷ ds) in
      let dims_json = tools.json_text (array (value_items (map dimension_json dims))) in
      record info {
        dimensions_hash = tools.sha256_hex dims_json;
        dimensions_json = dims_json;
        axis_count = length dims;
        scope_class = if any is_product dims then "product" else "segment";
      }

  abbrev pub raw_id_json : String → String → String → String → Value
  raw_id_json cik accession name raw_id =
      text_object (("cik", cik) ∷ ("accession_number", accession) ∷ (name, raw_id) ∷ [])

  module _ {Date : Type 0} (calendar : Calendar Date) (cik accession : String) where
    abbrev period_of : Option Node → PeriodInfo
    period_of none = no_period
    period_of (some n) = parse_period calendar n

    unfoldable pub context_of : Node → String → ContextInfo
    unfolding elements first_child first_descendant attr text_of parse_period stable_id
        period_identity_json total_dimensions_hash sort_dimensions contains to_ascii_lowercase
    context_of n raw_id =
        let period = period_of (first_child n "period") in
        with_dimensions (dimensions_of (elements n "explicitMember")) (record {
          raw_id = raw_id;
          context_id = stable_id tools "ctx" (raw_id_json cik accession "raw_context_id" raw_id);
          entity_identifier = text_or_default (first_descendant n "identifier");
          period_id = stable_id tools "period" (period_identity_json cik accession period);
          period = period;
          dimensions_hash = total_dimensions_hash tools;
          dimensions_json = total_dimensions_json;
          segment_json = none;
          scenario_json = none;
          scope_class = "consolidated_total";
          axis_count = 0;
        })

    abbrev add_context :
        Node → Option String → BTreeMap String ContextInfo → BTreeMap String ContextInfo
    add_context n none out = out
    add_context n (some raw_id) out = insert raw_id (context_of n raw_id) out

    abbrev contexts_from : List Node → BTreeMap String ContextInfo → BTreeMap String ContextInfo
    contexts_from [] out = out
    contexts_from (n ∷ ns) out = contexts_from ns (add_context n (attr n "id") out)

    unfoldable pub parse_contexts : Node → BTreeMap String ContextInfo
    unfolding elements attr context_of insert
    parse_contexts root = contexts_from (elements root "context") []

  module _ (cik accession : String) where
    abbrev measures_of : List Node → List String
    measures_of [] = []
    measures_of (n ∷ ns) = normalize_measure (text_of n) ∷ measures_of ns

    abbrev signature_of : List String → String
    signature_of [] = "unknown"
    signature_of (m ∷ ms) = m

    abbrev unit_of : Node → String → UnitInfo
    unit_of n raw_id = record {
      raw_id = raw_id;
      unit_id = stable_id tools "unit" (raw_id_json cik accession "raw_unit_id" raw_id);
      signature = signature_of (measures_of (elements n "measure"));
      numerator_json = none;
      denominator_json = none;
    }

    abbrev add_unit : Node → Option String → BTreeMap String UnitInfo → BTreeMap String UnitInfo
    add_unit n none out = out
    add_unit n (some raw_id) out = insert raw_id (unit_of n raw_id) out

    abbrev units_from : List Node → BTreeMap String UnitInfo → BTreeMap String UnitInfo
    units_from [] out = out
    units_from (n ∷ ns) out = units_from ns (add_unit n (attr n "id") out)

    unfoldable pub parse_units : Node → BTreeMap String UnitInfo
    unfolding elements attr text_of normalize_measure stable_id insert
    parse_units root = units_from (elements root "unit") []
