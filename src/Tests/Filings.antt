-- ===== src/Tests/Filings.antt =====
-- A package of filings on concrete inputs.
use sec_fa.Prelude.{
  ℕ, String, ◌≡◌, ◌↔◌, refl, subst, true, false, ◌||◌, ◌&&◌, arith, Option, none, some, List, [],
  ◌∷◌, All, if◌then◌else◌,
}
use sec_fa.Outcome.{Result, err, ok, IsOk, ok-injective}
use sec_fa.BTreeMap.{string_ord}
use sec_fa.Json.{pos}
use sec_fa.Graph.Parser.Tokens.{finite}
use sec_fa.Filings.{Tools, Calendar, ContextInfo, RawFact, no_period}
use sec_fa.Filings.Xml.{Node, Nodes, element, text_node, nil, cons}
use sec_fa.Filings.Concepts.{concept_candidate-any}
use sec_fa.Filings.Facts.{Source}
use sec_fa.Filings.Tables.{FactTables, has_context, has_period, period_check}
use sec_fa.Filings.Inserts.{insert_context, has_number}
use sec_fa.Filings.Stored.{insert_context-IsOk}
use sec_fa.Filings.Observed.{Seeded}
use sec_fa.Filings.Package.{Files, PackageFile, Progress, read_contexts, source_of, parse_file}
use sec_fa.Filings.Package.Parsed.{parse_file-IsOk}

abbrev tools : Tools
tools = record {
  json_text = λ v. "json";
  sha256_hex = λ s. "d";
  parse_f64 = λ s. some (finite s);
  negate = λ x. x;
  scaled = λ x n. x;
  float_to_i32 = λ x. pos 0;
}

abbrev calendar : Calendar ℕ
calendar = record {
  parse_date = λ s. none;
  format_date = λ d. "";
  next_day = λ d. none;
  days_from = λ a b. pos 0;
  year = λ d. pos 2024;
  replace_year = λ d n. none;
}

abbrev leaf : String → String → Node
leaf name t = element name none [] (cons (text_node t) nil)

abbrev nodes : List Node → Nodes
nodes [] = nil
nodes (n ∷ ns) = cons n (nodes ns)

-- An instance document with a duration, a unit and the income of it.
abbrev instance_root : Node
instance_root = element "xbrl" none [] (
    nodes (
      element "context" none (("id", "c1") ∷ []) (
        nodes (
          element "period" none []
            (nodes (leaf "startDate" "2024-01-01" ∷ leaf "endDate" "2024-03-31" ∷ []))
          ∷ []))
      ∷ element "unit" none (("id", "u1") ∷ []) (nodes (leaf "measure" "iso4217:USD" ∷ []))
      ∷ element "NetIncomeLoss" (some "http://fasb.org/us-gaap/2024")
          (("contextRef", "c1") ∷ ("unitRef", "u1") ∷ []) (nodes (text_node "(1,200)" ∷ []))
      ∷ []))

abbrev files : Files Node
files = record {
  read = λ path. err "no file";
  sha256 = λ n. "d";
  item_names = λ n. ok [];
  parse_xml = ok;
}

abbrev source : Source
source = record {
  doc_id = "";
  security_id = pos 1;
  cik = "0000000001";
  accession = "1-24-1";
  form = "10-Q";
  filed_at = "2024-05-01";
  accepted_at = "2024-05-01T00:00:00Z";
}

abbrev file : PackageFile Node
file = record {
  name = "a_htm.xml";
  path = "/raw/a_htm.xml";
  url = "https://www.sec.gov/a_htm.xml";
  hash = "d";
  kind = "xbrl_instance";
  bytes = instance_root;
}

abbrev tables : FactTables
tables = record {
  source_documents = [];
  dimension_signatures = [];
  reporting_periods = [];
  xbrl_contexts = [];
  xbrl_units = [];
  xbrl_facts = [];
  metric_definitions = 1 ∷ 2 ∷ 3 ∷ 4 ∷ 5 ∷ 6 ∷ 7 ∷ 8 ∷ 9 ∷ 10 ∷ 11 ∷ 12 ∷ 13 ∷ 14 ∷ [];
  measurement_bases =
      101 ∷ 102 ∷ 103 ∷ 104 ∷ 201 ∷ 301 ∷ 401 ∷ 501 ∷ 601 ∷ 701 ∷ 801 ∷ 901 ∷ 1001 ∷ 1101 ∷ 1201
      ∷ 1202 ∷ 1301 ∷ 1302 ∷ 1303 ∷ 1401 ∷ 1402 ∷ 1403 ∷ [];
  canonical_observations = [];
}

abbrev start : Progress
start = record {
  tables = tables;
  index_doc_id = "";
  documents_stored = 0;
  raw_inserted = 0;
  selected_inserted = 0;
  parse_errors = [];
}

tables-Seeded : Seeded tools tables
unfolding Seeded sec_fa.Filings.Concepts.concept_candidate
tables-Seeded key c e =
    let both =
      concept_candidate-any
        (λ c.
          has_number c.metric_id tables.metric_definitions
          && has_number c.basis_id tables.measurement_bases)
        key c refl e in
    (ground (arith, both), ground (arith, both))

of_instance :
    All
      (λ e. period_check (e.1.period) ≡ true)
      (read_contexts tools calendar files
        (source_of tools calendar files source file)
        instance_root)
unfolding read_contexts sec_fa.Filings.Contexts.parse_contexts sec_fa.Filings.Contexts.context_of
    sec_fa.Filings.Fiscal.apply_filing_fiscal_metadata
    sec_fa.Filings.Fiscal.parse_filing_fiscal_metadata sec_fa.Filings.Xml.elements
    sec_fa.Filings.Xml.descendants sec_fa.Filings.Xml.attr sec_fa.Filings.Xml.first_child
    sec_fa.Filings.Xml.text_of sec_fa.Graph.Lexer.trim sec_fa.Filings.Periods.parse_period
    sec_fa.BTreeMap.insert period_check sec_fa.Filings.Periods.is_quarter_duration
    sec_fa.Filings.Periods.quarter_from_end sec_fa.Prelude.Text.format
of_instance = (refl, tt)

periods_checked :
    (root : Node)
    → ok instance_root ≡ ok root
    → All
        (λ e. period_check (e.1.period) ≡ true)
        (read_contexts tools calendar files (source_of tools calendar files source file) root)
periods_checked root e =
    subst
      (λ root.
        All (λ e. period_check (e.1.period) ≡ true)
          (read_contexts tools calendar files (source_of tools calendar files source file) root))
      (ok-injective e) of_instance

parse_file-IsOk_example : IsOk (parse_file tools calendar files source file start)
parse_file-IsOk_example =
    parse_file-IsOk tools calendar files source file start periods_checked refl tables-Seeded tt

-- A context whose period is `forever`.
abbrev forever : ContextInfo
forever = record {
  raw_id = "c2";
  context_id = "ctx-2";
  entity_identifier = "";
  period_id = "period-2";
  period = no_period;
  dimensions_hash = "d";
  dimensions_json = "{}";
  segment_json = none;
  scenario_json = none;
  scope_class = "consolidated_total";
  axis_count = 0;
}

insert_context-IsOk_example : IsOk (insert_context tools "0000000001" "1-24-1" forever tables) ↔ (
    (has_context tables "ctx-2" || (has_period tables "period-2" || period_check no_period)) ≡ true)
insert_context-IsOk_example = insert_context-IsOk tools "0000000001" "1-24-1" forever tables

abbrev counts : Result Progress → Option (ℕ × ℕ × ℕ)
counts (ok p) = some (p.raw_inserted, p.selected_inserted, p.documents_stored)
counts (err e) = none

-- The document, its fact and the observation of it are stored.
stored_counts : counts (parse_file tools calendar files source file start) ≡ some (1, 1, 1)
unfolding parse_file sec_fa.Filings.Tables.insert_period sec_fa.Prelude.Text.format
stored_counts = refl
