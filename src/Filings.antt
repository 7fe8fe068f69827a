-- ===== src/Filings.antt =====
-- The types of filings/src/lib.rs, and what it takes from other crates.
pub mod Names
pub mod Xml
pub mod Periods
pub mod Concepts
pub mod Contexts
pub mod Fiscal
pub mod Facts
pub mod Tables
pub mod Inserts
pub mod Package
pub mod Stores
pub mod Stored
pub mod Observed
pub mod Request
pub mod Parse
use sec_fa.Prelude.{ℕ, String, Option, none, some, List, [], ◌∷◌}
use sec_fa.Prelude.Text.{format}
use sec_fa.Json.{ℤ, pos, Value, number, int, null}
use sec_fa.Graph.Parser.Tokens.{Float}

-- The texts of serde_json (`to_string`, with the fields in the order in which they were written) and
-- sha2, the parsers of Rust and the arithmetic on f64.
pub record Tools : Type 0 where
  pub json_text : Value → String
  pub sha256_hex : String → String
  pub parse_f64 : String → Option Float
  pub negate : Float → Float
  -- `number * 10f64.powi(scale)`
  pub scaled : Float → ℤ → Float
  -- `v as i32`
  pub float_to_i32 : Float → ℤ

-- Dates of the crate time.
pub record Calendar (Date : Type 0) : Type 0 where
  pub parse_date : String → Option Date
  pub format_date : Date → String
  pub next_day : Date → Option Date
  -- `(a - b).whole_days()`
  pub days_from : Date → Date → ℤ
  pub year : Date → ℤ
  pub replace_year : Date → ℤ → Option Date

pub record PeriodInfo : Type 0 where
  pub raw_start_date : Option String
  pub raw_end_date : Option String
  pub raw_instant_date : Option String
  pub start_date_inclusive : Option String
  pub end_date_exclusive : Option String
  pub duration_days : ℤ
  pub period_kind : String
  pub period_semantics : String
  pub fiscal_year : Option ℤ
  pub fiscal_period : Option String
  pub fiscal_period_ordinal : Option ℤ
  pub period_length_class : String

pub record ContextInfo : Type 0 where
  pub raw_id : String
  pub context_id : String
  pub entity_identifier : String
  pub period_id : String
  pub period : PeriodInfo
  pub dimensions_hash : String
  pub dimensions_json : String
  pub segment_json : Option String
  pub scenario_json : Option String
  pub scope_class : String
  pub axis_count : ℕ

pub record UnitInfo : Type 0 where
  pub raw_id : String
  pub unit_id : String
  pub signature : String
  pub numerator_json : Option String
  pub denominator_json : Option String

pub record RawFact : Type 0 where
  pub fact_id : String
  pub source_doc_id : String
  pub security_id : ℤ
  pub cik : String
  pub accession : String
  pub taxonomy : String
  pub concept_qname : String
  pub concept_local_name : String
  pub context : ContextInfo
  pub unit : Option UnitInfo
  pub value_decimal : Option Float
  pub value_text : Option String
  pub decimals_attr : Option String
  pub precision_attr : Option String
  pub is_nil : ℤ
  pub form : String
  pub filed_at : String
  pub accepted_at : String
  pub available_at : String
  pub raw_fact_hash : String

-- `PeriodInfo::default()`
abbrev pub no_period : PeriodInfo
no_period = record {
  raw_start_date = none;
  raw_end_date = none;
  raw_instant_date = none;
  start_date_inclusive = none;
  end_date_exclusive = none;
  duration_days = pos 0;
  period_kind = "";
  period_semantics = "";
  fiscal_year = none;
  fiscal_period = none;
  fiscal_period_ordinal = none;
  period_length_class = "";
}

abbrev pub optional_int : Option ℤ → Value
optional_int none = null
optional_int (some n) = number (int n)

unfoldable pub stable_id : Tools → String → Value → String
stable_id tools prefix value = format (prefix ∷ "-" ∷ tools.sha256_hex (tools.json_text value) ∷ [])
