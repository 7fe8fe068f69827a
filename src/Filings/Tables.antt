-- ===== src/Filings/Tables.antt =====
-- The tables of schema.sql that filings/src/lib.rs fills. INSERT OR IGNORE skips a row that
-- breaks a key or a CHECK, but a broken reference is an error. The columns created_at, which no
-- function of that file reads, are left out.
use text.Mathlib.Text.{◌==◌}
use sec_fa.Prelude.{
  ℕ, String, Bool, true, false, not, ◌&&◌, ◌||◌, Option, List, ◌∷◌, any, ltb, is_some,
  if◌then◌else◌,
}
use sec_fa.Outcome.{Result, ok, err}
use sec_fa.Json.{ℤ}
use sec_fa.Graph.Parser.Tokens.{Float}
use sec_fa.Filings.{PeriodInfo, ContextInfo, UnitInfo, RawFact}

-- A row of source_documents.
pub record SourceDocument : Type 0 where
  pub doc_id : String
  pub cik : String
  pub accession_number : String
  pub form : String
  pub filed_at : String
  pub source_url : String
  pub local_path : String
  pub sha256 : String
  pub document_kind : String

-- A row of dimension_signatures.
pub record DimensionSignature : Type 0 where
  pub dimensions_hash : String
  pub dimensions_json : String
  pub has_dimensions : Bool
  pub scope_class : String
  pub axis_count : ℕ

-- A row of reporting_periods: `period` has its columns from raw_start_date to period_length_class.
pub record PeriodRow : Type 0 where
  pub period_id : String
  pub cik : String
  pub accession_number : String
  pub period : PeriodInfo
  pub source : String

-- A row of xbrl_contexts, whose other columns are fields of `context`.
pub record ContextRow : Type 0 where
  pub cik : String
  pub accession_number : String
  pub context : ContextInfo
  pub raw_context_sha256 : String

-- A row of xbrl_units, whose other columns are fields of `unit`.
pub record UnitRow : Type 0 where
  pub cik : String
  pub accession_number : String
  pub unit : UnitInfo
  pub raw_unit_sha256 : String

-- A row of canonical_observations.
pub record Observation : Type 0 where
  pub observation_id : String
  pub observation_hash : String
  pub resolver_version : String
  pub security_id : ℤ
  pub cik : String
  pub metric_id : ℕ
  pub metric_name : String
  pub metric_kind : String
  pub basis_id : ℕ
  pub period_id : String
  pub period_semantics : String
  pub duration_days : ℤ
  pub fiscal_year : Option ℤ
  pub fiscal_period : Option String
  pub value_decimal : Float
  pub unit_signature : String
  pub dimensions_hash : String
  pub dimensional_scope : String
  pub observation_status : String
  pub source_fact_id : String
  pub source_accession : String
  pub taxonomy : String
  pub concept_qname : String
  pub selection_reason : String
  pub quality_flags : ℕ
  pub quality_flags_json : String
  pub accepted_at : String
  pub available_at : String

-- Newest rows first. Of metric_definitions and measurement_bases, the ids; a row of xbrl_facts is
-- the fact whose fields it stores.
pub record FactTables : Type 0 where
  pub source_documents : List SourceDocument
  pub dimension_signatures : List DimensionSignature
  pub reporting_periods : List PeriodRow
  pub xbrl_contexts : List ContextRow
  pub xbrl_units : List UnitRow
  pub xbrl_facts : List RawFact
  pub metric_definitions : List ℕ
  pub measurement_bases : List ℕ
  pub canonical_observations : List Observation

abbrev pub foreign_key : String
foreign_key = "FOREIGN KEY constraint failed"

-- The ids that a table has.
abbrev pub has_document : FactTables → String → Bool
has_document db id = any (λ r. r.doc_id == id) db.source_documents

abbrev pub has_signature : FactTables → String → Bool
has_signature db id = any (λ r. r.dimensions_hash == id) db.dimension_signatures

abbrev pub has_period : FactTables → String → Bool
has_period db id = any (λ r. r.period_id == id) db.reporting_periods

abbrev pub has_context : FactTables → String → Bool
has_context db id = any (λ r. r.context.context_id == id) db.xbrl_contexts

abbrev pub has_unit : FactTables → String → Bool
has_unit db id = any (λ r. r.unit.unit_id == id) db.xbrl_units

abbrev pub has_fact : FactTables → String → Bool
has_fact db id = any (λ r. r.fact_id == id) db.xbrl_facts

-- The CHECK of reporting_periods.
unfoldable pub period_check : PeriodInfo → Bool
period_check p =
    (p.period_kind == "instant" && is_some p.raw_instant_date)
    || (p.period_kind == "duration" && is_some p.raw_start_date && is_some p.raw_end_date)

abbrev pub insert_signature : ContextInfo → FactTables → FactTables
insert_signature ctx db = if has_signature db ctx.dimensions_hash then db else record db {
  dimension_signatures =
      record {
        dimensions_hash = ctx.dimensions_hash;
        dimensions_json = ctx.dimensions_json;
        has_dimensions = ltb 0 ctx.axis_count;
        scope_class = ctx.scope_class;
        axis_count = ctx.axis_count;
      }
      ∷ db.dimension_signatures;
}

unfoldable pub insert_period : String → String → ContextInfo → FactTables → FactTables
unfolding period_check
insert_period cik accession ctx db =
    if has_period db ctx.period_id || not (period_check ctx.period) then db else record db {
      reporting_periods =
          record {
            period_id = ctx.period_id;
            cik = cik;
            accession_number = accession;
            period = ctx.period;
            source = "xbrl_context";
          }
          ∷ db.reporting_periods;
    }

-- A row that is not ignored needs the rows that it refers to.
abbrev pub insert_row : Bool → Bool → FactTables → FactTables → Result (FactTables × Bool)
insert_row ignored references db added =
    if ignored then ok (db, false) else if references then ok (added, true) else err foreign_key
