-- ===== src/Filings/Fiscal.antt =====
-- The fiscal metadata of a document in filings/src/lib.rs, and the periods that it corrects.
use text.Mathlib.Text.{◌==◌}
use sec_fa.Prelude.{String, Option, none, some, List, [], ◌∷◌, is_some, unwrap_or, if◌then◌else◌}
use sec_fa.BTreeMap.{BTreeMap}
use sec_fa.Json.{ℤ}
use sec_fa.Graph.Lexer.{is_empty}
use sec_fa.Filings.{Tools, Calendar, PeriodInfo, ContextInfo, stable_id}
use sec_fa.Filings.Xml.{Node, elements, attr, text_of, tag_name, namespace}
use sec_fa.Filings.Contexts.{split_qname, taxonomy_for_space}
use sec_fa.Filings.Periods.{
  period_identity_json, parse_integer_text, normalize_fiscal_period, fiscal_quarter_ordinal,
  comparable_fiscal_year, is_fiscal_ytd_duration, is_quarter_duration,
}

pub record FilingFiscalMetadata : Type 0 where
  pub fiscal_year_focus : Option ℤ
  pub fiscal_period_focus : Option String
  pub fiscal_period_ordinal : Option ℤ
  pub document_period_end : Option String
  pub current_fiscal_year_end : Option String

abbrev pub no_metadata : FilingFiscalMetadata
no_metadata = record {
  fiscal_year_focus = none;
  fiscal_period_focus = none;
  fiscal_period_ordinal = none;
  document_period_end = none;
  current_fiscal_year_end = none;
}

abbrev dei_name : Node → Option String → Option String
dei_name n none = none
dei_name n (some tax) = if tax == "dei" then some (tag_name n) else none

-- The local name of the fact that an element states.
abbrev concept_of : Node → Option String → Option String
concept_of n (some name) = some ((split_qname name).1)
concept_of n none = dei_name n (taxonomy_for_space (namespace n))

module _ (tools : Tools) {Date : Type 0} (calendar : Calendar Date) where
  abbrev with_period : String → FilingFiscalMetadata → FilingFiscalMetadata
  with_period period out = if is_empty period then out else record out {
    fiscal_period_ordinal = fiscal_quarter_ordinal period;
    fiscal_period_focus = some period;
  }

  abbrev read_metadata : String → String → FilingFiscalMetadata → FilingFiscalMetadata
  read_metadata concept value out =
      if concept == "DocumentFiscalYearFocus"
      then record out { fiscal_year_focus = parse_integer_text tools value }
      else if concept == "DocumentFiscalPeriodFocus"
      then with_period (normalize_fiscal_period value) out
      else if concept == "DocumentPeriodEndDate"
      then if is_some (calendar.parse_date value)
        then record out { document_period_end = some value }
        else out
      else if concept == "CurrentFiscalYearEndDate"
      then if is_empty value then out else record out { current_fiscal_year_end = some value }
      else out

  abbrev metadata_at : Option String → Node → FilingFiscalMetadata → FilingFiscalMetadata
  metadata_at none n out = out
  metadata_at (some concept) n out = read_metadata concept (text_of n) out

  abbrev metadata_from : List Node → FilingFiscalMetadata → FilingFiscalMetadata
  metadata_from [] out = out
  metadata_from (n ∷ ns) out = metadata_from ns (metadata_at (concept_of n (attr n "name")) n out)

  unfoldable pub parse_filing_fiscal_metadata : Node → FilingFiscalMetadata
  unfolding elements attr text_of split_qname taxonomy_for_space parse_integer_text
      normalize_fiscal_period fiscal_quarter_ordinal
  parse_filing_fiscal_metadata root = metadata_from (elements root "") no_metadata

  module _ (cik accession : String) where
    abbrev first_of : Option String → Option String → String
    first_of (some a) b = a
    first_of none b = unwrap_or b ""

    abbrev focused : String → ℤ → String → PeriodInfo → PeriodInfo
    focused fp ord semantics p = record p {
      period_semantics = semantics;
      fiscal_period = some fp;
      fiscal_period_ordinal = some ord;
    }

    abbrev corrected_period : String → ℤ → ℤ → PeriodInfo → PeriodInfo
    corrected_period fp ord year period =
        let p = record period { fiscal_year = some year } in
        if p.period_kind == "duration"
        then if is_fiscal_ytd_duration p.duration_days ord
          then focused fp ord "fiscal_ytd" p
          else if is_quarter_duration p.duration_days
          then focused fp ord "fiscal_quarter" p
          else p
        else p

    abbrev with_corrected : ContextInfo → PeriodInfo → ContextInfo
    with_corrected ctx p = record ctx {
      period = p;
      period_id = stable_id tools "period" (period_identity_json cik accession p);
    }

    abbrev corrected_if : String → ℤ → Option ℤ → ContextInfo → ContextInfo
    corrected_if fp ord none ctx = ctx
    corrected_if fp ord (some year) ctx =
        with_corrected ctx (corrected_period fp ord year ctx.period)

    unfoldable pub correct_context : ℤ → String → ℤ → String → ContextInfo → ContextInfo
    unfolding comparable_fiscal_year is_fiscal_ytd_duration is_quarter_duration stable_id
        period_identity_json
    correct_context fy fp ord doc_end ctx =
        let end = first_of ctx.period.raw_end_date ctx.period.raw_instant_date in
        if is_empty end
        then ctx
        else corrected_if fp ord (comparable_fiscal_year calendar end doc_end fy) ctx

    abbrev values_mut :
        (ContextInfo → ContextInfo) → BTreeMap String ContextInfo → BTreeMap String ContextInfo
    values_mut f [] = []
    values_mut f ((k, ctx) ∷ rest) = (k, f ctx) ∷ values_mut f rest

    unfoldable pub apply_filing_fiscal_metadata :
        FilingFiscalMetadata → BTreeMap String ContextInfo → BTreeMap String ContextInfo
    unfolding correct_context
    apply_filing_fiscal_metadata meta contexts = elim meta.fiscal_year_focus [
      | none ↦ contexts
      | some fy ↦ elim meta.fiscal_period_focus [
        | none ↦ contexts
        | some fp ↦ elim meta.fiscal_period_ordinal [
          | none ↦ contexts
          | some ord ↦ elim meta.document_period_end [
            | none ↦ contexts
            | some doc_end ↦ values_mut (correct_context fy fp ord doc_end) contexts
          ]
        ]
      ]
    ]
