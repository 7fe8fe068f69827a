-- ===== src/Filings/Parse.antt =====
-- parse_xbrl_package of filings/src/lib.rs.
use text.Mathlib.Text.{◌==◌}
use sec_fa.Prelude.{ℕ, String, none, some, List, [], ◌∷◌, any, if◌then◌else◌}
use sec_fa.Outcome.{Result, ok, err, ◌>>=◌}
use sec_fa.Json.{pos, Value, number, int, object, fields_of, string, text_array}
use sec_fa.Filings.{Tools, Calendar}
use sec_fa.Filings.Names.{archive_url}
use sec_fa.Filings.Facts.{Source}
use sec_fa.Filings.Tables.{FactTables}
use sec_fa.Filings.Inserts.{resolver_version}
use sec_fa.Filings.Package.{Files, Progress, load_package_files, parse_files}
use sec_fa.Filings.Request.{FilingRow, ParseRequest, resolve_request}
use sec_fa.Commands.Trading.{EventRow}

pub record Archive : Type 0 where
  pub filings : List FilingRow
  pub tables : FactTables
  pub events : List EventRow

pub record ParseSummary : Type 0 where
  pub event : Value
  pub accession_number : String
  pub cik : String
  pub documents_stored : ℕ
  pub raw_facts_inserted : ℕ
  pub canonical_selected_inserted : ℕ
  pub parse_errors : List String

-- The readings of the clock, and a UUID.
pub record Moment : Type 0 where
  pub now : String
  pub event_id : String
  pub occurred_at : String

abbrev count : ℕ → Value
count n = number (int (pos n))

abbrev parsed_payload : Source → Progress → Value
parsed_payload source p = object (
    fields_of (
      ("accession_number", string source.accession)
      ∷ ("cik", string source.cik)
      ∷ ("security_id", number (int source.security_id))
      ∷ ("form", string source.form)
      ∷ ("index_doc_id", string p.index_doc_id)
      ∷ ("documents_stored", count p.documents_stored)
      ∷ ("raw_facts_inserted", count p.raw_inserted)
      ∷ ("canonical_candidates", count p.selected_inserted)
      ∷ ("canonical_selected_inserted", count p.selected_inserted)
      ∷ ("derived_quarter_observations_inserted", count 0)
      ∷ ("canonical_exceptions_inserted", count 0)
      ∷ ("resolver_version", string resolver_version)
      ∷ ("parse_errors", text_array p.parse_errors)
      ∷ []))

-- INSERT OR IGNORE INTO filings.
unfoldable pub insert_filing : Source → List FilingRow → List FilingRow
unfolding archive_url
insert_filing source rows =
    if any (λ (r : FilingRow). r.metadata.accession == source.accession) rows
    then rows
    else record {
      metadata = record {
        accession = source.accession;
        cik = source.cik;
        form = source.form;
        filing_date = some source.filed_at;
        accepted_at = some source.accepted_at;
        primary_document = none;
      };
      source_url = some (archive_url source.cik source.accession none);
      raw_index_uri = none;
    }
      ∷ rows

module _ (tools : Tools) (moment : Moment) where
  unfoldable pub append_parsed : Value → List EventRow → Result (Value × List EventRow)
  append_parsed payload rows =
      let payload_json = tools.json_text payload in
      if any (λ (r : EventRow). r.event_id == moment.event_id) rows
      then err "UNIQUE constraint failed"
      else ok (
        object (
            fields_of (
              ("event_id", string moment.event_id)
              ∷ ("event_type", string "xbrl_package_parsed")
              ∷ ("event_version", count 1)
              ∷ ("occurred_at", string moment.occurred_at)
              ∷ ("payload", payload)
              ∷ [])),
        record {
          event_id = moment.event_id;
          event_type = "xbrl_package_parsed";
          occurred_at = moment.occurred_at;
          payload_json = payload_json;
          payload_sha256 = tools.sha256_hex payload_json;
        }
            ∷ rows,
      )

  -- An error drops the transaction, and the archive stays as it was.
  unfoldable pub parse_xbrl_package :
      {Date Data : Type 0}
      → Calendar Date
      → Files Data
      → ParseRequest
      → Archive
      → Result (ParseSummary × Archive)
  unfolding resolve_request load_package_files parse_files insert_filing append_parsed
  parse_xbrl_package calendar files req archive = do
    job ← resolve_request moment.now archive.filings req
    packaged ←
        load_package_files files job.package_root job.source.cik job.source.accession job.primary
    p ← parse_files tools calendar files job.source packaged (record {
      tables = archive.tables;
      index_doc_id = "";
      documents_stored = 0;
      raw_inserted = 0;
      selected_inserted = 0;
      parse_errors = [];
    })
    (event, events) ← append_parsed (parsed_payload job.source p) archive.events
    ok (
      record {
        event = event;
        accession_number = job.source.accession;
        cik = job.source.cik;
        documents_stored = p.documents_stored;
        raw_facts_inserted = p.raw_inserted;
        canonical_selected_inserted = p.selected_inserted;
        parse_errors = p.parse_errors;
      },
      record {
        filings = insert_filing job.source archive.filings;
        tables = p.tables;
        events = events;
      },
    )
