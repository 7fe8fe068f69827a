-- ===== src/Filings/Request.antt =====
-- The start of parse_xbrl_package of filings/src/lib.rs: the filing that a request means.
use text.Mathlib.Text.{◌==◌}
use sec_fa.Prelude.{
  String, Bool, true, false, not, ◌&&◌, ◌||◌, Option, none, some, List, [], ◌∷◌, any, find, is_some,
  unwrap_or, if◌then◌else◌,
}
use sec_fa.Prelude.Ascii.{remove_char, to_ascii_uppercase}
use sec_fa.Prelude.Text.{str_ltb}
use sec_fa.Outcome.{Result, ok, err, ◌>>=◌, context}
use sec_fa.Graph.Lexer.{is_empty}
use sec_fa.Graph.Parser.Tokens.{split_at}
use sec_fa.Filings.Names.{normalize_cik, sql_form_filter_clause, cik_number, join}
use sec_fa.Filings.Facts.{Source}

pub record ParseRequest : Type 0 where
  pub accession : Option String
  pub cik : Option String
  pub form : Option String
  pub filed_at : Option String
  pub accepted_at : Option String
  pub raw_root : String
  pub package_root : Option String
  pub latest : Bool
  pub forms : Option String

pub record FilingMetadata : Type 0 where
  pub accession : String
  pub cik : String
  pub form : String
  pub filing_date : Option String
  pub accepted_at : Option String
  pub primary_document : Option String

abbrev no_filing : FilingMetadata
no_filing = record {
  accession = "";
  cik = "";
  form = "";
  filing_date = none;
  accepted_at = none;
  primary_document = none;
}

-- A row of filings, without the columns that no function of that file reads.
pub record FilingRow : Type 0 where
  pub metadata : FilingMetadata
  pub source_url : Option String
  pub raw_index_uri : Option String

unfoldable pub lookup_filing_metadata : List FilingRow → String → Option FilingMetadata
lookup_filing_metadata rows accession =
    elim (find (λ (r : FilingRow). r.metadata.accession == accession) rows) [
      | none ↦ none
      | some r ↦ some r.metadata
    ]

abbrev non_empty_or_none : Option String → Option String
non_empty_or_none none = none
non_empty_or_none (some s) = if is_empty s then none else some s

abbrev of_cik : Option String → FilingMetadata → Bool
unfolding normalize_cik
of_cik none m = true
of_cik (some cik) m = m.cik == normalize_cik cik

abbrev of_forms : Option (String × List String) → FilingMetadata → Bool
unfolding to_ascii_uppercase
of_forms none m = true
of_forms (some clause) m = any (λ form. to_ascii_uppercase m.form == form) clause.1

-- NULL is less than every text.
abbrev text_lt : Option String → Option String → Bool
text_lt none none = false
text_lt none (some t) = true
text_lt (some s) none = false
text_lt (some s) (some t) = str_ltb s t

abbrev filed_before : FilingMetadata → FilingMetadata → Bool
filed_before a b =
    text_lt a.filing_date b.filing_date
    || (not (text_lt b.filing_date a.filing_date) && text_lt a.accepted_at b.accepted_at)

abbrev later : FilingMetadata → Option FilingMetadata → FilingMetadata
later m none = m
later m (some n) = if filed_before m n then n else m

-- Of filings with equal dates, which the query leaves in no order, the first of the table.
abbrev latest_of : (FilingMetadata → Bool) → List FilingRow → Option FilingMetadata
latest_of test [] = none
latest_of test (r ∷ rows) =
    let rest = latest_of test rows in
    if is_some r.raw_index_uri && test r.metadata then some (later r.metadata rest) else rest

unfoldable pub latest_fetched_filing_metadata :
    List FilingRow → Option String → Option String → Option FilingMetadata
unfolding normalize_cik sql_form_filter_clause to_ascii_uppercase
latest_fetched_filing_metadata rows cik forms =
    let clause = sql_form_filter_clause "form" (unwrap_or forms "") in
    latest_of (λ m. of_cik (non_empty_or_none cik) m && of_forms clause m) rows

abbrev found_or_default : Option FilingMetadata → FilingMetadata × Bool
found_or_default none = (no_filing, false)
found_or_default (some m) = (m, true)

-- The metadata of the request's filing, and whether there is any.
unfoldable pub filing_of : List FilingRow → ParseRequest → Result (FilingMetadata × Bool)
unfolding lookup_filing_metadata latest_fetched_filing_metadata
filing_of rows req = elim (non_empty_or_none req.accession) [
  | some accession ↦ ok (found_or_default (lookup_filing_metadata rows accession))
  | none ↦
      if req.latest
      then (do
        m ←
            context (latest_fetched_filing_metadata rows req.cik req.forms)
              "no fetched filing found; run watch and pull first or pass --accession"
        ok (m, true))
      else err "--accession is required unless --latest is set"
]

abbrev or_else : Option String → Option String → Option String
or_else none b = b
or_else (some a) b = some a

abbrev if_found : Bool → String → Option String
if_found found s = if found then some s else none

abbrev head_or : String → List String → String
head_or s [] = s
head_or s (part ∷ parts) = part

-- What the transaction needs of the request.
pub record Job : Type 0 where
  pub source : Source
  pub package_root : String
  pub primary : Option String

unfoldable pub resolve_request : String → List FilingRow → ParseRequest → Result Job
unfolding filing_of normalize_cik join remove_char
resolve_request now rows req = do
  (meta, found) ← filing_of rows req
  let accession = unwrap_or (non_empty_or_none req.accession) meta.accession
  cik ←
      context (or_else (non_empty_or_none req.cik) (if_found found meta.cik))
        "--cik is required when accession metadata is not present; run watch first or pass --cik"
  let cik10 = normalize_cik cik
  let accepted = unwrap_or (or_else (non_empty_or_none req.accepted_at) meta.accepted_at) now
  ok (record {
    source = record {
      doc_id = "";
      security_id = cik_number cik10;
      cik = cik10;
      accession = accession;
      form = unwrap_or (or_else (non_empty_or_none req.form) (if_found found meta.form)) "10-Q";
      filed_at =
          unwrap_or (or_else (non_empty_or_none req.filed_at) meta.filing_date)
            (head_or accepted (split_at b'T' accepted));
      accepted_at = accepted;
    };
    package_root =
        unwrap_or req.package_root (join (join req.raw_root cik10) (remove_char b'-' accession));
    primary = meta.primary_document;
  })
