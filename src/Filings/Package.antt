-- ===== src/Filings/Package.antt =====
-- load_package_files of filings/src/lib.rs, and the loop of parse_xbrl_package over the files.
pub mod Parsed
use text.Mathlib.Text.{◌==◌}
use sec_fa.Prelude.{
  ℕ, suc, String, Bool, true, false, not, ◌&&◌, ◌||◌, Option, none, some, List, [], ◌∷◌, ◌++◌, any,
  unwrap_or, if◌then◌else◌,
}
use sec_fa.Prelude.Text.{format}
use sec_fa.Outcome.{Result, ok, err, ◌>>=◌, with_context}
use sec_fa.BTreeMap.{BTreeMap}
use sec_fa.Json.{text_object}
use sec_fa.Filings.{Tools, Calendar, ContextInfo, UnitInfo, RawFact, stable_id}
use sec_fa.Filings.Names.{
  archive_url, archive_local_path, is_package_artifact_name, is_extracted_inline_instance_name,
  package_file_kind, join,
}
use sec_fa.Filings.Xml.{Node}
use sec_fa.Filings.Contexts.{parse_contexts, parse_units}
use sec_fa.Filings.Fiscal.{parse_filing_fiscal_metadata, apply_filing_fiscal_metadata}
use sec_fa.Filings.Facts.{Source, parse_inline_facts, parse_classic_facts}
use sec_fa.Filings.Tables.{FactTables, SourceDocument}
use sec_fa.Filings.Inserts.{
  insert_context, insert_unit, insert_raw_fact, insert_canonical_observation,
}

-- The contents of a file and what other crates read from them: the names in an index.json, and the
-- root of an XML document, or the text of the error.
pub record Files (Data : Type 0) : Type 0 where
  pub read : String → Result Data
  pub sha256 : Data → String
  pub item_names : Data → Result (List String)
  pub parse_xml : Data → Result Node

pub record PackageFile (Data : Type 0) : Type 0 where
  pub name : String
  pub path : String
  pub url : String
  pub hash : String
  pub kind : String
  pub bytes : Data

module _ {Data : Type 0} (files : Files Data) where
  module _ (root cik accession primary : String) (extracted : Bool) where
    abbrev read_item : String → Result (PackageFile Data)
    unfolding archive_local_path archive_url package_file_kind
    read_item name = do
      path ← archive_local_path root name
      content ← with_context (files.read path) (format ("reading " ∷ path ∷ []))
      ok (record {
        name = name;
        path = path;
        url = archive_url cik accession (some name);
        hash = files.sha256 content;
        kind = package_file_kind name primary extracted;
        bytes = content;
      })

    abbrev read_items : List String → Result (List (PackageFile Data))
    unfolding is_package_artifact_name archive_local_path archive_url package_file_kind
    read_items [] = ok []
    read_items (name ∷ names) =
        if is_package_artifact_name name primary
        then (do file ← read_item name; rest ← read_items names; ok (file ∷ rest))
        else read_items names

  unfoldable pub load_package_files :
      String → String → String → Option String → Result (List (PackageFile Data))
  unfolding join archive_url is_extracted_inline_instance_name is_package_artifact_name
      archive_local_path package_file_kind
  load_package_files root cik accession primary =
      let path = join root "index.json" in
      do
        content ← with_context (files.read path) (format ("reading " ∷ path ∷ []))
        names ← files.item_names content
        rest ←
            read_items root cik accession (unwrap_or primary "")
              (any is_extracted_inline_instance_name names) names
        ok (
            record {
              name = "index.json";
              path = path;
              url = archive_url cik accession none;
              hash = files.sha256 content;
              kind = "sec_archive_index";
              bytes = content;
            }
            ∷ rest)

unfoldable pub source_document_id : Tools → String → String → String → String
unfolding stable_id
source_document_id tools cik url hash =
    stable_id tools "doc" (text_object (("cik", cik) ∷ ("url", url) ∷ ("sha256", hash) ∷ []))

-- The transaction's tables and the counts of the loop.
pub record Progress : Type 0 where
  pub tables : FactTables
  pub index_doc_id : String
  pub documents_stored : ℕ
  pub raw_inserted : ℕ
  pub selected_inserted : ℕ
  pub parse_errors : List String

-- INSERT OR IGNORE INTO source_documents: the key is doc_id, and sha256 is UNIQUE.
unfoldable pub insert_document : SourceDocument → FactTables → FactTables
insert_document d db =
    if any (λ r. r.doc_id == d.doc_id || r.sha256 == d.sha256) db.source_documents
    then db
    else record db { source_documents = d ∷ db.source_documents }

abbrev pub counted : Bool → ℕ → ℕ
counted true n = suc n
counted false n = n

module _ (tools : Tools) where
  unfoldable pub insert_contexts :
      String → String → BTreeMap String ContextInfo → FactTables → Result FactTables
  unfolding insert_context
  insert_contexts cik accession [] db = ok db
  insert_contexts cik accession ((id, ctx) ∷ rest) db =
      insert_context tools cik accession ctx db >>= insert_contexts cik accession rest

  unfoldable pub insert_units :
      String → String → BTreeMap String UnitInfo → FactTables → Result FactTables
  unfolding insert_unit
  insert_units cik accession [] db = ok db
  insert_units cik accession ((id, unit) ∷ rest) db =
      insert_unit tools cik accession unit db >>= insert_units cik accession rest

  unfoldable pub insert_facts : List RawFact → Progress → Result Progress
  unfolding insert_raw_fact insert_canonical_observation
  insert_facts [] p = ok p
  insert_facts (fact ∷ facts) p = do
    raw ← insert_raw_fact tools fact p.tables
    selected ← insert_canonical_observation tools fact raw.0
    insert_facts facts (record p {
      tables = selected.0;
      raw_inserted = counted raw.1 p.raw_inserted;
      selected_inserted = counted selected.1 p.selected_inserted;
    })

  module _ {Date Data : Type 0} (calendar : Calendar Date) (files : Files Data)
      (source : Source) where
    -- The contexts of a document, with its fiscal metadata applied.
    unfoldable pub read_contexts : Node → BTreeMap String ContextInfo
    unfolding parse_contexts parse_filing_fiscal_metadata apply_filing_fiscal_metadata
    read_contexts root =
        apply_filing_fiscal_metadata tools calendar source.cik source.accession
          (parse_filing_fiscal_metadata tools calendar root)
          (parse_contexts tools calendar source.cik source.accession root)

    unfoldable pub facts_of :
        String → Node → BTreeMap String ContextInfo → BTreeMap String UnitInfo → List RawFact
    unfolding parse_inline_facts parse_classic_facts
    facts_of kind root contexts units =
        if kind == "inline_xbrl"
        then parse_inline_facts tools source contexts units root
        else parse_classic_facts tools source contexts units root

    -- A document that parsed, or the error that is kept.
    unfoldable pub parse_document : PackageFile Data → Result Node → Progress → Result Progress
    unfolding insert_contexts insert_units insert_facts read_contexts parse_units facts_of
    parse_document file (err e) p =
        ok (record p { parse_errors = p.parse_errors ++ (format (file.name ∷ ": " ∷ e ∷ []) ∷ []) })
    parse_document file (ok root) p =
        let contexts = read_contexts root in
        let units = parse_units tools source.cik source.accession root in
        do
          with_contexts ← insert_contexts source.cik source.accession contexts p.tables
          with_units ← insert_units source.cik source.accession units with_contexts
          insert_facts (facts_of file.kind root contexts units) (record p { tables = with_units })

    abbrev pub document_of : PackageFile Data → SourceDocument
    document_of file = record {
      doc_id = source.doc_id;
      cik = source.cik;
      accession_number = source.accession;
      form = source.form;
      filed_at = source.filed_at;
      source_url = file.url;
      local_path = file.path;
      sha256 = file.hash;
      document_kind = file.kind;
    }

    -- What the loop's body does before it reads the document.
    unfoldable pub begin : PackageFile Data → Progress → Progress
    unfolding insert_document
    begin file p = record p {
      tables = insert_document (document_of file) p.tables;
      index_doc_id = if file.name == "index.json" then source.doc_id else p.index_doc_id;
      documents_stored = suc p.documents_stored;
    }

    abbrev pub is_read : PackageFile Data → Bool
    is_read file = file.kind == "inline_xbrl" || file.kind == "xbrl_instance"

    -- The loop's body once the id of the document is in `source`.
    unfoldable pub parse_stored : PackageFile Data → Progress → Result Progress
    unfolding parse_document insert_document begin
    parse_stored file p =
        if is_read file
        then parse_document file (files.parse_xml file.bytes) (begin file p)
        else ok (begin file p)

  module _ {Date Data : Type 0} (calendar : Calendar Date) (files : Files Data)
      (source : Source) where
    -- The source with the id of a document.
    unfoldable pub source_of : PackageFile Data → Source
    unfolding source_document_id
    source_of file = record source {
      doc_id = source_document_id tools source.cik file.url file.hash;
    }

    unfoldable pub parse_file : PackageFile Data → Progress → Result Progress
    unfolding parse_stored source_document_id source_of
    parse_file file p = parse_stored calendar files (source_of file) file p

    unfoldable pub parse_files : List (PackageFile Data) → Progress → Result Progress
    unfolding parse_file
    parse_files [] p = ok p
    parse_files (file ∷ rest) p = parse_file file p >>= parse_files rest
