-- ===== src/Filings/Package/Parsed.antt =====
-- When parse_xbrl_package of filings/src/lib.rs stores a file without an error.
use text.Mathlib.Text.{◌==◌}
use sec_fa.Prelude.{
  String, ◌≡◌, refl, inl, inr, true, List, [], ◌∷◌, any, All, Bool-cases, arith, not, ◌||◌,
}
use sec_fa.Outcome.{Result, ok, err, IsOk, IsOk-of_eq}
use sec_fa.BTreeMap.{BTreeMap}
use sec_fa.Filings.{Tools, Calendar, ContextInfo, UnitInfo}
use sec_fa.Filings.Xml.{Node}
use sec_fa.Filings.Contexts.{parse_units}
use sec_fa.Filings.Facts.{Source}
use sec_fa.Filings.Facts.Fit.{parse_inline_facts-Fits, parse_classic_facts-Fits, Ready}
use sec_fa.Filings.Tables.{FactTables, SourceDocument, has_document, period_check}
use sec_fa.Filings.Stores.{
  Grows, Grows-refl, Grows-trans, grows, kept, kept_behind, eq_self, first_behind, HashedFacts,
}
use sec_fa.Filings.Stored.{insert_contexts-ok, insert_units-ok, StoredContext, StoredContext-Grows}
use sec_fa.Filings.Observed.{Seeded, Seeded-Grows, Fits, insert_facts-ok}
use sec_fa.Filings.Package.{
  Files, PackageFile, Progress, insert_document, read_contexts, facts_of, parse_document,
  parse_stored, parse_file, begin, is_read, source_of, document_of,
}

module _ (tools : Tools) {Date Data : Type 0} (calendar : Calendar Date) (files : Files Data) where
  facts_of-Fits :
      (source : Source) (kind : String) (root : Node) (contexts : BTreeMap String ContextInfo)
      (units : BTreeMap String UnitInfo) (db : FactTables)
      → Ready tools source contexts units db
      → All (Fits tools db) (facts_of tools calendar files source kind root contexts units)
  unfolding facts_of
  facts_of-Fits source kind root contexts units db ready =
      elim (Bool-cases (kind == "inline_xbrl")) [
        | inl e ↦ rw e (parse_inline_facts-Fits tools source contexts units db root ready)
        | inr e ↦ rw e (parse_classic_facts-Fits tools source contexts units db root ready)
      ]

  contexts_kept :
      {a b : FactTables}
      → Grows tools a b
      → (contexts : BTreeMap String ContextInfo) → All (λ e. StoredContext a (e.1)) contexts
      → All (λ e. StoredContext b (e.1)) contexts
  contexts_kept g [] h = tt
  contexts_kept g ((id, ctx) ∷ rest) h = (StoredContext-Grows g ctx h.0, contexts_kept g rest h.1)

  parse_document-ok :
      (source : Source) (file : PackageFile Data) (document : Result Node) (p : Progress)
      → ((root : Node)
          → document ≡ ok root
          → All
              (λ e. period_check (e.1.period) ≡ true)
              (read_contexts tools calendar files source root))
      → has_document p.tables source.doc_id ≡ true
      → Seeded tools p.tables
      → HashedFacts tools p.tables
      → (q : Progress) × (parse_document tools calendar files source file document p ≡ ok q)
  unfolding parse_document
  parse_document-ok source file (err e) p periods d s h = (_, refl)
  parse_document-ok source file (ok root) p periods d s h =
      let contexts = read_contexts tools calendar files source root in
      let units = parse_units tools source.cik source.accession root in
      let (c, e, g, stored) =
        insert_contexts-ok tools source.cik source.accession contexts p.tables
          (periods root refl) in
      let (u, f, k, known) = insert_units-ok tools source.cik source.accession units c in
      let all = Grows-trans tools g k in
      let now : Progress = record p { tables = u } in
      let (q, done) =
        insert_facts-ok tools (facts_of tools calendar files source file.kind root contexts units)
          now (Seeded-Grows tools all s) (all.hashed h)
          (facts_of-Fits source file.kind root contexts units u
            (all.documents _ d, contexts_kept k contexts stored, known)) in
      (q, rw (e, f) done)

  -- The document is there, or no document with the same bytes is.
  abbrev pub MayStore : SourceDocument → FactTables → Type 0
  MayStore d db =
      (has_document db d.doc_id || not (any (λ r. r.sha256 == d.sha256) db.source_documents)) ≡ true

  is_known :
      (d : SourceDocument) (rows : List SourceDocument)
      → any (λ r. r.doc_id == d.doc_id || r.sha256 == d.sha256) rows ≡ true
      → (any (λ r. r.doc_id == d.doc_id) rows || any (λ r. r.sha256 == d.sha256) rows) ≡ true
  is_known d [] h = absurd (cc)
  is_known d (r ∷ rows) h = let rest = is_known d rows in ground (arith, h, rest)

  insert_document-has :
      (d : SourceDocument) (db : FactTables)
      → MayStore d db
      → has_document (insert_document d db) d.doc_id ≡ true
  unfolding insert_document
  insert_document-has d db m =
      elim (Bool-cases
        (any (λ r. r.doc_id == d.doc_id || r.sha256 == d.sha256) db.source_documents)) [
          | inl e ↦ let k = is_known d db.source_documents e in rw e (ground (arith, m, k))
          | inr e ↦ rw e (first_behind _ _ (eq_self d.doc_id))
        ]

  insert_document-Grows :
      (d : SourceDocument) (db : FactTables) → Grows tools db (insert_document d db)
  unfolding insert_document
  insert_document-Grows d db =
      elim (Bool-cases
        (any (λ r. r.doc_id == d.doc_id || r.sha256 == d.sha256) db.source_documents)) [
          | inl e ↦ rw e (Grows-refl tools db)
          | inr e ↦
              rw e (
                grows tools (kept_behind _ _) (kept _) (kept _) (kept _) (kept _) refl refl
                  (λ k. k))
        ]

  -- Storing a file of a package succeeds if the document is not shadowed by another with the same
  -- bytes, the periods of all its contexts pass the CHECK of reporting_periods (when it parses at
  -- all), the metrics and bases of the concepts are in their tables, and the ids of the facts that
  -- are there are made of their hashes.
  pub parse_file-IsOk :
      (source : Source) (file : PackageFile Data) (p : Progress)
      → ((root : Node)
          → files.parse_xml file.bytes ≡ ok root
          → All
              (λ e. period_check (e.1.period) ≡ true)
              (read_contexts tools calendar files
                (source_of tools calendar files source file)
                root))
      → MayStore
          (document_of tools calendar files (source_of tools calendar files source file) file)
          p.tables
      → Seeded tools p.tables
      → HashedFacts tools p.tables
      → IsOk (parse_file tools calendar files source file p)
  unfolding parse_file parse_stored begin source_of
  parse_file-IsOk source file p periods m s h =
      let here = source_of tools calendar files source file in
      let d = document_of tools calendar files here file in
      let next = begin tools calendar files here file p in
      let grown = insert_document-Grows d p.tables in
      let known = insert_document-has d p.tables m in
      elim (Bool-cases (is_read tools calendar files here file)) [
        | inl e ↦ rw e (
            let (q, done) =
              parse_document-ok here file (files.parse_xml file.bytes) next periods known
                (Seeded-Grows tools grown s) (grown.hashed h) in
            IsOk-of_eq done)
        | inr e ↦ rw e tt
      ]
