-- ===== src/Filings/Inserts.antt =====
-- The functions insert_context, insert_unit, insert_raw_fact and insert_canonical_observation of
-- filings/src/lib.rs. The column quality_score, which is always 1, is left out, and so are values
-- that are not a number, which SQLite stores as NULL.
use text.Mathlib.Text.{◌==◌}
use Prim.Native.Nat.{◌^◌}
use sec_fa.Prelude.{
  ℕ, String, Bool, true, false, not, ◌&&◌, ◌||◌, Option, none, some, List, [], ◌∷◌, any, nat_eq,
  if◌then◌else◌,
}
use sec_fa.Prelude.Text.{format}
use sec_fa.Outcome.{Result, ok, ◌>>=◌}
use sec_fa.Replay.{int_text}
use sec_fa.Json.{pos, Value, number, int, object, fields_of, string, text_object}
use sec_fa.Graph.Parser.Tokens.{Float, json_float}
use sec_fa.Filings.{Tools, ContextInfo, UnitInfo, RawFact, stable_id}
use sec_fa.Filings.Concepts.{CanonicalConcept, concept_candidate, metric_name, metric_kind}
use sec_fa.Filings.Tables.{
  FactTables, Observation, has_document, has_signature, has_period, has_context, has_unit, has_fact,
  insert_signature, insert_period, insert_row,
}

-- An INSERT OR IGNORE whose count of changes is dropped.
abbrev pub tables_of : Result (FactTables × Bool) → Result FactTables
tables_of r = r >>= λ p. ok p.0

abbrev pub resolver_version : String
resolver_version = "canonical_resolver_v4"

abbrev quality_dimensional_fact : ℕ
quality_dimensional_fact = 2 ^ 16

abbrev pub unit_stored : FactTables → Option UnitInfo → Bool
unit_stored db none = true
unit_stored db (some u) = has_unit db u.unit_id

abbrev pub has_fact_hash : FactTables → String → Bool
has_fact_hash db hash = any (λ r. r.raw_fact_hash == hash) db.xbrl_facts

abbrev pub unit_signature_of : Option UnitInfo → String
unit_signature_of none = "unknown"
unit_signature_of (some u) = u.signature

abbrev pub wrong_unit : CanonicalConcept → String → Bool
wrong_unit concept signature =
    not (concept.unit == signature) && not (concept.unit == "USD/shares" && signature == "USD")

abbrev pub has_observation : FactTables → Observation → Bool
has_observation db o =
    any (λ r. r.observation_id == o.observation_id || r.observation_hash == o.observation_hash)
      db.canonical_observations

abbrev pub has_number : ℕ → List ℕ → Bool
has_number n ids = any (nat_eq n) ids

module _ (tools : Tools) where
  abbrev hash_of : Value → String
  hash_of v = tools.sha256_hex (tools.json_text v)

  module _ (cik accession : String) where
    abbrev pub add_context : ContextInfo → FactTables → FactTables
    add_context ctx db = record db {
      xbrl_contexts =
          record {
            cik = cik;
            accession_number = accession;
            context = ctx;
            raw_context_sha256 = hash_of (
                text_object (
                  ("raw_context_id", ctx.raw_id)
                  ∷ ("period_id", ctx.period_id)
                  ∷ ("dimensions_hash", ctx.dimensions_hash)
                  ∷ []));
          }
          ∷ db.xbrl_contexts;
    }

    -- The tables in which the row of a context is looked up.
    abbrev pub prepared : ContextInfo → FactTables → FactTables
    prepared ctx db = insert_period cik accession ctx (insert_signature ctx db)

    unfoldable pub insert_context : ContextInfo → FactTables → Result FactTables
    insert_context ctx db =
        let after = prepared ctx db in
        tables_of (
          insert_row (has_context after ctx.context_id)
            (has_period after ctx.period_id && has_signature after ctx.dimensions_hash) after
            (add_context ctx after))

    abbrev pub add_unit : UnitInfo → FactTables → FactTables
    add_unit unit db = record db {
      xbrl_units =
          record {
            cik = cik;
            accession_number = accession;
            unit = unit;
            raw_unit_sha256 =
                hash_of
                  (text_object (("raw_unit_id", unit.raw_id) ∷ ("signature", unit.signature) ∷ []));
          }
          ∷ db.xbrl_units;
    }

    unfoldable pub insert_unit : UnitInfo → FactTables → Result FactTables
    insert_unit unit db =
        tables_of (insert_row (has_unit db unit.unit_id) true db (add_unit unit db))

  unfoldable pub insert_raw_fact : RawFact → FactTables → Result (FactTables × Bool)
  insert_raw_fact fact db =
      insert_row (has_fact db fact.fact_id || has_fact_hash db fact.raw_fact_hash)
        (has_document db fact.source_doc_id
          && has_context db fact.context.context_id
          && unit_stored db fact.unit)
        db (record db { xbrl_facts = fact ∷ db.xbrl_facts })

  unfoldable pub observation_of : RawFact → CanonicalConcept → Float → Observation
  unfolding metric_name metric_kind stable_id
  observation_of fact concept value =
      let signature = unit_signature_of fact.unit in
      let hash = hash_of (
        object (
          fields_of (
            ("resolver_version", string resolver_version)
            ∷ ("security_id", number (int fact.security_id))
            ∷ ("metric_id", number (int (pos concept.metric_id)))
            ∷ ("basis_id", number (int (pos concept.basis_id)))
            ∷ ("period_id", string fact.context.period_id)
            ∷ ("value_decimal", json_float value)
            ∷ ("unit_signature", string signature)
            ∷ ("dimensions_hash", string fact.context.dimensions_hash)
            ∷ ("source_fact_id", string fact.fact_id)
            ∷ []))) in
      record {
        observation_id = stable_id tools "obs" (text_object (("observation_hash", hash) ∷ []));
        observation_hash = hash;
        resolver_version = resolver_version;
        security_id = fact.security_id;
        cik = fact.cik;
        metric_id = concept.metric_id;
        metric_name = metric_name concept.metric_id;
        metric_kind = metric_kind concept.metric_id;
        basis_id = concept.basis_id;
        period_id = fact.context.period_id;
        period_semantics = fact.context.period.period_semantics;
        duration_days = fact.context.period.duration_days;
        fiscal_year = fact.context.period.fiscal_year;
        fiscal_period = fact.context.period.fiscal_period;
        value_decimal = value;
        unit_signature = signature;
        dimensions_hash = fact.context.dimensions_hash;
        dimensional_scope = fact.context.scope_class;
        observation_status = "selected";
        source_fact_id = fact.fact_id;
        source_accession = fact.accession;
        taxonomy = fact.taxonomy;
        concept_qname = fact.concept_qname;
        selection_reason =
            format ("concept_candidate_priority_" ∷ int_text (pos concept.priority) ∷ []);
        quality_flags =
            if fact.context.scope_class == "consolidated_total"
            then 0
            else quality_dimensional_fact;
        quality_flags_json = "[]";
        accepted_at = fact.accepted_at;
        available_at = fact.available_at;
      }

  abbrev pub insert_observation : Observation → FactTables → Result (FactTables × Bool)
  insert_observation o db =
      insert_row (has_observation db o)
        (has_number o.metric_id db.metric_definitions
          && has_number o.basis_id db.measurement_bases
          && has_period db o.period_id
          && has_signature db o.dimensions_hash
          && has_fact db o.source_fact_id)
        db (record db { canonical_observations = o ∷ db.canonical_observations })

  abbrev pub insert_concept :
      RawFact → Float → Option CanonicalConcept → FactTables → Result (FactTables × Bool)
  insert_concept fact value none db = ok (db, false)
  insert_concept fact value (some concept) db =
      if wrong_unit concept (unit_signature_of fact.unit)
      then ok (db, false)
      else insert_observation (observation_of fact concept value) db

  unfoldable pub insert_value : RawFact → Option Float → FactTables → Result (FactTables × Bool)
  unfolding concept_candidate
  insert_value fact none db = ok (db, false)
  insert_value fact (some value) db =
      if not (fact.context.scope_class == "consolidated_total")
      then ok (db, false)
      else insert_concept fact value
          (concept_candidate (format (fact.taxonomy ∷ ":" ∷ fact.concept_local_name ∷ []))) db

  unfoldable pub insert_canonical_observation : RawFact → FactTables → Result (FactTables × Bool)
  unfolding observation_of concept_candidate insert_value
  insert_canonical_observation fact db = insert_value fact fact.value_decimal db
