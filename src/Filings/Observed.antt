-- ===== src/Filings/Observed.antt =====
-- When the facts of filings/src/lib.rs and their observations are stored.
use text.Mathlib.Text.{◌==◌}
use sec_fa.Prelude.{
  String, ◌≡◌, refl, sym, subst, ap, ◌∙◌, inl, inr, Bool, true, false, ◌&&◌, ◌||◌, Option, none,
  some, List, [], ◌∷◌, any, All, arith, Bool-cases, eq_iff,
}
use sec_fa.Outcome.{ok}
use sec_fa.Graph.Parser.Tokens.{Float}
use sec_fa.Filings.{Tools, UnitInfo, RawFact}
use sec_fa.Filings.Concepts.{CanonicalConcept, concept_candidate}
use sec_fa.Filings.Tables.{
  FactTables, Observation, has_document, has_period, has_signature, has_context, has_fact,
}
use sec_fa.Filings.Inserts.{
  insert_raw_fact, insert_canonical_observation, unit_stored, has_fact_hash, has_number,
  has_observation, insert_observation, insert_concept, insert_value, wrong_unit, unit_signature_of,
  observation_of,
}
use sec_fa.Filings.Package.{Progress, insert_facts, counted}
use sec_fa.Filings.Stores.{
  Grows, grows, Grows-refl, Grows-trans, insert_row-ok, HashedFacts, fact_id_of, kept, eq_self,
  first_behind,
}
use sec_fa.Filings.Stored.{StoredContext, StoredContext-Grows}

module _ (tools : Tools) where
  -- The metrics and bases of the concepts are there.
  unfoldable pub Seeded : FactTables → Type 0
  unfolding concept_candidate
  Seeded db =
      (key : String) (c : CanonicalConcept)
      → concept_candidate key ≡ some c
      → (has_number c.metric_id db.metric_definitions ≡ true)
        × (has_number c.basis_id db.measurement_bases ≡ true)

  -- All that a fact refers to is there, and its id is made of its hash.
  abbrev pub Fits : FactTables → RawFact → Type 0
  Fits db fact =
      (has_document db fact.source_doc_id ≡ true)
      × (StoredContext db fact.context)
      × (unit_stored db fact.unit ≡ true)
      × (fact.fact_id ≡ fact_id_of tools fact.raw_fact_hash)

  pub Fits-Grows :
      {a b : FactTables} → Grows tools a b → (fact : RawFact) → Fits a fact → Fits b fact
  Fits-Grows {a} {b} g fact (d, c, u, e) =
      (g.documents _ d, StoredContext-Grows g fact.context c, unit_kept fact.unit u, e)
    where
      unit_kept : (u : Option UnitInfo) → unit_stored a u ≡ true → unit_stored b u ≡ true
      unit_kept none h = refl
      unit_kept (some u) h = g.units _ h

  pub Seeded-Grows : {a b : FactTables} → Grows tools a b → Seeded a → Seeded b
  unfolding Seeded concept_candidate
  Seeded-Grows g s key c e =
      let (m, n) = s key c e in
      (
        subst (λ ids. has_number c.metric_id ids ≡ true) (sym g.metrics) m,
        subst (λ ids. has_number c.basis_id ids ≡ true) (sym g.bases) n,
      )

  hash_known :
      (hash : String) (rows : List RawFact)
      → All (λ r. r.fact_id ≡ fact_id_of tools r.raw_fact_hash) rows
      → any (λ r. r.raw_fact_hash == hash) rows ≡ true
      → any (λ r. r.fact_id == fact_id_of tools hash) rows ≡ true
  hash_known hash [] h e = absurd (cc)
  hash_known hash (r ∷ rows) h e = elim (Bool-cases (r.raw_fact_hash == hash)) [
    | inl k ↦ first_behind _ _ ((eq_iff _ _).1 (h.0 ∙ ap (fact_id_of tools) ((eq_iff _ _).0 k)))
    | inr k ↦ let rest = hash_known hash rows h.1 (ground (arith, e, k)) in ground (arith, rest)
  ]

  insert_raw_fact-ok :
      (fact : RawFact) (db : FactTables)
      → Fits db fact
      → HashedFacts tools db
      → (r : FactTables × Bool) × (insert_raw_fact tools fact db ≡ ok r)
        × Grows tools db (r.0)
        × (has_fact (r.0) fact.fact_id ≡ true)
  unfolding insert_raw_fact
  insert_raw_fact-ok fact db (d, c, u, e) h =
      let ignored = has_fact db fact.fact_id || has_fact_hash db fact.raw_fact_hash in
      let added : FactTables = record db { xbrl_facts = fact ∷ db.xbrl_facts } in
      let (has_context_row, p, q) = c in
      let (r, k, g, known) =
        insert_row-ok tools ignored
          (has_document db fact.source_doc_id
            && has_context db fact.context.context_id
            && unit_stored db fact.unit)
          db added (λ n. ground (arith, d, has_context_row, u))
          (grows tools (kept _) (kept _) (kept _) (kept _) (kept _) refl refl (λ n. (e, n))) in
      let same : ignored ≡ true → has_fact db fact.fact_id ≡ true = λ n.
        elim (Bool-cases (has_fact db fact.fact_id)) [
          | inl m ↦ m
          | inr m ↦
              subst (λ id. has_fact db id ≡ true) (sym e)
                (hash_known fact.raw_fact_hash db.xbrl_facts h (ground (arith, n, m)))
        ] in
      (
        r,
        k,
        g,
        elim known [
          | inl m ↦ subst (λ db. has_fact db fact.fact_id ≡ true) (sym m.1) (same m.0)
          | inr m ↦
              subst (λ db. has_fact db fact.fact_id ≡ true) (sym m)
                (first_behind _ _ (eq_self fact.fact_id))
        ],
      )

  insert_observation-ok :
      (o : Observation) (db : FactTables)
      → (has_number o.metric_id db.metric_definitions ≡ true)
      → (has_number o.basis_id db.measurement_bases ≡ true)
      → (has_period db o.period_id ≡ true)
      → (has_signature db o.dimensions_hash ≡ true)
      → (has_fact db o.source_fact_id ≡ true)
      → (r : FactTables × Bool) × (insert_observation tools o db ≡ ok r) × Grows tools db (r.0)
  insert_observation-ok o db m b p s f =
      let (r, k, g, known) =
        insert_row-ok tools (has_observation db o)
          (has_number o.metric_id db.metric_definitions
            && has_number o.basis_id db.measurement_bases
            && has_period db o.period_id
            && has_signature db o.dimensions_hash
            && has_fact db o.source_fact_id)
          db (record db { canonical_observations = o ∷ db.canonical_observations })
          (λ n. ground (arith, m, b, p, s, f))
          (grows tools (kept _) (kept _) (kept _) (kept _) (kept _) refl refl (λ n. n)) in
      (r, k, g)

  insert_concept-ok :
      (fact : RawFact) (value : Float) (key : String) (o : Option CanonicalConcept)
      (db : FactTables)
      → o ≡ concept_candidate key
      → Seeded db
      → Fits db fact
      → has_fact db fact.fact_id ≡ true
      → (r : FactTables × Bool) × (insert_concept tools fact value o db ≡ ok r)
        × Grows tools db (r.0)
  unfolding Seeded concept_candidate observation_of
  insert_concept-ok fact value key none db e s f h = ((db, false), refl, Grows-refl tools db)
  insert_concept-ok fact value key (some c) db e s (d, ctx, u, i) h =
      elim (Bool-cases (wrong_unit c (unit_signature_of fact.unit))) [
        | inl w ↦ ((db, false), rw w, Grows-refl tools db)
        | inr w ↦
            let (m, b) = s key c (sym e) in
            rw w (insert_observation-ok (observation_of tools fact c value) db m b ctx.1 ctx.2 h)
      ]

  insert_value-ok :
      (fact : RawFact) (v : Option Float) (db : FactTables)
      → Seeded db
      → Fits db fact
      → has_fact db fact.fact_id ≡ true
      → (r : FactTables × Bool) × (insert_value tools fact v db ≡ ok r) × Grows tools db (r.0)
  unfolding concept_candidate insert_value
  insert_value-ok fact none db s f h = ((db, false), refl, Grows-refl tools db)
  insert_value-ok fact (some value) db s f h =
      elim (Bool-cases (fact.context.scope_class == "consolidated_total")) [
        | inl w ↦ rw w (insert_concept-ok fact value _ _ db refl s f h)
        | inr w ↦ ((db, false), rw w, Grows-refl tools db)
      ]

  -- Facts that fit the tables are all stored, with their observations.
  pub insert_facts-ok :
      (facts : List RawFact) (p : Progress)
      → Seeded p.tables
      → HashedFacts tools p.tables
      → All (Fits p.tables) facts
      → (q : Progress) × (insert_facts tools facts p ≡ ok q)
  unfolding insert_facts insert_canonical_observation insert_value
  insert_facts-ok [] p s h f = (p, refl)
  insert_facts-ok (fact ∷ facts) p s h f =
      let (raw, e, g, known) = insert_raw_fact-ok fact p.tables f.0 h in
      let (selected, k, j) =
        insert_value-ok fact fact.value_decimal raw.0 (Seeded-Grows g s) (Fits-Grows g fact f.0)
          known in
      let all = Grows-trans tools g j in
      let next : Progress = record p {
        tables = selected.0;
        raw_inserted = counted raw.1 p.raw_inserted;
        selected_inserted = counted selected.1 p.selected_inserted;
      } in
      let (q, done) =
        insert_facts-ok facts next (Seeded-Grows all s) (all.hashed h) (fits_all all facts f.1) in
      (q, rw (e, k) done)
    where
      fits_all :
          {a b : FactTables}
          → Grows tools a b
          → (facts : List RawFact) → All (Fits a) facts
          → All (Fits b) facts
      fits_all g [] h = tt
      fits_all g (fact ∷ facts) h = (Fits-Grows g fact h.0, fits_all g facts h.1)
