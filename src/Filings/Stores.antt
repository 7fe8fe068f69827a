-- ===== src/Filings/Stores.antt =====
-- What an INSERT OR IGNORE of filings/src/lib.rs leaves in the tables.
use text.Mathlib.Text.{◌==◌}
use sec_fa.Prelude.{
  String, ◌≡◌, refl, ◌⊎◌, inl, inr, Bool, true, false, ◌||◌, [], ◌∷◌, All, arith, eq_iff, ◌∙◌,
  Bool-cases,
}
use sec_fa.Outcome.{ok}
use sec_fa.Json.{text_object}
use sec_fa.Filings.{Tools, ContextInfo, stable_id}
use sec_fa.Filings.Tables.{
  FactTables, has_document, has_signature, has_period, has_context, has_unit, period_check,
  insert_signature, insert_period, insert_row,
}

-- The id of a fact is made of its hash.
abbrev pub fact_id_of : Tools → String → String
unfolding stable_id
fact_id_of tools hash = stable_id tools "fact" (text_object (("raw_fact_hash", hash) ∷ []))

abbrev pub HashedFacts : Tools → FactTables → Type 0
HashedFacts tools db = All (λ r. r.fact_id ≡ fact_id_of tools r.raw_fact_hash) db.xbrl_facts

abbrev pub Keeps : (String → Bool) → (String → Bool) → Type 0
Keeps p q = (id : String) → p id ≡ true → q id ≡ true

-- No row is lost.
pub record Grows (tools : Tools) (db after : FactTables) : Type 0 where
  pub documents : Keeps (has_document db) (has_document after)
  pub signatures : Keeps (has_signature db) (has_signature after)
  pub periods : Keeps (has_period db) (has_period after)
  pub contexts : Keeps (has_context db) (has_context after)
  pub units : Keeps (has_unit db) (has_unit after)
  pub metrics : after.metric_definitions ≡ db.metric_definitions
  pub bases : after.measurement_bases ≡ db.measurement_bases
  pub hashed : HashedFacts tools db → HashedFacts tools after

-- A table to which no row, or one row, was added.
pub kept : (p : String → Bool) → Keeps p p
kept p id h = h

pub kept_behind : (p q : String → Bool) → Keeps p (λ id. q id || p id)
kept_behind p q id h = ground (arith, h)

pub eq_self : (s : String) → (s == s) ≡ true
eq_self s = (eq_iff s s).1 refl

pub first_behind : (a b : Bool) → a ≡ true → (a || b) ≡ true
first_behind a b h = ground (arith, h)

module _ (tools : Tools) where
  pub grows :
      {db after : FactTables}
      → Keeps (has_document db) (has_document after)
      → Keeps (has_signature db) (has_signature after)
      → Keeps (has_period db) (has_period after)
      → Keeps (has_context db) (has_context after)
      → Keeps (has_unit db) (has_unit after)
      → after.metric_definitions ≡ db.metric_definitions
      → after.measurement_bases ≡ db.measurement_bases
      → (HashedFacts tools db → HashedFacts tools after)
      → Grows tools db after
  grows d s p c u m b h = record {
    documents = d;
    signatures = s;
    periods = p;
    contexts = c;
    units = u;
    metrics = m;
    bases = b;
    hashed = h;
  }

  pub Grows-refl : (db : FactTables) → Grows tools db db
  Grows-refl db = grows (kept _) (kept _) (kept _) (kept _) (kept _) refl refl (λ h. h)

  pub Grows-trans : {a b c : FactTables} → Grows tools a b → Grows tools b c → Grows tools a c
  Grows-trans g h =
      grows (λ id e. h.documents id (g.documents id e))
        (λ id e. h.signatures id (g.signatures id e)) (λ id e. h.periods id (g.periods id e))
        (λ id e. h.contexts id (g.contexts id e)) (λ id e. h.units id (g.units id e))
        (h.metrics ∙ g.metrics) (h.bases ∙ g.bases) (λ e. h.hashed (g.hashed e))

  -- A row that is ignored, or whose references are there, is no error.
  pub insert_row-ok :
      (ignored references : Bool) (db added : FactTables)
      → (ignored ≡ false → references ≡ true)
      → Grows tools db added
      → (r : FactTables × Bool) × (insert_row ignored references db added ≡ ok r)
        × Grows tools db (r.0)
        × (((ignored ≡ true) × (r.0 ≡ db)) ⊎ (r.0 ≡ added))
  insert_row-ok true references db added h g = ((db, false), refl, Grows-refl db, inl (refl, refl))
  insert_row-ok false true db added h g = ((added, true), refl, g, inr refl)
  insert_row-ok false false db added h g = absurd (let e = h refl in cc)

  pub insert_signature-Grows :
      (ctx : ContextInfo) (db : FactTables)
      → Grows tools db (insert_signature ctx db)
        × (has_signature (insert_signature ctx db) ctx.dimensions_hash ≡ true)
  insert_signature-Grows ctx db = elim (Bool-cases (has_signature db ctx.dimensions_hash)) [
    | inl e ↦ rw e (Grows-refl db, e)
    | inr e ↦ rw e (
      grows (kept _) (kept_behind _ _) (kept _) (kept _) (kept _) refl refl (λ h. h),
      first_behind _ _ (eq_self ctx.dimensions_hash),
    )
  ]

  pub insert_period-Grows :
      (cik accession : String) (ctx : ContextInfo) (db : FactTables)
      → Grows tools db (insert_period cik accession ctx db)
        × (has_period (insert_period cik accession ctx db) ctx.period_id
            ≡ (has_period db ctx.period_id || period_check ctx.period))
  unfolding period_check insert_period
  insert_period-Grows cik accession ctx db = elim (Bool-cases (has_period db ctx.period_id)) [
    | inl e ↦ rw e (Grows-refl db, e)
    | inr e ↦ elim (Bool-cases (period_check ctx.period)) [
      | inl c ↦
          rw (e, c)
            (
              grows (kept _) (kept _) (kept_behind _ _) (kept _) (kept _) refl refl (λ h. h),
              first_behind _ _ (eq_self ctx.period_id),
            )
      | inr c ↦ rw (e, c) (Grows-refl db, e)
    ]
  ]
