-- ===== src/Filings/Stored.antt =====
-- When a context of filings/src/lib.rs is stored.
use text.Mathlib.Text.{◌==◌}
use sec_fa.Prelude.{
  String, ◌≡◌, ◌↔◌, refl, sym, subst, ap, ◌∙◌, inl, inr, Bool, true, false, not, ◌&&◌, ◌||◌, [],
  ◌∷◌, any, All, arith, Bool-cases,
}
use sec_fa.Outcome.{ok, IsOk}
use sec_fa.BTreeMap.{BTreeMap}
use sec_fa.Filings.{Tools, ContextInfo, UnitInfo}
use sec_fa.Filings.Tables.{
  FactTables, has_signature, has_period, has_context, has_unit, period_check, insert_signature,
  insert_period, insert_row,
}
use sec_fa.Filings.Inserts.{insert_context, insert_unit, tables_of, prepared, add_context, add_unit}
use sec_fa.Filings.Package.{insert_contexts, insert_units}
use sec_fa.Filings.Stores.{
  Grows, grows, Grows-refl, Grows-trans, insert_signature-Grows, insert_period-Grows, insert_row-ok,
  kept, kept_behind, eq_self, first_behind,
}

IsOk-insert_row :
    (ignored references : Bool) (db added : FactTables)
    → IsOk (tables_of (insert_row ignored references db added)) ↔ ((ignored || references) ≡ true)
IsOk-insert_row true references db added = (λ h. refl, λ h. tt)
IsOk-insert_row false true db added = (λ h. refl, λ h. tt)
IsOk-insert_row false false db added = (λ h. absurd h, λ h. absurd (cc))

insert_signature-rest :
    (ctx : ContextInfo) (db : FactTables)
    → ((insert_signature ctx db).reporting_periods ≡ db.reporting_periods)
      × ((insert_signature ctx db).xbrl_contexts ≡ db.xbrl_contexts)
insert_signature-rest ctx db = elim (Bool-cases (has_signature db ctx.dimensions_hash)) [
  | inl e ↦ rw e (refl, refl)
  | inr e ↦ rw e (refl, refl)
]

insert_period-rest :
    (cik accession : String) (ctx : ContextInfo) (db : FactTables)
    → (insert_period cik accession ctx db).xbrl_contexts ≡ db.xbrl_contexts
unfolding period_check insert_period
insert_period-rest cik accession ctx db =
    elim (Bool-cases (has_period db ctx.period_id || not (period_check ctx.period))) [
      | inl e ↦ rw e
      | inr e ↦ rw e
    ]

-- The rows of a context are there.
abbrev pub StoredContext : FactTables → ContextInfo → Type 0
StoredContext db ctx =
    (has_context db ctx.context_id ≡ true)
    × (has_period db ctx.period_id ≡ true)
    × (has_signature db ctx.dimensions_hash ≡ true)

pub StoredContext-Grows :
    {tools : Tools} {a b : FactTables}
    → Grows tools a b
    → (ctx : ContextInfo) → StoredContext a ctx
    → StoredContext b ctx
StoredContext-Grows g ctx h = (g.contexts _ h.0, g.periods _ h.1, g.signatures _ h.2)

abbrev pub StoredUnit : FactTables → UnitInfo → Type 0
StoredUnit db u = has_unit db u.unit_id ≡ true

module _ (tools : Tools) (cik accession : String) where
  prepared-Grows :
      (ctx : ContextInfo) (db : FactTables) → Grows tools db (prepared tools cik accession ctx db)
  prepared-Grows ctx db =
      Grows-trans tools ((insert_signature-Grows tools ctx db).0)
        ((insert_period-Grows tools cik accession ctx (insert_signature ctx db)).0)

  prepared-period :
      (ctx : ContextInfo) (db : FactTables)
      → has_period (prepared tools cik accession ctx db) ctx.period_id
        ≡ (has_period db ctx.period_id || period_check ctx.period)
  prepared-period ctx db =
      (insert_period-Grows tools cik accession ctx (insert_signature ctx db)).1
      ∙ ap (λ rows. any (λ r. r.period_id == ctx.period_id) rows || period_check ctx.period)
          ((insert_signature-rest ctx db).0)

  prepared-signature :
      (ctx : ContextInfo) (db : FactTables)
      → has_signature (prepared tools cik accession ctx db) ctx.dimensions_hash ≡ true
  prepared-signature ctx db =
      (insert_period-Grows tools cik accession ctx (insert_signature ctx db)).0.signatures _
        ((insert_signature-Grows tools ctx db).1)

  prepared-context :
      (ctx : ContextInfo) (db : FactTables)
      → has_context (prepared tools cik accession ctx db) ctx.context_id
        ≡ has_context db ctx.context_id
  prepared-context ctx db =
      ap (λ rows. any (λ r. r.context.context_id == ctx.context_id) rows)
        (insert_period-rest cik accession ctx (insert_signature ctx db)
          ∙ (insert_signature-rest ctx db).1)

  -- Storing a context fails exactly when neither the context nor its period is there yet and the
  -- period is not an instant with its date or a duration with both of its dates.
  pub insert_context-IsOk :
      (ctx : ContextInfo) (db : FactTables)
      → IsOk (insert_context tools cik accession ctx db) ↔ (
          (has_context db ctx.context_id
            || (has_period db ctx.period_id || period_check ctx.period))
          ≡ true)
  unfolding insert_context
  insert_context-IsOk ctx db =
      let row = prepared tools cik accession ctx db in
      let stored =
        IsOk-insert_row (has_context db ctx.context_id)
          ((has_period db ctx.period_id || period_check ctx.period) && true) row
          (add_context tools cik accession ctx row) in
      rw (prepared-context ctx db, prepared-period ctx db, prepared-signature ctx db)
        ((λ h. let e = stored.0 h in ground (arith, e)), (λ h. stored.1 (ground (arith, h))))

  insert_context-ok :
      (ctx : ContextInfo) (db : FactTables)
      → period_check ctx.period ≡ true
      → (after : FactTables) × (insert_context tools cik accession ctx db ≡ ok after)
        × Grows tools db after
        × StoredContext after ctx
  unfolding insert_context
  insert_context-ok ctx db h =
      let row = prepared tools cik accession ctx db in
      let added = add_context tools cik accession ctx row in
      let has_row : has_period row ctx.period_id ≡ true =
        prepared-period ctx db ∙ (let e = h in ground (arith, e)) in
      let has_dims = prepared-signature ctx db in
      let (r, e, g, known) =
        insert_row-ok tools (has_context row ctx.context_id)
          (has_period row ctx.period_id && has_signature row ctx.dimensions_hash) row added
          (λ k. ground (arith, has_row, has_dims))
          (grows tools (kept _) (kept _) (kept _) (kept_behind _ _) (kept _) refl refl (λ k. k)) in
      let has_it : has_context (r.0) ctx.context_id ≡ true = elim known [
        | inl k ↦ subst (λ db. has_context db ctx.context_id ≡ true) (sym k.1) k.0
        | inr k ↦
            subst (λ db. has_context db ctx.context_id ≡ true) (sym k)
              (first_behind _ _ (eq_self ctx.context_id))
      ] in
      (
        r.0,
        ap tables_of e,
        Grows-trans tools (prepared-Grows ctx db) g,
        (has_it, g.periods _ has_row, g.signatures _ has_dims),
      )

  -- Contexts whose periods pass the CHECK are all stored.
  pub insert_contexts-ok :
      (contexts : BTreeMap String ContextInfo) (db : FactTables)
      → All (λ e. period_check (e.1.period) ≡ true) contexts
      → (after : FactTables) × (insert_contexts tools cik accession contexts db ≡ ok after)
        × Grows tools db after
        × All (λ e. StoredContext after (e.1)) contexts
  unfolding insert_contexts
  insert_contexts-ok [] db h = (db, refl, Grows-refl tools db, tt)
  insert_contexts-ok ((id, ctx) ∷ rest) db h =
      let (one, e, g, s) = insert_context-ok ctx db h.0 in
      let (all, f, k, t) = insert_contexts-ok rest one h.1 in
      (all, rw e f, Grows-trans tools g k, (StoredContext-Grows k ctx s, t))

  insert_unit-ok :
      (unit : UnitInfo) (db : FactTables)
      → (after : FactTables) × (insert_unit tools cik accession unit db ≡ ok after)
        × Grows tools db after
        × StoredUnit after unit
  unfolding insert_unit
  insert_unit-ok unit db = elim (Bool-cases (has_unit db unit.unit_id)) [
    | inl e ↦ (db, rw e, Grows-refl tools db, e)
    | inr e ↦ (
      add_unit tools cik accession unit db,
      rw e,
      grows tools (kept _) (kept _) (kept _) (kept _) (kept_behind _ _) refl refl (λ k. k),
      first_behind _ _ (eq_self unit.unit_id),
    )
  ]

  pub insert_units-ok :
      (units : BTreeMap String UnitInfo) (db : FactTables)
      → (after : FactTables) × (insert_units tools cik accession units db ≡ ok after)
        × Grows tools db after
        × All (λ e. StoredUnit after (e.1)) units
  unfolding insert_units
  insert_units-ok [] db = (db, refl, Grows-refl tools db, tt)
  insert_units-ok ((id, unit) ∷ rest) db =
      let (one, e, g, s) = insert_unit-ok unit db in
      let (all, f, k, t) = insert_units-ok rest one in
      (all, rw e f, Grows-trans tools g k, (k.units _ s, t))
