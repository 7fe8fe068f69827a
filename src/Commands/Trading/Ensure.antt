-- ===== src/Commands/Trading/Ensure.antt =====
-- ensure_db of cli/src/main.rs, which each command runs before its transaction, on a database that
-- is initialized. Each statement is committed on its own, so a failure keeps those before it. Of
-- what it does to tables that no trading command reads (columns of older databases, the metrics
-- and their concepts, the total dimension signature, the peer groups of securities), nothing is
-- modelled.
use text.Mathlib.Text.{◌==◌}
use sec_fa.Prelude.{◌+◌, String, not, List, [], ◌∷◌, any, if◌then◌else◌}
use sec_fa.Prelude.Text.{format}
use sec_fa.Outcome.{Result, ok, err, bail_if}
use sec_fa.Json.{ℤ, int}
use sec_fa.Registry.{Tables, ProductType, Algorithm, ResourceDeclaration}
use sec_fa.Registry.Seed.{
  upsert_product_type, upsert_algorithm, upsert_resource, row_of_algorithm, row_of_resource, is_one,
}
use sec_fa.Registry.Known.{known_resource_declarations}
use sec_fa.Commands.Trading.Rows.{Ledger, Machine, Command, SettingRow}

-- The operator `?` between statements that are committed one by one.
abbrev pub and_then {ℓ} :
    {A : Type ℓ} → Result (Unit {0}) × Ledger → (Ledger → Result A × Ledger) → Result A × Ledger
and_then (ok u, s) next = next s
and_then (err e, s) next = (err e, s)

-- INSERT OR IGNORE INTO settings.
abbrev pub add_setting : String → String → String → List SettingRow → List SettingRow
add_setting key value now rows =
    if any (λ (row : SettingRow). row.key == key) rows
    then rows
    else record { key = key; value = value; updated_at = now } ∷ rows

-- A statement on the reference tables, or its error. Each counts as a reading of the clock.
abbrev pub statement : Result Tables → Command (Unit {0})
statement (ok tables) s = (ok tt, record s { tables = tables; ticks = s.ticks + 1 })
statement (err e) s = (err e, s)

unfoldable pub each {ℓ} : {A : Type ℓ} → (A → Command (Unit {0})) → List A → Command (Unit {0})
each run [] s = (ok tt, s)
each run (a ∷ rest) s = and_then (run a s) (each run rest)

module _ (m : Machine) where
  unfoldable pub version_checked : String → ℤ → Command (Unit {0})
  unfolding bail_if
  version_checked what version s = (
    bail_if (not (is_one version)) (
        format (
          "unsupported "
          ∷ what
          ∷ " bootstrap spec_version="
          ∷ m.serde.number_text (int version)
          ∷ [])),
    s,
  )

  unfoldable pub put_product_type : ProductType → Command (Unit {0})
  unfolding upsert_product_type
  put_product_type row s = statement (upsert_product_type s.tables row) s

  unfoldable pub put_algorithm : Algorithm → Command (Unit {0})
  unfolding upsert_algorithm
  put_algorithm a s =
      statement (upsert_algorithm s.tables (row_of_algorithm m.serde (m.clock s.ticks) a)) s

  unfoldable pub put_resource : ResourceDeclaration → Command (Unit {0})
  unfolding upsert_resource
  put_resource r s =
      statement (upsert_resource s.tables (row_of_resource m.serde (m.clock s.ticks) r)) s

  -- seed_product_graph_reference_data.
  unfoldable pub seed_registry : Command (Unit {0})
  unfolding each version_checked put_product_type put_algorithm put_resource
      known_resource_declarations bail_if
  seed_registry s = and_then (version_checked "product type" m.types.spec_version s) (λ s.
      and_then (each put_product_type m.types.product_types s) (λ s.
        and_then (version_checked "algorithm" m.algorithms.spec_version s) (λ s.
          and_then (each put_algorithm m.algorithms.algorithms s)
            (each put_resource known_resource_declarations))))

  abbrev pub with_settings : Ledger → Ledger
  with_settings s = record s {
    settings = add_setting "trading_mode" "observe" (m.clock s.ticks) s.settings;
    ticks = s.ticks + 1;
  }

  -- seed_reference_data: the schema, then the registry.
  unfoldable pub ensure_db : Command (Unit {0})
  unfolding seed_registry
  ensure_db s = and_then (m.schema_found, s) (λ s. seed_registry (with_settings s))

  abbrev pub ensured {ℓ} : {A : Type ℓ} → (Ledger → Result A × Ledger) → Ledger → Result A × Ledger
  ensured next s = and_then (ensure_db s) next
