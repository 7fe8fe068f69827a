-- ===== src/Registry/Seed.antt =====
-- Seeding the reference tables: `seed_product_types`, `seed_algorithm_registry` and
-- `seed_resource_declarations` of cli/src/framework/registry.rs, with the CHECK and UNIQUE
-- constraints of schema.sql.
use text.Mathlib.Text.{◌==◌}
use sec_fa.Prelude.{
  zero, suc, String, Bool, true, false, not, ◌&&◌, List, [], ◌∷◌, any, if◌then◌else◌,
}
use sec_fa.Prelude.Text.{format}
use sec_fa.Outcome.{Result, ok, err, ◌>>=◌, ◌>>◌, bail_if}
use sec_fa.Json.{ℤ, pos, int, text_array}
use sec_fa.Serde.{Serde, to_canonical_json}
use sec_fa.Registry.{ProductType, Algorithm, ResourceDeclaration, AlgorithmRow, ResourceRow, Tables}
use sec_fa.Registry.Known.{known_resource_declarations}

abbrev pub contains : List String → String → Bool
contains xs s = any (λ x. x == s) xs

abbrev pub is_hazard_class : String → Bool
is_hazard_class = contains ("A" ∷ "B" ∷ "C" ∷ [])

abbrev pub is_purity : String → Bool
is_purity = contains ("pure" ∷ "deterministic_io" ∷ "external_read" ∷ "external_write" ∷ [])

abbrev pub is_executable_kind : String → Bool
is_executable_kind =
    contains ("builtin" ∷ "rust_operation" ∷ "command" ∷ "c_abi" ∷ "noop_test" ∷ [])

abbrev pub is_resource_kind : String → Bool
is_resource_kind = contains (
    "cpu" ∷ "sqlite" ∷ "filesystem" ∷ "sec_http" ∷ "market_data_http" ∷ "broker" ∷ "notification"
    ∷ "clock" ∷ [])

-- `INSERT .. ON CONFLICT(key) DO UPDATE`: the row with the key is replaced in its place.
module _ {A : Type 0} (same_key : A → A → Bool) where
  unfoldable pub upsert_row : A → List A → List A
  upsert_row row [] = row ∷ []
  upsert_row row (r ∷ rows) = if same_key r row then row ∷ rows else r ∷ upsert_row row rows

unfoldable pub same_type : ProductType → ProductType → Bool
same_type r s = r.product_type == s.product_type

unfoldable pub same_algorithm : AlgorithmRow → AlgorithmRow → Bool
same_algorithm r s = r.algorithm_id == s.algorithm_id

unfoldable pub same_resource : ResourceRow → ResourceRow → Bool
same_resource r s = r.resource_id == s.resource_id

unfoldable pub upsert_product_type : Tables → ProductType → Result Tables
unfolding upsert_row same_type
upsert_product_type t row =
    if is_hazard_class row.hazard_class
    then ok (record t { product_types = upsert_row same_type row t.product_types })
    else err "CHECK constraint failed: hazard_class"

pub record ProductTypeBootstrap : Type 0 where
  pub spec_version : ℤ
  pub product_types : List ProductType

unfoldable pub upsert_product_types : Tables → List ProductType → Result Tables
unfolding upsert_product_type
upsert_product_types t [] = ok t
upsert_product_types t (row ∷ rows) = do
  t' ← upsert_product_type t row
  upsert_product_types t' rows

abbrev pub is_one : ℤ → Bool
is_one (pos (suc zero)) = true
is_one _ = false

module _ (serde : Serde) where
  unfoldable pub seed_product_types : Tables → ProductTypeBootstrap → Result Tables
  unfolding upsert_product_types
  seed_product_types t parsed = do
    bail_if (not (is_one parsed.spec_version)) (
        format (
          "unsupported product type bootstrap spec_version="
          ∷ serde.number_text (int parsed.spec_version)
          ∷ []))
    upsert_product_types t parsed.product_types

pub record AlgorithmBootstrap : Type 0 where
  pub spec_version : ℤ
  pub algorithms : List Algorithm

-- Another algorithm has the row's name and version.
abbrev pub name_taken : AlgorithmRow → AlgorithmRow → Bool
name_taken row r =
    not (r.algorithm_id == row.algorithm_id)
    && (r.algorithm_name == row.algorithm_name)
    && (r.algorithm_version == row.algorithm_version)

unfoldable pub upsert_algorithm : Tables → AlgorithmRow → Result Tables
unfolding upsert_row same_algorithm
upsert_algorithm t row =
    if not (
      is_hazard_class row.hazard_class
      && is_purity row.purity
      && is_executable_kind row.executable_kind)
    then err "CHECK constraint failed"
    else if any (name_taken row) t.algorithm_registry
    then err "UNIQUE constraint failed"
    else ok (record t { algorithm_registry = upsert_row same_algorithm row t.algorithm_registry })

unfoldable pub upsert_resource : Tables → ResourceRow → Result Tables
unfolding upsert_row same_resource
upsert_resource t row =
    if is_hazard_class row.hazard_class && is_resource_kind row.resource_kind
    then ok
        (record t { resource_declarations = upsert_row same_resource row t.resource_declarations })
    else err "CHECK constraint failed"

module _ (serde : Serde) (now : String) where
  abbrev pub row_of_algorithm : Algorithm → AlgorithmRow
  row_of_algorithm a = record {
    algorithm_id = a.algorithm_id;
    algorithm_name = a.algorithm_name;
    algorithm_version = a.algorithm_version;
    hazard_class = a.hazard_class;
    purity = a.purity;
    deterministic = if a.deterministic then pos 1 else pos 0;
    executable_kind = a.executable_kind;
    executable_ref = a.executable_ref;
    input_contract_json = to_canonical_json serde (text_array a.inputs);
    output_contract_json = to_canonical_json serde (text_array a.outputs);
    resource_contract_json = to_canonical_json serde (text_array a.resources);
    forbidden_resource_json = to_canonical_json serde (text_array a.forbidden_resources);
    created_at = now;
  }

  unfoldable pub seed_algorithms : Tables → List Algorithm → Result Tables
  unfolding upsert_algorithm
  seed_algorithms t [] = ok t
  seed_algorithms t (a ∷ rest) = do
    t' ← upsert_algorithm t (row_of_algorithm a)
    seed_algorithms t' rest

  unfoldable pub seed_algorithm_registry : Tables → AlgorithmBootstrap → Result Tables
  unfolding seed_algorithms
  seed_algorithm_registry t parsed = do
    bail_if (not (is_one parsed.spec_version)) (
        format (
          "unsupported algorithm bootstrap spec_version="
          ∷ serde.number_text (int parsed.spec_version)
          ∷ []))
    seed_algorithms t parsed.algorithms

  abbrev pub row_of_resource : ResourceDeclaration → ResourceRow
  row_of_resource r = record {
    resource_id = r.resource_id;
    resource_kind = r.resource_kind;
    max_concurrent = r.max_concurrent;
    min_interval_ms = r.min_interval_ms;
    allowed_modes_json = to_canonical_json serde (text_array r.allowed_modes);
    hazard_class = r.hazard_class;
    description = r.description;
  }

  unfoldable pub seed_resources : Tables → List ResourceDeclaration → Result Tables
  unfolding upsert_resource
  seed_resources t [] = ok t
  seed_resources t (r ∷ rest) = do
    t' ← upsert_resource t (row_of_resource r)
    seed_resources t' rest

  unfoldable pub seed_resource_declarations : Tables → Result Tables
  unfolding seed_resources known_resource_declarations
  seed_resource_declarations t = seed_resources t known_resource_declarations

  unfoldable pub seed_product_graph_reference_data :
      Tables → ProductTypeBootstrap → AlgorithmBootstrap → Result Tables
  unfolding seed_product_types seed_algorithm_registry seed_resource_declarations
  seed_product_graph_reference_data t types algorithms = do
    t₁ ← seed_product_types serde t types
    t₂ ← seed_algorithm_registry t₁ algorithms
    seed_resource_declarations t₂
