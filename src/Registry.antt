-- ===== src/Registry.antt =====
-- cli/src/framework/registry.rs: the reference tables of schema.sql, their rows as the program
-- reads them, and the operations that load and seed them.
pub mod Known
pub mod Seed
pub mod Laws
use mathlib.Core.Option
use text.Mathlib.Text.{◌==◌}
use sec_fa.Prelude.{
  zero, String, Bool, true, false, Option, none, some, List, [], ◌∷◌, find, unwrap_or,
}
use sec_fa.Json.{ℤ, pos}
use sec_fa.Serde.{Serde}

pub record ProductType : Type 0 where
  pub product_type : String
  pub schema_name : String
  pub schema_version : ℤ
  pub hazard_class : String
  pub description : String

pub record Algorithm : Type 0 where
  pub algorithm_id : String
  pub algorithm_name : String
  pub algorithm_version : String
  pub hazard_class : String
  pub purity : String
  pub deterministic : Bool
  pub executable_kind : String
  pub executable_ref : String
  pub inputs : List String
  pub outputs : List String
  pub resources : List String
  pub forbidden_resources : List String

pub record ResourceDeclaration : Type 0 where
  pub resource_id : String
  pub resource_kind : String
  pub max_concurrent : ℤ
  pub min_interval_ms : ℤ
  pub allowed_modes : List String
  pub hazard_class : String
  pub description : String

-- A row of `algorithm_registry`; the four contracts are stored as JSON text.
pub record AlgorithmRow : Type 0 where
  pub algorithm_id : String
  pub algorithm_name : String
  pub algorithm_version : String
  pub hazard_class : String
  pub purity : String
  pub deterministic : ℤ
  pub executable_kind : String
  pub executable_ref : String
  pub input_contract_json : String
  pub output_contract_json : String
  pub resource_contract_json : String
  pub forbidden_resource_json : String
  pub created_at : String

-- A row of `resource_declarations`.
pub record ResourceRow : Type 0 where
  pub resource_id : String
  pub resource_kind : String
  pub max_concurrent : ℤ
  pub min_interval_ms : ℤ
  pub allowed_modes_json : String
  pub hazard_class : String
  pub description : String

pub record Tables : Type 0 where
  pub product_types : List ProductType
  pub algorithm_registry : List AlgorithmRow
  pub resource_declarations : List ResourceRow

abbrev pub non_zero : ℤ → Bool
non_zero (pos zero) = false
non_zero _ = true

module _ (serde : Serde) where
  -- `serde_json::from_str(..).unwrap_or_default()`
  abbrev pub list_or_default : String → List String
  list_or_default text = unwrap_or (serde.strings_of text) []

  abbrev pub algorithm_of_row : AlgorithmRow → Algorithm
  algorithm_of_row row = record {
    algorithm_id = row.algorithm_id;
    algorithm_name = row.algorithm_name;
    algorithm_version = row.algorithm_version;
    hazard_class = row.hazard_class;
    purity = row.purity;
    deterministic = non_zero row.deterministic;
    executable_kind = row.executable_kind;
    executable_ref = row.executable_ref;
    inputs = list_or_default row.input_contract_json;
    outputs = list_or_default row.output_contract_json;
    resources = list_or_default row.resource_contract_json;
    forbidden_resources = list_or_default row.forbidden_resource_json;
  }

  abbrev pub resource_of_row : ResourceRow → ResourceDeclaration
  resource_of_row row = record {
    resource_id = row.resource_id;
    resource_kind = row.resource_kind;
    max_concurrent = row.max_concurrent;
    min_interval_ms = row.min_interval_ms;
    allowed_modes = list_or_default row.allowed_modes_json;
    hazard_class = row.hazard_class;
    description = row.description;
  }

  unfoldable pub load_algorithm : Tables → String → Option Algorithm
  load_algorithm t algorithm_id =
      Option.map algorithm_of_row
        (find (λ row. row.algorithm_id == algorithm_id) t.algorithm_registry)

  unfoldable pub load_resource : Tables → String → Option ResourceDeclaration
  load_resource t resource_id =
      Option.map resource_of_row
        (find (λ row. row.resource_id == resource_id) t.resource_declarations)

unfoldable pub load_product_type : Tables → String → Option ProductType
load_product_type t product_type = find (λ row. row.product_type == product_type) t.product_types
