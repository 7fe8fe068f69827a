-- ===== src/Graph.antt =====
-- cli/src/framework/graph.rs: the types of a workflow. The modules below parse, check and order it.
pub mod Ir
pub mod Lexer
pub mod Parser
pub mod Topology
pub mod Validate
use text.Mathlib.Text.{◌==◌}
use sec_fa.Prelude.{ℕ, String, Bool, Option, List, map, find}
use sec_fa.Json.{ℤ, Value}

pub record DriverSpec : Type 0 where
  pub driver_id : String
  pub mode : String
  pub decision_as_of : String
  pub allow_external_write : Bool
  pub allow_broker_resource : Bool

pub record LayerSpec : Type 0 where
  pub layer : String
  pub parent : Option String
  pub key_fields : List String

pub record ResourceSpec : Type 0 where
  pub resource_id : String
  pub resource_kind : String
  pub max_concurrent : ℤ
  pub min_interval_ms : ℤ
  pub allowed_modes : List String
  pub hazard_class : String

pub record CellSpec : Type 0 where
  pub layer : String
  pub key : Value

pub record NodeInputSpec : Type 0 where
  pub from : String
  pub role : String

pub record NodeOutputSpec : Type 0 where
  pub role : String
  pub product_type : String

pub record NodeSpec : Type 0 where
  pub node_id : String
  pub algorithm : String
  pub cell : CellSpec
  pub config : Value
  pub inputs : List NodeInputSpec
  pub outputs : List NodeOutputSpec

pub record WorkflowSpec : Type 0 where
  pub spec_version : ℕ
  pub workflow_name : String
  pub driver : DriverSpec
  pub layers : List LayerSpec
  pub resources : List ResourceSpec
  pub nodes : List NodeSpec

pub record WorkflowEdge : Type 0 where
  pub from_node_id : String
  pub to_node_id : String
  pub product_role : String

pub record ParsedWorkflow : Type 0 where
  pub spec : WorkflowSpec
  pub canonical_json : String
  pub spec_sha256 : String

pub record ValidatedWorkflow : Type 0 where
  pub parsed : ParsedWorkflow
  pub order : List String
  pub edges : List WorkflowEdge

unfoldable pub node_by_id : WorkflowSpec → String → Option NodeSpec
node_by_id spec node_id = find (λ node. node.node_id == node_id) spec.nodes

unfoldable pub output_product_types : NodeSpec → List String
output_product_types node = map (λ output. output.product_type) node.outputs
