-- ===== src/Graph/Validate.antt =====
-- `validate_workflow` of cli/src/framework/graph.rs. Each check gives the violations that it
-- pushes, in their order; the tables that it reads are those of the registry.
pub mod Collect
pub mod Contracts
mod Errors
pub mod Accepted
pub mod Edges
mod Checked
pub mod Safety
pub mod Authority
use text.Mathlib.Text.{◌==◌}
use sec_fa.Prelude.{
  ℕ, String, Bool, true, false, not, Option, none, some, List, [], ◌∷◌, ◌++◌, length, nat_eq, any,
  if◌then◌else◌,
}
use sec_fa.Json.{pos, int, number, string, object, field, end}
use sec_fa.Serde.{Serde}
use sec_fa.Registry.{Tables}
use sec_fa.Invariants.{InvariantViolation, violation, when, is_valid_mode}
use sec_fa.Graph.{WorkflowSpec, ParsedWorkflow, ValidatedWorkflow, WorkflowEdge}
use sec_fa.Graph.Lexer.{trim, is_empty}
use sec_fa.Graph.Topology
use sec_fa.Graph.Topology.{topological_order}
use sec_fa.Graph.Validate.Collect.{
  collect_layers, collect_nodes, collect_outputs, validate_layer_references, collect_edges,
  layer_set, node_map, output_index,
}
use sec_fa.Graph.Validate.Contracts.{validate_nodes}

pub record ValidationReport : Type 0 where
  pub event : String
  pub workflow_name : String
  pub node_count : ℕ
  pub edge_count : ℕ
  pub topological_order : List String
  pub violations : List InvariantViolation

unfoldable pub header_checks : Serde → WorkflowSpec → List InvariantViolation
header_checks serde spec =
    when (not (nat_eq spec.spec_version 1)) (
      violation "UNSUPPORTED_SPEC_VERSION"
        (object (field "spec_version" (number (int (pos spec.spec_version))) end))
        ("workflow spec_version must be 1" ∷ []))
    ++ (when (is_empty (trim spec.workflow_name))
          (violation "WORKFLOW_NAME_REQUIRED" (object end) ("workflow_name is required" ∷ []))
        ++ when (not (is_valid_mode spec.driver.mode)) (
            violation "INVALID_MODE" (object (field "mode" (string spec.driver.mode) end))
              ("invalid workflow mode " ∷ serde.debug_text spec.driver.mode ∷ [])))

-- The order, or none and a violation.
abbrev pub order_or_none : Topology.Order → List String × List InvariantViolation
order_or_none (Topology.ok order) = (order, [])
order_or_none (Topology.err v) = ([], v ∷ [])

abbrev pub event_of : Bool → String
event_of rejected = if rejected then "workflow_rejected" else "workflow_validated"

abbrev pub is_error : InvariantViolation → Bool
is_error v = v.severity == "error"

unfoldable pub edges_of : WorkflowSpec → List WorkflowEdge
edges_of spec = (collect_edges (node_map spec) (output_index spec) spec.nodes).0

unfoldable pub order_of : WorkflowSpec → List String × List InvariantViolation
order_of spec = order_or_none (topological_order spec.nodes (edges_of spec))

module _ (serde : Serde) (tables : Tables) where
  -- All that is pushed.
  unfoldable pub violations_of : WorkflowSpec → List InvariantViolation
  violations_of spec =
      header_checks serde spec
      ++ ((collect_layers [] spec.layers).1
          ++ ((collect_nodes [] spec.nodes).1
              ++ ((collect_outputs [] spec.nodes).1
                  ++ (validate_layer_references (layer_set spec) spec.layers
                      ++ ((collect_edges (node_map spec) (output_index spec) spec.nodes).1
                          ++ ((order_of spec).1
                              ++ validate_nodes serde tables spec (layer_set spec)
                                  (output_index spec) spec.nodes))))))

  unfoldable pub validate_workflow : ParsedWorkflow → ValidationReport × Option ValidatedWorkflow
  validate_workflow parsed =
      let spec = parsed.spec in
      let violations = violations_of spec in
      let rejected = any is_error violations in
      (
        record {
          event = event_of rejected;
          workflow_name = spec.workflow_name;
          node_count = length spec.nodes;
          edge_count = length (edges_of spec);
          topological_order = (order_of spec).0;
          violations = violations;
        },
        if rejected
            then none
            else some
                (record { parsed = parsed; order = (order_of spec).0; edges = edges_of spec }),
      )
