-- ===== src/Graph/Validate/Contracts.antt =====
-- `validate_nodes`, `validate_algorithm_contract` and `validate_authority_lineage_shape` of
-- cli/src/framework/graph.rs.
use text.Mathlib.Text.{◌==◌}
use sec_fa.Prelude.{
  String, Bool, false, not, Option, none, some, List, [], ◌∷◌, ◌++◌, any, is_some, if◌then◌else◌,
}
use sec_fa.BTreeMap.{string_ord, pair_ord, get, contains_key}
use sec_fa.Json.{text_object}
use sec_fa.Serde.{Serde}
use sec_fa.Registry.{Algorithm, Tables, load_algorithm, load_product_type}
use sec_fa.Invariants.{
  violation, when, pushed, validate_algorithm_mode, validate_class_c_outputs,
  validate_class_a_input_product, hazard_class_for_product_type,
}
use sec_fa.Graph.{WorkflowSpec, NodeSpec, NodeInputSpec, NodeOutputSpec, output_product_types}
use sec_fa.Graph.Validate.Collect.{Violations, Names, Outputs}

-- The product type behind an input, where its source declares it.
abbrev pub input_type : Outputs → NodeInputSpec → Option String
input_type outputs input = get (input.from, input.role) outputs

abbrev contains : List String → String → Bool
contains xs s = any (λ allowed. allowed == s) xs

module _ (node : NodeSpec) (algorithm : Algorithm) (outputs : Outputs) where
  unfoldable pub input_contract : NodeInputSpec → Violations
  input_contract input = elim (input_type outputs input) [
    | none ↦ []
    | some product_type ↦ when (not (contains algorithm.inputs product_type)) (
        violation "INPUT_CONTRACT_MISMATCH"
          (text_object (
            ("node_id", node.node_id)
            ∷ ("algorithm_id", algorithm.algorithm_id)
            ∷ ("product_type", product_type)
            ∷ ("from", input.from)
            ∷ ("role", input.role)
            ∷ []))
          ("algorithm " ∷ algorithm.algorithm_id ∷ " does not declare input " ∷ product_type ∷ []))
  ]

  unfoldable pub input_contracts : List NodeInputSpec → Violations
  input_contracts [] = []
  input_contracts (input ∷ rest) = input_contract input ++ input_contracts rest

  unfoldable pub output_contract : Tables → NodeOutputSpec → Violations
  output_contract tables output =
      when (not (is_some (load_product_type tables output.product_type))) (
        violation "UNKNOWN_PRODUCT_TYPE"
          (text_object (("node_id", node.node_id) ∷ ("product_type", output.product_type) ∷ []))
          ("node " ∷ node.node_id ∷ " declares unknown product type " ∷ output.product_type ∷ []))
      ++ when (not (contains algorithm.outputs output.product_type)) (
          violation "OUTPUT_CONTRACT_MISMATCH"
            (text_object (
              ("node_id", node.node_id)
              ∷ ("algorithm_id", algorithm.algorithm_id)
              ∷ ("product_type", output.product_type)
              ∷ []))
            ("algorithm " ∷ algorithm.algorithm_id ∷ " does not declare output "
              ∷ output.product_type ∷ []))

  unfoldable pub output_contracts : Tables → List NodeOutputSpec → Violations
  output_contracts tables [] = []
  output_contracts tables (output ∷ rest) =
      output_contract tables output ++ output_contracts tables rest

  unfoldable pub validate_algorithm_contract : Tables → Violations
  validate_algorithm_contract tables =
      input_contracts node.inputs ++ output_contracts tables node.outputs

unfoldable pub node_has_input_product_type : NodeSpec → Outputs → String → Bool
node_has_input_product_type node outputs expected_product_type =
    any
      (λ input. elim (input_type outputs input) [
        | none ↦ false
        | some product_type ↦ product_type == expected_product_type
      ])
      node.inputs

module _ (node : NodeSpec) (outputs : Outputs) where
  unfoldable pub output_shape : NodeOutputSpec → Violations
  output_shape output =
      if output.product_type == "staged_order_set.v1"
      then when (not (node_has_input_product_type node outputs "risk_decision_set.v1")) (
          violation "STAGED_ORDER_REQUIRES_APPROVED_RISK"
            (text_object (("node_id", node.node_id) ∷ ("product_type", output.product_type) ∷ []))
            ("node " ∷ node.node_id ∷ " produces staged orders without a risk decision parent"
              ∷ []))
      else if output.product_type == "broker_event_set.v1"
      then when (not (node_has_input_product_type node outputs "staged_order_set.v1")) (
          violation "BROKER_EVENT_REQUIRES_STAGED_ORDER"
            (text_object (("node_id", node.node_id) ∷ ("product_type", output.product_type) ∷ []))
            ("node " ∷ node.node_id ∷ " produces broker events without a staged order parent" ∷ []))
        ++ when (not (node_has_input_product_type node outputs "reconciliation_snapshot.v1")) (
            violation "BROKER_EVENT_REQUIRES_RECONCILIATION"
              (text_object (("node_id", node.node_id) ∷ ("product_type", output.product_type) ∷ []))
              ("node " ∷ node.node_id ∷ " produces broker events without a reconciliation parent"
                ∷ []))
      else []

  unfoldable pub output_shapes : List NodeOutputSpec → Violations
  output_shapes [] = []
  output_shapes (output ∷ rest) = output_shape output ++ output_shapes rest

  unfoldable pub validate_authority_lineage_shape : Violations
  validate_authority_lineage_shape = output_shapes node.outputs

module _ (serde : Serde) (tables : Tables) where
  unfoldable pub input_hazard : Algorithm → Outputs → NodeInputSpec → Violations
  input_hazard algorithm outputs input = elim (input_type outputs input) [
    | none ↦ []
    | some product_type ↦ elim (hazard_class_for_product_type tables product_type) [
      | none ↦ []
      | some hazard_class ↦
          pushed (validate_class_a_input_product algorithm product_type hazard_class)
    ]
  ]

  unfoldable pub input_hazards : Algorithm → Outputs → List NodeInputSpec → Violations
  input_hazards algorithm outputs [] = []
  input_hazards algorithm outputs (input ∷ rest) =
      input_hazard algorithm outputs input ++ input_hazards algorithm outputs rest

  module _ (spec : WorkflowSpec) (layers : Names) (outputs : Outputs) where
    -- The body of the loop over the nodes behind the load of the algorithm.
    unfoldable pub algorithm_checks : NodeSpec → Option Algorithm → Violations
    algorithm_checks node none =
        violation "UNKNOWN_ALGORITHM"
          (text_object (("node_id", node.node_id) ∷ ("algorithm_id", node.algorithm) ∷ []))
          ("node " ∷ node.node_id ∷ " uses unknown algorithm " ∷ node.algorithm ∷ [])
        ∷ []
    algorithm_checks node (some algorithm) =
        validate_algorithm_contract node algorithm outputs tables
        ++ (validate_authority_lineage_shape node outputs
            ++ (validate_algorithm_mode serde tables algorithm spec.driver.mode
                  spec.driver.allow_external_write spec.driver.allow_broker_resource
                ++ (validate_class_c_outputs algorithm (output_product_types node)
                    ++ input_hazards algorithm outputs node.inputs)))

    unfoldable pub validate_node : NodeSpec → Violations
    validate_node node =
        when (not (contains_key node.cell.layer layers)) (
          violation "UNKNOWN_CELL_LAYER"
            (text_object (("node_id", node.node_id) ∷ ("layer", node.cell.layer) ∷ []))
            ("node " ∷ node.node_id ∷ " uses unknown cell layer " ∷ node.cell.layer ∷ []))
        ++ algorithm_checks node (load_algorithm serde tables node.algorithm)

    unfoldable pub validate_nodes : List NodeSpec → Violations
    validate_nodes [] = []
    validate_nodes (node ∷ rest) = validate_node node ++ validate_nodes rest
