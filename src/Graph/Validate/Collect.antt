-- ===== src/Graph/Validate/Collect.antt =====
-- `collect_layers`, `collect_nodes`, `collect_outputs`, `validate_layer_references` and
-- `collect_edges` of cli/src/framework/graph.rs.
use sec_fa.Prelude.{String, not, none, some, List, [], ◌∷◌, ◌++◌, if◌then◌else◌}
use sec_fa.BTreeMap.{BTreeMap, Pair, string_ord, pair_ord, insert, contains_key}
use sec_fa.Json.{object, end, text_object}
use sec_fa.Invariants.{InvariantViolation, violation, when}
use sec_fa.Graph.{WorkflowSpec, LayerSpec, NodeSpec, NodeInputSpec, NodeOutputSpec, WorkflowEdge}
use sec_fa.Graph.Lexer.{trim, is_empty}

abbrev pub Violations : Type 0
Violations = List InvariantViolation

-- `BTreeSet<String>`
abbrev pub Names : Type 0
Names = BTreeMap String (Unit {0})

-- The product type of each node and role.
abbrev pub Outputs : Type 0
Outputs = BTreeMap Pair String

unfoldable pub collect_layers : Names → List LayerSpec → Names × Violations
collect_layers layers [] = (layers, [])
collect_layers layers (layer ∷ rest) =
    let (all, more) = collect_layers (insert layer.layer tt layers) rest in
    (
      all,
      when (is_empty (trim layer.layer))
            (violation "LAYER_ID_REQUIRED" (object end) ("layer id is required" ∷ []))
          ++ (when (contains_key layer.layer layers) (
                violation "DUPLICATE_LAYER" (text_object (("layer", layer.layer) ∷ []))
                  ("duplicate layer " ∷ layer.layer ∷ []))
              ++ more),
    )

unfoldable pub collect_nodes :
    BTreeMap String NodeSpec → List NodeSpec → BTreeMap String NodeSpec × Violations
collect_nodes nodes [] = (nodes, [])
collect_nodes nodes (node ∷ rest) =
    let (all, more) = collect_nodes (insert node.node_id node nodes) rest in
    (
      all,
      when (is_empty (trim node.node_id))
            (violation "NODE_ID_REQUIRED" (object end) ("node_id is required" ∷ []))
          ++ (when (contains_key node.node_id nodes) (
                violation "DUPLICATE_NODE" (text_object (("node_id", node.node_id) ∷ []))
                  ("duplicate node " ∷ node.node_id ∷ []))
              ++ more),
    )

-- The loop over the outputs of one node; `roles` are those it has met.
unfoldable pub node_outputs :
    NodeSpec → Names → Outputs → List NodeOutputSpec → Outputs × Violations
node_outputs node roles outputs [] = (outputs, [])
node_outputs node roles outputs (output ∷ rest) =
    let (all, more) =
      node_outputs node (insert output.role tt roles)
        (insert (node.node_id, output.role) output.product_type outputs) rest in
    (
      all,
      when (contains_key output.role roles) (
            violation "DUPLICATE_OUTPUT_ROLE"
              (text_object (("node_id", node.node_id) ∷ ("role", output.role) ∷ []))
              ("duplicate output role " ∷ output.role ∷ " on node " ∷ node.node_id ∷ []))
          ++ more,
    )

unfoldable pub collect_outputs : Outputs → List NodeSpec → Outputs × Violations
unfolding node_outputs
collect_outputs outputs [] = (outputs, [])
collect_outputs outputs (node ∷ rest) =
    let (mine, first) = node_outputs node [] outputs node.outputs in
    let (all, more) = collect_outputs mine rest in (all, first ++ more)

unfoldable pub validate_layer_references : Names → List LayerSpec → Violations
validate_layer_references layers [] = []
validate_layer_references layers (layer ∷ rest) =
    let more = validate_layer_references layers rest in
    elim layer.parent [
      | none ↦ more
      | some parent ↦
          when (not (contains_key parent layers)) (
            violation "UNKNOWN_PARENT_LAYER"
              (text_object (("layer", layer.layer) ∷ ("parent", parent) ∷ []))
              ("layer " ∷ layer.layer ∷ " references unknown parent " ∷ parent ∷ []))
          ++ more
    ]

module _ (nodes : BTreeMap String NodeSpec) (outputs : Outputs) where
  -- The body of the loop over the inputs of a node: an edge, or a violation.
  unfoldable pub input_edge : NodeSpec → NodeInputSpec → List WorkflowEdge × Violations
  input_edge node input =
      if not (contains_key input.from nodes)
      then (
        [],
        violation "UNKNOWN_INPUT_NODE"
              (text_object (("node_id", node.node_id) ∷ ("from", input.from) ∷ []))
              ("node " ∷ node.node_id ∷ " references unknown input node " ∷ input.from ∷ [])
            ∷ [],
      )
      else if not (contains_key (input.from, input.role) outputs)
      then (
        [],
        violation "UNKNOWN_INPUT_ROLE"
              (text_object
                (("node_id", node.node_id) ∷ ("from", input.from) ∷ ("role", input.role) ∷ []))
              ("node " ∷ node.node_id ∷ " references missing role " ∷ input.role ∷ " from "
                ∷ input.from ∷ [])
            ∷ [],
      )
      else (
        record { from_node_id = input.from; to_node_id = node.node_id; product_role = input.role }
            ∷ [],
        [],
      )

  unfoldable pub input_edges : NodeSpec → List NodeInputSpec → List WorkflowEdge × Violations
  input_edges node [] = ([], [])
  input_edges node (input ∷ rest) =
      let (edge, first) = input_edge node input in
      let (edges, more) = input_edges node rest in (edge ++ edges, first ++ more)

  unfoldable pub collect_edges : List NodeSpec → List WorkflowEdge × Violations
  collect_edges [] = ([], [])
  collect_edges (node ∷ rest) =
      let (first, some_violations) = input_edges node node.inputs in
      let (edges, more) = collect_edges rest in (first ++ edges, some_violations ++ more)

unfoldable pub layer_set : WorkflowSpec → Names
layer_set spec = (collect_layers [] spec.layers).0

unfoldable pub node_map : WorkflowSpec → BTreeMap String NodeSpec
node_map spec = (collect_nodes [] spec.nodes).0

unfoldable pub output_index : WorkflowSpec → Outputs
output_index spec = (collect_outputs [] spec.nodes).0
