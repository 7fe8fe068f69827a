-- ===== src/Graph/Validate/Errors.antt =====
-- The severity of the violations that the checks of cli/src/framework/graph.rs push.
use sec_fa.Prelude.{String, Option, none, some, List, [], ◌∷◌, arith, Option-cases, inl, inr}
use sec_fa.BTreeMap.{BTreeMap, string_ord, pair_ord, insert}
use sec_fa.Serde.{Serde}
use sec_fa.Registry.{Algorithm, Tables, load_algorithm}
use sec_fa.Invariants.{hazard_class_for_product_type}
use sec_fa.Invariants.Modes.{
  IsErrors, error_rules, validate_algorithm_mode-IsErrors, validate_class_c-IsErrors,
  validate_class_a-IsErrors,
}
use sec_fa.Graph.{WorkflowSpec, LayerSpec, NodeSpec, NodeInputSpec, NodeOutputSpec}
use sec_fa.Graph.Topology.{topological_order}
use sec_fa.Graph.Validate.{header_checks, order_of, violations_of}
use sec_fa.Graph.Validate.Collect.{
  Names, Outputs, collect_layers, collect_nodes, node_outputs, collect_outputs,
  validate_layer_references, input_edge, input_edges, collect_edges,
}
use sec_fa.Graph.Validate.Contracts.{
  input_type, input_contract, input_contracts, output_contract, output_contracts,
  validate_algorithm_contract, output_shape, output_shapes, validate_authority_lineage_shape,
  input_hazard, input_hazards, algorithm_checks, validate_node, validate_nodes,
}

layers-IsErrors : (s : Names) (ls : List LayerSpec) → IsErrors (collect_layers s ls).1
unfolding collect_layers
layers-IsErrors s [] = tt
layers-IsErrors s (l ∷ ls) =
    let rest = layers-IsErrors (insert l.layer tt s) ls in search (error_rules, rest)

nodes-IsErrors :
    (m : BTreeMap String NodeSpec) (ns : List NodeSpec) → IsErrors (collect_nodes m ns).1
unfolding collect_nodes
nodes-IsErrors m [] = tt
nodes-IsErrors m (n ∷ ns) =
    let rest = nodes-IsErrors (insert n.node_id n m) ns in search (error_rules, rest)

roles-IsErrors :
    (n : NodeSpec) (s : Names) (m : Outputs) (os : List NodeOutputSpec)
    → IsErrors (node_outputs n s m os).1
unfolding node_outputs
roles-IsErrors n s m [] = tt
roles-IsErrors n s m (o ∷ os) =
    let rest =
      roles-IsErrors n (insert o.role tt s) (insert (n.node_id, o.role) o.product_type m) os in
    search (error_rules, rest)

outputs-IsErrors : (m : Outputs) (ns : List NodeSpec) → IsErrors (collect_outputs m ns).1
unfolding collect_outputs
outputs-IsErrors m [] = tt
outputs-IsErrors m (n ∷ ns) =
    let first = roles-IsErrors n [] m n.outputs in
    let rest = outputs-IsErrors (node_outputs n [] m n.outputs).0 ns in
    search (error_rules, first, rest)

references-IsErrors : (s : Names) (ls : List LayerSpec) → IsErrors (validate_layer_references s ls)
unfolding validate_layer_references
references-IsErrors s [] = tt
references-IsErrors s (l ∷ ls) = ground (arith, references-IsErrors s ls)

module _ (nodes : BTreeMap String NodeSpec) (outputs : Outputs) where
  edge-IsErrors : (n : NodeSpec) (i : NodeInputSpec) → IsErrors (input_edge nodes outputs n i).1
  unfolding input_edge
  edge-IsErrors n i = ground arith

  input_edges-IsErrors :
      (n : NodeSpec) (is : List NodeInputSpec) → IsErrors (input_edges nodes outputs n is).1
  unfolding input_edges
  input_edges-IsErrors n [] = tt
  input_edges-IsErrors n (i ∷ is) =
      let first = edge-IsErrors n i in
      let rest = input_edges-IsErrors n is in search (error_rules, first, rest)

  edges-IsErrors : (ns : List NodeSpec) → IsErrors (collect_edges nodes outputs ns).1
  unfolding collect_edges
  edges-IsErrors [] = tt
  edges-IsErrors (n ∷ ns) =
      let first = input_edges-IsErrors n n.inputs in
      let rest = edges-IsErrors ns in search (error_rules, first, rest)

module _ (n : NodeSpec) (a : Algorithm) (outputs : Outputs) where
  input_contract-IsErrors : (i : NodeInputSpec) → IsErrors (input_contract n a outputs i)
  unfolding input_contract
  input_contract-IsErrors i = ground arith

  input_contracts-IsErrors : (is : List NodeInputSpec) → IsErrors (input_contracts n a outputs is)
  unfolding input_contracts
  input_contracts-IsErrors [] = tt
  input_contracts-IsErrors (i ∷ is) =
      let rest = input_contracts-IsErrors is in search (error_rules, input_contract-IsErrors, rest)

  output_contracts-IsErrors :
      (t : Tables) (os : List NodeOutputSpec) → IsErrors (output_contracts n a outputs t os)
  unfolding output_contracts output_contract
  output_contracts-IsErrors t [] = tt
  output_contracts-IsErrors t (o ∷ os) =
      let rest = output_contracts-IsErrors t os in search (error_rules, rest)

  shapes-IsErrors : (os : List NodeOutputSpec) → IsErrors (output_shapes n outputs os)
  unfolding output_shapes output_shape
  shapes-IsErrors [] = tt
  shapes-IsErrors (o ∷ os) = let rest = shapes-IsErrors os in search (error_rules, rest) depth 8

order-IsErrors : (spec : WorkflowSpec) → IsErrors (order_of spec).1
unfolding order_of topological_order
order-IsErrors spec = ground arith

module _ (serde : Serde) (t : Tables) where
  hazard-IsErrors :
      (a : Algorithm) (outputs : Outputs) (i : NodeInputSpec)
      → IsErrors (input_hazard serde t a outputs i)
  unfolding input_hazard
  hazard-IsErrors a outputs i = elim (Option-cases (input_type outputs i)) [
    | inl e ↦ rw (e, input_hazard) tt
    | inr (p, e) ↦ elim (Option-cases (hazard_class_for_product_type t p)) [
      | inl f ↦ rw (e, f, input_hazard) tt
      | inr (h, f) ↦ rw (e, f, input_hazard) (validate_class_a-IsErrors a p h)
    ]
  ]

  hazards-IsErrors :
      (a : Algorithm) (outputs : Outputs) (is : List NodeInputSpec)
      → IsErrors (input_hazards serde t a outputs is)
  unfolding input_hazards
  hazards-IsErrors a outputs [] = tt
  hazards-IsErrors a outputs (i ∷ is) =
      let rest = hazards-IsErrors a outputs is in search (error_rules, hazard-IsErrors, rest)

  module _ (spec : WorkflowSpec) (layers : Names) (outputs : Outputs) where
    algorithm-IsErrors :
        (n : NodeSpec) (o : Option Algorithm)
        → IsErrors (algorithm_checks serde t spec layers outputs n o)
    unfolding algorithm_checks validate_algorithm_contract validate_authority_lineage_shape
    algorithm-IsErrors n none = search error_rules
    algorithm-IsErrors n (some a) =
        search
          (
            error_rules, input_contracts-IsErrors, output_contracts-IsErrors, shapes-IsErrors,
            validate_algorithm_mode-IsErrors, validate_class_c-IsErrors, hazards-IsErrors,
          )
          depth 8

    nodes_checks-IsErrors :
        (ns : List NodeSpec) → IsErrors (validate_nodes serde t spec layers outputs ns)
    unfolding validate_nodes validate_node
    nodes_checks-IsErrors [] = tt
    nodes_checks-IsErrors (n ∷ ns) =
        let rest = nodes_checks-IsErrors ns in
        let mine = algorithm-IsErrors n (load_algorithm serde t n.algorithm) in
        search (error_rules, rest, mine)

  pub violations_of-IsErrors : (spec : WorkflowSpec) → IsErrors (violations_of serde t spec)
  unfolding violations_of header_checks
  violations_of-IsErrors spec =
      search
        (
          error_rules, layers-IsErrors, nodes-IsErrors, outputs-IsErrors, references-IsErrors,
          edges-IsErrors, order-IsErrors, nodes_checks-IsErrors,
        )
        depth 12
