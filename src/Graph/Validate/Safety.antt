-- ===== src/Graph/Validate/Safety.antt =====
-- What an accepted workflow is known to satisfy before any node of it runs.
use sec_fa.Prelude.{◌≤◌, String, ◌≡◌, true, some, Memᴰ}
use sec_fa.BTreeMap.{pair_ord}
use sec_fa.Serde.{Serde}
use sec_fa.Registry.{Tables}
use sec_fa.Graph.{NodeSpec, NodeInputSpec, ParsedWorkflow, ValidatedWorkflow}
use sec_fa.Graph.Topology.Counts.{count_of, node_ids, before}
use sec_fa.Graph.Topology.Correct.{topological_order_exact, topological_order_forward}
use sec_fa.Graph.Validate.{validate_workflow, edges_of}
use sec_fa.Graph.Validate.Accepted.{accepted}
use sec_fa.Graph.Validate.Edges.{
  edges_of-IsClosed, edge_of, collect_edges_given, collect_edges_declared, Declares,
  output_index_sound,
}
use sec_fa.Graph.Validate.Collect.{node_map, output_index}
use sec_fa.Graph.Validate.Contracts.{input_type}

-- The workflow is accepted, as `v`.
abbrev pub IsAccepted : Serde → Tables → ParsedWorkflow → ValidatedWorkflow → Type 0
IsAccepted serde tables parsed v = (validate_workflow serde tables parsed).1 ≡ some v

module _ (serde : Serde) (tables : Tables) (parsed : ParsedWorkflow) (v : ValidatedWorkflow) where
  -- In an accepted workflow no two nodes have one name, and every name stands in the order exactly
  -- as often as among the names of the nodes.
  pub accepted_order_exact :
      (name : String)
      → IsAccepted serde tables parsed v
      → (count_of name (node_ids parsed.spec.nodes) ≤ 1)
        × (count_of name v.order ≡ count_of name (node_ids parsed.spec.nodes))
  accepted_order_exact name h =
      let (clean, same, edges, order) = accepted serde tables parsed v h in
      topological_order_exact parsed.spec.nodes v.edges v.order name
        (rw edges (edges_of-IsClosed parsed.spec)) order

  -- In an accepted workflow the source of every input stands in the order before the node that
  -- takes the input, the index of outputs has a product type for the input, and a node with the
  -- source's name declares an output with the input's role and that type.
  pub accepted_input :
      (node : NodeSpec) (input : NodeInputSpec)
      → IsAccepted serde tables parsed v
      → Memᴰ node parsed.spec.nodes
      → Memᴰ input node.inputs
      → (before input.from node.node_id v.order ≡ true)
        × (product_type : String) × (input_type (output_index parsed.spec) input
            ≡ some product_type)
        × Declares parsed.spec.nodes input.from input.role product_type
  accepted_input node input h m k =
      let (clean, same, edges, order) = accepted serde tables parsed v h in
      let spec = parsed.spec in
      let edge =
        collect_edges_given (node_map spec) (output_index spec) spec.nodes node input clean.edges m
          k in
      let (t, found) =
        collect_edges_declared (node_map spec) (output_index spec) spec.nodes node input clean.edges
          m k in
      (
        topological_order_forward spec.nodes v.edges v.order (edge_of node input)
            (rw edges (edges_of-IsClosed spec)) order (rw edges (unfold edges_of in edge)),
        t,
        found,
        output_index_sound spec input.from input.role t found,
      )
