-- ===== src/Executor/Resolve.antt =====
-- `resolve_inputs` of cli/src/framework/executor.rs on accepted workflows.
use sec_fa.Prelude.{
  String, ◌≡◌, refl, sym, inl, inr, true, List, [], ◌∷◌, Memᴰ, All, All-mem, all_of, Option-cases,
  arith,
}
use sec_fa.Outcome.{ok}
use sec_fa.BTreeMap.{pair_ord, get, contains_key}
use sec_fa.Serde.{Serde}
use sec_fa.Registry.{Tables}
use sec_fa.Graph.{NodeSpec, NodeInputSpec, NodeOutputSpec, ParsedWorkflow, ValidatedWorkflow}
use sec_fa.Graph.Topology.Counts.{before}
use sec_fa.Graph.Validate.Safety.{IsAccepted, accepted_input}
use sec_fa.Executor.{ProducedProduct, Produced, resolve_from, resolve_inputs}

-- Every declared output of a node is there, under its role.
abbrev pub IsProduced : Produced → NodeSpec → Type 0
IsProduced produced node =
    All (λ (output : NodeOutputSpec). contains_key (node.node_id, output.role) produced ≡ true)
      node.outputs

resolve_from-total :
    (node_id : String) (produced : Produced) (inputs : List NodeInputSpec)
    → All (λ (input : NodeInputSpec). contains_key (input.from, input.role) produced ≡ true) inputs
    → (products : List ProducedProduct) × (resolve_from node_id produced inputs ≡ ok products)
unfolding resolve_from
resolve_from-total node_id produced [] h = ([], refl)
resolve_from-total node_id produced (input ∷ rest) (h, k) =
    let (more, e) = resolve_from-total node_id produced rest k in
    elim (Option-cases (get (input.from, input.role) produced)) [
      | inl missing ↦ absurd (ground (arith, missing))
      | inr (product, found) ↦ (product ∷ more, rw (found, e) refl)
    ]

-- When a node of an accepted workflow is about to run and every node before it in the order has
-- each of its declared outputs among the products, `resolve_inputs` finds a product for each input.
pub resolve_inputs-total :
    (serde : Serde) (tables : Tables) (parsed : ParsedWorkflow) (v : ValidatedWorkflow)
    (node : NodeSpec) (produced : Produced)
    → IsAccepted serde tables parsed v
    → Memᴰ node parsed.spec.nodes
    → ((m : NodeSpec)
        → Memᴰ m parsed.spec.nodes
        → before m.node_id node.node_id v.order ≡ true
        → IsProduced produced m)
    → (products : List ProducedProduct) × (resolve_inputs node produced ≡ ok products)
unfolding resolve_inputs
resolve_inputs-total serde tables parsed v node produced h m earlier =
    resolve_from-total node.node_id produced node.inputs (
      all_of (λ (i : NodeInputSpec). contains_key (i.from, i.role) produced ≡ true) node.inputs
        (λ input k.
          let (first, _, _, d) = accepted_input serde tables parsed v node input h m k in
          let ready = earlier d.node d.is_node (rw d.has_id first) in
          let there =
            All-mem (λ (o : NodeOutputSpec). contains_key (d.node.node_id, o.role) produced ≡ true)
              d.node.outputs d.output ready d.is_output in
          rw (sym d.has_id, sym d.has_role) there))
