-- ===== src/Tests/Workflows.antt =====
-- The checks and the order of a workflow, on the concrete one.
use text.Mathlib.Text.{◌==◌}
use sec_fa.Prelude.{
  ℕ, ◌<◌, ◌≤◌, String, ◌≡◌, ◌≢◌, refl, subst, true, false, some, List, [], ◌∷◌, Memᴰ, All-mem, any,
  is_some, arith, if◌then◌else◌,
}
use sec_fa.Registry.{
  Algorithm, AlgorithmRow, load_algorithm, load_resource, algorithm_of_row, resource_of_row,
}
use sec_fa.Invariants.{can_submit, authority_product_type, hazard_class_for_product_type}
use sec_fa.Graph.{WorkflowEdge}
use sec_fa.Graph.Topology.{drained}
use sec_fa.Graph.Topology.Counts.{count_of, node_ids, before}
use sec_fa.Graph.Topology.Degrees.{IsClosed}
use sec_fa.Graph.Topology.Correct.{
  drained_terminates, topological_order_exact, topological_order_forward,
  topological_order_complete,
}
use sec_fa.Graph.Validate.Accepted.{is_nil, validate_workflow_decides}
use sec_fa.Graph.Validate.Edges.{edges_of-IsClosed, Declares}
use sec_fa.Graph.Validate.Collect.{output_index}
use sec_fa.Graph.Validate.Contracts.{input_type}
use sec_fa.Graph.Validate.Authority.{
  HasParent, broker_events_have_parents, staged_orders_have_risk_decisions,
  external_writes_need_authority, broker_resources_need_authority, class_a_consumes_no_class_c,
  class_c_creates_no_authority,
}
use sec_fa.Graph.Validate.{validate_workflow, violations_of, edges_of, order_of}
use sec_fa.Graph.Validate.Safety.{IsAccepted, accepted_order_exact, accepted_input}
use sec_fa.Graph.Topology.{topological_order, ok}
use sec_fa.Tests.Fixture.{
  serde, tables, spec, parsed, validated, nodes, edges, order, send, stage, note, input, output,
  edge, send_row, note_row, broker_row,
}

pub IsAccepted-fixture : IsAccepted serde tables parsed validated
unfolding topological_order sec_fa.Graph.Topology.drained sec_fa.Graph.Topology.drain
    sec_fa.Graph.Topology.degrees sec_fa.Graph.Topology.count_edges sec_fa.BTreeMap.upsert
    sec_fa.BTreeMap.get sec_fa.Graph.Topology.zero_degrees sec_fa.BTreeMap.insert
    sec_fa.BTreeMap.modify sec_fa.Graph.Topology.start sec_fa.Graph.Topology.roots
    sec_fa.Graph.Topology.visit sec_fa.Graph.Topology.release_all sec_fa.Graph.Topology.children_of
    sec_fa.Graph.Topology.collect_children sec_fa.Graph.Topology.release edges_of
    sec_fa.Graph.Validate.Collect.node_map sec_fa.Graph.Validate.Collect.output_index
    sec_fa.Graph.Validate.Collect.collect_nodes sec_fa.Graph.Validate.Collect.collect_outputs
    sec_fa.Graph.Validate.Collect.collect_edges sec_fa.Graph.Validate.Collect.input_edges
    sec_fa.Graph.Validate.Collect.input_edge sec_fa.Graph.Validate.Collect.node_outputs
    validate_workflow violations_of order_of sec_fa.Graph.Validate.header_checks
    sec_fa.Graph.Lexer.trim sec_fa.Graph.Lexer.is_whitespace sec_fa.Graph.Lexer.trim_end
    sec_fa.Graph.Lexer.trim_start sec_fa.Invariants.is_valid_mode
    sec_fa.Graph.Validate.Collect.collect_layers sec_fa.Graph.Validate.Collect.layer_set
    sec_fa.Graph.Validate.Collect.validate_layer_references
    sec_fa.Graph.Validate.Contracts.algorithm_checks sec_fa.Graph.Validate.Contracts.input_contract
    sec_fa.Graph.Validate.Contracts.input_contracts sec_fa.Graph.Validate.Contracts.input_hazard
    sec_fa.Graph.Validate.Contracts.input_hazards
    sec_fa.Graph.Validate.Contracts.node_has_input_product_type
    sec_fa.Graph.Validate.Contracts.output_contract sec_fa.Graph.Validate.Contracts.output_contracts
    sec_fa.Graph.Validate.Contracts.output_shape sec_fa.Graph.Validate.Contracts.output_shapes
    sec_fa.Graph.Validate.Contracts.validate_algorithm_contract
    sec_fa.Graph.Validate.Contracts.validate_authority_lineage_shape
    sec_fa.Graph.Validate.Contracts.validate_node sec_fa.Graph.Validate.Contracts.validate_nodes
    sec_fa.Graph.output_product_types sec_fa.Invariants.authority_product_type
    sec_fa.Invariants.can_run_external_write sec_fa.Invariants.can_stage
    sec_fa.Invariants.can_submit sec_fa.Invariants.can_use_broker
    sec_fa.Invariants.hazard_class_for_product_type sec_fa.Invariants.validate_algorithm_mode
    sec_fa.Invariants.validate_class_a_input_product sec_fa.Invariants.validate_class_c_outputs
    sec_fa.Registry.load_algorithm sec_fa.Registry.load_product_type sec_fa.Registry.load_resource
IsAccepted-fixture = refl

ordered_fixture : topological_order nodes edges ≡ ok order
unfolding topological_order sec_fa.Graph.Topology.drained sec_fa.Graph.Topology.drain
    sec_fa.Graph.Topology.degrees sec_fa.Graph.Topology.count_edges sec_fa.BTreeMap.upsert
    sec_fa.BTreeMap.get sec_fa.Graph.Topology.zero_degrees sec_fa.BTreeMap.insert
    sec_fa.BTreeMap.modify sec_fa.Graph.Topology.start sec_fa.Graph.Topology.roots
    sec_fa.Graph.Topology.visit sec_fa.Graph.Topology.release_all sec_fa.Graph.Topology.children_of
    sec_fa.Graph.Topology.collect_children sec_fa.Graph.Topology.release
ordered_fixture = refl

edges_fixture : edges_of spec ≡ edges
unfolding edges_of sec_fa.Graph.Validate.Collect.node_map sec_fa.Graph.Validate.Collect.output_index
    sec_fa.Graph.Validate.Collect.collect_nodes sec_fa.Graph.Validate.Collect.collect_outputs
    sec_fa.Graph.Validate.Collect.collect_edges sec_fa.Graph.Validate.Collect.input_edges
    sec_fa.Graph.Validate.Collect.input_edge sec_fa.BTreeMap.get sec_fa.BTreeMap.insert
    sec_fa.Graph.Validate.Collect.node_outputs
edges_fixture = refl

IsClosed-fixture : IsClosed nodes edges
IsClosed-fixture = subst (IsClosed nodes) edges_fixture (edges_of-IsClosed spec)

topological_order_forward_example : before "risk" "stage" order ≡ true
topological_order_forward_example =
    topological_order_forward nodes edges order (edge "risk" "stage" "risk") IsClosed-fixture
      ordered_fixture (Memᴰ.tail (Memᴰ.tail (Memᴰ.head refl)))

topological_order_exact_example :
    (count_of "send" (node_ids nodes) ≤ 1)
    × (count_of "send" order ≡ count_of "send" (node_ids nodes))
topological_order_exact_example =
    topological_order_exact nodes edges order "send" IsClosed-fixture ordered_fixture

rank : String → ℕ
rank name = if name == "send" then 2 else if name == "stage" then 1 else 0

rank_rises : (e : WorkflowEdge) → Memᴰ e edges → rank e.from_node_id < rank e.to_node_id
unfolding rank
rank_rises e m =
    All-mem (λ (x : WorkflowEdge). rank x.from_node_id < rank x.to_node_id) edges e
      (omega arith, (omega arith, (omega arith, tt))) m

distinct_fixture : (v : String) → count_of v (node_ids nodes) ≤ 1
distinct_fixture v =
    (topological_order_exact nodes edges order v IsClosed-fixture ordered_fixture).0

topological_order_complete_example :
    (found : List String) × (topological_order nodes edges ≡ ok found)
topological_order_complete_example =
    topological_order_complete nodes edges rank IsClosed-fixture distinct_fixture rank_rises

drained_terminates_example : (found : List String) × (drained nodes edges ≡ some found)
drained_terminates_example = drained_terminates nodes edges

accepted_order_exact_example :
    (count_of "risk" (node_ids nodes) ≤ 1)
    × (count_of "risk" order ≡ count_of "risk" (node_ids nodes))
accepted_order_exact_example =
    accepted_order_exact serde tables parsed validated "risk" IsAccepted-fixture

accepted_input_example :
    (before "recon" "send" order ≡ true)
    × (product_type : String) × (input_type (output_index spec) (input "recon" "state")
        ≡ some product_type)
    × Declares nodes "recon" "state" product_type
accepted_input_example =
    accepted_input serde tables parsed validated send (input "recon" "state") IsAccepted-fixture
      (Memᴰ.head refl) (Memᴰ.tail (Memᴰ.head refl))

validate_workflow_decides_example :
    (is_some (validate_workflow serde tables parsed).1
      ≡ is_nil (validate_workflow serde tables parsed).0.violations)
    × ((validate_workflow serde tables parsed).0.event ≡ (
        if is_nil (validate_workflow serde tables parsed).0.violations
        then "workflow_validated"
        else "workflow_rejected"))
validate_workflow_decides_example = validate_workflow_decides serde tables parsed

broker_events_have_parents_example :
    HasParent validated send "staged_order_set.v1"
    × HasParent validated send "reconciliation_snapshot.v1"
broker_events_have_parents_example =
    broker_events_have_parents serde tables parsed validated send
      (output "events" "broker_event_set.v1") IsAccepted-fixture (Memᴰ.head refl) (Memᴰ.head refl)
      refl

staged_orders_have_risk_decisions_example : HasParent validated stage "risk_decision_set.v1"
staged_orders_have_risk_decisions_example =
    staged_orders_have_risk_decisions serde tables parsed validated stage
      (output "orders" "staged_order_set.v1") IsAccepted-fixture (Memᴰ.tail (Memᴰ.head refl))
      (Memᴰ.head refl) refl

-- An algorithm of the fixture, as it is loaded.
loaded : AlgorithmRow → Algorithm
loaded row = algorithm_of_row serde row

send_loaded : load_algorithm serde tables "send" ≡ some (loaded send_row)
unfolding load_algorithm loaded
send_loaded = refl

external_writes_need_authority_example : (can_submit "paper" ≡ true) × (true ≡ true)
unfolding loaded
external_writes_need_authority_example =
    external_writes_need_authority serde tables parsed validated send (loaded send_row)
      IsAccepted-fixture (Memᴰ.head refl) send_loaded refl

broker_loaded :
    load_resource serde tables "broker.adapter" ≡ some (resource_of_row serde broker_row)
unfolding load_resource
broker_loaded = refl

broker_resources_need_authority_example :
    (any (λ allowed. allowed == "paper") ("paper" ∷ "live" ∷ []) ≡ true)
    × (can_submit "paper" ≡ true)
    × (true ≡ true)
unfolding loaded
broker_resources_need_authority_example =
    broker_resources_need_authority serde tables parsed validated send (loaded send_row)
      "broker.adapter" (resource_of_row serde broker_row) IsAccepted-fixture (Memᴰ.head refl)
      send_loaded (Memᴰ.head refl) broker_loaded refl

orders_type : input_type (output_index spec) (input "stage" "orders") ≡ some "staged_order_set.v1"
unfolding output_index sec_fa.Graph.Validate.Collect.collect_outputs
    sec_fa.Graph.Validate.Collect.node_outputs sec_fa.BTreeMap.get sec_fa.BTreeMap.insert
orders_type = refl

orders_hazard : hazard_class_for_product_type tables "staged_order_set.v1" ≡ some "A"
unfolding hazard_class_for_product_type sec_fa.Registry.load_product_type
orders_hazard = refl

class_a_consumes_no_class_c_example : ◌≢◌ {A = String} "A" "C"
unfolding loaded
class_a_consumes_no_class_c_example =
    class_a_consumes_no_class_c serde tables parsed validated send (loaded send_row)
      (input "stage" "orders") "staged_order_set.v1" "A" IsAccepted-fixture (Memᴰ.head refl)
      send_loaded refl (Memᴰ.head refl) orders_type orders_hazard

note_loaded : load_algorithm serde tables "note" ≡ some (loaded note_row)
unfolding load_algorithm loaded
note_loaded = refl

class_c_creates_no_authority_example : authority_product_type "command_output.v1" ≡ false
unfolding loaded
class_c_creates_no_authority_example =
    class_c_creates_no_authority serde tables parsed validated note (loaded note_row)
      (output "text" "command_output.v1") IsAccepted-fixture
      (Memᴰ.tail (Memᴰ.tail (Memᴰ.tail (Memᴰ.tail (Memᴰ.head refl))))) note_loaded refl
      (Memᴰ.head refl)
