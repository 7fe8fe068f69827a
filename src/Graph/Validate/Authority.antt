-- ===== src/Graph/Validate/Authority.antt =====
-- Authority and lineage: what an accepted workflow may do, and what stands behind its orders.
use text.Mathlib.Text.{◌==◌}
use sec_fa.Prelude.{subst, String, ◌≡◌, ◌≢◌, true, false, some, Memᴰ, any, arith, eq_iff}
use mathlib.Core.List.Memᴰ
use sec_fa.Serde.{Serde}
use sec_fa.Registry.{Tables, Algorithm, ResourceDeclaration, load_algorithm, load_resource}
use sec_fa.Invariants.{can_submit, authority_product_type, hazard_class_for_product_type}
use sec_fa.Invariants.Allowed.{
  external_write_allowed, resource_mode, class_c_outputs, class_a_input,
}
use sec_fa.Graph.{
  NodeSpec, NodeInputSpec, NodeOutputSpec, ParsedWorkflow, ValidatedWorkflow, output_product_types,
}
use sec_fa.Graph.Topology.Counts.{before}
use sec_fa.Graph.Validate.Accepted.{accepted}
use sec_fa.Graph.Validate.Edges.{Declares, output_index_sound}
use sec_fa.Graph.Validate.Safety.{IsAccepted, accepted_input}
use sec_fa.Graph.Validate.Collect.{layer_set, output_index}
use sec_fa.Graph.Validate.Contracts.{input_type}
use sec_fa.Graph.Validate.Checked.{
  IsChecked, node_algorithm, shape_found, staged_shape, broker_shape, input_of_type, hazard_found,
}

-- The node takes an input whose source comes before it in the order and declares the type.
pub record HasParent (v : ValidatedWorkflow) (node : NodeSpec) (product_type : String)
    : Type 0 where
  pub input : NodeInputSpec
  pub is_input : Memᴰ input node.inputs
  pub earlier : before input.from node.node_id v.order ≡ true
  pub declared : Declares v.parsed.spec.nodes input.from input.role product_type

module _ (serde : Serde) (tables : Tables) (parsed : ParsedWorkflow) (v : ValidatedWorkflow) where
  has_parent :
      (node : NodeSpec) (type : String)
      → IsAccepted serde tables parsed v
      → Memᴰ node parsed.spec.nodes
      → (i : NodeInputSpec) × Memᴰ i node.inputs
        × (input_type (output_index parsed.spec) i ≡ some type)
      → HasParent v node type
  has_parent node type h m (i, k, e) =
      let (clean, same, _, _) = accepted serde tables parsed v h in
      record {
        input = i;
        is_input = k;
        earlier = (accepted_input serde tables parsed v node i h m k).0;
        declared = rw same (output_index_sound parsed.spec i.from i.role type e);
      }

  node-IsChecked :
      (node : NodeSpec)
      → IsAccepted serde tables parsed v
      → Memᴰ node parsed.spec.nodes
      → (a : Algorithm) × (load_algorithm serde tables node.algorithm ≡ some a)
        × IsChecked serde tables parsed.spec
            (layer_set parsed.spec)
            (output_index parsed.spec)
            node
            a
  node-IsChecked node h m =
      let (clean, _, _, _) = accepted serde tables parsed v h in
      node_algorithm serde tables parsed.spec (layer_set parsed.spec) (output_index parsed.spec)
        parsed.spec.nodes node clean.contracts m

  IsChecked-as :
      (node : NodeSpec) (a : Algorithm)
      → IsAccepted serde tables parsed v
      → Memᴰ node parsed.spec.nodes
      → load_algorithm serde tables node.algorithm ≡ some a
      → IsChecked serde tables parsed.spec (layer_set parsed.spec) (output_index parsed.spec) node a
  IsChecked-as node a h m e =
      let (b, f, c) = node-IsChecked node h m in
      let same : b ≡ a = cc in
      subst
        (λ x.
          IsChecked serde tables parsed.spec (layer_set parsed.spec) (output_index parsed.spec) node
            x)
        same c

  -- In an accepted workflow a node that declares broker events takes an input of type
  -- staged_order_set.v1 and one of type reconciliation_snapshot.v1, each declared by a node that
  -- comes before it in the order.
  pub broker_events_have_parents :
      (node : NodeSpec) (output : NodeOutputSpec)
      → IsAccepted serde tables parsed v
      → Memᴰ node parsed.spec.nodes
      → Memᴰ output node.outputs
      → output.product_type ≡ "broker_event_set.v1"
      → HasParent v node "staged_order_set.v1" × HasParent v node "reconciliation_snapshot.v1"
  broker_events_have_parents node output h m k e =
      let (a, _, c) = node-IsChecked node h m in
      let index = output_index parsed.spec in
      let (staged, reconciled) =
        broker_shape node index output (shape_found node index node.outputs output c.shape k) e in
      (
        has_parent node "staged_order_set.v1" h m
            (input_of_type node index "staged_order_set.v1" staged),
        has_parent node "reconciliation_snapshot.v1" h m
            (input_of_type node index "reconciliation_snapshot.v1" reconciled),
      )

  -- In an accepted workflow a node that declares staged orders takes an input of type
  -- risk_decision_set.v1, declared by a node that comes before it in the order.
  pub staged_orders_have_risk_decisions :
      (node : NodeSpec) (output : NodeOutputSpec)
      → IsAccepted serde tables parsed v
      → Memᴰ node parsed.spec.nodes
      → Memᴰ output node.outputs
      → output.product_type ≡ "staged_order_set.v1"
      → HasParent v node "risk_decision_set.v1"
  staged_orders_have_risk_decisions node output h m k e =
      let (a, _, c) = node-IsChecked node h m in
      let index = output_index parsed.spec in
      has_parent node "risk_decision_set.v1" h m (
        input_of_type node index "risk_decision_set.v1"
          (staged_shape node index output (shape_found node index node.outputs output c.shape k) e))

  -- A node of an accepted workflow has an algorithm of purity external_write only if the mode may
  -- submit and allow_external_write is set.
  pub external_writes_need_authority :
      (node : NodeSpec) (a : Algorithm)
      → IsAccepted serde tables parsed v
      → Memᴰ node parsed.spec.nodes
      → load_algorithm serde tables node.algorithm ≡ some a
      → a.purity ≡ "external_write"
      → (can_submit parsed.spec.driver.mode ≡ true)
        × (parsed.spec.driver.allow_external_write ≡ true)
  external_writes_need_authority node a h m e p =
      external_write_allowed serde tables a parsed.spec.driver.mode
        parsed.spec.driver.allow_external_write parsed.spec.driver.allow_broker_resource
        (IsChecked-as node a h m e).mode p

  -- A broker resource that an algorithm of an accepted workflow names allows the workflow's mode,
  -- the mode may submit, and allow_broker_resource is set.
  pub broker_resources_need_authority :
      (node : NodeSpec) (a : Algorithm) (id : String) (r : ResourceDeclaration)
      → IsAccepted serde tables parsed v
      → Memᴰ node parsed.spec.nodes
      → load_algorithm serde tables node.algorithm ≡ some a
      → Memᴰ id a.resources
      → load_resource serde tables id ≡ some r
      → r.resource_kind ≡ "broker"
      → (any (λ allowed. allowed == parsed.spec.driver.mode) r.allowed_modes ≡ true)
        × (can_submit parsed.spec.driver.mode ≡ true)
        × (parsed.spec.driver.allow_broker_resource ≡ true)
  broker_resources_need_authority node a id r h m e u l b =
      let (allowed, broker) =
        resource_mode serde tables a parsed.spec.driver.mode parsed.spec.driver.allow_external_write
          parsed.spec.driver.allow_broker_resource (IsChecked-as node a h m e).mode id u r l in
      ground (arith, eq_iff r.resource_kind "broker")

  -- In an accepted workflow a class A algorithm takes no input whose product type is of class C.
  pub class_a_consumes_no_class_c :
      (node : NodeSpec) (a : Algorithm) (input : NodeInputSpec) (product_type hazard_class : String)
      → IsAccepted serde tables parsed v
      → Memᴰ node parsed.spec.nodes
      → load_algorithm serde tables node.algorithm ≡ some a
      → a.hazard_class ≡ "A"
      → Memᴰ input node.inputs
      → input_type (output_index parsed.spec) input ≡ some product_type
      → hazard_class_for_product_type tables product_type ≡ some hazard_class
      → hazard_class ≢ "C"
  class_a_consumes_no_class_c node a input product_type hazard_class h m e c i p z =
      class_a_input a product_type hazard_class
        (hazard_found serde tables a (output_index parsed.spec) node.inputs input product_type
          hazard_class (IsChecked-as node a h m e).class_a i p z)
        c

  -- In an accepted workflow a class C algorithm declares no output of an authority type: order
  -- intents, risk decisions, staged orders, broker events or reconciliation snapshots.
  pub class_c_creates_no_authority :
      (node : NodeSpec) (a : Algorithm) (output : NodeOutputSpec)
      → IsAccepted serde tables parsed v
      → Memᴰ node parsed.spec.nodes
      → load_algorithm serde tables node.algorithm ≡ some a
      → a.hazard_class ≡ "C"
      → Memᴰ output node.outputs
      → authority_product_type output.product_type ≡ false
  unfolding output_product_types
  class_c_creates_no_authority node a output h m e c k =
      class_c_outputs a (output_product_types node) output.product_type
        (IsChecked-as node a h m e).class_c c (Memᴰ.map (λ (o : NodeOutputSpec). o.product_type) k)
