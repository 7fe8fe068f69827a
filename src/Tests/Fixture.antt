-- ===== src/Tests/Fixture.antt =====
-- Concrete inputs: a workflow that sends orders to a mock broker, the tables it is checked against,
-- and concrete functions for the parameters of the model.
use Prim.Native.Char.{code}
use Prim.Native.String
use sec_fa.Prelude.{
  zero, suc, String, Bool, true, false, none, some, List, [], ◌∷◌, nat_eq, if◌then◌else◌,
}
use sec_fa.Prelude.Text.{format}
use sec_fa.Json.{pos, Number, int, float, object, end}
use sec_fa.Serde.{Serde}
use sec_fa.Timestamp.{TimeParsers}
use sec_fa.Hash.{Digests}
use sec_fa.Registry.{AlgorithmRow, ResourceRow, ProductType, Tables}
use sec_fa.Graph.{
  NodeSpec, NodeInputSpec, NodeOutputSpec, WorkflowSpec, ParsedWorkflow, ValidatedWorkflow,
  WorkflowEdge,
}

-- The quoted parts of a text.
abbrev quoted_parts : Bool → String → String → List String
quoted_parts inside current String.[] = []
quoted_parts inside current (String.◌∷◌ c s) =
    let closed = current ∷ quoted_parts false "" s in
    let opened = quoted_parts true "" s in
    let longer = quoted_parts true (String.◌++◌ current (String.◌∷◌ c "")) s in
    let skipped = quoted_parts false "" s in
    if nat_eq (code c) 34
    then (if inside then closed else opened)
    else if inside
    then longer
    else skipped

abbrev number_of : Number → String
number_of (int (pos zero)) = "0"
number_of (int (pos (suc zero))) = "1"
number_of (int z) = "7"
number_of (float text) = text

abbrev pub serde : Serde
serde = record {
  number_text = number_of;
  quoted = λ s. format ("\"" ∷ s ∷ "\"" ∷ []);
  strings_of = λ s. some (quoted_parts false "" s);
  value_of = λ s. none;
  debug_text = λ s. s;
}

abbrev pub digests : Digests
digests = record { serde = serde; sha256_hex = λ s. "d" }

abbrev pub time : TimeParsers
time = record {
  rfc3339 = λ s. some (pos 5);
  with_millis = λ s. none;
  with_seconds = λ s. none;
  date_midnight = λ s. none;
}

abbrev product_type : String → String → ProductType
product_type name hazard = record {
  product_type = name;
  schema_name = name;
  schema_version = pos 1;
  hazard_class = hazard;
  description = "";
}

abbrev algorithm : (id hazard purity inputs outputs resources : String) → AlgorithmRow
algorithm id hazard purity inputs outputs resources = record {
  algorithm_id = id;
  algorithm_name = id;
  algorithm_version = "1";
  hazard_class = hazard;
  purity = purity;
  deterministic = pos 1;
  executable_kind = "command";
  executable_ref = id;
  input_contract_json = inputs;
  output_contract_json = outputs;
  resource_contract_json = resources;
  forbidden_resource_json = "[]";
  created_at = "2026-05-08";
}

abbrev pub send_row : AlgorithmRow
send_row =
    algorithm "send" "A" "external_write" "[\"staged_order_set.v1\",\"reconciliation_snapshot.v1\"]"
      "[\"broker_event_set.v1\"]" "[\"broker.adapter\"]"

abbrev pub note_row : AlgorithmRow
note_row = algorithm "note" "C" "pure" "[]" "[\"command_output.v1\"]" "[]"

abbrev pub broker_row : ResourceRow
broker_row = record {
  resource_id = "broker.adapter";
  resource_kind = "broker";
  max_concurrent = pos 1;
  min_interval_ms = pos 0;
  allowed_modes_json = "[\"paper\",\"live\"]";
  hazard_class = "A";
  description = "";
}

abbrev pub tables : Tables
tables = record {
  product_types =
      product_type "reconciliation_snapshot.v1" "A"
      ∷ product_type "risk_decision_set.v1" "A"
      ∷ product_type "staged_order_set.v1" "A"
      ∷ product_type "broker_event_set.v1" "A"
      ∷ product_type "command_output.v1" "C"
      ∷ [];
  algorithm_registry =
      algorithm "recon" "A" "pure" "[]" "[\"reconciliation_snapshot.v1\"]" "[]"
      ∷ algorithm "risk" "A" "pure" "[]" "[\"risk_decision_set.v1\"]" "[]"
      ∷ algorithm "cmd.stage.v1" "A" "pure" "[\"risk_decision_set.v1\"]" "[\"staged_order_set.v1\"]"
          "[]"
      ∷ send_row
      ∷ note_row
      ∷ [];
  resource_declarations = broker_row ∷ [];
}

abbrev pub node : String → String → List NodeInputSpec → NodeOutputSpec → NodeSpec
node id algorithm_id inputs output = record {
  node_id = id;
  algorithm = algorithm_id;
  cell = record { layer = "job"; key = object end };
  config = object end;
  inputs = inputs;
  outputs = output ∷ [];
}

abbrev pub input : String → String → NodeInputSpec
input from role = record { from = from; role = role }

abbrev pub output : String → String → NodeOutputSpec
output role type = record { role = role; product_type = type }

abbrev pub edge : String → String → String → WorkflowEdge
edge from to role = record { from_node_id = from; to_node_id = to; product_role = role }

-- The nodes of the workflow, the last first.
abbrev pub send : NodeSpec
send =
    node "send" "send" (input "stage" "orders" ∷ input "recon" "state" ∷ [])
      (output "events" "broker_event_set.v1")

abbrev pub stage : NodeSpec
stage =
    node "stage" "cmd.stage.v1" (input "risk" "risk" ∷ []) (output "orders" "staged_order_set.v1")

abbrev pub risk : NodeSpec
risk = node "risk" "risk" [] (output "risk" "risk_decision_set.v1")

abbrev pub recon : NodeSpec
recon = node "recon" "recon" [] (output "state" "reconciliation_snapshot.v1")

abbrev pub note : NodeSpec
note = node "note" "note" [] (output "text" "command_output.v1")

abbrev pub nodes : List NodeSpec
nodes = send ∷ stage ∷ risk ∷ recon ∷ note ∷ []

abbrev pub edges : List WorkflowEdge
edges = edge "stage" "send" "orders" ∷ edge "recon" "send" "state" ∷ edge "risk" "stage" "risk" ∷ []

abbrev pub order : List String
order = "note" ∷ "recon" ∷ "risk" ∷ "stage" ∷ "send" ∷ []

abbrev pub spec : WorkflowSpec
spec = record {
  spec_version = 1;
  workflow_name = "mock";
  driver = record {
    driver_id = "test";
    mode = "paper";
    decision_as_of = "2026-05-08";
    allow_external_write = true;
    allow_broker_resource = true;
  };
  layers = record { layer = "job"; parent = none; key_fields = "id" ∷ [] } ∷ [];
  resources = [];
  nodes = nodes;
}

abbrev pub parsed : ParsedWorkflow
parsed = record { spec = spec; canonical_json = ""; spec_sha256 = "" }

abbrev pub validated : ValidatedWorkflow
validated = record { parsed = parsed; order = order; edges = edges }
