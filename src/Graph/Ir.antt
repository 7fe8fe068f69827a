-- ===== src/Graph/Ir.antt =====
-- parsed_from_spec, parse_workflow_spec and parse_workflow_ir_json of cli/src/framework/graph.rs.
-- What serde's derived `Serialize` of the types of a workflow gives is written out; its derived
-- `Deserialize` of a workflow is a parameter, as are the texts of its errors.
use sec_fa.Prelude.{String, Option, [], ◌∷◌, map}
use sec_fa.Outcome.{Result, ok, ◌>>=◌, context}
use sec_fa.Json.{
  Value, object, array, string, number, int, bool, pos, optional, text_array, text_object,
  fields_of, value_items,
}
use sec_fa.Serde.{to_canonical_json}
use sec_fa.Hash.{Digests}
use sec_fa.Graph.{
  WorkflowSpec, DriverSpec, LayerSpec, ResourceSpec, NodeSpec, NodeInputSpec, NodeOutputSpec,
  ParsedWorkflow,
}
use sec_fa.Graph.Parser.{parse_flow_workflow}
use sec_fa.Graph.Parser.Tokens.{Float}

abbrev pub driver_value : DriverSpec → Value
driver_value driver = object (
    fields_of (
      ("driver_id", string driver.driver_id)
      ∷ ("mode", string driver.mode)
      ∷ ("decision_as_of", string driver.decision_as_of)
      ∷ ("allow_external_write", bool driver.allow_external_write)
      ∷ ("allow_broker_resource", bool driver.allow_broker_resource)
      ∷ []))

abbrev pub layer_value : LayerSpec → Value
layer_value layer = object (
    fields_of (
      ("layer", string layer.layer)
      ∷ ("parent", optional layer.parent)
      ∷ ("key_fields", text_array layer.key_fields)
      ∷ []))

abbrev pub resource_value : ResourceSpec → Value
resource_value resource = object (
    fields_of (
      ("resource_id", string resource.resource_id)
      ∷ ("resource_kind", string resource.resource_kind)
      ∷ ("max_concurrent", number (int resource.max_concurrent))
      ∷ ("min_interval_ms", number (int resource.min_interval_ms))
      ∷ ("allowed_modes", text_array resource.allowed_modes)
      ∷ ("hazard_class", string resource.hazard_class)
      ∷ []))

abbrev pub input_value : NodeInputSpec → Value
input_value input = text_object (("from", input.from) ∷ ("role", input.role) ∷ [])

abbrev pub output_value : NodeOutputSpec → Value
output_value output =
    text_object (("role", output.role) ∷ ("product_type", output.product_type) ∷ [])

abbrev pub node_value : NodeSpec → Value
node_value node = object (
    fields_of (
      ("node_id", string node.node_id)
      ∷ ("algorithm", string node.algorithm)
      ∷ (
        "cell",
        object (fields_of (("layer", string node.cell.layer) ∷ ("key", node.cell.key) ∷ [])),
      )
      ∷ ("config", node.config)
      ∷ ("inputs", array (value_items (map input_value node.inputs)))
      ∷ ("outputs", array (value_items (map output_value node.outputs)))
      ∷ []))

unfoldable pub spec_value : WorkflowSpec → Value
spec_value spec = object (
    fields_of (
      ("spec_version", number (int (pos spec.spec_version)))
      ∷ ("workflow_name", string spec.workflow_name)
      ∷ ("driver", driver_value spec.driver)
      ∷ ("layers", array (value_items (map layer_value spec.layers)))
      ∷ ("resources", array (value_items (map resource_value spec.resources)))
      ∷ ("nodes", array (value_items (map node_value spec.nodes)))
      ∷ []))

module _ (d : Digests) where
  unfoldable pub parsed_from_spec : WorkflowSpec → ParsedWorkflow
  unfolding spec_value
  parsed_from_spec spec =
      let canonical_json = to_canonical_json d.serde (spec_value spec) in
      record {
        spec = spec;
        canonical_json = canonical_json;
        spec_sha256 = d.sha256_hex canonical_json;
      }

  -- `spec_of` is the derived `Deserialize`, by `serde_json::from_value`.
  unfoldable pub parse_workflow_ir_json :
      (Value → Result WorkflowSpec) → String → Result ParsedWorkflow
  unfolding parsed_from_spec
  parse_workflow_ir_json spec_of text = context (d.serde.value_of text) "invalid JSON" >>= λ value.
      spec_of value >>= λ spec. ok (parsed_from_spec spec)

  unfoldable pub parse_workflow_spec : (String → Option Float) → String → Result ParsedWorkflow
  unfolding parsed_from_spec
  parse_workflow_spec parse_f64 text =
      parse_flow_workflow parse_f64 text >>= λ spec. ok (parsed_from_spec spec)
