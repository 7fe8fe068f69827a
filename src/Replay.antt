-- ===== src/Replay.antt =====
-- replay_workflow of cli/src/framework/replay.rs, over the tables of a run.
pub mod Queries
pub mod Asks
pub mod Matches
pub mod Stored
use mathlib.Core.Option
use text.Mathlib.Text.{◌==◌}
use sec_fa.Prelude.{
  suc, String, Bool, true, false, not, ◌&&◌, ◌||◌, Option, none, some, List, [], ◌∷◌, ◌++◌, map,
  length, unwrap_or, if◌then◌else◌,
}
use sec_fa.Prelude.Text.{format}
use sec_fa.Outcome.{Result, ok, err, ◌>>=◌, ◌>>◌, context, bail_if}
use sec_fa.Decimal.{decimal}
use sec_fa.Json.{
  ℤ, pos, negsuc, Value, object, array, number, int, string, get, as_str, as_i64, text_object,
  fields_of, value_items,
}
use sec_fa.Serde.{Serde}
use sec_fa.Hash.{Digests, sort, content_sha256, config_sha256}
use sec_fa.Registry.{Algorithm, load_algorithm}
use sec_fa.Storage.{DataProduct, load_product}
use sec_fa.Graph.{NodeSpec, WorkflowSpec, ParsedWorkflow}
use sec_fa.Graph.Ir.{parse_workflow_ir_json}
use sec_fa.Executor.Persist.{is_zero}
use sec_fa.Executor.Run.{Runs}
use sec_fa.Replay.Queries.{
  workflow_node_record, output_product_ids_for_workflow_node, product_parent_ids,
  latest_product_for_node_output, workflow_spec_row,
}

-- `{}` and `{:?}`.
abbrev pub int_text : ℤ → String
int_text (pos n) = decimal n
int_text (negsuc n) = format ("-" ∷ decimal (suc n) ∷ [])

debug_rest : Serde → List String → List String
debug_rest serde [] = "]" ∷ []
debug_rest serde (t ∷ ts) = ", " ∷ serde.debug_text t ∷ debug_rest serde ts

unfoldable pub debug_list : Serde → List String → String
unfolding debug_rest
debug_list serde [] = "[]"
debug_list serde (t ∷ ts) = format ("[" ∷ serde.debug_text t ∷ debug_rest serde ts)

unfoldable pub texts_eq : List String → List String → Bool
texts_eq [] [] = true
texts_eq [] (y ∷ ys) = false
texts_eq (x ∷ xs) [] = false
texts_eq (x ∷ xs) (y ∷ ys) = x == y && texts_eq xs ys

-- The two lists that replay_workflow fills.
pub record Report : Type 0 where
  pub checked : List Value
  pub skipped : List Value

abbrev pub bind : Option Value → (Value → Option ℤ) → Option ℤ
bind none f = none
bind (some v) f = f v

-- `payload.get("exit_code").and_then(Value::as_i64).unwrap_or(-1)`
abbrev pub exit_code_of : Value → ℤ
exit_code_of payload = unwrap_or (bind (get "exit_code" payload) as_i64) (negsuc 0)

abbrev pub message_text : Option Value → Option String
message_text none = none
message_text (some v) = as_str v

-- `node.config.get("message").and_then(Value::as_str).unwrap_or_default()`
abbrev pub message_of : Value → String
message_of config = unwrap_or (message_text (get "message" config)) ""

abbrev pub skip : NodeSpec → Algorithm → String → Report → Report
skip node algorithm reason report = record report {
  skipped =
      report.skipped
      ++ text_object (
          ("node_id", node.node_id)
          ∷ ("algorithm_id", algorithm.algorithm_id)
          ∷ ("reason", reason)
          ∷ [])
        ∷ [];
}

abbrev pub check : Value → Report → Report
check entry report = record report { checked = report.checked ++ entry ∷ [] }

abbrev pub product_entry : DataProduct → Value
product_entry product = text_object (
    ("product_id", product.product_id)
    ∷ ("product_type", product.product_type)
    ∷ ("content_sha256", product.content_sha256)
    ∷ [])

abbrev pub record_entry : NodeSpec → Algorithm → List DataProduct → Value
record_entry node algorithm products = object (
    fields_of (
      ("node_id", string node.node_id)
      ∷ ("algorithm_id", string algorithm.algorithm_id)
      ∷ ("product_count", number (int (pos (length products))))
      ∷ ("products", array (value_items (map product_entry products)))
      ∷ ("status", string "record_matched")
      ∷ []))

-- What the algorithm of a noop node would produce.
abbrev pub noop_payload : Digests → NodeSpec → Algorithm → Value
noop_payload d node algorithm = text_object (
    ("algorithm", algorithm.algorithm_id)
    ∷ ("config_sha256", config_sha256 d node.config)
    ∷ ("message", message_of node.config)
    ∷ [])

abbrev pub noop_entry : NodeSpec → Algorithm → DataProduct → Value
noop_entry node algorithm product = text_object (
    ("node_id", node.node_id)
    ∷ ("algorithm_id", algorithm.algorithm_id)
    ∷ ("product_id", product.product_id)
    ∷ ("content_sha256", product.content_sha256)
    ∷ ("status", "matched")
    ∷ [])

abbrev pub is_recorded : Algorithm → Bool
is_recorded algorithm =
    algorithm.executable_kind == "rust_operation" || algorithm.executable_kind == "command"

abbrev pub replay_value : String → WorkflowSpec → Report → Value
replay_value run spec report = object (
    fields_of (
      ("event", string "replay_succeeded")
      ∷ ("workflow_run_id", string run)
      ∷ ("workflow_name", string spec.workflow_name)
      ∷ ("checked", array (value_items report.checked))
      ∷ ("skipped", array (value_items report.skipped))
      ∷ []))

module _ (d : Digests) (s : Runs) (run : String) where
  -- The part of the loop body for command_output.v1.
  unfoldable pub check_command_output : NodeSpec → DataProduct → Result (Unit {0})
  check_command_output node product =
      context (d.serde.value_of product.storage_ref) "invalid JSON" >>= λ payload.
      bail_if (not (content_sha256 d payload == product.content_sha256)) (
        format (
          "command output hash mismatch for node "
          ∷ node.node_id
          ∷ ": original="
          ∷ product.content_sha256
          ∷ " replay="
          ∷ content_sha256 d payload
          ∷ []))
      >> bail_if (not (is_zero (exit_code_of payload))) (
          format (
            "node "
            ∷ node.node_id
            ∷ " command output exit_code="
            ∷ int_text (exit_code_of payload)
            ∷ []))

  unfoldable pub check_parents : DataProduct → List String → Result (Unit {0})
  unfolding texts_eq debug_list
  check_parents product input_product_ids =
      let actual_parents = sort (product_parent_ids s.world.store product.product_id) in
      let expected_parents = sort input_product_ids in
      bail_if (not (texts_eq actual_parents expected_parents)) (
        format (
          "product "
          ∷ product.product_id
          ∷ " parent mismatch: original="
          ∷ debug_list d.serde actual_parents
          ∷ " replay="
          ∷ debug_list d.serde expected_parents
          ∷ []))

  -- The body of the loop over the products of a node.
  unfoldable pub check_product : NodeSpec → Algorithm → List String → String → Result DataProduct
  unfolding check_command_output check_parents
  check_product node algorithm input_product_ids product_id =
      context (load_product s.world.store product_id)
        (format ("node " ∷ node.node_id ∷ " references missing product " ∷ product_id ∷ []))
      >>= λ product.
          bail_if (not (product.created_by_algorithm == algorithm.algorithm_id)) (
            format (
              "product " ∷ product.product_id ∷ " was created by " ∷ product.created_by_algorithm
              ∷ ", not " ∷ algorithm.algorithm_id ∷ []))
          >> bail_if (not (product.config_sha256 == config_sha256 d node.config)) (
              format (
                "product "
                ∷ product.product_id
                ∷ " config hash mismatch: original="
                ∷ product.config_sha256
                ∷ " replay="
                ∷ config_sha256 d node.config
                ∷ []))
          >> check_parents product input_product_ids
          >> (if product.product_type == "command_output.v1"
              then check_command_output node product
              else ok tt)
          >> ok product

  unfoldable pub check_products :
      NodeSpec → Algorithm → List String → List String → Result (List DataProduct)
  unfolding check_product
  check_products node algorithm input_product_ids [] = ok []
  check_products node algorithm input_product_ids (product_id ∷ rest) =
      check_product node algorithm input_product_ids product_id >>= λ product.
      check_products node algorithm input_product_ids rest >>= λ products. ok (product ∷ products)

  unfoldable pub replay_record : NodeSpec → Algorithm → List String → Report → Result Report
  unfolding check_products
  replay_record node algorithm input_product_ids report =
      output_product_ids_for_workflow_node d.serde s run node.node_id >>= λ output_ids.
      check_products node algorithm input_product_ids output_ids >>= λ products.
      ok (check (record_entry node algorithm products) report)

  unfoldable pub replay_noop : NodeSpec → Algorithm → Report → Result Report
  replay_noop node algorithm report =
      output_product_ids_for_workflow_node d.serde s run node.node_id >>= λ output_ids.
      context (latest_product_for_node_output s.world.store output_ids "command_output.v1")
        (format ("noop node " ∷ node.node_id ∷ " has no command_output.v1 product" ∷ []))
      >>= λ product.
          bail_if (not (content_sha256 d (noop_payload d node algorithm) == product.content_sha256))
            (format (
              "replay hash mismatch for node "
              ∷ node.node_id
              ∷ ": original="
              ∷ product.content_sha256
              ∷ " replay="
              ∷ content_sha256 d (noop_payload d node algorithm)
              ∷ []))
          >> ok (check (noop_entry node algorithm product) report)

  -- The part of the loop body for a node whose record is there.
  unfoldable pub replay_kind : NodeSpec → Algorithm → Report → String × List String → Result Report
  unfolding replay_record replay_noop
  replay_kind node algorithm report (status, input_product_ids) =
      bail_if (not (status == "succeeded"))
        (format ("node " ∷ node.node_id ∷ " cannot be replayed because status=" ∷ status ∷ []))
      >> (if is_recorded algorithm
          then replay_record node algorithm input_product_ids report
          else if not (algorithm.executable_kind == "noop_test")
          then ok (skip node algorithm "executable_kind_not_replayable" report)
          else replay_noop node algorithm report)

  unfoldable pub replay_algorithm : NodeSpec → Report → Algorithm → Result Report
  unfolding replay_kind
  replay_algorithm node report algorithm =
      if not algorithm.deterministic
      then ok (skip node algorithm "algorithm_not_deterministic" report)
      else workflow_node_record d.serde s run node.node_id >>= replay_kind node algorithm report

  -- The body of the loop over the nodes.
  unfoldable pub replay_node : NodeSpec → Report → Result Report
  unfolding replay_algorithm
  replay_node node report =
      context (load_algorithm d.serde s.world.store.tables node.algorithm)
        (format ("algorithm " ∷ node.algorithm ∷ " not found" ∷ []))
      >>= replay_algorithm node report

  unfoldable pub replay_nodes : List NodeSpec → Report → Result Report
  unfolding replay_node
  replay_nodes [] report = ok report
  replay_nodes (node ∷ rest) report = replay_node node report >>= replay_nodes rest

  unfoldable pub replay_parsed : String → ParsedWorkflow → Result Value
  unfolding replay_nodes
  replay_parsed spec_sha256 parsed =
      bail_if (not (parsed.spec_sha256 == spec_sha256))
        (format ("workflow spec hash mismatch for " ∷ run ∷ []))
      >> (replay_nodes parsed.spec.nodes (record { checked = []; skipped = [] }) >>= λ report.
          ok (replay_value run parsed.spec report))

  unfoldable pub replay_workflow : (Value → Result WorkflowSpec) → Result Value
  unfolding replay_parsed
  replay_workflow spec_of = workflow_spec_row s run >>= λ row.
      parse_workflow_ir_json d spec_of row.0 >>= replay_parsed row.1
