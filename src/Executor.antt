-- ===== src/Executor.antt =====
-- cli/src/framework/executor.rs: what a node takes from earlier nodes, the run of its algorithm, and
-- the roles of its outputs. `run_graph_algorithm_command` is that of cli/src/main.rs, over the
-- operations that it dispatches to.
pub mod Persist
pub mod Inputs
pub mod Resolve
pub mod Run
use text.Mathlib.Text.{◌==◌}
use sec_fa.Prelude.{
  String, Bool, true, false, not, ◌&&◌, ◌||◌, Option, none, some, List, [], ◌∷◌, unwrap_or,
  if◌then◌else◌,
}
use sec_fa.Prelude.Text.{format}
use sec_fa.Outcome.{Result, ok, err, ◌>>=◌, context}
use sec_fa.BTreeMap.{BTreeMap, Pair, pair_ord, get}
use sec_fa.Json.{ℤ, pos, Value, as_str, text_object}
use sec_fa.Json as Json
use sec_fa.Serde.{Serde}
use sec_fa.Hash.{Digests, config_sha256}
use sec_fa.Registry.{Algorithm}
use sec_fa.Graph.{NodeSpec, NodeInputSpec, NodeOutputSpec}
use sec_fa.Graph.Lexer.{lines}

pub record CommandResult : Type 0 where
  pub stdout : String
  pub stderr : String
  pub exit_code : ℤ

pub record ProducedProduct : Type 0 where
  pub product_id : String
  pub product_type : String
  pub role : String
  pub run_id : Option String

pub data AlgorithmExecution : Type 0 where
  noop : Value → AlgorithmExecution
  command : CommandResult → Option String → AlgorithmExecution

-- What `run_graph_algorithm_command_inner` gives: a result, or an error with the code of its
-- `ExitError`, where it has one, and its text.
pub data Operation : Type 0 where
  done : CommandResult → Operation
  failed : Option ℤ → String → Operation

unfoldable pub command_result_of : Operation → CommandResult
command_result_of (done result) = result
command_result_of (failed code text) = record {
  stdout = "";
  stderr = format ("error: " ∷ text ∷ "\n" ∷ []);
  exit_code = unwrap_or code (pos 1);
}

abbrev pub and_then : Option Value → (Value → Option Value) → Option Value
and_then none f = none
and_then (some v) f = f v

abbrev pub str_of : Option Value → Option String
str_of none = none
str_of (some v) = as_str v

abbrev or_else : Option String → Option String → Option String
or_else none other = other
or_else (some s) other = some s

-- The field of a line's payload, or of the line itself.
abbrev pub field_of : String → Value → Option String
field_of name value =
    or_else (str_of (and_then (Json.get "payload" value) (Json.get name)))
      (str_of (Json.get name value))

module _ (serde : Serde) where
  -- The first of the lines that are JSON and hold the field.
  first_field : String → List String → Option String
  first_field name [] = none
  first_field name (line ∷ rest) =
      let later = first_field name rest in
      elim (serde.value_of line) [ none ↦ later | some value ↦ or_else (field_of name value) later ]

  unfoldable pub run_id_from_stdout : String → Option String
  unfolding first_field
  run_id_from_stdout stdout = first_field "run_id" (lines stdout)

  unfoldable pub feature_snapshot_id_from_stdout : String → Option String
  unfolding first_field
  feature_snapshot_id_from_stdout stdout = first_field "feature_snapshot_id" (lines stdout)

  unfoldable pub command_artifact_id_from_stdout : String → String → Option String
  unfolding run_id_from_stdout feature_snapshot_id_from_stdout
  command_artifact_id_from_stdout algorithm_id stdout =
      if algorithm_id == "cmd.feat.v1"
      then or_else (feature_snapshot_id_from_stdout stdout) (run_id_from_stdout stdout)
      else run_id_from_stdout stdout

-- `find_map(|product| product.run_id.clone())`
unfoldable pub inherited_run_id : List ProducedProduct → Option String
inherited_run_id [] = none
inherited_run_id (p ∷ rest) = or_else p.run_id (inherited_run_id rest)

module _ (d : Digests) (run_inner : NodeSpec → Algorithm → Option String → Operation) where
  unfoldable pub execute_algorithm :
      NodeSpec → Algorithm → List ProducedProduct → Result AlgorithmExecution
  unfolding inherited_run_id command_artifact_id_from_stdout config_sha256 command_result_of
  execute_algorithm node algorithm input_products =
      let message = unwrap_or (str_of (Json.get "message" node.config)) "" in
      let inherited = inherited_run_id input_products in
      let result = command_result_of (run_inner node algorithm inherited) in
      if algorithm.executable_kind == "noop_test"
      then ok (
          noop (
            text_object (
              ("algorithm", algorithm.algorithm_id)
              ∷ ("config_sha256", config_sha256 d node.config)
              ∷ ("message", message)
              ∷ [])))
      else if not (algorithm.executable_kind == "rust_operation")
          && not (algorithm.executable_kind == "command")
      then err (
          format (
            "unsupported executable_kind=" ∷ algorithm.executable_kind ∷ " for algorithm "
            ∷ algorithm.algorithm_id ∷ []))
      else ok (
          command result (
            or_else (command_artifact_id_from_stdout d.serde algorithm.algorithm_id result.stdout)
              inherited))

abbrev pub Produced : Type 0
Produced = BTreeMap Pair ProducedProduct

-- The loop over the inputs of a node.
unfoldable pub resolve_from : String → Produced → List NodeInputSpec → Result (List ProducedProduct)
resolve_from node_id produced [] = ok []
resolve_from node_id produced (input ∷ rest) = do
  product ← context (get (input.from, input.role) produced) (
      format (
        "node " ∷ node_id ∷ " missing input product from " ∷ input.from ∷ " role " ∷ input.role
        ∷ []))
  inputs ← resolve_from node_id produced rest
  ok (product ∷ inputs)

unfoldable pub resolve_inputs : NodeSpec → Produced → Result (List ProducedProduct)
resolve_inputs node produced = resolve_from node.node_id produced node.inputs

-- The roles of the outputs of a type.
unfoldable pub roles_of : String → List NodeOutputSpec → List String
roles_of product_type [] = []
roles_of product_type (output ∷ rest) =
    if output.product_type == product_type
    then output.role ∷ roles_of product_type rest
    else roles_of product_type rest

abbrev pub or_fallback : List String → String → List String
or_fallback [] fallback = fallback ∷ []
or_fallback (role ∷ roles) fallback = role ∷ roles

unfoldable pub output_roles_for_type : NodeSpec → String → String → List String
output_roles_for_type node product_type fallback =
    or_fallback (roles_of product_type node.outputs) fallback

-- `now` is what `utc_now` gives.
unfoldable pub domain_storage_ref :
    (now algorithm_id product_type : String) (run_id command_output_product_id : Option String)
    → String
domain_storage_ref now algorithm_id product_type run_id command_output_product_id =
    let run = unwrap_or run_id "" in
    let at = λ (a t : String). algorithm_id == a && product_type == t in
    if at "cmd.recon.v1" "reconciliation_snapshot.v1"
    then "sqlite:broker_state:id=1"
    else if at "cmd.plan.v1" "forecast_set.v1"
    then format ("sqlite:forecasts:run_id=" ∷ run ∷ [])
    else if at "cmd.plan.v1" "target_weight_set.v1"
    then format ("sqlite:target_weights:run_id=" ∷ run ∷ [])
    else if at "cmd.plan.v1" "order_intent_set.v1"
    then format ("sqlite:order_intents:run_id=" ∷ run ∷ [])
    else if at "cmd.value.v1" "statement_snapshot_set.v1"
    then "sqlite:statement_snapshots:latest_run_or_time"
    else if at "cmd.value.v1" "valuation_set.v1"
    then format ("sqlite:valuations:run_id=" ∷ run ∷ [])
    else if at "cmd.value.v1" "target_weight_set.v1"
    then format ("sqlite:target_weights:run_id=" ∷ run ∷ [])
    else if at "cmd.value.v1" "order_intent_set.v1"
    then format ("sqlite:order_intents:run_id=" ∷ run ∷ [])
    else if at "cmd.gate.v1" "risk_decision_set.v1"
    then format ("sqlite:risk_decisions:run_id=" ∷ run ∷ [])
    else if at "cmd.feat.v1" "feature_snapshot_set.v1"
    then format ("sqlite:feature_snapshots:feature_snapshot_id=" ∷ run ∷ [])
    else if at "cmd.stage.v1" "staged_order_set.v1"
    then format ("sqlite:staged_orders:run_id=" ∷ run ∷ [])
    else if at "cmd.send.mock.v1" "broker_event_set.v1"
    then format ("sqlite:broker_events:after=" ∷ now ∷ [])
    else if at "cmd.report.daily.v1" "report.v1"
    then format ("stdout:" ∷ unwrap_or command_output_product_id "" ∷ [])
    else format ("sqlite:" ∷ product_type ∷ ":run_id=" ∷ run ∷ [])
