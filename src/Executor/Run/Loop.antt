-- ===== src/Executor/Run/Loop.antt =====
-- `run_validated_workflow` of cli/src/framework/executor.rs; what it prints is left out.
pub mod Status
mod Covered
pub mod Ran
pub mod Progress
use text.Mathlib.Text.{◌==◌}
use sec_fa.Prelude.{
  ℕ, ◌+◌, String, Bool, true, false, not, Option, none, some, List, [], ◌∷◌, map, if◌then◌else◌,
}
use sec_fa.Prelude.Text.{format}
use sec_fa.Outcome.{Result, ok, err, ◌>>=◌, ◌>>◌, context, with_context}
use sec_fa.BTreeMap.{BTreeMap, Pair, pair_ord, insert}
use sec_fa.Json.{text_array}
use sec_fa.Timestamp.{TimeParsers}
use sec_fa.Invariants.{InvariantViolation}
use sec_fa.Registry.{Algorithm, load_algorithm}
use sec_fa.Hash.{Digests}
use sec_fa.Hash
use sec_fa.Graph.{NodeSpec, WorkflowSpec, ValidatedWorkflow, node_by_id}
use sec_fa.Executor.{
  ProducedProduct, Produced, AlgorithmExecution, Operation, execute_algorithm, resolve_inputs,
}
use sec_fa.Executor.Inputs.{runtime_input_violations}
use sec_fa.Executor.Persist.{World, Context, Parents, persist_node_outputs}
use sec_fa.Executor.Run.{
  Runs, tick, json, insert_run, insert_node_running, mark_node_finished, mark_workflow_status,
  mark_workflow_finished, persist_violations,
}

abbrev pub is_empty_list {ℓ} : {A : Type ℓ} → List A → Bool
is_empty_list [] = true
is_empty_list (x ∷ xs) = false

-- `produced.insert(..)` for each output of a node.
unfoldable pub add_outputs : String → List ProducedProduct → Produced → Produced
add_outputs node_id [] produced = produced
add_outputs node_id (output ∷ rest) produced =
    add_outputs node_id rest (insert (node_id, output.role) output produced)

-- A computation on the tables: an error keeps what was committed before it.
abbrev pub Step : Type 0 → Type 0
Step A = Result A × Runs

abbrev pub parents_of : List ProducedProduct → Parents
parents_of products = map (λ (p : ProducedProduct). (p.product_id, p.role)) products

abbrev pub ids_of : List ProducedProduct → List String
ids_of products = map (λ (p : ProducedProduct). p.product_id) products

module _ (d : Digests) (clock : ℕ → String) (time : TimeParsers)
    (run_inner : NodeSpec → Algorithm → Option String → Operation) (spec : WorkflowSpec)
    (run : String) where
  -- `and_then` behind the execution: the outputs are stored.
  unfoldable pub stored_execution :
      NodeSpec
      → Algorithm
      → (cell config : String) → List ProducedProduct
      → World
      → Result AlgorithmExecution
      → Result (List ProducedProduct) × World
  stored_execution node algorithm cell config inputs w (err e) = (err e, w)
  stored_execution node algorithm cell config inputs w (ok execution) =
      persist_node_outputs d clock
        (record {
          node = node;
          algorithm = algorithm;
          workflow_run_id = run;
          cell_id = cell;
          config_sha256 = config;
          decision_as_of = spec.driver.decision_as_of;
          parents = parents_of inputs;
        })
        execution w

  -- The execution of a node and the storing of its outputs.
  unfoldable pub execute_node :
      NodeSpec
      → Algorithm
      → (cell config : String) → List ProducedProduct
      → World
      → Result (List ProducedProduct) × World
  unfolding stored_execution
  execute_node node algorithm cell config inputs w =
      stored_execution node algorithm cell config inputs w
        (execute_algorithm d run_inner node algorithm inputs)

  -- The end of a node's turn: its row and, after an error, that of the run.
  unfoldable pub settle_node :
      String → NodeSpec → Produced → Result (List ProducedProduct) → Runs → Step Produced
  settle_node node_run node produced (ok outputs) s = (
    ok (add_outputs node.node_id outputs produced),
    mark_node_finished d clock node_run "succeeded" (json d clock (text_array (ids_of outputs))) ""
        s,
  )
  settle_node node_run node produced (err e) s =
      let text = format ("executing node " ∷ node.node_id ∷ ": " ∷ e ∷ []) in
      (
        err text,
        mark_workflow_status d clock run "failed" text
            (mark_node_finished d clock node_run "failed" "[]" text s),
      )

  -- What follows the insert of the node's row.
  unfoldable pub inserted_node :
      (cell config node_run : String)
      → NodeSpec
      → Algorithm
      → List ProducedProduct
      → Produced
      → Runs
      → Result Runs
      → Step Produced
  unfolding settle_node execute_node
  inserted_node cell config node_run node algorithm inputs produced s (err e) = (err e, s)
  inserted_node cell config node_run node algorithm inputs produced s (ok s₁) =
      let done = execute_node node algorithm cell config inputs s₁.world in
      settle_node node_run node produced done.0 (record s₁ { world = done.1 })

  -- Behind the runtime checks: the row of the node, its execution and its end.
  unfoldable pub start_node :
      NodeSpec → Algorithm → List ProducedProduct → Produced → Runs → Step Produced
  unfolding inserted_node
  start_node node algorithm inputs produced s =
      let cell = Hash.cell_id d node.cell.layer node.cell.key in
      let config = Hash.config_sha256 d node.config in
      let node_run =
        Hash.node_run_id d run node.node_id cell algorithm.algorithm_id config (ids_of inputs) in
      inserted_node cell config node_run node algorithm inputs produced s
        (insert_node_running d clock run node_run node algorithm cell config (ids_of inputs) s)

  -- The runtime checks: violations reject the run.
  unfoldable pub check_node :
      NodeSpec
      → Algorithm
      → List ProducedProduct
      → Produced
      → Runs
      → Result (List InvariantViolation)
      → Step Produced
  check_node node algorithm inputs produced s (err e) = (err e, s)
  check_node node algorithm inputs produced s (ok []) = start_node node algorithm inputs produced s
  check_node node algorithm inputs produced s (ok (v ∷ vs)) = (
    err "workflow rejected by runtime invariants",
    mark_workflow_finished d clock run "rejected" (v ∷ vs)
        (persist_violations d clock run (v ∷ vs) s),
  )

  -- What a node needs before its checks.
  abbrev pub Prepared : Type 0
  Prepared = NodeSpec × Algorithm × List ProducedProduct

  unfoldable pub prepare_node : String → Produced → Runs → Result Prepared
  prepare_node node_id produced s = do
    node ←
        context (node_by_id spec node_id)
          (format ("validated node " ∷ node_id ∷ " missing from workflow spec" ∷ []))
    algorithm ←
        context (load_algorithm d.serde s.world.store.tables node.algorithm)
          (format ("algorithm " ∷ node.algorithm ∷ " disappeared from registry" ∷ []))
    inputs ← resolve_inputs node produced
    ok (node, algorithm, inputs)

  abbrev pub checked_node : Produced → Runs → Result Prepared → Step Produced
  checked_node produced s (err e) = (err e, s)
  checked_node produced s (ok (node, algorithm, inputs)) =
      check_node node algorithm inputs produced s
        (runtime_input_violations d.serde time s.world.store spec.driver.decision_as_of node inputs)

  -- The body of the loop over the order.
  unfoldable pub run_node : String → Produced → Runs → Step Produced
  run_node node_id produced s = checked_node produced s (prepare_node node_id produced s)

  -- The loop; the mark behind it is the last step of a run that succeeds.
  unfoldable pub run_nodes : List String → Produced → Runs → Step (Unit {0})
  run_nodes [] produced s = (ok tt, mark_workflow_status d clock run "succeeded" "" s)
  run_nodes (node_id ∷ rest) produced s =
      let ran = run_node node_id produced s in
      elim ran.0 [ err e ↦ (err e, ran.1) | ok outputs ↦ run_nodes rest outputs ran.1 ]

module _ (d : Digests) (clock : ℕ → String) (time : TimeParsers)
    (run_inner : NodeSpec → Algorithm → Option String → Operation) where
  -- The id of a run that starts with these tables.
  abbrev pub new_run : ValidatedWorkflow → Runs → String
  new_run validated s =
      Hash.workflow_run_id d validated.parsed.spec.workflow_name validated.parsed.spec_sha256
        validated.parsed.spec.driver.mode validated.parsed.spec.driver.decision_as_of
        (clock s.world.ticks)

  -- What follows the first transaction.
  unfoldable pub begun : String → ValidatedWorkflow → Runs → Result Runs → Step String
  begun run validated s (err e) = (err e, s)
  begun run validated s (ok s₁) =
      let ended =
        run_nodes d clock time run_inner validated.parsed.spec run validated.order [] s₁ in
      (ended.0 >> ok run, ended.1)

  unfoldable pub run_validated_workflow : ValidatedWorkflow → Runs → Step String
  unfolding begun
  run_validated_workflow validated s =
      let run = new_run validated s in
      begun run validated (tick s) (insert_run d clock run (clock s.world.ticks) validated (tick s))
