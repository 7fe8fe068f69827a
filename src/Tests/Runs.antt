-- ===== src/Tests/Runs.antt =====
-- A run of the concrete workflow.
use sec_fa.Prelude.{ℕ, String, ◌≡◌, refl, true, Option, none, some, List, [], ◌∷◌}
use sec_fa.Json.{pos}
use sec_fa.Outcome.{Result, ok, err, IsOk}
use sec_fa.Registry.{Algorithm, load_algorithm}
use sec_fa.Graph.{NodeSpec, node_by_id}
use sec_fa.Executor.{ProducedProduct, Produced, resolve_inputs, Operation, done}
use sec_fa.Executor.Run.{Runs}
use sec_fa.Executor.Run.Loop.{run_node, new_run, run_validated_workflow}
use sec_fa.Executor.Run.Loop.Status.{
  is_ok, says_succeeded, status_of, run_validated_workflow-status,
}
use sec_fa.Executor.Run.Loop.Progress.{begin, turn, is_command, algorithm_of, no_input_is_missing}
use sec_fa.Tests.Workflows.{IsAccepted-fixture}
use sec_fa.Tests.Fixture.{spec, digests, time, tables, validated}

abbrev clock : ℕ → String
clock n = "now"

abbrev operation : NodeSpec → Algorithm → Option String → Operation
operation node algorithm run_id = done (record { stdout = ""; stderr = ""; exit_code = pos 0 })

abbrev no_runs : Runs
no_runs = record {
  world = record {
    store = record { tables = tables; data_products = []; data_product_lineage = [] };
    ticks = 0;
  };
  workflow_runs = [];
  workflow_run_specs = [];
  workflow_edges = [];
  workflow_nodes = [];
  graph_invariant_violations = [];
}

run_validated_workflow-status_example :
    is_ok (run_validated_workflow digests clock time operation validated no_runs).0
    ≡ says_succeeded (
        status_of
          (new_run digests clock time operation validated no_runs)
          (run_validated_workflow digests clock time operation validated no_runs).1.workflow_runs)
run_validated_workflow-status_example =
    run_validated_workflow-status digests clock time operation validated no_runs refl refl

abbrev opened : Runs
opened = record no_runs {
  workflow_runs =
      record {
        workflow_run_id = "wf";
        workflow_name = "mock";
        workflow_spec_sha256 = "";
        driver_json = "{}";
        mode = "paper";
        decision_as_of = "2026-05-08";
        status = "running";
        created_at = "now";
        started_at = some "now";
        finished_at = none;
        diagnostics = "";
      }
      ∷ [];
}

abbrev first_turn : Result Produced × Runs
first_turn = run_node digests clock time operation spec "wf" "note" [] opened

abbrev produced_of : Result Produced → Produced
produced_of (ok produced) = produced
produced_of (err e) = []

returned : (r : Result Produced × Runs) → IsOk r.0 → r ≡ (ok (produced_of r.0), r.1)
returned (ok produced, s) h = refl
returned (err e, s) h = absurd h

first_turn_well : IsOk first_turn.0
unfolding run_node sec_fa.Executor.Run.Loop.prepare_node node_by_id load_algorithm resolve_inputs
    sec_fa.Executor.resolve_from sec_fa.Executor.Run.Loop.check_node
    sec_fa.Executor.Inputs.runtime_input_violations sec_fa.Executor.Run.Loop.start_node
    sec_fa.Executor.Run.insert_node_running sec_fa.Executor.execute_algorithm
    sec_fa.Executor.Persist.persist_node_outputs sec_fa.Executor.Persist.persist_roles
    sec_fa.Executor.output_roles_for_type sec_fa.Executor.roles_of
    sec_fa.Executor.Persist.persist_typed_product sec_fa.Registry.load_product_type
    sec_fa.Storage.persist_product sec_fa.Executor.Persist.persist_command
    sec_fa.Executor.Persist.persist_outputs sec_fa.Storage.insert_product
    sec_fa.Storage.insert_parents sec_fa.Storage.stored_id sec_fa.Executor.Run.Loop.settle_node
first_turn_well = tt

note_is_command : is_command (algorithm_of digests opened (node_by_id spec "note")) ≡ true
unfolding node_by_id load_algorithm
note_is_command = refl

no_input_is_missing_example :
    (node : NodeSpec) × (node_by_id spec "recon" ≡ some node)
    × (products : List ProducedProduct) × (resolve_inputs node (produced_of first_turn.0)
        ≡ ok products)
no_input_is_missing_example =
    no_input_is_missing digests clock time operation tables validated "wf" "recon"
      ("risk" ∷ "stage" ∷ "send" ∷ []) (produced_of first_turn.0) first_turn.1 IsAccepted-fixture
      (turn (begin opened) note_is_command (returned first_turn first_turn_well))
