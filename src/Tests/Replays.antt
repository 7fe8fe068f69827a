-- ===== src/Tests/Replays.antt =====
-- Lineage and replay on concrete tables.
use sec_fa.Prelude.{ℕ, String, ◌≡◌, ◌≢◌, ◌↔◌, refl, true, none, some, [], ◌∷◌}
use sec_fa.BTreeMap.{string_ord, contains_key}
use sec_fa.Outcome.{Result, ok, IsOk, ◌>>=◌}
use sec_fa.Json.{Value, object, field, end, number, int, pos}
use sec_fa.Serde.{Serde}
use sec_fa.Hash.{Digests}
use sec_fa.Storage.{NewProduct, DataProduct, Store, row_of}
use sec_fa.Storage.Lineage.{Walk, lineage_json, lineage_value}
use sec_fa.Storage.Lineage.Closure.{Reaches}
use sec_fa.Storage.Lineage.Complete.{lineage_json_terminates, lineage_json_exact}
use sec_fa.Graph.{WorkflowSpec, ValidatedWorkflow}
use sec_fa.Graph.Ir.{parsed_from_spec, spec_value}
use sec_fa.Executor.Run.{Runs, NodeRow, insert_run, with_run}
use sec_fa.Replay.{replay_workflow, replay_nodes, replay_value}
use sec_fa.Replay.Matches.Exact.{RunReplays, replay_workflow_iff}
use sec_fa.Replay.Stored.{replay_workflow-insert_run}
use sec_fa.Tests.Fixture.{serde, tables, spec, note, order, edges}

abbrev product : String → String → DataProduct
product id type =
    row_of
      (record {
        product_type = type;
        schema_name = type;
        schema_version = pos 1;
        cell_id = "job:1";
        family_id = none;
        content_sha256 = "d";
        storage_kind = "inline_json";
        storage_ref = "{}";
        created_by_algorithm = "note";
        algorithm_version = "1";
        config_sha256 = "d";
        code_sha256 = none;
        valid_time_start = none;
        valid_time_end = none;
        source_time = none;
        accepted_at = none;
        ingested_at = none;
        available_at = "2026-05-08";
        hazard_class = "C";
        parent_product_ids = [];
      })
      id "now"

-- Two products, the first one a child of the second.
abbrev store : Store
store = record {
  tables = tables;
  data_products = product "out" "command_output.v1" ∷ product "in" "risk_decision_set.v1" ∷ [];
  data_product_lineage =
      record { child_product_id = "out"; parent_product_id = "in"; role = "risk" } ∷ [];
}

-- A product that is its own parent, which no run leaves.
abbrev cyclic : Store
cyclic = record store {
  data_product_lineage =
      record { child_product_id = "out"; parent_product_id = "out"; role = "risk" } ∷ [];
}

lineage_json_terminates_example : lineage_json cyclic "out" ≢ none
lineage_json_terminates_example = lineage_json_terminates cyclic "out"

lineage_json_exact_example :
    (w : Walk) × (lineage_json store "out" ≡ some (ok (lineage_value "out" w)))
    × ((c : String) → (contains_key c w.products ≡ true) ↔ Reaches store "out" c)
unfolding sec_fa.Storage.load_product
lineage_json_exact_example = lineage_json_exact store "out" ((refl, refl), tt) refl

abbrev replay_serde : Serde
replay_serde = record serde {
  value_of = λ s. some (object (field "exit_code" (number (int (pos 0))) end));
}

abbrev replay_digests : Digests
replay_digests = record { serde = replay_serde; sha256_hex = λ s. "d" }

-- A workflow of one node.
abbrev small : WorkflowSpec
small = record spec { nodes = note ∷ [] }

abbrev spec_of : Value → Result WorkflowSpec
spec_of v = ok small

abbrev node_row : NodeRow
node_row = record {
  node_run_id = "node_d";
  workflow_run_id = "wf";
  node_id = "note";
  algorithm_id = "note";
  cell_id = "job:1";
  config_sha256 = "d";
  input_product_ids_json = "[\"in\"]";
  output_product_ids_json = "[\"out\"]";
  status = "succeeded";
  started_at = some "now";
  finished_at = some "now";
  diagnostics = "";
}

abbrev runs : Runs
runs = record {
  world = record { store = store; ticks = 0 };
  workflow_runs = [];
  workflow_run_specs =
      record {
        workflow_run_id = "wf";
        workflow_spec_sha256 = "d";
        workflow_spec_json = "{}";
        created_at = "now";
      }
      ∷ [];
  workflow_edges = [];
  workflow_nodes = node_row ∷ [];
  graph_invariant_violations = [];
}

replayed : IsOk (replay_workflow replay_digests runs "wf" spec_of)
unfolding replay_workflow sec_fa.Replay.Queries.workflow_spec_row
    sec_fa.Graph.Ir.parse_workflow_ir_json sec_fa.Outcome.bail_if sec_fa.Registry.load_algorithm
    sec_fa.Replay.Queries.workflow_node_record
    sec_fa.Replay.Queries.output_product_ids_for_workflow_node sec_fa.Storage.load_product
    sec_fa.Hash.config_sha256 sec_fa.Hash.sort sec_fa.Replay.Queries.product_parent_ids
    sec_fa.Hash.content_sha256 sec_fa.Json.get_field
replayed = tt

replay_workflow_iff_example : RunReplays replay_digests runs "wf" spec_of
replay_workflow_iff_example = (replay_workflow_iff replay_digests runs "wf" spec_of).0 replayed

abbrev validated : ValidatedWorkflow
validated = record { parsed = parsed_from_spec replay_digests small; order = order; edges = edges }

abbrev clock : ℕ → String
clock n = "now"

abbrev empty_runs : Runs
empty_runs = record runs { workflow_run_specs = []; workflow_nodes = [] }

opened :
    insert_run replay_digests clock "wf" "now" validated empty_runs
    ≡ ok (with_run replay_digests clock "wf" "now" validated empty_runs)
unfolding insert_run
opened = refl

replay_workflow-insert_run_example :
    replay_workflow replay_digests
      (with_run replay_digests clock "wf" "now" validated empty_runs)
      "wf"
      spec_of
    ≡ (replay_nodes replay_digests
          (with_run replay_digests clock "wf" "now" validated empty_runs)
          "wf"
          small.nodes
          (record { checked = []; skipped = [] })
        >>= λ report. ok (replay_value "wf" small report))
replay_workflow-insert_run_example =
    replay_workflow-insert_run replay_digests clock "wf" "now" validated small spec_of
      (object (field "exit_code" (number (int (pos 0))) end)) empty_runs
      (with_run replay_digests clock "wf" "now" validated empty_runs) refl refl refl opened
