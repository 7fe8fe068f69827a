-- ===== src/Executor/Run.antt =====
-- The tables of runs, and the statements on them, of cli/src/framework/executor.rs:
-- insert_node_running, mark_node_finished, mark_workflow_status, mark_workflow_finished,
-- persist_violations, and the first transaction of run_validated_workflow.
mod Tables
pub mod Loop
pub use Tables.*
use text.Mathlib.Text.{◌==◌}
use sec_fa.Prelude.{
  ℕ, ◌+◌, String, Bool, true, false, not, ◌&&◌, ◌||◌, Option, none, some, List, [], ◌∷◌, map, any,
  is_some, if◌then◌else◌,
}
use sec_fa.Prelude.Text.{format}
use sec_fa.Outcome.{Result, ok, err, ◌>>=◌}
use sec_fa.Json.{
  Value, object, array, field, end, string, bool, text_object, text_array, Items, nil, cons,
}
use sec_fa.Serde.{to_canonical_json}
use sec_fa.Invariants.{InvariantViolation}
use sec_fa.Registry.{Algorithm, load_algorithm}
use sec_fa.Hash.{Digests, slice_to, canonical_sha256}
use sec_fa.Graph.{DriverSpec, NodeSpec, WorkflowEdge, ParsedWorkflow, ValidatedWorkflow}
use sec_fa.Graph.Ir.{driver_value}
use sec_fa.Executor.Persist.{World}

abbrev pub tick : Runs → Runs
tick s = record s { world = record s.world { ticks = s.world.ticks + 1 } }

abbrev pub violation_value : InvariantViolation → Value
violation_value v = object (
    field "invariant_id" (string v.invariant_id) (
      field "subject" v.subject
        (field "severity" (string v.severity) (field "explanation" (string v.explanation) end))))

violation_items : List InvariantViolation → Items
violation_items [] = nil
violation_items (v ∷ vs) = cons (violation_value v) (violation_items vs)

abbrev pub same_edge : EdgeRow → EdgeRow → Bool
same_edge a b =
    a.workflow_run_id == b.workflow_run_id
    && a.from_node_id == b.from_node_id
    && a.to_node_id == b.to_node_id
    && a.product_role == b.product_role

-- INSERT OR IGNORE INTO workflow_edges, for each edge.
unfoldable pub insert_edges : String → List WorkflowEdge → List EdgeRow → List EdgeRow
insert_edges run [] rows = rows
insert_edges run (edge ∷ rest) rows =
    let row : EdgeRow = record {
      workflow_run_id = run;
      from_node_id = edge.from_node_id;
      to_node_id = edge.to_node_id;
      product_role = edge.product_role;
    } in
    insert_edges run rest (if any (same_edge row) rows then rows else row ∷ rows)

abbrev pub has_run : String → RunRow → Bool
has_run run row = row.workflow_run_id == run

abbrev pub has_spec : String → SpecRow → Bool
has_spec run row = row.workflow_run_id == run

-- A row that the primary key or UNIQUE(workflow_run_id, node_id, cell_id) refuses.
abbrev pub same_node_run : NodeRow → NodeRow → Bool
same_node_run a b =
    a.node_run_id == b.node_run_id
    || (a.workflow_run_id == b.workflow_run_id && a.node_id == b.node_id && a.cell_id == b.cell_id)

-- finished_at=CASE WHEN ? IN ('succeeded','failed','rejected') THEN ? ELSE finished_at END
abbrev pub is_final : String → Bool
is_final status = status == "succeeded" || status == "failed" || status == "rejected"

abbrev pub update_run : String → String → String → String → RunRow → RunRow
update_run now run status diagnostics row =
    if row.workflow_run_id == run
    then record row {
      status = status;
      finished_at = if is_final status then some now else row.finished_at;
      diagnostics = diagnostics;
    }
    else row

abbrev pub update_node : String → String → String → String → String → NodeRow → NodeRow
update_node now node_run status outputs diagnostics row =
    if row.node_run_id == node_run
    then record row {
      status = status;
      output_product_ids_json = outputs;
      finished_at = some now;
      diagnostics = diagnostics;
    }
    else row

module _ (d : Digests) (clock : ℕ → String) where
  abbrev pub json : Value → String
  json v = to_canonical_json d.serde v

  -- The rows of a new run.
  unfoldable pub with_run : String → String → ValidatedWorkflow → Runs → Runs
  unfolding insert_edges
  with_run run created_at validated s =
      let spec = validated.parsed.spec in
      record s {
        workflow_runs =
            record {
              workflow_run_id = run;
              workflow_name = spec.workflow_name;
              workflow_spec_sha256 = validated.parsed.spec_sha256;
              driver_json = json (driver_value spec.driver);
              mode = spec.driver.mode;
              decision_as_of = spec.driver.decision_as_of;
              status = "running";
              created_at = created_at;
              started_at = some created_at;
              finished_at = none;
              diagnostics = "";
            }
            ∷ s.workflow_runs;
        workflow_run_specs =
            record {
              workflow_run_id = run;
              workflow_spec_sha256 = validated.parsed.spec_sha256;
              workflow_spec_json = validated.parsed.canonical_json;
              created_at = created_at;
            }
            ∷ s.workflow_run_specs;
        workflow_edges = insert_edges run validated.edges s.workflow_edges;
      }

  -- The first transaction of a run; `created_at` was read before.
  unfoldable pub insert_run : String → String → ValidatedWorkflow → Runs → Result Runs
  unfolding with_run
  insert_run run created_at validated s =
      if any (has_run run) s.workflow_runs || any (has_spec run) s.workflow_run_specs
      then err "UNIQUE constraint failed"
      else ok (with_run run created_at validated s)

  unfoldable pub insert_node_running :
      (run node_run : String)
      → NodeSpec
      → Algorithm
      → (cell config : String) → List String
      → Runs
      → Result Runs
  insert_node_running run node_run node algorithm cell config inputs s =
      let row : NodeRow = record {
        node_run_id = node_run;
        workflow_run_id = run;
        node_id = node.node_id;
        algorithm_id = algorithm.algorithm_id;
        cell_id = cell;
        config_sha256 = config;
        input_product_ids_json = json (text_array inputs);
        output_product_ids_json = "[]";
        status = "running";
        started_at = some (clock s.world.ticks);
        finished_at = none;
        diagnostics = "";
      } in
      if any (same_node_run row) s.workflow_nodes
      then err "UNIQUE constraint failed"
      else if any (has_run run) s.workflow_runs
          && is_some (load_algorithm d.serde s.world.store.tables algorithm.algorithm_id)
      then ok (record (tick s) { workflow_nodes = row ∷ s.workflow_nodes })
      else err "FOREIGN KEY constraint failed"

  unfoldable pub mark_node_finished : (node_run status outputs diagnostics : String) → Runs → Runs
  mark_node_finished node_run status outputs diagnostics s = record (tick s) {
    workflow_nodes =
        map (update_node (clock s.world.ticks) node_run status outputs diagnostics)
          s.workflow_nodes;
  }

  unfoldable pub mark_workflow_status : (run status diagnostics : String) → Runs → Runs
  mark_workflow_status run status diagnostics s = record (tick s) {
    workflow_runs = map (update_run (clock s.world.ticks) run status diagnostics) s.workflow_runs;
  }

  unfoldable pub mark_workflow_finished :
      (run status : String) → List InvariantViolation → Runs → Runs
  unfolding mark_workflow_status violation_items
  mark_workflow_finished run status violations s =
      mark_workflow_status run status (json (array (violation_items violations))) s

  abbrev pub violation_row : String → InvariantViolation → Runs → ViolationRow
  violation_row run v s = record {
    violation_id = format (
        "viol_"
        ∷ slice_to 48 (
            canonical_sha256 d (
              object (
                field "workflow_run_id" (string run) (
                  field "invariant_id" (string v.invariant_id) (
                    field "subject" v.subject
                      (field "created_at" (string (clock s.world.ticks)) end))))))
        ∷ []);
    workflow_run_id = run;
    invariant_id = v.invariant_id;
    subject_json = json v.subject;
    severity = v.severity;
    explanation = v.explanation;
    created_at = clock (s.world.ticks + 1);
  }

  -- INSERT OR IGNORE INTO graph_invariant_violations, for each violation.
  unfoldable pub persist_violations : String → List InvariantViolation → Runs → Runs
  persist_violations run [] s = s
  persist_violations run (v ∷ rest) s =
      let row = violation_row run v s in
      let known =
        any (λ (r : ViolationRow). r.violation_id == row.violation_id)
          s.graph_invariant_violations in
      persist_violations run rest (record (tick (tick s)) {
        graph_invariant_violations =
            if known then s.graph_invariant_violations else row ∷ s.graph_invariant_violations;
      })
