-- ===== src/Replay/Stored.antt =====
-- replay_workflow of cli/src/framework/replay.rs on what the first transaction of
-- run_validated_workflow of cli/src/framework/executor.rs stores.
use sec_fa.Prelude.{ℕ, String, ◌≡◌, refl, subst, some, [], arith, eq_iff}
use sec_fa.Outcome.{Result, ok, ◌>>=◌, bail_if}
use sec_fa.Json.{Value}
use sec_fa.Hash.{Digests}
use sec_fa.Graph.{WorkflowSpec, ValidatedWorkflow, ParsedWorkflow}
use sec_fa.Graph.Ir.{parsed_from_spec, parse_workflow_ir_json, spec_value}
use sec_fa.Serde.{to_canonical_json}
use sec_fa.Executor.Run.{Runs, insert_run, with_run}
use sec_fa.Replay.{replay_workflow, replay_parsed, replay_nodes, replay_value}
use sec_fa.Replay.Queries.{workflow_spec_row}

insert_run-row :
    (d : Digests) (clock : ℕ → String) (run created_at : String) (validated : ValidatedWorkflow)
    (s t : Runs)
    → insert_run d clock run created_at validated s ≡ ok t
    → workflow_spec_row t run ≡ ok (validated.parsed.canonical_json, validated.parsed.spec_sha256)
unfolding insert_run with_run workflow_spec_row
insert_run-row d clock run created_at validated s t h = ground (arith, eq_iff run run)

read_back :
    (d : Digests) (spec : WorkflowSpec) (spec_of : Value → Result WorkflowSpec) (value : Value)
    → d.serde.value_of (to_canonical_json d.serde (spec_value spec)) ≡ some value
    → spec_of value ≡ ok spec
    → parse_workflow_ir_json d spec_of (parsed_from_spec d spec).canonical_json
      ≡ ok (parsed_from_spec d spec)
unfolding parse_workflow_ir_json parsed_from_spec
read_back d spec spec_of value read is = rw (read, ◌>>=◌, is) refl

hash_confirmed :
    (d : Digests) (t : Runs) (run : String) (spec : WorkflowSpec)
    → replay_parsed d t run (parsed_from_spec d spec).spec_sha256 (parsed_from_spec d spec) ≡ (
        replay_nodes d t run spec.nodes (record { checked = []; skipped = [] }) >>= λ report.
        ok (replay_value run spec report))
unfolding replay_parsed parsed_from_spec bail_if
hash_confirmed d t run spec =
    let sha = (parsed_from_spec d spec).spec_sha256 in rw ((eq_iff sha sha).1 refl) refl

-- The first transaction of a run stores a specification that replay_workflow finds and whose hash
-- it confirms, where serde reads the specification back from its own text: what remains of the
-- replay are its nodes.
pub replay_workflow-insert_run :
    (d : Digests) (clock : ℕ → String) (run created_at : String) (validated : ValidatedWorkflow)
    (spec : WorkflowSpec) (spec_of : Value → Result WorkflowSpec) (value : Value) (s t : Runs)
    → validated.parsed ≡ parsed_from_spec d spec
    → d.serde.value_of (to_canonical_json d.serde (spec_value spec)) ≡ some value
    → spec_of value ≡ ok spec
    → insert_run d clock run created_at validated s ≡ ok t
    → replay_workflow d t run spec_of ≡ (
        replay_nodes d t run spec.nodes (record { checked = []; skipped = [] }) >>= λ report.
        ok (replay_value run spec report))
unfolding replay_workflow
replay_workflow-insert_run d clock run created_at validated spec spec_of value s t built read is h =
    let parsed = parsed_from_spec d spec in
    let row =
      subst (λ (p : ParsedWorkflow). workflow_spec_row t run ≡ ok (p.canonical_json, p.spec_sha256))
        built (insert_run-row d clock run created_at validated s t h) in
    rw (row, ◌>>=◌, read_back d spec spec_of value read is) (hash_confirmed d t run spec)
