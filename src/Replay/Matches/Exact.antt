-- ===== src/Replay/Matches/Exact.antt =====
-- When replay_workflow of cli/src/framework/replay.rs succeeds.
use sec_fa.Prelude.{String, ◌≡◌, ◌↔◌, List, [], ◌∷◌, All, eq_iff}
use sec_fa.Outcome.{Result, ok, IsOk, IsOk-of_eq, ok_of, IsOk-bind, IsOk-then, IsOk-bail}
use sec_fa.Json.{Value}
use sec_fa.Hash.{Digests}
use sec_fa.Graph.{NodeSpec, WorkflowSpec, ParsedWorkflow}
use sec_fa.Graph.Ir.{parse_workflow_ir_json}
use sec_fa.Executor.Run.{Runs, SpecRow}
use sec_fa.Replay.{Report, replay_node, replay_nodes, replay_parsed, replay_workflow}
use sec_fa.Replay.Queries.{workflow_spec_row}
use sec_fa.Replay.Asks.{SpecOf}
use sec_fa.Replay.Asks.Firsts.{workflow_spec_row_iff}
use sec_fa.Replay.Matches.{Replayed}
use sec_fa.Replay.Matches.Nodes.{replay_node_iff}

module _ (d : Digests) (s : Runs) (run : String) where
  replay_nodes_iff :
      (nodes : List NodeSpec) (report : Report)
      → IsOk (replay_nodes d s run nodes report) ↔ All (Replayed d s run) nodes
  unfolding replay_nodes
  replay_nodes_iff [] report = (λ h. tt, λ h. tt)
  replay_nodes_iff (node ∷ nodes) report = (
    λ h.
        let (next, e, k) =
          (IsOk-bind (replay_node d s run node report) (replay_nodes d s run nodes)).0 h in
        ((replay_node_iff d s run node report).0 (IsOk-of_eq e), (replay_nodes_iff nodes next).0 k),
    λ h.
        let (next, e) =
          ok_of (replay_node d s run node report) ((replay_node_iff d s run node report).1 h.0) in
        (IsOk-bind (replay_node d s run node report) (replay_nodes d s run nodes)).1
          (next, e, (replay_nodes_iff nodes next).1 h.1),
  )

  -- The stored specification, read back, has the stored hash, and each of its nodes replays.
  pub record RunReplays (spec_of : Value → Result WorkflowSpec) : Type 0 where
    pub spec_json : String
    pub spec_sha256 : String
    pub parsed : ParsedWorkflow
    pub row : SpecRow
    pub stored : SpecOf s run row
    pub json : row.workflow_spec_json ≡ spec_json
    pub sha256 : row.workflow_spec_sha256 ≡ spec_sha256
    pub read : parse_workflow_ir_json d spec_of spec_json ≡ ok parsed
    pub hash : parsed.spec_sha256 ≡ spec_sha256
    pub nodes : All (Replayed d s run) parsed.spec.nodes

  -- replay_workflow gives a result exactly when the run has a specification whose text reads back to
  -- a workflow of the stored hash, each node of it has an algorithm that is in the registry, and it
  -- is of one of these kinds. Its algorithm is not deterministic. Or the node's record that was started last says that it succeeded, and: its
  -- algorithm is a rust operation or a command, and each output of the record that was finished last
  -- is a stored product that was made by the node's algorithm, with the node's configuration, from
  -- the node's inputs (in any order), and that, if it is a command_output.v1, has a payload of the
  -- stored hash with the exit code 0; or its algorithm is a noop test, and the first
  -- command_output.v1 among these outputs has the hash of the payload with the algorithm, the
  -- configuration's hash and its message; or its algorithm is of another kind.
  pub replay_workflow_iff :
      (spec_of : Value → Result WorkflowSpec)
      → IsOk (replay_workflow d s run spec_of) ↔ RunReplays spec_of
  unfolding replay_workflow replay_parsed
  replay_workflow_iff spec_of = (
    λ h.
        let ((spec_json, spec_sha256), stored, k) = (IsOk-bind (workflow_spec_row s run) _).0 h in
        let (row, spec, json, sha256) =
          (workflow_spec_row_iff s run spec_json spec_sha256).0 stored in
        let (parsed, read, l) =
          (IsOk-bind (parse_workflow_ir_json d spec_of spec_json)
              (replay_parsed d s run spec_sha256)).0
            k in
        let (same, m) = (IsOk-then _ _).0 l in
        let (report, e, n) =
          (IsOk-bind
              (replay_nodes d s run parsed.spec.nodes (record { checked = []; skipped = [] })) _).0
            m in
        record {
          spec_json = spec_json;
          spec_sha256 = spec_sha256;
          parsed = parsed;
          row = row;
          stored = spec;
          json = json;
          sha256 = sha256;
          read = read;
          hash = (eq_iff parsed.spec_sha256 spec_sha256).0 ((IsOk-bail _ _).0 same);
          nodes = (replay_nodes_iff parsed.spec.nodes _).0 (IsOk-of_eq e);
        },
    λ r.
        let empty : Report = record { checked = []; skipped = [] } in
        let (report, e) =
          ok_of (replay_nodes d s run r.parsed.spec.nodes empty)
            ((replay_nodes_iff r.parsed.spec.nodes empty).1 r.nodes) in
        (IsOk-bind (workflow_spec_row s run) _).1 (
          (r.spec_json, r.spec_sha256),
          (workflow_spec_row_iff s run r.spec_json r.spec_sha256).1
              (r.row, r.stored, r.json, r.sha256),
          (IsOk-bind (parse_workflow_ir_json d spec_of r.spec_json)
                (replay_parsed d s run r.spec_sha256)).1
              (
                r.parsed,
                r.read,
                (IsOk-then _ _).1 (
                  (IsOk-bail _ _).1 ((eq_iff r.parsed.spec_sha256 r.spec_sha256).1 r.hash),
                  (IsOk-bind (replay_nodes d s run r.parsed.spec.nodes empty) _).1 (report, e, tt),
                ),
              ),
        ),
  )
