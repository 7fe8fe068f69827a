-- ===== src/Executor/Run/Tables.antt =====
-- The tables of runs of schema.sql.
use sec_fa.Prelude.{String, Option, List}
use sec_fa.Executor.Persist.{World}

pub record RunRow : Type 0 where
  pub workflow_run_id : String
  pub workflow_name : String
  pub workflow_spec_sha256 : String
  pub driver_json : String
  pub mode : String
  pub decision_as_of : String
  pub status : String
  pub created_at : String
  pub started_at : Option String
  pub finished_at : Option String
  pub diagnostics : String

pub record SpecRow : Type 0 where
  pub workflow_run_id : String
  pub workflow_spec_sha256 : String
  pub workflow_spec_json : String
  pub created_at : String

pub record EdgeRow : Type 0 where
  pub workflow_run_id : String
  pub from_node_id : String
  pub to_node_id : String
  pub product_role : String

pub record NodeRow : Type 0 where
  pub node_run_id : String
  pub workflow_run_id : String
  pub node_id : String
  pub algorithm_id : String
  pub cell_id : String
  pub config_sha256 : String
  pub input_product_ids_json : String
  pub output_product_ids_json : String
  pub status : String
  pub started_at : Option String
  pub finished_at : Option String
  pub diagnostics : String

pub record ViolationRow : Type 0 where
  pub violation_id : String
  pub workflow_run_id : String
  pub invariant_id : String
  pub subject_json : String
  pub severity : String
  pub explanation : String
  pub created_at : String

-- All tables; new rows stand in front.
pub record Runs : Type 0 where
  pub world : World
  pub workflow_runs : List RunRow
  pub workflow_run_specs : List SpecRow
  pub workflow_edges : List EdgeRow
  pub workflow_nodes : List NodeRow
  pub graph_invariant_violations : List ViolationRow
