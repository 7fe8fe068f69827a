-- ===== src/Replay/Queries.antt =====
-- The queries of cli/src/framework/replay.rs and cli/src/framework/storage.rs on the rows that a
-- run leaves. Of rows that an ORDER BY leaves equal, the first one is taken.
use text.Mathlib.Text.{◌==◌}
use sec_fa.Prelude.{
  String, Bool, true, false, ◌&&◌, Option, none, some, List, [], ◌∷◌, map, find, unwrap_or,
  if◌then◌else◌,
}
use sec_fa.Prelude.Text.{str_ltb}
use sec_fa.Outcome.{Result, ok, ◌>>=◌, context}
use sec_fa.Serde.{Serde}
use sec_fa.Storage.{DataProduct, Store, LineageRow, load_product}
use sec_fa.Storage.Lineage.{rows_of}
use sec_fa.Executor.Run.{Runs, NodeRow, has_spec}

-- SQLite's order of a column: NULL stands first.
abbrev pub column_ltb : Option String → Option String → Bool
column_ltb none none = false
column_ltb none (some b) = true
column_ltb (some a) none = false
column_ltb (some a) (some b) = str_ltb a b

abbrev pub newer : (NodeRow → Option String) → NodeRow → Option NodeRow → Option NodeRow
newer key row none = some row
newer key row (some other) = some (if column_ltb (key row) (key other) then other else row)

-- WHERE workflow_run_id=? AND node_id=? ORDER BY .. DESC LIMIT 1
unfoldable pub newest_row :
    (NodeRow → Option String) → String → String → List NodeRow → Option NodeRow
newest_row key run node_id [] = none
newest_row key run node_id (row ∷ rows) =
    let rest = newest_row key run node_id rows in
    if row.workflow_run_id == run && row.node_id == node_id then newer key row rest else rest

-- The error of a query that finds no row.
abbrev pub no_rows : String
no_rows = "Query returned no rows"

abbrev pub started : NodeRow → Option String
started row = row.started_at

abbrev pub finished : NodeRow → Option String
finished row = row.finished_at

module _ (serde : Serde) where
  unfoldable pub workflow_node_record : Runs → String → String → Result (String × List String)
  unfolding newest_row
  workflow_node_record s run node_id =
      context (newest_row started run node_id s.workflow_nodes) no_rows >>= λ row.
      context (serde.strings_of row.input_product_ids_json) "invalid JSON" >>= λ ids.
      ok (row.status, ids)

  unfoldable pub output_product_ids_for_workflow_node :
      Runs → String → String → Result (List String)
  unfolding newest_row
  output_product_ids_for_workflow_node s run node_id =
      context (newest_row finished run node_id s.workflow_nodes) no_rows >>= λ row.
      ok (unwrap_or (serde.strings_of row.output_product_ids_json) [])

-- The query also sorts by role, which the ids do not show.
unfoldable pub product_parent_ids : Store → String → List String
unfolding rows_of
product_parent_ids s product_id =
    map (λ (row : LineageRow). row.parent_product_id) (rows_of product_id s.data_product_lineage)

unfoldable pub latest_product_for_node_output : Store → List String → String → Option DataProduct
latest_product_for_node_output s [] product_type = none
latest_product_for_node_output s (product_id ∷ rest) product_type =
    let later = latest_product_for_node_output s rest product_type in
    elim (load_product s product_id) [
      | none ↦ later
      | some product ↦ if product.product_type == product_type then some product else later
    ]

unfoldable pub workflow_spec_row : Runs → String → Result (String × String)
workflow_spec_row s run = context (find (has_spec run) s.workflow_run_specs) no_rows >>= λ row.
    ok (row.workflow_spec_json, row.workflow_spec_sha256)

-- ORDER BY started_at, node_id
abbrev pub before : NodeRow → NodeRow → Bool
before a b =
    if column_ltb a.started_at b.started_at
    then true
    else if column_ltb b.started_at a.started_at
    then false
    else str_ltb a.node_id b.node_id

unfoldable pub insert_node : NodeRow → List NodeRow → List NodeRow
insert_node x [] = x ∷ []
insert_node x (y ∷ ys) = if before y x then y ∷ insert_node x ys else x ∷ y ∷ ys

unfoldable pub nodes_of_run : String → List NodeRow → List NodeRow
unfolding insert_node
nodes_of_run run [] = []
nodes_of_run run (row ∷ rows) =
    let rest = nodes_of_run run rows in
    if row.workflow_run_id == run then insert_node row rest else rest

unfoldable pub deterministic_node_ids : Runs → String → List String
unfolding nodes_of_run
deterministic_node_ids s run =
    map (λ (row : NodeRow). row.node_id) (nodes_of_run run s.workflow_nodes)
