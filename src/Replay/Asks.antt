-- ===== src/Replay/Asks.antt =====
-- What the queries and the payloads of cli/src/framework/replay.rs stand for, in terms of the rows.
pub mod Rows
pub mod Records
pub mod Firsts
use text.Mathlib.Text.{◌==◌}
use sec_fa.Prelude.{
  String, ◌≡◌, ◌⊎◌, Bool, true, false, ◌&&◌, Option, none, some, List, [], ◌∷◌, ◌++◌, All,
  if◌then◌else◌,
}
use sec_fa.Serde.{Serde}
use sec_fa.Json.{Value, pos, number, int, string, get}
use sec_fa.Storage.{Store, LineageRow, DataProduct, load_product}
use sec_fa.Executor.Run.{Runs, NodeRow, SpecRow}
use sec_fa.Replay.Queries.{column_ltb}

abbrev pub of_node : String → String → NodeRow → Bool
of_node run node_id row = row.workflow_run_id == run && row.node_id == node_id

-- The row of a node of which no other row has a later time; of those with the same time, the first.
pub record Newest (key : NodeRow → Option String) (run node_id : String) (rows : List NodeRow)
    (row : NodeRow) : Type 0 where
  pub earlier : List NodeRow
  pub later : List NodeRow
  pub split : rows ≡ earlier ++ row ∷ later
  pub of : of_node run node_id row ≡ true
  pub newest : All (λ r. of_node run node_id r ≡ true → column_ltb (key row) (key r) ≡ false) rows
  pub first : All (λ r. of_node run node_id r ≡ true → column_ltb (key r) (key row) ≡ true) earlier

-- The node's record that was started last says that it succeeded, with these inputs.
pub record Ended (serde : Serde) (s : Runs) (run node_id : String) (inputs : List String)
    : Type 0 where
  pub row : NodeRow
  pub last : Newest (λ r. r.started_at) run node_id s.workflow_nodes row
  pub status : row.status ≡ "succeeded"
  pub read : serde.strings_of row.input_product_ids_json ≡ some inputs

-- The node's record that was finished last has these outputs; a text that does not read has none.
pub record Gave (serde : Serde) (s : Runs) (run node_id : String) (outputs : List String)
    : Type 0 where
  pub row : NodeRow
  pub last : Newest (λ r. r.finished_at) run node_id s.workflow_nodes row
  pub read :
      (serde.strings_of row.output_product_ids_json ≡ some outputs)
      ⊎ ((serde.strings_of row.output_product_ids_json ≡ none) × (outputs ≡ []))

-- The parents of a product in the lineage.
unfoldable pub parents_in : String → List LineageRow → List String
parents_in child [] = []
parents_in child (row ∷ rows) =
    let rest = parents_in child rows in
    if row.child_product_id == child then row.parent_product_id ∷ rest else rest

-- The first of a list of ids that is the id of a stored command output.
pub record FirstOutput (store : Store) (ids : List String) (product : DataProduct) : Type 0 where
  pub earlier : List String
  pub id : String
  pub later : List String
  pub split : ids ≡ earlier ++ id ∷ later
  pub loaded : load_product store id ≡ some product
  pub output : product.product_type ≡ "command_output.v1"
  pub others :
      All
        (λ i.
          (q : DataProduct)
          → load_product store i ≡ some q
          → (q.product_type == "command_output.v1") ≡ false)
        earlier

-- The specification row of a run.
pub record SpecOf (s : Runs) (run : String) (row : SpecRow) : Type 0 where
  pub earlier : List SpecRow
  pub later : List SpecRow
  pub split : s.workflow_run_specs ≡ earlier ++ row ∷ later
  pub of : row.workflow_run_id ≡ run
  pub others : All (λ (r : SpecRow). (r.workflow_run_id == run) ≡ false) earlier

-- The message of a configuration: the text of that name, or the empty text without one.
pub data MessageOf (config : Value) : String → Type 0 where
  given : (text : String) → get "message" config ≡ some (string text) → MessageOf config text
  absent : ((text : String) → get "message" config ≡ some (string text) → ⊥) → MessageOf config ""
