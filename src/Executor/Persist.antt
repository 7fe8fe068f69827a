-- ===== src/Executor/Persist.antt =====
-- `persist_typed_product` and `persist_node_outputs` of cli/src/framework/executor.rs.
pub mod Roles
use mathlib.Core.Option
use text.Mathlib.Text.{◌==◌}
use sec_fa.Prelude.{
  ℕ, zero, suc, ◌+◌, String, Bool, true, false, not, Option, none, some, List, [], ◌∷◌, ◌++◌, map,
  if◌then◌else◌,
}
use sec_fa.Prelude.Text.{format}
use sec_fa.Outcome.{Result, ok, err, ◌>>=◌, context}
use sec_fa.Json.{ℤ, pos, negsuc, Value, object, field, end, string, number, int, optional}
use sec_fa.Serde.{to_canonical_json}
use sec_fa.Registry.{Algorithm, ProductType, load_product_type}
use sec_fa.Hash.{Digests, content_sha256}
use sec_fa.Storage.{NewProduct, Store, persist_product}
use sec_fa.Graph.{NodeSpec, NodeOutputSpec}
use sec_fa.Executor.{
  CommandResult, ProducedProduct, AlgorithmExecution, noop, command, output_roles_for_type,
  domain_storage_ref,
}

-- The tables, and how often the clock was read.
pub record World : Type 0 where
  pub store : Store
  pub ticks : ℕ

abbrev pub Parents : Type 0
Parents = List (String × String)

abbrev pub new_product :
    ProductType
    → (cell_id config : String) → Algorithm
    → (content storage_kind storage_ref available_at : String) → Parents
    → NewProduct
new_product type_row cell_id config algorithm content storage_kind storage_ref available_at
      parents =
    record {
      product_type = type_row.product_type;
      schema_name = type_row.schema_name;
      schema_version = type_row.schema_version;
      cell_id = cell_id;
      family_id = none;
      content_sha256 = content;
      storage_kind = storage_kind;
      storage_ref = storage_ref;
      created_by_algorithm = algorithm.algorithm_id;
      algorithm_version = algorithm.algorithm_version;
      config_sha256 = config;
      code_sha256 = none;
      valid_time_start = none;
      valid_time_end = none;
      source_time = none;
      accepted_at = none;
      ingested_at = none;
      available_at = available_at;
      hazard_class = type_row.hazard_class;
      parent_product_ids = parents;
    }

-- The texts that `persist_node_outputs` hands on unchanged.
pub record Context : Type 0 where
  pub node : NodeSpec
  pub algorithm : Algorithm
  pub workflow_run_id : String
  pub cell_id : String
  pub config_sha256 : String
  pub decision_as_of : String
  pub parents : Parents

abbrev pub is_zero : ℤ → Bool
is_zero (pos zero) = true
is_zero _ = false

-- `clock n` is what the call of `utc_now` after `n` others gives.
module _ (d : Digests) (clock : ℕ → String) where
  unfoldable pub persist_typed_product :
      Context
      → (product_type content storage_kind storage_ref : String) → World
      → Result (String × World)
  persist_typed_product c product_type content storage_kind storage_ref w = do
    type_row ←
        context (load_product_type w.store.tables product_type)
          (format ("unknown product type " ∷ product_type ∷ []))
    (id, store) ←
        persist_product d (clock w.ticks)
          (new_product type_row c.cell_id c.config_sha256 c.algorithm content storage_kind
            storage_ref c.decision_as_of c.parents)
          w.store
    ok (id, record { store = store; ticks = w.ticks + 1 })

  -- The loop over the roles of the command's output.
  unfoldable pub persist_roles :
      Context
      → (content storage_ref : String) → Option String
      → List String
      → World
      → Result (List ProducedProduct × World)
  persist_roles c content storage_ref run_id [] w = ok ([], w)
  persist_roles c content storage_ref run_id (role ∷ rest) w = do
    (id, w₁) ← persist_typed_product c "command_output.v1" content "inline_json" storage_ref w
    (products, w₂) ← persist_roles c content storage_ref run_id rest w₁
    ok (
      record { product_id = id; product_type = "command_output.v1"; role = role; run_id = run_id }
          ∷ products,
      w₂,
    )

  abbrev pub domain_payload : Context → String → Option String → String → Value
  domain_payload c storage_ref run_id created_at = object (
      field "storage_ref" (string storage_ref) (
        field "algorithm_id" (string c.algorithm.algorithm_id) (
          field "node_id" (string c.node.node_id) (
            field "workflow_run_id" (string c.workflow_run_id)
              (field "run_id" (optional run_id) (field "created_at" (string created_at) end))))))

  -- The clock is read in `domain_storage_ref` for the broker events only.
  unfoldable pub reference_ticks : Context → String → ℕ
  reference_ticks c product_type =
      if c.algorithm.algorithm_id == "cmd.send.mock.v1"
      then (if product_type == "broker_event_set.v1" then 1 else 0)
      else 0

  -- The loop over the outputs of other types.
  unfoldable pub persist_outputs :
      Context
      → Option String
      → Option String
      → List NodeOutputSpec
      → World
      → Result (List ProducedProduct × World)
  unfolding reference_ticks
  persist_outputs c run_id command_output_product_id [] w = ok ([], w)
  persist_outputs c run_id command_output_product_id (output ∷ rest) w =
      let skipped = persist_outputs c run_id command_output_product_id rest w in
      let storage_ref =
        domain_storage_ref (clock w.ticks) c.algorithm.algorithm_id output.product_type run_id
          command_output_product_id in
      let read = w.ticks + reference_ticks c output.product_type in
      let content = content_sha256 d (domain_payload c storage_ref run_id (clock read)) in
      let persisted = (do
        (id, w₁) ←
            persist_typed_product c output.product_type content "sqlite_ref" storage_ref
              (record { store = w.store; ticks = read + 1 })
        (products, w₂) ← persist_outputs c run_id command_output_product_id rest w₁
        ok (
          record {
            product_id = id;
            product_type = output.product_type;
            role = output.role;
            run_id = run_id;
          }
              ∷ products,
          w₂,
        )) in
      if output.product_type == "command_output.v1" then skipped else persisted

  abbrev pub last_id : List ProducedProduct → Option String
  last_id [] = none
  last_id (p ∷ []) = some p.product_id
  last_id (p ∷ q ∷ rest) = last_id (q ∷ rest)

  abbrev pub command_payload : CommandResult → Value
  command_payload result = object (
      field "stdout" (string result.stdout) (
        field "stderr" (string result.stderr)
          (field "exit_code" (number (int result.exit_code)) end)))

  -- Dropping the transaction undoes its writes; committing keeps them. The count of clock reads goes
  -- back with the tables.
  abbrev pub committed :
      World → Result (List ProducedProduct × World) → Result (List ProducedProduct) × World
  committed before (ok (products, after)) = (ok products, after)
  committed before (err e) = (err e, before)

  unfoldable pub persist_command :
      Context
      → CommandResult
      → Option String
      → World
      → List ProducedProduct × World
      → Result (List ProducedProduct) × World
  unfolding persist_outputs
  persist_command c result run_id before (products, after) =
      let more = (do
        (others, last) ← persist_outputs c run_id (last_id products) c.node.outputs after
        ok (products ++ others, last)) in
      if not (is_zero result.exit_code)
      then (
        err (
            format (
              "algorithm "
              ∷ c.algorithm.algorithm_id
              ∷ " exited with code "
              ∷ d.serde.number_text (int result.exit_code)
              ∷ [])),
        after,
      )
      else committed before more

  abbrev pub command_then :
      Context
      → CommandResult
      → Option String
      → World
      → Result (List ProducedProduct × World)
      → Result (List ProducedProduct) × World
  command_then c result run_id before (ok done) = persist_command c result run_id before done
  command_then c result run_id before (err e) = (err e, before)

  -- The transaction of `persist_node_outputs`.
  unfoldable pub persist_node_outputs :
      Context → AlgorithmExecution → World → Result (List ProducedProduct) × World
  unfolding persist_command
  persist_node_outputs c (noop payload) w = committed w (
      persist_roles c (content_sha256 d payload) (to_canonical_json d.serde payload) none
        (output_roles_for_type c.node "command_output.v1" "output") w)
  persist_node_outputs c (command result run_id) w = command_then c result run_id w (
      persist_roles c (content_sha256 d (command_payload result))
        (to_canonical_json d.serde (command_payload result)) run_id
        (output_roles_for_type c.node "command_output.v1" "command_output") w)
