-- ===== src/Tests/Products.antt =====
-- Products and their ids, and the outputs of a node, on concrete tables.
use mathlib.Core.List.{Permᴰ}
use sec_fa.Prelude.{
  ℕ, String, ◌≡◌, refl, true, none, some, List, [], ◌∷◌, ◌++◌, map, Memᴰ, if◌then◌else◌,
}
use sec_fa.Prelude.Text.{format, str_ltb}
use sec_fa.Outcome.{Result, ok, err, IsOk}
use sec_fa.Json.{ℤ, pos, Value, null}
use sec_fa.Registry.{Algorithm, load_algorithm, algorithm_of_row}
use sec_fa.Hash
use sec_fa.Hash.{Digests}
use sec_fa.Hash.Order.{product_id-order, node_run_id-order}
use sec_fa.Storage.{
  NewProduct, DataProduct, LineageRow, Store, row_of, new_product_id, persist_product, load_product,
  same_key,
}
use sec_fa.Storage.Laws.Parents.{HasParents}
use sec_fa.Storage.Laws.Persist.{
  persist_product-stored, persist_product-again, persist_product-keeps,
}
use sec_fa.Executor.{CommandResult, ProducedProduct, noop, command, output_roles_for_type}
use sec_fa.Executor.Inputs.{IsUsable, runtime_input_violations, runtime_inputs-IsUsable}
use sec_fa.Executor.Persist.{World, Context, persist_node_outputs, is_zero}
use sec_fa.Executor.Persist.Roles.{offer_of, command_offer, command_outputs_complete, noop_outputs}
use sec_fa.Tests.Fixture.{serde, digests, time, tables, stage, note, note_row}

product_id-order_example :
    Hash.product_id digests "t" "s" (pos 1) "c" none "x" "a" "1" "y" ("p" ∷ "q" ∷ []) "now"
    ≡ Hash.product_id digests "t" "s" (pos 1) "c" none "x" "a" "1" "y" ("q" ∷ "p" ∷ []) "now"
product_id-order_example =
    product_id-order digests "t" "s" (pos 1) "c" none "x" "a" "1" "y" ("p" ∷ "q" ∷ [])
      ("q" ∷ "p" ∷ []) "now" (Permᴰ.swap refl refl)

node_run_id-order_example :
    Hash.node_run_id digests "w" "n" "c" "a" "y" ("p" ∷ "q" ∷ [])
    ≡ Hash.node_run_id digests "w" "n" "c" "a" "y" ("q" ∷ "p" ∷ [])
node_run_id-order_example =
    node_run_id-order digests "w" "n" "c" "a" "y" ("p" ∷ "q" ∷ []) ("q" ∷ "p" ∷ [])
      (Permᴰ.swap refl refl)

abbrev product : List (String × String) → NewProduct
product parents = record {
  product_type = "command_output.v1";
  schema_name = "command_output.v1";
  schema_version = pos 1;
  cell_id = "job:1";
  family_id = none;
  content_sha256 = "x";
  storage_kind = "inline_json";
  storage_ref = "{}";
  created_by_algorithm = "note";
  algorithm_version = "1";
  config_sha256 = "y";
  code_sha256 = none;
  valid_time_start = none;
  valid_time_end = none;
  source_time = none;
  accepted_at = none;
  ingested_at = none;
  available_at = "2026-05-08";
  hazard_class = "C";
  parent_product_ids = parents;
}

abbrev parent_row : DataProduct
parent_row =
    row_of (record (product []) { product_type = "risk_decision_set.v1"; hazard_class = "A" }) "p"
      "earlier"

abbrev before : Store
before = record { tables = tables; data_products = parent_row ∷ []; data_product_lineage = [] }

abbrev child : NewProduct
child = product (("p", "risk") ∷ [])

abbrev after : Store
after = record {
  tables = tables;
  data_products = row_of child "prod_d" "now" ∷ parent_row ∷ [];
  data_product_lineage =
      record { child_product_id = "prod_d"; parent_product_id = "p"; role = "risk" } ∷ [];
}

persisted : persist_product digests "now" child before ≡ ok ("prod_d", after)
unfolding persist_product new_product_id Hash.product_id format sec_fa.Storage.insert_product
    sec_fa.Registry.load_product_type sec_fa.Storage.stored_id sec_fa.Storage.insert_parents
    sec_fa.Storage.insert_lineage
persisted = refl

persist_product-stored_example :
    (q : DataProduct) × (load_product after "prod_d" ≡ some q)
    × (same_key child q ≡ true)
    × HasParents "prod_d" after (("p", "risk") ∷ [])
persist_product-stored_example =
    persist_product-stored digests "now" child before "prod_d" after (refl, refl, tt) persisted

persist_product-again_example : persist_product digests "later" child after ≡ ok ("prod_d", after)
persist_product-again_example =
    persist_product-again digests "now" "later" child before "prod_d" after persisted

parent_loaded : load_product before "p" ≡ some parent_row
unfolding load_product
parent_loaded = refl

persist_product-keeps_example : load_product after "p" ≡ some parent_row
persist_product-keeps_example =
    persist_product-keeps digests "now" child before "prod_d" after "p" parent_row persisted
      parent_loaded

note_algorithm : Algorithm
note_algorithm = algorithm_of_row serde note_row

note_found : load_algorithm serde tables "note" ≡ some note_algorithm
unfolding load_algorithm note_algorithm
note_found = refl

taken : ProducedProduct
taken = record {
  product_id = "p";
  product_type = "risk_decision_set.v1";
  role = "risk";
  run_id = none;
}

nothing_wrong : runtime_input_violations serde time before "2026-05-08" note (taken ∷ []) ≡ ok []
unfolding runtime_input_violations taken sec_fa.Executor.Inputs.validate_runtime_input_product
    load_algorithm load_product sec_fa.Invariants.validate_product_available_for_decision
    sec_fa.Timestamp.epoch_second sec_fa.Invariants.validate_class_a_input_product
nothing_wrong = refl

runtime_inputs-IsUsable_example : IsUsable serde time before "2026-05-08" note_algorithm "p"
unfolding taken
runtime_inputs-IsUsable_example =
    runtime_inputs-IsUsable serde time before "2026-05-08" note note_algorithm (taken ∷ []) taken
      note_found nothing_wrong (Memᴰ.head refl)

abbrev stage_context : Context
stage_context = record {
  node = stage;
  algorithm = algorithm_of_row serde note_row;
  workflow_run_id = "wf";
  cell_id = "job:1";
  config_sha256 = "y";
  decision_as_of = "2026-05-08";
  parents = [];
}

abbrev clock : ℕ → String
clock n = "now"

abbrev result : CommandResult
result = record { stdout = ""; stderr = ""; exit_code = pos 0 }

abbrev start : World
start = record {
  store = record { tables = tables; data_products = []; data_product_lineage = [] };
  ticks = 0;
}

abbrev outputs_of : Result (List ProducedProduct) → List ProducedProduct
outputs_of (ok products) = products
outputs_of (err e) = []

returned : (r : Result (List ProducedProduct) × World) → IsOk r.0 → r ≡ (ok (outputs_of r.0), r.1)
returned (ok products, w) h = refl
returned (err e, w) h = absurd h

-- A digest that tells the two products of the node apart.
abbrev two_ids : Digests
two_ids = record {
  serde = serde;
  sha256_hex = λ s.
      if str_ltb s
        "{\"algorithm_version\":\"1\",\"available_at\":\"2026-05-08\",\"cell_id\":\"job:1\",\"config_sha256\":\"y\",\"content_sha256\":\"m"
      then "a"
      else "z";
}

abbrev ran : Result (List ProducedProduct) × World
ran = persist_node_outputs two_ids clock stage_context (command result none) start

ran_well : IsOk ran.0
unfolding persist_node_outputs sec_fa.Executor.Persist.persist_roles output_roles_for_type
    sec_fa.Executor.roles_of sec_fa.Executor.Persist.persist_typed_product
    sec_fa.Registry.load_product_type persist_product sec_fa.Storage.insert_product
    sec_fa.Storage.stored_id sec_fa.Storage.insert_parents new_product_id Hash.product_id format
    sec_fa.Json.Canonical.canonical_value Hash.content_sha256 sec_fa.Json.text_items
    sec_fa.Executor.domain_storage_ref sec_fa.Executor.Persist.persist_command
ran_well = tt

command_outputs_complete_example :
    (is_zero (pos 0) ≡ true)
    × (map offer_of (outputs_of ran.0)
        ≡ map command_offer (output_roles_for_type stage "command_output.v1" "command_output")
          ++ (("orders", "staged_order_set.v1") ∷ []))
command_outputs_complete_example =
    command_outputs_complete two_ids clock stage_context result none start ran.1 (outputs_of ran.0)
      (returned ran ran_well)

abbrev note_context : Context
note_context = record stage_context { node = note }

abbrev noted : Result (List ProducedProduct) × World
noted = persist_node_outputs digests clock note_context (noop null) start

noted_well : IsOk noted.0
unfolding persist_node_outputs sec_fa.Executor.Persist.persist_roles output_roles_for_type
    sec_fa.Executor.roles_of sec_fa.Executor.Persist.persist_typed_product
    sec_fa.Registry.load_product_type persist_product sec_fa.Storage.insert_product
    sec_fa.Storage.stored_id sec_fa.Storage.insert_parents
noted_well = tt

noop_outputs_example :
    map offer_of (outputs_of noted.0)
    ≡ map command_offer (output_roles_for_type note "command_output.v1" "output")
noop_outputs_example =
    noop_outputs digests clock note_context null start noted.1 (outputs_of noted.0)
      (returned noted noted_well)
