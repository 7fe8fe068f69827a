-- ===== src/Storage/Lineage.antt =====
-- product_json, walk_lineage and lineage_json of cli/src/framework/storage.rs. The recursion of
-- walk_lineage takes fuel, one more than there are products.
pub mod Closure
pub mod Complete
use mathlib.Core.List.{filter}
use text.Mathlib.Text.{◌==◌}
use sec_fa.Prelude.{
  ℕ, zero, suc, String, Bool, Option, none, some, List, [], ◌∷◌, ◌++◌, if◌then◌else◌, length,
}
use sec_fa.Prelude.Text.{format}
use sec_fa.BTreeMap.{BTreeMap, Pair, string_ord, pair_lt, insert, contains_key}
use sec_fa.Outcome.{Result, ok, err}
use sec_fa.Json.{
  Value, Fields, Items, object, array, field, end, nil, cons, string, number, int, optional,
  text_object, fields_of, value_items,
}
use sec_fa.Storage.{DataProduct, LineageRow, Store, load_product}

unfoldable pub product_json : DataProduct → Value
product_json product = object (
    fields_of (
      ("product_id", string product.product_id)
      ∷ ("product_type", string product.product_type)
      ∷ ("schema_name", string product.schema_name)
      ∷ ("schema_version", number (int product.schema_version))
      ∷ ("cell_id", string product.cell_id)
      ∷ ("family_id", optional product.family_id)
      ∷ ("content_sha256", string product.content_sha256)
      ∷ ("storage_kind", string product.storage_kind)
      ∷ ("storage_ref", string product.storage_ref)
      ∷ ("created_by_algorithm", string product.created_by_algorithm)
      ∷ ("algorithm_version", string product.algorithm_version)
      ∷ ("config_sha256", string product.config_sha256)
      ∷ ("code_sha256", optional product.code_sha256)
      ∷ ("valid_time_start", optional product.valid_time_start)
      ∷ ("valid_time_end", optional product.valid_time_end)
      ∷ ("source_time", optional product.source_time)
      ∷ ("accepted_at", optional product.accepted_at)
      ∷ ("ingested_at", optional product.ingested_at)
      ∷ ("available_at", string product.available_at)
      ∷ ("created_at", string product.created_at)
      ∷ ("hazard_class", string product.hazard_class)
      ∷ []))

-- What a walk has collected; `seen` is a set.
pub record Walk : Type 0 where
  pub seen : BTreeMap String (Unit {0})
  pub products : BTreeMap String Value
  pub edges : List Value

pub data Walked : Type 0 where
  out_of_fuel : Walked
  failed : String → Walked
  walked : Walk → Walked

abbrev pub row_key : LineageRow → Pair
row_key row = (row.parent_product_id, row.role)

unfoldable pub insert_row : LineageRow → List LineageRow → List LineageRow
insert_row x [] = x ∷ []
insert_row x (y ∷ ys) = if pair_lt (row_key y) (row_key x) then y ∷ insert_row x ys else x ∷ y ∷ ys

-- SELECT .. WHERE child_product_id=? ORDER BY parent_product_id, role
unfoldable pub rows_of : String → List LineageRow → List LineageRow
unfolding insert_row
rows_of child [] = []
rows_of child (row ∷ rows) =
    let rest = rows_of child rows in
    if row.child_product_id == child then insert_row row rest else rest

abbrev pub edge_value : String → LineageRow → Value
edge_value child row = text_object (
    ("child_product_id", child)
    ∷ ("parent_product_id", row.parent_product_id)
    ∷ ("role", row.role)
    ∷ [])

abbrev pub push_edge : Value → Walk → Walk
push_edge edge w = record w { edges = w.edges ++ edge ∷ [] }

-- The operator `?` after a recursive call.
abbrev pub and_then : Walked → (Walk → Walked) → Walked
and_then out_of_fuel next = out_of_fuel
and_then (failed text) next = failed text
and_then (walked w) next = next w

-- The loop over the rows, over the recursive call.
unfoldable pub walk_rows : (String → Walk → Walked) → String → List LineageRow → Walk → Walked
walk_rows call child [] w = walked w
walk_rows call child (row ∷ rest) w =
    and_then (call row.parent_product_id (push_edge (edge_value child row) w))
      (walk_rows call child rest)

abbrev pub entered : String → DataProduct → Walk → Walk
entered id product w = record w {
  seen = insert id tt w.seen;
  products = insert id (product_json product) w.products;
}

-- The rest of walk_lineage for an id that was not seen.
unfoldable pub walk_new :
    (String → Walk → Walked) → List LineageRow → String → Option DataProduct → Walk → Walked
walk_new call rows id none w = failed (format ("product " ∷ id ∷ " not found" ∷ []))
walk_new call rows id (some product) w = walk_rows call id rows (entered id product w)

module _ (s : Store) where
  unfoldable pub walk_lineage : ℕ → String → Walk → Walked
  walk_lineage zero product_id w = out_of_fuel
  walk_lineage (suc fuel) product_id w =
      if contains_key product_id w.seen
      then walked w
      else walk_new (walk_lineage fuel) (rows_of product_id s.data_product_lineage) product_id
          (load_product s product_id) w

  abbrev pub nothing_seen : Walk
  nothing_seen = record { seen = []; products = []; edges = [] }

  unfoldable pub lineage : String → Walked
  lineage product_id = walk_lineage (suc (length s.data_products)) product_id nothing_seen

abbrev pub lineage_value : String → Walk → Value
lineage_value product_id w = object (
    fields_of (
      ("root_product_id", string product_id)
      ∷ ("products", object (fields_of w.products))
      ∷ ("edges", array (value_items w.edges))
      ∷ []))

-- `none`: the fuel ran out.
abbrev pub value_of_walk : String → Walked → Option (Result Value)
value_of_walk product_id out_of_fuel = none
value_of_walk product_id (failed text) = some (err text)
value_of_walk product_id (walked w) = some (ok (lineage_value product_id w))

unfoldable pub lineage_json : Store → String → Option (Result Value)
unfolding lineage
lineage_json s product_id = value_of_walk product_id (lineage s product_id)
