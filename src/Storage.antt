-- ===== src/Storage.antt =====
-- cli/src/framework/product.rs and the products of cli/src/framework/storage.rs, over the tables
-- data_products and data_product_lineage of schema.sql. SQLite's constraints of these tables are
-- written out: INSERT OR IGNORE skips a row that breaks a key or a CHECK, and a broken reference is
-- an error, after which the caller's transaction is dropped.
pub mod Laws
pub mod Lineage
use text.Mathlib.Text.{◌==◌}
use sec_fa.Prelude.{
  String, Bool, true, false, ◌&&◌, ◌||◌, Option, none, some, List, [], ◌∷◌, map, any, find, is_some,
  if◌then◌else◌,
}
use sec_fa.Json.{ℤ}
use sec_fa.Outcome.{Result, ok, err, ◌>>=◌, context, with_context}
use sec_fa.Prelude.Text.{format}
use sec_fa.Registry.{Tables, load_product_type}
use sec_fa.Hash.{Digests}
use sec_fa.Hash

pub record NewProduct : Type 0 where
  pub product_type : String
  pub schema_name : String
  pub schema_version : ℤ
  pub cell_id : String
  pub family_id : Option String
  pub content_sha256 : String
  pub storage_kind : String
  pub storage_ref : String
  pub created_by_algorithm : String
  pub algorithm_version : String
  pub config_sha256 : String
  pub code_sha256 : Option String
  pub valid_time_start : Option String
  pub valid_time_end : Option String
  pub source_time : Option String
  pub accepted_at : Option String
  pub ingested_at : Option String
  pub available_at : String
  pub hazard_class : String
  pub parent_product_ids : List (String × String)

-- A row of data_products.
pub record DataProduct : Type 0 where
  pub product_id : String
  pub product_type : String
  pub schema_name : String
  pub schema_version : ℤ
  pub cell_id : String
  pub family_id : Option String
  pub content_sha256 : String
  pub storage_kind : String
  pub storage_ref : String
  pub created_by_algorithm : String
  pub algorithm_version : String
  pub config_sha256 : String
  pub code_sha256 : Option String
  pub valid_time_start : Option String
  pub valid_time_end : Option String
  pub source_time : Option String
  pub accepted_at : Option String
  pub ingested_at : Option String
  pub available_at : String
  pub created_at : String
  pub hazard_class : String

-- A row of data_product_lineage.
pub record LineageRow : Type 0 where
  pub child_product_id : String
  pub parent_product_id : String
  pub role : String

-- Newest rows first: both tables have keys, so no query sees their order.
pub record Store : Type 0 where
  pub tables : Tables
  pub data_products : List DataProduct
  pub data_product_lineage : List LineageRow

-- The columns of the UNIQUE constraint, which are also those of the WHERE of the lookup.
abbrev pub same_key : NewProduct → DataProduct → Bool
same_key p q =
    q.product_type == p.product_type
    && q.cell_id == p.cell_id
    && q.content_sha256 == p.content_sha256
    && q.created_by_algorithm == p.created_by_algorithm
    && q.config_sha256 == p.config_sha256

abbrev pub has_id : String → DataProduct → Bool
has_id id q = q.product_id == id

abbrev pub row_of : NewProduct → String → String → DataProduct
row_of p id created_at = record {
  product_id = id;
  product_type = p.product_type;
  schema_name = p.schema_name;
  schema_version = p.schema_version;
  cell_id = p.cell_id;
  family_id = p.family_id;
  content_sha256 = p.content_sha256;
  storage_kind = p.storage_kind;
  storage_ref = p.storage_ref;
  created_by_algorithm = p.created_by_algorithm;
  algorithm_version = p.algorithm_version;
  config_sha256 = p.config_sha256;
  code_sha256 = p.code_sha256;
  valid_time_start = p.valid_time_start;
  valid_time_end = p.valid_time_end;
  source_time = p.source_time;
  accepted_at = p.accepted_at;
  ingested_at = p.ingested_at;
  available_at = p.available_at;
  created_at = created_at;
  hazard_class = p.hazard_class;
}

-- CHECK (hazard_class IN ('A','B','C'))
abbrev pub is_hazard_class : String → Bool
is_hazard_class h = h == "A" || h == "B" || h == "C"

unfoldable pub load_product : Store → String → Option DataProduct
load_product s product_id = find (has_id product_id) s.data_products

-- A row that the CHECK, the primary key or the UNIQUE constraint refuses.
abbrev pub refused : NewProduct → String → Store → Bool
refused p id s =
    (if is_hazard_class p.hazard_class then false else true)
    || any (has_id id) s.data_products
    || any (same_key p) s.data_products

-- The INSERT OR IGNORE: the number of rows changed is 1 or, when ignored, 0.
unfoldable pub insert_product : NewProduct → String → String → Store → Result (Bool × Store)
insert_product p id created_at s =
    if refused p id s
    then ok (false, s)
    else if is_some (load_product_type s.tables p.product_type)
    then ok (
      true,
      record {
        tables = s.tables;
        data_products = row_of p id created_at ∷ s.data_products;
        data_product_lineage = s.data_product_lineage;
      },
    )
    else err "FOREIGN KEY constraint failed"

-- The id of the product that is there.
unfoldable pub existing_id : NewProduct → Store → Result String
existing_id p s =
    with_context
      (context (find (same_key p) s.data_products) "Query returned no rows" >>= λ q.
        ok q.product_id)
      (format ("looking up existing product " ∷ p.product_type ∷ []))

abbrev pub same_lineage : String → String → String → LineageRow → Bool
same_lineage child parent role row =
    row.child_product_id == child && row.parent_product_id == parent && row.role == role

-- One turn of the loop over the parents.
unfoldable pub insert_lineage : String → String → String → Store → Result Store
unfolding load_product
insert_lineage child parent role s =
    if any (same_lineage child parent role) s.data_product_lineage
    then ok s
    else if is_some (load_product s parent) && is_some (load_product s child)
    then ok (record {
      tables = s.tables;
      data_products = s.data_products;
      data_product_lineage =
          record { child_product_id = child; parent_product_id = parent; role = role }
          ∷ s.data_product_lineage;
    })
    else err "FOREIGN KEY constraint failed"

unfoldable pub insert_parents : String → List (String × String) → Store → Result Store
insert_parents child [] s = ok s
insert_parents child ((parent, role) ∷ rest) s =
    insert_lineage child parent role s >>= insert_parents child rest

unfoldable pub stored_id : NewProduct → String → Bool → Store → Result String
stored_id p id changed s = if changed then ok id else existing_id p s

module _ (d : Digests) where
  unfoldable pub new_product_id : NewProduct → String
  new_product_id p =
      Hash.product_id d p.product_type p.schema_name p.schema_version p.cell_id p.family_id
        p.content_sha256 p.created_by_algorithm p.algorithm_version p.config_sha256
        (map (λ (parent : String × String). parent.0) p.parent_product_ids) p.available_at

  -- `created_at` is what `utc_now` gives.
  unfoldable pub persist_product : String → NewProduct → Store → Result (String × Store)
  persist_product created_at p s = insert_product p (new_product_id p) created_at s >>= λ done.
      stored_id p (new_product_id p) done.0 done.1 >>= λ stored.
      insert_parents stored p.parent_product_ids done.1 >>= λ after. ok (stored, after)
