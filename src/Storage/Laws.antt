-- ===== src/Storage/Laws.antt =====
-- The steps of `persist_product` of cli/src/framework/storage.rs.
pub mod Parents
pub mod Persist
use text.Mathlib.Text.{◌==◌}
use sec_fa.Prelude.{
  String, ◌≡◌, refl, ap, sym, ◌∙◌, Bool, true, false, ◌&&◌, ◌||◌, Option, none, some, List, [], ◌∷◌,
  any, find, is_some, arith, eq_iff, Bool-cases, Option-cases, inl, inr, if◌then◌else◌,
}
use sec_fa.Outcome.{Result, ok, err, ◌>>=◌, >>=-eq-ok}
use sec_fa.Registry.{load_product_type}
use sec_fa.Hash.{Digests}
use sec_fa.Storage.{
  NewProduct, DataProduct, Store, same_key, has_id, row_of, refused, insert_product, existing_id,
  insert_parents, stored_id, new_product_id, persist_product,
}

-- The parts of a `persist_product` that returned.
pub record Steps (d : Digests) (created_at : String) (p : NewProduct) (s : Store) (id : String)
    (t : Store) : Type 0 where
  pub changed : Bool
  pub middle : Store
  pub inserted : insert_product p (new_product_id d p) created_at s ≡ ok (changed, middle)
  pub named : stored_id p (new_product_id d p) changed middle ≡ ok id
  pub linked : insert_parents id p.parent_product_ids middle ≡ ok t

pub Steps-of :
    (d : Digests) (created_at : String) (p : NewProduct) (s : Store) (id : String) (t : Store)
    → persist_product d created_at p s ≡ ok (id, t)
    → Steps d created_at p s id t
unfolding persist_product
Steps-of d created_at p s id t h =
    let ((changed, middle), e₁, k₁) =
      >>=-eq-ok (insert_product p (new_product_id d p) created_at s) _ h in
    let (stored, e₂, k₂) = >>=-eq-ok (stored_id p (new_product_id d p) changed middle) _ k₁ in
    let (after, e₃, k₃) = >>=-eq-ok (insert_parents stored p.parent_product_ids middle) _ k₂ in
    let same : (stored, after) ≡ (id, t) = ground arith in
    let first : stored ≡ id = ap (λ (x : String × Store). x.0) same in
    let second : after ≡ t = ap (λ (x : String × Store). x.1) same in
    record {
      changed = changed;
      middle = middle;
      inserted = e₁;
      named = e₂ ∙ ap ok first;
      linked = rw (sym first, sym second) e₃;
    }

pub same_key_row :
    (p : NewProduct) (id created_at : String) → same_key p (row_of p id created_at) ≡ true
same_key_row p id created_at = ground (
  arith,
  eq_iff p.product_type p.product_type,
  eq_iff p.cell_id p.cell_id,
  eq_iff p.content_sha256 p.content_sha256,
  eq_iff p.created_by_algorithm p.created_by_algorithm,
  eq_iff p.config_sha256 p.config_sha256,
)

-- The row that `insert_product` adds, or none.
pub record Added (p : NewProduct) (id created_at : String) (s t : Store) : Type 0 where
  pub free : refused p id s ≡ false
  pub known : is_some (load_product_type s.tables p.product_type) ≡ true
  pub products : t.data_products ≡ row_of p id created_at ∷ s.data_products
  pub lineage : t.data_product_lineage ≡ s.data_product_lineage
  pub tables : t.tables ≡ s.tables

pub insert_product-Added :
    (p : NewProduct) (id created_at : String) (s t : Store)
    → insert_product p id created_at s ≡ ok (true, t)
    → Added p id created_at s t
unfolding insert_product
insert_product-Added p id created_at s t h =
    let free : refused p id s ≡ false = ground arith in
    let known : is_some (load_product_type s.tables p.product_type) ≡ true = ground arith in
    let same : record {
      tables = s.tables;
      data_products = row_of p id created_at ∷ s.data_products;
      data_product_lineage = s.data_product_lineage;
    }
        ≡ t =
      ground arith in
    record {
      free = free;
      known = known;
      products = ap (λ (x : Store). x.data_products) (sym same);
      lineage = ap (λ (x : Store). x.data_product_lineage) (sym same);
      tables = ap (λ (x : Store). x.tables) (sym same);
    }

pub insert_product-ignored :
    (p : NewProduct) (id created_at : String) (s t : Store)
    → insert_product p id created_at s ≡ ok (false, t)
    → (t ≡ s) × (refused p id s ≡ true)
unfolding insert_product
insert_product-ignored p id created_at s t h = ground arith
