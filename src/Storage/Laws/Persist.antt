-- ===== src/Storage/Laws/Persist.antt =====
-- `persist_product` of cli/src/framework/storage.rs as a whole.
use text.Mathlib.Text.{◌==◌}
use sec_fa.Prelude.{
  String, ◌≡◌, refl, ap, subst, Bool, true, false, ◌&&◌, none, some, List, [], ◌∷◌, any, find,
  arith, eq_iff, Bool-cases, Option-cases, inl, inr,
}
use sec_fa.Outcome.{ok}
use sec_fa.Hash.{Digests}
use sec_fa.Storage.{
  NewProduct, DataProduct, Store, same_key, has_id, row_of, refused, insert_product, existing_id,
  insert_parents, stored_id, new_product_id, persist_product, load_product,
}
use sec_fa.Storage.Laws.{Steps-of, same_key_row, insert_product-Added, insert_product-ignored}
use sec_fa.Storage.Laws.Parents.{
  HasParents, insert_parents-products, insert_parents-HasParents, insert_parents-done,
}

-- The five columns of the UNIQUE constraint agree.
abbrev pub same_columns : DataProduct → DataProduct → Bool
same_columns p q =
    q.product_type == p.product_type
    && q.cell_id == p.cell_id
    && q.content_sha256 == p.content_sha256
    && q.created_by_algorithm == p.created_by_algorithm
    && q.config_sha256 == p.config_sha256

-- The primary key and the UNIQUE constraint of data_products.
abbrev pub HasKeys : List DataProduct → Type 0
HasKeys [] = Unit
HasKeys (q ∷ qs) =
    (any (has_id q.product_id) qs ≡ false) × (any (same_columns q) qs ≡ false) × HasKeys qs

found_key :
    (p : NewProduct) (qs : List DataProduct) (q : DataProduct)
    → find (same_key p) qs ≡ some q
    → same_key p q ≡ true
found_key p [] q h = absurd (cc)
found_key p (r ∷ qs) q h = elim (Bool-cases (same_key p r)) [
  | inl same ↦ ground arith
  | inr other ↦ found_key p qs q (ground arith)
]

no_id :
    (id : String) (qs : List DataProduct) → any (has_id id) qs ≡ false → find (has_id id) qs ≡ none
no_id id [] h = refl
no_id id (q ∷ qs) h = ground (arith, no_id id qs)

-- With distinct ids, a product found by its key is found by its id.
found_by_id :
    (p : NewProduct) (qs : List DataProduct) (q : DataProduct)
    → HasKeys qs
    → find (same_key p) qs ≡ some q
    → find (has_id q.product_id) qs ≡ some q
found_by_id p [] q k h = absurd (cc)
found_by_id p (r ∷ qs) q k h = elim (Bool-cases (same_key p r)) [
  | inl same ↦
      let e : r ≡ q = ground arith in
      ground (arith, eq_iff r.product_id q.product_id, ap (λ (x : DataProduct). x.product_id) e)
  | inr other ↦
      let below = found_by_id p qs q k.2 (ground arith) in
      ground (arith, no_id q.product_id qs, k.0, eq_iff r.product_id q.product_id)
]

existing_id-found :
    (p : NewProduct) (s : Store) (id : String)
    → existing_id p s ≡ ok id
    → (q : DataProduct) × (find (same_key p) s.data_products ≡ some q) × (q.product_id ≡ id)
unfolding existing_id
existing_id-found p s id h = elim (Option-cases (find (same_key p) s.data_products)) [
  | inl missing ↦ absurd (ground arith)
  | inr (q, e) ↦ (q, e, ground arith)
]

find_first :
    (p : NewProduct) (q : DataProduct) (qs : List DataProduct)
    → same_key p q ≡ true
    → find (same_key p) (q ∷ qs) ≡ some q
find_first p q qs h = ground (arith, h)

-- Either the product was new and its row was added, or it was found by its key.
key_found :
    (d : Digests) (created_at : String) (p : NewProduct) (s : Store) (id : String) (t : Store)
    → (c : Bool) (m : Store) → insert_product p (new_product_id d p) created_at s ≡ ok (c, m)
    → stored_id p (new_product_id d p) c m ≡ ok id
    → insert_parents id p.parent_product_ids m ≡ ok t
    → (q : DataProduct) × (find (same_key p) t.data_products ≡ some q) × (q.product_id ≡ id)
unfolding stored_id
key_found d created_at p s id t true m e n l =
    let new = insert_product-Added p (new_product_id d p) created_at s m e in
    let (products, _) = insert_parents-products id p.parent_product_ids m t l in
    let row = row_of p (new_product_id d p) created_at in
    (
      row,
      rw (products, new.products)
          (find_first p row s.data_products (same_key_row p (new_product_id d p) created_at)),
      ground arith,
    )
key_found d created_at p s id t false m e n l =
    let (q, f, g) = existing_id-found p m id n in
    let (products, _) = insert_parents-products id p.parent_product_ids m t l in
    (q, rw products f, g)

keys_kept :
    (d : Digests) (created_at : String) (p : NewProduct) (s : Store) (c : Bool) (m : Store)
    → insert_product p (new_product_id d p) created_at s ≡ ok (c, m)
    → HasKeys s.data_products
    → HasKeys m.data_products
keys_kept d created_at p s true m e k =
    let new = insert_product-Added p (new_product_id d p) created_at s m e in
    let free : (any (has_id (new_product_id d p)) s.data_products ≡ false)
        × (any (same_key p) s.data_products ≡ false) =
      ground (arith, new.free) in
    rw new.products (free.0, free.1, k)
keys_kept d created_at p s false m e k =
    rw (insert_product-ignored p (new_product_id d p) created_at s m e).0 k

-- `persist_product` keeps the primary key and the UNIQUE constraint of data_products.
persist_product-HasKeys :
    (d : Digests) (created_at : String) (p : NewProduct) (s : Store) (id : String) (t : Store)
    → HasKeys s.data_products
    → persist_product d created_at p s ≡ ok (id, t)
    → HasKeys t.data_products
persist_product-HasKeys d created_at p s id t k h =
    let steps = Steps-of d created_at p s id t h in
    rw (insert_parents-products id p.parent_product_ids steps.middle t steps.linked).0
      (keys_kept d created_at p s steps.changed steps.middle steps.inserted k)

-- Where the keys hold, the id that `persist_product` returns is that of a stored product with the
-- type, cell, content, algorithm and configuration asked for, and each parent asked for stands in
-- the lineage of that id under its role.
pub persist_product-stored :
    (d : Digests) (created_at : String) (p : NewProduct) (s : Store) (id : String) (t : Store)
    → HasKeys s.data_products
    → persist_product d created_at p s ≡ ok (id, t)
    → (q : DataProduct) × (load_product t id ≡ some q)
      × (same_key p q ≡ true)
      × HasParents id t p.parent_product_ids
unfolding load_product
persist_product-stored d created_at p s id t k h =
    let steps = Steps-of d created_at p s id t h in
    let (q, found, name) =
      key_found d created_at p s id t steps.changed steps.middle steps.inserted steps.named
        steps.linked in
    let by_id =
      found_by_id p t.data_products q (persist_product-HasKeys d created_at p s id t k h) found in
    (
      q,
      subst (λ i. find (has_id i) t.data_products ≡ some q) name by_id,
      found_key p t.data_products q found,
      insert_parents-HasParents id p.parent_product_ids steps.middle t steps.linked,
    )

key_refused :
    (p : NewProduct) (qs : List DataProduct) (q : DataProduct)
    → find (same_key p) qs ≡ some q
    → any (same_key p) qs ≡ true
key_refused p [] q h = absurd (cc)
key_refused p (r ∷ qs) q h = ground (arith, key_refused p qs q)

-- A product persisted once is not stored again: a second call, at any time, returns the same id
-- and leaves the tables as they are.
pub persist_product-again :
    (d : Digests) (created_at later : String) (p : NewProduct) (s : Store) (id : String) (t : Store)
    → persist_product d created_at p s ≡ ok (id, t)
    → persist_product d later p t ≡ ok (id, t)
unfolding persist_product insert_product stored_id existing_id
persist_product-again d created_at later p s id t h =
    let steps = Steps-of d created_at p s id t h in
    let (q, found, name) =
      key_found d created_at p s id t steps.changed steps.middle steps.inserted steps.named
        steps.linked in
    let full : refused p (new_product_id d p) t ≡ true =
      ground (arith, key_refused p t.data_products q found) in
    let done =
      insert_parents-done id p.parent_product_ids t
        (insert_parents-HasParents id p.parent_product_ids steps.middle t steps.linked) in
    rw (full, found, name, done) refl

kept :
    (d : Digests) (created_at : String) (p : NewProduct) (s : Store) (c : Bool) (m : Store)
    (k : String) (q : DataProduct)
    → insert_product p (new_product_id d p) created_at s ≡ ok (c, m)
    → find (has_id k) s.data_products ≡ some q
    → find (has_id k) m.data_products ≡ some q
kept d created_at p s true m k q e f =
    let new = insert_product-Added p (new_product_id d p) created_at s m e in
    let free : any (has_id (new_product_id d p)) s.data_products ≡ false =
      ground (arith, new.free) in
    rw new.products (
      ground
        (arith, no_id (new_product_id d p) s.data_products free, eq_iff (new_product_id d p) k))
kept d created_at p s false m k q e f =
    rw (insert_product-ignored p (new_product_id d p) created_at s m e).0 f

-- `persist_product` neither changes nor removes a product that is stored.
pub persist_product-keeps :
    (d : Digests) (created_at : String) (p : NewProduct) (s : Store) (id : String) (t : Store)
    (k : String) (q : DataProduct)
    → persist_product d created_at p s ≡ ok (id, t)
    → load_product s k ≡ some q
    → load_product t k ≡ some q
unfolding load_product
persist_product-keeps d created_at p s id t k q h f =
    let steps = Steps-of d created_at p s id t h in
    rw (insert_parents-products id p.parent_product_ids steps.middle t steps.linked).0
      (kept d created_at p s steps.changed steps.middle k q steps.inserted f)
