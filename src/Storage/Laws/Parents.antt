-- ===== src/Storage/Laws/Parents.antt =====
-- The loop of `persist_product` of cli/src/framework/storage.rs over the parents.
use sec_fa.Prelude.{
  String, ◌≡◌, refl, ◌∙◌, Bool, true, List, [], ◌∷◌, any, is_some, All, arith, eq_iff,
}
use sec_fa.Outcome.{ok, >>=-eq-ok}
use sec_fa.Storage.{LineageRow, Store, same_lineage, insert_lineage, insert_parents, load_product}

-- The lineage holds a row.
abbrev pub has_row : String → String → String → Store → Bool
has_row child parent role s = any (same_lineage child parent role) s.data_product_lineage

-- Child and parent of a row are stored.
abbrev pub IsReferenced : Store → LineageRow → Type 0
IsReferenced s row =
    (is_some (load_product s row.parent_product_id) ≡ true)
    × (is_some (load_product s row.child_product_id) ≡ true)

insert_lineage-products :
    (child parent role : String) (s t : Store)
    → insert_lineage child parent role s ≡ ok t
    → (t.data_products ≡ s.data_products) × (t.tables ≡ s.tables)
unfolding insert_lineage
insert_lineage-products child parent role s t h = ground arith

insert_lineage-has_row :
    (child parent role : String) (s t : Store)
    → insert_lineage child parent role s ≡ ok t
    → has_row child parent role t ≡ true
unfolding insert_lineage
insert_lineage-has_row child parent role s t h =
    ground (arith, eq_iff child child, eq_iff parent parent, eq_iff role role)

insert_lineage-keeps :
    (child parent role : String) (s t : Store) (c p r : String)
    → insert_lineage child parent role s ≡ ok t
    → has_row c p r s ≡ true
    → has_row c p r t ≡ true
unfolding insert_lineage
insert_lineage-keeps child parent role s t c p r h k = ground arith

insert_lineage-Referenced :
    (child parent role : String) (s t : Store)
    → insert_lineage child parent role s ≡ ok t
    → All (IsReferenced s) s.data_product_lineage
    → All (IsReferenced s) t.data_product_lineage
unfolding insert_lineage load_product
insert_lineage-Referenced child parent role s t h k = ground arith

pub insert_parents-products :
    (child : String) (parents : List (String × String)) (s t : Store)
    → insert_parents child parents s ≡ ok t
    → (t.data_products ≡ s.data_products) × (t.tables ≡ s.tables)
unfolding insert_parents
insert_parents-products child [] s t h = ground arith
insert_parents-products child ((parent, role) ∷ rest) s t h =
    let (m, e, k) = >>=-eq-ok (insert_lineage child parent role s) _ h in
    let (a, b) = insert_lineage-products child parent role s m e in
    let (c, f) = insert_parents-products child rest m t k in (c ∙ a, f ∙ b)

pub insert_parents-keeps :
    (child : String) (parents : List (String × String)) (s t : Store) (c p r : String)
    → insert_parents child parents s ≡ ok t
    → has_row c p r s ≡ true
    → has_row c p r t ≡ true
unfolding insert_parents
insert_parents-keeps child [] s t c p r h k = ground arith
insert_parents-keeps child ((parent, role) ∷ rest) s t c p r h k =
    let (m, e, l) = >>=-eq-ok (insert_lineage child parent role s) _ h in
    insert_parents-keeps child rest m t c p r l
      (insert_lineage-keeps child parent role s m c p r e k)

-- The rows of a product's parents.
abbrev pub HasParents : String → Store → List (String × String) → Type 0
HasParents child s = All (λ (parent : String × String). has_row child parent.0 parent.1 s ≡ true)

pub insert_parents-HasParents :
    (child : String) (parents : List (String × String)) (s t : Store)
    → insert_parents child parents s ≡ ok t
    → HasParents child t parents
unfolding insert_parents
insert_parents-HasParents child [] s t h = tt
insert_parents-HasParents child ((parent, role) ∷ rest) s t h =
    let (m, e, k) = >>=-eq-ok (insert_lineage child parent role s) _ h in
    (
      insert_parents-keeps child rest m t child parent role k
          (insert_lineage-has_row child parent role s m e),
      insert_parents-HasParents child rest m t k,
    )

pub insert_parents-done :
    (child : String) (parents : List (String × String)) (t : Store)
    → HasParents child t parents
    → insert_parents child parents t ≡ ok t
unfolding insert_parents insert_lineage
insert_parents-done child [] t h = refl
insert_parents-done child ((parent, role) ∷ rest) t h =
    rw (h.0, insert_parents-done child rest t h.1)
