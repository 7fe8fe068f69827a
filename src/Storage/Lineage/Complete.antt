-- ===== src/Storage/Lineage/Complete.antt =====
-- The fuel of walk_lineage, and which products lineage_json lists.
use sec_fa.Prelude.{
  ℕ, zero, suc, ◌+◌, ◌≤◌, ◌<◌, String, ◌≡◌, ◌≢◌, ◌↔◌, refl, sym, ◌∙◌, subst, inl, inr, Bool, true,
  false, Option, none, some, List, [], ◌∷◌, find, is_some, arith, eq_iff, All, Bool-cases, length,
  if◌then◌else◌,
}
use sec_fa.BTreeMap.{string_ord, get, contains_key}
use sec_fa.BTreeMap.Laws.{get-insert}
use sec_fa.Outcome.{ok}
use sec_fa.Storage.{DataProduct, LineageRow, Store, load_product, has_id}
use sec_fa.Storage.Laws.Parents.{IsReferenced}
use sec_fa.Storage.Lineage.{
  Walk, Walked, out_of_fuel, failed, walked, rows_of, edge_value, push_edge, walk_rows, entered,
  walk_new, walk_lineage, nothing_seen, lineage, lineage_json, and_then, value_of_walk,
  lineage_value,
}
use sec_fa.Storage.Lineage.Closure.{
  Seen, Reaches, Covered, walk_lineage-Covered, rows_of-parent, rows_of-all, in_rows,
}

-- How many of the products were not seen.
abbrev unseen : Walk → List DataProduct → ℕ
unseen w [] = 0
unseen w (q ∷ qs) = (if contains_key q.product_id w.seen then 0 else 1) + unseen w qs

unseen-le_of_Seen :
    (w w' : Walk) (qs : List DataProduct)
    → ((c : String) → Seen w c → Seen w' c)
    → unseen w' qs ≤ unseen w qs
unseen-le_of_Seen w w' [] g = omega arith
unseen-le_of_Seen w w' (q ∷ qs) g = ground (arith, unseen-le_of_Seen w w' qs g, g q.product_id)

unseen_le_length : (w : Walk) (qs : List DataProduct) → unseen w qs ≤ length qs
unseen_le_length w [] = omega arith
unseen_le_length w (q ∷ qs) = ground (arith, unseen_le_length w qs)

Seen-entered :
    (id : String) (product : DataProduct) (w : Walk) (c : String)
    → Seen w c
    → Seen (entered id product w) c
Seen-entered id product w c m = ground (arith, get-insert c id tt w.seen)

unseen-entered :
    (id : String) (product found : DataProduct) (w : Walk) (qs : List DataProduct)
    → contains_key id w.seen ≡ false
    → find (has_id id) qs ≡ some found
    → unseen (entered id product w) qs < unseen w qs
unseen-entered id product found w [] h f = absurd (cc)
unseen-entered id product found w (q ∷ qs) h f = ground (
  arith,
  unseen-entered id product found w qs h,
  unseen-le_of_Seen w (entered id product w) qs (Seen-entered id product w),
  get-insert q.product_id id tt w.seen,
  eq_iff q.product_id id,
)

-- A walk that did not run out of fuel and, where it is strict, did not fail.
abbrev Fine : Bool → Walked → Type 0
Fine strict out_of_fuel = ⊥
Fine true (failed text) = ⊥
Fine false (failed text) = Unit
Fine strict (walked w) = Unit

Fine-and_then :
    (strict : Bool) (r : Walked) (next : Walk → Walked)
    → Fine strict r
    → ((m : Walk) → r ≡ walked m → Fine strict (next m))
    → Fine strict (and_then r next)
Fine-and_then strict out_of_fuel next h k = absurd h
Fine-and_then true (failed text) next h k = absurd h
Fine-and_then false (failed text) next h k = tt
Fine-and_then strict (walked m) next h k = k m refl

module _ (s : Store) where
  abbrev Stored : String → Type 0
  Stored id = is_some (load_product s id) ≡ true

  -- A strict walk starts from stored products.
  abbrev Ready : Bool → String → Type 0
  Ready true id = Stored id
  Ready false id = Unit

  parent-Stored :
      (child parent role : String) (rows : List LineageRow)
      → All (IsReferenced s) rows
      → in_rows child parent role rows ≡ true
      → Stored parent
  parent-Stored child parent role [] h m = absurd (cc)
  parent-Stored child parent role (row ∷ rows) h m =
      ground (arith, parent-Stored child parent role rows h.1, eq_iff row.parent_product_id parent)

  parents-Ready :
      (strict : Bool) (id : String)
      → (strict ≡ true → All (IsReferenced s) s.data_product_lineage)
      → All (λ row. Ready strict row.parent_product_id) (rows_of id s.data_product_lineage)
  parents-Ready true id refs =
      rows_of-parent id s.data_product_lineage Stored
        (λ parent role m. parent-Stored id parent role s.data_product_lineage (refs refl) m)
  parents-Ready false id refs =
      rows_of-parent id s.data_product_lineage (λ _. Unit) (λ parent role m. tt)

  walk_rows-Fine :
      (strict : Bool) (fuel : ℕ) (id : String) (rows : List LineageRow) (w : Walk)
      → ((i : String) (v : Walk)
          → Ready strict i
          → unseen v s.data_products < fuel
          → Fine strict (walk_lineage s fuel i v))
      → All (λ row. Ready strict row.parent_product_id) rows
      → unseen w s.data_products < fuel
      → Fine strict (walk_rows (walk_lineage s fuel) id rows w)
  unfolding walk_rows
  walk_rows-Fine strict fuel id [] w good ready h = tt
  walk_rows-Fine strict fuel id (row ∷ rows) w good ready h =
      let pushed = push_edge (edge_value id row) w in
      Fine-and_then strict (walk_lineage s fuel row.parent_product_id pushed)
        (walk_rows (walk_lineage s fuel) id rows) (good row.parent_product_id pushed ready.0 h)
        (λ m e.
          let first = walk_lineage-Covered s fuel row.parent_product_id pushed m e in
          let less = unseen-le_of_Seen pushed m s.data_products first.grows in
          walk_rows-Fine strict fuel id rows m good ready.1 (ground arith))

  walk_new-Fine :
      (strict : Bool) (fuel : ℕ) (id : String) (w : Walk) (found : Option DataProduct)
      → ((i : String) (v : Walk)
          → Ready strict i
          → unseen v s.data_products < fuel
          → Fine strict (walk_lineage s fuel i v))
      → All (λ row. Ready strict row.parent_product_id) (rows_of id s.data_product_lineage)
      → Ready strict id
      → load_product s id ≡ found
      → contains_key id w.seen ≡ false
      → unseen w s.data_products < suc fuel
      → Fine strict (walk_new (walk_lineage s fuel) (rows_of id s.data_product_lineage) id found w)
  unfolding walk_new load_product
  walk_new-Fine true fuel id w none good parents ready e new h = absurd (cc)
  walk_new-Fine false fuel id w none good parents ready e new h = tt
  walk_new-Fine strict fuel id w (some product) good parents ready e new h =
      let less = unseen-entered id product product w s.data_products new e in
      walk_rows-Fine strict fuel id (rows_of id s.data_product_lineage) (entered id product w) good
        parents (ground arith)

  walk_lineage-Fine :
      (strict : Bool) (fuel : ℕ) (id : String) (w : Walk)
      → (strict ≡ true → All (IsReferenced s) s.data_product_lineage)
      → Ready strict id
      → unseen w s.data_products < fuel
      → Fine strict (walk_lineage s fuel id w)
  unfolding walk_lineage
  walk_lineage-Fine strict zero id w refs ready h = absurd (omega arith)
  walk_lineage-Fine strict (suc fuel) id w refs ready h =
      elim (Bool-cases (contains_key id w.seen)) [
        | inl e ↦ rw e tt
        | inr e ↦ rw e (
            walk_new-Fine strict fuel id w (load_product s id)
              (λ i v r l. walk_lineage-Fine strict fuel i v refs r l) (parents-Ready strict id refs)
              ready refl e h)
      ]

  lineage-Fine :
      (strict : Bool) (id : String)
      → (strict ≡ true → All (IsReferenced s) s.data_product_lineage)
      → Ready strict id
      → Fine strict (lineage s id)
  unfolding lineage
  lineage-Fine strict id refs ready =
      let less = unseen_le_length (nothing_seen s) s.data_products in
      walk_lineage-Fine strict (suc (length s.data_products)) id (nothing_seen s) refs ready
        (ground arith)

value_of_Fine : (id : String) (r : Walked) → Fine false r → value_of_walk id r ≢ none
value_of_Fine id out_of_fuel h = absurd h
value_of_Fine id (failed text) h = λ e. cc
value_of_Fine id (walked w) h = λ e. cc

-- The recursion of walk_lineage ends, on all tables, cyclic ones too: the fuel of lineage_json, one
-- more than there are products, does not run out.
pub lineage_json_terminates : (s : Store) (id : String) → lineage_json s id ≢ none
unfolding lineage_json
lineage_json_terminates s id =
    value_of_Fine id (lineage s id) (lineage-Fine s false id (λ e. absurd (cc)) tt)

walk_of_Fine : (r : Walked) → Fine true r → (w : Walk) × (r ≡ walked w)
walk_of_Fine out_of_fuel h = absurd h
walk_of_Fine (failed text) h = absurd h
walk_of_Fine (walked w) h = (w, refl)

Reaches-Seen :
    (s : Store) (w w' : Walk) (root a b : String)
    → Covered s root w w'
    → ((c : String) → ¬ Seen w c)
    → Reaches s a b
    → Seen w' a
    → Seen w' b
Reaches-Seen s w w' root a b cov fresh (Reaches.start e) m = subst (Seen w') e m
Reaches-Seen s w w' root a c cov fresh (Reaches.step {b} (role, row) path) m =
    Reaches-Seen s w w' root b c cov fresh path (elim (cov.closed a m) [
      | inl old ↦ absurd (fresh a old)
      | inr all ↦ rows_of-all a s.data_product_lineage (Seen w') b role all row
    ])

-- Where the rows of the lineage refer to stored products, lineage_json of a stored product gives
-- a value, and the products it lists are exactly that product and its direct and indirect parents.
pub lineage_json_exact :
    (s : Store) (id : String)
    → All (IsReferenced s) s.data_product_lineage
    → is_some (load_product s id) ≡ true
    → (w : Walk) × (lineage_json s id ≡ some (ok (lineage_value id w)))
      × ((c : String) → (contains_key c w.products ≡ true) ↔ Reaches s id c)
unfolding lineage_json lineage
lineage_json_exact s id refs stored =
    let (w, e) = walk_of_Fine (lineage s id) (lineage-Fine s true id (λ _. refs) stored) in
    let cov =
      walk_lineage-Covered s (suc (length s.data_products)) id (nothing_seen s) w
        (unfold lineage in e) in
    let fresh : (c : String) → ¬ Seen (nothing_seen s) c = unfold get in λ c m. cc in
    let listed = cov.listed (λ c. unfold get in refl) in
    (
      w,
      rw e,
      λ c. (
        λ m. elim (cov.reached c (sym (listed c) ∙ m)) [
          | inl old ↦ absurd (fresh c old)
          | inr path ↦ path
        ],
        λ path. listed c ∙ Reaches-Seen s (nothing_seen s) w id id c cov fresh path cov.itself,
      ),
    )
