-- ===== src/Storage/Lineage/Closure.antt =====
-- What a walk that ends without an error has seen, for walk_lineage of
-- cli/src/framework/storage.rs.
use text.Mathlib.Text.{◌==◌}
use sec_fa.Prelude.{
  ℕ, zero, suc, String, ◌≡◌, refl, sym, subst, ◌⊎◌, inl, inr, Bool, true, Option, none, some, List,
  [], ◌∷◌, any, arith, eq_iff, All, Bool-cases,
}
use sec_fa.BTreeMap.{string_ord, contains_key}
use sec_fa.BTreeMap.Laws.{get-insert}
use sec_fa.Storage.{DataProduct, LineageRow, Store, load_product, same_lineage}
use sec_fa.Storage.Laws.Parents.{has_row}
use sec_fa.Storage.Lineage.{
  Walk, Walked, out_of_fuel, failed, walked, insert_row, rows_of, edge_value, push_edge, and_then,
  walk_rows, entered, walk_new, walk_lineage, product_json,
}

abbrev pub Seen : Walk → String → Type 0
Seen w id = contains_key id w.seen ≡ true

module _ {ℓ} (P : LineageRow → Type ℓ) where
  All-insert_row :
      (x : LineageRow) (ys : List LineageRow) → P x → All P ys → All P (insert_row x ys)
  unfolding insert_row
  All-insert_row x [] h hs = (h, tt)
  All-insert_row x (y ∷ ys) h hs = ground (arith, All-insert_row x ys)

  All-of_insert_row :
      (x : LineageRow) (ys : List LineageRow) → All P (insert_row x ys) → P x × All P ys
  unfolding insert_row
  All-of_insert_row x [] h = h
  All-of_insert_row x (y ∷ ys) h = ground (arith, All-of_insert_row x ys)

-- A parent of a product, by some row of the lineage.
abbrev pub IsParent : Store → String → String → Type 0
IsParent s child parent = (role : String) × (has_row child parent role s ≡ true)

-- The second product is the first one, or a parent of one that comes before it.
pub data Reaches (s : Store) : String → String → Type 0 where
  start : {a b : String} → a ≡ b → Reaches s a b
  step : {a b c : String} → IsParent s a b → Reaches s b c → Reaches s a c

abbrev pub in_rows : String → String → String → List LineageRow → Bool
in_rows child parent role rows = any (same_lineage child parent role) rows

-- Every row that the query gives is one of the product's.
pub rows_of-parent :
    (child : String) (rows : List LineageRow) (P : String → Type 0)
    → ((parent role : String) → in_rows child parent role rows ≡ true → P parent)
    → All (λ row. P row.parent_product_id) (rows_of child rows)
unfolding rows_of
rows_of-parent child [] P h = tt
rows_of-parent child (row ∷ rows) P h =
    let rest = rows_of-parent child rows P (λ parent role m. h parent role (ground arith)) in
    elim (Bool-cases (row.child_product_id == child)) [
      | inl e ↦ rw e (
          All-insert_row (λ r. P r.parent_product_id) row (rows_of child rows)
            (h row.parent_product_id row.role (
              ground (
                arith,
                eq_iff row.parent_product_id row.parent_product_id,
                eq_iff row.role row.role,
              )))
            rest)
      | inr e ↦ rw e rest
    ]

-- The query gives every row of the product.
pub rows_of-all :
    (child : String) (rows : List LineageRow) (P : String → Type 0) (parent role : String)
    → All (λ row. P row.parent_product_id) (rows_of child rows)
    → in_rows child parent role rows ≡ true
    → P parent
unfolding rows_of
rows_of-all child [] P parent role h m = absurd (cc)
rows_of-all child (row ∷ rows) P parent role h m =
    elim (Bool-cases (row.child_product_id == child)) [
      | inl e ↦
          let both =
            All-of_insert_row (λ r. P r.parent_product_id) row (rows_of child rows) (rw e at h) in
          elim (Bool-cases (row.parent_product_id == parent)) [
            | inl f ↦ subst P ((eq_iff row.parent_product_id parent).0 f) both.0
            | inr f ↦ rows_of-all child rows P parent role both.1 (ground arith)
          ]
      | inr e ↦ rows_of-all child rows P parent role (rw e at h) (ground arith)
    ]

-- What one call of the walk does to what was seen.
pub record Covered (s : Store) (id : String) (w w' : Walk) : Type 0 where
  pub grows : (c : String) → Seen w c → Seen w' c
  pub itself : Seen w' id
  pub closed :
      (c : String)
      → Seen w' c
      → Seen w c ⊎ All (λ row. Seen w' row.parent_product_id) (rows_of c s.data_product_lineage)
  pub reached : (c : String) → Seen w' c → Seen w c ⊎ Reaches s id c
  pub listed :
      ((c : String) → contains_key c w.products ≡ contains_key c w.seen)
      → (c : String) → contains_key c w'.products ≡ contains_key c w'.seen

-- The same of the loop over rows of one product.
record Looped (s : Store) (id : String) (rows : List LineageRow) (w w' : Walk) : Type 0 where
  grows : (c : String) → Seen w c → Seen w' c
  parents : All (λ row. Seen w' row.parent_product_id) rows
  closed :
      (c : String)
      → Seen w' c
      → Seen w c ⊎ All (λ row. Seen w' row.parent_product_id) (rows_of c s.data_product_lineage)
  reached : (c : String) → Seen w' c → Seen w c ⊎ Reaches s id c
  listed :
      ((c : String) → contains_key c w.products ≡ contains_key c w.seen)
      → (c : String) → contains_key c w'.products ≡ contains_key c w'.seen

and_then-walked :
    (r : Walked) (next : Walk → Walked) (w' : Walk)
    → and_then r next ≡ walked w'
    → (m : Walk) × (r ≡ walked m) × (next m ≡ walked w')
and_then-walked out_of_fuel next w' h = absurd (cc)
and_then-walked (failed text) next w' h = absurd (cc)
and_then-walked (walked m) next w' h = (m, refl, h)

All-grows :
    (w w' : Walk) (rows : List LineageRow)
    → ((c : String) → Seen w c → Seen w' c)
    → All (λ row. Seen w row.parent_product_id) rows
    → All (λ row. Seen w' row.parent_product_id) rows
All-grows w w' [] g h = tt
All-grows w w' (row ∷ rows) g h = (g row.parent_product_id h.0, All-grows w w' rows g h.1)

module _ (s : Store) (id : String) where
  walk_rows-Looped :
      (call : String → Walk → Walked) (rows : List LineageRow) (w w' : Walk)
      → ((i : String) (v v' : Walk) → call i v ≡ walked v' → Covered s i v v')
      → All (λ row. IsParent s id row.parent_product_id) rows
      → walk_rows call id rows w ≡ walked w'
      → Looped s id rows w w'
  unfolding walk_rows
  walk_rows-Looped call [] w w' good ps h =
      let e : w ≡ w' = cc in
      subst (λ v. Looped s id [] w v) e
        record {
          grows = λ c m. m;
          parents = tt;
          closed = λ c m. inl m;
          reached = λ c m. inl m;
          listed = λ l. l;
        }
  walk_rows-Looped call (row ∷ rows) w w' good ps h =
      let parent = row.parent_product_id in
      let pushed = push_edge (edge_value id row) w in
      let (m, e, k) = and_then-walked (call parent pushed) (walk_rows call id rows) w' h in
      let first = good parent pushed m e in
      let rest = walk_rows-Looped call rows m w' good ps.1 k in
      record {
        grows = λ c seen. rest.grows c (first.grows c seen);
        parents = (rest.grows parent first.itself, rest.parents);
        closed = λ c seen. elim (rest.closed c seen) [
          | inl before ↦ elim (first.closed c before) [
            | inl old ↦ inl old
            | inr all ↦ inr (All-grows m w' (rows_of c s.data_product_lineage) rest.grows all)
          ]
          | inr all ↦ inr all
        ];
        reached = λ c seen. elim (rest.reached c seen) [
          | inl before ↦ elim (first.reached c before) [
            | inl old ↦ inl old
            | inr path ↦ inr (Reaches.step ps.0 path)
          ]
          | inr path ↦ inr path
        ];
        listed = λ l. rest.listed (first.listed l);
      }

  Seen-of_entered :
      (product : DataProduct) (w : Walk) (c : String)
      → Seen (entered id product w) c
      → (c ≡ id) ⊎ Seen w c
  Seen-of_entered product w c h = elim (Bool-cases (c == id)) [
    | inl e ↦ inl ((eq_iff c id).0 e)
    | inr e ↦ inr (ground (arith, get-insert c id tt w.seen))
  ]

  walk_new-Covered :
      (call : String → Walk → Walked) (found : Option DataProduct) (w w' : Walk)
      → ((i : String) (v v' : Walk) → call i v ≡ walked v' → Covered s i v v')
      → walk_new call (rows_of id s.data_product_lineage) id found w ≡ walked w'
      → Covered s id w w'
  unfolding walk_new
  walk_new-Covered call none w w' good h = absurd (cc)
  walk_new-Covered call (some product) w w' good h =
      let rows = rows_of id s.data_product_lineage in
      let v = entered id product w in
      let loop =
        walk_rows-Looped call rows v w' good
          (rows_of-parent id s.data_product_lineage (IsParent s id) (λ parent role m. (role, m)))
          h in
      record {
        grows = λ c m. loop.grows c (ground (arith, get-insert c id tt w.seen));
        itself = loop.grows id (ground (arith, get-insert id id tt w.seen, eq_iff id id));
        closed = λ c m. elim (loop.closed c m) [
          | inl before ↦ elim (Seen-of_entered product w c before) [
            | inl e ↦ inr (rw e loop.parents)
            | inr old ↦ inl old
          ]
          | inr all ↦ inr all
        ];
        reached = λ c m. elim (loop.reached c m) [
          | inl before ↦ elim (Seen-of_entered product w c before) [
            | inl e ↦ inr (Reaches.start (sym e))
            | inr old ↦ inl old
          ]
          | inr path ↦ inr path
        ];
        listed = λ l. loop.listed (λ c. ground (
          arith,
          l c,
          get-insert c id tt w.seen,
          get-insert c id (product_json product) w.products,
        ));
      }

pub walk_lineage-Covered :
    (s : Store) (fuel : ℕ) (id : String) (w w' : Walk)
    → walk_lineage s fuel id w ≡ walked w'
    → Covered s id w w'
unfolding walk_lineage
walk_lineage-Covered s zero id w w' h = absurd (cc)
walk_lineage-Covered s (suc fuel) id w w' h = elim (Bool-cases (contains_key id w.seen)) [
  | inl e ↦
      let same : w ≡ w' = cc (rw e at h) in
      subst (Covered s id w) same record {
        grows = λ c m. m;
        itself = e;
        closed = λ c m. inl m;
        reached = λ c m. inl m;
        listed = λ l. l;
      }
  | inr e ↦
      walk_new-Covered s id (walk_lineage s fuel) (load_product s id) w w'
        (λ i v v' k. walk_lineage-Covered s fuel i v v' k) (rw e at h)
]
