-- ===== src/Replay/Asks/Records.antt =====
-- The queries of cli/src/framework/replay.rs on the records of a node and on the lineage.
use mathlib.Core.List.{Permᴰ}
use mathlib.Core.List.Permᴰ
use text.Mathlib.Text.{◌==◌}
use sec_fa.Prelude.{
  String, ◌≡◌, ◌↔◌, refl, sym, ap, inl, inr, ◌⊎◌, Option, none, some, List, [], ◌∷◌, map, unwrap_or,
  Bool-cases,
}
use sec_fa.Outcome.{ok, context, context-eq, >>=-eq-ok, ok-injective}
use sec_fa.BTreeMap.{pair_lt}
use sec_fa.Serde.{Serde}
use sec_fa.Storage.{Store, LineageRow}
use sec_fa.Storage.Lineage.{rows_of, insert_row, row_key}
use sec_fa.Executor.Run.{Runs}
use sec_fa.Replay.Queries.{
  newest_row, no_rows, started, finished, workflow_node_record,
  output_product_ids_for_workflow_node, product_parent_ids,
}
use sec_fa.Replay.Asks.{Ended, Gave, parents_in}
use sec_fa.Replay.Asks.Rows.{newest_row_iff}

module _ (serde : Serde) (s : Runs) (run node_id : String) where
  pub workflow_node_record_iff :
      (inputs : List String)
      → (workflow_node_record serde s run node_id ≡ ok ("succeeded", inputs))
        ↔ Ended serde s run node_id inputs
  unfolding workflow_node_record
  workflow_node_record_iff inputs = (
    (λ h.
        let (row, e, k) =
          >>=-eq-ok (context (newest_row started run node_id s.workflow_nodes) no_rows) _ h in
        let (ids, f, l) =
          >>=-eq-ok (context (serde.strings_of row.input_product_ids_json) "invalid JSON") _ k in
        let pair : (row.status, ids) ≡ ("succeeded", inputs) = ok-injective l in
        let same : ids ≡ inputs = ap (λ (p : String × List String). p.1) pair in
        record {
          row = row;
          last =
              (newest_row_iff started run node_id s.workflow_nodes row).0
                ((context-eq _ _ row).0 e);
          status = ap (λ (p : String × List String). p.0) pair;
          read = rw (← same) ((context-eq _ _ ids).0 f);
        }),
    (λ r.
        let found = (newest_row_iff started run node_id s.workflow_nodes r.row).1 r.last in
        rw (found, r.read, r.status) refl),
  )

  pub output_product_ids_iff :
      (outputs : List String)
      → (output_product_ids_for_workflow_node serde s run node_id ≡ ok outputs)
        ↔ Gave serde s run node_id outputs
  unfolding output_product_ids_for_workflow_node
  output_product_ids_iff outputs = (
    (λ h.
        let (row, e, k) =
          >>=-eq-ok (context (newest_row finished run node_id s.workflow_nodes) no_rows) _ h in
        let same : unwrap_or (serde.strings_of row.output_product_ids_json) [] ≡ outputs =
          ok-injective k in
        record {
          row = row;
          last =
              (newest_row_iff finished run node_id s.workflow_nodes row).0
                ((context-eq _ _ row).0 e);
          read = read_of (serde.strings_of row.output_product_ids_json) same;
        }),
    (λ r.
        let found = (newest_row_iff finished run node_id s.workflow_nodes r.row).1 r.last in
        rw found (elim r.read [ inl e ↦ rw e refl | inr (e, n) ↦ rw (e, n) refl ])),
  )
    where
      read_of :
          (o : Option (List String))
          → unwrap_or o [] ≡ outputs
          → (o ≡ some outputs) ⊎ ((o ≡ none) × (outputs ≡ []))
      read_of none e = inr (refl, sym e)
      read_of (some ids) e = inl (ap some e)

-- The query sorts the parents.
insert_row-perm :
    (x : LineageRow) (ys : List LineageRow)
    → Permᴰ
        (map (λ (row : LineageRow). row.parent_product_id) (insert_row x ys))
        (x.parent_product_id ∷ map (λ (row : LineageRow). row.parent_product_id) ys)
unfolding insert_row
insert_row-perm x [] = Permᴰ.refl (x.parent_product_id ∷ [])
insert_row-perm x (y ∷ ys) = elim (Bool-cases (pair_lt (row_key y) (row_key x))) [
  | inl e ↦ rw e (Permᴰ.trans (Permᴰ.cons refl (insert_row-perm x ys)) (Permᴰ.swap refl refl))
  | inr e ↦ rw e (Permᴰ.refl _)
]

rows_of-perm :
    (child : String) (rows : List LineageRow)
    → Permᴰ
        (map (λ (row : LineageRow). row.parent_product_id) (rows_of child rows))
        (parents_in child rows)
unfolding rows_of parents_in
rows_of-perm child [] = Permᴰ.nil
rows_of-perm child (row ∷ rows) = elim (Bool-cases (row.child_product_id == child)) [
  | inl e ↦ rw e (
      Permᴰ.trans (insert_row-perm row (rows_of child rows))
        (Permᴰ.cons refl (rows_of-perm child rows)))
  | inr e ↦ rw e (rows_of-perm child rows)
]

pub product_parent_ids-perm :
    (store : Store) (child : String)
    → Permᴰ (product_parent_ids store child) (parents_in child store.data_product_lineage)
unfolding product_parent_ids
product_parent_ids-perm store child = rows_of-perm child store.data_product_lineage
