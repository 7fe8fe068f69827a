-- ===== src/Replay/Matches/Products.antt =====
-- The checks of cli/src/framework/replay.rs on the products of a node.
use mathlib.Core.List.{Permᴰ}
use mathlib.Core.List.Permᴰ
use text.Mathlib.Text.{◌==◌}
use sec_fa.Prelude.{
  zero, suc, String, ◌≡◌, ◌↔◌, refl, Bool, true, false, some, List, [], ◌∷◌, All, arith, eq_iff,
  if◌then◌else◌,
}
use sec_fa.Outcome.{
  Result, ok, IsOk, IsOk-of_eq, ok_of, IsOk-bind, IsOk-then, IsOk-bail, context-eq,
}
use sec_fa.Json.{ℤ, pos, negsuc}
use sec_fa.Hash.{Digests, content_sha256, config_sha256, sort}
use sec_fa.Hash.Order.{sort-eq, perm_of_sort}
use sec_fa.Registry.{Algorithm}
use sec_fa.Storage.{DataProduct, load_product}
use sec_fa.Graph.{NodeSpec}
use sec_fa.Executor.Persist.{is_zero}
use sec_fa.Executor.Run.{Runs}
use sec_fa.Replay.{
  exit_code_of, texts_eq, check_command_output, check_parents, check_product, check_products,
}
use sec_fa.Replay.Queries.{product_parent_ids}
use sec_fa.Replay.Asks.{parents_in}
use sec_fa.Replay.Asks.Records.{product_parent_ids-perm}
use sec_fa.Replay.Asks.Firsts.{exit_code_iff}
use sec_fa.Replay.Matches.{Succeeded, Conforms}

texts_eq_iff : (xs ys : List String) → (texts_eq xs ys ≡ true) ↔ (xs ≡ ys)
unfolding texts_eq
texts_eq_iff [] [] = (λ h. refl, λ h. refl)
texts_eq_iff [] (y ∷ ys) = ground arith
texts_eq_iff (x ∷ xs) [] = ground arith
texts_eq_iff (x ∷ xs) (y ∷ ys) = ground (arith, texts_eq_iff xs ys, eq_iff x y)

is_zero_iff : (z : ℤ) → (is_zero z ≡ true) ↔ (z ≡ pos 0)
is_zero_iff (pos zero) = (λ h. refl, λ h. refl)
is_zero_iff (pos (suc n)) = ground arith
is_zero_iff (negsuc n) = ground arith

module _ (d : Digests) (s : Runs) (run : String) where
  check_parents_iff :
      (product : DataProduct) (inputs : List String)
      → IsOk (check_parents d s run product inputs)
        ↔ Permᴰ (parents_in product.product_id s.world.store.data_product_lineage) inputs
  unfolding check_parents
  check_parents_iff product inputs =
      let actual = product_parent_ids s.world.store product.product_id in
      let bail = IsOk-bail (texts_eq (sort actual) (sort inputs)) _ in
      let same = texts_eq_iff (sort actual) (sort inputs) in
      let rows = product_parent_ids-perm s.world.store product.product_id in
      (
        λ h. Permᴰ.trans (Permᴰ.symm rows) (perm_of_sort actual inputs (same.0 (bail.0 h))),
        λ p. bail.1 (same.1 (sort-eq (Permᴰ.trans rows p))),
      )

  check_command_output_iff :
      (node : NodeSpec) (product : DataProduct)
      → IsOk (check_command_output d s run node product) ↔ Succeeded d s run product
  unfolding check_command_output
  check_command_output_iff node product =
      let found = context-eq (d.serde.value_of product.storage_ref) "invalid JSON" in
      (
        λ h.
            let (payload, e, k) = (IsOk-bind _ _).0 h in
            let (a, b) = (IsOk-then _ _).0 k in
            record {
              payload = payload;
              stored = (found payload).0 e;
              content =
                  (eq_iff (content_sha256 d payload) product.content_sha256).0
                    ((IsOk-bail _ _).0 a);
              exit_code =
                  (exit_code_iff payload).0
                    ((is_zero_iff (exit_code_of payload)).0 ((IsOk-bail _ _).0 b));
            },
        λ r. (IsOk-bind _ _).1 (
          r.payload,
          (found r.payload).1 r.stored,
          (IsOk-then _ _).1 (
            (IsOk-bail _ _).1
                ((eq_iff (content_sha256 d r.payload) product.content_sha256).1 r.content),
            (IsOk-bail _ _).1 (
                (is_zero_iff (exit_code_of r.payload)).1 ((exit_code_iff r.payload).1 r.exit_code)),
          ),
        ),
      )

  -- The check that a test guards.
  if_iff :
      (b : Bool) (m : Result (Unit {0})) (P : Type 0)
      → (IsOk m ↔ P)
      → IsOk (if b then m else ok tt) ↔ (b ≡ true → P)
  if_iff true m P e = (λ h t. e.0 h, λ h. e.1 (h refl))
  if_iff false m P e = (λ h t. absurd (cc), λ h. tt)

  output_iff :
      (node : NodeSpec) (product : DataProduct)
      → IsOk (
          if product.product_type == "command_output.v1"
          then check_command_output d s run node product
          else ok tt)
        ↔ (product.product_type ≡ "command_output.v1" → Succeeded d s run product)
  output_iff node product =
      let is_output = eq_iff product.product_type "command_output.v1" in
      let e =
        if_iff (product.product_type == "command_output.v1")
          (check_command_output d s run node product) (Succeeded d s run product)
          (check_command_output_iff node product) in
      (λ h t. e.0 h (is_output.1 t), λ h. e.1 (λ t. h (is_output.0 t)))

  abbrev pub Found : NodeSpec → Algorithm → List String → String → Type 0
  Found node algorithm inputs id =
      (product : DataProduct) × (load_product s.world.store id ≡ some product)
      × Conforms d s run node algorithm inputs product

  check_product_iff :
      (node : NodeSpec) (algorithm : Algorithm) (inputs : List String) (id : String)
      → IsOk (check_product d s run node algorithm inputs id) ↔ Found node algorithm inputs id
  unfolding check_product
  check_product_iff node algorithm inputs id = (
    λ h.
        let (product, e, k) = (IsOk-bind _ _).0 h in
        let (k3, _) = (IsOk-then _ _).0 k in
        let (k2, output) = (IsOk-then _ _).0 k3 in
        let (k1, parents) = (IsOk-then _ _).0 k2 in
        let (creator, config) = (IsOk-then _ _).0 k1 in
        (
          product,
          (context-eq (load_product s.world.store id) _ product).0 e,
          record {
            creator =
                (eq_iff product.created_by_algorithm algorithm.algorithm_id).0
                  ((IsOk-bail _ _).0 creator);
            config =
                (eq_iff product.config_sha256 (config_sha256 d node.config)).0
                  ((IsOk-bail _ _).0 config);
            parents = (check_parents_iff product inputs).0 parents;
            output = (output_iff node product).0 output;
          },
        ),
    λ (product, e, c). (IsOk-bind _ _).1 (
      product,
      (context-eq (load_product s.world.store id) _ product).1 e,
      (IsOk-then _ _).1 (
        (IsOk-then _ _).1 (
          (IsOk-then _ _).1 (
            (IsOk-then _ _).1 (
              (IsOk-bail _ _).1
                  ((eq_iff product.created_by_algorithm algorithm.algorithm_id).1 c.creator),
              (IsOk-bail _ _).1
                  ((eq_iff product.config_sha256 (config_sha256 d node.config)).1 c.config),
            ),
            (check_parents_iff product inputs).1 c.parents,
          ),
          (output_iff node product).1 c.output,
        ),
        tt,
      ),
    ),
  )

  pub check_products_iff :
      (node : NodeSpec) (algorithm : Algorithm) (inputs ids : List String)
      → IsOk (check_products d s run node algorithm inputs ids)
        ↔ All (Found node algorithm inputs) ids
  unfolding check_products
  check_products_iff node algorithm inputs [] = (λ h. tt, λ h. tt)
  check_products_iff node algorithm inputs (id ∷ ids) = (
    λ h.
        let (product, e, k) = (IsOk-bind _ _).0 h in
        let (products, f, l) = (IsOk-bind _ _).0 k in
        (
          (check_product_iff node algorithm inputs id).0 (IsOk-of_eq e),
          (check_products_iff node algorithm inputs ids).0 (IsOk-of_eq f),
        ),
    λ h.
        let (product, e) =
          ok_of (check_product d s run node algorithm inputs id)
            ((check_product_iff node algorithm inputs id).1 h.0) in
        let (products, f) =
          ok_of (check_products d s run node algorithm inputs ids)
            ((check_products_iff node algorithm inputs ids).1 h.1) in
        rw (e, f) tt,
  )
