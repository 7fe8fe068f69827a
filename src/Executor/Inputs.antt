-- ===== src/Executor/Inputs.antt =====
-- `validate_runtime_input_product` of cli/src/framework/invariants.rs, and
-- `runtime_input_violations` of cli/src/framework/executor.rs: the checks of the products that a
-- node is about to take.
use mathlib.Core.List.Memᴰ
use text.Mathlib.Text.{◌==◌}
use sec_fa.Prelude.{
  String, ◌≡◌, sym, inl, inr, Bool, false, ◌&&◌, Option, none, some, List, [], ◌∷◌, ◌++◌, Memᴰ,
  subst, arith, Option-cases,
}
use sec_fa.Outcome.{Result, ok, ◌>>=◌, context, >>=-eq-ok}
use sec_fa.Json.{pos, text_object}
use sec_fa.Serde.{Serde}
use sec_fa.Timestamp.{TimeParsers, epoch_second, int_lt}
use sec_fa.Registry.{Algorithm, load_algorithm}
use sec_fa.Invariants.{
  InvariantViolation, violation, pushed, validate_product_available_for_decision,
  validate_class_a_input_product,
}
use sec_fa.Invariants.Allowed.{append-eq-nil}
use sec_fa.Storage.{Store, DataProduct, load_product}
use sec_fa.Graph.{NodeSpec}
use sec_fa.Executor.{ProducedProduct}

module _ (serde : Serde) (time : TimeParsers) (store : Store) (decision_as_of : String) where
  -- The checks of a product against an algorithm, after both were loaded.
  unfoldable pub product_checks : Algorithm → String → DataProduct → List InvariantViolation
  product_checks algorithm product_id product =
      pushed (
        validate_product_available_for_decision time product_id product.available_at decision_as_of)
      ++ pushed (validate_class_a_input_product algorithm product.product_type product.hazard_class)

  unfoldable pub checked_with :
      String → String → Option Algorithm → Result (List InvariantViolation)
  unfolding product_checks
  checked_with algorithm_id product_id none = ok (
      violation "UNKNOWN_ALGORITHM" (text_object (("algorithm_id", algorithm_id) ∷ []))
        ("unknown algorithm " ∷ algorithm_id ∷ [])
      ∷ [])
  checked_with algorithm_id product_id (some algorithm) = do
    product ← context (load_product store product_id) "Query returned no rows"
    ok (product_checks algorithm product_id product)

  unfoldable pub validate_runtime_input_product : String → String → Result (List InvariantViolation)
  unfolding checked_with
  validate_runtime_input_product algorithm_id product_id =
      checked_with algorithm_id product_id (load_algorithm serde store.tables algorithm_id)

  unfoldable pub runtime_input_violations :
      NodeSpec → List ProducedProduct → Result (List InvariantViolation)
  unfolding validate_runtime_input_product
  runtime_input_violations node [] = ok []
  runtime_input_violations node (product ∷ rest) = do
    first ← validate_runtime_input_product node.algorithm product.product_id
    more ← runtime_input_violations node rest
    ok (first ++ more)

  -- Both times are positive, and the decision comes before the product.
  abbrev pub is_early : String → Bool
  is_early available_at =
      int_lt (pos 0) (epoch_second time available_at)
      && int_lt (pos 0) (epoch_second time decision_as_of)
      && int_lt (epoch_second time decision_as_of) (epoch_second time available_at)

  -- A product is stored, was available, and may be taken by the algorithm.
  pub record IsUsable (algorithm : Algorithm) (product_id : String) : Type 0 where
    pub product : DataProduct
    pub stored : load_product store product_id ≡ some product
    -- Not after the decision, where the epoch seconds of both times are positive.
    pub available : is_early product.available_at ≡ false
    pub class : (algorithm.hazard_class == "A" && product.hazard_class == "C") ≡ false

  not_early :
      (product_id available_at : String)
      → pushed (validate_product_available_for_decision time product_id available_at decision_as_of)
        ≡ []
      → is_early available_at ≡ false
  unfolding validate_product_available_for_decision
  not_early product_id available_at h = ground arith

  not_class_c :
      (a : Algorithm) (product_type hazard : String)
      → pushed (validate_class_a_input_product a product_type hazard) ≡ []
      → (a.hazard_class == "A" && hazard == "C") ≡ false
  unfolding validate_class_a_input_product
  not_class_c a product_type hazard h = ground arith

  usable :
      (algorithm_id product_id : String) (a : Algorithm)
      → load_algorithm serde store.tables algorithm_id ≡ some a
      → validate_runtime_input_product algorithm_id product_id ≡ ok []
      → IsUsable a product_id
  unfolding validate_runtime_input_product checked_with product_checks
  usable algorithm_id product_id a e h = elim (Option-cases (load_product store product_id)) [
    | inl missing ↦ absurd (ground arith)
    | inr (product, f) ↦
        let none_found : product_checks a product_id product ≡ [] = ground arith in
        let (early, class) = append-eq-nil _ _ none_found in
        record {
          product = product;
          stored = f;
          available = not_early product_id product.available_at early;
          class = not_class_c a product.product_type product.hazard_class class;
        }
  ]

  no_violations :
      (first more : List InvariantViolation)
      → ok (first ++ more) ≡ ok []
      → (first ≡ []) × (more ≡ [])
  no_violations first more h =
      let none_found : first ++ more ≡ [] = ground arith in append-eq-nil first more none_found

  -- When the algorithm of a node is in the registry and the runtime checks return no violation,
  -- each input product of the node is stored, did not become available after the decision (where
  -- the epoch seconds of both times are positive: a time that cannot be read has the epoch second
  -- 0, and times before 1970 have a negative one), and is not of class C if the algorithm is of
  -- class A.
  pub runtime_inputs-IsUsable :
      (node : NodeSpec) (a : Algorithm) (products : List ProducedProduct) (p : ProducedProduct)
      → load_algorithm serde store.tables node.algorithm ≡ some a
      → runtime_input_violations node products ≡ ok []
      → Memᴰ p products
      → IsUsable a p.product_id
  unfolding runtime_input_violations
  runtime_inputs-IsUsable node a [] p e h m = elim m [ ]
  runtime_inputs-IsUsable node a (q ∷ rest) p e h m =
      let (first, f, k) =
        >>=-eq-ok (validate_runtime_input_product node.algorithm q.product_id) _ h in
      let (more, g, l) = >>=-eq-ok (runtime_input_violations node rest) _ k in
      let (x, y) = no_violations first more l in
      elim (Memᴰ.cases_cons m) [
        | inl same ↦
            subst (λ (r : ProducedProduct). IsUsable a r.product_id) (sym same)
              (usable node.algorithm q.product_id a e (rw x at f))
        | inr later ↦ runtime_inputs-IsUsable node a rest p e (rw y at g) later
      ]
