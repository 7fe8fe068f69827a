-- ===== src/Executor/Run/Loop/Ran.antt =====
-- One turn of the loop of `run_validated_workflow` of cli/src/framework/executor.rs.
use text.Mathlib.Text.{◌==◌}
use sec_fa.Prelude.{ℕ, String, ◌≡◌, refl, ap, ◌∙◌, subst, false, Option, some, List, [], ◌∷◌, arith}
use sec_fa.Outcome.{context-eq, Result, ok, err, >>=-eq-ok, context}
use sec_fa.BTreeMap.{pair_ord}
use sec_fa.Timestamp.{TimeParsers}
use sec_fa.Invariants.{InvariantViolation}
use sec_fa.Registry.{Algorithm, load_algorithm}
use sec_fa.Hash.{Digests}
use sec_fa.Graph.{NodeSpec, WorkflowSpec, node_by_id}
use sec_fa.Executor.{
  CommandResult, ProducedProduct, Produced, AlgorithmExecution, command, noop, Operation,
  execute_algorithm, resolve_inputs,
}
use sec_fa.Executor.Resolve.{IsProduced}
use sec_fa.Executor.Persist.{World}
use sec_fa.Executor.Run.{Runs}
use sec_fa.Executor.Run.Loop.Covered.{command-IsProduced}
use sec_fa.Executor.Run.Loop.{
  add_outputs, stored_execution, execute_node, settle_node, inserted_node, start_node, check_node,
  prepare_node, checked_node, run_node,
}

execute_algorithm-command :
    (d : Digests) (run_inner : NodeSpec → Algorithm → Option String → Operation) (node : NodeSpec)
    (a : Algorithm) (inputs : List ProducedProduct) (execution : AlgorithmExecution)
    → (a.executable_kind == "noop_test") ≡ false
    → execute_algorithm d run_inner node a inputs ≡ ok execution
    → (result : CommandResult) × (run_id : Option String) × (execution ≡ command result run_id)
unfolding execute_algorithm
execute_algorithm-command d run_inner node a inputs (noop payload) k h = absurd (ground arith)
execute_algorithm-command d run_inner node a inputs (command result run_id) k h =
    (result, run_id, refl)

module _ (d : Digests) (clock : ℕ → String) (time : TimeParsers)
    (run_inner : NodeSpec → Algorithm → Option String → Operation) (spec : WorkflowSpec)
    (run : String) where
  -- The node of a turn, found with its algorithm, and covered by the products after the turn.
  pub record HasRun (node_id : String) (produced next : Produced) (s : Runs) : Type 0 where
    pub node : NodeSpec
    pub found : node_by_id spec node_id ≡ some node
    pub algorithm : Algorithm
    pub loaded : load_algorithm d.serde s.world.store.tables node.algorithm ≡ some algorithm
    pub products : List ProducedProduct
    pub added : next ≡ add_outputs node.node_id products produced
    pub covered : (algorithm.executable_kind == "noop_test") ≡ false → IsProduced next node

  -- The products of a turn, from its execution.
  Ran : NodeSpec → Algorithm → Produced → Produced → Type 0
  Ran node a produced next =
      (products : List ProducedProduct) × (next ≡ add_outputs node.node_id products produced)
      × ((a.executable_kind == "noop_test") ≡ false → IsProduced next node)

  stored-Ran :
      (cell config : String) (node : NodeSpec) (a : Algorithm) (inputs : List ProducedProduct)
      (produced : Produced) (w w' : World) (products : List ProducedProduct)
      (r : Result AlgorithmExecution)
      → execute_algorithm d run_inner node a inputs ≡ r
      → stored_execution d clock time run_inner spec run node a cell config inputs w r
        ≡ (ok products, w')
      → (a.executable_kind == "noop_test") ≡ false
      → IsProduced (add_outputs node.node_id products produced) node
  unfolding stored_execution
  stored-Ran cell config node a inputs produced w w' products (err text) e h k =
      absurd (ground arith)
  stored-Ran cell config node a inputs produced w w' products (ok execution) e h k =
      let (result, run_id, same) =
        execute_algorithm-command d run_inner node a inputs execution k e in
      command-IsProduced d clock _ result run_id w w' products produced (rw same at h)

  execute-Ran :
      (cell config : String) (node : NodeSpec) (a : Algorithm) (inputs : List ProducedProduct)
      (produced : Produced) (w w' : World) (products : List ProducedProduct)
      → execute_node d clock time run_inner spec run node a cell config inputs w ≡ (ok products, w')
      → (a.executable_kind == "noop_test") ≡ false
      → IsProduced (add_outputs node.node_id products produced) node
  unfolding execute_node
  execute-Ran cell config node a inputs produced w w' products h k =
      stored-Ran cell config node a inputs produced w w' products _ refl h k

  settle-Ran :
      (cell config node_run : String) (node : NodeSpec) (a : Algorithm)
      (inputs : List ProducedProduct) (produced next : Produced) (w w' : World)
      (r : Result (List ProducedProduct)) (s t : Runs)
      → execute_node d clock time run_inner spec run node a cell config inputs w ≡ (r, w')
      → settle_node d clock time run_inner spec run node_run node produced r s ≡ (ok next, t)
      → Ran node a produced next
  unfolding settle_node Ran
  settle-Ran cell config node_run node a inputs produced next w w' (err e) s t x h =
      absurd (ground arith)
  settle-Ran cell config node_run node a inputs produced next w w' (ok outputs) s t x h =
      let same : next ≡ add_outputs node.node_id outputs produced = ground arith in
      (
        outputs,
        same,
        λ k. rw same (execute-Ran cell config node a inputs produced w w' outputs x k),
      )

  inserted-Ran :
      (cell config node_run : String) (node : NodeSpec) (a : Algorithm)
      (inputs : List ProducedProduct) (produced next : Produced) (s t : Runs) (r : Result Runs)
      → inserted_node d clock time run_inner spec run cell config node_run node a inputs produced s
          r
        ≡ (ok next, t)
      → Ran node a produced next
  unfolding inserted_node
  inserted-Ran cell config node_run node a inputs produced next s t (err e) h =
      absurd (ground arith)
  inserted-Ran cell config node_run node a inputs produced next s t (ok s₁) h =
      settle-Ran cell config node_run node a inputs produced next s₁.world _ _ _ t refl h

  check-Ran :
      (node : NodeSpec) (a : Algorithm) (inputs : List ProducedProduct) (produced next : Produced)
      (s t : Runs) (r : Result (List InvariantViolation))
      → check_node d clock time run_inner spec run node a inputs produced s r ≡ (ok next, t)
      → Ran node a produced next
  unfolding check_node start_node
  check-Ran node a inputs produced next s t (err e) h = absurd (ground arith)
  check-Ran node a inputs produced next s t (ok (v ∷ vs)) h = absurd (ground arith)
  check-Ran node a inputs produced next s t (ok []) h =
      inserted-Ran _ _ _ node a inputs produced next s t _ h

  checked-HasRun :
      (node_id : String) (produced next : Produced) (s t : Runs)
      (r : Result (NodeSpec × Algorithm × List ProducedProduct))
      → prepare_node d clock time run_inner spec run node_id produced s ≡ r
      → checked_node d clock time run_inner spec run produced s r ≡ (ok next, t)
      → HasRun node_id produced next s
  unfolding prepare_node Ran
  checked-HasRun node_id produced next s t (err e) p h = absurd (ground arith)
  checked-HasRun node_id produced next s t (ok (node, a, inputs)) p h =
      let (products, same, cover) = check-Ran node a inputs produced next s t _ h in
      let (n, e₁, r₁) = >>=-eq-ok (context (node_by_id spec node_id) _) _ p in
      let (b, e₂, r₂) =
        >>=-eq-ok (context (load_algorithm d.serde s.world.store.tables n.algorithm) _) _ r₁ in
      let (i, e₃, r₃) = >>=-eq-ok (resolve_inputs n produced) _ r₂ in
      let tuple : (n, b, i) ≡ (node, a, inputs) = ground arith in
      let n_is : n ≡ node = ap (λ (x : NodeSpec × Algorithm × List ProducedProduct). x.0) tuple in
      let b_is : b ≡ a = ap (λ (x : NodeSpec × Algorithm × List ProducedProduct). x.1) tuple in
      let known = (context-eq (load_algorithm d.serde s.world.store.tables n.algorithm) _ b).0 e₂ in
      record {
        node = node;
        found = (context-eq (node_by_id spec node_id) _ node).0 (e₁ ∙ ap ok n_is);
        algorithm = a;
        loaded =
            subst
              (λ (x : NodeSpec). load_algorithm d.serde s.world.store.tables x.algorithm ≡ some a)
              n_is (known ∙ ap some b_is);
        products = products;
        added = same;
        covered = cover;
      }

  pub run_node-HasRun :
      (node_id : String) (produced next : Produced) (s t : Runs)
      → run_node d clock time run_inner spec run node_id produced s ≡ (ok next, t)
      → HasRun node_id produced next s
  unfolding run_node
  run_node-HasRun node_id produced next s t h = checked-HasRun node_id produced next s t _ refl h
