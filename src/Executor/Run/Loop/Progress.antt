-- ===== src/Executor/Run/Loop/Progress.antt =====
-- The states at the head of the loop of `run_validated_workflow` of
-- cli/src/framework/executor.rs, and which products they hold.
use text.Mathlib.Text.{◌==◌}
use mathlib.Core.List.Memᴰ
use mathlib.Core.List.{append_assoc}
use sec_fa.Prelude.{
  ℕ, ◌≤◌, String, ◌≡◌, refl, ap, sym, ◌∙◌, inl, inr, Bool, true, false, not, Option, none, some,
  List, [], ◌∷◌, ◌++◌, Memᴰ, All-mem, all_of, find, Bool-cases, arith, eq_iff,
}
use sec_fa.Outcome.{ok}
use sec_fa.BTreeMap.{pair_ord, contains_key}
use sec_fa.Timestamp.{TimeParsers}
use sec_fa.Registry.{Tables, Algorithm, load_algorithm}
use sec_fa.Hash.{Digests}
use sec_fa.Graph.{NodeSpec, NodeOutputSpec, ValidatedWorkflow, node_by_id}
use sec_fa.Graph.Topology.Counts.{count_of, node_ids, before, count_of-append, count_of-singleton}
use sec_fa.Graph.Validate.Safety.{IsAccepted, accepted_order_exact}
use sec_fa.Executor.{ProducedProduct, Produced, Operation, resolve_inputs}
use sec_fa.Executor.Resolve.{IsProduced, resolve_inputs-total}
use sec_fa.Executor.Run.{Runs}
use sec_fa.Executor.Run.Loop.{add_outputs, run_node}
use sec_fa.Executor.Run.Loop.Covered.{add_outputs-keeps}
use sec_fa.Executor.Run.Loop.Ran.{HasRun, run_node-HasRun}

before-done :
    (u v : String) (done rest : List String)
    → count_of v (done ++ v ∷ rest) ≤ 1
    → before u v (done ++ v ∷ rest) ≡ true
    → 1 ≤ count_of u done
unfolding before count_of
before-done u v [] rest c h = absurd (ground (arith, eq_iff v u, eq_iff v v))
before-done u v (x ∷ done) rest c h =
    ground (arith, before-done u v done rest, eq_iff x u, eq_iff x v)

found_node :
    (id : String) (nodes : List NodeSpec)
    → 1 ≤ count_of id (node_ids nodes)
    → (node : NodeSpec) × (find (λ n. n.node_id == id) nodes ≡ some node)
      × Memᴰ node nodes
      × (node.node_id ≡ id)
unfolding count_of node_ids
found_node id [] h = absurd (omega arith)
found_node id (n ∷ nodes) h = elim (Bool-cases (n.node_id == id)) [
  | inl hit ↦ (n, ground (arith, hit), Memᴰ.head refl, ground (arith, eq_iff n.node_id id))
  | inr miss ↦
      let (m, e, k, f) = found_node id nodes (ground arith) in
      (m, ground (arith, miss, e), Memᴰ.tail k, f)
]

counted :
    (m : NodeSpec) (nodes : List NodeSpec) → Memᴰ m nodes → 1 ≤ count_of m.node_id (node_ids nodes)
unfolding count_of node_ids
counted m [] k = elim k [ ]
counted m (n ∷ nodes) k = elim (Memᴰ.cases_cons k) [
  | inl same ↦
      let id = ap (λ (x : NodeSpec). x.node_id) same in
      ground (arith, id, eq_iff n.node_id m.node_id)
  | inr later ↦ ground (arith, counted m nodes later)
]

only_node :
    (id : String) (nodes : List NodeSpec) (node m : NodeSpec)
    → count_of id (node_ids nodes) ≤ 1
    → find (λ n. n.node_id == id) nodes ≡ some node
    → Memᴰ m nodes
    → m.node_id ≡ id
    → m ≡ node
unfolding count_of node_ids
only_node id [] node m c f k e = elim k [ ]
only_node id (n ∷ nodes) node m c f k e = elim (Memᴰ.cases_cons k) [
  | inl same ↦
      let id_n = ap (λ (x : NodeSpec). x.node_id) same in
      let hit : (n.node_id == id) ≡ true = ground (arith, id_n, eq_iff n.node_id id) in
      let first : n ≡ node = ground (arith, hit) in same ∙ first
  | inr later ↦ elim (Bool-cases (n.node_id == id)) [
    | inl hit ↦
        absurd (ground (arith, hit, counted m nodes later, ap (λ x. count_of x (node_ids nodes)) e))
    | inr miss ↦ only_node id nodes node m (ground arith) (ground arith) later e
  ]
]

kept_node :
    (produced : Produced) (node_id : String) (outputs : List ProducedProduct) (m : NodeSpec)
    → IsProduced produced m
    → IsProduced (add_outputs node_id outputs produced) m
kept_node produced node_id outputs m h =
    all_of
      (λ (o : NodeOutputSpec).
        contains_key (m.node_id, o.role) (add_outputs node_id outputs produced) ≡ true)
      m.outputs
      (λ o k.
        add_outputs-keeps node_id outputs produced (m.node_id, o.role)
          (All-mem (λ (o : NodeOutputSpec). contains_key (m.node_id, o.role) produced ≡ true)
            m.outputs o h k))

-- The node is there with an algorithm that is not a test.
abbrev pub is_command : Option Algorithm → Bool
is_command none = false
is_command (some a) = not (a.executable_kind == "noop_test")

abbrev pub algorithm_of : Digests → Runs → Option NodeSpec → Option Algorithm
algorithm_of d s none = none
algorithm_of d s (some node) = load_algorithm d.serde s.world.store.tables node.algorithm

module _ (d : Digests) (clock : ℕ → String) (time : TimeParsers)
    (run_inner : NodeSpec → Algorithm → Option String → Operation) (validated : ValidatedWorkflow)
    (run : String) where
  -- The states at the head of the loop of `run_validated_workflow`, where each node that ran so far
  -- was a command: the names that are left of the order, the products, and the tables.
  pub data Reached : List String → Produced → Runs → Type 0 where
    begin : (s : Runs) → Reached validated.order [] s
    turn :
        {node_id : String} {rest : List String} {produced next : Produced} {s t : Runs}
        → Reached (node_id ∷ rest) produced s
        → is_command (algorithm_of d s (node_by_id validated.parsed.spec node_id)) ≡ true
        → run_node d clock time run_inner validated.parsed.spec run node_id produced s
          ≡ (ok next, t)
        → Reached rest next t

  -- The names that are done, whose nodes have their outputs among the products.
  record Progress (left : List String) (produced : Produced) : Type 0 where
    done : List String
    whole : done ++ left ≡ validated.order
    covered :
        (m : NodeSpec)
        → Memᴰ m validated.parsed.spec.nodes
        → 1 ≤ count_of m.node_id done
        → IsProduced produced m

  turn-Progress :
      (node_id : String) (rest : List String) (produced next : Produced) (s t : Runs)
      → count_of node_id (node_ids validated.parsed.spec.nodes) ≤ 1
      → is_command (algorithm_of d s (node_by_id validated.parsed.spec node_id)) ≡ true
      → HasRun d clock time run_inner validated.parsed.spec run node_id produced next s
      → Progress (node_id ∷ rest) produced
      → Progress rest next
  unfolding node_by_id
  turn-Progress node_id rest produced next s t once kind ran p =
      let is_kind : (ran.algorithm.executable_kind == "noop_test") ≡ false =
        ground (arith, ran.found, ran.loaded, kind) in
      record {
        done = p.done ++ node_id ∷ [];
        whole = append_assoc p.done (node_id ∷ []) rest ∙ p.whole;
        covered = λ m k c. elim (Bool-cases (m.node_id == node_id)) [
          | inl hit ↦
              let same =
                only_node node_id validated.parsed.spec.nodes ran.node m once ran.found k
                  (ground (arith, hit, eq_iff m.node_id node_id)) in
              rw same (ran.covered is_kind)
          | inr miss ↦ rw ran.added (
              kept_node produced ran.node.node_id ran.products m (
                p.covered m k (
                  ground (
                    arith,
                    c,
                    count_of-append m.node_id p.done (node_id ∷ []),
                    count_of-singleton m.node_id node_id,
                    eq_iff m.node_id node_id,
                    eq_iff node_id m.node_id,
                    miss,
                  ))))
        ];
      }

  Reached-Progress :
      (left : List String) (produced : Produced) (s : Runs)
      → ((name : String) → count_of name (node_ids validated.parsed.spec.nodes) ≤ 1)
      → Reached left produced s
      → Progress left produced
  unfolding count_of
  Reached-Progress left produced t once (begin s) = record {
    done = [];
    whole = refl;
    covered = λ m k c. absurd (omega arith);
  }
  Reached-Progress left produced t once
        (turn {node_id = node_id} {produced = earlier} {s = u} r kind ran) =
      turn-Progress node_id left earlier produced u t (once node_id) kind
        (run_node-HasRun d clock time run_inner validated.parsed.spec run node_id earlier produced u
          t ran)
        (Reached-Progress (node_id ∷ left) earlier u once r)

-- In a run of an accepted workflow in which each node that ran so far is a command, the next node
-- of the order is found, and `resolve_inputs` finds a product for each of its inputs.
pub no_input_is_missing :
    (d : Digests) (clock : ℕ → String) (time : TimeParsers)
    (run_inner : NodeSpec → Algorithm → Option String → Operation) (tables : Tables)
    (validated : ValidatedWorkflow) (run node_id : String) (rest : List String)
    (produced : Produced) (s : Runs)
    → IsAccepted d.serde tables validated.parsed validated
    → Reached d clock time run_inner validated run (node_id ∷ rest) produced s
    → (node : NodeSpec) × (node_by_id validated.parsed.spec node_id ≡ some node)
      × (products : List ProducedProduct) × (resolve_inputs node produced ≡ ok products)
unfolding node_by_id count_of
no_input_is_missing d clock time run_inner tables validated run node_id rest produced s h r =
    let nodes = validated.parsed.spec.nodes in
    let exact =
      λ (name : String). accepted_order_exact d.serde tables validated.parsed validated name h in
    let p =
      Reached-Progress d clock time run_inner validated run (node_id ∷ rest) produced s
        (λ name. (exact name).0) r in
    let here = ap (count_of node_id) p.whole in
    let (once, same) = exact node_id in
    let split = count_of-append node_id p.done (node_id ∷ rest) in
    let (node, found, member, name) =
      found_node node_id nodes (ground (arith, here, same, split, eq_iff node_id node_id)) in
    let (products, resolved) =
      resolve_inputs-total d.serde tables validated.parsed validated node produced h member
        (λ m k b. p.covered m k (
          before-done m.node_id node_id p.done rest (ground (arith, here, same, once))
            (rw (p.whole, sym name) b))) in
    (node, found, products, resolved)
