-- ===== src/Graph/Topology/Correct.antt =====
-- The result of `topological_order` of cli/src/framework/graph.rs.
use sec_fa.Prelude.{
  ℕ, zero, suc, ◌+◌, ◌≤◌, ◌<◌, String, ◌≡◌, refl, ap, true, none, some, List, [], ◌∷◌, length, ltb,
  if◌then◌else◌, arith, eq_iff, Memᴰ, inl, inr, Bool-cases,
}
use sec_fa.BTreeMap.{string_ord, get}
use sec_fa.BTreeMap.Laws.{IsDistinct, IsDistinct-of_IsSorted}
use sec_fa.Graph.{NodeSpec, WorkflowEdge}
use sec_fa.Graph.Topology.{
  Degrees, State, degrees, start, roots, drained, drain, children_of, topological_order, ok,
}
use sec_fa.Graph.Topology.Degrees.{
  degree_in, has_key, degree-degrees, degrees-IsSorted, IsClosed, has_key-degrees,
  length-degrees-le, node_ids_distinct, length-degrees_of_distinct,
}
use sec_fa.Graph.Topology.Counts.{count_of, node_ids, waiting, waiting-pos, before}
use sec_fa.Graph.Topology.Release.{positives, ready, degree_of}
use sec_fa.Graph.Topology.Loop.{Inv, Ends, drain-Ends}

count_of-roots-none : (v : String) (m : Degrees) → get v m ≡ none → count_of v (roots m) ≡ 0
unfolding roots count_of get
count_of-roots-none v [] h = refl
count_of-roots-none v ((k, d) ∷ m) h =
    ground (arith, count_of-roots-none v m, eq_iff k v, eq_iff v k)

count_of-roots : (v : String) (m : Degrees) → IsDistinct m → count_of v (roots m) ≡ ready (get v m)
unfolding roots count_of get
count_of-roots v [] h = refl
count_of-roots v ((k, d) ∷ m) h =
    ground (arith, count_of-roots v m h.1, count_of-roots-none v m, eq_iff k v, eq_iff v k)

length-roots : (m : Degrees) → length (roots m) + positives m ≡ length m
unfolding roots positives
length-roots [] = refl
length-roots ((k, d) ∷ m) = ground (arith, length-roots m)

degree_of_no_positives : (v : String) (m : Degrees) → positives m ≡ 0 → degree_in m v ≡ 0
unfolding positives get
degree_of_no_positives v [] h = refl
degree_of_no_positives v ((k, d) ∷ m) h = ground (arith, degree_of_no_positives v m)

no_positives : (m : Degrees) → IsDistinct m → ((v : String) → degree_in m v ≡ 0) → positives m ≡ 0
unfolding positives get
no_positives [] d h = refl
no_positives ((k, x) ∷ m) d h =
    ground (arith, h k, eq_iff k k, no_positives m d.1 (λ v. ground (arith, h v, d.0, eq_iff v k)))

module _ (nodes : List NodeSpec) (edges : List WorkflowEdge) where
  Inv-start : Inv edges (start (degrees nodes edges))
  unfolding start count_of
  Inv-start = record {
    place = λ v. omega (
      arith,
      count_of-roots v (degrees nodes edges)
          (IsDistinct-of_IsSorted (degrees nodes edges) (degrees-IsSorted nodes edges)),
    );
    degree = degree-degrees nodes edges;
    forward = λ e m c. absurd (omega arith);
  }

  run :
      (t : State) × (drain
          (children_of edges)
          (length (degrees nodes edges))
          (start (degrees nodes edges))
        ≡ some t.order)
      × Ends edges (start (degrees nodes edges)) t
  unfolding start
  run =
      drain-Ends edges (length (degrees nodes edges)) (start (degrees nodes edges))
        (omega (arith, length-roots (degrees nodes edges))) Inv-start

  final : State
  final = run.0

  final-Ends : Ends edges (start (degrees nodes edges)) final
  unfolding final
  final-Ends = run.2

  drained-final : drained nodes edges ≡ some final.order
  unfolding drained final
  drained-final = run.1

  final_size : length final.order + positives final.indegree ≡ length (degrees nodes edges)
  unfolding start
  final_size = omega (arith, final-Ends.work, length-roots (degrees nodes edges))

  final_place : (v : String) → count_of v final.order ≡ ready (get v final.indegree)
  unfolding count_of
  final_place v = ground (arith, final-Ends.inv.place v, final-Ends.empty)

  final_key : (v : String) → has_key final.indegree v ≡ has_key (degrees nodes edges) v
  unfolding start
  final_key v = final-Ends.key v

  final-IsDistinct : IsDistinct final.indegree
  unfolding start
  final-IsDistinct =
      IsDistinct-of_IsSorted final.indegree (final-Ends.sorted (degrees-IsSorted nodes edges))

-- The loop of `topological_order` never runs out of the fuel that the model gives it, one round
-- for each key of the degrees, whatever the nodes and edges.
pub drained_terminates :
    (nodes : List NodeSpec) (edges : List WorkflowEdge)
    → (order : List String) × (drained nodes edges ≡ some order)
drained_terminates nodes edges = ((final nodes edges).order, drained-final nodes edges)

module _ (nodes : List NodeSpec) (edges : List WorkflowEdge) where
  order_of_ok :
      (order : List String)
      → topological_order nodes edges ≡ ok order
      → (order ≡ (final nodes edges).order) × (length order ≡ length nodes)
  unfolding topological_order
  order_of_ok order h = ground (arith, drained-final nodes edges)

  -- When every key has left the queue, each key stands in the order once.
  count_of-final :
      (v : String)
      → IsClosed nodes edges
      → positives (final nodes edges).indegree ≡ 0
      → count_of v (final nodes edges).order
        ≡ (if ltb 0 (count_of v (node_ids nodes)) then 1 else 0)
  count_of-final v closed h = ground (
    arith,
    final_place nodes edges v,
    final_key nodes edges v,
    has_key-degrees nodes edges v closed,
    degree_of_no_positives v (final nodes edges).indegree,
  )

module _ (nodes : List NodeSpec) (edges : List WorkflowEdge) (order : List String)
    (closed : IsClosed nodes edges) (returned : topological_order nodes edges ≡ ok order) where
  nothing_left : positives (final nodes edges).indegree ≡ 0
  nothing_left =
      let (same, size) = order_of_ok nodes edges order returned in
      omega (arith, ap length same, final_size nodes edges, length-degrees-le nodes edges closed)

  names_distinct : (v : String) → count_of v (node_ids nodes) ≤ 1
  names_distinct v =
      let (same, size) = order_of_ok nodes edges order returned in
      node_ids_distinct nodes edges v closed (omega (arith, ap length same, final_size nodes edges))

  count_of-order : (v : String) → count_of v order ≡ count_of v (node_ids nodes)
  count_of-order v =
      let (same, size) = order_of_ok nodes edges order returned in
      ground (
        arith,
        ap (count_of v) same,
        count_of-final nodes edges v closed nothing_left,
        names_distinct v,
      )

-- If every edge goes from a node to a node and `topological_order` returns an order, then no two
-- nodes have one name, and every name stands in the order exactly as often as among the names of
-- the nodes.
pub topological_order_exact :
    (nodes : List NodeSpec) (edges : List WorkflowEdge) (order : List String) (v : String)
    → IsClosed nodes edges
    → topological_order nodes edges ≡ ok order
    → (count_of v (node_ids nodes) ≤ 1) × (count_of v order ≡ count_of v (node_ids nodes))
topological_order_exact nodes edges order v closed h =
    (names_distinct nodes edges order closed h v, count_of-order nodes edges order closed h v)

-- If every edge goes from a node to a node and `topological_order` returns an order, then the source
-- of every edge stands in the order before its target.
pub topological_order_forward :
    (nodes : List NodeSpec) (edges : List WorkflowEdge) (order : List String) (e : WorkflowEdge)
    → IsClosed nodes edges
    → topological_order nodes edges ≡ ok order
    → Memᴰ e edges
    → before e.from_node_id e.to_node_id order ≡ true
topological_order_forward nodes edges order e closed h m =
    let (same, size) = order_of_ok nodes edges order h in
    rw same (
      (final-Ends nodes edges).inv.forward e m (
        ground (
          arith,
          ap (count_of e.to_node_id) same,
          count_of-order nodes edges order closed h e.to_node_id,
          closed e m,
        )))

module _ (nodes : List NodeSpec) (edges : List WorkflowEdge) (rank : String → ℕ)
    (closed : IsClosed nodes edges)
    (falls : (e : WorkflowEdge) → Memᴰ e edges → rank e.from_node_id < rank e.to_node_id) where
  -- By induction on the rank, no node waits at the end.
  none_waits : (k : ℕ) (v : String) → rank v < k → degree_of (final nodes edges) v ≡ 0
  none_waits zero v r = absurd (omega arith)
  none_waits (suc k) v r = elim (Bool-cases (ltb 0 (waiting (final nodes edges).order edges v))) [
    | inl waits ↦
        let (e, m, t, f) = waiting-pos (final nodes edges).order edges v (ground arith) in
        let lower = none_waits k e.from_node_id (omega (arith, falls e m, ap rank t)) in
        absurd (
          ground (
            arith,
            lower,
            final_place nodes edges e.from_node_id,
            final_key nodes edges e.from_node_id,
            has_key-degrees nodes edges e.from_node_id closed,
            closed e m,
          ))
    | inr free ↦ ground (arith, (final-Ends nodes edges).inv.degree v)
  ]

  all_done : positives (final nodes edges).indegree ≡ 0
  all_done =
      no_positives (final nodes edges).indegree (final-IsDistinct nodes edges)
        (λ v. none_waits (suc (rank v)) v (omega arith))

-- If every edge goes from a node to a node, the names of the nodes are distinct, and some rank
-- rises along every edge (so the graph is acyclic), then `topological_order` returns an order.
pub topological_order_complete :
    (nodes : List NodeSpec) (edges : List WorkflowEdge) (rank : String → ℕ)
    → IsClosed nodes edges
    → ((v : String) → count_of v (node_ids nodes) ≤ 1)
    → ((e : WorkflowEdge) → Memᴰ e edges → rank e.from_node_id < rank e.to_node_id)
    → (order : List String) × (topological_order nodes edges ≡ ok order)
unfolding topological_order
topological_order_complete nodes edges rank closed distinct falls =
    let size = length-degrees_of_distinct nodes edges closed distinct in
    let done = all_done nodes edges rank closed falls in
    ((final nodes edges).order, ground (arith, drained-final nodes edges, final_size nodes edges))
