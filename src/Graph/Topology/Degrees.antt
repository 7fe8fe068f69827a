-- ===== src/Graph/Topology/Degrees.antt =====
-- What the loops over the nodes and the edges compute: degrees and children.
use sec_fa.Prelude.{
  Memᴰ, Bool-cases, inl, inr, ℕ, ◌+◌, ◌≤◌, String, ◌≡◌, refl, ◌∙◌, ap, sym, Bool, true, ◌||◌, List,
  [], ◌∷◌, ◌++◌, length, ltb, if◌then◌else◌, arith, eq_iff, is_some, unwrap_or,
}
use mathlib.Core.List.{append-nil, append_assoc}
use sec_fa.BTreeMap.{string_ord, get, insert, upsert}
use sec_fa.BTreeMap.Laws.{
  get-insert, get-upsert, length-insert, length-upsert, IsSorted, insert-IsSorted, upsert-IsSorted,
}
use sec_fa.Graph.{NodeSpec, WorkflowEdge}
use sec_fa.Graph.Topology.{
  Degrees, Children, zero_degrees, count_edges, collect_children, degrees, children_of,
}
use sec_fa.Graph.Topology.Counts.{count_of, node_ids, waiting, waiting-pos, targets}

abbrev pub degree_in : Degrees → String → ℕ
degree_in m v = unwrap_or (get v m) 0

abbrev pub has_key : Degrees → String → Bool
has_key m v = is_some (get v m)

pub degree-zero_degrees :
    (m : Degrees) (nodes : List NodeSpec) (v : String)
    → degree_in m v ≡ 0
    → degree_in (zero_degrees m nodes) v ≡ 0
unfolding zero_degrees
degree-zero_degrees m [] v h = h
degree-zero_degrees m (n ∷ ns) v h =
    degree-zero_degrees (insert n.node_id 0 m) ns v (ground (arith, get-insert v n.node_id 0 m))

pub has_key-zero_degrees :
    (m : Degrees) (nodes : List NodeSpec) (v : String)
    → has_key (zero_degrees m nodes) v ≡ (has_key m v || ltb 0 (count_of v (node_ids nodes)))
unfolding zero_degrees count_of node_ids
has_key-zero_degrees m [] v = ground arith
has_key-zero_degrees m (n ∷ ns) v = ground (
  arith,
  has_key-zero_degrees (insert n.node_id 0 m) ns v,
  get-insert v n.node_id 0 m,
  eq_iff n.node_id v,
  eq_iff v n.node_id,
)

-- The degree of a node is the number of edges into it.
pub degree-count_edges :
    (m : Degrees) (es : List WorkflowEdge) (v : String)
    → degree_in (count_edges m es) v ≡ degree_in m v + waiting [] es v
unfolding count_edges waiting count_of
degree-count_edges m [] v = omega arith
degree-count_edges m (e ∷ es) v = ground (
  arith,
  degree-count_edges (upsert e.to_node_id 0 (λ d. d + 1) m) es v,
  get-upsert v e.to_node_id 0 (λ d. d + 1) m,
  eq_iff e.to_node_id v,
  eq_iff v e.to_node_id,
)

pub has_key-count_edges :
    (m : Degrees) (es : List WorkflowEdge) (v : String)
    → has_key (count_edges m es) v ≡ (has_key m v || ltb 0 (waiting [] es v))
unfolding count_edges waiting count_of
has_key-count_edges m [] v = ground arith
has_key-count_edges m (e ∷ es) v = ground (
  arith,
  has_key-count_edges (upsert e.to_node_id 0 (λ d. d + 1) m) es v,
  get-upsert v e.to_node_id 0 (λ d. d + 1) m,
  eq_iff e.to_node_id v,
  eq_iff v e.to_node_id,
)

abbrev pub child_list : Children → String → List String
child_list m u = unwrap_or (get u m) []

child-collect_children :
    (m : Children) (es : List WorkflowEdge) (u : String)
    → child_list (collect_children m es) u ≡ child_list m u ++ targets es u
unfolding collect_children targets
child-collect_children m [] u = sym (append-nil (child_list m u))
child-collect_children m (e ∷ es) u = ground (
  arith,
  child-collect_children (upsert e.from_node_id [] (λ ts. ts ++ e.to_node_id ∷ []) m) es u,
  get-upsert u e.from_node_id [] (λ ts. ts ++ e.to_node_id ∷ []) m,
  eq_iff e.from_node_id u,
  eq_iff u e.from_node_id,
  append_assoc (child_list m u) (e.to_node_id ∷ []) (targets es u),
)

pub children-targets :
    (es : List WorkflowEdge) (u : String) → child_list (children_of es) u ≡ targets es u
unfolding children_of get
children-targets es u = child-collect_children [] es u

pub zero_degrees-IsSorted :
    (m : Degrees) (nodes : List NodeSpec) → IsSorted m → IsSorted (zero_degrees m nodes)
unfolding zero_degrees
zero_degrees-IsSorted m [] s = s
zero_degrees-IsSorted m (n ∷ ns) s =
    zero_degrees-IsSorted (insert n.node_id 0 m) ns (insert-IsSorted n.node_id 0 m s)

count_edges-IsSorted :
    (m : Degrees) (es : List WorkflowEdge) → IsSorted m → IsSorted (count_edges m es)
unfolding count_edges
count_edges-IsSorted m [] s = s
count_edges-IsSorted m (e ∷ es) s =
    count_edges-IsSorted (upsert e.to_node_id 0 (λ d. d + 1) m) es
      (upsert-IsSorted e.to_node_id 0 (λ d. d + 1) m s)

pub degrees-IsSorted :
    (nodes : List NodeSpec) (es : List WorkflowEdge) → IsSorted (degrees nodes es)
unfolding degrees
degrees-IsSorted nodes es =
    count_edges-IsSorted (zero_degrees [] nodes) es (zero_degrees-IsSorted [] nodes tt)

-- With as many keys as nodes the names of the nodes are distinct.
length-zero_degrees :
    (m : Degrees) (nodes : List NodeSpec)
    → IsSorted m
    → length (zero_degrees m nodes) ≤ length m + length nodes
unfolding zero_degrees
length-zero_degrees m [] s = omega arith
length-zero_degrees m (n ∷ ns) s = ground (
  arith,
  length-zero_degrees (insert n.node_id 0 m) ns (insert-IsSorted n.node_id 0 m s),
  length-insert n.node_id 0 m s,
)

ids_distinct :
    (m : Degrees) (nodes : List NodeSpec) (v : String)
    → IsSorted m
    → length m + length nodes ≤ length (zero_degrees m nodes)
    → count_of v (node_ids nodes) + (if has_key m v then 1 else 0) ≤ 1
unfolding zero_degrees count_of node_ids
ids_distinct m [] v s h = ground arith
ids_distinct m (n ∷ ns) v s h = ground (
  arith,
  ids_distinct (insert n.node_id 0 m) ns v (insert-IsSorted n.node_id 0 m s),
  length-zero_degrees (insert n.node_id 0 m) ns (insert-IsSorted n.node_id 0 m s),
  length-insert n.node_id 0 m s,
  get-insert v n.node_id 0 m,
  eq_iff n.node_id v,
  eq_iff v n.node_id,
)

pub degree-degrees :
    (nodes : List NodeSpec) (es : List WorkflowEdge) (v : String)
    → degree_in (degrees nodes es) v ≡ waiting [] es v
unfolding degrees get
degree-degrees nodes es v =
    omega
      (arith, degree-count_edges (zero_degrees [] nodes) es v, degree-zero_degrees [] nodes v refl)

-- Every edge goes from a node to a node.
abbrev pub IsClosed : List NodeSpec → List WorkflowEdge → Type 0
IsClosed nodes edges =
    (e : WorkflowEdge)
    → Memᴰ e edges
    → (1 ≤ count_of e.from_node_id (node_ids nodes)) × (1 ≤ count_of e.to_node_id (node_ids nodes))

length-count_edges :
    (m : Degrees) (es : List WorkflowEdge)
    → IsSorted m
    → ((e : WorkflowEdge) → Memᴰ e es → has_key m e.to_node_id ≡ true)
    → length (count_edges m es) ≡ length m
unfolding count_edges
length-count_edges m [] s h = refl
length-count_edges m (e ∷ es) s h =
    length-count_edges (upsert e.to_node_id 0 (λ d. d + 1) m) es
      (upsert-IsSorted e.to_node_id 0 (λ d. d + 1) m s)
      (λ d i. ground (
        arith,
        get-upsert d.to_node_id e.to_node_id 0 (λ d. d + 1) m,
        h d (Memᴰ.tail i),
        eq_iff d.to_node_id e.to_node_id,
      ))
    ∙ ground (arith, length-upsert e.to_node_id 0 (λ d. d + 1) m s, h e (Memᴰ.head refl))

has_key-nodes :
    (nodes : List NodeSpec) (v : String)
    → has_key (zero_degrees [] nodes) v ≡ ltb 0 (count_of v (node_ids nodes))
unfolding get
has_key-nodes nodes v = has_key-zero_degrees [] nodes v

pub length-degrees :
    (nodes : List NodeSpec) (edges : List WorkflowEdge)
    → IsClosed nodes edges
    → length (degrees nodes edges) ≡ length (zero_degrees [] nodes)
unfolding degrees
length-degrees nodes edges closed =
    length-count_edges (zero_degrees [] nodes) edges (zero_degrees-IsSorted [] nodes tt)
      (λ e m. ground (arith, has_key-nodes nodes e.to_node_id, closed e m))

-- The keys are the names of the nodes.
pub has_key-degrees :
    (nodes : List NodeSpec) (edges : List WorkflowEdge) (v : String)
    → IsClosed nodes edges
    → has_key (degrees nodes edges) v ≡ ltb 0 (count_of v (node_ids nodes))
unfolding degrees
has_key-degrees nodes edges v closed = elim (Bool-cases (ltb 0 (waiting [] edges v))) [
  | inl waits ↦
      let (e, m, t, _) = waiting-pos [] edges v (ground arith) in
      ground (
        arith,
        has_key-count_edges (zero_degrees [] nodes) edges v,
        has_key-nodes nodes v,
        closed e m,
        ap (λ x. count_of x (node_ids nodes)) t,
      )
  | inr free ↦
      ground (arith, has_key-count_edges (zero_degrees [] nodes) edges v, has_key-nodes nodes v)
]

pub length-degrees-le :
    (nodes : List NodeSpec) (edges : List WorkflowEdge)
    → IsClosed nodes edges
    → length (degrees nodes edges) ≤ length nodes
length-degrees-le nodes edges closed =
    omega (arith, length-degrees nodes edges closed, length-zero_degrees [] nodes tt)

pub node_ids_distinct :
    (nodes : List NodeSpec) (edges : List WorkflowEdge) (v : String)
    → IsClosed nodes edges
    → length nodes ≤ length (degrees nodes edges)
    → count_of v (node_ids nodes) ≤ 1
node_ids_distinct nodes edges v closed h =
    omega (arith, ids_distinct [] nodes v tt (omega (arith, length-degrees nodes edges closed)))

-- Distinct names give as many keys as nodes.
length_of_distinct :
    (m : Degrees) (nodes : List NodeSpec)
    → IsSorted m
    → ((v : String) → count_of v (node_ids nodes) + (if has_key m v then 1 else 0) ≤ 1)
    → length (zero_degrees m nodes) ≡ length m + length nodes
unfolding zero_degrees count_of node_ids
length_of_distinct m [] s h = omega arith
length_of_distinct m (n ∷ ns) s h =
    let first = h n.node_id in
    let rest = length_of_distinct (insert n.node_id 0 m) ns (insert-IsSorted n.node_id 0 m s) (λ v.
      ground (arith, h v, get-insert v n.node_id 0 m, eq_iff n.node_id v, eq_iff v n.node_id)) in
    ground (arith, rest, length-insert n.node_id 0 m s, eq_iff n.node_id n.node_id)

pub length-degrees_of_distinct :
    (nodes : List NodeSpec) (edges : List WorkflowEdge)
    → IsClosed nodes edges
    → ((v : String) → count_of v (node_ids nodes) ≤ 1)
    → length (degrees nodes edges) ≡ length nodes
unfolding get
length-degrees_of_distinct nodes edges closed h = omega (
  arith,
  length-degrees nodes edges closed,
  length_of_distinct [] nodes tt (λ v. omega (arith, h v)),
)
