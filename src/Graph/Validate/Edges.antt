-- ===== src/Graph/Validate/Edges.antt =====
-- The edges and the index of outputs that the collecting loops build.
use sec_fa.Prelude.{
  ◌≤◌, String, ◌≡◌, refl, ◌⊎◌, inl, inr, true, ◌||◌, ltb, some, List, [], ◌∷◌, All, All-append,
  All-mem, Memᴰ, arith, eq_iff, Bool-cases, Option-cases,
}
use mathlib.Core.List.Memᴰ
use sec_fa.BTreeMap.{BTreeMap, string_ord, pair_ord, pair_eqb_iff, get, insert, contains_key}
use sec_fa.BTreeMap.Laws.{get-insert}
use sec_fa.Graph.{WorkflowSpec, NodeSpec, NodeInputSpec, NodeOutputSpec, WorkflowEdge}
use sec_fa.Graph.Topology.Counts.{count_of, node_ids}
use sec_fa.Graph.Topology.Degrees.{IsClosed}
use sec_fa.Graph.Validate.{edges_of}
use sec_fa.Invariants.Allowed.{append-eq-nil}
use sec_fa.Graph.Validate.Collect.{
  Names, Outputs, collect_nodes, node_outputs, collect_outputs, input_edge, input_edges,
  collect_edges, node_map, output_index,
}

has_key-collect_nodes :
    (m : BTreeMap String NodeSpec) (ns : List NodeSpec) (v : String)
    → contains_key v (collect_nodes m ns).0 ≡ (contains_key v m || ltb 0 (count_of v (node_ids ns)))
unfolding collect_nodes count_of node_ids
has_key-collect_nodes m [] v = ground arith
has_key-collect_nodes m (n ∷ ns) v = ground (
  arith,
  has_key-collect_nodes (insert n.node_id n m) ns v,
  get-insert v n.node_id n m,
  eq_iff n.node_id v,
  eq_iff v n.node_id,
)

-- An edge between nodes of the workflow.
record IsSound (nodes : BTreeMap String NodeSpec) (ids : List String) (e : WorkflowEdge)
    : Type 0 where
  source : contains_key e.from_node_id nodes ≡ true
  target : 1 ≤ count_of e.to_node_id ids

module _ (nodes : BTreeMap String NodeSpec) (outputs : Outputs) (ids : List String) where
  abbrev AllSound : List WorkflowEdge → Type 0
  AllSound = All (IsSound nodes ids)

  input_edges-AllSound :
      (n : NodeSpec) (is : List NodeInputSpec)
      → 1 ≤ count_of n.node_id ids
      → AllSound (input_edges nodes outputs n is).0
  unfolding input_edges input_edge
  input_edges-AllSound n [] h = tt
  input_edges-AllSound n (i ∷ is) h = ground (arith, input_edges-AllSound n is h)

  collect_edges-AllSound :
      (ns : List NodeSpec)
      → ((v : String) → count_of v (node_ids ns) ≤ count_of v ids)
      → AllSound (collect_edges nodes outputs ns).0
  unfolding collect_edges count_of node_ids
  collect_edges-AllSound [] h = tt
  collect_edges-AllSound (n ∷ ns) h =
      All-append (IsSound nodes ids) (input_edges nodes outputs n n.inputs).0
        (collect_edges nodes outputs ns).0
        (input_edges-AllSound n n.inputs (ground (arith, h n.node_id, eq_iff n.node_id n.node_id)))
        (collect_edges-AllSound ns (λ v. ground (arith, h v)))

-- Every edge of a workflow goes from a node to a node.
pub edges_of-IsClosed : (spec : WorkflowSpec) → IsClosed spec.nodes (edges_of spec)
unfolding edges_of node_map get
edges_of-IsClosed spec e m =
    let sound =
      All-mem (IsSound (node_map spec) (node_ids spec.nodes)) (edges_of spec) e
        (collect_edges-AllSound (node_map spec) (output_index spec) (node_ids spec.nodes) spec.nodes
          (λ v. omega arith))
        m in
    (ground (arith, sound.source, has_key-collect_nodes [] spec.nodes e.from_node_id), sound.target)

abbrev pub edge_of : NodeSpec → NodeInputSpec → WorkflowEdge
edge_of n i = record { from_node_id = i.from; to_node_id = n.node_id; product_role = i.role }

module _ (nodes : BTreeMap String NodeSpec) (outputs : Outputs) where
  input_edge_given :
      (n : NodeSpec) (i : NodeInputSpec)
      → (input_edge nodes outputs n i).1 ≡ []
      → (input_edge nodes outputs n i).0 ≡ edge_of n i ∷ []
  unfolding input_edge
  input_edge_given n i h = ground arith

  input_edges_given :
      (n : NodeSpec) (is : List NodeInputSpec) (i : NodeInputSpec)
      → (input_edges nodes outputs n is).1 ≡ []
      → Memᴰ i is
      → Memᴰ (edge_of n i) (input_edges nodes outputs n is).0
  unfolding input_edges
  input_edges_given n [] i h m = elim m [ ]
  input_edges_given n (j ∷ is) i h m =
      let (first, rest) = append-eq-nil (input_edge nodes outputs n j).1 _ h in
      elim (Memᴰ.cases_cons m) [
        | inl same ↦
            Memᴰ.append_left (input_edges nodes outputs n is).0
              (rw (input_edge_given n j first, same) (Memᴰ.head refl))
        | inr later ↦
            Memᴰ.append_right (input_edge nodes outputs n j).0 (input_edges_given n is i rest later)
      ]

  pub collect_edges_given :
      (ns : List NodeSpec) (n : NodeSpec) (i : NodeInputSpec)
      → (collect_edges nodes outputs ns).1 ≡ []
      → Memᴰ n ns
      → Memᴰ i n.inputs
      → Memᴰ (edge_of n i) (collect_edges nodes outputs ns).0
  unfolding collect_edges
  collect_edges_given [] n i h m k = elim m [ ]
  collect_edges_given (o ∷ ns) n i h m k =
      let (first, rest) = append-eq-nil (input_edges nodes outputs o o.inputs).1 _ h in
      elim (Memᴰ.cases_cons m) [
        | inl same ↦
            Memᴰ.append_left (collect_edges nodes outputs ns).0
              (rw same (input_edges_given o o.inputs i first (rw same at k)))
        | inr later ↦
            Memᴰ.append_right (input_edges nodes outputs o o.inputs).0
              (collect_edges_given ns n i rest later k)
      ]

  input_edge_declared :
      (n : NodeSpec) (i : NodeInputSpec)
      → (input_edge nodes outputs n i).1 ≡ []
      → (t : String) × (get (i.from, i.role) outputs ≡ some t)
  unfolding input_edge
  input_edge_declared n i h = elim (Option-cases (get (i.from, i.role) outputs)) [
    | inl e ↦ absurd (ground arith)
    | inr found ↦ found
  ]

  input_edges_declared :
      (n : NodeSpec) (is : List NodeInputSpec) (i : NodeInputSpec)
      → (input_edges nodes outputs n is).1 ≡ []
      → Memᴰ i is
      → (t : String) × (get (i.from, i.role) outputs ≡ some t)
  unfolding input_edges
  input_edges_declared n [] i h m = elim m [ ]
  input_edges_declared n (j ∷ is) i h m =
      let (first, rest) = append-eq-nil (input_edge nodes outputs n j).1 _ h in
      elim (Memᴰ.cases_cons m) [
        | inl same ↦ rw same (input_edge_declared n j first)
        | inr later ↦ input_edges_declared n is i rest later
      ]

  pub collect_edges_declared :
      (ns : List NodeSpec) (n : NodeSpec) (i : NodeInputSpec)
      → (collect_edges nodes outputs ns).1 ≡ []
      → Memᴰ n ns
      → Memᴰ i n.inputs
      → (t : String) × (get (i.from, i.role) outputs ≡ some t)
  unfolding collect_edges
  collect_edges_declared [] n i h m k = elim m [ ]
  collect_edges_declared (o ∷ ns) n i h m k =
      let (first, rest) = append-eq-nil (input_edges nodes outputs o o.inputs).1 _ h in
      elim (Memᴰ.cases_cons m) [
        | inl same ↦ input_edges_declared o o.inputs i first (rw same at k)
        | inr later ↦ collect_edges_declared ns n i rest later k
      ]

-- A node of the list declares an output with a role and a type.
pub record Declares (ns : List NodeSpec) (node_id role product_type : String) : Type 0 where
  pub node : NodeSpec
  pub is_node : Memᴰ node ns
  pub has_id : node.node_id ≡ node_id
  pub output : NodeOutputSpec
  pub is_output : Memᴰ output node.outputs
  pub has_role : output.role ≡ role
  pub has_type : output.product_type ≡ product_type

-- What the index of outputs holds comes from the start or from a declaration.
node_outputs_sound :
    (n : NodeSpec) (roles : Names) (m : Outputs) (os : List NodeOutputSpec) (id role t : String)
    → get (id, role) (node_outputs n roles m os).0 ≡ some t
    → (get (id, role) m ≡ some t)
      ⊎ ((n.node_id ≡ id)
          × (o : NodeOutputSpec) × Memᴰ o os
          × (o.role ≡ role)
          × (o.product_type ≡ t))
unfolding node_outputs
node_outputs_sound n roles m [] id role t h = inl h
node_outputs_sound n roles m (o ∷ os) id role t h =
    let m' = insert (n.node_id, o.role) o.product_type m in
    elim (node_outputs_sound n (insert o.role tt roles) m' os id role t h) [
      | inr (same, p, k, r, y) ↦ inr (same, p, Memᴰ.tail k, r, y)
      | inl found ↦ elim (Bool-cases (pair_ord.eqb (id, role) (n.node_id, o.role))) [
        | inl here ↦ inr (
          ground (arith, pair_eqb_iff (id, role) (n.node_id, o.role)),
          o,
          Memᴰ.head refl,
          ground (arith, pair_eqb_iff (id, role) (n.node_id, o.role)),
          ground (arith, get-insert (id, role) (n.node_id, o.role) o.product_type m),
        )
        | inr other ↦
            inl (ground (arith, get-insert (id, role) (n.node_id, o.role) o.product_type m))
      ]
    ]

collect_outputs_sound :
    (m : Outputs) (ns : List NodeSpec) (id role t : String)
    → get (id, role) (collect_outputs m ns).0 ≡ some t
    → (get (id, role) m ≡ some t) ⊎ Declares ns id role t
unfolding collect_outputs
collect_outputs_sound m [] id role t h = inl h
collect_outputs_sound m (n ∷ ns) id role t h =
    elim (collect_outputs_sound (node_outputs n [] m n.outputs).0 ns id role t h) [
      | inr d ↦ inr (record {
        node = d.node;
        is_node = Memᴰ.tail d.is_node;
        has_id = d.has_id;
        output = d.output;
        is_output = d.is_output;
        has_role = d.has_role;
        has_type = d.has_type;
      })
      | inl found ↦ elim (node_outputs_sound n [] m n.outputs id role t found) [
        | inl old ↦ inl old
        | inr (same, o, k, r, y) ↦ inr (record {
          node = n;
          is_node = Memᴰ.head refl;
          has_id = same;
          output = o;
          is_output = k;
          has_role = r;
          has_type = y;
        })
      ]
    ]

pub output_index_sound :
    (spec : WorkflowSpec) (id role t : String)
    → get (id, role) (output_index spec) ≡ some t
    → Declares spec.nodes id role t
unfolding output_index get
output_index_sound spec id role t h = elim (collect_outputs_sound [] spec.nodes id role t h) [
  | inl none_there ↦ absurd (cc)
  | inr d ↦ d
]
