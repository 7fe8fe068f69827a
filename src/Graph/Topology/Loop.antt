-- ===== src/Graph/Topology/Loop.antt =====
-- The `while` loop of `topological_order` of cli/src/framework/graph.rs and its invariant.
use sec_fa.Prelude.{
  ℕ, zero, suc, ◌+◌, ◌≤◌, String, ◌≡◌, refl, ap, ◌∙◌, true, some, List, [], ◌∷◌, ◌++◌, length,
  length-append, ltb, arith, eq_iff, Memᴰ, List-cases, Bool-cases, inl, inr,
}
use sec_fa.BTreeMap.{string_ord, get}
use sec_fa.BTreeMap.Laws.{IsSorted}
use sec_fa.Graph.{WorkflowEdge}
use sec_fa.Graph.Topology.{State, visit, drain, children_of}
use sec_fa.Graph.Topology.Degrees.{has_key, children-targets}
use sec_fa.Graph.Topology.Counts.{
  count_of, count_of-append, count_of-singleton, waiting, waiting-append, waiting-eq-zero, targets,
  before, before-append, before-last,
}
use sec_fa.Graph.Topology.Release.{
  positives, ready, occurs, degree_of, work, AllReleased, release_all-AllReleased,
}

module _ (edges : List WorkflowEdge) where
  pub record Inv (s : State) : Type 0 where
    -- A key stands in the order or the queue exactly if its degree is 0, and then once.
    pub place : (v : String) → occurs s v ≡ ready (get v s.indegree)
    -- The degree counts the edges whose source is not in the order.
    pub degree : (v : String) → degree_of s v ≡ waiting s.order edges v
    pub forward :
        (e : WorkflowEdge)
        → Memᴰ e edges
        → 1 ≤ count_of e.to_node_id s.order
        → before e.from_node_id e.to_node_id s.order ≡ true

  -- A node at the head of the queue is new, and no edge into it waits.
  head-of-queue :
      (s : State) (u : String) (rest : List String)
      → s.queue ≡ u ∷ rest
      → Inv s
      → (count_of u s.order ≡ 0) × (waiting s.order edges u ≡ 0)
  unfolding count_of
  head-of-queue s u rest e h = ground (arith, h.place u, h.degree u, eq_iff u u)

  abbrev pub popped : State → String → List String → State
  popped s u rest = record s { queue = rest; order = s.order ++ u ∷ [] }

  enough :
      (s : State) (u v : String) (rest : List String)
      → s.queue ≡ u ∷ rest
      → Inv s
      → waiting (s.order ++ u ∷ []) edges v + count_of v (targets edges u) ≡ degree_of s v
  enough s u v rest e h =
      omega (arith, waiting-append s.order edges u v (head-of-queue s u rest e h).0, h.degree v)

  pub visit-AllReleased :
      (s : State) (u : String) (rest : List String)
      → s.queue ≡ u ∷ rest
      → Inv s
      → AllReleased (popped s u rest) (visit (children_of edges) s u rest) (targets edges u)
  unfolding visit
  visit-AllReleased s u rest e h = rw (children-targets edges u) (
      release_all-AllReleased (popped s u rest) (targets edges u)
        (λ v. omega (arith, enough s u v rest e h)))

  forward_popped :
      (s : State) (u : String) (rest : List String)
      → s.queue ≡ u ∷ rest
      → Inv s
      → (e : WorkflowEdge) → Memᴰ e edges
      → 1 ≤ count_of e.to_node_id (s.order ++ u ∷ [])
      → before e.from_node_id e.to_node_id (s.order ++ u ∷ []) ≡ true
  forward_popped s u rest q h e m c = elim (Bool-cases (ltb 0 (count_of e.to_node_id s.order))) [
    | inl old ↦ before-append e.from_node_id e.to_node_id u s.order (h.forward e m (ground arith))
    | inr new ↦
        let (fresh, free) = head-of-queue s u rest q h in
        let same : u ≡ e.to_node_id = ground (
          arith,
          count_of-append e.to_node_id s.order (u ∷ []),
          count_of-singleton e.to_node_id u,
          eq_iff u e.to_node_id,
        ) in
        rw (← same) (
          before-last e.from_node_id u s.order (waiting-eq-zero s.order edges e (rw same at free) m)
            fresh)
  ]

  pub visit-Inv :
      (s : State) (u : String) (rest : List String)
      → s.queue ≡ u ∷ rest
      → Inv s
      → Inv (visit (children_of edges) s u rest)
  unfolding count_of
  visit-Inv s u rest e h =
      let r = visit-AllReleased s u rest e h in
      record {
        place = λ v. r.place v (ground (arith, h.place v, count_of-append v s.order (u ∷ [])));
        degree = λ v. rw r.order (omega (arith, r.degree v, enough s u v rest e h));
        forward = λ d m c. rw r.order (forward_popped s u rest e h d m (rw r.order at c));
      }

  -- The loop ends within as many rounds as there is work, and its invariant holds at the end.
  pub record Ends (s : State) (t : State) : Type 0 where
    pub inv : Inv t
    pub empty : t.queue ≡ []
    pub key : (v : String) → has_key t.indegree v ≡ has_key s.indegree v
    pub size : length t.indegree ≡ length s.indegree
    pub sorted : IsSorted s.indegree → IsSorted t.indegree
    pub work : length t.order + positives t.indegree ≡ length s.order + work s

  ended : (s : State) → s.queue ≡ [] → Inv s → Ends s s
  ended s e h = record {
    inv = h;
    empty = e;
    key = λ v. refl;
    size = refl;
    sorted = λ p. p;
    work = omega (arith, ap length e);
  }

  continued :
      (s : State) (u : String) (rest : List String) (t : State)
      → s.queue ≡ u ∷ rest
      → Inv s
      → Ends (visit (children_of edges) s u rest) t
      → Ends s t
  continued s u rest t e h ends =
      let r = visit-AllReleased s u rest e h in
      record {
        inv = ends.inv;
        empty = ends.empty;
        key = λ v. ends.key v ∙ r.key v;
        size = ends.size ∙ r.size;
        sorted = λ p. ends.sorted (r.sorted p);
        work = omega (
          arith,
          ends.work,
          r.work,
          ap length r.order,
          ap length e,
          length-append s.order (u ∷ []),
        );
      }

  pub drain-Ends :
      (fuel : ℕ) (s : State)
      → work s ≤ fuel
      → Inv s
      → (t : State) × (drain (children_of edges) fuel s ≡ some t.order) × Ends s t
  unfolding drain
  drain-Ends zero s w h = elim (List-cases s.queue) [
    | inl e ↦ (s, rw (e, drain), ended s e h)
    | inr (u, rest, e) ↦ absurd (omega (arith, ap length e))
  ]
  drain-Ends (suc fuel) s w h = elim (List-cases s.queue) [
    | inl e ↦ (s, rw (e, drain), ended s e h)
    | inr (u, rest, e) ↦
        let r = visit-AllReleased s u rest e h in
        let next = visit (children_of edges) s u rest in
        let (t, runs, ends) =
          drain-Ends fuel next (omega (arith, r.work, ap length e)) (visit-Inv s u rest e h) in
        (t, rw (e, drain) runs, continued s u rest t e h ends)
  ]
