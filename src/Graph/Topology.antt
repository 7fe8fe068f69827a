-- ===== src/Graph/Topology.antt =====
-- `topological_order` of cli/src/framework/graph.rs; the proofs are in the modules below.
pub mod Counts
pub mod Degrees
mod Release
mod Loop
pub mod Correct
use text.Mathlib.Text.{◌==◌}
use sec_fa.Prelude.{
  ℕ, zero, suc, ◌+◌, ◌-◌, String, Bool, true, false, Option, none, some, List, [], ◌∷◌, ◌++◌,
  length, nat_eq, unwrap_or, if◌then◌else◌,
}
use sec_fa.BTreeMap.{BTreeMap, string_ord, get, insert, modify, upsert}
use sec_fa.Outcome
use sec_fa.Json.{object, end}
use sec_fa.Invariants.{InvariantViolation, violation}
use sec_fa.Graph.{NodeSpec, WorkflowEdge}

-- `std::result::Result<Vec<String>, InvariantViolation>`
pub data Order : Type 0 where
  ok : List String → Order
  err : InvariantViolation → Order

abbrev pub Degrees : Type 0
Degrees = BTreeMap String ℕ

abbrev pub Children : Type 0
Children = BTreeMap String (List String)

-- The loop over the nodes: every node has degree 0.
unfoldable pub zero_degrees : Degrees → List NodeSpec → Degrees
zero_degrees deg [] = deg
zero_degrees deg (node ∷ rest) = zero_degrees (insert node.node_id 0 deg) rest

-- The loop over the edges counts them by target, and lists the targets by source.
unfoldable pub count_edges : Degrees → List WorkflowEdge → Degrees
count_edges deg [] = deg
count_edges deg (edge ∷ rest) = count_edges (upsert edge.to_node_id 0 (λ d. d + 1) deg) rest

unfoldable pub collect_children : Children → List WorkflowEdge → Children
collect_children children [] = children
collect_children children (edge ∷ rest) =
    collect_children
      (upsert edge.from_node_id [] (λ targets. targets ++ edge.to_node_id ∷ []) children) rest

-- The keys of degree 0, in order.
unfoldable pub roots : Degrees → List String
roots [] = []
roots ((node_id, degree) ∷ rest) = if nat_eq degree 0 then node_id ∷ roots rest else roots rest

pub record State : Type 0 where
  pub indegree : Degrees
  pub queue : List String
  pub order : List String

-- The body of the loop over the children of a node.
unfoldable pub release : State → String → State
release s child = elim (get child s.indegree) [
  | none ↦ s
  | some degree ↦
      let left = degree - 1 in
      let indegree = modify child (λ _. left) s.indegree in
      if nat_eq left 0
      then record s { indegree = indegree; queue = s.queue ++ child ∷ [] }
      else record s { indegree = indegree }
]

unfoldable pub release_all : State → List String → State
release_all s [] = s
release_all s (child ∷ rest) = release_all (release s child) rest

-- One round of the `while` loop, for the node that left the queue.
unfoldable pub visit : Children → State → String → List String → State
visit children s node_id rest =
    release_all (record s { queue = rest; order = s.order ++ node_id ∷ [] })
      (unwrap_or (get node_id children) [])

-- The `while` loop, with fuel; `none` means that the fuel ran out.
unfoldable pub drain : Children → ℕ → State → Option (List String)
drain children zero s = elim s.queue [ [] ↦ some s.order | _ ∷ _ ↦ none ]
drain children (suc fuel) s = elim s.queue [
  | [] ↦ some s.order
  | node_id ∷ rest ↦ drain children fuel (visit children s node_id rest)
]

abbrev pub cyclic : InvariantViolation
cyclic =
    violation "GRAPH_MUST_BE_ACYCLIC" (object end) ("workflow graph contains a directed cycle" ∷ [])

unfoldable pub degrees : List NodeSpec → List WorkflowEdge → Degrees
degrees nodes edges = count_edges (zero_degrees [] nodes) edges

unfoldable pub children_of : List WorkflowEdge → Children
children_of edges = collect_children [] edges

unfoldable pub start : Degrees → State
start deg = record { indegree = deg; queue = roots deg; order = [] }

-- One round for each key of the degrees is enough.
unfoldable pub drained : List NodeSpec → List WorkflowEdge → Option (List String)
drained nodes edges =
    let deg = degrees nodes edges in drain (children_of edges) (length deg) (start deg)

unfoldable pub topological_order : List NodeSpec → List WorkflowEdge → Order
topological_order nodes edges = elim (drained nodes edges) [
  | none ↦ err cyclic
  | some order ↦ if nat_eq (length order) (length nodes) then ok order else err cyclic
]
