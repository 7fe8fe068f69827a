-- ===== src/Graph/Topology/Counts.antt =====
-- What an order of the nodes is to be: how often a name stands in a list, which of two names comes
-- first, and how many edges into a node have a source that is not done.
use text.Mathlib.Text.{◌==◌}
use sec_fa.Prelude.{
  ℕ, suc, ◌+◌, ◌≤◌, String, ◌≡◌, refl, Bool, true, false, ◌&&◌, List, [], ◌∷◌, ◌++◌, nat_eq, ltb,
  if◌then◌else◌, arith, eq_iff, Memᴰ, Bool-cases, inl, inr, ap,
}
use sec_fa.Graph.{NodeSpec, WorkflowEdge}

-- The number of times that `v` stands in the list.
unfoldable pub count_of : String → List String → ℕ
count_of v [] = 0
count_of v (x ∷ xs) = if x == v then suc (count_of v xs) else count_of v xs

unfoldable pub node_ids : List NodeSpec → List String
node_ids [] = []
node_ids (n ∷ ns) = n.node_id ∷ node_ids ns

-- The number of edges into `v` whose source is not in `done`.
unfoldable pub waiting : List String → List WorkflowEdge → String → ℕ
waiting done [] v = 0
waiting done (e ∷ es) v =
    if e.to_node_id == v && nat_eq (count_of e.from_node_id done) 0
    then suc (waiting done es v)
    else waiting done es v

-- The targets of the edges out of `u`.
unfoldable pub targets : List WorkflowEdge → String → List String
targets [] u = []
targets (e ∷ es) u = if e.from_node_id == u then e.to_node_id ∷ targets es u else targets es u

-- `u` stands in the list, and `v` stands behind its first place and not in front of it.
unfoldable pub before : String → String → List String → Bool
before u v [] = false
before u v (x ∷ xs) =
    if x == u then ltb 0 (count_of v xs) else if x == v then false else before u v xs

pub count_of-append :
    (v : String) (xs ys : List String) → count_of v (xs ++ ys) ≡ count_of v xs + count_of v ys
unfolding count_of
count_of-append v [] ys = omega arith
count_of-append v (x ∷ xs) ys = ground (arith, count_of-append v xs ys)

pub count_of-singleton : (v x : String) → count_of v (x ∷ []) ≡ (if x == v then 1 else 0)
unfolding count_of
count_of-singleton v x = ground arith

-- One more name that is done frees the edges out of it.
pub waiting-append :
    (done : List String) (es : List WorkflowEdge) (u v : String)
    → count_of u done ≡ 0
    → waiting (done ++ u ∷ []) es v + count_of v (targets es u) ≡ waiting done es v
unfolding waiting targets count_of
waiting-append done [] u v h = omega arith
waiting-append done (e ∷ es) u v h = ground (
  arith,
  waiting-append done es u v,
  count_of-append e.from_node_id done (u ∷ []),
  eq_iff u e.from_node_id,
  eq_iff e.from_node_id u,
)

pub waiting-eq-zero :
    (done : List String) (es : List WorkflowEdge) (e : WorkflowEdge)
    → waiting done es e.to_node_id ≡ 0
    → Memᴰ e es
    → 1 ≤ count_of e.from_node_id done
unfolding waiting
waiting-eq-zero done [] e h m = elim m [ ]
waiting-eq-zero done (d ∷ es) e h (Memᴰ.head p) = ground (
  arith,
  eq_iff d.to_node_id e.to_node_id,
  ap (λ (x : WorkflowEdge). x.to_node_id) p,
  ap (λ (x : WorkflowEdge). x.from_node_id) p,
)
waiting-eq-zero done (d ∷ es) e h (Memᴰ.tail m) = ground (arith, waiting-eq-zero done es e)

-- Among the edges that wait there is one.
pub waiting-pos :
    (done : List String) (es : List WorkflowEdge) (v : String)
    → 1 ≤ waiting done es v
    → (e : WorkflowEdge) × Memᴰ e es × (e.to_node_id ≡ v) × (count_of e.from_node_id done ≡ 0)
unfolding waiting
waiting-pos done [] v h = absurd (omega arith)
waiting-pos done (e ∷ es) v h =
    elim (Bool-cases (e.to_node_id == v && nat_eq (count_of e.from_node_id done) 0)) [
      | inl found ↦ (e, Memᴰ.head refl, ground (arith, eq_iff e.to_node_id v), ground arith)
      | inr passed ↦
          let (d, m, t, f) = waiting-pos done es v (ground arith) in (d, Memᴰ.tail m, t, f)
    ]

pub before-append :
    (u v w : String) (xs : List String) → before u v xs ≡ true → before u v (xs ++ w ∷ []) ≡ true
unfolding before
before-append u v w [] h = ground arith
before-append u v w (x ∷ xs) h =
    ground (arith, before-append u v w xs, count_of-append v xs (w ∷ []))

pub before-last :
    (u v : String) (xs : List String)
    → 1 ≤ count_of u xs
    → count_of v xs ≡ 0
    → before u v (xs ++ v ∷ []) ≡ true
unfolding before count_of
before-last u v [] h k = ground arith
before-last u v (x ∷ xs) h k =
    ground (arith, before-last u v xs, count_of-append v xs (v ∷ []), eq_iff v v, eq_iff x v)
