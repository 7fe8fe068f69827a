-- ===== src/Graph/Validate/Accepted.antt =====
-- What holds of an accepted workflow: the parts of `violations_of` are empty one by one.
use sec_fa.Prelude.{
  ap, eq_iff, ◌≡◌, refl, Bool, true, false, none, some, List, [], ◌∷◌, any, is_some, arith,
  Bool-cases, inl, inr, if◌then◌else◌,
}
use sec_fa.Serde.{Serde}
use sec_fa.Registry.{Tables}
use sec_fa.Invariants.{InvariantViolation}
use sec_fa.Invariants.Modes.{IsErrors}
use sec_fa.Invariants.Allowed.{append-eq-nil}
use sec_fa.Graph.{WorkflowSpec, ParsedWorkflow, ValidatedWorkflow}
use sec_fa.Graph.Topology
use sec_fa.Graph.Topology.{topological_order}
use sec_fa.Graph.Validate.{
  header_checks, order_of, edges_of, violations_of, validate_workflow, is_error, event_of,
  order_or_none,
}
use sec_fa.Graph.Validate.Errors.{violations_of-IsErrors}
use sec_fa.Graph.Validate.Collect.{
  collect_layers, collect_nodes, collect_outputs, validate_layer_references, collect_edges,
  layer_set, node_map, output_index,
}
use sec_fa.Graph.Validate.Contracts.{validate_nodes}

any-is_error : (vs : List InvariantViolation) → IsErrors vs → any is_error vs ≡ false → vs ≡ []
any-is_error [] e h = refl
any-is_error (v ∷ vs) e h = absurd (ground (arith, eq_iff v.severity "error"))

ordered : (o : Topology.Order) → (order_or_none o).1 ≡ [] → o ≡ Topology.ok (order_or_none o).0
ordered (Topology.ok order) h = refl
ordered (Topology.err v) h = absurd (cc)

abbrev pub is_nil {ℓ} : {A : Type ℓ} → List A → Bool
is_nil [] = true
is_nil (x ∷ xs) = false

errors_decide :
    {A : Type 0} (a : A) (vs : List InvariantViolation)
    → IsErrors vs
    → (is_some (if any is_error vs then none else some a) ≡ is_nil vs)
      × (event_of (any is_error vs)
          ≡ (if is_nil vs then "workflow_validated" else "workflow_rejected"))
errors_decide a [] e = (refl, refl)
errors_decide a (v ∷ vs) e = ground (arith, eq_iff v.severity "error")

ordered_edges :
    (spec : WorkflowSpec)
    → (order_of spec).1 ≡ []
    → topological_order spec.nodes (edges_of spec) ≡ Topology.ok (order_of spec).0
unfolding order_of
ordered_edges spec h = ordered (topological_order spec.nodes (edges_of spec)) h

-- The parts of `violations_of`, each without a violation.
pub record IsClean (serde : Serde) (tables : Tables) (spec : WorkflowSpec) : Type 0 where
  pub header : header_checks serde spec ≡ []
  pub layers : (collect_layers [] spec.layers).1 ≡ []
  pub nodes : (collect_nodes [] spec.nodes).1 ≡ []
  pub outputs : (collect_outputs [] spec.nodes).1 ≡ []
  pub references : validate_layer_references (layer_set spec) spec.layers ≡ []
  pub edges : (collect_edges (node_map spec) (output_index spec) spec.nodes).1 ≡ []
  pub order : (order_of spec).1 ≡ []
  pub contracts :
      validate_nodes serde tables spec (layer_set spec) (output_index spec) spec.nodes ≡ []

module _ (serde : Serde) (tables : Tables) where
  pub IsClean-of_nil :
      (spec : WorkflowSpec) → violations_of serde tables spec ≡ [] → IsClean serde tables spec
  unfolding violations_of
  IsClean-of_nil spec h =
      let (h₁, r₁) = append-eq-nil _ _ h in
      let (h₂, r₂) = append-eq-nil _ _ r₁ in
      let (h₃, r₃) = append-eq-nil _ _ r₂ in
      let (h₄, r₄) = append-eq-nil _ _ r₃ in
      let (h₅, r₅) = append-eq-nil _ _ r₄ in
      let (h₆, r₆) = append-eq-nil _ _ r₅ in
      let (h₇, h₈) = append-eq-nil _ _ r₆ in
      record {
        header = h₁;
        layers = h₂;
        nodes = h₃;
        outputs = h₄;
        references = h₅;
        edges = h₆;
        order = h₇;
        contracts = h₈;
      }

  pub accepted :
      (parsed : ParsedWorkflow) (v : ValidatedWorkflow)
      → (validate_workflow serde tables parsed).1 ≡ some v
      → IsClean serde tables parsed.spec
        × (v.parsed ≡ parsed)
        × (v.edges ≡ edges_of parsed.spec)
        × (topological_order parsed.spec.nodes v.edges ≡ Topology.ok v.order)
  unfolding validate_workflow
  accepted parsed v h = elim (Bool-cases (any is_error (violations_of serde tables parsed.spec))) [
    | inl rejected ↦ absurd (ground arith)
    | inr passed ↦
        let none_found =
          any-is_error (violations_of serde tables parsed.spec)
            (violations_of-IsErrors serde tables parsed.spec) passed in
        let clean = IsClean-of_nil parsed.spec none_found in
        let same : v ≡ record {
          parsed = parsed;
          order = (order_of parsed.spec).0;
          edges = edges_of parsed.spec;
        } =
          ground arith in
        (
          clean,
          ap (λ (w : ValidatedWorkflow). w.parsed) same,
          ap (λ (w : ValidatedWorkflow). w.edges) same,
          rw same (ordered_edges parsed.spec clean.order),
        )
  ]

-- `validate_workflow` accepts a workflow exactly if its report lists no violation, and the event
-- of the report says which of the two it is.
pub validate_workflow_decides :
    (serde : Serde) (tables : Tables) (parsed : ParsedWorkflow)
    → (is_some (validate_workflow serde tables parsed).1
        ≡ is_nil (validate_workflow serde tables parsed).0.violations)
      × ((validate_workflow serde tables parsed).0.event ≡ (
          if is_nil (validate_workflow serde tables parsed).0.violations
          then "workflow_validated"
          else "workflow_rejected"))
unfolding validate_workflow
validate_workflow_decides serde tables parsed =
    errors_decide _ (violations_of serde tables parsed.spec)
      (violations_of-IsErrors serde tables parsed.spec)
