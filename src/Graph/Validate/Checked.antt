-- ===== src/Graph/Validate/Checked.antt =====
-- What it means that the checks of a node push no violation.
use text.Mathlib.Text.{◌==◌}
use sec_fa.Prelude.{
  String, ◌≡◌, refl, inl, inr, true, false, Option, none, some, List, [], ◌∷◌, any, Memᴰ, subst,
  sym, arith, eq_iff, Bool-cases, Option-cases,
}
use mathlib.Core.List.Memᴰ
use sec_fa.Serde.{Serde}
use sec_fa.Registry.{Algorithm, Tables, load_algorithm}
use sec_fa.Invariants.{
  validate_algorithm_mode, validate_class_c_outputs, validate_class_a_input_product,
  hazard_class_for_product_type, pushed, when,
}
use sec_fa.Invariants.Allowed.{append-eq-nil}
use sec_fa.Graph.{WorkflowSpec, NodeSpec, NodeInputSpec, NodeOutputSpec, output_product_types}
use sec_fa.Graph.Validate.Collect.{Names, Outputs}
use sec_fa.Graph.Validate.Contracts.{
  input_type, algorithm_checks, validate_node, validate_nodes, validate_algorithm_contract,
  validate_authority_lineage_shape, output_shapes, output_shape, node_has_input_product_type,
  input_hazards, input_hazard, input_contracts, output_contracts,
}

module _ (serde : Serde) (t : Tables) (spec : WorkflowSpec) (layers : Names)
    (outputs : Outputs) where
  node_found :
      (ns : List NodeSpec) (n : NodeSpec)
      → validate_nodes serde t spec layers outputs ns ≡ []
      → Memᴰ n ns
      → algorithm_checks serde t spec layers outputs n (load_algorithm serde t n.algorithm) ≡ []
  unfolding validate_nodes validate_node
  node_found [] n h m = elim m [ ]
  node_found (o ∷ ns) n h m =
      let (first, rest) = append-eq-nil (validate_node serde t spec layers outputs o) _ h in
      elim (Memᴰ.cases_cons m) [
        | inl same ↦
            subst
              (λ (x : NodeSpec).
                algorithm_checks serde t spec layers outputs x (load_algorithm serde t x.algorithm)
                ≡ [])
              (sym same) (append-eq-nil (when _ _) _ first).1
        | inr later ↦ node_found ns n rest later
      ]

  pub algorithm_known :
      (n : NodeSpec) (o : Option Algorithm)
      → algorithm_checks serde t spec layers outputs n o ≡ []
      → (a : Algorithm) × (o ≡ some a)
  unfolding algorithm_checks
  algorithm_known n none h = absurd (cc)
  algorithm_known n (some a) h = (a, refl)

  -- The parts of the checks of a node whose algorithm is `a`.
  pub record IsChecked (n : NodeSpec) (a : Algorithm) : Type 0 where
    pub inputs : input_contracts n a outputs n.inputs ≡ []
    pub outputs_known : output_contracts n a outputs t n.outputs ≡ []
    pub shape : output_shapes n outputs n.outputs ≡ []
    pub mode :
        validate_algorithm_mode serde t a spec.driver.mode spec.driver.allow_external_write
          spec.driver.allow_broker_resource
        ≡ []
    pub class_c : validate_class_c_outputs a (output_product_types n) ≡ []
    pub class_a : input_hazards serde t a outputs n.inputs ≡ []

  pub IsChecked-of_nil :
      (n : NodeSpec) (a : Algorithm)
      → algorithm_checks serde t spec layers outputs n (some a) ≡ []
      → IsChecked n a
  unfolding algorithm_checks validate_algorithm_contract validate_authority_lineage_shape
  IsChecked-of_nil n a h =
      let (contract, r₁) = append-eq-nil (validate_algorithm_contract n a outputs t) _ h in
      let (h₁, h₂) = append-eq-nil (input_contracts n a outputs n.inputs) _ contract in
      let (h₃, r₂) = append-eq-nil (output_shapes n outputs n.outputs) _ r₁ in
      let (h₄, r₃) =
        append-eq-nil
          (validate_algorithm_mode serde t a spec.driver.mode spec.driver.allow_external_write
            spec.driver.allow_broker_resource)
          _ r₂ in
      let (h₅, h₆) = append-eq-nil (validate_class_c_outputs a (output_product_types n)) _ r₃ in
      record { inputs = h₁; outputs_known = h₂; shape = h₃; mode = h₄; class_c = h₅; class_a = h₆ }

  pub node_algorithm :
      (ns : List NodeSpec) (n : NodeSpec)
      → validate_nodes serde t spec layers outputs ns ≡ []
      → Memᴰ n ns
      → (a : Algorithm) × (load_algorithm serde t n.algorithm ≡ some a) × IsChecked n a
  node_algorithm ns n h m =
      let checks = node_found ns n h m in
      let (a, e) = algorithm_known n (load_algorithm serde t n.algorithm) checks in
      (
        a,
        e,
        IsChecked-of_nil n a
            (subst (λ o. algorithm_checks serde t spec layers outputs n o ≡ []) e checks),
      )

pub shape_found :
    (n : NodeSpec) (outputs : Outputs) (os : List NodeOutputSpec) (o : NodeOutputSpec)
    → output_shapes n outputs os ≡ []
    → Memᴰ o os
    → output_shape n outputs o ≡ []
unfolding output_shapes
shape_found n outputs [] o h m = elim m [ ]
shape_found n outputs (p ∷ os) o h m =
    let (first, rest) = append-eq-nil (output_shape n outputs p) _ h in
    elim (Memᴰ.cases_cons m) [
      | inl same ↦ rw same first
      | inr later ↦ shape_found n outputs os o rest later
    ]

pub staged_shape :
    (n : NodeSpec) (outputs : Outputs) (o : NodeOutputSpec)
    → output_shape n outputs o ≡ []
    → o.product_type ≡ "staged_order_set.v1"
    → node_has_input_product_type n outputs "risk_decision_set.v1" ≡ true
unfolding output_shape
staged_shape n outputs o h e = ground (arith, eq_iff o.product_type "staged_order_set.v1")

pub broker_shape :
    (n : NodeSpec) (outputs : Outputs) (o : NodeOutputSpec)
    → output_shape n outputs o ≡ []
    → o.product_type ≡ "broker_event_set.v1"
    → (node_has_input_product_type n outputs "staged_order_set.v1" ≡ true)
      × (node_has_input_product_type n outputs "reconciliation_snapshot.v1" ≡ true)
unfolding output_shape
broker_shape n outputs o h e =
    let other : (o.product_type == "staged_order_set.v1") ≡ false = rw e refl in
    ground (arith, other, eq_iff o.product_type "broker_event_set.v1")

-- A node with an input of a type has such an input.
any_input :
    (outputs : Outputs) (is : List NodeInputSpec) (type : String)
    → any
        (λ input. elim (input_type outputs input) [
          | none ↦ false
          | some product_type ↦ product_type == type
        ])
        is
      ≡ true
    → (i : NodeInputSpec) × Memᴰ i is × (input_type outputs i ≡ some type)
any_input outputs [] type h = absurd (cc)
any_input outputs (i ∷ is) type h = elim (Option-cases (input_type outputs i)) [
  | inl e ↦ let (j, m, f) = any_input outputs is type (ground arith) in (j, Memᴰ.tail m, f)
  | inr (p, e) ↦ elim (Bool-cases (p == type)) [
    | inl same ↦ (i, Memᴰ.head refl, ground (arith, eq_iff p type))
    | inr other ↦ let (j, m, f) = any_input outputs is type (ground arith) in (j, Memᴰ.tail m, f)
  ]
]

pub input_of_type :
    (n : NodeSpec) (outputs : Outputs) (type : String)
    → node_has_input_product_type n outputs type ≡ true
    → (i : NodeInputSpec) × Memᴰ i n.inputs × (input_type outputs i ≡ some type)
unfolding node_has_input_product_type
input_of_type n outputs type h = any_input outputs n.inputs type h

pub hazard_found :
    (serde : Serde) (t : Tables) (a : Algorithm) (outputs : Outputs) (is : List NodeInputSpec)
    (i : NodeInputSpec) (p hazard : String)
    → input_hazards serde t a outputs is ≡ []
    → Memᴰ i is
    → input_type outputs i ≡ some p
    → hazard_class_for_product_type t p ≡ some hazard
    → pushed (validate_class_a_input_product a p hazard) ≡ []
unfolding input_hazards input_hazard
hazard_found serde t a outputs [] i p hazard h m e f = elim m [ ]
hazard_found serde t a outputs (j ∷ is) i p hazard h m e f =
    let (first, rest) = append-eq-nil (input_hazard serde t a outputs j) _ h in
    elim (Memᴰ.cases_cons m) [
      | inl same ↦ hazard_at j (rw same at e) f first
      | inr later ↦ hazard_found serde t a outputs is i p hazard rest later e f
    ]
  where
    hazard_at :
        (k : NodeInputSpec)
        → input_type outputs k ≡ some p
        → hazard_class_for_product_type t p ≡ some hazard
        → input_hazard serde t a outputs k ≡ []
        → pushed (validate_class_a_input_product a p hazard) ≡ []
    hazard_at k u w z = rw (u, w, input_hazard) at z
