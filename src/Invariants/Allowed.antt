-- ===== src/Invariants/Allowed.antt =====
-- What it means that a check of an algorithm pushes no violation.
use text.Mathlib.Text.{◌==◌}
use sec_fa.Prelude.{
  String, ◌≡◌, ◌≢◌, subst, refl, inl, inr, Bool, true, false, not, ◌&&◌, ◌||◌, some, List, [], ◌∷◌,
  ◌++◌, any, Memᴰ, arith, eq_iff, Option-cases,
}
use mathlib.Core.List.Memᴰ
use sec_fa.Serde.{Serde}
use sec_fa.Registry.{Algorithm, ResourceDeclaration, Tables, load_resource}
use sec_fa.Invariants.{
  InvariantViolation, when, pushed, can_stage, can_submit, authority_product_type,
  external_write_check, stage_check, resource_check, resource_checks, validate_algorithm_mode,
  authority_checks, validate_class_c_outputs, validate_class_a_input_product,
}

pub append-eq-nil {ℓ} : {A : Type ℓ} (xs ys : List A) → xs ++ ys ≡ [] → (xs ≡ []) × (ys ≡ [])
append-eq-nil [] ys h = (refl, h)
append-eq-nil (x ∷ xs) ys h = absurd (cc)

pub when-eq-nil : (b : Bool) (v : InvariantViolation) → when b v ≡ [] → b ≡ false
when-eq-nil true v h = cc
when-eq-nil false v h = refl

module _ (serde : Serde) (t : Tables) (a : Algorithm) (mode : String) (write broker : Bool)
    (clean : validate_algorithm_mode serde t a mode write broker ≡ []) where
  parts :
      (external_write_check a mode write ≡ [])
      × (stage_check a mode ≡ [])
      × (resource_checks a mode serde t broker a.resources ≡ [])
  unfolding validate_algorithm_mode
  parts =
      let (first, rest) = append-eq-nil (external_write_check a mode write) _ clean in
      let (second, third) = append-eq-nil (stage_check a mode) _ rest in (first, second, third)

  pub external_write_allowed :
      a.purity ≡ "external_write" → (can_submit mode ≡ true) × (write ≡ true)
  unfolding external_write_check
  external_write_allowed h =
      ground (arith, when-eq-nil _ _ parts.0, eq_iff a.purity "external_write")

  pub stage_allowed : a.algorithm_id ≡ "cmd.stage.v1" → can_stage mode ≡ true
  unfolding stage_check
  stage_allowed h = ground (arith, when-eq-nil _ _ parts.1, eq_iff a.algorithm_id "cmd.stage.v1")

resource_found :
    (serde : Serde) (t : Tables) (a : Algorithm) (mode : String) (broker : Bool) (ids : List String)
    (id : String)
    → resource_checks a mode serde t broker ids ≡ []
    → Memᴰ id ids
    → resource_check a mode id broker (load_resource serde t id) ≡ []
unfolding resource_checks
resource_found serde t a mode broker [] id h m = elim m [ ]
resource_found serde t a mode broker (i ∷ ids) id h m =
    let (first, rest) =
      append-eq-nil (resource_check a mode i broker (load_resource serde t i)) _ h in
    elim (Memᴰ.cases_cons m) [
      | inl same ↦ rw same first
      | inr later ↦ resource_found serde t a mode broker ids id rest later
    ]

resource_allowed :
    (a : Algorithm) (mode id : String) (broker : Bool) (r : ResourceDeclaration)
    → resource_check a mode id broker (some r) ≡ []
    → (any (λ allowed. allowed == mode) r.allowed_modes ≡ true)
      × ((r.resource_kind == "broker" && (not (can_submit mode) || not broker)) ≡ false)
unfolding resource_check
resource_allowed a mode id broker r h = ground arith

module _ (serde : Serde) (t : Tables) (a : Algorithm) (mode : String) (write broker : Bool)
    (clean : validate_algorithm_mode serde t a mode write broker ≡ []) (id : String)
    (used : Memᴰ id a.resources) where
  check_passed : resource_check a mode id broker (load_resource serde t id) ≡ []
  check_passed =
      resource_found serde t a mode broker a.resources id
        (parts serde t a mode write broker clean).2 used

  pub resource_known : (r : ResourceDeclaration) × (load_resource serde t id ≡ some r)
  unfolding resource_check
  resource_known = elim (Option-cases (load_resource serde t id)) [
    | inl e ↦ absurd (ground (arith, check_passed))
    | inr found ↦ found
  ]

  pub resource_mode :
      (r : ResourceDeclaration)
      → load_resource serde t id ≡ some r
      → (any (λ allowed. allowed == mode) r.allowed_modes ≡ true)
        × ((r.resource_kind == "broker" && (not (can_submit mode) || not broker)) ≡ false)
  resource_mode r e =
      resource_allowed a mode id broker r
        (subst (λ o. resource_check a mode id broker o ≡ []) e check_passed)

-- No class C algorithm declares an output of an authority type.
authority_free :
    (a : Algorithm) (types : List String) (type : String)
    → authority_checks a types ≡ []
    → Memᴰ type types
    → authority_product_type type ≡ false
unfolding authority_checks
authority_free a [] type h m = elim m [ ]
authority_free a (u ∷ us) type h m = elim (Memᴰ.cases_cons m) [
  | inl same ↦ rw same (ground arith)
  | inr later ↦ authority_free a us type (ground arith) later
]

pub class_c_outputs :
    (a : Algorithm) (types : List String) (type : String)
    → validate_class_c_outputs a types ≡ []
    → a.hazard_class ≡ "C"
    → Memᴰ type types
    → authority_product_type type ≡ false
unfolding validate_class_c_outputs
class_c_outputs a types type h c m =
    authority_free a types type (ground (arith, eq_iff a.hazard_class "C")) m

pub class_a_input :
    (a : Algorithm) (type hazard : String)
    → pushed (validate_class_a_input_product a type hazard) ≡ []
    → a.hazard_class ≡ "A"
    → hazard ≢ "C"
unfolding validate_class_a_input_product
class_a_input a type hazard h c e = ground (arith, eq_iff a.hazard_class "A", eq_iff hazard "C")
