-- ===== src/Invariants/Modes.antt =====
-- The severity of the violations that the checks of cli/src/framework/invariants.rs push.
use sec_fa.Prelude.{
  String, ◌≡◌, refl, Bool, true, false, Option, none, some, List, [], ◌∷◌, ◌++◌, All, All-append,
  arith, if◌then◌else◌,
}
use sec_fa.Serde.{Serde}
use sec_fa.Registry.{Algorithm, ResourceDeclaration, Tables, load_resource}
use sec_fa.Invariants.{
  InvariantViolation, when, pushed, external_write_check, stage_check, resource_check,
  resource_checks, validate_algorithm_mode, authority_checks, validate_class_c_outputs,
  validate_class_a_input_product,
}

abbrev pub IsError : InvariantViolation → Type 0
IsError v = v.severity ≡ "error"

abbrev pub IsErrors : List InvariantViolation → Type 0
IsErrors = All IsError

pub IsErrors-append :
    (vs ws : List InvariantViolation) → IsErrors vs → IsErrors ws → IsErrors (vs ++ ws)
IsErrors-append = All-append IsError

pub IsErrors-when : (b : Bool) (v : InvariantViolation) → IsError v → IsErrors (when b v)
IsErrors-when true v e = (e, tt)
IsErrors-when false v e = tt

pub IsErrors-one : (v : InvariantViolation) → IsError v → IsErrors (v ∷ [])
IsErrors-one v e = (e, tt)

pub IsErrors-none : IsErrors []
IsErrors-none = tt

pub IsErrors-if :
    (b : Bool) (vs ws : List InvariantViolation)
    → IsErrors vs
    → IsErrors ws
    → IsErrors (if b then vs else ws)
IsErrors-if true vs ws h k = h
IsErrors-if false vs ws h k = k

pub ruleset error_rules =
    (IsErrors-append, IsErrors-when, IsErrors-one, IsErrors-none, IsErrors-if, refl)

external_write-IsErrors :
    (a : Algorithm) (mode : String) (b : Bool) → IsErrors (external_write_check a mode b)
unfolding external_write_check
external_write-IsErrors a mode b = search error_rules

stage-IsErrors : (a : Algorithm) (mode : String) → IsErrors (stage_check a mode)
unfolding stage_check
stage-IsErrors a mode = search error_rules

resource-IsErrors :
    (a : Algorithm) (mode id : String) (b : Bool) (r : Option ResourceDeclaration)
    → IsErrors (resource_check a mode id b r)
unfolding resource_check
resource-IsErrors a mode id b none = search error_rules
resource-IsErrors a mode id b (some r) = search error_rules

resources-IsErrors :
    (a : Algorithm) (mode : String) (serde : Serde) (t : Tables) (b : Bool) (ids : List String)
    → IsErrors (resource_checks a mode serde t b ids)
unfolding resource_checks
resources-IsErrors a mode serde t b [] = tt
resources-IsErrors a mode serde t b (id ∷ ids) =
    IsErrors-append (resource_check a mode id b (load_resource serde t id))
      (resource_checks a mode serde t b ids)
      (resource-IsErrors a mode id b (load_resource serde t id))
      (resources-IsErrors a mode serde t b ids)

pub validate_algorithm_mode-IsErrors :
    (serde : Serde) (t : Tables) (a : Algorithm) (mode : String) (b c : Bool)
    → IsErrors (validate_algorithm_mode serde t a mode b c)
unfolding validate_algorithm_mode
validate_algorithm_mode-IsErrors serde t a mode b c =
    search (error_rules, external_write-IsErrors, stage-IsErrors, resources-IsErrors)

authority-IsErrors : (a : Algorithm) (types : List String) → IsErrors (authority_checks a types)
unfolding authority_checks
authority-IsErrors a [] = tt
authority-IsErrors a (t ∷ ts) = let rest = authority-IsErrors a ts in search (error_rules, rest)

pub validate_class_c-IsErrors :
    (a : Algorithm) (types : List String) → IsErrors (validate_class_c_outputs a types)
unfolding validate_class_c_outputs
validate_class_c-IsErrors a types = search (error_rules, authority-IsErrors)

pub validate_class_a-IsErrors :
    (a : Algorithm) (t h : String) → IsErrors (pushed (validate_class_a_input_product a t h))
unfolding validate_class_a_input_product
validate_class_a-IsErrors a t h = ground arith
