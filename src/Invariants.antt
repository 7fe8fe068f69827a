-- ===== src/Invariants.antt =====
-- cli/src/framework/invariants.rs: what a mode allows, and the checks of algorithms and products.
pub mod Modes
pub mod Allowed
use mathlib.Core.Option
use text.Mathlib.Text.{◌==◌}
use sec_fa.Prelude.{
  String, Bool, true, false, not, ◌&&◌, ◌||◌, Option, none, some, List, [], ◌∷◌, ◌++◌, any,
  if◌then◌else◌,
}
use sec_fa.Prelude.Text.{format}
use sec_fa.Json.{ℤ, pos, Value, text_object}
use sec_fa.Serde.{Serde}
use sec_fa.Timestamp.{TimeParsers, epoch_second, int_lt}
use sec_fa.Registry.{
  ProductType, Algorithm, ResourceDeclaration, Tables, load_algorithm, load_resource,
  load_product_type,
}

pub record InvariantViolation : Type 0 where
  pub invariant_id : String
  pub subject : Value
  pub severity : String
  pub explanation : String

-- `InvariantViolation::error`
abbrev pub violation : String → Value → List String → InvariantViolation
violation id subject explanation = record {
  invariant_id = id;
  subject = subject;
  severity = "error";
  explanation = format explanation;
}

unfoldable pub is_valid_mode : String → Bool
is_valid_mode mode =
    mode == "halted"
    || mode == "observe"
    || mode == "shadow"
    || mode == "stage"
    || mode == "paper"
    || mode == "live_limited"
    || mode == "live"

unfoldable pub can_stage : String → Bool
can_stage mode = mode == "stage" || mode == "paper" || mode == "live_limited" || mode == "live"

unfoldable pub can_submit : String → Bool
can_submit mode = mode == "paper" || mode == "live_limited" || mode == "live"

unfoldable pub can_use_broker : String → Bool
unfolding can_submit
can_use_broker mode = can_submit mode

unfoldable pub can_run_external_write : String → Bool
unfolding can_submit
can_run_external_write mode = can_submit mode

unfoldable pub authority_product_type : String → Bool
authority_product_type product_type =
    product_type == "order_intent_set.v1"
    || product_type == "risk_decision_set.v1"
    || product_type == "staged_order_set.v1"
    || product_type == "broker_event_set.v1"
    || product_type == "reconciliation_snapshot.v1"

-- `if refused { violations.push(v) }`, as the violations that it adds.
abbrev pub when : Bool → InvariantViolation → List InvariantViolation
when true v = v ∷ []
when false v = []

-- The violations that an optional one adds.
abbrev pub pushed : Option InvariantViolation → List InvariantViolation
pushed none = []
pushed (some v) = v ∷ []

module _ (algorithm : Algorithm) (mode : String) where
  external_write_check : Bool → List InvariantViolation
  unfolding can_run_external_write
  external_write_check allow_external_write =
      when
        (algorithm.purity == "external_write"
          && (not (can_run_external_write mode) || not allow_external_write))
        (violation "NO_EXTERNAL_WRITE_IN_OBSERVE_OR_SHADOW"
          (text_object (("algorithm_id", algorithm.algorithm_id) ∷ ("mode", mode) ∷ []))
          ("algorithm " ∷ algorithm.algorithm_id ∷ " has external_write purity in mode=" ∷ mode
            ∷ []))

  stage_check : List InvariantViolation
  unfolding can_stage
  stage_check = when (algorithm.algorithm_id == "cmd.stage.v1" && not (can_stage mode)) (
      violation "STAGE_MODE"
        (text_object (("algorithm_id", algorithm.algorithm_id) ∷ ("mode", mode) ∷ []))
        ("algorithm " ∷ algorithm.algorithm_id ∷ " cannot stage orders in mode=" ∷ mode ∷ []))

  -- The body of the loop over `algorithm.resources`, after the resource was loaded.
  resource_check : String → Bool → Option ResourceDeclaration → List InvariantViolation
  unfolding can_use_broker
  resource_check resource_id allow_broker_resource none =
      violation "UNKNOWN_RESOURCE"
        (text_object (("algorithm_id", algorithm.algorithm_id) ∷ ("resource_id", resource_id) ∷ []))
        ("algorithm " ∷ algorithm.algorithm_id ∷ " uses unknown resource " ∷ resource_id ∷ [])
      ∷ []
  resource_check resource_id allow_broker_resource (some resource) =
      when (not (any (λ allowed. allowed == mode) resource.allowed_modes)) (
        violation "RESOURCE_MODE"
          (text_object (
            ("algorithm_id", algorithm.algorithm_id)
            ∷ ("resource_id", resource_id)
            ∷ ("mode", mode)
            ∷ []))
          ("resource " ∷ resource_id ∷ " is not allowed in mode=" ∷ mode ∷ []))
      ++ when
          (resource.resource_kind == "broker"
            && (not (can_use_broker mode) || not allow_broker_resource))
          (violation "BROKER_RESOURCE_MODE"
            (text_object (
              ("algorithm_id", algorithm.algorithm_id)
              ∷ ("resource_id", resource_id)
              ∷ ("mode", mode)
              ∷ []))
            ("broker resource " ∷ resource_id ∷ " is not allowed in mode=" ∷ mode ∷ []))

  module _ (serde : Serde) (tables : Tables) (allow_broker_resource : Bool) where
    resource_checks : List String → List InvariantViolation
    unfolding resource_check
    resource_checks [] = []
    resource_checks (resource_id ∷ rest) =
        resource_check resource_id allow_broker_resource (load_resource serde tables resource_id)
        ++ resource_checks rest

unfoldable pub validate_algorithm_mode :
    Serde → Tables → Algorithm → String → Bool → Bool → List InvariantViolation
unfolding external_write_check stage_check resource_checks
validate_algorithm_mode serde tables algorithm mode allow_external_write allow_broker_resource =
    external_write_check algorithm mode allow_external_write
    ++ (stage_check algorithm mode
        ++ resource_checks algorithm mode serde tables allow_broker_resource algorithm.resources)

authority_checks : Algorithm → List String → List InvariantViolation
authority_checks algorithm [] = []
authority_checks algorithm (product_type ∷ rest) =
    when (authority_product_type product_type) (
      violation "CLASS_C_CANNOT_CREATE_AUTHORITY"
        (text_object
          (("algorithm_id", algorithm.algorithm_id) ∷ ("product_type", product_type) ∷ []))
        ("Class C algorithm " ∷ algorithm.algorithm_id ∷ " cannot create authority product "
          ∷ product_type ∷ []))
    ++ authority_checks algorithm rest

unfoldable pub validate_class_c_outputs : Algorithm → List String → List InvariantViolation
unfolding authority_checks
validate_class_c_outputs algorithm output_product_types =
    if algorithm.hazard_class == "C" then authority_checks algorithm output_product_types else []

unfoldable pub validate_class_a_input_product :
    Algorithm → String → String → Option InvariantViolation
validate_class_a_input_product algorithm product_type product_hazard_class =
    if algorithm.hazard_class == "A" && product_hazard_class == "C"
    then some (
        violation "NO_CLASS_A_FROM_CLASS_C"
          (text_object
            (("algorithm_id", algorithm.algorithm_id) ∷ ("product_type", product_type) ∷ []))
          ("Class A algorithm " ∷ algorithm.algorithm_id ∷ " cannot consume Class C product "
            ∷ product_type ∷ []))
    else none

unfoldable pub validate_product_available_for_decision :
    TimeParsers → String → String → String → Option InvariantViolation
validate_product_available_for_decision time product_id available_at decision_as_of =
    let available = epoch_second time available_at in
    let decision = epoch_second time decision_as_of in
    if int_lt (pos 0) available && int_lt (pos 0) decision && int_lt decision available
    then some (
        violation "NO_LOOKAHEAD"
          (text_object (
            ("product_id", product_id)
            ∷ ("available_at", available_at)
            ∷ ("decision_as_of", decision_as_of)
            ∷ []))
          ("product " ∷ product_id ∷ " became available after decision_as_of" ∷ []))
    else none

unfoldable pub hazard_class_for_product_type : Tables → String → Option String
hazard_class_for_product_type tables product_type =
    Option.map (λ p. p.hazard_class) (load_product_type tables product_type)
