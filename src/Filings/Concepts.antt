-- ===== src/Filings/Concepts.antt =====
-- The concepts that filings/src/lib.rs turns into canonical observations.
use text.Mathlib.Text.{◌==◌}
use sec_fa.Prelude.{
  ◌≡◌, subst, inl, inr, any, not, arith, true, Bool-cases, ℕ, String, Bool, false, ◌||◌, Option,
  none, some, List, [], ◌∷◌, nat_eq, if◌then◌else◌,
}
use sec_fa.Prelude.Text.{format}

pub record CanonicalConcept : Type 0 where
  pub metric_id : ℕ
  pub basis_id : ℕ
  pub priority : ℕ
  pub unit : String

-- An arm of a match on a text, and the first that has it.
abbrev pub Arm : Type 0
Arm = String × CanonicalConcept

abbrev arm : String → ℕ → ℕ → ℕ → String → Arm
arm name metric basis order measure = (
  format ("us-gaap:" ∷ name ∷ []),
  record { metric_id = metric; basis_id = basis; priority = order; unit = measure },
)

abbrev pub first_arm : String → List Arm → Option CanonicalConcept
first_arm key [] = none
first_arm key ((name, concept) ∷ arms) = if key == name then some concept else first_arm key arms

abbrev pub arms : List Arm
arms =
    arm "RevenueFromContractWithCustomerExcludingAssessedTax" 1 101 1 "USD"
    ∷ arm "RevenueFromContractWithCustomerIncludingAssessedTax" 1 102 2 "USD"
    ∷ arm "SalesRevenueNet" 1 103 3 "USD"
    ∷ arm "Revenues" 1 104 4 "USD"
    ∷ arm "NetIncomeLoss" 2 201 1 "USD"
    ∷ arm "ProfitLoss" 2 201 2 "USD"
    ∷ arm "EarningsPerShareDiluted" 3 301 1 "USD/shares"
    ∷ arm "WeightedAverageNumberOfDilutedSharesOutstanding" 4 401 1 "shares"
    ∷ arm "NetCashProvidedByUsedInOperatingActivities" 5 501 1 "USD"
    ∷ arm "PaymentsToAcquirePropertyPlantAndEquipment" 6 601 1 "USD"
    ∷ arm "CashAndCashEquivalentsAtCarryingValue" 7 701 1 "USD"
    ∷ arm "CashCashEquivalentsRestrictedCashAndRestrictedCashEquivalents" 7 701 2 "USD"
    ∷ arm "LongTermDebtAndFinanceLeaseObligationsCurrent" 8 801 1 "USD"
    ∷ arm "LongTermDebtCurrent" 8 801 2 "USD"
    ∷ arm "LongTermDebtNoncurrent" 8 801 3 "USD"
    ∷ arm "GrossProfit" 9 901 1 "USD"
    ∷ arm "OperatingIncomeLoss" 10 1001 1 "USD"
    ∷ arm "ResearchAndDevelopmentExpense" 11 1101 1 "USD"
    ∷ arm "ShareBasedCompensation" 12 1201 1 "USD"
    ∷ arm "AllocatedShareBasedCompensationExpense" 12 1202 2 "USD"
    ∷ arm "InterestExpenseNonoperating" 13 1301 1 "USD"
    ∷ arm "InterestExpense" 13 1302 2 "USD"
    ∷ arm "InterestExpenseDebt" 13 1303 3 "USD"
    ∷ arm "PaymentsForRepurchaseOfCommonStock" 14 1401 1 "USD"
    ∷ arm "StockRepurchasedAndRetiredDuringPeriodValue" 14 1402 2 "USD"
    ∷ arm "StockRepurchasedDuringPeriodValue" 14 1403 3 "USD"
    ∷ []

unfoldable pub concept_candidate : String → Option CanonicalConcept
concept_candidate key = first_arm key arms

first_arm-any :
    (p : CanonicalConcept → Bool) (rows : List Arm) (key : String) (c : CanonicalConcept)
    → any (λ a. not (p (a.1))) rows ≡ false
    → first_arm key rows ≡ some c
    → p c ≡ true
first_arm-any p [] key c h e = absurd (cc)
first_arm-any p ((name, concept) ∷ rows) key c h e = elim (Bool-cases (key == name)) [
  | inl k ↦
      let same : concept ≡ c = (let f = rw k at e in cc) in
      subst (λ c. p c ≡ true) same (ground (arith, h))
  | inr k ↦ first_arm-any p rows key c (ground (arith, h)) (rw k at e)
]

-- What no arm lacks, a concept that is found has.
pub concept_candidate-any :
    (p : CanonicalConcept → Bool) (key : String) (c : CanonicalConcept)
    → any (λ a. not (p (a.1))) arms ≡ false
    → concept_candidate key ≡ some c
    → p c ≡ true
unfolding concept_candidate
concept_candidate-any p key c h e = first_arm-any p arms key c h e

abbrev nth_name : ℕ → List (ℕ × String) → String
nth_name id [] = "unknown"
nth_name id ((n, name) ∷ names) = if nat_eq id n then name else nth_name id names

unfoldable pub metric_name : ℕ → String
metric_name id = nth_name id (
    (1, "revenue")
    ∷ (2, "net_income")
    ∷ (3, "eps_diluted")
    ∷ (4, "diluted_shares")
    ∷ (5, "operating_cash_flow")
    ∷ (6, "capex")
    ∷ (7, "cash")
    ∷ (8, "debt")
    ∷ (9, "gross_profit")
    ∷ (10, "operating_income")
    ∷ (11, "research_and_development")
    ∷ (12, "stock_based_compensation")
    ∷ (13, "interest_expense")
    ∷ (14, "buybacks")
    ∷ [])

abbrev one_of : ℕ → List ℕ → Bool
one_of id [] = false
one_of id (n ∷ ns) = nat_eq id n || one_of id ns

unfoldable pub metric_kind : ℕ → String
metric_kind id =
    if one_of id (1 ∷ 2 ∷ 4 ∷ 5 ∷ 6 ∷ 9 ∷ 10 ∷ 11 ∷ 12 ∷ 13 ∷ 14 ∷ [])
    then "flow"
    else if nat_eq id 3
    then "per_share_flow"
    else if nat_eq id 7 || nat_eq id 8
    then "instant"
    else "unknown"
