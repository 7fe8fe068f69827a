-- ===== src/Commands/Trading/Safe/Gates.antt =====
-- op_gate of cli/src/main.rs keeps the tables safe.
use sec_fa.Prelude.{
  ◌≤◌, String, ◌≡◌, refl, ap, sym, ◌∙◌, subst, false, not, ◌&&◌, Option, List, [], ◌∷◌, All, arith,
  eq_iff, Bool-cases, inl, inr, length,
}
use sec_fa.Outcome.{Result, ok, ◌>>=◌, >>=-eq-ok, ok-injective}
use sec_fa.Commands.Trading.{
  Ledger, Machine, IntentRow, DecisionRow, RiskDecision, is_one, in_run, append_event,
}
use sec_fa.Commands.Trading.Gate.{
  is_decided, made_before, load_pending_intents, decide, decide_all, op_gate, gate_orders,
  gate_payload,
}
use sec_fa.Commands.Trading.Keys.{has, Distinct, has-insert_by, insert_by-Distinct, All-insert_by}
use sec_fa.Commands.Trading.Safe.Ensured.{ensured-Safe}
use sec_fa.Commands.Trading.Safe.{
  SafeLedger, Same-Safe, append_event-Same, decide-Safe, intent_key, decision_key, decided_intent,
}
use sec_fa.Commands.Trading.Safe.Stages.{or_rollback-Safe}

abbrev IsPending : List DecisionRow → IntentRow → Type 0
IsPending decisions i = is_decided decisions i ≡ false

module _ (run_id : Option String) (decisions : List DecisionRow) where
  has-load_pending_intents :
      (k : String) (is : List IntentRow)
      → has intent_key k is ≡ false
      → has intent_key k (load_pending_intents run_id decisions is) ≡ false
  unfolding load_pending_intents
  has-load_pending_intents k [] h = refl
  has-load_pending_intents k (i ∷ is) h =
      let below = has-load_pending_intents k is (ground arith) in
      elim (Bool-cases (not (is_decided decisions i) && in_run run_id i.run_id)) [
        | inl t ↦ rw t (
            has-insert_by intent_key made_before k i (load_pending_intents run_id decisions is)
            ∙ ground arith)
        | inr t ↦ rw t below
      ]

  load_pending_intents-Distinct :
      (is : List IntentRow)
      → Distinct intent_key is
      → Distinct intent_key (load_pending_intents run_id decisions is)
  unfolding load_pending_intents
  load_pending_intents-Distinct [] h = tt
  load_pending_intents-Distinct (i ∷ is) h =
      let below = load_pending_intents-Distinct is h.1 in
      elim (Bool-cases (not (is_decided decisions i) && in_run run_id i.run_id)) [
        | inl t ↦ rw t (
            insert_by-Distinct intent_key made_before i (load_pending_intents run_id decisions is)
              (has-load_pending_intents i.intent_id is h.0) below)
        | inr t ↦ rw t below
      ]

  load_pending_intents-IsPending :
      (is : List IntentRow) → All (IsPending decisions) (load_pending_intents run_id decisions is)
  unfolding load_pending_intents
  load_pending_intents-IsPending [] = tt
  load_pending_intents-IsPending (i ∷ is) =
      let below = load_pending_intents-IsPending is in
      elim (Bool-cases (not (is_decided decisions i) && in_run run_id i.run_id)) [
        | inl t ↦ rw t (
            All-insert_by (IsPending decisions) made_before i
              (load_pending_intents run_id decisions is) (ground arith) below)
        | inr t ↦ rw t below
      ]

-- What one decision does.
decide-Turn :
    (m : Machine) (d : RiskDecision) (intent_id : String) (s t : Ledger)
    → decide m d intent_id s ≡ ok t
    → (row : DecisionRow) × (row.intent_id ≡ intent_id)
      × (row ∷ s.risk_decisions ≡ t.risk_decisions)
      × (SafeLedger s → has decided_intent intent_id s.risk_decisions ≡ false → SafeLedger t)
unfolding decide
decide-Turn m d intent_id s t h =
    elim (Bool-cases (has decision_key (m.uuid s.ids) s.risk_decisions)) [
      | inl e ↦ absurd (ground arith)
      | inr e ↦
          let row : DecisionRow = record {
            decision_id = m.uuid s.ids;
            intent_id = intent_id;
            security_id = d.security_id;
            approved = is_one d.decision;
            reason = d.reason;
            notional_usd = d.notional_usd;
            created_at = m.clock s.ticks;
          } in
          let same = ok-injective (rw e at h) in
          (
            row,
            refl,
            ap (λ (l : Ledger). l.risk_decisions) same,
            λ safe free. subst SafeLedger same (decide-Safe safe row e free),
          )
    ]

-- The other intents stay without a decision.
still-IsPending :
    (row : DecisionRow) (decisions : List DecisionRow) (is : List IntentRow)
    → has intent_key row.intent_id is ≡ false
    → All (IsPending decisions) is
    → All (IsPending (row ∷ decisions)) is
still-IsPending row decisions [] h p = tt
still-IsPending row decisions (i ∷ is) h p = (
  ground (arith, eq_iff row.intent_id i.intent_id, eq_iff i.intent_id row.intent_id),
  still-IsPending row decisions is (ground arith) p.1,
)

decide_all-Safe :
    (m : Machine) (ds : List RiskDecision) (is : List IntentRow) (s t : Ledger)
    → length ds ≤ length is
    → Distinct intent_key is
    → All (IsPending s.risk_decisions) is
    → SafeLedger s
    → decide_all m ds is s ≡ ok t
    → SafeLedger t
unfolding decide_all
decide_all-Safe m [] is s t n d p safe h = subst SafeLedger (ok-injective h) safe
decide_all-Safe m (x ∷ ds) [] s t n d p safe h = absurd (omega arith)
decide_all-Safe m (x ∷ ds) (i ∷ is) s t n d p safe h =
    let (mid, e, k) = >>=-eq-ok (decide m x i.intent_id s) _ h in
    let (row, intent, decisions, keeps) = decide-Turn m x i.intent_id s mid e in
    let apart : has intent_key row.intent_id is ≡ false =
      subst (λ q. has intent_key q is ≡ false) (sym intent) d.0 in
    decide_all-Safe m ds is mid t (omega arith) d.1
      (subst (λ (l : List DecisionRow). All (IsPending l) is) decisions
        (still-IsPending row s.risk_decisions is apart p.1))
      (keeps safe p.0) k

-- The engine decides on no more intents than it is given.
abbrev pub DecidesGiven : (List IntentRow → Result (List RiskDecision × String)) → Type 0
DecidesGiven check_risk =
    (is : List IntentRow) (ds : List RiskDecision) (diagnostics : String)
    → check_risk is ≡ ok (ds, diagnostics)
    → length ds ≤ length is

gate_orders-Safe :
    (m : Machine) (check_risk : List IntentRow → Result (List RiskDecision × String))
    (run_id : Option String) (s : Ledger)
    → DecidesGiven check_risk
    → SafeLedger s
    → SafeLedger (gate_orders m check_risk run_id s).1
unfolding gate_orders
gate_orders-Safe m check_risk run_id s given safe =
    let intents = load_pending_intents run_id s.risk_decisions s.order_intents in
    or_rollback-Safe s
      (check_risk intents >>= λ out. decide_all m out.0 intents s >>= λ t.
        append_event m "gate_completed" (gate_payload out.0 out.1) t)
      safe
      (λ v t h.
        let ((ds, diagnostics), e, k) = >>=-eq-ok (check_risk intents) _ h in
        let (mid, f, l) = >>=-eq-ok (decide_all m ds intents s) _ k in
        Same-Safe (append_event-Same m "gate_completed" (gate_payload ds diagnostics) mid t v l) (
          decide_all-Safe m ds intents s mid (given intents ds diagnostics e)
            (load_pending_intents-Distinct run_id s.risk_decisions s.order_intents
              safe.intents_once)
            (load_pending_intents-IsPending run_id s.risk_decisions s.order_intents) safe f))

pub op_gate-Safe :
    (m : Machine) (check_risk : List IntentRow → Result (List RiskDecision × String))
    (run_id : Option String) (s : Ledger)
    → DecidesGiven check_risk
    → SafeLedger s
    → SafeLedger (op_gate m check_risk run_id s).1
unfolding op_gate
op_gate-Safe m check_risk run_id s given safe =
    ensured-Safe m (gate_orders m check_risk run_id) s safe
      (λ t. gate_orders-Safe m check_risk run_id t given)
