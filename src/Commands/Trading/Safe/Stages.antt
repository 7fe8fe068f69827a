-- ===== src/Commands/Trading/Safe/Stages.antt =====
-- op_stage of cli/src/main.rs keeps the tables safe.
use text.Mathlib.Text.{◌==◌}
use sec_fa.Prelude.{
  String, ◌≡◌, refl, ap, sym, ◌∙◌, subst, Bool, true, false, ◌&&◌, Option, List, [], ◌∷◌, any, All,
  arith, eq_iff, Bool-cases, Option-cases, inl, inr,
}
use sec_fa.Outcome.{Result, ok, err, >>=-eq-ok, ok-injective}
use sec_fa.Json.{ℤ, Value}
use sec_fa.Commands.Trading.{
  Ledger, Machine, IntentRow, DecisionRow, StagedRow, StageRow, created_before, is_staged,
  intent_of, stageable, stage_rows, stage_one, stage_all, op_stage, stage_orders, limited,
  or_rollback, may_stage, setting,
}
use sec_fa.Commands.Trading.Keys.{
  has, Distinct, has-insert_by, insert_by-Distinct, limited-Distinct, All-insert_by, All-limited,
  All-map,
}
use sec_fa.Commands.Trading.Safe.Ensured.{ensured-Safe}
use sec_fa.Commands.Trading.Safe.{
  SafeLedger, append_event-Same, Safe-eq, stage-Safe, decision_key, staged_key, staged_decision,
}

abbrev row_key : StageRow → String
row_key r = r.decision.decision_id

-- The decision of a row is one of the table, and approved.
abbrev stands_for : StageRow → DecisionRow → Bool
stands_for r d =
    d.decision_id == r.decision.decision_id && d.intent_id == r.decision.intent_id && d.approved

-- A row that op_stage may insert.
abbrev IsOpen : List DecisionRow → List StagedRow → StageRow → Type 0
IsOpen decisions staged r =
    (is_staged staged r.decision ≡ false) × (any (stands_for r) decisions ≡ true)

module _ (run_id : Option String) (intents : List IntentRow) (staged : List StagedRow) where
  has-stage_rows :
      (k : String) (ds : List DecisionRow)
      → has decision_key k ds ≡ false
      → has row_key k (stage_rows run_id intents staged ds) ≡ false
  unfolding stage_rows
  has-stage_rows k [] h = refl
  has-stage_rows k (d ∷ ds) h =
      let rest = stage_rows run_id intents staged ds in
      let below = has-stage_rows k ds (ground arith) in
      elim (Option-cases (intent_of intents d)) [
        | inl e ↦ rw e below
        | inr (i, e) ↦ rw e (elim (Bool-cases (stageable run_id staged d i)) [
          | inl t ↦ rw t (
              has-insert_by row_key created_before k (record { decision = d; side = i.side }) rest
              ∙ ground arith)
          | inr t ↦ rw t below
        ])
      ]

  stage_rows-Distinct :
      (ds : List DecisionRow)
      → Distinct decision_key ds
      → Distinct row_key (stage_rows run_id intents staged ds)
  unfolding stage_rows
  stage_rows-Distinct [] h = tt
  stage_rows-Distinct (d ∷ ds) h =
      let rest = stage_rows run_id intents staged ds in
      let below = stage_rows-Distinct ds h.1 in
      elim (Option-cases (intent_of intents d)) [
        | inl e ↦ rw e below
        | inr (i, e) ↦ rw e (elim (Bool-cases (stageable run_id staged d i)) [
          | inl t ↦ rw t (
              insert_by-Distinct row_key created_before (record { decision = d; side = i.side })
                rest (has-stage_rows d.decision_id ds h.0) below)
          | inr t ↦ rw t below
        ])
      ]

  stage_rows-Open :
      (ds : List DecisionRow) → All (IsOpen ds staged) (stage_rows run_id intents staged ds)
  unfolding stage_rows
  stage_rows-Open [] = tt
  stage_rows-Open (d ∷ ds) =
      let rest = stage_rows run_id intents staged ds in
      let below =
        All-map (IsOpen ds staged) (IsOpen (d ∷ ds) staged) rest (λ r o. ground arith)
          (stage_rows-Open ds) in
      elim (Option-cases (intent_of intents d)) [
        | inl e ↦ rw e below
        | inr (i, e) ↦ rw e (elim (Bool-cases (stageable run_id staged d i)) [
          | inl t ↦ rw t (
              All-insert_by (IsOpen (d ∷ ds) staged) created_before
                (record { decision = d; side = i.side }) rest
                (ground (arith, eq_iff d.decision_id d.decision_id, eq_iff d.intent_id d.intent_id))
                below)
          | inr t ↦ rw t below
        ])
      ]

-- What one turn of the loop does.
record Turn (s t : Ledger) (r : StageRow) : Type 0 where
  order : StagedRow
  free : has staged_key order.staged_order_id s.staged_orders ≡ false
  decision : order.decision_id ≡ r.decision.decision_id
  intent : order.intent_id ≡ r.decision.intent_id
  intents : s.order_intents ≡ t.order_intents
  decisions : s.risk_decisions ≡ t.risk_decisions
  staged : order ∷ s.staged_orders ≡ t.staged_orders
  broker : s.broker_events ≡ t.broker_events

stage_one-Turn :
    (m : Machine) (r : StageRow) (s t : Ledger) (v : Value)
    → stage_one m r s ≡ ok (v, t)
    → Turn s t r
unfolding stage_one
stage_one-Turn m r s t v h = elim (Bool-cases (has staged_key (m.uuid s.ids) s.staged_orders)) [
  | inl e ↦ absurd (ground arith)
  | inr e ↦
      let same = append_event-Same m _ _ _ t v (rw e at h) in
      record {
        order = record {
          staged_order_id = m.uuid s.ids;
          decision_id = r.decision.decision_id;
          intent_id = r.decision.intent_id;
          security_id = r.decision.security_id;
          side = r.side;
          notional_usd = r.decision.notional_usd;
          staged_at = m.clock s.ticks;
        };
        free = e;
        decision = refl;
        intent = refl;
        intents = same.intents;
        decisions = same.decisions;
        staged = same.staged;
        broker = same.broker;
      }
]

module _ {s t : Ledger} {r : StageRow} (turn : Turn s t r) where
  Turn-Safe : SafeLedger s → IsOpen s.risk_decisions s.staged_orders r → SafeLedger t
  Turn-Safe safe open_ =
      let free : has staged_decision turn.order.decision_id s.staged_orders ≡ false =
        subst (λ k. has staged_decision k s.staged_orders ≡ false) (sym turn.decision) open_.0 in
      let approved =
        subst
          (λ k.
            any
              (λ (d : DecisionRow).
                d.decision_id == k && d.intent_id == turn.order.intent_id && d.approved)
              s.risk_decisions
            ≡ true)
          (sym turn.decision)
          (subst
            (λ k.
              any
                (λ (d : DecisionRow).
                  d.decision_id == r.decision.decision_id && d.intent_id == k && d.approved)
                s.risk_decisions
              ≡ true)
            (sym turn.intent) open_.1) in
      Safe-eq (stage-Safe safe turn.order turn.free free approved) turn.intents turn.decisions
        turn.staged turn.broker

  -- The other rows stay open.
  Turn-Open :
      (rows : List StageRow)
      → has row_key r.decision.decision_id rows ≡ false
      → All (IsOpen s.risk_decisions s.staged_orders) rows
      → All (IsOpen t.risk_decisions t.staged_orders) rows
  Turn-Open [] h o = tt
  Turn-Open (x ∷ rows) h o =
      let other : (turn.order.decision_id == x.decision.decision_id) ≡ false =
        subst (λ k. (k == x.decision.decision_id) ≡ false) (sym turn.decision)
          (ground (
            arith,
            eq_iff r.decision.decision_id x.decision.decision_id,
            eq_iff x.decision.decision_id r.decision.decision_id,
          )) in
      let still : is_staged (turn.order ∷ s.staged_orders) x.decision ≡ false = ground arith in
      (
        (
          subst (λ (l : List StagedRow). is_staged l x.decision ≡ false) turn.staged still,
          subst (λ (l : List DecisionRow). any (stands_for x) l ≡ true) turn.decisions o.0.1,
        ),
        Turn-Open rows (ground arith) o.1,
      )

stage_all-Safe :
    (m : Machine) (rows : List StageRow) (s t : Ledger) (vs : List Value)
    → Distinct row_key rows
    → All (IsOpen s.risk_decisions s.staged_orders) rows
    → SafeLedger s
    → stage_all m rows s ≡ ok (vs, t)
    → SafeLedger t
unfolding stage_all
stage_all-Safe m [] s t vs d o safe h =
    let same : s ≡ t = ap (λ (r : List Value × Ledger). r.1) (ok-injective h) in
    subst SafeLedger same safe
stage_all-Safe m (r ∷ rows) s t vs d o safe h =
    let ((v, mid), e, k) = >>=-eq-ok (stage_one m r s) _ h in
    let ((ws, last), f, l) = >>=-eq-ok (stage_all m rows mid) _ k in
    let turn = stage_one-Turn m r s mid v e in
    let same : last ≡ t = ap (λ (r : List Value × Ledger). r.1) (ok-injective l) in
    subst SafeLedger same (
      stage_all-Safe m rows mid last ws d.1 (Turn-Open turn rows d.0 o.1) (Turn-Safe turn safe o.0)
        f)

-- A command of which the transaction's result is safe.
pub or_rollback-Safe :
    {A : Type 0} (s : Ledger) (r : Result (A × Ledger))
    → SafeLedger s
    → ((a : A) (t : Ledger) → r ≡ ok (a, t) → SafeLedger t)
    → SafeLedger (or_rollback s r).1
or_rollback-Safe s (ok (a, t)) safe h = h a t refl
or_rollback-Safe s (err text) safe h = safe

stage_orders-Safe :
    (m : Machine) (run_id : Option String) (limit : ℤ) (s : Ledger)
    → SafeLedger s
    → SafeLedger (stage_orders m run_id limit s).1
unfolding stage_orders
stage_orders-Safe m run_id limit s safe = elim (Bool-cases (may_stage (setting s "trading_mode"))) [
  | inl e ↦ rw e (
      or_rollback-Safe s
        (stage_all m
          (limited limit (stage_rows run_id s.order_intents s.staged_orders s.risk_decisions)) s)
        safe
        (λ vs t h.
          let rows = stage_rows run_id s.order_intents s.staged_orders s.risk_decisions in
          stage_all-Safe m (limited limit rows) s t vs
            (limited-Distinct row_key limit rows (
              stage_rows-Distinct run_id s.order_intents s.staged_orders s.risk_decisions
                safe.decisions_once))
            (All-limited (IsOpen s.risk_decisions s.staged_orders) limit rows
              (stage_rows-Open run_id s.order_intents s.staged_orders s.risk_decisions))
            safe h))
  | inr e ↦ rw e safe
]

pub op_stage-Safe :
    (m : Machine) (run_id : Option String) (limit : ℤ) (s : Ledger)
    → SafeLedger s
    → SafeLedger (op_stage m run_id limit s).1
unfolding op_stage
op_stage-Safe m run_id limit s safe =
    ensured-Safe m (stage_orders m run_id limit) s safe (λ t. stage_orders-Safe m run_id limit t)
