-- ===== src/Commands/Trading/Safe/Sends.antt =====
-- op_send of cli/src/main.rs keeps the tables safe.
use text.Mathlib.Text.{◌==◌}
use sec_fa.Prelude.{
  String, ◌≡◌, refl, ap, sym, ◌∙◌, subst, true, false, some, List, [], ◌∷◌, any, All, arith, eq_iff,
  Bool-cases, inl, inr,
}
use sec_fa.Outcome.{ok, >>=-eq-ok, ok-injective, ◌>>◌}
use sec_fa.Json.{ℤ, Value, object}
use sec_fa.Commands.Trading.{
  Ledger, Machine, StagedRow, BrokerEvent, staged_before, is_submission, is_submitted, send_rows,
  send_one, send_all, op_send, send_orders, send_checks, limited, setting, submission,
}
use sec_fa.Commands.Trading.Keys.{
  has, Distinct, has-insert_by, insert_by-Distinct, limited-Distinct, All-insert_by, All-limited,
  All-map,
}
use sec_fa.Commands.Trading.Safe.Ensured.{ensured-Safe}
use sec_fa.Commands.Trading.Safe.{SafeLedger, append_event-Same, Safe-eq, send-Safe, staged_key}
use sec_fa.Commands.Trading.Safe.Stages.{or_rollback-Safe}

-- A row that op_send may submit.
abbrev pub IsUnsent : List StagedRow → List BrokerEvent → StagedRow → Type 0
IsUnsent staged events o =
    (is_submitted events o ≡ false) × (has staged_key o.staged_order_id staged ≡ true)

module _ (events : List BrokerEvent) where
  has-send_rows :
      (k : String) (os : List StagedRow)
      → has staged_key k os ≡ false
      → has staged_key k (send_rows events os) ≡ false
  unfolding send_rows
  has-send_rows k [] h = refl
  has-send_rows k (o ∷ os) h =
      let below = has-send_rows k os (ground arith) in
      elim (Bool-cases (is_submitted events o)) [
        | inl t ↦ rw t below
        | inr t ↦
            rw t (has-insert_by staged_key staged_before k o (send_rows events os) ∙ ground arith)
      ]

  send_rows-Distinct :
      (os : List StagedRow) → Distinct staged_key os → Distinct staged_key (send_rows events os)
  unfolding send_rows
  send_rows-Distinct [] h = tt
  send_rows-Distinct (o ∷ os) h =
      let below = send_rows-Distinct os h.1 in
      elim (Bool-cases (is_submitted events o)) [
        | inl t ↦ rw t below
        | inr t ↦ rw t (
            insert_by-Distinct staged_key staged_before o (send_rows events os)
              (has-send_rows o.staged_order_id os h.0) below)
      ]

  send_rows-Unsent : (os : List StagedRow) → All (IsUnsent os events) (send_rows events os)
  unfolding send_rows
  send_rows-Unsent [] = tt
  send_rows-Unsent (o ∷ os) =
      let below =
        All-map (IsUnsent os events) (IsUnsent (o ∷ os) events) (send_rows events os)
          (λ x u. ground arith) (send_rows-Unsent os) in
      elim (Bool-cases (is_submitted events o)) [
        | inl t ↦ rw t below
        | inr t ↦ rw t (
            All-insert_by (IsUnsent (o ∷ os) events) staged_before o (send_rows events os)
              (t, ground (arith, eq_iff o.staged_order_id o.staged_order_id)) below)
      ]

-- What one turn of the loop does.
record Turn (s t : Ledger) (o : StagedRow) : Type 0 where
  event : BrokerEvent
  submits : (id : String) → is_submission id event ≡ (o.staged_order_id == id)
  intents : s.order_intents ≡ t.order_intents
  decisions : s.risk_decisions ≡ t.risk_decisions
  staged : s.staged_orders ≡ t.staged_orders
  broker : event ∷ s.broker_events ≡ t.broker_events

send_one-Turn :
    (m : Machine) (mode : String) (o : StagedRow) (s t : Ledger) (v : Value)
    → send_one m mode o s ≡ ok (v, t)
    → Turn s t o
unfolding send_one
send_one-Turn m mode o s t v h =
    elim (Bool-cases
      (any (λ (e : BrokerEvent). e.broker_event_id == m.uuid s.ids) s.broker_events)) [
        | inl e ↦ absurd (ground arith)
        | inr e ↦
            let same = append_event-Same m _ _ _ t v (rw e at h) in
            record {
              event = record {
                broker_event_id = m.uuid s.ids;
                staged_order_id = some o.staged_order_id;
                event_type = "mock_order_submitted";
                payload_json = m.json_text (object (submission m mode o));
                occurred_at = m.clock s.ticks;
              };
              submits = λ id. refl;
              intents = same.intents;
              decisions = same.decisions;
              staged = same.staged;
              broker = same.broker;
            }
      ]

module _ {s t : Ledger} {o : StagedRow} (turn : Turn s t o) where
  Turn-Safe : SafeLedger s → IsUnsent s.staged_orders s.broker_events o → SafeLedger t
  Turn-Safe safe unsent =
      Safe-eq
        (send-Safe safe turn.event
          (λ id e.
            let same : o.staged_order_id ≡ id =
              (eq_iff o.staged_order_id id).0 (sym (turn.submits id) ∙ e) in
            subst (λ k. any (is_submission k) s.broker_events ≡ false) same unsent.0)
          (λ id e.
            let same : o.staged_order_id ≡ id =
              (eq_iff o.staged_order_id id).0 (sym (turn.submits id) ∙ e) in
            subst (λ k. has staged_key k s.staged_orders ≡ true) same unsent.1))
        turn.intents turn.decisions turn.staged turn.broker

  -- The other rows stay unsent.
  Turn-Unsent :
      (os : List StagedRow)
      → has staged_key o.staged_order_id os ≡ false
      → All (IsUnsent s.staged_orders s.broker_events) os
      → All (IsUnsent t.staged_orders t.broker_events) os
  Turn-Unsent [] h u = tt
  Turn-Unsent (x ∷ os) h u =
      let still : is_submitted (turn.event ∷ s.broker_events) x ≡ false = ground (
        arith,
        turn.submits x.staged_order_id,
        eq_iff o.staged_order_id x.staged_order_id,
        eq_iff x.staged_order_id o.staged_order_id,
      ) in
      (
        (
          subst (λ (l : List BrokerEvent). is_submitted l x ≡ false) turn.broker still,
          subst (λ (l : List StagedRow). has staged_key x.staged_order_id l ≡ true) turn.staged
              u.0.1,
        ),
        Turn-Unsent os (ground arith) u.1,
      )

send_all-Safe :
    (m : Machine) (mode : String) (os : List StagedRow) (s t : Ledger) (vs : List Value)
    → Distinct staged_key os
    → All (IsUnsent s.staged_orders s.broker_events) os
    → SafeLedger s
    → send_all m mode os s ≡ ok (vs, t)
    → SafeLedger t
unfolding send_all
send_all-Safe m mode [] s t vs d u safe h =
    let same : s ≡ t = ap (λ (r : List Value × Ledger). r.1) (ok-injective h) in
    subst SafeLedger same safe
send_all-Safe m mode (o ∷ os) s t vs d u safe h =
    let ((v, mid), e, k) = >>=-eq-ok (send_one m mode o s) _ h in
    let ((ws, last), f, l) = >>=-eq-ok (send_all m mode os mid) _ k in
    let turn = send_one-Turn m mode o s mid v e in
    let same : last ≡ t = ap (λ (r : List Value × Ledger). r.1) (ok-injective l) in
    subst SafeLedger same (
      send_all-Safe m mode os mid last ws d.1 (Turn-Unsent turn os d.0 u.1)
        (Turn-Safe turn safe u.0) f)

send_orders-Safe :
    (m : Machine) (limit max_age_s : ℤ) (s : Ledger)
    → SafeLedger s
    → SafeLedger (send_orders m limit max_age_s s).1
unfolding send_orders
send_orders-Safe m limit max_age_s s safe =
    let rows = send_rows s.broker_events s.staged_orders in
    let sending = send_all m (setting s "trading_mode") (limited limit rows) s in
    or_rollback-Safe s (send_checks m max_age_s s >> sending) safe (λ vs t h.
      let (_, _, k) = >>=-eq-ok (send_checks m max_age_s s) (λ _. sending) h in
      send_all-Safe m (setting s "trading_mode") (limited limit rows) s t vs
        (limited-Distinct staged_key limit rows
          (send_rows-Distinct s.broker_events s.staged_orders safe.orders_once))
        (All-limited (IsUnsent s.staged_orders s.broker_events) limit rows
          (send_rows-Unsent s.broker_events s.staged_orders))
        safe k)

pub op_send-Safe :
    (m : Machine) (adapter : String) (limit max_age_s : ℤ) (s : Ledger)
    → SafeLedger s
    → SafeLedger (op_send m adapter limit max_age_s s).1
unfolding op_send
op_send-Safe m adapter limit max_age_s s safe = elim (Bool-cases (adapter == "mock")) [
  | inl e ↦ rw e (
      ensured-Safe m (send_orders m limit max_age_s) s safe
        (λ t. send_orders-Safe m limit max_age_s t))
  | inr e ↦ rw e safe
]
