-- ===== src/Commands/Trading/Safe.antt =====
-- What holds of the tables of the trading commands of cli/src/main.rs at all times, and the steps
-- that add one row.
pub mod Ensured
pub mod Stages
pub mod Sends
pub mod Gates
pub mod Always
pub mod Guard
use text.Mathlib.Text.{◌==◌}
use sec_fa.Prelude.{
  String, ◌≡◌, Bool, true, false, ◌&&◌, ◌||◌, Option, none, some, List, [], ◌∷◌, any, All, arith,
  eq_iff, subst, sym,
}
use sec_fa.Outcome.{ok}
use sec_fa.Json.{Value}
use sec_fa.Commands.Trading.{
  Ledger, Machine, IntentRow, DecisionRow, StagedRow, BrokerEvent, is_staged, is_submission,
  is_submitted, append_event,
}
use sec_fa.Commands.Trading.Gate.{is_decided}
use sec_fa.Commands.Trading.Keys.{has, Distinct, All-map}

abbrev pub intent_key : IntentRow → String
intent_key i = i.intent_id

abbrev pub decision_key : DecisionRow → String
decision_key d = d.decision_id

abbrev pub decided_intent : DecisionRow → String
decided_intent d = d.intent_id

abbrev pub staged_key : StagedRow → String
staged_key o = o.staged_order_id

abbrev pub staged_decision : StagedRow → String
staged_decision o = o.decision_id

-- The order carries out an approved decision.
abbrev pub carries_out : StagedRow → DecisionRow → Bool
carries_out o d = d.decision_id == o.decision_id && d.intent_id == o.intent_id && d.approved

abbrev pub IsApproved : List DecisionRow → StagedRow → Type 0
IsApproved decisions o = any (carries_out o) decisions ≡ true

-- An order is submitted once.
abbrev pub SubmittedOnce : List BrokerEvent → Type 0
SubmittedOnce [] = Unit {0}
SubmittedOnce (e ∷ es) =
    ((id : String) → is_submission id e ≡ true → any (is_submission id) es ≡ false)
    × SubmittedOnce es

-- What was submitted is a staged order.
abbrev pub IsStagedEvent : List StagedRow → BrokerEvent → Type 0
IsStagedEvent staged e = (id : String) → is_submission id e ≡ true → has staged_key id staged ≡ true

pub record Safe (intents : List IntentRow) (decisions : List DecisionRow) (staged : List StagedRow)
    (events : List BrokerEvent) : Type 0 where
  pub intents_once : Distinct intent_key intents
  pub decisions_once : Distinct decision_key decisions
  pub decided_once : Distinct decided_intent decisions
  pub orders_once : Distinct staged_key staged
  pub staged_once : Distinct staged_decision staged
  pub approved : All (IsApproved decisions) staged
  pub submitted_once : SubmittedOnce events
  pub submitted_staged : All (IsStagedEvent staged) events

abbrev pub SafeLedger : Ledger → Type 0
SafeLedger s = Safe s.order_intents s.risk_decisions s.staged_orders s.broker_events

-- One table at a time.
module _ {intents : List IntentRow} {decisions : List DecisionRow} {staged : List StagedRow}
    {events : List BrokerEvent} (safe : Safe intents decisions staged events) where
  pub intend-Safe :
      (i : IntentRow)
      → has intent_key i.intent_id intents ≡ false
      → Safe (i ∷ intents) decisions staged events
  intend-Safe i h = record {
    intents_once = (h, safe.intents_once);
    decisions_once = safe.decisions_once;
    decided_once = safe.decided_once;
    orders_once = safe.orders_once;
    staged_once = safe.staged_once;
    approved = safe.approved;
    submitted_once = safe.submitted_once;
    submitted_staged = safe.submitted_staged;
  }

  pub decide-Safe :
      (d : DecisionRow)
      → has decision_key d.decision_id decisions ≡ false
      → has decided_intent d.intent_id decisions ≡ false
      → Safe intents (d ∷ decisions) staged events
  decide-Safe d h k = record {
    intents_once = safe.intents_once;
    decisions_once = (h, safe.decisions_once);
    decided_once = (k, safe.decided_once);
    orders_once = safe.orders_once;
    staged_once = safe.staged_once;
    approved =
        All-map (IsApproved decisions) (IsApproved (d ∷ decisions)) staged (λ o e. ground arith)
          safe.approved;
    submitted_once = safe.submitted_once;
    submitted_staged = safe.submitted_staged;
  }

  pub stage-Safe :
      (o : StagedRow)
      → has staged_key o.staged_order_id staged ≡ false
      → has staged_decision o.decision_id staged ≡ false
      → IsApproved decisions o
      → Safe intents decisions (o ∷ staged) events
  stage-Safe o h k a = record {
    intents_once = safe.intents_once;
    decisions_once = safe.decisions_once;
    decided_once = safe.decided_once;
    orders_once = (h, safe.orders_once);
    staged_once = (k, safe.staged_once);
    approved = (a, safe.approved);
    submitted_once = safe.submitted_once;
    submitted_staged =
        All-map (IsStagedEvent staged) (IsStagedEvent (o ∷ staged)) events
          (λ e f id m. let known = f id m in ground arith) safe.submitted_staged;
  }

  pub send-Safe :
      (e : BrokerEvent)
      → ((id : String) → is_submission id e ≡ true → any (is_submission id) events ≡ false)
      → IsStagedEvent staged e
      → Safe intents decisions staged (e ∷ events)
  send-Safe e h k = record {
    intents_once = safe.intents_once;
    decisions_once = safe.decisions_once;
    decided_once = safe.decided_once;
    orders_once = safe.orders_once;
    staged_once = safe.staged_once;
    approved = safe.approved;
    submitted_once = (h, safe.submitted_once);
    submitted_staged = (k, safe.submitted_staged);
  }

  -- The same tables under other names.
  pub Safe-eq :
      {intents' : List IntentRow} {decisions' : List DecisionRow} {staged' : List StagedRow}
      {events' : List BrokerEvent}
      → intents ≡ intents'
      → decisions ≡ decisions'
      → staged ≡ staged'
      → events ≡ events'
      → Safe intents' decisions' staged' events'
  Safe-eq {intents'} {decisions'} {staged'} {events'} e f g h =
      subst (λ (l : List BrokerEvent). Safe intents' decisions' staged' l) h
        (subst (λ (l : List StagedRow). Safe intents' decisions' l events) g
          (subst (λ (l : List DecisionRow). Safe intents' l staged events) f
            (subst (λ (l : List IntentRow). Safe l decisions staged events) e safe)))

-- Tables that only the log of events and the settings tell apart.
pub record Same (s t : Ledger) : Type 0 where
  pub intents : s.order_intents ≡ t.order_intents
  pub decisions : s.risk_decisions ≡ t.risk_decisions
  pub staged : s.staged_orders ≡ t.staged_orders
  pub broker : s.broker_events ≡ t.broker_events

pub Same-Safe : {s t : Ledger} → Same s t → SafeLedger s → SafeLedger t
Same-Safe e safe = Safe-eq safe e.intents e.decisions e.staged e.broker

pub append_event-Same :
    (m : Machine) (event_type : String) (payload : Value) (s t : Ledger) (v : Value)
    → append_event m event_type payload s ≡ ok (v, t)
    → Same s t
unfolding append_event
append_event-Same m event_type payload s t v h = ground arith
