-- ===== src/Commands/Trading/Safe/Always.antt =====
-- The trading commands of cli/src/main.rs in any order.
use sec_fa.Prelude.{String, ◌≡◌, sym, subst, Bool, false, Option, List, [], ◌∷◌}
use sec_fa.Outcome.{Result}
use sec_fa.Json.{ℤ, Value}
use sec_fa.Graph.Parser.Tokens.{Float}
use sec_fa.Commands.Trading.{
  Ledger, Machine, IntentRow, RiskDecision, append_event, op_set_mode, op_recon, op_stage, op_send,
  with_mode, with_state,
}
use sec_fa.Commands.Trading.Gate.{op_gate}
use sec_fa.Commands.Trading.Keys.{has}
use sec_fa.Commands.Trading.Safe.{
  Safe, SafeLedger, Safe-eq, Same-Safe, append_event-Same, intend-Safe, intent_key,
}
use sec_fa.Commands.Trading.Safe.Ensured.{ensured-Safe}
use sec_fa.Commands.Trading.Safe.Stages.{or_rollback-Safe, op_stage-Safe}
use sec_fa.Commands.Trading.Safe.Sends.{op_send-Safe}
use sec_fa.Commands.Trading.Safe.Gates.{op_gate-Safe, DecidesGiven}

abbrev pub with_intent : IntentRow → Ledger → Ledger
with_intent i s = record s { order_intents = i ∷ s.order_intents }

-- A command, whether it succeeds or fails. `intended` is the insertion of a new intent, as op_plan
-- makes it, whose id is a key.
pub data Step (m : Machine) : Ledger → Ledger → Type 0 where
  mode_set :
      {s t : Ledger} (mode event_type : String) (payload : Value)
      → (op_set_mode m mode event_type payload s).1 ≡ t
      → Step m s t
  reconciled :
      {s t : Ledger} (value cash : Float) (done : Bool)
      → (op_recon m value cash done s).1 ≡ t
      → Step m s t
  intended :
      {s t : Ledger} (i : IntentRow)
      → has intent_key i.intent_id s.order_intents ≡ false
      → with_intent i s ≡ t
      → Step m s t
  gated :
      {s t : Ledger} (check_risk : List IntentRow → Result (List RiskDecision × String))
      (run_id : Option String)
      → DecidesGiven check_risk
      → (op_gate m check_risk run_id s).1 ≡ t
      → Step m s t
  staged :
      {s t : Ledger} (run_id : Option String) (limit : ℤ)
      → (op_stage m run_id limit s).1 ≡ t
      → Step m s t
  sent :
      {s t : Ledger} (adapter : String) (limit max_age_s : ℤ)
      → (op_send m adapter limit max_age_s s).1 ≡ t
      → Step m s t

pub data Reached (m : Machine) : Ledger → Type 0 where
  fresh :
      {s : Ledger}
      → s.order_intents ≡ []
      → s.risk_decisions ≡ []
      → s.staged_orders ≡ []
      → s.broker_events ≡ []
      → Reached m s
  next : {s t : Ledger} → Reached m s → Step m s t → Reached m t

op_set_mode-Safe :
    (m : Machine) (mode event_type : String) (payload : Value) (s : Ledger)
    → SafeLedger s
    → SafeLedger (op_set_mode m mode event_type payload s).1
unfolding op_set_mode
op_set_mode-Safe m mode event_type payload s safe = ensured-Safe m _ s safe (λ s safe.
    or_rollback-Safe s (append_event m event_type payload (with_mode m mode s)) safe
      (λ v t h. Same-Safe (append_event-Same m event_type payload (with_mode m mode s) t v h) safe))

op_recon-Safe :
    (m : Machine) (value cash : Float) (done : Bool) (s : Ledger)
    → SafeLedger s
    → SafeLedger (op_recon m value cash done s).1
unfolding op_recon
op_recon-Safe m value cash done s safe = ensured-Safe m _ s safe (λ s safe.
    or_rollback-Safe s
      (append_event m "broker_reconciliation_snapshot" _ (with_state m value cash done s)) safe
      (λ v t h. Same-Safe (append_event-Same m _ _ _ t v h) safe))

Step-Safe : (m : Machine) {s t : Ledger} → Step m s t → SafeLedger s → SafeLedger t
Step-Safe m {s} {t} (Step.mode_set mode event_type payload e) safe =
    subst SafeLedger e (op_set_mode-Safe m mode event_type payload s safe)
Step-Safe m {s} {t} (Step.reconciled value cash done e) safe =
    subst SafeLedger e (op_recon-Safe m value cash done s safe)
Step-Safe m {s} {t} (Step.intended i new e) safe = subst SafeLedger e (intend-Safe safe i new)
Step-Safe m {s} {t} (Step.gated check_risk run_id given e) safe =
    subst SafeLedger e (op_gate-Safe m check_risk run_id s given safe)
Step-Safe m {s} {t} (Step.staged run_id limit e) safe =
    subst SafeLedger e (op_stage-Safe m run_id limit s safe)
Step-Safe m {s} {t} (Step.sent adapter limit max_age_s e) safe =
    subst SafeLedger e (op_send-Safe m adapter limit max_age_s s safe)

empty-Safe : Safe [] [] [] []
empty-Safe = record {
  intents_once = tt;
  decisions_once = tt;
  decided_once = tt;
  orders_once = tt;
  staged_once = tt;
  approved = tt;
  submitted_once = tt;
  submitted_staged = tt;
}

-- After any sequence of trading commands from empty tables, whether they succeed or fail: an intent
-- is decided once at most, a decision is staged once at most, every staged order carries out an
-- approved decision of its intent, an order is submitted to the broker once at most, and only
-- staged orders are submitted. The risk gate is assumed to decide on no more intents than it is
-- given.
pub no_order_twice : (m : Machine) (s : Ledger) → Reached m s → SafeLedger s
no_order_twice m s (Reached.fresh i d o b) = Safe-eq empty-Safe (sym i) (sym d) (sym o) (sym b)
no_order_twice m t (Reached.next {s} before step) = Step-Safe m step (no_order_twice m s before)
