-- ===== src/Commands/Trading/Gate.antt =====
-- op_gate of cli/src/main.rs, and the query of load_pending_intents of cli/src/fa_core.rs. The risk
-- gate of the C++ engine, with the securities and the limits it is given, is a parameter.
use text.Mathlib.Text.{◌==◌}
use sec_fa.Prelude.{
  ℕ, suc, ◌-◌, String, Bool, not, ◌&&◌, List, [], ◌∷◌, any, length, if◌then◌else◌, Option,
}
use sec_fa.Prelude.Text.{str_ltb}
use sec_fa.Outcome.{Result, ok, err, ◌>>=◌}
use sec_fa.Json.{pos, Value, object, fields_of, string, number, int}
use sec_fa.Commands.Trading.{
  Machine, Ledger, Command, RiskDecision, IntentRow, DecisionRow, or_rollback, drawn, is_one,
  in_run, append_event, insert_by, ensure_db, ensured,
}

abbrev pub is_decided : List DecisionRow → IntentRow → Bool
is_decided decisions i = any (λ (d : DecisionRow). d.intent_id == i.intent_id) decisions

abbrev pub made_before : IntentRow → IntentRow → Bool
made_before a b = str_ltb a.created_at b.created_at

-- The intents without a decision, in the order in which they were made.
unfoldable pub load_pending_intents :
    Option String → List DecisionRow → List IntentRow → List IntentRow
unfolding insert_by
load_pending_intents run_id decisions [] = []
load_pending_intents run_id decisions (i ∷ is) =
    let rest = load_pending_intents run_id decisions is in
    if not (is_decided decisions i) && in_run run_id i.run_id
    then insert_by made_before i rest
    else rest

-- `ids.get(i).cloned().unwrap_or_default()`, and the ids behind it.
abbrev pub id_of : List IntentRow → String
id_of [] = ""
id_of (i ∷ is) = i.intent_id

abbrev pub behind : List IntentRow → List IntentRow
behind [] = []
behind (i ∷ is) = is

abbrev approved_in : List RiskDecision → ℕ
approved_in [] = 0
approved_in (d ∷ ds) = if is_one d.decision then suc (approved_in ds) else approved_in ds

abbrev pub gate_payload : List RiskDecision → String → Value
gate_payload decisions diagnostics = object (
    fields_of (
      ("intent_count", number (int (pos (length decisions))))
      ∷ ("approved_count", number (int (pos (approved_in decisions))))
      ∷ ("rejected_count", number (int (pos (length decisions - approved_in decisions))))
      ∷ ("diagnostics", string diagnostics)
      ∷ []))

module _ (m : Machine) where
  -- INSERT INTO risk_decisions.
  unfoldable pub decide : RiskDecision → String → Ledger → Result Ledger
  decide d intent_id s =
      let decision_id = m.uuid s.ids in
      if any (λ (row : DecisionRow). row.decision_id == decision_id) s.risk_decisions
      then err "UNIQUE constraint failed"
      else ok (record (drawn s) {
        risk_decisions =
            record {
              decision_id = decision_id;
              intent_id = intent_id;
              security_id = d.security_id;
              approved = is_one d.decision;
              reason = d.reason;
              notional_usd = d.notional_usd;
              created_at = m.clock s.ticks;
            }
            ∷ s.risk_decisions;
      })

  unfoldable pub decide_all : List RiskDecision → List IntentRow → Ledger → Result Ledger
  unfolding decide
  decide_all [] intents s = ok s
  decide_all (d ∷ ds) intents s =
      decide d (id_of intents) s >>= λ t. decide_all ds (behind intents) t

  -- What op_gate does after ensure_db. `check_risk` gives the decisions on the intents, and its
  -- diagnostics.
  unfoldable pub gate_orders :
      (List IntentRow → Result (List RiskDecision × String)) → Option String → Command Value
  unfolding load_pending_intents decide_all append_event
  gate_orders check_risk run_id s =
      let intents = load_pending_intents run_id s.risk_decisions s.order_intents in
      or_rollback s (
        check_risk intents >>= λ out. decide_all out.0 intents s >>= λ t.
        append_event m "gate_completed" (gate_payload out.0 out.1) t)

  unfoldable pub op_gate :
      (List IntentRow → Result (List RiskDecision × String)) → Option String → Command Value
  unfolding gate_orders ensure_db
  op_gate check_risk run_id = ensured m (gate_orders check_risk run_id)
