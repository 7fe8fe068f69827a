-- ===== src/Commands/Trading.antt =====
-- The trading commands of cli/src/main.rs: op_set_mode and cmd_mode, op_recon, op_gate, op_stage and
-- op_send, over the tables that they read and write. Each runs ensure_db first, which commits; what
-- comes after it is one transaction, and a failure drops that: the tables, and with them the counts
-- of UUIDs and clock reads, are those that ensure_db left.
mod Rows
mod Ensure
mod Queries
pub mod Gate
pub mod Keys
pub mod Safe
unfoldable pub use Rows.*
unfoldable pub use Ensure.*
unfoldable pub use Queries.*
use mathlib.Core.Option
use text.Mathlib.Text.{◌==◌}
use sec_fa.Prelude.{
  ℕ, zero, suc, ◌+◌, String, Bool, true, false, not, ◌&&◌, ◌||◌, Option, none, some, List, [], ◌∷◌,
  ◌++◌, length, any, find, is_some, leb, if◌then◌else◌,
}
use sec_fa.Prelude.Text.{format, str_ltb}
use sec_fa.Outcome.{Result, ok, err, ◌>>=◌, ◌>>◌, context, bail_if}
use sec_fa.Decimal.{decimal}
use sec_fa.Integer.{◌-ℤ◌, leb_ℤ, ltb_ℤ}
use sec_fa.Json.{
  ℤ, pos, negsuc, Value, Fields, object, fields_of, string, number, int, bool, insert_field,
}
use sec_fa.Graph.Lexer.{is_empty}
use sec_fa.Graph.Parser.Tokens.{Float, json_float}
use sec_fa.Timestamp.{TimeParsers, epoch_second}

module _ (m : Machine) where
  -- INSERT INTO events; the value is what the command prints.
  unfoldable pub append_event : String → Value → Ledger → Result (Value × Ledger)
  append_event event_type payload s =
      let event_id = m.uuid s.ids in
      let occurred_at = m.clock s.ticks in
      let payload_json = m.json_text payload in
      if any (λ (row : EventRow). row.event_id == event_id) s.events
      then err "UNIQUE constraint failed"
      else ok (
        object (
            fields_of (
              ("event_id", string event_id)
              ∷ ("event_type", string event_type)
              ∷ ("event_version", number (int (pos 1)))
              ∷ ("occurred_at", string occurred_at)
              ∷ ("payload", payload)
              ∷ [])),
        record (drawn s) {
          events =
              record {
                event_id = event_id;
                event_type = event_type;
                occurred_at = occurred_at;
                payload_json = payload_json;
                payload_sha256 = m.sha256_hex payload_json;
              }
              ∷ s.events;
        },
      )

  abbrev pub with_mode : String → Ledger → Ledger
  with_mode mode s = record s {
    settings = put_setting "trading_mode" mode (m.clock s.ticks) s.settings;
    ticks = s.ticks + 1;
  }

  unfoldable pub op_set_mode : String → String → Value → Command Value
  unfolding append_event ensure_db
  op_set_mode mode event_type payload =
      ensured m (λ s. or_rollback s (append_event event_type payload (with_mode mode s)))

  unfoldable pub cmd_mode : String → Command Value
  unfolding op_set_mode
  cmd_mode mode s =
      if not (is_trading_mode mode)
      then (err (format ("invalid mode " ∷ m.debug_text mode ∷ [])), s)
      else op_set_mode mode "trading_mode_set" (object (fields_of (("mode", string mode) ∷ []))) s

  abbrev pub with_state : Float → Float → Bool → Ledger → Ledger
  with_state portfolio_value cash reconciled s = record s {
    broker_state = some (record {
      reconciled = reconciled;
      checked_at = m.clock s.ticks;
      portfolio_value_usd = portfolio_value;
      cash_usd = cash;
    });
    ticks = s.ticks + 1;
  }

  unfoldable pub op_recon : Float → Float → Bool → Command Value
  unfolding append_event ensure_db
  op_recon portfolio_value cash reconciled =
      let payload = object (
        fields_of (
          ("reconciled", bool reconciled)
          ∷ ("portfolio_value_usd", json_float portfolio_value)
          ∷ ("cash_usd", json_float cash)
          ∷ ("source", string "manual_or_mock")
          ∷ [])) in
      ensured m (λ s. or_rollback s (
        append_event "broker_reconciliation_snapshot" payload
          (with_state portfolio_value cash reconciled s)))

  abbrev pub stale : String
  stale = "broker reconciliation is missing or stale"

  -- The last test, on the row.
  unfoldable pub require_recent : ℤ → ℤ → BrokerState → Result (Unit {0})
  require_recent max_age_s now state =
      let checked = epoch_second m.time state.checked_at in
      bail_if (not state.reconciled || leb_ℤ checked (pos 0) || ltb_ℤ max_age_s (now -ℤ checked))
        stale

  unfoldable pub require_fresh_broker_reconciliation : ℤ → Ledger → Result (Unit {0})
  unfolding require_recent
  require_fresh_broker_reconciliation max_age_s s =
      bail_if (leb_ℤ max_age_s (pos 0)) "broker reconciliation freshness limit must be positive"
      >> (context s.broker_state stale >>= require_recent max_age_s (m.unix_now s.ticks))

  -- The body of the loop of op_stage.
  unfoldable pub stage_one : StageRow → Ledger → Result (Value × Ledger)
  unfolding append_event
  stage_one row s =
      let staged_id = m.uuid s.ids in
      let payload = object (
        fields_of (
          ("staged_order_id", string staged_id)
          ∷ ("decision_id", string row.decision.decision_id)
          ∷ ("intent_id", string row.decision.intent_id)
          ∷ ("security_id", number (int row.decision.security_id))
          ∷ ("side", string row.side)
          ∷ ("notional_usd", json_float row.decision.notional_usd)
          ∷ [])) in
      if any (λ (o : StagedRow). o.staged_order_id == staged_id) s.staged_orders
      then err "UNIQUE constraint failed"
      else append_event "order_staged" payload (record (drawn s) {
        staged_orders =
            record {
              staged_order_id = staged_id;
              decision_id = row.decision.decision_id;
              intent_id = row.decision.intent_id;
              security_id = row.decision.security_id;
              side = row.side;
              notional_usd = row.decision.notional_usd;
              staged_at = m.clock s.ticks;
            }
            ∷ s.staged_orders;
      })

  unfoldable pub stage_all : List StageRow → Ledger → Result (List Value × Ledger)
  unfolding stage_one
  stage_all [] s = ok ([], s)
  stage_all (row ∷ rows) s =
      stage_one row s >>= λ first. stage_all rows first.1 >>= λ rest. ok (first.0 ∷ rest.0, rest.1)

  -- What op_stage does after ensure_db.
  unfoldable pub stage_orders : Option String → ℤ → Command (List Value)
  unfolding setting stage_rows stage_all
  stage_orders run_id limit s =
      let mode = setting s "trading_mode" in
      if not (may_stage mode)
      then (
        err (
            format
              ("cannot stage orders in mode=" ∷ m.debug_text mode ∷ "; set mode explicitly" ∷ [])),
        s,
      )
      else or_rollback s (
          stage_all
            (limited limit (stage_rows run_id s.order_intents s.staged_orders s.risk_decisions)) s)

  unfoldable pub op_stage : Option String → ℤ → Command (List Value)
  unfolding stage_orders ensure_db
  op_stage run_id limit = ensured m (stage_orders run_id limit)

  abbrev pub submission : String → StagedRow → Fields
  submission mode o = fields_of (
      ("adapter", string "mock")
      ∷ ("staged_order_id", string o.staged_order_id)
      ∷ ("security_id", number (int o.security_id))
      ∷ ("side", string o.side)
      ∷ ("notional_usd", json_float o.notional_usd)
      ∷ ("mode", string mode)
      ∷ [])

  -- The body of the loop of op_send.
  unfoldable pub send_one : String → StagedRow → Ledger → Result (Value × Ledger)
  unfolding append_event insert_field
  send_one mode o s =
      let event_id = m.uuid s.ids in
      if any (λ (e : BrokerEvent). e.broker_event_id == event_id) s.broker_events
      then err "UNIQUE constraint failed"
      else append_event "broker_order_submitted_mock"
          (object (insert_field "broker_event_id" (string event_id) (submission mode o)))
          (record (drawn s) {
            broker_events =
                record {
                  broker_event_id = event_id;
                  staged_order_id = some o.staged_order_id;
                  event_type = "mock_order_submitted";
                  payload_json = m.json_text (object (submission mode o));
                  occurred_at = m.clock s.ticks;
                }
                ∷ s.broker_events;
          })

  unfoldable pub send_all : String → List StagedRow → Ledger → Result (List Value × Ledger)
  unfolding send_one
  send_all mode [] s = ok ([], s)
  send_all mode (o ∷ os) s = send_one mode o s >>= λ first.
      send_all mode os first.1 >>= λ rest. ok (first.0 ∷ rest.0, rest.1)

  -- The checks between ensure_db and the transaction of op_send.
  unfoldable pub send_checks : ℤ → Ledger → Result (Unit {0})
  unfolding setting require_fresh_broker_reconciliation bail_if
  send_checks max_reconciliation_age_s s =
      bail_if (not (may_send (setting s "trading_mode"))) (
        format
          ("cannot send broker orders in mode=" ∷ m.debug_text (setting s "trading_mode") ∷ []))
      >> require_fresh_broker_reconciliation max_reconciliation_age_s s

  -- What op_send does after ensure_db.
  unfoldable pub send_orders : ℤ → ℤ → Command (List Value)
  unfolding send_checks setting send_rows send_all
  send_orders limit max_reconciliation_age_s s = or_rollback s (
      send_checks max_reconciliation_age_s s
      >> send_all (setting s "trading_mode")
          (limited limit (send_rows s.broker_events s.staged_orders)) s)

  unfoldable pub op_send : String → ℤ → ℤ → Command (List Value)
  unfolding send_orders ensure_db
  op_send adapter limit max_reconciliation_age_s s =
      if not (adapter == "mock")
      then (err "only --adapter mock is implemented", s)
      else ensured m (send_orders limit max_reconciliation_age_s) s
