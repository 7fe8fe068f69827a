-- ===== src/Commands/Trading/Rows.antt =====
-- The tables that the trading commands of cli/src/main.rs read and write, and their settings.
use text.Mathlib.Text.{◌==◌}
use sec_fa.Prelude.{
  ℕ, zero, suc, ◌+◌, String, Bool, true, false, ◌||◌, Option, none, some, List, [], ◌∷◌, find,
  if◌then◌else◌,
}
use sec_fa.Outcome.{Result, ok, err}
use sec_fa.Json.{ℤ, pos, Value}
use sec_fa.Graph.Lexer.{is_empty}
use sec_fa.Graph.Parser.Tokens.{Float}
use sec_fa.Timestamp.{TimeParsers}
use sec_fa.Serde.{Serde}
use sec_fa.Registry.{Tables}
use sec_fa.Registry.Seed.{ProductTypeBootstrap, AlgorithmBootstrap}

pub record SettingRow : Type 0 where
  pub key : String
  pub value : String
  pub updated_at : String

pub record BrokerState : Type 0 where
  pub reconciled : Bool
  pub checked_at : String
  pub portfolio_value_usd : Float
  pub cash_usd : Float

pub record IntentRow : Type 0 where
  pub intent_id : String
  pub run_id : String
  pub security_id : ℤ
  pub side : String
  pub notional_usd : Float
  pub created_at : String

pub record DecisionRow : Type 0 where
  pub decision_id : String
  pub intent_id : String
  pub security_id : ℤ
  pub approved : Bool
  pub reason : String
  pub notional_usd : Float
  pub created_at : String

pub record StagedRow : Type 0 where
  pub staged_order_id : String
  pub decision_id : String
  pub intent_id : String
  pub security_id : ℤ
  pub side : String
  pub notional_usd : Float
  pub staged_at : String

pub record BrokerEvent : Type 0 where
  pub broker_event_id : String
  pub staged_order_id : Option String
  pub event_type : String
  pub payload_json : String
  pub occurred_at : String

pub record EventRow : Type 0 where
  pub event_id : String
  pub event_type : String
  pub occurred_at : String
  pub payload_json : String
  pub payload_sha256 : String

-- The tables; new rows stand in front. `tables` are the reference tables, `ids` counts the UUIDs drawn and `ticks` the clock reads.
pub record Ledger : Type 0 where
  pub settings : List SettingRow
  pub broker_state : Option BrokerState
  pub order_intents : List IntentRow
  pub risk_decisions : List DecisionRow
  pub staged_orders : List StagedRow
  pub broker_events : List BrokerEvent
  pub events : List EventRow
  pub tables : Tables
  pub ids : ℕ
  pub ticks : ℕ

-- The UUIDs, the readings of the clock as `utc_now` and SQLite's `strftime` give them, its Unix time,
-- serde_json's and sha2's texts, the search for schema.sql, and the two JSON files that are part of
-- the program.
pub record Machine : Type 0 where
  pub uuid : ℕ → String
  pub clock : ℕ → String
  pub unix_now : ℕ → ℤ
  pub time : TimeParsers
  pub json_text : Value → String
  pub sha256_hex : String → String
  pub debug_text : String → String
  pub serde : Serde
  pub schema_found : Result (Unit {0})
  pub types : ProductTypeBootstrap
  pub algorithms : AlgorithmBootstrap

-- What the risk gate of the engine says of one intent.
pub record RiskDecision : Type 0 where
  pub decision : ℤ
  pub security_id : ℤ
  pub reason : String
  pub notional_usd : Float

-- A command gives its result and the tables after it.
abbrev pub Command : Type 0 → Type 0
Command A = Ledger → Result A × Ledger

-- What a transaction that failed leaves: the tables before it, and with them the counts of UUIDs
-- and clock reads.
abbrev pub or_rollback {ℓ} : {A : Type ℓ} → Ledger → Result (A × Ledger) → Result A × Ledger
or_rollback s (ok (a, t)) = (ok a, t)
or_rollback s (err text) = (err text, s)

abbrev pub drawn : Ledger → Ledger
drawn s = record s { ids = s.ids + 1; ticks = s.ticks + 1 }

abbrev pub is_one : ℤ → Bool
is_one (pos (suc zero)) = true
is_one _ = false

abbrev pub put_setting : String → String → String → List SettingRow → List SettingRow
put_setting key value now [] = record { key = key; value = value; updated_at = now } ∷ []
put_setting key value now (row ∷ rows) =
    if row.key == key
    then record { key = key; value = value; updated_at = now } ∷ rows
    else row ∷ put_setting key value now rows

abbrev pub value_or_observe : Option SettingRow → String
value_or_observe none = "observe"
value_or_observe (some row) = row.value

unfoldable pub setting : Ledger → String → String
setting s key = value_or_observe (find (λ (row : SettingRow). row.key == key) s.settings)

-- The modes that may stage and the modes that may send.
abbrev pub may_stage : String → Bool
may_stage mode = mode == "stage" || mode == "paper" || mode == "live_limited" || mode == "live"

abbrev pub may_send : String → Bool
may_send mode = mode == "paper" || mode == "live_limited" || mode == "live"

abbrev pub is_trading_mode : String → Bool
is_trading_mode mode = mode == "observe" || mode == "shadow" || may_stage mode || mode == "halted"

-- `filter(|s| !s.is_empty())`
abbrev pub in_run : Option String → String → Bool
in_run none run = true
in_run (some run_id) run = is_empty run_id || run == run_id
