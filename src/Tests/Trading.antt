-- ===== src/Tests/Trading.antt =====
-- The trading commands and the names of filings on concrete inputs.
use sec_fa.Prelude.{
  String, ◌≡◌, ◌↔◌, ◌⊎◌, refl, true, false, none, List, [], ◌∷◌, any, length, arith,
}
use sec_fa.Prelude.Ascii.{char_count}
use sec_fa.Outcome.{Result, ok, IsOk}
use sec_fa.Decimal.{decimal}
use sec_fa.Json.{pos, object, end}
use sec_fa.Graph.Parser.Tokens.{finite}
use sec_fa.Commands.Trading.{
  Machine, Ledger, IntentRow, RiskDecision, op_set_mode, op_recon, op_stage, op_send,
}
use sec_fa.Commands.Trading.Gate.{op_gate}
use sec_fa.Commands.Trading.Safe.{SafeLedger}
use sec_fa.Commands.Trading.Safe.Gates.{DecidesGiven}
use sec_fa.Commands.Trading.Safe.Always.{Reached, Step, with_intent, no_order_twice}
use sec_fa.Commands.Trading.Safe.Guard.{MaySend, op_send_guarded}
use sec_fa.Filings.Names as Filings
use sec_fa.Filings.Names.Cik.{IsDigits, normalize_cik_lem}
use sec_fa.Filings.Names.Inside.{archive_local_path_inside, Below}
use sec_fa.Commands.Names.Agree.{sql_form_filter_clause_agree, is_named, FiltersNamed}
use sec_fa.Tests.Fixture.{serde, time}

abbrev machine : Machine
machine = record {
  uuid = decimal;
  clock = λ n. "now";
  unix_now = λ n. pos 5;
  time = time;
  json_text = λ v. "{}";
  sha256_hex = λ s. "d";
  debug_text = λ s. s;
  serde = serde;
  schema_found = ok tt;
  types = record { spec_version = pos 1; product_types = [] };
  algorithms = record { spec_version = pos 1; algorithms = [] };
}

abbrev empty : Ledger
empty = record {
  settings = [];
  broker_state = none;
  order_intents = [];
  risk_decisions = [];
  staged_orders = [];
  broker_events = [];
  events = [];
  tables = record { product_types = []; algorithm_registry = []; resource_declarations = [] };
  ids = 0;
  ticks = 0;
}

abbrev intent : IntentRow
intent = record {
  intent_id = "i";
  run_id = "r";
  security_id = pos 1;
  side = "buy";
  notional_usd = finite "10.0";
  created_at = "now";
}

abbrev approve : List IntentRow → List RiskDecision
approve [] = []
approve (i ∷ is) =
    record {
      decision = pos 1;
      security_id = i.security_id;
      reason = "ok";
      notional_usd = i.notional_usd;
    }
    ∷ approve is

abbrev check_risk : List IntentRow → Result (List RiskDecision × String)
check_risk is = ok (approve is, "")

length-approve : (is : List IntentRow) → length (approve is) ≡ length is
length-approve [] = refl
length-approve (i ∷ is) = omega (arith, length-approve is)

decides_given : DecidesGiven check_risk
decides_given is ds diagnostics e =
    let same : approve is ≡ ds = cc in rw (← same) (omega (arith, length-approve is))

abbrev ready : Ledger
ready =
    (op_recon machine (finite "100.0") (finite "50.0") true
      (op_set_mode machine "paper" "trading_mode_set" (object end) (with_intent intent empty)).1).1

abbrev staged : Ledger
staged = (op_stage machine none (pos 10) (op_gate machine check_risk none ready).1).1

abbrev sent : Ledger
sent = (op_send machine "mock" (pos 10) (pos 60) staged).1

-- A second op_send finds nothing to submit.
abbrev sent_again : Ledger
sent_again = (op_send machine "mock" (pos 10) (pos 60) sent).1

ready-Reached : Reached machine ready
ready-Reached =
    Reached.next
      (Reached.next
        (Reached.next (Reached.fresh refl refl refl refl) (Step.intended intent refl refl))
        (Step.mode_set "paper" "trading_mode_set" (object end) refl))
      (Step.reconciled (finite "100.0") (finite "50.0") true refl)

sent_again-Reached : Reached machine sent_again
sent_again-Reached =
    Reached.next
      (Reached.next
        (Reached.next (Reached.next ready-Reached (Step.gated check_risk none decides_given refl))
          (Step.staged none (pos 10) refl))
        (Step.sent "mock" (pos 10) (pos 60) refl))
      (Step.sent "mock" (pos 10) (pos 60) refl)

no_order_twice_example : SafeLedger sent_again
no_order_twice_example = no_order_twice machine sent_again sent_again-Reached

one_submission : length sent_again.broker_events ≡ 1
unfolding op_send op_stage op_gate op_recon op_set_mode decimal sec_fa.Timestamp.epoch_second
one_submission = refl

sending : IsOk (op_send machine "mock" (pos 10) (pos 60) staged).0
unfolding op_send op_stage op_gate op_recon op_set_mode decimal sec_fa.Timestamp.epoch_second
sending = tt

op_send_guarded_example : MaySend machine "mock" (pos 60) staged
op_send_guarded_example = (op_send_guarded machine "mock" (pos 60) staged (pos 10)).0 sending

normalize_cik_lem_example :
    (char_count (Filings.normalize_cik "CIK320193") ≡ 10)
    × IsDigits (Filings.normalize_cik "CIK320193")
    × (Filings.normalize_cik (Filings.normalize_cik "CIK320193")
        ≡ Filings.normalize_cik "CIK320193")
normalize_cik_lem_example = normalize_cik_lem "CIK320193"

with_wildcard :
    (any Filings.is_wildcard (Filings.form_values "10-K,ALL") ≡ true)
    × (any is_named (Filings.form_values "10-K,ALL") ≡ true)
unfolding sec_fa.Graph.Parser.Tokens.trimmed_parts sec_fa.Graph.Parser.Tokens.split_at
    sec_fa.Graph.Lexer.trim sec_fa.Prelude.Ascii.to_ascii_uppercase
with_wildcard = (refl, refl)

sql_form_filter_clause_agree_example :
    (Filings.sql_form_filter_clause "form" "10-K,ALL" ≡ none) × FiltersNamed "form" "10-K,ALL"
sql_form_filter_clause_agree_example =
    (sql_form_filter_clause_agree "form" "10-K,ALL").1 with_wildcard.0 with_wildcard.1

archived : Filings.archive_local_path "raw/1" "a.xml" ≡ ok "raw/1/a.xml"
unfolding Filings.archive_local_path
archived = refl

archive_local_path_inside_example : Below "raw/1" "raw/1/a.xml"
archive_local_path_inside_example = archive_local_path_inside "raw/1" "a.xml" "raw/1/a.xml" archived
