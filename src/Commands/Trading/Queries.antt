-- ===== src/Commands/Trading/Queries.antt =====
-- The queries of op_stage and op_send of cli/src/main.rs.
use text.Mathlib.Text.{◌==◌}
use sec_fa.Prelude.{
  ℕ, zero, suc, String, Bool, false, not, ◌&&◌, Option, none, some, List, [], ◌∷◌, any, find,
  if◌then◌else◌,
}
use sec_fa.Prelude.Text.{str_ltb}
use sec_fa.Json.{ℤ, pos, negsuc}
use sec_fa.Commands.Trading.Rows.{IntentRow, DecisionRow, StagedRow, BrokerEvent, in_run}

-- A row of the query of op_stage: a decision with the side of its intent.
pub record StageRow : Type 0 where
  pub decision : DecisionRow
  pub side : String

abbrev pub is_staged : List StagedRow → DecisionRow → Bool
is_staged staged d = any (λ (o : StagedRow). o.decision_id == d.decision_id) staged

abbrev pub intent_of : List IntentRow → DecisionRow → Option IntentRow
intent_of intents d = find (λ (i : IntentRow). i.intent_id == d.intent_id) intents

-- What the WHERE keeps of a joined row.
abbrev pub stageable : Option String → List StagedRow → DecisionRow → IntentRow → Bool
stageable run_id staged d intent =
    d.approved && not (is_staged staged d) && in_run run_id intent.run_id

-- ORDER BY, by insertion in front of the first row that does not come before.
unfoldable pub insert_by {ℓ} : {A : Type ℓ} → (A → A → Bool) → A → List A → List A
insert_by before x [] = x ∷ []
insert_by before x (y ∷ ys) = if before y x then y ∷ insert_by before x ys else x ∷ y ∷ ys

abbrev pub created_before : StageRow → StageRow → Bool
created_before a b = str_ltb a.decision.created_at b.decision.created_at

abbrev pub keep_row :
    Option String → List StagedRow → DecisionRow → Option IntentRow → List StageRow → List StageRow
keep_row run_id staged d none rest = rest
keep_row run_id staged d (some intent) rest =
    if stageable run_id staged d intent
    then insert_by created_before (record { decision = d; side = intent.side }) rest
    else rest

-- The join of op_stage, ordered. An intent's id is a key, so a decision joins one at most.
unfoldable pub stage_rows :
    Option String → List IntentRow → List StagedRow → List DecisionRow → List StageRow
unfolding insert_by
stage_rows run_id intents staged [] = []
stage_rows run_id intents staged (d ∷ ds) =
    keep_row run_id staged d (intent_of intents d) (stage_rows run_id intents staged ds)

abbrev pub take_ℕ {ℓ} : {A : Type ℓ} → ℕ → List A → List A
take_ℕ zero xs = []
take_ℕ (suc n) [] = []
take_ℕ (suc n) (x ∷ xs) = x ∷ take_ℕ n xs

-- SQLite's LIMIT: a negative one does not limit.
abbrev pub limited {ℓ} : {A : Type ℓ} → ℤ → List A → List A
limited (pos n) xs = take_ℕ n xs
limited (negsuc n) xs = xs

abbrev pub is_submission : String → BrokerEvent → Bool
is_submission staged_id e =
    e.event_type == "mock_order_submitted"
    && (elim e.staged_order_id [ none ↦ false | some id ↦ id == staged_id ])

abbrev pub is_submitted : List BrokerEvent → StagedRow → Bool
is_submitted events o = any (is_submission o.staged_order_id) events

abbrev pub staged_before : StagedRow → StagedRow → Bool
staged_before a b = str_ltb a.staged_at b.staged_at

-- The query of op_send.
unfoldable pub send_rows : List BrokerEvent → List StagedRow → List StagedRow
unfolding insert_by
send_rows events [] = []
send_rows events (o ∷ os) =
    let rest = send_rows events os in
    if is_submitted events o then rest else insert_by staged_before o rest
