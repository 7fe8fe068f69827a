-- ===== src/Commands/Trading/Safe/Guard.antt =====
-- What op_send and op_stage of cli/src/main.rs ask of the mode and of the last reconciliation.
use mathlib.Core.Logic.{◌↔◌}
use text.Mathlib.Text.{◌==◌}
use sec_fa.Prelude.{
  String, ◌≡◌, refl, sym, subst, ◌∙◌, inl, inr, Bool, true, false, not, ◌||◌, some, arith, eq_iff,
  Bool-cases,
}
use sec_fa.Outcome.{
  Result, ok, err, IsOk, IsOk-then, IsOk-bail, IsOk-bail_if, IsOk-bind, context, context-eq,
}
use sec_fa.Integer.{leb_ℤ, ltb_ℤ, ◌-ℤ◌}
use sec_fa.Json.{ℤ, pos}
use sec_fa.Timestamp.{epoch_second}
use sec_fa.Commands.Trading.{
  Ledger, Machine, BrokerState, op_send, send_checks, require_fresh_broker_reconciliation,
  require_recent, stale, may_send, setting, or_rollback, limited, send_rows, send_all, send_orders,
  ensure_db, and_then, Command,
}
use sec_fa.Commands.Trading.Safe.Ensured.{Unchanged, Unchanged-refl, ensure_db-Unchanged}

-- When op_send may submit; the clock is read after ensure_db.
pub record MaySend (m : Machine) (adapter : String) (max_age_s : ℤ) (s : Ledger) : Type 0 where
  pub mock : adapter ≡ "mock"
  pub mode : may_send (setting s "trading_mode") ≡ true
  pub positive : leb_ℤ max_age_s (pos 0) ≡ false
  pub state : BrokerState
  pub known : s.broker_state ≡ some state
  pub reconciled : state.reconciled ≡ true
  pub checked : leb_ℤ (epoch_second m.time state.checked_at) (pos 0) ≡ false
  pub now : ℤ
  pub read : now ≡ m.unix_now (ensure_db m s).1.ticks
  pub recent : ltb_ℤ max_age_s (now -ℤ epoch_second m.time state.checked_at) ≡ false

rollback-IsOk :
    {A : Type 0} (s : Ledger) (r : Result (A × Ledger)) → IsOk (or_rollback s r).0 → IsOk r
rollback-IsOk s (ok (a, t)) h = tt
rollback-IsOk s (err text) h = h

rollback_err :
    {A : Type 0} (s : Ledger) (r : Result (A × Ledger)) (text : String)
    → (or_rollback s r).0 ≡ err text
    → (or_rollback s r).1 ≡ s
rollback_err s (ok (a, t)) text h = absurd (cc)
rollback_err s (err e) text h = refl

none_of : (a b c : Bool) → ((not a || b || c) ≡ false) ↔ ((a ≡ true) × (b ≡ false) × (c ≡ false))
none_of a b c = ground arith

module _ (m : Machine) (max_age_s : ℤ) (s : Ledger) where
  require_recent_iff :
      (state : BrokerState)
      → IsOk (require_recent m max_age_s (m.unix_now s.ticks) state) ↔ (
          (state.reconciled ≡ true)
          × (leb_ℤ (epoch_second m.time state.checked_at) (pos 0) ≡ false)
          × (ltb_ℤ max_age_s (m.unix_now s.ticks -ℤ epoch_second m.time state.checked_at) ≡ false))
  unfolding require_recent
  require_recent_iff state =
      let checked = epoch_second m.time state.checked_at in
      let test =
        IsOk-bail_if
          (not state.reconciled
            || leb_ℤ checked (pos 0)
            || ltb_ℤ max_age_s (m.unix_now s.ticks -ℤ checked))
          (stale m) in
      let split =
        none_of state.reconciled (leb_ℤ checked (pos 0))
          (ltb_ℤ max_age_s (m.unix_now s.ticks -ℤ checked)) in
      (λ h. split.0 (test.0 h), λ h. test.1 (split.1 h))

  -- What the checks ask of the tables that they see.
  abbrev Checked : Type 0
  Checked =
      (may_send (setting s "trading_mode") ≡ true)
      × (leb_ℤ max_age_s (pos 0) ≡ false)
      × ((state : BrokerState) × (s.broker_state ≡ some state)
          × (state.reconciled ≡ true)
          × (leb_ℤ (epoch_second m.time state.checked_at) (pos 0) ≡ false)
          × (ltb_ℤ max_age_s (m.unix_now s.ticks -ℤ epoch_second m.time state.checked_at) ≡ false))

  send_checks-Checked : IsOk (send_checks m max_age_s s) → Checked
  unfolding send_checks require_fresh_broker_reconciliation
  send_checks-Checked h =
      let (d, b) = (IsOk-then _ _).0 h in
      let (e, f) = (IsOk-then _ _).0 b in
      let (state, known, k) =
        (IsOk-bind (context s.broker_state (stale m))
            (require_recent m max_age_s (m.unix_now s.ticks))).0
          f in
      let (r, q, n) = (require_recent_iff state).0 k in
      let found = (context-eq s.broker_state (stale m) state).0 known in
      ((IsOk-bail _ _).0 d, (IsOk-bail_if _ _).0 e, (state, found, r, q, n))

  send_orders-Checked : (limit : ℤ) → IsOk (send_orders m limit max_age_s s).0 → Checked
  unfolding send_orders
  send_orders-Checked limit h =
      let sending =
        send_all m (setting s "trading_mode")
          (limited limit (send_rows s.broker_events s.staged_orders)) s in
      send_checks-Checked
        ((IsOk-then (send_checks m max_age_s s) sending).0 (rollback-IsOk s _ h)).0

  send_orders_err :
      (limit : ℤ) (text : String)
      → (send_orders m limit max_age_s s).0 ≡ err text
      → (send_orders m limit max_age_s s).1 ≡ s
  unfolding send_orders
  send_orders_err limit text h = rollback_err s _ text h

module _ {A : Type 0} where
  and_then-IsOk :
      (r : Result (Unit {0}) × Ledger) (next : Command A)
      → IsOk (and_then r next).0
      → IsOk (next r.1).0
  and_then-IsOk (ok u, t) next h = h
  and_then-IsOk (err e, t) next h = absurd h

  and_then_err :
      (r : Result (Unit {0}) × Ledger) (next : Command A) (text : String)
      → ((t : Ledger) → (next t).0 ≡ err text → (next t).1 ≡ t)
      → (and_then r next).0 ≡ err text
      → (and_then r next).1 ≡ r.1
  and_then_err (ok u, t) next text k h = k t h
  and_then_err (err e, t) next text k h = refl

module _ (m : Machine) (adapter : String) (max_age_s : ℤ) (s : Ledger) where
  MaySend-of :
      Unchanged s (ensure_db m s).1
      → adapter ≡ "mock"
      → Checked m max_age_s (ensure_db m s).1
      → MaySend m adapter max_age_s s
  MaySend-of u mock (mode, positive, (state, known, reconciled, checked, recent)) = record {
    mock = mock;
    mode = rw (u.settings "trading_mode") at mode;
    positive = positive;
    state = state;
    known = sym u.broker_state ∙ known;
    reconciled = reconciled;
    checked = checked;
    now = m.unix_now (ensure_db m s).1.ticks;
    read = refl;
    recent = recent;
  }

  -- op_send succeeds only with the mock adapter, in a mode that may send, and after a reconciliation
  -- that was successful and, by the Unix time of the clock, not older than a positive limit; and an
  -- op_send that fails leaves the intents, decisions, staged orders, submissions, events, the
  -- broker's state and the values of all settings as they were.
  pub op_send_guarded :
      (limit : ℤ)
      → (IsOk (op_send m adapter limit max_age_s s).0 → MaySend m adapter max_age_s s)
        × ((text : String)
            → (op_send m adapter limit max_age_s s).0 ≡ err text
            → Unchanged s (op_send m adapter limit max_age_s s).1)
  unfolding op_send
  op_send_guarded limit = elim (Bool-cases (adapter == "mock")) [
    | inl e ↦ rw e (
      (λ h. MaySend-of (ensure_db-Unchanged m s) ((eq_iff adapter "mock").0 e) (
          send_orders-Checked m max_age_s (ensure_db m s).1 limit
            (and_then-IsOk (ensure_db m s) (send_orders m limit max_age_s) h))),
      (λ text h.
          subst (Unchanged s)
            (sym (
              and_then_err (ensure_db m s) (send_orders m limit max_age_s) text
                (λ t. send_orders_err m max_age_s t limit text) h))
            (ensure_db-Unchanged m s)),
    )
    | inr e ↦ rw e ((λ h. absurd h), (λ text h. Unchanged-refl s))
  ]
