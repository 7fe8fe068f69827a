-- ===== src/Commands/Trading/Safe/Ensured.antt =====
-- What ensure_db of cli/src/main.rs leaves as it was.
use text.Mathlib.Text.{◌==◌}
use sec_fa.Prelude.{
  String, ◌≡◌, refl, sym, ◌∙◌, inl, inr, Bool, true, false, Option, some, List, [], ◌∷◌, any, find,
  subst, arith, eq_iff, Bool-cases,
}
use sec_fa.Outcome.{Result, ok, err}
use sec_fa.Registry.{Tables}
use sec_fa.Registry.Known.{known_resource_declarations}
use sec_fa.Commands.Trading.{
  Ledger, Machine, Command, SettingRow, setting, value_or_observe, add_setting, and_then, statement,
  each, version_checked, put_product_type, put_algorithm, put_resource, seed_registry,
  with_settings, ensure_db, ensured,
}
use sec_fa.Commands.Trading.Safe.{SafeLedger, Safe-eq}

-- The tables of intents, decisions, orders, submissions and events, the state of the broker, and the
-- values of all settings are the same.
pub record Unchanged (s t : Ledger) : Type 0 where
  pub settings : (key : String) → setting t key ≡ setting s key
  pub broker_state : t.broker_state ≡ s.broker_state
  pub order_intents : t.order_intents ≡ s.order_intents
  pub risk_decisions : t.risk_decisions ≡ s.risk_decisions
  pub staged_orders : t.staged_orders ≡ s.staged_orders
  pub broker_events : t.broker_events ≡ s.broker_events
  pub events : t.events ≡ s.events

pub Unchanged-refl : (s : Ledger) → Unchanged s s
Unchanged-refl s = record {
  settings = λ key. refl;
  broker_state = refl;
  order_intents = refl;
  risk_decisions = refl;
  staged_orders = refl;
  broker_events = refl;
  events = refl;
}

Unchanged-trans : {s t u : Ledger} → Unchanged s t → Unchanged t u → Unchanged s u
Unchanged-trans a b = record {
  settings = λ key. b.settings key ∙ a.settings key;
  broker_state = b.broker_state ∙ a.broker_state;
  order_intents = b.order_intents ∙ a.order_intents;
  risk_decisions = b.risk_decisions ∙ a.risk_decisions;
  staged_orders = b.staged_orders ∙ a.staged_orders;
  broker_events = b.broker_events ∙ a.broker_events;
  events = b.events ∙ a.events;
}

abbrev Quiet : Command (Unit {0}) → Type 0
Quiet run = (s : Ledger) → Unchanged s (run s).1

and_then-Unchanged :
    (s : Ledger) (r : Result (Unit {0}) × Ledger) (next : Command (Unit {0}))
    → Unchanged s r.1
    → Quiet next
    → Unchanged s (and_then r next).1
and_then-Unchanged s (ok u, t) next h k = Unchanged-trans h (k t)
and_then-Unchanged s (err e, t) next h k = h

statement-Quiet : (r : Result Tables) → Quiet (statement r)
unfolding setting
statement-Quiet (ok tables) s = record {
  settings = λ key. refl;
  broker_state = refl;
  order_intents = refl;
  risk_decisions = refl;
  staged_orders = refl;
  broker_events = refl;
  events = refl;
}
statement-Quiet (err e) s = Unchanged-refl s

each-Quiet :
    {A : Type 0} (run : A → Command (Unit {0}))
    → ((a : A) → Quiet (run a))
    → (xs : List A) → Quiet (each run xs)
unfolding each
each-Quiet run h [] s = Unchanged-refl s
each-Quiet run h (a ∷ rest) s =
    and_then-Unchanged s (run a s) (each run rest) (h a s) (each-Quiet run h rest)

value_missing :
    (key : String) (rows : List SettingRow)
    → any (λ (row : SettingRow). row.key == key) rows ≡ false
    → value_or_observe (find (λ (row : SettingRow). row.key == key) rows) ≡ "observe"
value_missing key [] h = refl
value_missing key (r ∷ rows) h = ground (arith, value_missing key rows)

value_shown :
    (b : Bool) (now : String) (rest : Option SettingRow)
    → (b ≡ true → value_or_observe rest ≡ "observe")
    → value_or_observe (elim b [
      | true ↦ some (record { key = "trading_mode"; value = "observe"; updated_at = now })
      | false ↦ rest
    ])
      ≡ value_or_observe rest
value_shown true now rest h = sym (h refl)
value_shown false now rest h = refl

-- A default that is added does not show.
setting-added :
    (key now : String) (rows : List SettingRow)
    → value_or_observe (
        find (λ (row : SettingRow). row.key == key) (add_setting "trading_mode" "observe" now rows))
      ≡ value_or_observe (find (λ (row : SettingRow). row.key == key) rows)
setting-added key now rows =
    elim (Bool-cases (any (λ (row : SettingRow). row.key == "trading_mode") rows)) [
      | inl e ↦ rw e refl
      | inr e ↦ rw e (
          value_shown ("trading_mode" == key) now (find (λ (row : SettingRow). row.key == key) rows)
            (λ k.
              subst
                (λ key.
                  value_or_observe (find (λ (row : SettingRow). row.key == key) rows) ≡ "observe")
                ((eq_iff "trading_mode" key).0 k) (value_missing "trading_mode" rows e)))
    ]

module _ (m : Machine) where
  with_settings-Unchanged : (s : Ledger) → Unchanged s (with_settings m s)
  unfolding setting
  with_settings-Unchanged s = record {
    settings = λ key. setting-added key (m.clock s.ticks) s.settings;
    broker_state = refl;
    order_intents = refl;
    risk_decisions = refl;
    staged_orders = refl;
    broker_events = refl;
    events = refl;
  }

  seed_registry-Quiet : Quiet (seed_registry m)
  unfolding seed_registry version_checked put_product_type put_algorithm put_resource
  seed_registry-Quiet s =
      and_then-Unchanged s (version_checked m "product type" m.types.spec_version s) _
        (Unchanged-refl s)
        (λ s.
          and_then-Unchanged s (each (put_product_type m) m.types.product_types s) _
            (each-Quiet (put_product_type m) (λ a s. statement-Quiet _ s) m.types.product_types s)
            (λ s.
              and_then-Unchanged s (version_checked m "algorithm" m.algorithms.spec_version s) _
                (Unchanged-refl s)
                (λ s.
                  and_then-Unchanged s (each (put_algorithm m) m.algorithms.algorithms s) _
                    (each-Quiet (put_algorithm m) (λ a s. statement-Quiet _ s)
                      m.algorithms.algorithms s)
                    (each-Quiet (put_resource m) (λ a s. statement-Quiet _ s)
                      known_resource_declarations))))

  pub ensure_db-Unchanged : (s : Ledger) → Unchanged s (ensure_db m s).1
  unfolding ensure_db
  ensure_db-Unchanged s =
      and_then-Unchanged s (m.schema_found, s) _ (Unchanged-refl s)
        (λ s. Unchanged-trans (with_settings-Unchanged s) (seed_registry-Quiet (with_settings m s)))

  Unchanged-Safe : {s t : Ledger} → Unchanged s t → SafeLedger s → SafeLedger t
  Unchanged-Safe u safe =
      Safe-eq safe (sym u.order_intents) (sym u.risk_decisions) (sym u.staged_orders)
        (sym u.broker_events)

  and_then-Safe :
      {A : Type 0} (r : Result (Unit {0}) × Ledger) (next : Command A)
      → SafeLedger r.1
      → ((t : Ledger) → SafeLedger t → SafeLedger (next t).1)
      → SafeLedger (and_then r next).1
  and_then-Safe (ok u, t) next safe h = h t safe
  and_then-Safe (err e, t) next safe h = safe

  -- A command that is safe behind ensure_db.
  pub ensured-Safe :
      {A : Type 0} (next : Command A) (s : Ledger)
      → SafeLedger s
      → ((t : Ledger) → SafeLedger t → SafeLedger (next t).1)
      → SafeLedger (ensured m next s).1
  unfolding ensure_db
  ensured-Safe next s safe h =
      and_then-Safe (ensure_db m s) next (Unchanged-Safe (ensure_db-Unchanged s) safe) h
