-- ===== src/Executor/Run/Loop/Status.antt =====
-- The status that `run_validated_workflow` of cli/src/framework/executor.rs leaves in the row of a
-- run.
use text.Mathlib.Text.{◌==◌}
use sec_fa.Prelude.{
  ℕ, String, ◌≡◌, refl, sym, ◌∙◌, subst, Bool, true, false, Option, none, some, List, [], ◌∷◌, map,
  any, inl, inr, arith, eq_iff, if◌then◌else◌,
}
use sec_fa.Outcome.{Result, ok, err, ◌>>◌, Result-cases}
use sec_fa.Timestamp.{TimeParsers}
use sec_fa.Invariants.{InvariantViolation}
use sec_fa.Registry.{Algorithm}
use sec_fa.Hash.{Digests}
use sec_fa.Graph.{NodeSpec, WorkflowSpec, ValidatedWorkflow}
use sec_fa.Executor.{ProducedProduct, Produced, Operation}
use sec_fa.Executor.Run.{
  RunRow, Runs, tick, has_run, has_spec, update_run, insert_run, with_run, insert_node_running,
  mark_node_finished, mark_workflow_status, mark_workflow_finished, persist_violations,
}
use sec_fa.Executor.Run.Loop.{
  settle_node, inserted_node, ids_of, start_node, check_node, checked_node, run_node, run_nodes,
  new_run, begun, run_validated_workflow,
}

-- The status in the row of a run.
abbrev pub status_of : String → List RunRow → Option String
status_of run [] = none
status_of run (row ∷ rows) =
    let rest = status_of run rows in if has_run run row then some row.status else rest

abbrev pub is_ok {ℓ} : {A : Type ℓ} → Result A → Bool
is_ok (ok a) = true
is_ok (err e) = false

abbrev pub says_succeeded : Option String → Bool
says_succeeded none = false
says_succeeded (some status) = status == "succeeded"

status_of-update :
    (now run status diagnostics old : String) (rows : List RunRow)
    → status_of run rows ≡ some old
    → status_of run (map (update_run now run status diagnostics) rows) ≡ some status
status_of-update now run status diagnostics old [] h = absurd (cc)
status_of-update now run status diagnostics old (row ∷ rows) h =
    ground (arith, status_of-update now run status diagnostics old rows)

-- The run has a row, which does not say that it succeeded.
Unfinished : String → Runs → Type 0
Unfinished run s =
    (status : String) × (status_of run s.workflow_runs ≡ some status)
    × ((status == "succeeded") ≡ false)

module _ (d : Digests) (clock : ℕ → String) where
  mark-Unfinished :
      (run status diagnostics : String) (s : Runs)
      → (status == "succeeded") ≡ false
      → Unfinished run s
      → Unfinished run (mark_workflow_status d clock run status diagnostics s)
  unfolding Unfinished mark_workflow_status
  mark-Unfinished run status diagnostics s apart (old, e, f) = (
    status,
    status_of-update (clock s.world.ticks) run status diagnostics old s.workflow_runs e,
    apart,
  )

  violations-Unfinished :
      (run : String) (vs : List InvariantViolation) (s : Runs)
      → Unfinished run s
      → Unfinished run (persist_violations d clock run vs s)
  unfolding Unfinished persist_violations
  violations-Unfinished run [] s h = h
  violations-Unfinished run (v ∷ vs) s h = violations-Unfinished run vs _ h

module _ (d : Digests) (clock : ℕ → String) (time : TimeParsers)
    (run_inner : NodeSpec → Algorithm → Option String → Operation) (spec : WorkflowSpec)
    (run : String) where
  settle-Unfinished :
      (node_run : String) (node : NodeSpec) (produced : Produced)
      (r : Result (List ProducedProduct)) (s : Runs)
      → Unfinished run s
      → Unfinished run (settle_node d clock time run_inner spec run node_run node produced r s).1
  unfolding settle_node mark_node_finished Unfinished
  settle-Unfinished node_run node produced (ok outputs) s h = h
  settle-Unfinished node_run node produced (err e) s h =
      mark-Unfinished d clock run "failed" _ (mark_node_finished d clock node_run "failed" "[]" _ s)
        refl h

  insert_node_running-runs :
      (node_run : String) (node : NodeSpec) (a : Algorithm) (cell config : String)
      (inputs : List String) (s t : Runs)
      → insert_node_running d clock run node_run node a cell config inputs s ≡ ok t
      → t.workflow_runs ≡ s.workflow_runs
  unfolding insert_node_running
  insert_node_running-runs node_run node a cell config inputs s t h = ground arith

  inserted-Unfinished :
      (cell config node_run : String) (node : NodeSpec) (a : Algorithm)
      (inputs : List ProducedProduct) (produced : Produced) (s : Runs) (r : Result Runs)
      → insert_node_running d clock run node_run node a cell config (ids_of inputs) s ≡ r
      → Unfinished run s
      → Unfinished run
          (inserted_node d clock time run_inner spec run cell config node_run node a inputs produced
            s r).1
  unfolding inserted_node Unfinished
  inserted-Unfinished cell config node_run node a inputs produced s (err e) r h = h
  inserted-Unfinished cell config node_run node a inputs produced s (ok t) r h =
      let same = insert_node_running-runs node_run node a cell config (ids_of inputs) s t r in
      settle-Unfinished node_run node produced _ _ (rw same h)

  start-Unfinished :
      (node : NodeSpec) (a : Algorithm) (inputs : List ProducedProduct) (produced : Produced)
      (s : Runs)
      → Unfinished run s
      → Unfinished run (start_node d clock time run_inner spec run node a inputs produced s).1
  unfolding start_node
  start-Unfinished node a inputs produced s h =
      inserted-Unfinished _ _ _ node a inputs produced s _ refl h

  check-Unfinished :
      (node : NodeSpec) (a : Algorithm) (inputs : List ProducedProduct) (produced : Produced)
      (s : Runs) (r : Result (List InvariantViolation))
      → Unfinished run s
      → Unfinished run (check_node d clock time run_inner spec run node a inputs produced s r).1
  unfolding check_node mark_workflow_finished
  check-Unfinished node a inputs produced s (err e) h = h
  check-Unfinished node a inputs produced s (ok []) h = start-Unfinished node a inputs produced s h
  check-Unfinished node a inputs produced s (ok (v ∷ vs)) h =
      mark-Unfinished d clock run "rejected" _ (persist_violations d clock run (v ∷ vs) s) refl
        (violations-Unfinished d clock run (v ∷ vs) s h)

  checked-Unfinished :
      (produced : Produced) (s : Runs) (r : Result (NodeSpec × Algorithm × List ProducedProduct))
      → Unfinished run s
      → Unfinished run (checked_node d clock time run_inner spec run produced s r).1
  checked-Unfinished produced s (err e) h = h
  checked-Unfinished produced s (ok (node, a, inputs)) h =
      check-Unfinished node a inputs produced s _ h

  run_node-Unfinished :
      (node_id : String) (produced : Produced) (s : Runs)
      → Unfinished run s
      → Unfinished run (run_node d clock time run_inner spec run node_id produced s).1
  unfolding run_node
  run_node-Unfinished node_id produced s h = checked-Unfinished produced s _ h

  run_nodes-status :
      (order : List String) (produced : Produced) (s : Runs)
      → Unfinished run s
      → is_ok (run_nodes d clock time run_inner spec run order produced s).0
        ≡ says_succeeded (
            status_of run
              (run_nodes d clock time run_inner spec run order produced s).1.workflow_runs)
  unfolding run_nodes mark_workflow_status Unfinished
  run_nodes-status [] produced s (old, e, f) =
      rw (status_of-update (clock s.world.ticks) run "succeeded" "" old s.workflow_runs e) refl
  run_nodes-status (node_id ∷ rest) produced s h =
      let next = run_node-Unfinished node_id produced s h in
      elim (Result-cases (run_node d clock time run_inner spec run node_id produced s).0) [
        | inl (outputs, e) ↦ ground (
          arith,
          e,
          run_nodes-status rest outputs
              (run_node d clock time run_inner spec run node_id produced s).1 next,
        )
        | inr (text, e) ↦ ground (arith, e, next.1, next.2)
      ]

is_ok-then : {A : Type 0} (r : Result (Unit {0})) (a : A) → is_ok (r >> ok a) ≡ is_ok r
is_ok-then (ok u) a = refl
is_ok-then (err e) a = refl

with_run-Unfinished :
    (d : Digests) (clock : ℕ → String) (run created_at : String) (validated : ValidatedWorkflow)
    (s : Runs)
    → Unfinished run (with_run d clock run created_at validated s)
unfolding with_run Unfinished
with_run-Unfinished d clock run created_at validated s =
    ("running", ground (arith, eq_iff run run), refl)

insert_run-eq :
    (d : Digests) (clock : ℕ → String) (run created_at : String) (validated : ValidatedWorkflow)
    (s : Runs)
    → any (has_run run) s.workflow_runs ≡ false
    → any (has_spec run) s.workflow_run_specs ≡ false
    → insert_run d clock run created_at validated s
      ≡ ok (with_run d clock run created_at validated s)
unfolding insert_run
insert_run-eq d clock run created_at validated s h k = rw (h, k) refl

-- When the id of a new run is taken neither in workflow_runs nor in workflow_run_specs,
-- `run_validated_workflow` returns without an error exactly if, in the tables it leaves, the row
-- of that run says that it succeeded.
pub run_validated_workflow-status :
    (d : Digests) (clock : ℕ → String) (time : TimeParsers)
    (run_inner : NodeSpec → Algorithm → Option String → Operation) (validated : ValidatedWorkflow)
    (s : Runs)
    → any (has_run (new_run d clock time run_inner validated s)) s.workflow_runs ≡ false
    → any (has_spec (new_run d clock time run_inner validated s)) s.workflow_run_specs ≡ false
    → is_ok (run_validated_workflow d clock time run_inner validated s).0
      ≡ says_succeeded (
          status_of
            (new_run d clock time run_inner validated s)
            (run_validated_workflow d clock time run_inner validated s).1.workflow_runs)
unfolding run_validated_workflow begun
run_validated_workflow-status d clock time run_inner validated s h k =
    let run = new_run d clock time run_inner validated s in
    let t = with_run d clock run (clock s.world.ticks) validated (tick s) in
    let opened = insert_run-eq d clock run (clock s.world.ticks) validated (tick s) h k in
    let fresh = with_run-Unfinished d clock run (clock s.world.ticks) validated (tick s) in
    let ended =
      run_nodes-status d clock time run_inner validated.parsed.spec run validated.order [] t
        fresh in
    let same =
      is_ok-then (run_nodes d clock time run_inner validated.parsed.spec run validated.order [] t).0
        run in
    subst
      (λ r.
        is_ok (begun d clock time run_inner run validated (tick s) r).0
        ≡ says_succeeded
            (status_of run (begun d clock time run_inner run validated (tick s) r).1.workflow_runs))
      (sym opened) (same ∙ ended)
