-- ===== src/Replay/Matches/Nodes.antt =====
-- The loop body of replay_workflow of cli/src/framework/replay.rs.
use text.Mathlib.Text.{◌==◌}
use sec_fa.Prelude.{
  String, ◌≡◌, ◌↔◌, ◌⊎◌, inl, inr, [], ◌∷◌, refl, sym, subst, Bool, true, false, not, some, List,
  All, arith, eq_iff, if◌then◌else◌,
}
use sec_fa.Outcome.{
  Result, ok, ◌>>=◌, IsOk, IsOk-of_eq, ok_of, IsOk-bind, IsOk-then, IsOk-bail, context, context-eq,
}
use sec_fa.Json.{Value, text_object}
use sec_fa.Hash.{Digests, content_sha256, config_sha256}
use sec_fa.Registry.{Algorithm, load_algorithm}
use sec_fa.Storage.{DataProduct}
use sec_fa.Graph.{NodeSpec}
use sec_fa.Executor.Run.{Runs}
use sec_fa.Replay.{
  is_recorded, noop_payload, Report, check_products, replay_record, replay_noop, replay_kind,
  replay_algorithm, skip, replay_node, message_of,
}
use sec_fa.Replay.Queries.{workflow_node_record, latest_product_for_node_output}
use sec_fa.Replay.Asks.{Ended, Gave, FirstOutput, MessageOf}
use sec_fa.Replay.Asks.Records.{workflow_node_record_iff, output_product_ids_iff}
use sec_fa.Replay.Asks.Firsts.{
  latest_iff, message_of-MessageOf, MessageOf-message_of, is_recorded_iff,
}
use sec_fa.Replay.Matches.{Replayed}
use sec_fa.Replay.Matches.Products.{Found, check_products_iff}

module _ (d : Digests) (s : Runs) (run : String) where
  -- What is asked of a node that left a record.
  abbrev Recorded : NodeSpec → Algorithm → List String → Type 0
  Recorded node algorithm inputs =
      (outputs : List String) × Gave d.serde s run node.node_id outputs
      × All (Found d s run node algorithm inputs) outputs

  replay_record_iff :
      (node : NodeSpec) (algorithm : Algorithm) (inputs : List String) (report : Report)
      → IsOk (replay_record d s run node algorithm inputs report) ↔ Recorded node algorithm inputs
  unfolding replay_record
  replay_record_iff node algorithm inputs report = (
    λ h.
        let (outputs, e, k) = (IsOk-bind _ _).0 h in
        let (products, f, l) = (IsOk-bind _ _).0 k in
        (
          outputs,
          (output_product_ids_iff d.serde s run node.node_id outputs).0 e,
          (check_products_iff d s run node algorithm inputs outputs).0 (IsOk-of_eq f),
        ),
    λ (outputs, gave, all).
        let e = (output_product_ids_iff d.serde s run node.node_id outputs).1 gave in
        let (products, f) =
          ok_of (check_products d s run node algorithm inputs outputs)
            ((check_products_iff d s run node algorithm inputs outputs).1 all) in
        rw (e, ◌>>=◌, f) tt,
  )

  -- What the algorithm of a noop node would produce with a message.
  abbrev payload_of : NodeSpec → Algorithm → String → Value
  payload_of node algorithm message = text_object (
      ("algorithm", algorithm.algorithm_id)
      ∷ ("config_sha256", config_sha256 d node.config)
      ∷ ("message", message)
      ∷ [])

  -- What is asked of a noop node.
  abbrev Repeated : NodeSpec → Algorithm → Type 0
  Repeated node algorithm =
      (outputs : List String) × (product : DataProduct) × (message : String) × Gave d.serde s run
        node.node_id outputs
      × FirstOutput s.world.store outputs product
      × MessageOf node.config message
      × (content_sha256 d (payload_of node algorithm message) ≡ product.content_sha256)

  replay_noop_iff :
      (node : NodeSpec) (algorithm : Algorithm) (report : Report)
      → IsOk (replay_noop d s run node algorithm report) ↔ Repeated node algorithm
  unfolding replay_noop
  replay_noop_iff node algorithm report =
      let content = content_sha256 d (noop_payload d node algorithm) in
      (
        λ h.
            let (outputs, e, k) = (IsOk-bind _ _).0 h in
            let (product, f, l) = (IsOk-bind _ _).0 k in
            let (same, _) = (IsOk-then _ _).0 l in
            (
              outputs,
              product,
              message_of node.config,
              (output_product_ids_iff d.serde s run node.node_id outputs).0 e,
              (latest_iff s.world.store product outputs).0 (
                  (context-eq
                      (latest_product_for_node_output s.world.store outputs "command_output.v1") _
                      product).0
                    f),
              message_of-MessageOf node.config,
              (eq_iff content product.content_sha256).0 ((IsOk-bail _ _).0 same),
            ),
        λ (outputs, product, message, gave, first, is_message, same). (IsOk-bind _ _).1 (
          outputs,
          (output_product_ids_iff d.serde s run node.node_id outputs).1 gave,
          (IsOk-bind _ _).1 (
            product,
            (context-eq (latest_product_for_node_output s.world.store outputs "command_output.v1") _
                  product).1
                ((latest_iff s.world.store product outputs).1 first),
            (IsOk-then _ _).1 (
              (IsOk-bail _ _).1 (
                  (eq_iff content product.content_sha256).1 (
                    subst
                      (λ t. content_sha256 d (payload_of node algorithm t) ≡ product.content_sha256)
                      (sym (MessageOf-message_of node.config message is_message)) same)),
              tt,
            ),
          ),
        ),
      )

  -- One of three ways to replay.
  kind_iff :
      (is_record is_noop : Bool) (m n : Result Report) (skipped : Report)
      → IsOk (if is_record then m else if not is_noop then ok skipped else n) ↔ (
          ((is_record ≡ true) × IsOk m)
          ⊎ (((is_record ≡ false) × (is_noop ≡ false))
              ⊎ ((is_record ≡ false) × (is_noop ≡ true) × IsOk n)))
  kind_iff true is_noop m n skipped = (λ h. inl (refl, h), λ h. ground arith)
  kind_iff false false m n skipped = (λ h. inr (inl (refl, refl)), λ h. tt)
  kind_iff false true m n skipped = (λ h. inr (inr (refl, refl, h)), λ h. ground arith)

  replay_kind_iff :
      (node : NodeSpec) (algorithm : Algorithm) (report : Report) (status : String)
      (inputs : List String)
      → IsOk (replay_kind d s run node algorithm report (status, inputs)) ↔ (
          (status ≡ "succeeded")
          × (((is_recorded algorithm ≡ true) × Recorded node algorithm inputs)
              ⊎ (((is_recorded algorithm ≡ false)
                    × ((algorithm.executable_kind == "noop_test") ≡ false))
                  ⊎ ((is_recorded algorithm ≡ false)
                      × (algorithm.executable_kind ≡ "noop_test")
                      × Repeated node algorithm))))
  unfolding replay_kind
  replay_kind_iff node algorithm report status inputs =
      let kinds =
        kind_iff (is_recorded algorithm) (algorithm.executable_kind == "noop_test")
          (replay_record d s run node algorithm inputs report)
          (replay_noop d s run node algorithm report)
          (skip node algorithm "executable_kind_not_replayable" report) in
      let by_record = replay_record_iff node algorithm inputs report in
      let by_noop = replay_noop_iff node algorithm report in
      let is_noop = eq_iff algorithm.executable_kind "noop_test" in
      (
        λ h.
            let (a, b) = (IsOk-then _ _).0 h in
            (
              (eq_iff status "succeeded").0 ((IsOk-bail _ _).0 a),
              elim (kinds.0 b) [
                | inl (e, m) ↦ inl (e, by_record.0 m)
                | inr (inl p) ↦ inr (inl p)
                | inr (inr (e, f, m)) ↦ inr (inr (e, is_noop.0 f, by_noop.0 m))
              ],
            ),
        λ (e, c). (IsOk-then _ _).1 (
          (IsOk-bail _ _).1 ((eq_iff status "succeeded").1 e),
          kinds.1 (elim c [
            | inl (e, m) ↦ inl (e, by_record.1 m)
            | inr (inl p) ↦ inr (inl p)
            | inr (inr (e, f, m)) ↦ inr (inr (e, is_noop.1 f, by_noop.1 m))
          ]),
        ),
      )

  recorded_noop :
      (algorithm : Algorithm)
      → algorithm.executable_kind ≡ "noop_test"
      → is_recorded algorithm ≡ false
  recorded_noop algorithm e = rw e refl

  replay_algorithm-Replayed :
      (node : NodeSpec) (report : Report) (algorithm : Algorithm)
      → load_algorithm d.serde s.world.store.tables node.algorithm ≡ some algorithm
      → (b : Bool) → algorithm.deterministic ≡ b
      → IsOk (
          if not b
          then ok (skip node algorithm "algorithm_not_deterministic" report)
          else workflow_node_record d.serde s run node.node_id
            >>= replay_kind d s run node algorithm report)
      → Replayed d s run node
  replay_algorithm-Replayed node report algorithm known false det h =
      Replayed.not_deterministic algorithm known det
  replay_algorithm-Replayed node report algorithm known true det h =
      let ((status, inputs), e, k) =
        (IsOk-bind (workflow_node_record d.serde s run node.node_id)
            (replay_kind d s run node algorithm report)).0
          h in
      let (ended, kind) = (replay_kind_iff node algorithm report status inputs).0 k in
      let record_is : workflow_node_record d.serde s run node.node_id ≡ ok ("succeeded", inputs) =
        rw (← ended) e in
      let last = (workflow_node_record_iff d.serde s run node.node_id inputs).0 record_is in
      elim kind [
        | inl (r, (outputs, o, all)) ↦
            Replayed.recorded algorithm inputs outputs known det last
              ((is_recorded_iff algorithm).0 r) o all
        | inr (inl (r, n)) ↦
            Replayed.not_replayable algorithm inputs known det last (ground (arith, r))
              (ground (arith, r)) n
        | inr (inr (r, n, (outputs, product, message, o, l, c, h))) ↦
            Replayed.repeated algorithm inputs outputs product message known det last n o l c h
      ]

  determined :
      (node : NodeSpec) (report : Report) (algorithm : Algorithm) (inputs : List String)
      → load_algorithm d.serde s.world.store.tables node.algorithm ≡ some algorithm
      → algorithm.deterministic ≡ true
      → Ended d.serde s run node.node_id inputs
      → IsOk (replay_kind d s run node algorithm report ("succeeded", inputs))
      → IsOk (replay_node d s run node report)
  unfolding replay_node replay_algorithm
  determined node report algorithm inputs known det last h =
      let is = (workflow_node_record_iff d.serde s run node.node_id inputs).1 last in
      rw known (
        subst
          (λ b. IsOk (
            if not b
            then ok (skip node algorithm "algorithm_not_deterministic" report)
            else workflow_node_record d.serde s run node.node_id
              >>= replay_kind d s run node algorithm report))
          (sym det) (rw is h))

  replay_node-IsOk :
      (node : NodeSpec) (report : Report)
      → Replayed d s run node
      → IsOk (replay_node d s run node report)
  unfolding replay_node replay_algorithm
  replay_node-IsOk node report (Replayed.not_deterministic algorithm known det) = rw known (
      subst
        (λ b. IsOk (
          if not b
          then ok (skip node algorithm "algorithm_not_deterministic" report)
          else workflow_node_record d.serde s run node.node_id
            >>= replay_kind d s run node algorithm report))
        (sym det) tt)
  replay_node-IsOk node report (Replayed.recorded algorithm inputs outputs known det is r o all) =
      determined node report algorithm inputs known det is (
        (replay_kind_iff node algorithm report "succeeded" inputs).1
          (refl, inl ((is_recorded_iff algorithm).1 r, (outputs, o, all))))
  replay_node-IsOk node report (Replayed.not_replayable algorithm inputs known det is r q n) =
      determined node report algorithm inputs known det is (
        (replay_kind_iff node algorithm report "succeeded" inputs).1
          (refl, inr (inl (ground (arith, r, q), n))))
  replay_node-IsOk node report
        (Replayed.repeated algorithm inputs outputs product message known det is n o l c h) =
      determined node report algorithm inputs known det is (
        (replay_kind_iff node algorithm report "succeeded" inputs).1
          (refl, inr (inr (recorded_noop algorithm n, n, (outputs, product, message, o, l, c, h)))))

  pub replay_node_iff :
      (node : NodeSpec) (report : Report)
      → IsOk (replay_node d s run node report) ↔ Replayed d s run node
  unfolding replay_node replay_algorithm
  replay_node_iff node report = (
    λ h.
        let (algorithm, loaded, k) =
          (IsOk-bind (context (load_algorithm d.serde s.world.store.tables node.algorithm) _) _).0
            h in
        replay_algorithm-Replayed node report algorithm
          ((context-eq (load_algorithm d.serde s.world.store.tables node.algorithm) _ algorithm).0
            loaded)
          algorithm.deterministic refl k,
    replay_node-IsOk node report,
  )
