-- ===== src/Replay/Asks/Firsts.antt =====
-- The first rows and the payloads of cli/src/framework/replay.rs, as it is asked for them.
use text.Mathlib.Text.{◌==◌}
use sec_fa.Prelude.{
  String, ◌≡◌, ◌↔◌, refl, sym, subst, ap, inl, inr, ◌⊎◌, true, false, Option, none, some, List, [],
  ◌∷◌, ◌++◌, find, unwrap_or, All, arith, eq_iff, Bool-cases, Option-cases,
}
use sec_fa.Outcome.{ok, context-eq, >>=-eq-ok, ok-injective}
use sec_fa.Json.{
  pos, negsuc, Value, null, bool, number, int, float, string, array, object, get, as_i64,
}
use sec_fa.Storage.{Store, DataProduct, load_product}
use sec_fa.Registry.{Algorithm}
use sec_fa.Executor.Run.{Runs, SpecRow, has_spec}
use sec_fa.Replay.{exit_code_of, bind, message_of, message_text, is_recorded}
use sec_fa.Replay.Queries.{latest_product_for_node_output, workflow_spec_row, no_rows}
use sec_fa.Replay.Asks.{FirstOutput, SpecOf, MessageOf}

module _ (store : Store) (product : DataProduct) where
  latest-FirstOutput :
      (ids : List String)
      → latest_product_for_node_output store ids "command_output.v1" ≡ some product
      → FirstOutput store ids product
  unfolding latest_product_for_node_output
  latest-FirstOutput [] h = absurd (cc)
  latest-FirstOutput (id ∷ rest) h = elim (Option-cases (load_product store id)) [
    | inl e ↦
        skip (λ q f. absurd (cc))
          (latest-FirstOutput rest (rw (latest_product_for_node_output, e) at h))
    | inr (q, e) ↦ elim (Bool-cases (q.product_type == "command_output.v1")) [
      | inl k ↦
          let same : q ≡ product = (let f = rw (latest_product_for_node_output, e, k) at h in cc) in
          record {
            earlier = [];
            id = id;
            later = rest;
            split = refl;
            loaded = rw (← same) e;
            output = rw (← same) ((eq_iff q.product_type "command_output.v1").0 k);
            others = tt;
          }
      | inr k ↦
          skip
            (λ p f.
              let same : q ≡ p = cc in
              subst (λ (r : DataProduct). (r.product_type == "command_output.v1") ≡ false) same k)
            (latest-FirstOutput rest (rw (latest_product_for_node_output, e, k) at h))
    ]
  ]
    where
      skip :
          ((q : DataProduct)
            → load_product store id ≡ some q
            → (q.product_type == "command_output.v1") ≡ false)
          → FirstOutput store rest product
          → FirstOutput store (id ∷ rest) product
      skip lacks f = record {
        earlier = id ∷ f.earlier;
        id = f.id;
        later = f.later;
        split = ap (λ l. id ∷ l) f.split;
        loaded = f.loaded;
        output = f.output;
        others = (lacks, f.others);
      }

  latest_split :
      (earlier : List String) (id : String) (later : List String)
      → load_product store id ≡ some product
      → product.product_type ≡ "command_output.v1"
      → All
          (λ i.
            (q : DataProduct)
            → load_product store i ≡ some q
            → (q.product_type == "command_output.v1") ≡ false)
          earlier
      → latest_product_for_node_output store (earlier ++ id ∷ later) "command_output.v1"
        ≡ some product
  unfolding latest_product_for_node_output
  latest_split [] id later e t h =
      let k = (eq_iff product.product_type "command_output.v1").1 t in
      rw (◌++◌, latest_product_for_node_output, e, k) refl
  latest_split (i ∷ earlier) id later e t h =
      let rest = latest_split earlier id later e t h.1 in
      elim (Option-cases (load_product store i)) [
        | inl none_there ↦ rw (◌++◌, latest_product_for_node_output, none_there) rest
        | inr (q, f) ↦ let k = h.0 q f in rw (◌++◌, latest_product_for_node_output, f, k) rest
      ]

  pub latest_iff :
      (ids : List String)
      → (latest_product_for_node_output store ids "command_output.v1" ≡ some product)
        ↔ FirstOutput store ids product
  latest_iff ids = (
    latest-FirstOutput ids,
    (λ f. rw f.split (latest_split f.earlier f.id f.later f.loaded f.output f.others)),
  )

module _ (run : String) (row : SpecRow) where
  abbrev IsFirst : List SpecRow → Type 0
  IsFirst rows =
      (earlier : List SpecRow) × (later : List SpecRow) × (rows ≡ earlier ++ row ∷ later)
      × (row.workflow_run_id ≡ run)
      × All (λ (r : SpecRow). (r.workflow_run_id == run) ≡ false) earlier

  find-IsFirst : (rows : List SpecRow) → find (has_spec run) rows ≡ some row → IsFirst rows
  find-IsFirst [] h = absurd (cc)
  find-IsFirst (r ∷ rows) h = elim (Bool-cases (r.workflow_run_id == run)) [
    | inl e ↦
        let same : r ≡ row = (let f = rw (find, e) at h in cc) in
        ([], rows, ap (λ x. x ∷ rows) same, rw (← same) ((eq_iff r.workflow_run_id run).0 e), tt)
    | inr e ↦
        let (earlier, later, split, of, others) = find-IsFirst rows (rw (find, e) at h) in
        (r ∷ earlier, later, ap (λ l. r ∷ l) split, of, (e, others))
  ]

  find_split :
      (earlier later : List SpecRow)
      → row.workflow_run_id ≡ run
      → All (λ (r : SpecRow). (r.workflow_run_id == run) ≡ false) earlier
      → find (has_spec run) (earlier ++ row ∷ later) ≡ some row
  find_split [] later of h =
      let e = (eq_iff row.workflow_run_id run).1 of in rw (◌++◌, find, e) refl
  find_split (r ∷ earlier) later of h =
      let e = h.0 in rw (◌++◌, find, e) (find_split earlier later of h.1)

pub workflow_spec_row_iff :
    (s : Runs) (run spec_json spec_sha256 : String)
    → (workflow_spec_row s run ≡ ok (spec_json, spec_sha256)) ↔ (
        (row : SpecRow) × SpecOf s run row
        × (row.workflow_spec_json ≡ spec_json)
        × (row.workflow_spec_sha256 ≡ spec_sha256))
unfolding workflow_spec_row
workflow_spec_row_iff s run spec_json spec_sha256 = (
  (λ h.
      let (row, e, k) = >>=-eq-ok _ _ h in
      let pair : (row.workflow_spec_json, row.workflow_spec_sha256) ≡ (spec_json, spec_sha256) =
        ok-injective k in
      let (earlier, later, split, of, others) =
        find-IsFirst run row s.workflow_run_specs ((context-eq _ no_rows row).0 e) in
      (
        row,
        record { earlier = earlier; later = later; split = split; of = of; others = others },
        ap (λ (p : String × String). p.0) pair,
        ap (λ (p : String × String). p.1) pair,
      )),
  (λ (row, f, j, h).
      let found = find_split run row f.earlier f.later f.of f.others in
      rw (f.split, found, j, h) refl),
)

exit_code_iff_of :
    (o : Option Value)
    → (unwrap_or (bind o as_i64) (negsuc 0) ≡ pos 0) ↔ (o ≡ some (number (int (pos 0))))
exit_code_iff_of none = ((λ h. absurd (cc)), (λ h. absurd (cc)))
exit_code_iff_of (some null) = ((λ h. absurd (cc)), (λ h. absurd (cc)))
exit_code_iff_of (some (bool b)) = ((λ h. absurd (cc)), (λ h. absurd (cc)))
exit_code_iff_of (some (number (int z))) = ((λ h. ap (λ z. some (number (int z))) h), (λ h. cc))
exit_code_iff_of (some (number (float f))) = ((λ h. absurd (cc)), (λ h. absurd (cc)))
exit_code_iff_of (some (string t)) = ((λ h. absurd (cc)), (λ h. absurd (cc)))
exit_code_iff_of (some (array xs)) = ((λ h. absurd (cc)), (λ h. absurd (cc)))
exit_code_iff_of (some (object fs)) = ((λ h. absurd (cc)), (λ h. absurd (cc)))

pub exit_code_iff :
    (payload : Value)
    → (exit_code_of payload ≡ pos 0) ↔ (get "exit_code" payload ≡ some (number (int (pos 0))))
exit_code_iff payload = exit_code_iff_of (get "exit_code" payload)

-- A configuration has one message.
message_cases :
    (o : Option Value)
    → ((text : String) × (o ≡ some (string text)) × (unwrap_or (message_text o) "" ≡ text))
      ⊎ (((text : String) → o ≡ some (string text) → ⊥) × (unwrap_or (message_text o) "" ≡ ""))
message_cases none = inr ((λ t h. absurd (cc)), refl)
message_cases (some null) = inr ((λ t h. absurd (cc)), refl)
message_cases (some (bool b)) = inr ((λ t h. absurd (cc)), refl)
message_cases (some (number n)) = inr ((λ t h. absurd (cc)), refl)
message_cases (some (string t)) = inl (t, refl, refl)
message_cases (some (array xs)) = inr ((λ t h. absurd (cc)), refl)
message_cases (some (object fs)) = inr ((λ t h. absurd (cc)), refl)

pub message_of-MessageOf : (config : Value) → MessageOf config (message_of config)
message_of-MessageOf config = elim (message_cases (get "message" config)) [
  | inl (t, e, f) ↦ subst (MessageOf config) (sym f) (MessageOf.given t e)
  | inr (lacks, f) ↦ subst (MessageOf config) (sym f) (MessageOf.absent lacks)
]

pub MessageOf-message_of :
    (config : Value) (text : String) → MessageOf config text → message_of config ≡ text
MessageOf-message_of config text (MessageOf.given t e) = rw e refl
MessageOf-message_of config text (MessageOf.absent lacks) =
    elim (message_cases (get "message" config)) [
      | inl (t, e, f) ↦ absurd (lacks t e)
      | inr (_, f) ↦ f
    ]

pub is_recorded_iff :
    (algorithm : Algorithm)
    → (is_recorded algorithm ≡ true)
      ↔ ((algorithm.executable_kind ≡ "rust_operation") ⊎ (algorithm.executable_kind ≡ "command"))
is_recorded_iff algorithm = ground (
  arith,
  eq_iff algorithm.executable_kind "rust_operation",
  eq_iff algorithm.executable_kind "command",
)
