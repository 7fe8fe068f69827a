-- ===== src/Executor/Persist/Roles.antt =====
-- Which outputs a node that ran gives to later nodes.
use text.Mathlib.Text.{◌==◌}
use sec_fa.Prelude.{
  ℕ, String, ◌≡◌, refl, ap, sym, inl, inr, true, Option, none, List, [], ◌∷◌, ◌++◌, map, arith,
  Bool-cases, if◌then◌else◌,
}
use sec_fa.Outcome.{Result, ok, err, ◌>>=◌, >>=-eq-ok}
use sec_fa.Json.{Value}
use sec_fa.Serde.{to_canonical_json}
use sec_fa.Hash.{Digests, content_sha256}
use sec_fa.Graph.{NodeOutputSpec}
use sec_fa.Executor.{CommandResult, ProducedProduct, noop, command, output_roles_for_type}
use sec_fa.Executor.Persist.{
  World, Context, is_zero, persist_typed_product, persist_roles, persist_outputs, persist_command,
  persist_node_outputs, last_id, command_payload, committed, command_then,
}

-- A role and a product type.
abbrev pub Offer : Type 0
Offer = String × String

abbrev pub offer_of : ProducedProduct → Offer
offer_of p = (p.role, p.product_type)

abbrev pub command_offer : String → Offer
command_offer role = (role, "command_output.v1")

-- The outputs of other types than that of command outputs, in their order.
abbrev pub domain_offers : List NodeOutputSpec → List Offer
domain_offers [] = []
domain_offers (o ∷ rest) =
    if o.product_type == "command_output.v1"
    then domain_offers rest
    else (o.role, o.product_type) ∷ domain_offers rest

map-append :
    (xs ys : List ProducedProduct) → map offer_of (xs ++ ys) ≡ map offer_of xs ++ map offer_of ys
map-append [] ys = refl
map-append (x ∷ xs) ys = ap (λ r. offer_of x ∷ r) (map-append xs ys)

module _ (d : Digests) (clock : ℕ → String) where
  persist_roles-offers :
      (c : Context) (content storage_ref : String) (run_id : Option String) (roles : List String)
      (w w' : World) (products : List ProducedProduct)
      → persist_roles d clock c content storage_ref run_id roles w ≡ ok (products, w')
      → map offer_of products ≡ map command_offer roles
  unfolding persist_roles
  persist_roles-offers c content storage_ref run_id [] w w' products h =
      let same : [] ≡ products = ground arith in rw (sym same) refl
  persist_roles-offers c content storage_ref run_id (role ∷ rest) w w' products h =
      let ((id, w₁), e, k) =
        >>=-eq-ok
          (persist_typed_product d clock c "command_output.v1" content "inline_json" storage_ref w)
          _ h in
      let ((more, w₂), f, l) =
        >>=-eq-ok (persist_roles d clock c content storage_ref run_id rest w₁) _ k in
      let tail = persist_roles-offers c content storage_ref run_id rest w₁ w₂ more f in
      let same : record {
        product_id = id;
        product_type = "command_output.v1";
        role = role;
        run_id = run_id;
      }
            ∷ more
          ≡ products =
        ground arith in
      rw (sym same, tail) refl

  persist_outputs-offers :
      (c : Context) (run_id command_id : Option String) (outputs : List NodeOutputSpec)
      (w w' : World) (products : List ProducedProduct)
      → persist_outputs d clock c run_id command_id outputs w ≡ ok (products, w')
      → map offer_of products ≡ domain_offers outputs
  unfolding persist_outputs
  persist_outputs-offers c run_id command_id [] w w' products h =
      let same : [] ≡ products = ground arith in rw (sym same) refl
  persist_outputs-offers c run_id command_id (o ∷ rest) w w' products h =
      elim (Bool-cases (o.product_type == "command_output.v1")) [
        | inl skip ↦
            rw skip (persist_outputs-offers c run_id command_id rest w w' products (rw skip at h))
        | inr keep ↦
            let k = (rw keep at h) in
            let ((id, w₁), e, l) =
              >>=-eq-ok (persist_typed_product d clock c o.product_type _ "sqlite_ref" _ _) _ k in
            let ((more, w₂), f, z) =
              >>=-eq-ok (persist_outputs d clock c run_id command_id rest w₁) _ l in
            let tail = persist_outputs-offers c run_id command_id rest w₁ w₂ more f in
            let same : record {
              product_id = id;
              product_type = o.product_type;
              role = o.role;
              run_id = run_id;
            }
                  ∷ more
                ≡ products =
              ground arith in
            rw (keep, sym same, tail) refl
      ]

  -- The outputs of a run with exit code 0.
  command_offers :
      (c : Context) (result : CommandResult) (run_id : Option String) (w after w' : World)
      (first products : List ProducedProduct)
      → map offer_of first
        ≡ map command_offer (output_roles_for_type c.node "command_output.v1" "command_output")
      → persist_command d clock c result run_id w (first, after) ≡ (ok products, w')
      → (is_zero result.exit_code ≡ true)
        × (map offer_of products
            ≡ map command_offer (output_roles_for_type c.node "command_output.v1" "command_output")
              ++ domain_offers c.node.outputs)
  unfolding persist_command
  command_offers c result run_id w after w' first products g h =
      elim (Bool-cases (is_zero result.exit_code)) [
        | inr failed ↦ absurd (ground arith)
        | inl passed ↦ (
          passed,
          both (persist_outputs d clock c run_id (last_id d clock first) c.node.outputs after) refl
              (rw passed at h),
        )
      ]
    where
      both :
          (r : Result (List ProducedProduct × World))
          → persist_outputs d clock c run_id (last_id d clock first) c.node.outputs after ≡ r
          → committed d clock w (r >>= λ (others, last). ok (first ++ others, last))
            ≡ (ok products, w')
          → map offer_of products
            ≡ map command_offer (output_roles_for_type c.node "command_output.v1" "command_output")
              ++ domain_offers c.node.outputs
      both (ok (others, last)) e k =
          let same : first ++ others ≡ products = ground arith in
          rw
            (
              sym same,
              map-append first others,
              g,
              persist_outputs-offers c run_id (last_id d clock first) c.node.outputs after last
                  others e,
            )
            refl
      both (err x) e k = absurd (ground arith)

  -- Where a node's command ran and its outputs were stored, the exit code is 0, and the node offers,
  -- in this order, its command output under each role that it declares for it (or else under
  -- "command_output"), and then each of its other declared outputs under its role and type.
  pub command_outputs_complete :
      (c : Context) (result : CommandResult) (run_id : Option String) (w w' : World)
      (products : List ProducedProduct)
      → persist_node_outputs d clock c (command result run_id) w ≡ (ok products, w')
      → (is_zero result.exit_code ≡ true)
        × (map offer_of products
            ≡ map command_offer (output_roles_for_type c.node "command_output.v1" "command_output")
              ++ domain_offers c.node.outputs)
  unfolding persist_node_outputs
  command_outputs_complete c result run_id w w' products h = from _ refl h
    where
      from :
          (r : Result (List ProducedProduct × World))
          → persist_roles d clock c
              (content_sha256 d (command_payload d clock result))
              (to_canonical_json d.serde (command_payload d clock result))
              run_id
              (output_roles_for_type c.node "command_output.v1" "command_output")
              w
            ≡ r
          → command_then d clock c result run_id w r ≡ (ok products, w')
          → (is_zero result.exit_code ≡ true)
            × (map offer_of products
                ≡ map command_offer
                    (output_roles_for_type c.node "command_output.v1" "command_output")
                  ++ domain_offers c.node.outputs)
      from (ok (first, after)) e k =
          command_offers c result run_id w after w' first products
            (persist_roles-offers c _ _ run_id _ w after first e) k
      from (err x) e k = absurd (ground arith)

  -- A node with a test algorithm that ran offers command outputs only: one under each role that it
  -- declares for them, or else one under "output".
  pub noop_outputs :
      (c : Context) (payload : Value) (w w' : World) (products : List ProducedProduct)
      → persist_node_outputs d clock c (noop payload) w ≡ (ok products, w')
      → map offer_of products
        ≡ map command_offer (output_roles_for_type c.node "command_output.v1" "output")
  unfolding persist_node_outputs
  noop_outputs c payload w w' products h = from _ refl h
    where
      from :
          (r : Result (List ProducedProduct × World))
          → persist_roles d clock c
              (content_sha256 d payload)
              (to_canonical_json d.serde payload)
              none
              (output_roles_for_type c.node "command_output.v1" "output")
              w
            ≡ r
          → committed d clock w r ≡ (ok products, w')
          → map offer_of products
            ≡ map command_offer (output_roles_for_type c.node "command_output.v1" "output")
      from (ok (first, after)) e k =
          let same : first ≡ products = ground arith in
          rw (sym same) (persist_roles-offers c _ _ none _ w after first e)
      from (err x) e k = absurd (ground arith)
