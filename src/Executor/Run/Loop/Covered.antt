-- ===== src/Executor/Run/Loop/Covered.antt =====
-- Which products a node adds in its turn of the loop of `run_validated_workflow` of
-- cli/src/framework/executor.rs.
use text.Mathlib.Text.{◌==◌}
use mathlib.Core.List.Memᴰ
use sec_fa.Prelude.{
  ℕ, String, ◌≡◌, ap, sym, subst, inl, inr, true, false, Option, List, [], ◌∷◌, ◌++◌, map, Memᴰ,
  all_of, Bool-cases, arith, eq_iff,
}
use sec_fa.Outcome.{ok}
use sec_fa.BTreeMap.{Pair, pair_ord, insert, contains_key}
use sec_fa.BTreeMap.Laws.{get-insert}
use sec_fa.Hash.{Digests}
use sec_fa.Graph.{NodeOutputSpec}
use sec_fa.Executor.{
  CommandResult, ProducedProduct, Produced, command, output_roles_for_type, roles_of, or_fallback,
}
use sec_fa.Executor.Resolve.{IsProduced}
use sec_fa.Executor.Persist.{World, Context, persist_node_outputs}
use sec_fa.Executor.Persist.Roles.{
  Offer, offer_of, command_offer, domain_offers, command_outputs_complete,
}
use sec_fa.Executor.Run.Loop.{add_outputs}

pub add_outputs-keeps :
    (node_id : String) (outputs : List ProducedProduct) (produced : Produced) (key : Pair)
    → contains_key key produced ≡ true
    → contains_key key (add_outputs node_id outputs produced) ≡ true
unfolding add_outputs
add_outputs-keeps node_id [] produced key h = h
add_outputs-keeps node_id (p ∷ rest) produced key h =
    add_outputs-keeps node_id rest (insert (node_id, p.role) p produced) key
      (ground (arith, get-insert key (node_id, p.role) p produced))

-- An output that is offered is there.
add_outputs-offered :
    (node_id : String) (outputs : List ProducedProduct) (produced : Produced) (offer : Offer)
    → Memᴰ offer (map offer_of outputs)
    → contains_key (node_id, offer.0) (add_outputs node_id outputs produced) ≡ true
unfolding add_outputs
add_outputs-offered node_id [] produced offer m = elim m [ ]
add_outputs-offered node_id (p ∷ rest) produced offer m = elim (Memᴰ.cases_cons m) [
  | inl same ↦
      add_outputs-keeps node_id rest (insert (node_id, p.role) p produced) (node_id, offer.0)
        (rw same (
          ground (
            arith,
            get-insert (node_id, p.role) (node_id, p.role) p produced,
            eq_iff node_id node_id,
            eq_iff p.role p.role,
          )))
  | inr later ↦ add_outputs-offered node_id rest (insert (node_id, p.role) p produced) offer later
]

-- Every declared output of a node is offered by its command.
roles_of-mem :
    (outputs : List NodeOutputSpec) (o : NodeOutputSpec)
    → Memᴰ o outputs
    → (o.product_type == "command_output.v1") ≡ true
    → Memᴰ o.role (roles_of "command_output.v1" outputs)
unfolding roles_of
roles_of-mem [] o m h = elim m [ ]
roles_of-mem (p ∷ rest) o m h = elim (Bool-cases (p.product_type == "command_output.v1")) [
  | inl hit ↦ rw hit (elim (Memᴰ.cases_cons m) [
    | inl same ↦ Memᴰ.head (ap (λ (x : NodeOutputSpec). x.role) same)
    | inr later ↦ Memᴰ.tail (roles_of-mem rest o later h)
  ])
  | inr miss ↦ rw miss (elim (Memᴰ.cases_cons m) [
    | inl same ↦ absurd (ground (arith, ap (λ (x : NodeOutputSpec). x.product_type) same))
    | inr later ↦ roles_of-mem rest o later h
  ])
]

or_fallback-mem :
    (roles : List String) (fallback role : String)
    → Memᴰ role roles
    → Memᴰ role (or_fallback roles fallback)
or_fallback-mem [] fallback role m = elim m [ ]
or_fallback-mem (r ∷ rs) fallback role m = m

domain_offers-mem :
    (outputs : List NodeOutputSpec) (o : NodeOutputSpec)
    → Memᴰ o outputs
    → (o.product_type == "command_output.v1") ≡ false
    → Memᴰ (o.role, o.product_type) (domain_offers outputs)
domain_offers-mem [] o m h = elim m [ ]
domain_offers-mem (p ∷ rest) o m h = elim (Bool-cases (p.product_type == "command_output.v1")) [
  | inl hit ↦ rw hit (elim (Memᴰ.cases_cons m) [
    | inl same ↦ absurd (ground (arith, ap (λ (x : NodeOutputSpec). x.product_type) same))
    | inr later ↦ domain_offers-mem rest o later h
  ])
  | inr miss ↦ rw miss (elim (Memᴰ.cases_cons m) [
    | inl same ↦ Memᴰ.head (ap (λ (x : NodeOutputSpec). (x.role, x.product_type)) same)
    | inr later ↦ Memᴰ.tail (domain_offers-mem rest o later h)
  ])
]

offered :
    (outputs : List NodeOutputSpec) (roles : List String) (o : NodeOutputSpec)
    → Memᴰ o outputs
    → ((o.product_type == "command_output.v1") ≡ true → Memᴰ o.role roles)
    → Memᴰ (o.role, o.product_type) (map command_offer roles ++ domain_offers outputs)
offered outputs roles o m f = elim (Bool-cases (o.product_type == "command_output.v1")) [
  | inl hit ↦
      let type : o.product_type ≡ "command_output.v1" =
        ground (arith, eq_iff o.product_type "command_output.v1") in
      subst (λ t. Memᴰ (o.role, t) (map command_offer roles ++ domain_offers outputs)) (sym type)
        (Memᴰ.append_left _ (Memᴰ.map command_offer (f hit)))
  | inr miss ↦ Memᴰ.append_right (map command_offer roles) (domain_offers-mem outputs o m miss)
]

-- The products of a command that ran cover the outputs of its node.
pub command-IsProduced :
    (d : Digests) (clock : ℕ → String) (c : Context) (result : CommandResult)
    (run_id : Option String) (w w' : World) (products : List ProducedProduct) (produced : Produced)
    → persist_node_outputs d clock c (command result run_id) w ≡ (ok products, w')
    → IsProduced (add_outputs c.node.node_id products produced) c.node
unfolding output_roles_for_type
command-IsProduced d clock c result run_id w w' products produced h =
    let (_, offers) = command_outputs_complete d clock c result run_id w w' products h in
    all_of
      (λ (o : NodeOutputSpec).
        contains_key (c.node.node_id, o.role) (add_outputs c.node.node_id products produced) ≡ true)
      c.node.outputs
      (λ o m.
        add_outputs-offered c.node.node_id products produced (o.role, o.product_type)
          (rw offers (
            offered c.node.outputs
              (output_roles_for_type c.node "command_output.v1" "command_output") o m
              (λ hit.
                or_fallback-mem _ "command_output" o.role (roles_of-mem c.node.outputs o m hit)))))
