-- ===== src/Hash/Order.antt =====
-- The order of parents and inputs in the ids of cli/src/framework/hash.rs.
use mathlib.Core.List.{Permᴰ}
use mathlib.Core.List.Permᴰ
use sec_fa.Prelude.{
  String, ◌≡◌, refl, sym, subst, inl, inr, ◌∙◌, Option, Bool-cases, List, [], ◌∷◌, arith, eq_iff,
}
use sec_fa.Prelude.Text.{str_ltb, str_ltb_trans, str_ltb_total, str_ltb_irrefl}
use sec_fa.Json.{ℤ}
use sec_fa.Hash.{Digests, insert_sorted, sort, product_id, node_run_id}

insert_sorted_comm :
    (x y : String) (zs : List String)
    → insert_sorted x (insert_sorted y zs) ≡ insert_sorted y (insert_sorted x zs)
unfolding insert_sorted
insert_sorted_comm x y [] =
    ground (arith, str_ltb_total x y, str_ltb_trans x y x, str_ltb_irrefl x, eq_iff x y)
insert_sorted_comm x y (z ∷ zs) = ground (
  arith,
  insert_sorted_comm x y zs,
  str_ltb_total x y,
  str_ltb_trans x y x,
  str_ltb_irrefl x,
  eq_iff x y,
  str_ltb_trans z x y,
  str_ltb_trans z y x,
)

pub sort-eq : {xs ys : List String} → Permᴰ xs ys → sort xs ≡ sort ys
unfolding sort
sort-eq Permᴰ.nil = refl
sort-eq (Permᴰ.cons e p) = rw (e, sort-eq p)
sort-eq (Permᴰ.swap {a} {b} {a'} {b'} {l} e f) = rw (e, f, insert_sorted_comm b' a' (sort l))
sort-eq (Permᴰ.trans p q) = sort-eq p ∙ sort-eq q

insert_sorted-perm : (x : String) (ys : List String) → Permᴰ (x ∷ ys) (insert_sorted x ys)
unfolding insert_sorted
insert_sorted-perm x [] = Permᴰ.refl (x ∷ [])
insert_sorted-perm x (y ∷ ys) = elim (Bool-cases (str_ltb y x)) [
  | inl e ↦ rw e (Permᴰ.trans (Permᴰ.swap refl refl) (Permᴰ.cons refl (insert_sorted-perm x ys)))
  | inr e ↦ rw e (Permᴰ.refl (x ∷ y ∷ ys))
]

sort-perm : (xs : List String) → Permᴰ xs (sort xs)
unfolding sort
sort-perm [] = Permᴰ.nil
sort-perm (x ∷ xs) = Permᴰ.trans (Permᴰ.cons refl (sort-perm xs)) (insert_sorted-perm x (sort xs))

-- Two lists that are equal once sorted are rearrangements of one another.
pub perm_of_sort : (xs ys : List String) → sort xs ≡ sort ys → Permᴰ xs ys
perm_of_sort xs ys e =
    Permᴰ.trans (sort-perm xs) (subst (λ l. Permᴰ l ys) (sym e) (Permᴰ.symm (sort-perm ys)))

-- The id of a product does not depend on the order of its parents.
pub product_id-order :
    (d : Digests) (product_type schema_name : String) (schema_version : ℤ) (cell_id : String)
    (family_id : Option String) (content algorithm_id algorithm_version config : String)
    (parents others : List String) (available_at : String)
    → Permᴰ parents others
    → product_id d product_type schema_name schema_version cell_id family_id content algorithm_id
        algorithm_version config parents available_at
      ≡ product_id d product_type schema_name schema_version cell_id family_id content algorithm_id
          algorithm_version config others available_at
unfolding product_id
product_id-order d product_type schema_name schema_version cell_id family_id content algorithm_id
      algorithm_version config parents others available_at p =
    rw (sort-eq p)

-- The id of a node's run does not depend on the order of its input products.
pub node_run_id-order :
    (d : Digests) (workflow_run_id node_id cell_id algorithm_id config : String)
    (inputs others : List String)
    → Permᴰ inputs others
    → node_run_id d workflow_run_id node_id cell_id algorithm_id config inputs
      ≡ node_run_id d workflow_run_id node_id cell_id algorithm_id config others
unfolding node_run_id
node_run_id-order d workflow_run_id node_id cell_id algorithm_id config inputs others p =
    rw (sort-eq p)
