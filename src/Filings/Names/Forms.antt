-- ===== src/Filings/Names/Forms.antt =====
-- `sort` followed by `dedup`, as in `sql_form_filter_clause` of filings/src/lib.rs, gives the members
-- of a sorted set.
use text.Mathlib.Text.{◌==◌}
use sec_fa.Prelude.{
  String, ◌≡◌, refl, ◌∙◌, ap, Bool, true, false, ◌||◌, List, [], ◌∷◌, any, arith, eq_iff,
  if◌then◌else◌,
}
use sec_fa.Prelude.Text.{str_ltb, str_ltb_irrefl, str_ltb_trans, str_ltb_total}
use sec_fa.Hash.{sort, insert_sorted}
use sec_fa.Filings.Names.{dedup, dedup_from}

-- Insertion into a list without repetitions, sorted.
abbrev pub set_insert : String → List String → List String
set_insert k [] = k ∷ []
set_insert k (j ∷ js) =
    if k == j then k ∷ js else if str_ltb k j then k ∷ j ∷ js else j ∷ set_insert k js

abbrev pub set_of : List String → List String
set_of [] = []
set_of (x ∷ xs) = set_insert x (set_of xs)

dedup_from-head :
    (y : String) (ys : List String) → (rest : List String) × (dedup_from y ys ≡ y ∷ rest)
dedup_from-head y [] = ([], refl)
dedup_from-head y (z ∷ zs) =
    let (rest, e) = dedup_from-head z zs in
    (if y == z then rest else dedup_from z zs, ground (arith, eq_iff y z))

-- Insertion in front of a run.
dedup_from-front :
    (x y : String) (ys : List String)
    → str_ltb y x ≡ false
    → dedup_from x (y ∷ ys) ≡ set_insert x (dedup_from y ys)
dedup_from-front x y ys h =
    let (rest, e) = dedup_from-head y ys in
    rw e (ground (arith, eq_iff x y, str_ltb_total y x, eq_iff y x))

dedup_from-insert_sorted :
    (x y : String) (ys : List String)
    → str_ltb y x ≡ true
    → dedup_from y (insert_sorted x ys) ≡ set_insert x (dedup_from y ys)
unfolding insert_sorted
dedup_from-insert_sorted x y [] h =
    ground (arith, eq_iff x y, eq_iff y x, str_ltb_irrefl x, str_ltb_trans x y x)
dedup_from-insert_sorted x y (z ∷ zs) h = ground (
  arith,
  dedup_from-insert_sorted x z zs,
  dedup_from-front x z zs,
  eq_iff x y,
  eq_iff y x,
  eq_iff y z,
  str_ltb_irrefl x,
  str_ltb_trans x y x,
)

dedup-insert_sorted :
    (x : String) (ys : List String) → dedup (insert_sorted x ys) ≡ set_insert x (dedup ys)
unfolding insert_sorted dedup
dedup-insert_sorted x [] = refl
dedup-insert_sorted x (y ∷ ys) =
    ground (arith, dedup_from-insert_sorted x y ys, dedup_from-front x y ys)

-- A sorted list without its repetitions is the set of its members.
pub dedup-sort : (xs : List String) → dedup (sort xs) ≡ set_of xs
unfolding sort
dedup-sort [] = unfold dedup in refl
dedup-sort (x ∷ xs) = dedup-insert_sorted x (sort xs) ∙ ap (set_insert x) (dedup-sort xs)

-- A test of the members of a set.
pub any-set_insert :
    (p : String → Bool) (x : String) (ys : List String)
    → any p (set_insert x ys) ≡ (p x || any p ys)
any-set_insert p x [] = refl
any-set_insert p x (y ∷ ys) = ground (arith, any-set_insert p x ys, eq_iff x y)

pub any-set_of : (p : String → Bool) (xs : List String) → any p (set_of xs) ≡ any p xs
any-set_of p [] = refl
any-set_of p (x ∷ xs) = ground (arith, any-set_insert p x (set_of xs), any-set_of p xs)

-- Every member is above `k`, and the list is sorted without repetitions.
abbrev Below : String → List String → Type 0
Below k [] = Unit {0}
Below k (j ∷ js) = (str_ltb k j ≡ true) × Below k js

abbrev pub IsRun : List String → Type 0
IsRun [] = Unit {0}
IsRun (k ∷ ks) = Below k ks × IsRun ks

Below-trans : (j k : String) (ks : List String) → str_ltb j k ≡ true → Below k ks → Below j ks
Below-trans j k [] h b = tt
Below-trans j k (i ∷ is) h b = (str_ltb_trans j k i h b.0, Below-trans j k is h b.1)

Below-set_insert :
    (j k : String) (ks : List String) → str_ltb j k ≡ true → Below j ks → Below j (set_insert k ks)
Below-set_insert j k [] h b = (h, tt)
Below-set_insert j k (i ∷ is) h b = ground (arith, Below-set_insert j k is, eq_iff k i)

set_insert-IsRun : (k : String) (ks : List String) → IsRun ks → IsRun (set_insert k ks)
set_insert-IsRun k [] r = (tt, tt)
set_insert-IsRun k (i ∷ is) r = ground (
  arith,
  set_insert-IsRun k is,
  Below-trans k i is,
  Below-set_insert i k is,
  eq_iff k i,
  str_ltb_total k i,
)

pub set_of-IsRun : (xs : List String) → IsRun (set_of xs)
set_of-IsRun [] = tt
set_of-IsRun (x ∷ xs) = set_insert-IsRun x (set_of xs) (set_of-IsRun xs)

insert_sorted-of_Below : (k : String) (ks : List String) → Below k ks → insert_sorted k ks ≡ k ∷ ks
unfolding insert_sorted
insert_sorted-of_Below k [] b = refl
insert_sorted-of_Below k (j ∷ js) b = ground (arith, str_ltb_irrefl k, str_ltb_trans k j k)

pub sort-of_IsRun : (ks : List String) → IsRun ks → sort ks ≡ ks
unfolding sort
sort-of_IsRun [] r = refl
sort-of_IsRun (k ∷ ks) r = rw (sort-of_IsRun ks r.1) (insert_sorted-of_Below k ks r.0)
