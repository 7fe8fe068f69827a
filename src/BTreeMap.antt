-- ===== src/BTreeMap.antt =====
-- `BTreeMap` and `BTreeSet` of the Rust standard library, as lists sorted by key: the operations
-- that the program uses.
pub mod Laws
use text.Mathlib.Text.{◌==◌ as str_eq}
use sec_fa.Prelude.{
  String, ◌≡◌, ◌↔◌, Bool, true, false, ◌&&◌, ◌||◌, Option, none, some, List, [], ◌∷◌, map, is_some,
  unwrap_or, if◌then◌else◌, arith, eq_iff, All,
}
use sec_fa.Prelude.Text.{str_ltb, str_ltb_irrefl, str_ltb_trans, str_ltb_total}

-- `Ord`: a decidable strict total order.
pub record Ord {ℓ} (K : Type ℓ) : Type ℓ where
  pub eqb : K → K → Bool
  pub eqb_iff : (a b : K) → (eqb a b ≡ true) ↔ (a ≡ b)
  pub lt : K → K → Bool
  pub lt_irrefl : (a : K) → lt a a ≡ false
  pub lt_trans : (a b c : K) → lt a b ≡ true → lt b c ≡ true → lt a c ≡ true
  pub lt_total : (a b : K) → eqb a b ≡ false → lt a b ≡ false → lt b a ≡ true

instance abbrev pub string_ord : Ord String
string_ord = record {
  eqb = str_eq;
  eqb_iff = eq_iff;
  lt = str_ltb;
  lt_irrefl = str_ltb_irrefl;
  lt_trans = str_ltb_trans;
  lt_total = str_ltb_total;
}

-- A pair of texts is compared by its first part, then by its second.
abbrev pub Pair : Type 0
Pair = String × String

abbrev pub pair_eqb : Pair → Pair → Bool
pair_eqb (a, b) (c, d) = str_eq a c && str_eq b d

abbrev pub pair_lt : Pair → Pair → Bool
pair_lt (a, b) (c, d) = str_ltb a c || (str_eq a c && str_ltb b d)

pub pair_eqb_iff : (p q : Pair) → (pair_eqb p q ≡ true) ↔ (p ≡ q)
pair_eqb_iff (a, b) (c, d) = ground (arith, eq_iff a c, eq_iff b d)

pub pair_lt_irrefl : (p : Pair) → pair_lt p p ≡ false
pair_lt_irrefl (a, b) = ground (arith, str_ltb_irrefl a, str_ltb_irrefl b)

pub pair_lt_trans : (p q r : Pair) → pair_lt p q ≡ true → pair_lt q r ≡ true → pair_lt p r ≡ true
pair_lt_trans (a, b) (c, d) (e, f) h k =
    ground (arith, str_ltb_trans a c e, str_ltb_trans b d f, eq_iff a c, eq_iff c e, eq_iff a e)

pub pair_lt_total : (p q : Pair) → pair_eqb p q ≡ false → pair_lt p q ≡ false → pair_lt q p ≡ true
pair_lt_total (a, b) (c, d) h k =
    ground (arith, str_ltb_total a c, str_ltb_total b d, eq_iff a c, eq_iff c a)

instance abbrev pub pair_ord : Ord Pair
pair_ord = record {
  eqb = pair_eqb;
  eqb_iff = pair_eqb_iff;
  lt = pair_lt;
  lt_irrefl = pair_lt_irrefl;
  lt_trans = pair_lt_trans;
  lt_total = pair_lt_total;
}

abbrev pub BTreeMap {ℓ κ} : Type ℓ → Type κ → Type (ℓ ⊔ κ)
BTreeMap K V = List (K × V)

module _ {ℓ κ} {K : Type ℓ} {V : Type κ} ⦃o : Ord K⦄ where
  unfoldable pub get : K → BTreeMap K V → Option V
  get k [] = none
  get k ((j, v) ∷ m) = if o.eqb k j then some v else get k m

  abbrev pub contains_key : K → BTreeMap K V → Bool
  contains_key k m = is_some (get k m)

  unfoldable pub insert : K → V → BTreeMap K V → BTreeMap K V
  insert k v [] = (k, v) ∷ []
  insert k v ((j, w) ∷ m) =
      if o.eqb k j
      then (k, v) ∷ m
      else if o.lt k j
      then (k, v) ∷ (j, w) ∷ m
      else (j, w) ∷ insert k v m

  -- A write through `get_mut`; a missing key changes nothing.
  unfoldable pub modify : K → (V → V) → BTreeMap K V → BTreeMap K V
  modify k f [] = []
  modify k f ((j, v) ∷ m) = if o.eqb k j then (j, f v) ∷ m else (j, v) ∷ modify k f m

  -- A write through `entry(k).or_insert(d)`.
  unfoldable pub upsert : K → V → (V → V) → BTreeMap K V → BTreeMap K V
  upsert k d f m = if contains_key k m then modify k f m else insert k (f d) m
