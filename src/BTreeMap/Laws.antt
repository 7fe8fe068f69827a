-- ===== src/BTreeMap/Laws.antt =====
-- Lookups after each operation on a map, and the order of its keys.
use mathlib.Core.Option
use sec_fa.Prelude.{
  suc, unwrap_or, ◌≡◌, refl, true, none, some, List, [], ◌∷◌, if◌then◌else◌, arith, length,
}
use sec_fa.BTreeMap.{Ord, BTreeMap, get, contains_key, insert, modify, upsert}

module _ {ℓ κ} {K : Type ℓ} {V : Type κ} ⦃o : Ord K⦄ where
  pub get-insert :
      (j k : K) (v : V) (m : BTreeMap K V)
      → get j (insert k v m) ≡ (if o.eqb j k then some v else get j m)
  unfolding get insert
  get-insert j k v [] = refl
  get-insert j k v ((i, w) ∷ m) =
      ground (arith, get-insert j k v m, o.eqb_iff j k, o.eqb_iff k i, o.eqb_iff j i)

  pub get-modify :
      (j k : K) (f : V → V) (m : BTreeMap K V)
      → get j (modify k f m) ≡ (if o.eqb j k then Option.map f (get j m) else get j m)
  unfolding get modify
  get-modify j k f [] = ground arith
  get-modify j k f ((i, w) ∷ m) =
      ground (arith, get-modify j k f m, o.eqb_iff j k, o.eqb_iff k i, o.eqb_iff j i)

  abbrev pub keys : BTreeMap K V → List K
  keys [] = []
  keys ((k, v) ∷ m) = k ∷ keys m

  pub keys-modify : (k : K) (f : V → V) (m : BTreeMap K V) → keys (modify k f m) ≡ keys m
  unfolding modify
  keys-modify k f [] = refl
  keys-modify k f ((i, w) ∷ m) = ground (arith, keys-modify k f m)

  -- Every key of the map is above `k`.
  abbrev pub Below : K → BTreeMap K V → Type 0
  Below k [] = Unit
  Below k ((j, v) ∷ m) = (o.lt k j ≡ true) × Below k m

  abbrev pub IsSorted : BTreeMap K V → Type 0
  IsSorted [] = Unit
  IsSorted ((k, v) ∷ m) = Below k m × IsSorted m

  Below-trans : (j k : K) (m : BTreeMap K V) → o.lt j k ≡ true → Below k m → Below j m
  Below-trans j k [] h b = tt
  Below-trans j k ((i, v) ∷ m) h b = (o.lt_trans j k i h b.0, Below-trans j k m h b.1)

  Below-insert :
      (j k : K) (v : V) (m : BTreeMap K V) → o.lt j k ≡ true → Below j m → Below j (insert k v m)
  unfolding insert
  Below-insert j k v [] h b = (h, tt)
  Below-insert j k v ((i, w) ∷ m) h b = ground (arith, Below-insert j k v m, o.eqb_iff k i)

  pub insert-IsSorted : (k : K) (v : V) (m : BTreeMap K V) → IsSorted m → IsSorted (insert k v m)
  unfolding insert
  insert-IsSorted k v [] s = (tt, tt)
  insert-IsSorted k v ((i, w) ∷ m) s = ground (
    arith,
    insert-IsSorted k v m,
    Below-trans k i m,
    Below-insert i k v m,
    o.eqb_iff k i,
    o.lt_total k i,
  )

  Below-modify : (j k : K) (f : V → V) (m : BTreeMap K V) → Below j m → Below j (modify k f m)
  unfolding modify
  Below-modify j k f [] b = tt
  Below-modify j k f ((i, w) ∷ m) b = ground (arith, Below-modify j k f m)

  pub modify-IsSorted :
      (k : K) (f : V → V) (m : BTreeMap K V) → IsSorted m → IsSorted (modify k f m)
  unfolding modify
  modify-IsSorted k f [] s = tt
  modify-IsSorted k f ((i, w) ∷ m) s = ground (arith, modify-IsSorted k f m, Below-modify i k f m)

  pub get_of_Below : (k : K) (m : BTreeMap K V) → Below k m → get k m ≡ none
  unfolding get
  get_of_Below k [] b = refl
  get_of_Below k ((i, v) ∷ m) b = ground (arith, get_of_Below k m, o.eqb_iff k i, o.lt_irrefl k)

  -- A sorted map has each key once.
  abbrev pub IsDistinct : BTreeMap K V → Type κ
  IsDistinct [] = Unit
  IsDistinct ((k, v) ∷ m) = (get k m ≡ none) × IsDistinct m

  pub IsDistinct-of_IsSorted : (m : BTreeMap K V) → IsSorted m → IsDistinct m
  IsDistinct-of_IsSorted [] s = tt
  IsDistinct-of_IsSorted ((k, v) ∷ m) s = (get_of_Below k m s.0, IsDistinct-of_IsSorted m s.1)

  pub get-upsert :
      (j k : K) (d : V) (f : V → V) (m : BTreeMap K V)
      → get j (upsert k d f m) ≡ (if o.eqb j k then some (f (unwrap_or (get k m) d)) else get j m)
  unfolding upsert
  get-upsert j k d f m = ground (arith, get-insert j k (f d) m, get-modify j k f m, o.eqb_iff j k)

  pub upsert-IsSorted :
      (k : K) (d : V) (f : V → V) (m : BTreeMap K V) → IsSorted m → IsSorted (upsert k d f m)
  unfolding upsert
  upsert-IsSorted k d f m s = ground (arith, insert-IsSorted k (f d) m, modify-IsSorted k f m)

  pub length-modify : (k : K) (f : V → V) (m : BTreeMap K V) → length (modify k f m) ≡ length m
  unfolding modify
  length-modify k f [] = refl
  length-modify k f ((i, w) ∷ m) = ground (arith, length-modify k f m)

  -- A new key is one more entry; the value of an old one is replaced.
  pub length-insert :
      (k : K) (v : V) (m : BTreeMap K V)
      → IsSorted m
      → length (insert k v m) ≡ (if contains_key k m then length m else suc (length m))
  unfolding insert get
  length-insert k v [] s = refl
  length-insert k v ((i, w) ∷ m) s =
      ground (arith, length-insert k v m, get_of_Below k m, Below-trans k i m, o.eqb_iff k i)

  pub length-upsert :
      (k : K) (d : V) (f : V → V) (m : BTreeMap K V)
      → IsSorted m
      → length (upsert k d f m) ≡ (if contains_key k m then length m else suc (length m))
  unfolding upsert
  length-upsert k d f m s = ground (arith, length-insert k (f d) m s, length-modify k f m)
