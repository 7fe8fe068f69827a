-- ===== src/Commands/Trading/Keys.antt =====
-- Lists whose members have different keys, for the queries of the trading commands of
-- cli/src/main.rs.
use text.Mathlib.Text.{◌==◌}
use sec_fa.Prelude.{
  ℕ, zero, suc, String, ◌≡◌, refl, Bool, false, ◌||◌, List, [], ◌∷◌, any, All, arith, eq_iff,
}
use sec_fa.Json.{ℤ, pos, negsuc}
use sec_fa.Commands.Trading.{insert_by, limited, take_ℕ}

module _ {ℓ} {A : Type ℓ} (key : A → String) where
  abbrev pub has : String → List A → Bool
  has k xs = any (λ x. key x == k) xs

  -- A key stands once.
  abbrev pub Distinct : List A → Type 0
  Distinct [] = Unit {0}
  Distinct (x ∷ xs) = (has (key x) xs ≡ false) × Distinct xs

  pub has-insert_by :
      (before : A → A → Bool) (k : String) (x : A) (ys : List A)
      → has k (insert_by before x ys) ≡ (key x == k || has k ys)
  unfolding insert_by
  has-insert_by before k x [] = refl
  has-insert_by before k x (y ∷ ys) = ground (arith, has-insert_by before k x ys)

  pub insert_by-Distinct :
      (before : A → A → Bool) (x : A) (ys : List A)
      → has (key x) ys ≡ false
      → Distinct ys
      → Distinct (insert_by before x ys)
  unfolding insert_by
  insert_by-Distinct before x [] h d = (refl, tt)
  insert_by-Distinct before x (y ∷ ys) h d = ground (
    arith,
    insert_by-Distinct before x ys,
    has-insert_by before (key y) x ys,
    eq_iff (key x) (key y),
    eq_iff (key y) (key x),
  )

  has-take_ℕ : (n : ℕ) (k : String) (xs : List A) → has k xs ≡ false → has k (take_ℕ n xs) ≡ false
  has-take_ℕ zero k xs h = refl
  has-take_ℕ (suc n) k [] h = refl
  has-take_ℕ (suc n) k (x ∷ xs) h = ground (arith, has-take_ℕ n k xs)

  take_ℕ-Distinct : (n : ℕ) (xs : List A) → Distinct xs → Distinct (take_ℕ n xs)
  take_ℕ-Distinct zero xs d = tt
  take_ℕ-Distinct (suc n) [] d = tt
  take_ℕ-Distinct (suc n) (x ∷ xs) d = (has-take_ℕ n (key x) xs d.0, take_ℕ-Distinct n xs d.1)

  pub limited-Distinct : (n : ℤ) (xs : List A) → Distinct xs → Distinct (limited n xs)
  limited-Distinct (pos n) xs d = take_ℕ-Distinct n xs d
  limited-Distinct (negsuc n) xs d = d

module _ {ℓ} {A : Type ℓ} (P : A → Type 0) where
  pub All-insert_by :
      (before : A → A → Bool) (x : A) (ys : List A) → P x → All P ys → All P (insert_by before x ys)
  unfolding insert_by
  All-insert_by before x [] h hs = (h, tt)
  All-insert_by before x (y ∷ ys) h hs = ground (arith, All-insert_by before x ys)

  All-take_ℕ : (n : ℕ) (xs : List A) → All P xs → All P (take_ℕ n xs)
  All-take_ℕ zero xs h = tt
  All-take_ℕ (suc n) [] h = tt
  All-take_ℕ (suc n) (x ∷ xs) h = (h.0, All-take_ℕ n xs h.1)

  pub All-limited : (n : ℤ) (xs : List A) → All P xs → All P (limited n xs)
  All-limited (pos n) xs h = All-take_ℕ n xs h
  All-limited (negsuc n) xs h = h

pub All-map {ℓ} :
    {A : Type ℓ} (P Q : A → Type 0) (xs : List A) → ((x : A) → P x → Q x) → All P xs → All Q xs
All-map P Q [] f h = tt
All-map P Q (x ∷ xs) f h = (f x h.0, All-map P Q xs f h.1)
