-- ===== src/Prelude/Text.antt =====
-- Texts: `format!`, and the order of Rust's `str`, which is that of the characters' numbers.
use Prim.Native.Nat.{Ordering}
use Prim.Native.String.{String, compare, then}
use Prim.Native.String
use Prim.Native.String.compare
use mathlib.Core.Path.{◌≡◌}
use mathlib.Core.Bool.{Bool, true, false}
use mathlib.Core.List.{List, [], ◌∷◌}
use native.Mathlib.Omega.{arith}
use text.Mathlib.Text.{is_lt, ◌==◌}
use text.Mathlib.TextPositions.{compare_refl}

-- `format!`, on the pieces of its text.
unfoldable pub format : List String → String
format [] = ""
format (s ∷ rest) = String.◌++◌ s (format rest)

-- Rust's `<` on `str`.
abbrev pub str_ltb : String → String → Bool
str_ltb s t = is_lt (compare s t)

pub str_ltb_irrefl : (s : String) → str_ltb s s ≡ false
str_ltb_irrefl s = rw compare_refl

compare_trans :
    (s t u : String)
    → compare s t ≡ Ordering.lt
    → compare t u ≡ Ordering.lt
    → compare s u ≡ Ordering.lt
compare_trans String.[] String.[] u h k = k
compare_trans String.[] (String.◌∷◌ d t) String.[] h k = ground (arith, compare.cons-nil d t)
compare_trans String.[] (String.◌∷◌ d t) (String.◌∷◌ e u) h k = compare.nil-cons e u
compare_trans (String.◌∷◌ c s) String.[] u h k = ground (arith, compare.cons-nil c s)
compare_trans (String.◌∷◌ c s) (String.◌∷◌ d t) String.[] h k = ground (arith, compare.cons-nil d t)
compare_trans (String.◌∷◌ c s) (String.◌∷◌ d t) (String.◌∷◌ e u) h k = ground (
  arith,
  compare.cons-cons c d s t,
  compare.cons-cons d e t u,
  compare.cons-cons c e s u,
  compare_trans s t u,
)

compare_swap : (s t : String) → compare s t ≡ Ordering.gt → compare t s ≡ Ordering.lt
compare_swap String.[] String.[] h = ground (arith, compare_refl "")
compare_swap String.[] (String.◌∷◌ d t) h = ground (arith, compare.nil-cons d t)
compare_swap (String.◌∷◌ c s) String.[] h = compare.nil-cons c s
compare_swap (String.◌∷◌ c s) (String.◌∷◌ d t) h =
    ground (arith, compare.cons-cons c d s t, compare.cons-cons d c t s, compare_swap s t)

is_lt_iff : (o : Ordering) → is_lt o ≡ true → o ≡ Ordering.lt
is_lt_iff o h = ground arith

pub str_ltb_trans : (s t u : String) → str_ltb s t ≡ true → str_ltb t u ≡ true → str_ltb s u ≡ true
str_ltb_trans s t u h k =
    rw (compare_trans s t u (is_lt_iff (compare s t) h) (is_lt_iff (compare t u) k))

pub str_ltb_total : (s t : String) → (s == t) ≡ false → str_ltb s t ≡ false → str_ltb t s ≡ true
str_ltb_total s t h k = ground (arith, compare_swap s t)
