-- ===== src/Prelude/Ascii.antt =====
-- The operations of Rust's `char` and `str` on ASCII that the program uses.
use Prim.Native.Char.{Char, char, code, nul, IsScalar}
use Prim.Native.Nat.{ℕ, suc, ◌+◌, ◌-◌, compare, Ordering}
use Prim.Native.String.{String}
use mathlib.Core.Path.{◌≡◌, refl}
use mathlib.Core.Bool.{Bool, ◌&&◌, ◌||◌}
use text.Mathlib.Text.{◌==◌, starts_with}
use sec_fa.Prelude.{leb, nat_eq, if◌then◌else◌}

pub IsScalar-of_small : (n : ℕ) → compare n 55296 ≡ Ordering.lt → IsScalar n
IsScalar-of_small n e = rw e tt

-- The character of a small number.
abbrev char_if : (n : ℕ) (o : Ordering) → compare n 55296 ≡ o → Char
char_if n Ordering.lt e = char n (IsScalar-of_small n e)
char_if n Ordering.eq e = nul
char_if n Ordering.gt e = nul

abbrev pub char_of : ℕ → Char
char_of n = char_if n (compare n 55296) refl

abbrev pub is_ascii_digit : Char → Bool
is_ascii_digit c = leb b'0' (code c) && leb (code c) b'9'

abbrev is_upper : Char → Bool
is_upper c = leb b'A' (code c) && leb (code c) b'Z'

abbrev is_lower : Char → Bool
is_lower c = leb b'a' (code c) && leb (code c) b'z'

abbrev pub is_ascii_alphanumeric : Char → Bool
is_ascii_alphanumeric c = is_ascii_digit c || is_upper c || is_lower c

abbrev pub lower_char : Char → Char
lower_char c = if is_upper c then char_of (code c + 32) else c

abbrev pub upper_char : Char → Char
upper_char c = if is_lower c then char_of (code c - 32) else c

unfoldable pub to_ascii_lowercase : String → String
unfolding IsScalar-of_small
to_ascii_lowercase String.[] = ""
to_ascii_lowercase (String.◌∷◌ c s) = String.◌∷◌ (lower_char c) (to_ascii_lowercase s)

unfoldable pub to_ascii_uppercase : String → String
unfolding IsScalar-of_small
to_ascii_uppercase String.[] = ""
to_ascii_uppercase (String.◌∷◌ c s) = String.◌∷◌ (upper_char c) (to_ascii_uppercase s)

unfoldable pub ends_with : String → String → Bool
ends_with String.[] t = "" == t
ends_with (String.◌∷◌ c s) t = String.◌∷◌ c s == t || ends_with s t

unfoldable pub contains : String → String → Bool
contains String.[] t = starts_with "" t
contains (String.◌∷◌ c s) t = starts_with (String.◌∷◌ c s) t || contains s t

-- `replace` of a character by the empty text.
unfoldable pub remove_char : ℕ → String → String
remove_char n String.[] = ""
remove_char n (String.◌∷◌ c s) =
    let rest = remove_char n s in if nat_eq (code c) n then rest else String.◌∷◌ c rest

-- How many characters a text has.
abbrev pub char_count : String → ℕ
char_count String.[] = 0
char_count (String.◌∷◌ c s) = suc (char_count s)
