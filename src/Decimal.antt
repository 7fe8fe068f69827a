-- ===== src/Decimal.antt =====
-- Decimal numerals: how Rust prints a number, and how `str::parse::<i64>` reads one.
use Prim.Native.Nat.{◌/◌, ◌%◌, ◌^◌}
use Prim.Native.Char.{Char, code}
use sec_fa.Prelude.{
  ℕ, zero, suc, ◌+◌, ◌-◌, ◌*◌, String, Bool, ◌&&◌, ltb, leb, nat_eq, if◌then◌else◌,
}
use sec_fa.Outcome.{Result, ok, err, ◌>>=◌}
use sec_fa.Json.{ℤ, pos, negsuc}

digit : ℕ → Char
digit n =
    if nat_eq n 0
    then "0"
    else if nat_eq n 1
    then "1"
    else if nat_eq n 2
    then "2"
    else if nat_eq n 3
    then "3"
    else if nat_eq n 4
    then "4"
    else if nat_eq n 5
    then "5"
    else if nat_eq n 6
    then "6"
    else if nat_eq n 7
    then "7"
    else if nat_eq n 8
    then "8"
    else "9"

-- The digits of a number in front of a rest; as much fuel as the number is enough.
digits : ℕ → ℕ → String → String
unfolding digit
digits zero n rest = String.◌∷◌ (digit (n % 10)) rest
digits (suc fuel) n rest =
    let more = digits fuel (n / 10) (String.◌∷◌ (digit (n % 10)) rest) in
    if ltb n 10 then String.◌∷◌ (digit n) rest else more

unfoldable pub decimal : ℕ → String
unfolding digits
decimal n = digits n n ""

is_digit : Char → Bool
is_digit c = leb b'0' (code c) && leb (code c) b'9'

-- The digits of a text on top of a value that may not pass a limit.
read_digits : ℕ → String → ℕ → String → Result ℕ
unfolding is_digit
read_digits limit too_far n String.[] = ok n
read_digits limit too_far n (String.◌∷◌ c s) =
    let next = n * 10 + (code c - b'0') in
    let rest = read_digits limit too_far next s in
    if is_digit c
    then (if ltb limit next then err too_far else rest)
    else err "invalid digit found in string"

abbrev negated : ℕ → ℤ
negated zero = pos 0
negated (suc n) = negsuc n

abbrev pub i64_max : ℕ
i64_max = 2 ^ 63 - 1

too_large : String
too_large = "number too large to fit in target type"

too_small : String
too_small = "number too small to fit in target type"

unsigned : String → Result ℤ
unfolding read_digits too_large
unsigned String.[] = err "invalid digit found in string"
unsigned (String.◌∷◌ c s) = do n ← read_digits i64_max too_large 0 (String.◌∷◌ c s); ok (pos n)

negative : String → Result ℤ
unfolding read_digits too_small
negative String.[] = err "invalid digit found in string"
negative (String.◌∷◌ c s) = do
  n ← read_digits (i64_max + 1) too_small 0 (String.◌∷◌ c s)
  ok (negated n)

-- `str::parse::<i64>`
unfoldable pub parse_i64_text : String → Result ℤ
unfolding unsigned negative
parse_i64_text String.[] = err "cannot parse integer from empty string"
parse_i64_text (String.◌∷◌ c s) =
    if nat_eq (code c) b'+'
    then unsigned s
    else if nat_eq (code c) b'-'
    then negative s
    else unsigned (String.◌∷◌ c s)
