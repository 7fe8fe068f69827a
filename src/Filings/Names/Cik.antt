-- ===== src/Filings/Names/Cik.antt =====
-- `normalize_cik` of filings/src/lib.rs.
use sec_fa.Prelude.{ℕ, zero, suc, ◌+◌, ◌-◌, String, ◌≡◌, refl, true, arith}
use sec_fa.Prelude.Ascii.{is_ascii_digit, char_count}
use sec_fa.Filings.Names.{digits_of, skip_chars, zeros, normalize_cik}

-- Every character is a digit.
abbrev pub IsDigits : String → Type 0
IsDigits String.[] = Unit {0}
IsDigits (String.◌∷◌ c s) = (is_ascii_digit c ≡ true) × IsDigits s

digits_of-IsDigits : (s : String) → IsDigits (digits_of s)
unfolding digits_of
digits_of-IsDigits String.[] = tt
digits_of-IsDigits (String.◌∷◌ c s) = ground (arith, digits_of-IsDigits s)

digits_of-of_IsDigits : (s : String) → IsDigits s → digits_of s ≡ s
unfolding digits_of
digits_of-of_IsDigits String.[] h = refl
digits_of-of_IsDigits (String.◌∷◌ c s) h = ground (arith, digits_of-of_IsDigits s h.1)

skip_chars-IsDigits : (n : ℕ) (s : String) → IsDigits s → IsDigits (skip_chars n s)
unfolding skip_chars
skip_chars-IsDigits zero s h = h
skip_chars-IsDigits (suc n) String.[] h = tt
skip_chars-IsDigits (suc n) (String.◌∷◌ c s) h = skip_chars-IsDigits n s h.1

zeros-IsDigits : (n : ℕ) (s : String) → IsDigits s → IsDigits (zeros n s)
unfolding zeros
zeros-IsDigits zero s h = h
zeros-IsDigits (suc n) s h = (refl, zeros-IsDigits n s h)

char_count-skip_chars : (n : ℕ) (s : String) → char_count (skip_chars n s) ≡ char_count s - n
unfolding skip_chars
char_count-skip_chars zero s = omega arith
char_count-skip_chars (suc n) String.[] = omega arith
char_count-skip_chars (suc n) (String.◌∷◌ c s) = omega (arith, char_count-skip_chars n s)

char_count-zeros : (n : ℕ) (s : String) → char_count (zeros n s) ≡ n + char_count s
unfolding zeros
char_count-zeros zero s = omega arith
char_count-zeros (suc n) s = omega (arith, char_count-zeros n s)

normalize_cik-IsDigits : (cik : String) → IsDigits (normalize_cik cik)
unfolding normalize_cik
normalize_cik-IsDigits cik =
    let digits = digits_of cik in
    let last = skip_chars (char_count digits - 10) digits in
    zeros-IsDigits (10 - char_count last) last
      (skip_chars-IsDigits (char_count digits - 10) digits (digits_of-IsDigits cik))

char_count-normalize_cik : (cik : String) → char_count (normalize_cik cik) ≡ 10
unfolding normalize_cik
char_count-normalize_cik cik =
    let digits = digits_of cik in
    let last = skip_chars (char_count digits - 10) digits in
    omega (
      arith,
      char_count-zeros (10 - char_count last) last,
      char_count-skip_chars (char_count digits - 10) digits,
    )

normalize_cik-of_ten : (cik : String) → IsDigits cik → char_count cik ≡ 10 → normalize_cik cik ≡ cik
unfolding normalize_cik skip_chars zeros
normalize_cik-of_ten cik h n = rw (digits_of-of_IsDigits cik h, n) (rw n refl)

-- A normalised CIK has exactly ten characters, all of them digits, and normalising it again changes
-- nothing.
pub normalize_cik_lem :
    (cik : String)
    → (char_count (normalize_cik cik) ≡ 10)
      × IsDigits (normalize_cik cik)
      × (normalize_cik (normalize_cik cik) ≡ normalize_cik cik)
normalize_cik_lem cik = (
  char_count-normalize_cik cik,
  normalize_cik-IsDigits cik,
  normalize_cik-of_ten (normalize_cik cik) (normalize_cik-IsDigits cik)
      (char_count-normalize_cik cik),
)
