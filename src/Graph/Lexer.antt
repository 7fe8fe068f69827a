-- ===== src/Graph/Lexer.antt =====
-- `strip_comment` and `split_words` of cli/src/framework/graph.rs, and the operations of Rust's
-- `str` that the parser uses.
pub mod Quoting
pub mod Comments
use Prim.Native.Char.{Char, code}
use Prim.Native.String
use sec_fa.Prelude.{
  ◌≡◌, refl, ℕ, String, Bool, true, false, ◌&&◌, ◌||◌, Option, none, some, List, [], ◌∷◌, ◌++◌,
  nat_eq, leb, is_some, if◌then◌else◌,
}
use sec_fa.Outcome.{Result, ok, err}

-- `char::is_whitespace`: the property White_Space of Unicode.
unfoldable pub is_whitespace : Char → Bool
is_whitespace c =
    let n = code c in
    (leb 9 n && leb n 13)
    || nat_eq n 32
    || nat_eq n 0x85
    || nat_eq n 0xa0
    || nat_eq n 0x1680
    || (leb 0x2000 n && leb n 0x200a)
    || nat_eq n 0x2028
    || nat_eq n 0x2029
    || nat_eq n 0x202f
    || nat_eq n 0x205f
    || nat_eq n 0x3000

abbrev pub is_empty : String → Bool
is_empty String.[] = true
is_empty (String.◌∷◌ c s) = false

unfoldable pub trim_start : String → String
unfolding is_whitespace
trim_start String.[] = ""
trim_start (String.◌∷◌ c s) = if is_whitespace c then trim_start s else String.◌∷◌ c s

unfoldable pub trim_end : String → String
unfolding is_whitespace
trim_end String.[] = ""
trim_end (String.◌∷◌ c s) =
    let rest = trim_end s in if is_empty rest && is_whitespace c then "" else String.◌∷◌ c rest

unfoldable pub trim : String → String
unfolding trim_start trim_end
trim s = trim_start (trim_end s)

abbrev pub push : String → Char → String
push s c = String.◌++◌ s (String.◌∷◌ c "")

-- The variables `quote` and `escaped` of the two scanners.
pub record Scan : Type 0 where
  pub quote : Option Char
  pub escaped : Bool

abbrev pub same_char : Char → Char → Bool
same_char c d = nat_eq (code c) (code d)

abbrev pub is_quote : Char → Bool
is_quote c = nat_eq (code c) b'"' || nat_eq (code c) 39

abbrev pub is_backslash : Char → Bool
is_backslash c = nat_eq (code c) 92

abbrev pub closes : Option Char → Char → Bool
closes none ch = false
closes (some q) ch = same_char ch q

abbrev pub outside : Scan
outside = record { quote = none; escaped = false }

-- The body of the loop of `strip_comment`: `none` is its `break`. All other branches push the
-- character.
unfoldable pub strip_step : Scan → Char → Option Scan
strip_step st ch =
    if st.escaped
    then some (record st { escaped = false })
    else if is_backslash ch && is_some st.quote
    then some (record st { escaped = true })
    else if is_some st.quote
    then some (if closes st.quote ch then record st { quote = none } else st)
    else if is_quote ch
    then some (record st { quote = some ch })
    else if nat_eq (code ch) b'#'
    then none
    else some st

-- What was pushed, and the quote at the end.
unfoldable pub strip_scan : Scan → String → String × Option Char
strip_scan st String.[] = ("", st.quote)
strip_scan st (String.◌∷◌ ch s) = elim (strip_step st ch) [
  | none ↦ ("", st.quote)
  | some st' ↦ let (out, quote) = strip_scan st' s in (String.◌∷◌ ch out, quote)
]

unfoldable pub strip_comment : String → Result (Option String)
unfolding strip_scan strip_step
strip_comment raw =
    let (out, quote) = strip_scan outside raw in
    let trimmed = trim out in
    if is_some quote
    then err "unterminated quoted string"
    else if is_empty trimmed
    then ok none
    else ok (some trimmed)

pub record Words : Type 0 where
  pub scan : Scan
  pub current : String
  pub words : List String

-- The body of the loop of `split_words`.
unfoldable pub split_step : Words → Char → Words
unfolding is_whitespace
split_step w ch =
    if w.scan.escaped
    then record w { current = push w.current ch; scan = record w.scan { escaped = false } }
    else if is_backslash ch && is_some w.scan.quote
    then record w { scan = record w.scan { escaped = true } }
    else if is_some w.scan.quote
    then (if closes w.scan.quote ch
        then record w { scan = record w.scan { quote = none } }
        else record w { current = push w.current ch })
    else if is_quote ch
    then record w { scan = record w.scan { quote = some ch } }
    else if is_whitespace ch
    then (if is_empty w.current
        then w
        else record w { words = w.words ++ w.current ∷ []; current = "" })
    else record w { current = push w.current ch }

unfoldable pub split_scan : Words → String → Words
split_scan w String.[] = w
split_scan w (String.◌∷◌ ch s) = split_scan (split_step w ch) s

unfoldable pub split_words : String → Result (List String)
unfolding split_scan split_step
split_words line =
    let w = split_scan (record { scan = outside; current = ""; words = [] }) line in
    if is_some w.scan.quote
    then err "unterminated quoted string"
    else if is_empty w.current
    then ok w.words
    else ok (w.words ++ w.current ∷ [])

abbrev drop_return : String → String
drop_return String.[] = ""
drop_return (String.◌∷◌ c String.[]) = if nat_eq (code c) 13 then "" else String.◌∷◌ c ""
drop_return (String.◌∷◌ c s) = String.◌∷◌ c (drop_return s)

abbrev lines_from : String → String → List String
lines_from line String.[] = if is_empty line then [] else line ∷ []
lines_from line (String.◌∷◌ c s) =
    let ended = drop_return line ∷ lines_from "" s in
    let longer = lines_from (push line c) s in if nat_eq (code c) 10 then ended else longer

-- `str::lines`: the lines end at a line feed, which goes with a carriage return in front of it.
unfoldable pub lines : String → List String
lines text = lines_from "" text
