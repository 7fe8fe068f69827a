-- ===== src/Filings/Periods.antt =====
-- Periods and fiscal periods in filings/src/lib.rs.
use mathlib.Core.Option
use text.Mathlib.Text.{◌==◌, get?}
use Prim.Native.Nat.{◌^◌, ◌/◌}
use sec_fa.Prelude.{
  ◌+◌, ◌-◌, String, Bool, not, ◌&&◌, ◌||◌, Option, none, some, [], ◌∷◌, leb, if◌then◌else◌,
}
use sec_fa.Prelude.Ascii.{to_ascii_uppercase, contains}
use sec_fa.Prelude.Text.{format}
use sec_fa.Outcome.{Result, ok, err}
use sec_fa.Decimal.{parse_i64_text}
use sec_fa.Integer.{◌+ℤ◌, ◌-ℤ◌, ◌*ℤ◌, ltb_ℤ, leb_ℤ, between, abs}
use sec_fa.Json.{ℤ, pos, negsuc, Value, object, fields_of, string, optional}
use sec_fa.Replay.{int_text}
use sec_fa.Graph.Lexer.{trim, is_empty}
use sec_fa.Filings.{Tools, Calendar, PeriodInfo, no_period, optional_int}
use sec_fa.Filings.Xml.{Node, first_child, text_or_default}

abbrev pub i32_min : ℤ
i32_min = negsuc (2 ^ 31 - 1)

abbrev pub i32_max : ℤ
i32_max = pos (2 ^ 31 - 1)

abbrev ok_value : Result ℤ → Option ℤ
ok_value (ok n) = some n
ok_value (err e) = none

-- `str::parse::<i64>` and `str::parse::<i32>`, by `.ok()`.
abbrev pub i64_of : String → Option ℤ
i64_of s = ok_value (parse_i64_text s)

abbrev in_i32 : Option ℤ → Option ℤ
in_i32 none = none
in_i32 (some n) = if between i32_min i32_max n then some n else none

abbrev pub i32_of : String → Option ℤ
i32_of s = in_i32 (i64_of s)

-- An i32 subtraction of a small number, which wraps around.
abbrev pub wrap_i32 : ℤ → ℤ
wrap_i32 n = if ltb_ℤ n i32_min then n +ℤ pos (2 ^ 32) else n

unfoldable pub parse_integer_text : Tools → String → Option ℤ
unfolding trim contains
parse_integer_text tools value =
    let clean = trim value in
    if is_empty clean
    then none
    else if contains clean "."
    then Option.map tools.float_to_i32 (tools.parse_f64 clean)
    else i32_of clean

unfoldable pub fiscal_quarter_ordinal : String → Option ℤ
unfolding trim to_ascii_uppercase
fiscal_quarter_ordinal value =
    let clean = to_ascii_uppercase (trim value) in
    if clean == "Q1" || clean == "1"
    then some (pos 1)
    else if clean == "Q2" || clean == "2"
    then some (pos 2)
    else if clean == "Q3" || clean == "3"
    then some (pos 3)
    else if clean == "Q4" || clean == "4"
    then some (pos 4)
    else none

abbrev quarter_or : String → Option ℤ → String
quarter_or clean none = clean
quarter_or clean (some q) = format ("Q" ∷ int_text q ∷ [])

unfoldable pub normalize_fiscal_period : String → String
unfolding fiscal_quarter_ordinal
normalize_fiscal_period value =
    let clean = to_ascii_uppercase (trim value) in quarter_or clean (fiscal_quarter_ordinal clean)

unfoldable pub is_quarter_duration : ℤ → Bool
is_quarter_duration days = between (pos 70) (pos 110) days

unfoldable pub is_fiscal_ytd_duration : ℤ → ℤ → Bool
is_fiscal_ytd_duration days fiscal_quarter =
    ltb_ℤ (pos 1) fiscal_quarter
    && leb_ℤ (fiscal_quarter *ℤ pos 70) days
    && leb_ℤ days (fiscal_quarter *ℤ pos 110)

-- Division rounds towards zero.
abbrev third : ℤ → ℤ
third (pos n) = pos (n / 3)
third (negsuc n) = if leb 3 (n + 1) then negsuc ((n + 1) / 3 - 1) else pos 0

unfoldable pub quarter_from_end : String → ℤ
quarter_from_end date = elim (get? date 5 7) [
  | none ↦ pos 0
  | some m ↦ elim (i32_of m) [ none ↦ pos 0 | some n ↦ third (n -ℤ pos 1) +ℤ pos 1 ]
]

abbrev pub is_zero_days : ℤ → Bool
is_zero_days n = leb_ℤ n (pos 0) && leb_ℤ (pos 0) n

unfoldable pub period_length_class : ℤ → String
period_length_class days =
    if is_zero_days days
    then "instant"
    else if between (pos 70) (pos 110) days
    then "13w"
    else if between (pos 330) (pos 380) days
    then "year"
    else "irregular"

abbrev year_of : Option String → Option ℤ
year_of none = none
year_of (some s) = i64_of s

-- `(!s.is_empty()).then_some(s)`
abbrev pub non_empty : String → Option String
non_empty s = if is_empty s then none else some s

module _ {Date : Type 0} (calendar : Calendar Date) where
  abbrev after : Option Date → Option Date
  after none = none
  after (some d) = calendar.next_day d

  unfoldable pub next_date : String → Option String
  next_date value = Option.map calendar.format_date (after (calendar.parse_date value))

  unfoldable pub duration_days : String → String → ℤ
  duration_days start end = elim (calendar.parse_date start) [
    | none ↦ pos 0
    | some s ↦ elim (calendar.parse_date end) [
      | none ↦ pos 0
      | some e ↦ calendar.days_from e s +ℤ pos 1
    ]
  ]

  -- The year of a period that ends within ten days of the anniversary of the document's end.
  abbrev close_year : Option Date → Date → ℤ → Option ℤ
  close_year none doc year = none
  close_year (some shifted) doc year =
      if leb (abs (calendar.days_from shifted doc)) 10 then some year else none

  unfoldable pub comparable_fiscal_year : String → String → ℤ → Option ℤ
  comparable_fiscal_year period_end document_end document_fiscal_year =
      elim (calendar.parse_date period_end) [
        | none ↦ none
        | some end ↦ elim (calendar.parse_date document_end) [
          | none ↦ none
          | some doc ↦
              let year_delta = calendar.year doc -ℤ calendar.year end in
              if not (between (pos 0) (pos 10) year_delta)
              then none
              else close_year (calendar.replace_year end (calendar.year end +ℤ year_delta)) doc
                  (wrap_i32 (document_fiscal_year -ℤ year_delta))
        ]
      ]

  abbrev instant_period : String → PeriodInfo
  instant_period instant = record no_period {
    raw_instant_date = some instant;
    start_date_inclusive = some instant;
    end_date_exclusive = some instant;
    period_kind = "instant";
    period_semantics = "instant";
    fiscal_year = year_of (get? instant 0 4);
    period_length_class = "instant";
  }

  abbrev semantics_of : ℤ → String
  semantics_of duration =
      if leb_ℤ (pos 330) duration
      then "fiscal_year"
      else if is_quarter_duration duration
      then "fiscal_quarter"
      else "irregular"

  abbrev with_quarter : String → PeriodInfo → PeriodInfo
  with_quarter end p =
      let q = quarter_from_end end in
      if p.period_semantics == "fiscal_quarter" && ltb_ℤ (pos 0) q
      then record p {
        fiscal_period = some (format ("Q" ∷ int_text q ∷ []));
        fiscal_period_ordinal = some q;
      }
      else p

  abbrev pub duration_period : String → String → PeriodInfo
  duration_period start end =
      let duration = duration_days start end in
      with_quarter end (record no_period {
        raw_start_date = non_empty start;
        raw_end_date = non_empty end;
        start_date_inclusive = non_empty start;
        end_date_exclusive = next_date end;
        duration_days = duration;
        period_kind = "duration";
        period_semantics = semantics_of duration;
        fiscal_year = year_of (get? end 0 4);
        period_length_class = period_length_class duration;
      })

  unfoldable pub parse_period : Node → PeriodInfo
  unfolding is_quarter_duration quarter_from_end period_length_class next_date duration_days
  parse_period period =
      let start = text_or_default (first_child period "startDate") in
      let end = text_or_default (first_child period "endDate") in
      let instant = text_or_default (first_child period "instant") in
      if is_empty instant then duration_period start end else instant_period instant

unfoldable pub period_identity_json : String → String → PeriodInfo → Value
period_identity_json cik accession p = object (
    fields_of (
      ("cik", string cik)
      ∷ ("accession_number", string accession)
      ∷ ("raw_start_date", optional p.raw_start_date)
      ∷ ("raw_end_date", optional p.raw_end_date)
      ∷ ("raw_instant_date", optional p.raw_instant_date)
      ∷ ("period_semantics", string p.period_semantics)
      ∷ ("fiscal_year", optional_int p.fiscal_year)
      ∷ ("fiscal_period", optional p.fiscal_period)
      ∷ []))
