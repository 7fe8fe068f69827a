-- ===== src/Timestamp.antt =====
-- `epoch_second` of cli/src/fa_core.rs, over the parsers of the crate `time`.
use text.Mathlib.Text.{◌==◌}
use sec_fa.Prelude.{String, Bool, true, false, Option, none, some, if◌then◌else◌, ltb}
use sec_fa.Json.{ℤ, pos, negsuc}

-- Each parser gives the Unix time of a text of its format.
pub record TimeParsers : Type 0 where
  pub rfc3339 : String → Option ℤ
  pub with_millis : String → Option ℤ
  pub with_seconds : String → Option ℤ
  pub date_midnight : String → Option ℤ

module _ (p : TimeParsers) where
  unfoldable pub epoch_second : String → ℤ
  epoch_second value = if value == "" then pos 0 else (elim (p.rfc3339 value) [
    | some t ↦ t
    | none ↦ elim (p.with_millis value) [
      | some t ↦ t
      | none ↦ elim (p.with_seconds value) [
        | some t ↦ t
        | none ↦ elim (p.date_midnight value) [ some t ↦ t | none ↦ pos 0 ]
      ]
    ]
  ])

-- `a < b` on `i64`
abbrev pub int_lt : ℤ → ℤ → Bool
int_lt (pos a) (pos b) = ltb a b
int_lt (pos a) (negsuc b) = false
int_lt (negsuc a) (pos b) = true
int_lt (negsuc a) (negsuc b) = ltb b a
