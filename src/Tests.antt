-- ===== src/Tests.antt =====
-- Tests of the definitions, and the theorems applied to concrete inputs.
mod Fixture
mod Texts
mod Workflows
mod Products
mod Runs
mod Replays
mod Trading
mod Filings
use sec_fa.Prelude.{ℕ}
