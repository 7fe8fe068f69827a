-- ===== src/Commands.antt =====
-- cli/src/main.rs: the parts of the commands that are modelled.
pub mod Names
pub mod Trading
use sec_fa.Prelude.{String}
