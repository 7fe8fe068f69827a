-- ===== src/Lib.antt =====
-- A model of the workflow framework of sec-fa (cli/src/framework), of its trading commands
-- (cli/src/main.rs) and of its reading of filings (filings/src/lib.rs), and theorems about them.
--
-- The framework reads a workflow from a `.flow` text, checks it against reference tables, puts its
-- nodes in an order in which every node comes behind those it takes products from, and runs them in
-- that order; what a node produces is stored with its lineage under an id that is a digest.
--
-- The parts, in the order in which data goes through them:
--   Registry      cli/src/framework/registry.rs: the tables of product types, algorithms and
--                 resources, how they are seeded (Registry/Seed, Registry/Known) and loaded.
--   Graph         the types of cli/src/framework/graph.rs.
--   Graph/Lexer   strip_comment and split_words, and the operations of str that they need.
--   Graph/Parser  parse_flow_workflow, one step for each line; Graph/Parser/Tokens has the readers
--                 of single lines (parse_layer, parse_resource, parse_flow_value, ..).
--   Graph/Validate  validate_workflow; Validate/Collect has the collect_ functions, and
--                 Validate/Contracts the checks of nodes (validate_nodes, ..). A check gives the
--                 list of violations that it pushes. Accepted, Edges, Checked and Safety say what
--                 an empty list means, and Authority what it means for orders.
--   Graph/Topology  topological_order: Kahn's algorithm over sorted maps.
--   Invariants    cli/src/framework/invariants.rs: what the modes allow, and single checks.
--   Hash          cli/src/framework/hash.rs: the ids.
--   Graph/Ir      a workflow as JSON, with its hash (parsed_from_spec, parse_workflow_ir_json).
--   Storage       cli/src/framework/product.rs, and persist_product and load_product of
--                 cli/src/framework/storage.rs, over the tables of schema.sql; Storage/Lineage has
--                 walk_lineage and lineage_json.
--   Executor      cli/src/framework/executor.rs: execute_algorithm and resolve_inputs, the runtime
--                 checks (Executor/Inputs), persist_node_outputs (Executor/Persist), the tables of
--                 runs (Executor/Run) and run_validated_workflow (Executor/Run/Loop). The states
--                 at the head of its loop are the relation Reached of Executor/Run/Loop/Progress.
--   Replay        cli/src/framework/replay.rs: replay_workflow over the tables that a run leaves.
--                 Replay/Queries has the queries, Replay/Asks what they stand for in terms of the
--                 rows, and Replay/Matches what the checks ask.
--   Commands/Trading  the commands of cli/src/main.rs that lead from intents to submissions to the
--                 broker: op_set_mode, op_recon, op_gate (Trading/Gate), op_stage and op_send, each
--                 behind ensure_db (Trading/Ensure), which commits before the transaction. The
--                 tables are the record Ledger; Trading/Safe has the relation Reached of the
--                 ledgers that any sequence of these commands leads to.
--   Filings/Names  CIKs, form filters, archive paths and URLs of filings/src/lib.rs; the copies of
--                 these functions in cli/src/main.rs are in Commands/Names.
--   Filings       the reading of a package in filings/src/lib.rs: XML as roxmltree gives it (Xml),
--                 parse_period and dates (Periods), parse_contexts and parse_units (Contexts), the
--                 fiscal metadata (Fiscal), the facts (Facts), concept_candidate (Concepts), the
--                 tables (Tables), the insert_ functions (Inserts), load_package_files and the loop
--                 of parse_xbrl_package over the files (Package), its request (Request) and the
--                 whole of it (Parse).
--   Json          the values of serde_json, and cli/src/framework/canonical_json.rs.
--   Timestamp     epoch_second of cli/src/fa_core.rs. Decimal: integers as Rust prints and reads
--                 them, with the bounds of i64 written out.
--   BTreeMap, Outcome, Prelude  the maps of the standard library as sorted lists, anyhow::Result
--                 with its texts, and lists, options, texts and tests.
--   Tests         runs at concrete inputs, and the theorems applied to a concrete workflow.
--
-- State is passed explicitly: the parser's variables are the record FlowState, the queue of
-- topological_order is the record State, the tables are the records Tables, Store and Runs. A `?` is
-- `>>=` of Outcome. A BTreeMap is a list sorted by key, so iteration has Rust's order.
--
-- Loops are recursion on the list that they go through. The `while` of topological_order needs
-- fuel: it gets one round for each key of the degrees, since a key enters the queue at most once. So
-- does the recursion of walk_lineage: each call that goes deeper has seen one more stored product.
--
-- Parameters stand for code that is not in the repository: serde_json's texts of numbers and strings
-- and its decoding of texts (the record Serde), sha2 (Digests), the parsers of the crate time
-- (TimeParsers, and Calendar for its dates), roxmltree and the file system (Files),
-- `str::parse::<f64>`, and the clock. A float is the text that serde_json prints for it. The
-- operations that run_graph_algorithm_command of cli/src/main.rs dispatches to are a
-- parameter too. SQLite is modelled by the constraints of schema.sql: keys, CHECKs and references
-- of the tables that are read here. After a step that fails, the count of clock reads in
-- Executor/Persist goes back with the tables.
--
-- Not modelled: what commands print; what ensure_db does to tables that no trading command reads; serde's derived reading of workflows from JSON; the other
-- commands of cli/src/main.rs and the rest of cli/src/fa_core.rs (SQL over facts and models, and
-- calls into the C++ engine); the engine in C++ and the daemon in Go.
pub mod Prelude
pub mod BTreeMap
pub mod Outcome
pub mod Json
pub mod Serde
pub mod Timestamp
pub mod Decimal
pub mod Registry
pub mod Invariants
pub mod Graph
pub mod Hash
pub mod Storage
pub mod Executor
pub mod Integer
pub mod Replay
pub mod Filings
pub mod Commands
mod Tests
