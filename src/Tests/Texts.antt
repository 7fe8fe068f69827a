-- ===== src/Tests/Texts.antt =====
-- The lexer, the parser, numerals, canonical JSON and the registry on concrete texts.
use Prim.Native.String
use sec_fa.Prelude.{
  ℕ, String, ◌≡◌, ◌≢◌, refl, Bool, true, false, Option, none, some, List, [], ◌∷◌, ◌++◌, All, Memᴰ,
  any, arith, eq_iff, if◌then◌else◌,
}
use sec_fa.Outcome
use sec_fa.Outcome.{Result, ok, err}
use sec_fa.Json.{
  ℤ, pos, negsuc, Value, object, array, number, int, field, end, cons, nil, null, bool,
}
use sec_fa.Json.Canonical.{
  canonical_value, value_array, value_object, items_cons, items_nil, fields_swap,
  canonical_value-order,
}
use sec_fa.Decimal.{decimal, parse_i64_text}
use sec_fa.Graph.{WorkflowSpec}
use sec_fa.Graph.Lexer.{strip_comment, split_words, lines}
use sec_fa.Graph.Lexer.Quoting.{render, non_empty, split_words-render}
use sec_fa.Graph.Lexer.Comments.{read_line}
use sec_fa.Graph.Parser.Tokens.{Float}
use sec_fa.Graph.Parser.{parse_flow_workflow}
use sec_fa.Graph.Parser.Laws.{HasKey, HasNamedInputs, parse_flow_workflow-shape}
use sec_fa.Registry.{Tables, Algorithm, load_algorithm}
use sec_fa.Registry.Seed.{AlgorithmBootstrap, row_of_algorithm, seed_algorithm_registry}
use sec_fa.Registry.Laws.{ReadsContracts, seed_algorithm_registry-load}
use sec_fa.Tests.Fixture.{serde}

lowest : parse_i64_text "-9223372036854775808" ≡ ok (negsuc 9223372036854775807)
unfolding parse_i64_text
lowest = refl

too_high : parse_i64_text "9223372036854775808" ≡ err "number too large to fit in target type"
unfolding parse_i64_text
too_high = refl

printed : decimal 1230 ≡ "1230"
unfolding decimal
printed = refl

comment_kept : strip_comment "  set x 'a # b' # rest" ≡ ok (some "set x 'a # b'")
unfolding strip_comment sec_fa.Graph.Lexer.trim
comment_kept = refl

words_split : split_words "set  x 'a # b' \"q\\\"r\"" ≡ ok ("set" ∷ "x" ∷ "a # b" ∷ "q\"r" ∷ [])
unfolding split_words
words_split = refl

lines_split : lines "a\r\nb\n\nc" ≡ "a" ∷ "b" ∷ "" ∷ "c" ∷ []
unfolding lines
lines_split = refl

split_words-render_example :
    split_words (render ("a b" ∷ "" ∷ "q\"r" ∷ [])) ≡ ok ("a b" ∷ "q\"r" ∷ [])
unfolding non_empty
split_words-render_example = split_words-render ("a b" ∷ "" ∷ "q\"r" ∷ [])

read_line_example :
    (strip_comment (String.◌++◌ (render ("a # b" ∷ [])) (String.◌∷◌ "#" " rest"))
      ≡ ok (some (render ("a # b" ∷ []))))
    × (split_words (render ("a # b" ∷ [])) ≡ ok ("a # b" ∷ []))
unfolding non_empty
read_line_example = read_line "a # b" [] " rest"

abbrev first_value : Value
first_value = array (cons (object (field "b" null (field "a" (bool true) end))) nil)

abbrev second_value : Value
second_value = array (cons (object (field "a" (bool true) (field "b" null end))) nil)

canonical_value-order_example :
    canonical_value serde.number_text serde.quoted first_value
    ≡ canonical_value serde.number_text serde.quoted second_value
canonical_value-order_example =
    canonical_value-order serde.number_text serde.quoted {v = first_value} {w = second_value} (
      value_array (
        items_cons
          (value_object (fields_swap "b" "a" (λ e. absurd (ground (arith, eq_iff "b" "a")))))
          items_nil))

abbrev flow : String
flow =
    "workflow w\ndriver d\nmode observe\ndecision_as_of now\nlayer job key id\nnode b\n  alg noop\n  cell job id=2\n  input out from a.out\nend\n"

abbrev flow_spec : WorkflowSpec
flow_spec = record {
  spec_version = 1;
  workflow_name = "w";
  driver = record {
    driver_id = "d";
    mode = "observe";
    decision_as_of = "now";
    allow_external_write = false;
    allow_broker_resource = false;
  };
  layers = record { layer = "job"; parent = none; key_fields = "id" ∷ [] } ∷ [];
  resources = [];
  nodes =
      record {
        node_id = "b";
        algorithm = "noop";
        cell = record { layer = "job"; key = object (field "id" (number (int (pos 2))) end) };
        config = object end;
        inputs = record { from = "a"; role = "out" } ∷ [];
        outputs = [];
      }
      ∷ [];
}

abbrev no_floats : String → Option Float
no_floats s = none

flow_parsed : parse_flow_workflow no_floats flow ≡ ok flow_spec
unfolding parse_flow_workflow sec_fa.Graph.Parser.flow_lines lines sec_fa.Graph.Parser.raw_line
    strip_comment sec_fa.Graph.Lexer.trim split_words sec_fa.Graph.Parser.workflow_line
    sec_fa.Graph.Parser.Tokens.require_len Outcome.bail_if sec_fa.Graph.Parser.Tokens.parse_layer
    sec_fa.Graph.Parser.node_line sec_fa.Graph.Parser.Tokens.parse_key_value
    sec_fa.Graph.Parser.Tokens.parse_node_role sec_fa.Graph.Parser.finish sec_fa.Json.insert_field
    sec_fa.Graph.Parser.Tokens.parse_flow_value parse_i64_text
flow_parsed = refl

parse_flow_workflow-shape_example :
    (flow_spec.spec_version ≡ 1) × All HasKey flow_spec.layers × All HasNamedInputs flow_spec.nodes
parse_flow_workflow-shape_example = parse_flow_workflow-shape no_floats flow flow_spec flow_parsed

abbrev noop : Algorithm
noop = record {
  algorithm_id = "noop.test.v1";
  algorithm_name = "noop";
  algorithm_version = "1";
  hazard_class = "C";
  purity = "pure";
  deterministic = true;
  executable_kind = "noop_test";
  executable_ref = "noop";
  inputs = "command_output.v1" ∷ [];
  outputs = "command_output.v1" ∷ [];
  resources = "cpu.local" ∷ "clock.utc" ∷ [];
  forbidden_resources = [];
}

abbrev bootstrap : AlgorithmBootstrap
bootstrap = record { spec_version = pos 1; algorithms = noop ∷ [] }

abbrev empty : Tables
empty = record { product_types = []; algorithm_registry = []; resource_declarations = [] }

abbrev seeded : Tables
seeded = record {
  product_types = [];
  algorithm_registry = row_of_algorithm serde "now" noop ∷ [];
  resource_declarations = [];
}

seeded_fixture : seed_algorithm_registry serde "now" empty bootstrap ≡ ok seeded
unfolding seed_algorithm_registry Outcome.bail_if
seeded_fixture = refl

contracts_read : ReadsContracts serde noop
unfolding canonical_value sec_fa.Prelude.Text.format sec_fa.Json.text_items
contracts_read = (refl, refl, refl, refl)

seed_algorithm_registry-load_example : load_algorithm serde seeded "noop.test.v1" ≡ some noop
seed_algorithm_registry-load_example =
    seed_algorithm_registry-load serde "now" empty seeded bootstrap noop contracts_read (tt, tt)
      seeded_fixture (Memᴰ.head refl)
