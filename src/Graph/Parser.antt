-- ===== src/Graph/Parser.antt =====
-- `parse_flow_workflow` of cli/src/framework/graph.rs: one step for each line of a `.flow` text.
pub mod Tokens
pub mod Laws
use text.Mathlib.Text.{◌==◌}
use sec_fa.Prelude.{
  ℕ, ◌+◌, String, Bool, true, false, not, ◌||◌, Option, none, some, List, [], ◌∷◌, ◌++◌, length,
  nat_eq, ltb, is_some, if◌then◌else◌,
}
use sec_fa.Outcome.{Result, ok, err, ◌>>=◌, ◌>>◌, bail_if, context, with_context}
use sec_fa.Json.{Value, Fields, end, object, insert_field}
use sec_fa.Decimal.{decimal}
use sec_fa.Prelude.Text.{format}
use sec_fa.Graph.{
  WorkflowSpec, DriverSpec, LayerSpec, ResourceSpec, NodeSpec, CellSpec, NodeInputSpec,
  NodeOutputSpec,
}
use sec_fa.Graph.Lexer.{lines, strip_comment, split_words}
use sec_fa.Graph.Parser.Tokens.{
  Float, at_line, head_of, require_len, parse_layer, parse_resource, parse_key_value,
  parse_node_role, parse_bool, parse_flow_value,
}

pub record NodeBuilder : Type 0 where
  pub node_id : String
  pub algorithm : Option String
  pub cell : Option CellSpec
  pub config : Fields
  pub inputs : List NodeInputSpec
  pub outputs : List NodeOutputSpec

-- The variables of `parse_flow_workflow`.
pub record FlowState : Type 0 where
  pub workflow_name : Option String
  pub driver_id : Option String
  pub mode : Option String
  pub decision_as_of : Option String
  pub allow_external_write : Bool
  pub allow_broker_resource : Bool
  pub layers : List LayerSpec
  pub resources : List ResourceSpec
  pub nodes : List NodeSpec
  pub current_node : Option NodeBuilder

abbrev pub second_of : List String → String
second_of (a ∷ b ∷ rest) = b
second_of _ = ""

abbrev pub third_of : List String → String
third_of (a ∷ b ∷ c ∷ rest) = c
third_of _ = ""

abbrev pub fourth_of : List String → String
fourth_of (a ∷ b ∷ c ∷ d ∷ rest) = d
fourth_of _ = ""

module _ (parse_f64 : String → Option Float) (line_no : ℕ) where
  unfoldable pub cell_key : Fields → List String → Result Fields
  cell_key key [] = ok key
  cell_key key (token ∷ rest) = do
    (field, value) ← parse_key_value token line_no
    cell_key (insert_field field (parse_flow_value parse_f64 value) key) rest

  unfoldable pub cell_line : NodeBuilder → List String → Result NodeBuilder
  unfolding cell_key
  cell_line node (word ∷ layer ∷ rest) = do
    key ← cell_key end rest
    ok (record node { cell = some (record { layer = layer; key = object key }) })
  cell_line node tokens = err (at_line line_no ("cell requires a layer" ∷ []))

  unfoldable pub input_line : NodeBuilder → List String → Result NodeBuilder
  input_line node tokens = do
    bail_if (not (nat_eq (length tokens) 4) || not (third_of tokens == "from"))
        (at_line line_no ("input syntax is `input <role> from <node>.<role>`" ∷ []))
    (from_node, from_role) ← parse_node_role (fourth_of tokens) line_no
    bail_if (not (from_role == second_of tokens))
        (at_line line_no ("input role must match source role" ∷ []))
    ok (record node { inputs = node.inputs ++ record { from = from_node; role = from_role } ∷ [] })

  unfoldable pub set_line : NodeBuilder → List String → Result NodeBuilder
  set_line node tokens = do
    bail_if (not (nat_eq (length tokens) 3))
        (at_line line_no ("set syntax is `set <key> <value>`" ∷ []))
    ok (record node {
      config =
          insert_field (second_of tokens) (parse_flow_value parse_f64 (third_of tokens))
            node.config;
    })

  unfoldable pub output_line : NodeBuilder → List String → Result NodeBuilder
  output_line node tokens = do
    bail_if (not (nat_eq (length tokens) 3))
        (at_line line_no ("output syntax is `output <role> <product_type>`" ∷ []))
    ok (record node {
      outputs =
          node.outputs ++ record { role = second_of tokens; product_type = third_of tokens } ∷ [];
    })

  unfoldable pub end_line : FlowState → NodeBuilder → List String → Result FlowState
  end_line st node tokens = do
    bail_if (not (nat_eq (length tokens) 1)) (at_line line_no ("end takes no arguments" ∷ []))
    algorithm ← context node.algorithm "node is missing an alg line"
    cell ← context node.cell "node is missing a cell line"
    ok (record st {
      current_node = none;
      nodes =
          st.nodes
          ++ record {
            node_id = node.node_id;
            algorithm = algorithm;
            cell = cell;
            config = object node.config;
            inputs = node.inputs;
            outputs = node.outputs;
          }
            ∷ [];
    })

  abbrev pub reopen : FlowState → Result NodeBuilder → Result FlowState
  reopen st r = do node ← r; ok (record st { current_node = some node })

  -- A line inside of a node.
  unfoldable pub node_line : FlowState → NodeBuilder → List String → Result FlowState
  unfolding cell_line input_line set_line output_line end_line
  node_line st node tokens =
      let directive = head_of tokens in
      if directive == "alg" || directive == "algorithm"
      then reopen st (do
        require_len tokens 2 line_no
        ok (record node { algorithm = some (second_of tokens) }))
      else if directive == "cell"
      then reopen st (cell_line node tokens)
      else if directive == "input"
      then reopen st (input_line node tokens)
      else if directive == "set"
      then reopen st (set_line node tokens)
      else if directive == "output"
      then reopen st (output_line node tokens)
      else if directive == "end"
      then end_line st node tokens
      else err (at_line line_no ("unknown node directive `" ∷ directive ∷ "`" ∷ []))

  -- A directive with one argument.
  unfoldable pub single : List String → Result FlowState → Result FlowState
  single tokens next = require_len tokens 2 line_no >> next

  -- A line outside of nodes.
  unfoldable pub workflow_line : FlowState → List String → Result FlowState
  unfolding single
  workflow_line st tokens =
      let directive = head_of tokens in
      let v = second_of tokens in
      if directive == "workflow"
      then single tokens (ok (record st { workflow_name = some v }))
      else if directive == "driver"
      then single tokens (ok (record st { driver_id = some v }))
      else if directive == "mode"
      then single tokens (ok (record st { mode = some v }))
      else if directive == "decision_as_of"
      then single tokens (ok (record st { decision_as_of = some v }))
      else if directive == "allow_external_write"
      then single tokens (do b ← parse_bool v line_no; ok (record st { allow_external_write = b }))
      else if directive == "allow_broker_resource"
      then single tokens (do b ← parse_bool v line_no; ok (record st { allow_broker_resource = b }))
      else if directive == "layer"
      then (do
        layer ← parse_layer tokens line_no
        ok (record st { layers = st.layers ++ layer ∷ [] }))
      else if directive == "resource"
      then (do
        resource ← parse_resource tokens line_no
        ok (record st { resources = st.resources ++ resource ∷ [] }))
      else if directive == "node"
      then single tokens (
          ok (record st {
            current_node = some (record {
              node_id = v;
              algorithm = none;
              cell = none;
              config = end;
              inputs = [];
              outputs = [];
            });
          }))
      else err (at_line line_no ("unknown workflow directive `" ∷ directive ∷ "`" ∷ []))

  abbrev pub dispatch : FlowState → Option NodeBuilder → List String → Result FlowState
  dispatch st (some node) tokens = node_line st node tokens
  dispatch st none tokens = workflow_line st tokens

  unfoldable pub tokens_line : FlowState → List String → Result FlowState
  tokens_line st [] = ok st
  tokens_line st (t ∷ ts) = dispatch st st.current_node (t ∷ ts)

  -- The body of the loop over the lines.
  unfoldable pub raw_line : FlowState → String → Result FlowState
  unfolding tokens_line
  raw_line st raw = do
    stripped ← strip_comment raw
    elim stripped [
      | none ↦ ok st
      | some line ↦ do
        tokens ← with_context (split_words line) (format ("line " ∷ decimal line_no ∷ []))
        tokens_line st tokens
    ]

abbrev pub initial : FlowState
initial = record {
  workflow_name = none;
  driver_id = none;
  mode = none;
  decision_as_of = none;
  allow_external_write = false;
  allow_broker_resource = false;
  layers = [];
  resources = [];
  nodes = [];
  current_node = none;
}

unfoldable pub finish : FlowState → Result WorkflowSpec
finish st = do
  bail_if (is_some st.current_node) "workflow ended before current node was closed with `end`"
  workflow_name ← context st.workflow_name "workflow line is required"
  driver_id ← context st.driver_id "driver line is required"
  mode ← context st.mode "mode line is required"
  decision_as_of ← context st.decision_as_of "decision_as_of line is required"
  ok (record {
    spec_version = 1;
    workflow_name = workflow_name;
    driver = record {
      driver_id = driver_id;
      mode = mode;
      decision_as_of = decision_as_of;
      allow_external_write = st.allow_external_write;
      allow_broker_resource = st.allow_broker_resource;
    };
    layers = st.layers;
    resources = st.resources;
    nodes = st.nodes;
  })

module _ (parse_f64 : String → Option Float) where
  unfoldable pub flow_lines : ℕ → FlowState → List String → Result FlowState
  flow_lines line_no st [] = ok st
  flow_lines line_no st (raw ∷ rest) = do
    st' ← raw_line parse_f64 line_no st raw
    flow_lines (line_no + 1) st' rest

  unfoldable pub parse_flow_workflow : String → Result WorkflowSpec
  parse_flow_workflow text = do st ← flow_lines 1 initial (lines text); finish st
