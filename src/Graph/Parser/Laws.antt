-- ===== src/Graph/Parser/Laws.antt =====
-- The workflows that `parse_flow_workflow` of cli/src/framework/graph.rs returns.
use text.Mathlib.Text.{◌==◌}
use sec_fa.Prelude.{
  ℕ, ◌+◌, String, ◌≡◌, ◌≢◌, refl, false, ◌||◌, Option, none, some, List, [], ◌∷◌, length, nat_eq,
  is_some, All, All-append, arith, Option-cases,
}
use sec_fa.Outcome.{
  Result, ok, err, ◌>>=◌, ◌>>◌, bail_if, context, with_context, >>=-eq-ok, Holds, Holds-if,
  Holds-bind, Holds-eq,
}
use sec_fa.Json.{end}
use sec_fa.Decimal.{decimal}
use sec_fa.Prelude.Text.{format}
use sec_fa.Graph.{WorkflowSpec, LayerSpec, NodeSpec, NodeInputSpec}
use sec_fa.Graph.Lexer.{lines, strip_comment, split_words, is_empty}
use sec_fa.Graph.Parser.Tokens.{
  Float, require_len, parse_layer, layer_key, parse_node_role, both_given, split_once, parse_bool,
  parse_resource, head_of,
}
use sec_fa.Graph.Parser.{
  NodeBuilder, FlowState, reopen, single, dispatch, second_of, fourth_of, cell_key, node_line,
  workflow_line, cell_line, input_line, set_line, output_line, end_line, tokens_line, raw_line,
  flow_lines, finish, initial, parse_flow_workflow,
}

-- A layer has key fields.
abbrev pub HasKey : LayerSpec → Type 0
HasKey layer = layer.key_fields ≢ []

-- An input names a node and a role.
abbrev pub IsNamed : NodeInputSpec → Type 0
IsNamed input = (is_empty input.from ≡ false) × (is_empty input.role ≡ false)

abbrev pub HasNamedInputs : NodeSpec → Type 0
HasNamedInputs node = All IsNamed node.inputs

abbrev OpenNode : Option NodeBuilder → Type 0
OpenNode none = Unit
OpenNode (some node) = All IsNamed node.inputs

record IsGood (st : FlowState) : Type 0 where
  layers : All HasKey st.layers
  nodes : All HasNamedInputs st.nodes
  current : OpenNode st.current_node

kept_fields :
    (fields : List String) (text : String) {u : Unit {0}}
    → bail_if (nat_eq (length fields) 0) text ≡ ok u
    → fields ≢ []
unfolding bail_if
kept_fields [] text h = absurd (cc)
kept_fields (f ∷ fs) text h = λ e. absurd (cc)

layer_key-HasKey :
    (layer : String) (parent : Option String) (tokens : List String) (line_no : ℕ)
    → Holds HasKey (layer_key layer parent tokens line_no)
unfolding layer_key
layer_key-HasKey layer parent [] line_no = tt
layer_key-HasKey layer parent (key ∷ fields) line_no =
    Holds-bind HasKey (bail_if _ _) (λ _. bail_if (nat_eq (length fields) 0) _ >> ok _)
      (λ _ _.
        Holds-bind HasKey (bail_if (nat_eq (length fields) 0) _) (λ _. ok _)
          (λ _ e. kept_fields fields _ e))

parse_layer-HasKey :
    (tokens : List String) (line_no : ℕ) → Holds HasKey (parse_layer tokens line_no)
unfolding parse_layer
parse_layer-HasKey [] line_no = tt
parse_layer-HasKey (a ∷ []) line_no = tt
parse_layer-HasKey (a ∷ b ∷ []) line_no = tt
parse_layer-HasKey (a ∷ b ∷ c ∷ []) line_no = tt
parse_layer-HasKey (word ∷ layer ∷ first ∷ second ∷ rest) line_no =
    Holds-if HasKey (first == "parent") _ _ (layer_key-HasKey layer (some second) rest line_no)
      (layer_key-HasKey layer none (first ∷ second ∷ rest) line_no)

parse_node_role-named :
    (value : String) (line_no : ℕ) (node role : String)
    → parse_node_role value line_no ≡ ok (node, role)
    → (is_empty node ≡ false) × (is_empty role ≡ false)
unfolding parse_node_role both_given
parse_node_role-named value line_no node role h =
    ground (arith, Option-cases (split_once b'.' value))

module _ (parse_f64 : String → Option Float) (line_no : ℕ) where
  abbrev Named : NodeBuilder → Type 0
  Named node = All IsNamed node.inputs

  cell_line-Named :
      (node : NodeBuilder) (tokens : List String)
      → Named node
      → Holds Named (cell_line parse_f64 line_no node tokens)
  unfolding cell_line
  cell_line-Named node [] g = tt
  cell_line-Named node (word ∷ []) g = tt
  cell_line-Named node (word ∷ layer ∷ rest) g =
      Holds-bind Named (cell_key parse_f64 line_no end rest) _ (λ a h. g)

  input_line-Named :
      (node : NodeBuilder) (tokens : List String)
      → Named node
      → Holds Named (input_line parse_f64 line_no node tokens)
  unfolding input_line
  input_line-Named node tokens g = Holds-bind Named (bail_if _ _) _ (λ _ _.
      Holds-bind Named (parse_node_role (fourth_of tokens) line_no) _ (λ (from, role) e.
        Holds-bind Named (bail_if _ _) _ (λ _ _.
          All-append IsNamed node.inputs _ g
            (parse_node_role-named (fourth_of tokens) line_no from role e, tt))))

  set_line-Named :
      (node : NodeBuilder) (tokens : List String)
      → Named node
      → Holds Named (set_line parse_f64 line_no node tokens)
  unfolding set_line
  set_line-Named node tokens g = Holds-bind Named (bail_if _ _) _ (λ _ _. g)

  output_line-Named :
      (node : NodeBuilder) (tokens : List String)
      → Named node
      → Holds Named (output_line parse_f64 line_no node tokens)
  unfolding output_line
  output_line-Named node tokens g = Holds-bind Named (bail_if _ _) _ (λ _ _. g)

  end_line-Good :
      (st : FlowState) (node : NodeBuilder) (tokens : List String)
      → IsGood st
      → Named node
      → Holds IsGood (end_line parse_f64 line_no st node tokens)
  unfolding end_line
  end_line-Good st node tokens g n = Holds-bind IsGood (bail_if _ _) _ (λ _ _.
      Holds-bind IsGood (context node.algorithm _) _ (λ algorithm _.
        Holds-bind IsGood (context node.cell _) _ (λ cell _. record {
          layers = g.layers;
          nodes = All-append HasNamedInputs st.nodes _ g.nodes (n, tt);
          current = tt;
        })))

  reopen-Good :
      (st : FlowState) (r : Result NodeBuilder)
      → IsGood st
      → Holds Named r
      → Holds IsGood (reopen parse_f64 line_no st r)
  reopen-Good st (ok node) g h = record { layers = g.layers; nodes = g.nodes; current = h }
  reopen-Good st (err e) g h = tt

  node_line-Good :
      (st : FlowState) (node : NodeBuilder) (tokens : List String)
      → IsGood st
      → Named node
      → Holds IsGood (node_line parse_f64 line_no st node tokens)
  unfolding node_line
  node_line-Good st node tokens g n =
      let d = head_of tokens in
      let set_or_later =
        Holds-if IsGood (d == "set") _ _ (reopen-Good st _ g (set_line-Named node tokens n)) (
          Holds-if IsGood (d == "output") _ _ (reopen-Good st _ g (output_line-Named node tokens n))
            (Holds-if IsGood (d == "end") _ (err _) (end_line-Good st node tokens g n) tt)) in
      Holds-if IsGood (d == "alg" || d == "algorithm") _ _
        (reopen-Good st _ g
          (Holds-bind Named (require_len tokens 2 line_no) (λ _. ok _) (λ _ _. n)))
        (Holds-if IsGood (d == "cell") _ _ (reopen-Good st _ g (cell_line-Named node tokens n)) (
          Holds-if IsGood (d == "input") _ _ (reopen-Good st _ g (input_line-Named node tokens n))
            set_or_later))

  single-Good :
      (tokens : List String) (next : Result FlowState)
      → Holds IsGood next
      → Holds IsGood (single parse_f64 line_no tokens next)
  unfolding single
  single-Good tokens next h = Holds-bind IsGood (require_len tokens 2 line_no) _ (λ _ _. h)

  -- A line that opens no node keeps the lists of nodes.
  set_layers :
      (st next : FlowState)
      → IsGood st
      → next.layers ≡ st.layers
      → next.nodes ≡ st.nodes
      → OpenNode next.current_node
      → IsGood next
  set_layers st next g e f c = record { layers = rw e g.layers; nodes = rw f g.nodes; current = c }

  workflow_line-Good :
      (st : FlowState) (tokens : List String)
      → IsGood st
      → Holds IsGood (workflow_line parse_f64 line_no st tokens)
  unfolding workflow_line
  workflow_line-Good st tokens g =
      let d = head_of tokens in
      let v = second_of tokens in
      let node_or_unknown =
        Holds-if IsGood (d == "node") _ (err _)
          (single-Good tokens (ok _) (set_layers st _ g refl refl tt)) tt in
      let layer_or_later =
        Holds-if IsGood (d == "layer") _ _
          (Holds-bind IsGood (parse_layer tokens line_no) _ (λ layer e. record {
            layers =
                All-append HasKey st.layers _ g.layers
                  (Holds-eq HasKey _ layer (parse_layer-HasKey tokens line_no) e, tt);
            nodes = g.nodes;
            current = g.current;
          }))
          (Holds-if IsGood (d == "resource") _ _
            (Holds-bind IsGood (parse_resource tokens line_no) _
              (λ _ _. set_layers st _ g refl refl g.current))
            node_or_unknown) in
      let flag_or_later =
        Holds-if IsGood (d == "allow_external_write") _ _
          (single-Good tokens _ (
            Holds-bind IsGood (parse_bool v line_no) _
              (λ _ _. set_layers st _ g refl refl g.current)))
          (Holds-if IsGood (d == "allow_broker_resource") _ _
            (single-Good tokens _ (
              Holds-bind IsGood (parse_bool v line_no) _
                (λ _ _. set_layers st _ g refl refl g.current)))
            layer_or_later) in
      Holds-if IsGood (d == "workflow") _ _
        (single-Good tokens (ok _) (set_layers st _ g refl refl g.current))
        (Holds-if IsGood (d == "driver") _ _
          (single-Good tokens (ok _) (set_layers st _ g refl refl g.current))
          (Holds-if IsGood (d == "mode") _ _
            (single-Good tokens (ok _) (set_layers st _ g refl refl g.current))
            (Holds-if IsGood (d == "decision_as_of") _ _
              (single-Good tokens (ok _) (set_layers st _ g refl refl g.current)) flag_or_later)))

  raw_line-Good :
      (st : FlowState) (raw : String) → IsGood st → Holds IsGood (raw_line parse_f64 line_no st raw)
  unfolding raw_line tokens_line
  raw_line-Good st raw g =
      Holds-bind IsGood (strip_comment raw) _ (λ stripped _. text_Good stripped)
    where
      tokens_Good :
          (current : Option NodeBuilder) (tokens : List String)
          → OpenNode current
          → Holds IsGood (dispatch parse_f64 line_no st current tokens)
      tokens_Good (some node) tokens n = node_line-Good st node tokens g n
      tokens_Good none tokens n = workflow_line-Good st tokens g

      line_Good : (tokens : List String) → Holds IsGood (tokens_line parse_f64 line_no st tokens)
      line_Good [] = g
      line_Good (t ∷ ts) = tokens_Good st.current_node (t ∷ ts) g.current

      text_Good :
          (stripped : Option String)
          → Holds IsGood (elim stripped [
            | none ↦ ok st
            | some line ↦
                with_context (split_words line) (format ("line " ∷ decimal line_no ∷ []))
                >>= λ tokens. tokens_line parse_f64 line_no st tokens
          ])
      text_Good none = g
      text_Good (some line) =
          Holds-bind IsGood (with_context (split_words line) _) _ (λ tokens _. line_Good tokens)

module _ (parse_f64 : String → Option Float) where
  flow_lines-Good :
      (line_no : ℕ) (st : FlowState) (raws : List String)
      → IsGood st
      → Holds IsGood (flow_lines parse_f64 line_no st raws)
  unfolding flow_lines
  flow_lines-Good line_no st [] g = g
  flow_lines-Good line_no st (raw ∷ rest) g =
      Holds-bind IsGood (raw_line parse_f64 line_no st raw) _ (λ next e.
        flow_lines-Good (line_no + 1) next rest
          (Holds-eq IsGood _ next (raw_line-Good parse_f64 line_no st raw g) e))

  -- A workflow that `parse_flow_workflow` returns has version 1, each of its layers has key fields,
  -- and each input of each of its nodes names a node and a role.
  pub parse_flow_workflow-shape :
      (text : String) (spec : WorkflowSpec)
      → parse_flow_workflow parse_f64 text ≡ ok spec
      → (spec.spec_version ≡ 1) × All HasKey spec.layers × All HasNamedInputs spec.nodes
  unfolding parse_flow_workflow finish bail_if
  parse_flow_workflow-shape text spec h =
      let (st, e, f) = >>=-eq-ok (flow_lines parse_f64 1 initial (lines text)) _ h in
      let start : IsGood initial = record { layers = tt; nodes = tt; current = tt } in
      let g = Holds-eq IsGood _ st (flow_lines-Good 1 initial (lines text) start) e in
      finished st f g
    where
      finished :
          (st : FlowState)
          → finish st ≡ ok spec
          → IsGood st
          → (spec.spec_version ≡ 1) × All HasKey spec.layers × All HasNamedInputs spec.nodes
      finished st f g =
          let (_, _, f₁) = >>=-eq-ok (bail_if (is_some st.current_node) _) _ f in
          let (_, _, f₂) = >>=-eq-ok (context st.workflow_name _) _ f₁ in
          let (_, _, f₃) = >>=-eq-ok (context st.driver_id _) _ f₂ in
          let (_, _, f₄) = >>=-eq-ok (context st.mode _) _ f₃ in
          let (_, _, f₅) = >>=-eq-ok (context st.decision_as_of _) _ f₄ in
          ground (arith, g.layers, g.nodes)
