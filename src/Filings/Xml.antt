-- ===== src/Filings/Xml.antt =====
-- XML as the crate roxmltree gives it, and the readers of filings/src/lib.rs on it.
use text.Mathlib.Text.{◌==◌}
use sec_fa.Prelude.{
  String, Bool, false, ◌||◌, Option, none, some, List, [], ◌∷◌, ◌++◌, find, if◌then◌else◌,
}
use sec_fa.Prelude.Text.{format}
use sec_fa.Graph.Lexer.{is_empty, trim}

mutual
  -- An element with its local name, its namespace and its attributes by local name; a text, which is
  -- also what CDATA is; or a comment or an instruction.
  pub data Node : Type 0 where
    element : String → Option String → List (String × String) → Nodes → Node
    text_node : String → Node
    other : Node

  pub data Nodes : Type 0 where
    nil : Nodes
    cons : Node → Nodes → Nodes

-- The node itself and all below it, in document order.
unfoldable mutual
  pub descendants : Node → List Node
  descendants (element name space attributes children) =
      element name space attributes children ∷ descendants_of children
  descendants (text_node t) = text_node t ∷ []
  descendants other = other ∷ []

  pub descendants_of : Nodes → List Node
  descendants_of nil = []
  descendants_of (cons n ns) = descendants n ++ descendants_of ns

abbrev list_of : Nodes → List Node
list_of nil = []
list_of (cons n ns) = n ∷ list_of ns

abbrev pub children_of : Node → List Node
children_of (element name space attributes children) = list_of children
children_of n = []

abbrev pub matches_name : String → Node → Bool
matches_name local (element name space attributes children) = is_empty local || name == local
matches_name local n = false

abbrev keep : (Node → Bool) → List Node → List Node
keep test [] = []
keep test (n ∷ ns) = if test n then n ∷ keep test ns else keep test ns

unfoldable pub elements : Node → String → List Node
unfolding descendants
elements root local = keep (matches_name local) (descendants root)

-- The elements of a name, also an empty one.
abbrev pub has_name : String → Node → Bool
has_name local (element name space attributes children) = name == local
has_name local n = false

unfoldable pub first_child : Node → String → Option Node
first_child n local = find (has_name local) (children_of n)

unfoldable pub first_descendant : Node → String → Option Node
unfolding descendants
first_descendant n local = find (has_name local) (descendants n)

abbrev attribute : String → List (String × String) → Option String
attribute local [] = none
attribute local ((name, value) ∷ rest) = if name == local then some value else attribute local rest

unfoldable pub attr : Node → String → Option String
attr (element name space attributes children) local = attribute local attributes
attr n local = none

abbrev texts : List Node → List String
texts [] = []
texts (text_node t ∷ ns) = t ∷ texts ns
texts (element name space attributes children ∷ ns) = texts ns
texts (other ∷ ns) = texts ns

unfoldable pub text_of : Node → String
unfolding descendants trim
text_of n = trim (format (texts (descendants n)))

abbrev pub tag_name : Node → String
tag_name (element name space attributes children) = name
tag_name n = ""

abbrev pub namespace : Node → Option String
namespace (element name space attributes children) = space
namespace n = none

-- `node.map(text).unwrap_or_default()`
abbrev pub text_or_default : Option Node → String
text_or_default none = ""
text_or_default (some n) = text_of n
