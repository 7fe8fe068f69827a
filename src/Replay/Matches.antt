-- ===== src/Replay/Matches.antt =====
-- What the checks of cli/src/framework/replay.rs ask of the tables.
mod Products
mod Nodes
pub mod Exact
use mathlib.Core.List.{Permᴰ}
use text.Mathlib.Text.{◌==◌}
use sec_fa.Prelude.{String, ◌≡◌, ◌⊎◌, Bool, true, false, Option, some, List, [], ◌∷◌, All}
use sec_fa.Json.{pos, Value, number, int, get, text_object}
use sec_fa.Hash.{Digests, content_sha256, config_sha256}
use sec_fa.Registry.{Algorithm, load_algorithm}
use sec_fa.Storage.{DataProduct, load_product}
use sec_fa.Graph.{NodeSpec}
use sec_fa.Executor.Run.{Runs}
use sec_fa.Replay.Asks.{Ended, Gave, FirstOutput, MessageOf, parents_in}

module _ (d : Digests) (s : Runs) (run : String) where
  -- The stored payload of a command has the hash and the exit code of one that succeeded.
  pub record Succeeded (product : DataProduct) : Type 0 where
    pub payload : Value
    pub stored : d.serde.value_of product.storage_ref ≡ some payload
    pub content : content_sha256 d payload ≡ product.content_sha256
    pub exit_code : get "exit_code" payload ≡ some (number (int (pos 0)))

  -- A product that a node with these inputs would leave.
  pub record Conforms (node : NodeSpec) (algorithm : Algorithm) (inputs : List String)
      (product : DataProduct) : Type 0 where
    pub creator : product.created_by_algorithm ≡ algorithm.algorithm_id
    pub config : product.config_sha256 ≡ config_sha256 d node.config
    pub parents : Permᴰ (parents_in product.product_id s.world.store.data_product_lineage) inputs
    pub output : product.product_type ≡ "command_output.v1" → Succeeded product

  -- What a replay asks of a node.
  pub data Replayed (node : NodeSpec) : Type 0 where
    not_deterministic :
        (algorithm : Algorithm)
        → load_algorithm d.serde s.world.store.tables node.algorithm ≡ some algorithm
        → algorithm.deterministic ≡ false
        → Replayed node
    recorded :
        (algorithm : Algorithm) (inputs outputs : List String)
        → load_algorithm d.serde s.world.store.tables node.algorithm ≡ some algorithm
        → algorithm.deterministic ≡ true
        → Ended d.serde s run node.node_id inputs
        → (algorithm.executable_kind ≡ "rust_operation") ⊎ (algorithm.executable_kind ≡ "command")
        → Gave d.serde s run node.node_id outputs
        → All
            (λ id.
              (product : DataProduct) × (load_product s.world.store id ≡ some product)
              × Conforms node algorithm inputs product)
            outputs
        → Replayed node
    not_replayable :
        (algorithm : Algorithm) (inputs : List String)
        → load_algorithm d.serde s.world.store.tables node.algorithm ≡ some algorithm
        → algorithm.deterministic ≡ true
        → Ended d.serde s run node.node_id inputs
        → (algorithm.executable_kind == "rust_operation") ≡ false
        → (algorithm.executable_kind == "command") ≡ false
        → (algorithm.executable_kind == "noop_test") ≡ false
        → Replayed node
    repeated :
        (algorithm : Algorithm) (inputs outputs : List String) (product : DataProduct)
        (message : String)
        → load_algorithm d.serde s.world.store.tables node.algorithm ≡ some algorithm
        → algorithm.deterministic ≡ true
        → Ended d.serde s run node.node_id inputs
        → algorithm.executable_kind ≡ "noop_test"
        → Gave d.serde s run node.node_id outputs
        → FirstOutput s.world.store outputs product
        → MessageOf node.config message
        → content_sha256 d (
            text_object (
              ("algorithm", algorithm.algorithm_id)
              ∷ ("config_sha256", config_sha256 d node.config)
              ∷ ("message", message)
              ∷ []))
          ≡ product.content_sha256
        → Replayed node
