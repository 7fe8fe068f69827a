-- ===== src/Hash.antt =====
-- cli/src/framework/hash.rs: the names of products, runs and cells, over the digest of the crate
-- sha2.
pub mod Order
use Prim.Native.String
use sec_fa.Prelude.{ℕ, zero, suc, String, Option, List, [], ◌∷◌, if◌then◌else◌}
use sec_fa.Prelude.Text.{format, str_ltb}
use sec_fa.Json.{
  ℤ, Value, object, field, end, string, number, int, text_array, text_object, optional,
}
use sec_fa.Serde.{Serde, to_canonical_json}

-- `sha256_hex` gives the 64 hexadecimal digits of the digest of a text's bytes.
pub record Digests : Type 0 where
  pub serde : Serde
  pub sha256_hex : String → String

-- `&text[..n]`, on a text of at least `n` one-byte characters.
unfoldable pub slice_to : ℕ → String → String
slice_to zero s = ""
slice_to (suc n) String.[] = ""
slice_to (suc n) (String.◌∷◌ c s) = String.◌∷◌ c (slice_to n s)

-- `sort` on texts, by insertion.
unfoldable pub insert_sorted : String → List String → List String
insert_sorted x [] = x ∷ []
insert_sorted x (y ∷ ys) = if str_ltb y x then y ∷ insert_sorted x ys else x ∷ y ∷ ys

unfoldable pub sort : List String → List String
unfolding insert_sorted
sort [] = []
sort (x ∷ xs) = insert_sorted x (sort xs)

module _ (d : Digests) where
  unfoldable pub canonical_sha256 : Value → String
  canonical_sha256 value = d.sha256_hex (to_canonical_json d.serde value)

  unfoldable pub content_sha256 : Value → String
  unfolding canonical_sha256
  content_sha256 product_payload = canonical_sha256 product_payload

  unfoldable pub config_sha256 : Value → String
  unfolding canonical_sha256
  config_sha256 config_json = canonical_sha256 config_json

  unfoldable pub product_id :
      (product_type schema_name : String) (schema_version : ℤ) (cell_id : String)
      (family_id : Option String)
      (content_sha256 algorithm_id algorithm_version config_sha256 : String)
      (parent_product_ids : List String) (available_at : String)
      → String
  unfolding canonical_sha256 sort slice_to
  product_id product_type schema_name schema_version cell_id family_id content algorithm_id
        algorithm_version config parent_product_ids available_at =
      let payload = object (
        field "product_type" (string product_type) (
          field "schema_name" (string schema_name) (
            field "schema_version" (number (int schema_version)) (
              field "cell_id" (string cell_id) (
                field "family_id" (optional family_id) (
                  field "content_sha256" (string content) (
                    field "created_by_algorithm" (string algorithm_id) (
                      field "algorithm_version" (string algorithm_version) (
                        field "config_sha256" (string config) (
                          field "parents" (text_array (sort parent_product_ids))
                            (field "available_at" (string available_at) end))))))))))) in
      format ("prod_" ∷ slice_to 48 (canonical_sha256 payload) ∷ [])

  unfoldable pub workflow_run_id :
      (workflow_name workflow_spec_sha256 mode decision_as_of created_at : String) → String
  unfolding canonical_sha256 slice_to
  workflow_run_id workflow_name workflow_spec_sha256 mode decision_as_of created_at =
      let payload = text_object (
        ("workflow_name", workflow_name)
        ∷ ("workflow_spec_sha256", workflow_spec_sha256)
        ∷ ("mode", mode)
        ∷ ("decision_as_of", decision_as_of)
        ∷ ("created_at", created_at)
        ∷ []) in
      format ("wf_" ∷ slice_to 48 (canonical_sha256 payload) ∷ [])

  unfoldable pub node_run_id :
      (workflow_run_id node_id cell_id algorithm_id config_sha256 : String)
      (input_product_ids : List String)
      → String
  unfolding canonical_sha256 sort slice_to
  node_run_id workflow_run node_id cell algorithm_id config input_product_ids =
      let payload = object (
        field "workflow_run_id" (string workflow_run) (
          field "node_id" (string node_id) (
            field "cell_id" (string cell) (
              field "algorithm_id" (string algorithm_id) (
                field "config_sha256" (string config)
                  (field "input_product_ids" (text_array (sort input_product_ids)) end)))))) in
      format ("node_" ∷ slice_to 48 (canonical_sha256 payload) ∷ [])

  unfoldable pub cell_id : String → Value → String
  unfolding canonical_sha256 slice_to
  cell_id layer key = format (layer ∷ ":" ∷ slice_to 24 (canonical_sha256 key) ∷ [])
