-- ===== src/Json/Canonical.antt =====
-- `canonical_value` of cli/src/framework/canonical_json.rs, over serde_json's printers of numbers
-- and of quoted texts.
use sec_fa.Prelude.{
  String, true, false, List, [], ◌∷◌, ◌≡◌, ◌≢◌, refl, ◌∙◌, if◌then◌else◌, arith, eq_iff,
}
use sec_fa.Prelude.Text.{format, str_ltb, str_ltb_trans, str_ltb_total, str_ltb_irrefl}
use sec_fa.Json.{
  Number, Value, Items, Fields, null, bool, number, string, array, object, nil, cons, end, field,
}

-- `join(",")`
join : List String → String
join [] = ""
join (s ∷ []) = s
join (s ∷ t ∷ rest) = format (s ∷ "," ∷ join (t ∷ rest) ∷ [])

-- `entries.sort_by(|(left, _), (right, _)| left.cmp(right))`, which is stable: an entry goes in
-- front of the first one whose key is not below its own.
place : String → String → List (String × String) → List (String × String)
place k v [] = (k, v) ∷ []
place k v ((j, w) ∷ es) = if str_ltb j k then (j, w) ∷ place k v es else (k, v) ∷ (j, w) ∷ es

sort_by_key : List (String × String) → List (String × String)
unfolding place
sort_by_key [] = []
sort_by_key ((k, v) ∷ es) = place k v (sort_by_key es)

module _ (number_text : Number → String) (quoted : String → String) where
  members : List (String × String) → List String
  members [] = []
  members ((k, text) ∷ es) = format (quoted k ∷ ":" ∷ text ∷ []) ∷ members es

  -- The text of a value goes with its key through the sort, which reads only the key.
  unfoldable mutual
    unfolding sort_by_key members join

    pub canonical_value : Value → String
    canonical_value null = "null"
    canonical_value (bool true) = "true"
    canonical_value (bool false) = "false"
    canonical_value (number n) = number_text n
    canonical_value (string s) = quoted s
    canonical_value (array xs) = format ("[" ∷ join (canonical_items xs) ∷ "]" ∷ [])
    canonical_value (object fs) =
        format ("{" ∷ join (members (sort_by_key (entries fs))) ∷ "}" ∷ [])

    pub canonical_items : Items → List String
    canonical_items nil = []
    canonical_items (cons v xs) = canonical_value v ∷ canonical_items xs

    pub entries : Fields → List (String × String)
    entries end = []
    entries (field k v fs) = (k, canonical_value v) ∷ entries fs

-- Two values that differ only in the order of fields under different keys, at any depth.
mutual
  pub data SameValue : Value → Value → Type 0 where
    value_refl : {v : Value} → SameValue v v
    value_array : {xs ys : Items} → SameItems xs ys → SameValue (array xs) (array ys)
    value_object : {fs gs : Fields} → SameFields fs gs → SameValue (object fs) (object gs)

  pub data SameItems : Items → Items → Type 0 where
    items_nil : SameItems nil nil
    items_cons :
        {v w : Value} {xs ys : Items}
        → SameValue v w
        → SameItems xs ys
        → SameItems (cons v xs) (cons w ys)

  pub data SameFields : Fields → Fields → Type 0 where
    fields_end : SameFields end end
    fields_field :
        {v w : Value} {fs gs : Fields} (k : String)
        → SameValue v w
        → SameFields fs gs
        → SameFields (field k v fs) (field k w gs)
    fields_swap :
        {v w : Value} {fs : Fields} (k j : String)
        → k ≢ j
        → SameFields (field k v (field j w fs)) (field j w (field k v fs))
    fields_trans : {fs gs hs : Fields} → SameFields fs gs → SameFields gs hs → SameFields fs hs

-- Entries under different keys are placed in either order.
place_comm :
    (k j v w : String) (es : List (String × String))
    → k ≢ j
    → place k v (place j w es) ≡ place j w (place k v es)
unfolding place
place_comm k j v w [] n =
    ground (arith, str_ltb_total k j, str_ltb_trans k j k, str_ltb_irrefl k, eq_iff k j)
place_comm k j v w ((i, u) ∷ es) n = ground (
  arith,
  place_comm k j v w es,
  str_ltb_total k j,
  str_ltb_trans k j k,
  str_ltb_irrefl k,
  eq_iff k j,
  str_ltb_trans i k j,
  str_ltb_trans i j k,
)

module _ (number_text : Number → String) (quoted : String → String) where
  abbrev text_of : Value → String
  text_of = canonical_value number_text quoted

  abbrev texts_of : Items → List String
  texts_of = canonical_items number_text quoted

  abbrev entries_of : Fields → List (String × String)
  entries_of = entries number_text quoted

  mutual
    unfolding canonical_value

    text_of-eq : {v w : Value} → SameValue v w → text_of v ≡ text_of w
    text_of-eq value_refl = refl
    text_of-eq (value_array s) = rw (texts_of-eq s)
    text_of-eq (value_object s) = rw (entries_of-eq s)

    texts_of-eq : {xs ys : Items} → SameItems xs ys → texts_of xs ≡ texts_of ys
    texts_of-eq items_nil = refl
    texts_of-eq (items_cons s t) = cc (text_of-eq s, texts_of-eq t)

    entries_of-eq :
        {fs gs : Fields}
        → SameFields fs gs
        → sort_by_key (entries_of fs) ≡ sort_by_key (entries_of gs)
    entries_of-eq fields_end = refl
    entries_of-eq (fields_field k s t) = rw (text_of-eq s, entries_of-eq t)
    entries_of-eq (fields_swap {v} {w} {fs} k j n) =
        place_comm k j (text_of v) (text_of w) (sort_by_key (entries_of fs)) n
    entries_of-eq (fields_trans s t) = entries_of-eq s ∙ entries_of-eq t

  -- The canonical text of a value does not depend on the order in which the fields of its objects
  -- were written, at any depth, where fields that change places have different keys.
  pub canonical_value-order :
      {v w : Value}
      → SameValue v w
      → canonical_value number_text quoted v ≡ canonical_value number_text quoted w
  canonical_value-order s = text_of-eq s
