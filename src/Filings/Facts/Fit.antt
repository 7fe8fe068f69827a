-- ===== src/Filings/Facts/Fit.antt =====
-- The facts that filings/src/lib.rs reads refer to the contexts and units of their document.
use text.Mathlib.Text.{◌==◌}
use sec_fa.Prelude.{
  String, ◌≡◌, refl, subst, inl, inr, true, Option, none, some, List, [], ◌∷◌, All, All-append,
  Bool-cases, Option-cases,
}
use sec_fa.BTreeMap.{BTreeMap, string_ord, get}
use sec_fa.Graph.Parser.Tokens.{Float}
use sec_fa.Filings.{Tools, ContextInfo, UnitInfo}
use sec_fa.Filings.Xml.{Node, elements, attr, tag_name, namespace}
use sec_fa.Filings.Contexts.{taxonomy_for_space}
use sec_fa.Filings.Facts.{
  Source, build_raw_fact, unit_at, context_at, fact_of, inline_fact, is_inline, inline_facts_from,
  classic_fact, classic_facts_from, parse_inline_facts, parse_classic_facts,
}
use sec_fa.Filings.Tables.{FactTables, has_document}
use sec_fa.Filings.Inserts.{unit_stored}
use sec_fa.Filings.Stored.{StoredContext, StoredUnit}
use sec_fa.Filings.Observed.{Fits}

pub get-All {ℓ κ} :
    {V : Type ℓ} (P : V → Type κ) (m : BTreeMap String V) (k : String) (v : V)
    → All (λ e. P (e.1)) m
    → get k m ≡ some v
    → P v
unfolding get
get-All P [] k v h e = absurd (cc)
get-All P ((j, w) ∷ m) k v h e = elim (Bool-cases (k == j)) [
  | inl n ↦ let same : w ≡ v = (let f = rw n at e in cc) in subst P same h.0
  | inr n ↦ get-All P m k v h.1 (rw n at e)
]

module _ (tools : Tools) (source : Source) (contexts : BTreeMap String ContextInfo)
    (units : BTreeMap String UnitInfo) (db : FactTables) where
  -- The rows of the document are there.
  abbrev pub Ready : Type 0
  Ready =
      (has_document db source.doc_id ≡ true)
      × All (λ e. StoredContext db (e.1)) contexts
      × All (λ e. StoredUnit db (e.1)) units

  unit_at-stored :
      Ready → (o : Option String) → unit_stored db (unit_at tools source contexts units o) ≡ true
  unit_at-stored ready none = refl
  unit_at-stored ready (some u) = elim (Option-cases (get u units)) [
    | inl e ↦ rw e refl
    | inr (unit, e) ↦ rw e (get-All (StoredUnit db) units u unit ready.2 e)
  ]

  context_at-stored :
      Ready
      → (o : Option String) (ctx : ContextInfo)
      → context_at tools source contexts units o ≡ some ctx
      → StoredContext db ctx
  context_at-stored ready none ctx e = absurd (cc)
  context_at-stored ready (some c) ctx e = get-All (StoredContext db) contexts c ctx ready.1 e

  fact_of-Fits :
      (n : Node) (taxonomy local : String) (value : Option Float) (text : Option String)
      (ctx : ContextInfo)
      → Ready
      → StoredContext db ctx
      → Fits tools db (fact_of tools source contexts units n taxonomy local value text ctx)
  unfolding build_raw_fact
  fact_of-Fits n taxonomy local value text ctx ready c =
      (ready.0, c, unit_at-stored ready (attr n "unitRef"), refl)

  inline_fact-Fits :
      (n : Node) (name : Option String) (o : Option ContextInfo)
      → Ready
      → ((ctx : ContextInfo) → o ≡ some ctx → StoredContext db ctx)
      → All (Fits tools db) (inline_fact tools source contexts units n name o)
  inline_fact-Fits n none o ready h = tt
  inline_fact-Fits n (some name) none ready h = tt
  inline_fact-Fits n (some name) (some ctx) ready h =
      elim (Bool-cases (tag_name n == "nonFraction")) [
        | inl e ↦ rw e (fact_of-Fits n _ _ _ _ ctx ready (h ctx refl), tt)
        | inr e ↦ rw e (fact_of-Fits n _ _ _ _ ctx ready (h ctx refl), tt)
      ]

  classic_fact-Fits :
      (n : Node) (taxonomy : Option String) (o : Option ContextInfo)
      → Ready
      → ((ctx : ContextInfo) → o ≡ some ctx → StoredContext db ctx)
      → All (Fits tools db) (classic_fact tools source contexts units n taxonomy o)
  classic_fact-Fits n none o ready h = tt
  classic_fact-Fits n (some taxonomy) none ready h = tt
  classic_fact-Fits n (some taxonomy) (some ctx) ready h =
      (fact_of-Fits n _ _ _ _ ctx ready (h ctx refl), tt)

  inline_facts-Fits :
      (ns : List Node)
      → Ready
      → All (Fits tools db) (inline_facts_from tools source contexts units ns)
  inline_facts-Fits [] ready = tt
  inline_facts-Fits (n ∷ ns) ready = elim (Bool-cases (is_inline tools source contexts units n)) [
    | inl e ↦ rw e (
        All-append (Fits tools db) _ _
          (inline_fact-Fits n (attr n "name")
            (context_at tools source contexts units (attr n "contextRef")) ready
            (context_at-stored ready (attr n "contextRef")))
          (inline_facts-Fits ns ready))
    | inr e ↦ rw e (inline_facts-Fits ns ready)
  ]

  classic_facts-Fits :
      (ns : List Node)
      → Ready
      → All (Fits tools db) (classic_facts_from tools source contexts units ns)
  classic_facts-Fits [] ready = tt
  classic_facts-Fits (n ∷ ns) ready =
      All-append (Fits tools db) _ _
        (classic_fact-Fits n (taxonomy_for_space (namespace n))
          (context_at tools source contexts units (attr n "contextRef")) ready
          (context_at-stored ready (attr n "contextRef")))
        (classic_facts-Fits ns ready)

  pub parse_inline_facts-Fits :
      (root : Node)
      → Ready
      → All (Fits tools db) (parse_inline_facts tools source contexts units root)
  unfolding parse_inline_facts
  parse_inline_facts-Fits root ready = inline_facts-Fits (elements root "") ready

  pub parse_classic_facts-Fits :
      (root : Node)
      → Ready
      → All (Fits tools db) (parse_classic_facts tools source contexts units root)
  unfolding parse_classic_facts
  parse_classic_facts-Fits root ready = classic_facts-Fits (elements root "") ready
