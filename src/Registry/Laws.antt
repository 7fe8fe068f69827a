-- ===== src/Registry/Laws.antt =====
-- Loading after seeding, and the built-in resources, of cli/src/framework/registry.rs.
use mathlib.Core.List.Memᴰ
use text.Mathlib.Text.{◌==◌}
use sec_fa.Prelude.{
  String, ◌≡◌, ◌≢◌, refl, inl, inr, Bool, true, false, some, List, [], ◌∷◌, any, find, All, All-mem,
  Memᴰ, arith, eq_iff, if◌then◌else◌,
}
use sec_fa.Outcome.{ok, bail_if, >>=-eq-ok}
use sec_fa.Json.{pos}
use sec_fa.Serde.{Serde, ReadsBack}
use sec_fa.Registry.{
  Algorithm, ResourceDeclaration, AlgorithmRow, Tables, algorithm_of_row, non_zero, load_algorithm,
}
use sec_fa.Registry.Known.{known_resource_declarations}
use sec_fa.Registry.Seed.{
  AlgorithmBootstrap, upsert_row, same_algorithm, upsert_algorithm, row_of_algorithm,
  seed_algorithms, seed_algorithm_registry,
}
use sec_fa.Invariants.{can_submit}

-- The names of the algorithms of a list are distinct.
abbrev pub HasId : String → Algorithm → Type 0
HasId id a = id ≢ a.algorithm_id

abbrev pub IsDistinctIds : List Algorithm → Type 0
IsDistinctIds [] = Unit
IsDistinctIds (a ∷ rest) = All (HasId a.algorithm_id) rest × IsDistinctIds rest

find-upsert_row :
    (id : String) (row : AlgorithmRow) (rows : List AlgorithmRow)
    → find (λ (r : AlgorithmRow). r.algorithm_id == id) (upsert_row same_algorithm row rows) ≡ (
        if row.algorithm_id == id
        then some row
        else find (λ (r : AlgorithmRow). r.algorithm_id == id) rows)
unfolding upsert_row same_algorithm
find-upsert_row id row [] = ground arith
find-upsert_row id row (r ∷ rows) = ground (
  arith,
  find-upsert_row id row rows,
  eq_iff r.algorithm_id row.algorithm_id,
  eq_iff r.algorithm_id id,
  eq_iff row.algorithm_id id,
)

upsert_algorithm-eq :
    (t t' : Tables) (row : AlgorithmRow)
    → upsert_algorithm t row ≡ ok t'
    → t'.algorithm_registry ≡ upsert_row same_algorithm row t.algorithm_registry
unfolding upsert_algorithm
upsert_algorithm-eq t t' row h = ground arith

-- The four contracts of an algorithm are read back from their JSON texts.
abbrev pub ReadsContracts : Serde → Algorithm → Type 0
ReadsContracts serde a =
    ReadsBack serde a.inputs
    × ReadsBack serde a.outputs
    × ReadsBack serde a.resources
    × ReadsBack serde a.forbidden_resources

read_back :
    (serde : Serde) (now : String) (a : Algorithm)
    → ReadsContracts serde a
    → algorithm_of_row serde (row_of_algorithm serde now a) ≡ a
read_back serde now a (inputs, outputs, resources, forbidden) =
    let flag : non_zero (if a.deterministic then pos 1 else pos 0) ≡ a.deterministic =
      flag_read a.deterministic in
    rw (inputs, outputs, resources, forbidden, flag) refl
  where
    flag_read : (b : Bool) → non_zero (if b then pos 1 else pos 0) ≡ b
    flag_read true = refl
    flag_read false = refl

-- Rows of other algorithms do not change what is found.
seed_algorithms-other :
    (serde : Serde) (now id : String) (xs : List Algorithm) (t t' : Tables)
    → All (HasId id) xs
    → seed_algorithms serde now t xs ≡ ok t'
    → find (λ (r : AlgorithmRow). r.algorithm_id == id) t'.algorithm_registry
      ≡ find (λ (r : AlgorithmRow). r.algorithm_id == id) t.algorithm_registry
unfolding seed_algorithms
seed_algorithms-other serde now id [] t t' d h = ground arith
seed_algorithms-other serde now id (a ∷ rest) t t' d h =
    let (m, e, k) = >>=-eq-ok (upsert_algorithm t (row_of_algorithm serde now a)) _ h in
    ground (
      arith,
      seed_algorithms-other serde now id rest m t' d.1 k,
      upsert_algorithm-eq t m (row_of_algorithm serde now a) e,
      find-upsert_row id (row_of_algorithm serde now a) t.algorithm_registry,
      eq_iff a.algorithm_id id,
      d.0,
    )

seed_algorithms-found :
    (serde : Serde) (now : String) (xs : List Algorithm) (a : Algorithm) (t t' : Tables)
    → IsDistinctIds xs
    → seed_algorithms serde now t xs ≡ ok t'
    → Memᴰ a xs
    → find (λ (r : AlgorithmRow). r.algorithm_id == a.algorithm_id) t'.algorithm_registry
      ≡ some (row_of_algorithm serde now a)
unfolding seed_algorithms
seed_algorithms-found serde now [] a t t' d h m = elim m [ ]
seed_algorithms-found serde now (b ∷ rest) a t t' d h m =
    let (u, e, k) = >>=-eq-ok (upsert_algorithm t (row_of_algorithm serde now b)) _ h in
    elim (Memᴰ.cases_cons m) [
      | inl same ↦ rw same (
          ground (
            arith,
            seed_algorithms-other serde now b.algorithm_id rest u t' d.0 k,
            upsert_algorithm-eq t u (row_of_algorithm serde now b) e,
            find-upsert_row b.algorithm_id (row_of_algorithm serde now b) t.algorithm_registry,
            eq_iff b.algorithm_id b.algorithm_id,
          ))
      | inr later ↦ seed_algorithms-found serde now rest a u t' d.1 k later
    ]

-- Where the names of the algorithms are distinct, an algorithm that `seed_algorithm_registry` seeds
-- and whose contracts are read back from their JSON texts is what `load_algorithm` then loads,
-- whatever the table held before.
pub seed_algorithm_registry-load :
    (serde : Serde) (now : String) (t t' : Tables) (bootstrap : AlgorithmBootstrap) (a : Algorithm)
    → ReadsContracts serde a
    → IsDistinctIds bootstrap.algorithms
    → seed_algorithm_registry serde now t bootstrap ≡ ok t'
    → Memᴰ a bootstrap.algorithms
    → load_algorithm serde t' a.algorithm_id ≡ some a
unfolding seed_algorithm_registry load_algorithm
seed_algorithm_registry-load serde now t t' bootstrap a reads d h m =
    let (_, _, k) = >>=-eq-ok (bail_if _ _) _ h in
    rw
      (
        seed_algorithms-found serde now bootstrap.algorithms a t t' d k m,
        read_back serde now a reads,
      )
      refl

abbrev BrokerModes : String → ResourceDeclaration → Type 0
BrokerModes mode r =
    r.resource_kind ≡ "broker" → any (λ allowed. allowed == mode) r.allowed_modes ≡ can_submit mode

not_broker {ℓ} : {A : Type ℓ} (kind : String) → (kind == "broker") ≡ false → kind ≡ "broker" → A
not_broker kind apart e = absurd (ground (arith, eq_iff kind "broker"))

submit_modes :
    (mode : String)
    → any (λ allowed. allowed == mode) ("paper" ∷ "live_limited" ∷ "live" ∷ []) ≡ can_submit mode
unfolding can_submit
submit_modes mode = ground (
  arith,
  eq_iff "paper" mode,
  eq_iff mode "paper",
  eq_iff "live_limited" mode,
  eq_iff mode "live_limited",
  eq_iff "live" mode,
  eq_iff mode "live",
)

-- A built-in resource that is a broker is allowed in exactly the modes that may submit.
known_broker_modes :
    (r : ResourceDeclaration) (mode : String)
    → Memᴰ r known_resource_declarations
    → r.resource_kind ≡ "broker"
    → any (λ allowed. allowed == mode) r.allowed_modes ≡ can_submit mode
unfolding known_resource_declarations
known_broker_modes r mode m =
    All-mem (BrokerModes mode) known_resource_declarations r
      (
        not_broker "cpu" refl,
        (
          not_broker "sqlite" refl,
          (
            not_broker "filesystem" refl,
            (
              not_broker "sec_http" refl,
              (
                not_broker "market_data_http" refl,
                (
                  (λ _. submit_modes mode),
                  (not_broker "notification" refl, (not_broker "clock" refl, tt)),
                ),
              ),
            ),
          ),
        ),
      )
      m
