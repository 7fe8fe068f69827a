-- ===== src/Graph/Topology/Release.antt =====
-- The inner loop: what releasing the children of a node does to degrees and queue.
use text.Mathlib.Text.{◌==◌}
use sec_fa.Prelude.{
  ℕ, zero, suc, ◌+◌, ◌-◌, ◌≤◌, String, ◌≡◌, refl, ◌∙◌, Option, none, some, List, [], ◌∷◌, length,
  length-append, nat_eq, if◌then◌else◌, arith, eq_iff, Option-cases, inl, inr,
}
use sec_fa.BTreeMap.{string_ord, get, modify}
use sec_fa.BTreeMap.Laws.{get-modify, IsSorted, modify-IsSorted, length-modify}
use sec_fa.Graph.Topology.{Degrees, State, release, release_all}
use sec_fa.Graph.Topology.Degrees.{degree_in, has_key}
use sec_fa.Graph.Topology.Counts.{count_of, count_of-append, count_of-singleton}

-- The entries of degree above 0.
unfoldable pub positives : Degrees → ℕ
positives [] = 0
positives ((k, d) ∷ m) = if nat_eq d 0 then positives m else suc (positives m)

-- 1 for a key of degree 0.
abbrev pub ready : Option ℕ → ℕ
ready none = 0
ready (some zero) = 1
ready (some (suc d)) = 0

abbrev pub occurs : State → String → ℕ
occurs s v = count_of v s.order + count_of v s.queue

abbrev pub degree_of : State → String → ℕ
degree_of s v = degree_in s.indegree v

-- Rounds that are still to come: the queue, and the keys that can come to it.
abbrev pub work : State → ℕ
work s = length s.queue + positives s.indegree

positives-modify :
    (k : String) (x : ℕ) (m : Degrees)
    → 1 ≤ degree_in m k
    → positives (modify k (λ _. x) m) + 1 ≡ positives m + (if nat_eq x 0 then 0 else 1)
unfolding positives modify get
positives-modify k x [] h = absurd (omega arith)
positives-modify k x ((j, d) ∷ m) h = ground (arith, positives-modify k x m)

-- What one release of a child that is still waited for keeps and changes.
pub record Released (s t : State) (c : String) : Type 0 where
  pub order : t.order ≡ s.order
  pub size : length t.indegree ≡ length s.indegree
  pub work : work t ≡ work s
  pub sorted : IsSorted s.indegree → IsSorted t.indegree
  pub key : (v : String) → has_key t.indegree v ≡ has_key s.indegree v
  pub degree : (v : String) → degree_of t v + (if c == v then 1 else 0) ≡ degree_of s v
  pub place :
      (v : String) → occurs s v ≡ ready (get v s.indegree) → occurs t v ≡ ready (get v t.indegree)

release-Released : (s : State) (c : String) → 1 ≤ degree_of s c → Released s (release s c) c
unfolding release
release-Released s c h = elim (Option-cases (get c s.indegree)) [
  | inl e ↦ absurd (ground arith)
  | inr (d, e) ↦ record {
    order = ground arith;
    size = ground (arith, length-modify c (λ (_ : ℕ). d - 1) s.indegree);
    work = ground (arith, positives-modify c (d - 1) s.indegree, length-append s.queue (c ∷ []));
    sorted = λ p. ground (arith, modify-IsSorted c (λ (_ : ℕ). d - 1) s.indegree);
    key = λ v. ground (arith, get-modify v c (λ (_ : ℕ). d - 1) s.indegree, eq_iff v c);
    degree =
        λ v. ground (arith, get-modify v c (λ (_ : ℕ). d - 1) s.indegree, eq_iff v c, eq_iff c v);
    place = λ v p. ground (
      arith,
      get-modify v c (λ (_ : ℕ). d - 1) s.indegree,
      eq_iff v c,
      eq_iff c v,
      count_of-append v s.queue (c ∷ []),
      count_of-singleton v c,
    );
  }
]

-- The same for a list of children, each released as often as it stands there.
pub record AllReleased (s t : State) (cs : List String) : Type 0 where
  pub order : t.order ≡ s.order
  pub size : length t.indegree ≡ length s.indegree
  pub work : work t ≡ work s
  pub sorted : IsSorted s.indegree → IsSorted t.indegree
  pub key : (v : String) → has_key t.indegree v ≡ has_key s.indegree v
  pub degree : (v : String) → degree_of t v + count_of v cs ≡ degree_of s v
  pub place :
      (v : String) → occurs s v ≡ ready (get v s.indegree) → occurs t v ≡ ready (get v t.indegree)

pub release_all-AllReleased :
    (s : State) (cs : List String)
    → ((v : String) → count_of v cs ≤ degree_of s v)
    → AllReleased s (release_all s cs) cs
unfolding release_all count_of
release_all-AllReleased s [] h = record {
  order = refl;
  size = refl;
  work = refl;
  sorted = λ p. p;
  key = λ v. refl;
  degree = λ v. omega arith;
  place = λ v p. p;
}
release_all-AllReleased s (c ∷ cs) h =
    let one = release-Released s c (ground (arith, h c, eq_iff c c)) in
    let rest = release_all-AllReleased (release s c) cs (λ v. ground (arith, one.degree v, h v)) in
    record {
      order = rest.order ∙ one.order;
      size = rest.size ∙ one.size;
      work = rest.work ∙ one.work;
      sorted = λ p. rest.sorted (one.sorted p);
      key = λ v. rest.key v ∙ one.key v;
      degree = λ v. ground (arith, one.degree v, rest.degree v);
      place = λ v p. rest.place v (one.place v p);
    }
