-- ===== src/Filings/Names/Inside.antt =====
-- Where the paths of `archive_local_path` of filings/src/lib.rs lead.
use Prim.Native.Char.{Char, code}
use Prim.Native.String
use text.Mathlib.TextLemmas.{nil-append, cons-append}
use mathlib.Core.List.{append-nil, append_assoc}
use sec_fa.Prelude.{
  ℕ, String, ◌≡◌, refl, sym, ◌∙◌, ap, subst, Bool, true, false, List, [], ◌∷◌, ◌++◌, any, nat_eq,
  arith, Bool-cases, inl, inr, if◌then◌else◌,
}
use sec_fa.Outcome.{ok, bail_if}
use sec_fa.Graph.Parser.Tokens.{split_at}
use sec_fa.Filings.Names.{
  components, path_components, is_absolute, is_parent_dir, is_unsafe_name, ends_in_slash, is_nil,
  join, archive_local_path,
}

-- Where a path leads from a directory, which is the list of its ancestors, the nearest first: `..`
-- goes up.
abbrev pub up : List String → List String
up [] = []
up (part ∷ parts) = parts

abbrev pub resolve : List String → List String → List String
resolve place [] = place
resolve place (part ∷ parts) = resolve (if is_parent_dir part then up place else part ∷ place) parts

split_at-some :
    (n : ℕ) (s : String) → (part : String) × (parts : List String) × (split_at n s ≡ part ∷ parts)
unfolding split_at
split_at-some n String.[] = ("", [], refl)
split_at-some n (String.◌∷◌ c s) = elim (Bool-cases (nat_eq (code c) n)) [
  | inl e ↦ let (part, parts, h) = split_at-some n s in ("", part ∷ parts, rw (h, e) refl)
  | inr e ↦ let (part, parts, h) = split_at-some n s in (String.◌∷◌ c part, parts, rw (h, e) refl)
]

-- The parts behind one more character.
abbrev grown : Bool → Char → String → List String → List String
grown separates c part parts = if separates then "" ∷ part ∷ parts else String.◌∷◌ c part ∷ parts

split_at-cons :
    (n : ℕ) (c : Char) (s part : String) (parts : List String)
    → split_at n s ≡ part ∷ parts
    → split_at n (String.◌∷◌ c s) ≡ grown (nat_eq (code c) n) c part parts
unfolding split_at
split_at-cons n c s part parts e = rw e refl

grown-append :
    (b : Bool) (c : Char) (part : String) (parts others : List String)
    → grown b c part (parts ++ others) ≡ grown b c part parts ++ others
grown-append true c part parts others = refl
grown-append false c part parts others = refl

grown_some :
    (b : Bool) (c : Char) (part : String) (parts : List String)
    → is_nil (grown b c part parts) ≡ false
grown_some true c part parts = refl
grown_some false c part parts = refl

split_at-append :
    (n : ℕ) (sep : Char) (a b : String)
    → nat_eq (code sep) n ≡ true
    → split_at n (String.◌++◌ a (String.◌∷◌ sep b)) ≡ split_at n a ++ split_at n b
split_at-append n sep String.[] b h =
    let (part, parts, e) = split_at-some n b in
    ap (split_at n) (nil-append (String.◌∷◌ sep b))
    ∙ split_at-cons n sep b part parts e
    ∙ rw (h, e) (unfold split_at in refl)
split_at-append n sep (String.◌∷◌ c a) b h =
    let (part, parts, e) = split_at-some n a in
    let rest = split_at n b in
    ap (split_at n) (cons-append c a (String.◌∷◌ sep b))
    ∙ split_at-cons n c (String.◌++◌ a (String.◌∷◌ sep b)) part (parts ++ rest)
        (split_at-append n sep a b h ∙ ap (λ l. l ++ rest) e)
    ∙ grown-append (nat_eq (code c) n) c part parts rest
    ∙ ap (λ l. l ++ rest) (sym (split_at-cons n c a part parts e))

components-append : (xs ys : List String) → components (xs ++ ys) ≡ components xs ++ components ys
unfolding components
components-append [] ys = refl
components-append (x ∷ xs) ys = ground (arith, components-append xs ys)

-- A text that ends in a separator.
grown_split :
    (c : Char) (s name : String) (before : List String)
    → split_at b'/' s ≡ before ++ "" ∷ []
    → split_at b'/' (String.◌++◌ s name) ≡ before ++ split_at b'/' name
    → is_nil before ≡ false
    → (more : List String) × (split_at b'/' (String.◌∷◌ c s) ≡ more ++ "" ∷ [])
      × (split_at b'/' (String.◌++◌ (String.◌∷◌ c s) name) ≡ more ++ split_at b'/' name)
      × (is_nil more ≡ false)
grown_split c s name [] e f full = absurd (cc)
grown_split c s name (part ∷ parts) e f full = (
  grown (nat_eq (code c) b'/') c part parts,
  split_at-cons b'/' c s part (parts ++ "" ∷ []) e
      ∙ grown-append (nat_eq (code c) b'/') c part parts ("" ∷ []),
  ap (split_at b'/') (cons-append c s name)
      ∙ split_at-cons b'/' c (String.◌++◌ s name) part (parts ++ split_at b'/' name) f
      ∙ grown-append (nat_eq (code c) b'/') c part parts (split_at b'/' name),
  grown_some (nat_eq (code c) b'/') c part parts,
)

ends_in_slash-split :
    (c : Char) (s name : String)
    → ends_in_slash (String.◌∷◌ c s) ≡ true
    → (before : List String) × (split_at b'/' (String.◌∷◌ c s) ≡ before ++ "" ∷ [])
      × (split_at b'/' (String.◌++◌ (String.◌∷◌ c s) name) ≡ before ++ split_at b'/' name)
      × (is_nil before ≡ false)
ends_in_slash-split c String.[] name h =
    let (part, parts, e) = split_at-some b'/' name in
    (
      "" ∷ [],
      split_at-cons b'/' c "" "" [] (unfold split_at in refl) ∙ rw h refl,
      ap (split_at b'/') (cons-append c "" name ∙ ap (String.◌∷◌ c) (nil-append name))
          ∙ split_at-cons b'/' c name part parts e
          ∙ rw (h, e) refl,
      refl,
    )
ends_in_slash-split c (String.◌∷◌ d s) name h =
    let (before, e, f, full) = ends_in_slash-split d s name h in
    grown_split c (String.◌∷◌ d s) name before e f full

components-slash :
    (root name : String)
    → ends_in_slash root ≡ true
    → path_components (String.◌++◌ root name) ≡ path_components root ++ path_components name
components-slash String.[] name h =
    ap path_components (nil-append name) ∙ (unfold components split_at in refl)
components-slash (String.◌∷◌ c s) name h =
    let (before, e, f, full) = ends_in_slash-split c s name h in
    rw (e, f, components-append before (split_at b'/' name), components-append before ("" ∷ []))
      (unfold components in rw (append-nil (components before)) refl)

path_components-join :
    (root name : String)
    → is_absolute name ≡ false
    → path_components (join root name) ≡ path_components root ++ path_components name
unfolding join
path_components-join root name h = elim (Bool-cases (ends_in_slash root)) [
  | inl e ↦ rw (h, e) (components-slash root name e)
  | inr e ↦
      rw (h, e)
        (ap components (split_at-append b'/' "/" root name refl)
          ∙ components-append (split_at b'/' root) (split_at b'/' name))
]

is_absolute-join :
    (root name : String)
    → is_absolute name ≡ false
    → is_absolute (join root name) ≡ is_absolute root
unfolding join
is_absolute-join String.[] name h = rw h (ap is_absolute (nil-append name) ∙ h)
is_absolute-join (String.◌∷◌ c s) name h = elim (Bool-cases (ends_in_slash (String.◌∷◌ c s))) [
  | inl e ↦ rw (h, e) (ap is_absolute (cons-append c s name))
  | inr e ↦ rw (h, e) (ap is_absolute (cons-append c s (String.◌∷◌ "/" name)))
]

resolve-append :
    (place xs ys : List String) → resolve place (xs ++ ys) ≡ resolve (resolve place xs) ys
resolve-append place [] ys = refl
resolve-append place (x ∷ xs) ys =
    resolve-append (if is_parent_dir x then up place else x ∷ place) xs ys

resolve_below :
    (place xs : List String)
    → any is_parent_dir xs ≡ false
    → (below : List String) × (resolve place xs ≡ below ++ place)
resolve_below place [] h = ([], refl)
resolve_below place (x ∷ xs) h =
    let plain : is_parent_dir x ≡ false = ground arith in
    let (below, e) = resolve_below (x ∷ place) xs (ground arith) in
    (below ++ x ∷ [], rw plain (e ∙ sym (append_assoc below (x ∷ []) place)))

-- The path of an unsafe name is not made.
abbrev pub Below : String → String → Type 0
Below root path =
    (is_absolute path ≡ is_absolute root)
    × ((place : List String)
        → (below : List String) × (resolve place (path_components path)
            ≡ below ++ resolve place (path_components root)))

pub join-Below : (root name : String) → is_unsafe_name name ≡ false → Below root (join root name)
join-Below root name safe =
    let relative : is_absolute name ≡ false = ground arith in
    (
      is_absolute-join root name relative,
      λ place.
          let (below, e) =
            resolve_below (resolve place (path_components root)) (path_components name)
              (ground arith) in
          (
            below,
            ap (resolve place) (path_components-join root name relative)
                ∙ resolve-append place (path_components root) (path_components name)
                ∙ e,
          ),
    )

-- A path that archive_local_path gives leads, from any directory, to the package's root or to a
-- place below it, whatever the name of the item is, and is absolute only if the root is.
pub archive_local_path_inside :
    (root name path : String) → archive_local_path root name ≡ ok path → Below root path
unfolding archive_local_path bail_if
archive_local_path_inside root name path h = elim (Bool-cases (is_unsafe_name name)) [
  | inl e ↦ absurd (ground arith)
  | inr e ↦
      let same : join root name ≡ path = ground arith in
      subst (Below root) same (join-Below root name e)
]
