-- ===== src/Commands/Names/Agree.antt =====
-- The copies in cli/src/main.rs against filings/src/lib.rs: where both give the same.
use mathlib.Core.Logic.{◌↔◌}
use sec_fa.Prelude.{
  String, ◌≡◌, refl, sym, ◌∙◌, ap, ◌⊎◌, inl, inr, Bool, true, false, not, ◌&&◌, ◌||◌, Option, none,
  some, List, [], ◌∷◌, any, arith, Bool-cases, if◌then◌else◌,
}
use sec_fa.BTreeMap.{BTreeMap, string_ord, insert}
use sec_fa.Hash.{sort, insert_sorted}
use sec_fa.Filings.Names.{form_values, is_wildcard, is_nil, dedup, form_clause}
use sec_fa.Filings.Names as Filings
use sec_fa.Filings.Names.Forms.{
  set_insert, set_of, dedup-sort, any-set_of, set_of-IsRun, sort-of_IsRun,
}
use sec_fa.Commands.Names.{collect_set, named_forms, keys_of, parse_form_set}
use sec_fa.Commands.Names as Commands

keys_of-insert :
    (x : String) (m : BTreeMap String (Unit {0}))
    → keys_of (insert x tt m) ≡ set_insert x (keys_of m)
unfolding insert
keys_of-insert x [] = refl
keys_of-insert x ((j, u) ∷ m) = ground (arith, keys_of-insert x m)

keys_of-collect_set : (xs : List String) → keys_of (collect_set xs) ≡ set_of xs
unfolding collect_set
keys_of-collect_set [] = refl
keys_of-collect_set (x ∷ xs) =
    keys_of-insert x (collect_set xs) ∙ ap (set_insert x) (keys_of-collect_set xs)

abbrev named : List String → List String
named [] = []
named (s ∷ rest) = if is_wildcard s then named rest else s ∷ named rest

named_forms-keys : (m : BTreeMap String (Unit {0})) → named_forms m ≡ named (keys_of m)
unfolding named_forms
named_forms-keys [] = refl
named_forms-keys ((s, u) ∷ m) = ground (arith, named_forms-keys m)

-- A form that is not a wildcard.
abbrev pub is_named : String → Bool
is_named s = not (is_wildcard s)

named_all : (xs : List String) → any is_wildcard xs ≡ false → named xs ≡ xs
named_all [] h = refl
named_all (x ∷ xs) h = ground (arith, named_all xs)

is_nil-named : (xs : List String) → is_nil (named xs) ≡ not (any is_named xs)
is_nil-named [] = refl
is_nil-named (x ∷ xs) = ground (arith, is_nil-named xs)

named_values : String → List String
named_values forms = named (set_of (form_values forms))

commands_values : (forms : String) → named_forms (parse_form_set forms) ≡ named_values forms
unfolding parse_form_set named_values
commands_values forms =
    named_forms-keys (collect_set (form_values forms))
    ∙ ap named (keys_of-collect_set (form_values forms))

is_nil-named_values :
    (forms : String) → is_nil (named_values forms) ≡ not (any is_named (form_values forms))
unfolding named_values
is_nil-named_values forms =
    is_nil-named (set_of (form_values forms)) ∙ ap not (any-set_of is_named (form_values forms))

if_not : {A : Type 0} (b : Bool) (x y : A) → (if not b then x else y) ≡ (if b then y else x)
if_not true x y = refl
if_not false x y = refl

commands_clause :
    (column forms : String)
    → Commands.sql_form_filter_clause column forms ≡ (
        if any is_named (form_values forms)
        then some (form_clause column (sort (named_values forms)), sort (named_values forms))
        else none)
unfolding Commands.sql_form_filter_clause
commands_clause column forms =
    rw (commands_values forms, is_nil-named_values forms)
      (if_not (any is_named (form_values forms)) none _)

either_way :
    {A : Type 0} (b : Bool) (x : Option A)
    → (if not b then x else none) ≡ (if b || false then none else x)
either_way true x = refl
either_way false x = refl

no_wildcard_named :
    (xs : List String) → any is_wildcard xs ≡ false → any is_named xs ≡ not (is_nil xs)
no_wildcard_named [] h = refl
no_wildcard_named (x ∷ xs) h = ground arith

abbrev Clause : Type 0
Clause = Option (String × List String)

same_clause :
    (column forms : String)
    → any is_wildcard (form_values forms) ≡ false
    → Commands.sql_form_filter_clause column forms ≡ Filings.sql_form_filter_clause column forms
unfolding Filings.sql_form_filter_clause named_values
same_clause column forms h =
    let values = form_values forms in
    let all = named_all (set_of values) (any-set_of is_wildcard values ∙ h) in
    let sorted : sort (named_values forms) ≡ set_of values =
      ap sort all ∙ sort-of_IsRun (set_of values) (set_of-IsRun values) in
    commands_clause column forms
    ∙ (rw (no_wildcard_named values h, h, dedup-sort values, sorted)
        (either_way (is_nil values) (some (form_clause column (set_of values), set_of values))))

filings_wildcard :
    (column forms : String)
    → any is_wildcard (form_values forms) ≡ true
    → Filings.sql_form_filter_clause column forms ≡ none
unfolding Filings.sql_form_filter_clause
filings_wildcard column forms h = ground arith

equal_iff :
    (column forms : String)
    → (Commands.sql_form_filter_clause column forms ≡ Filings.sql_form_filter_clause column forms)
      ↔ ((any is_wildcard (form_values forms) ≡ false) ⊎ (any is_named (form_values forms) ≡ false))
equal_iff column forms =
    let values = form_values forms in
    (
      λ e. elim (Bool-cases (any is_wildcard values)) [
        | inl wild ↦ elim (Bool-cases (any is_named values)) [
          | inl some_named ↦
              let given = commands_clause column forms in
              let open_ = filings_wildcard column forms wild in absurd (ground arith)
          | inr h ↦ inr h
        ]
        | inr h ↦ inl h
      ],
      λ c. elim c [
        | inl h ↦ same_clause column forms h
        | inr h ↦ elim (Bool-cases (any is_wildcard values)) [
          | inl wild ↦
              commands_clause column forms ∙ rw h (sym (filings_wildcard column forms wild))
          | inr no_wild ↦ same_clause column forms no_wild
        ]
      ],
    )

any-insert_sorted :
    (p : String → Bool) (x : String) (ys : List String)
    → any p (insert_sorted x ys) ≡ (p x || any p ys)
unfolding insert_sorted
any-insert_sorted p x [] = refl
any-insert_sorted p x (y ∷ ys) = ground (arith, any-insert_sorted p x ys)

any-sort : (p : String → Bool) (xs : List String) → any p (sort xs) ≡ any p xs
unfolding sort
any-sort p [] = refl
any-sort p (x ∷ xs) = ground (arith, any-insert_sorted p x (sort xs), any-sort p xs)

any-named :
    (p : String → Bool) (xs : List String)
    → any p (named xs) ≡ any (λ form. is_named form && p form) xs
any-named p [] = refl
any-named p (x ∷ xs) = ground (arith, any-named p xs)

any-named_values :
    (p : String → Bool) (forms : String)
    → any p (sort (named_values forms)) ≡ any (λ form. is_named form && p form) (form_values forms)
unfolding named_values
any-named_values p forms =
    any-sort p (named (set_of (form_values forms)))
    ∙ any-named p (set_of (form_values forms))
    ∙ any-set_of (λ form. is_named form && p form) (form_values forms)

-- The clause asks for the forms that are named, and for no other.
abbrev pub FiltersNamed : String → String → Type 0
FiltersNamed column forms =
    (args : List String) × (Commands.sql_form_filter_clause column forms
      ≡ some (form_clause column args, args))
    × ((p : String → Bool) → any p args ≡ any (λ form. is_named form && p form) (form_values forms))

filters_named :
    (column forms : String) → any is_named (form_values forms) ≡ true → FiltersNamed column forms
filters_named column forms h = (
  sort (named_values forms),
  commands_clause column forms ∙ rw h refl,
  λ p. any-named_values p forms,
)

-- The filters by form of the two crates are equal exactly when the list of forms has no wildcard
-- (`*` or `ALL`), or has nothing else. With a wildcard beside a named form, filings/src/lib.rs does
-- not filter, and cli/src/main.rs filters by the named forms and by no other.
pub sql_form_filter_clause_agree :
    (column forms : String)
    → ((Commands.sql_form_filter_clause column forms ≡ Filings.sql_form_filter_clause column forms)
        ↔ ((any is_wildcard (form_values forms) ≡ false)
            ⊎ (any is_named (form_values forms) ≡ false)))
      × (any is_wildcard (form_values forms) ≡ true
          → any is_named (form_values forms) ≡ true
          → (Filings.sql_form_filter_clause column forms ≡ none) × FiltersNamed column forms)
sql_form_filter_clause_agree column forms = (
  equal_iff column forms,
  λ wild h. (filings_wildcard column forms wild, filters_named column forms h),
)
