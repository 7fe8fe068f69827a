-- ===== src/Outcome.antt =====
-- `anyhow::Result`: a value, or an error with its text as `{:#}` prints it, outermost context first.
use sec_fa.Prelude.{
  String, ◌≡◌, ◌↔◌, ◌⊎◌, inl, inr, refl, sym, subst, not, Bool, true, false, Option, none, some, [],
  ◌∷◌, if◌then◌else◌,
}
use sec_fa.Prelude.Text.{format}

pub data Result {ℓ} (A : Type ℓ) : Type ℓ where
  err : String → Result A
  ok : A → Result A

-- The operator `?`: the text of an error goes past all that follows.
module _ {ℓ κ} {A : Type ℓ} {B : Type κ} where
  infixl 5 ◌>>=◌ ◌>>◌
  abbrev pub ◌>>=◌ : Result A → (A → Result B) → Result B
  err text >>= next = err text
  ok value >>= next = next value

  abbrev pub ◌>>◌ : Result A → Result B → Result B
  first >> next = first >>= λ _. next

-- `Option::context`.
abbrev pub context {ℓ} : {A : Type ℓ} → Option A → String → Result A
context none e = err e
context (some a) e = ok a

-- `Result::with_context`.
abbrev pub with_context {ℓ} : {A : Type ℓ} → Result A → String → Result A
with_context (ok a) c = ok a
with_context (err e) c = err (format (c ∷ ": " ∷ e ∷ []))

-- `if refused { bail!(..) }`
unfoldable pub bail_if : Bool → String → Result (Unit {0})
bail_if true e = err e
bail_if false e = ok tt

abbrev pub IsOk {ℓ} : {A : Type ℓ} → Result A → Type 0
IsOk (ok a) = Unit
IsOk (err e) = ⊥

-- Inversion of a chain that succeeded.
module _ {ℓ κ} {A : Type ℓ} {B : Type κ} where
  pub >>=-eq-ok :
      (first : Result A) (next : A → Result B) {value : B}
      → (first >>= next) ≡ ok value
      → (a : A) × (first ≡ ok a) × (next a ≡ ok value)
  >>=-eq-ok (err text) next h = cc
  >>=-eq-ok (ok a) next h = (a, refl, h)

-- The value of a result, if it has one, satisfies `P`.
module _ {ℓ κ} {A : Type ℓ} where
  abbrev pub Holds : (A → Type κ) → Result A → Type κ
  Holds P (ok a) = P a
  Holds P (err e) = Unit

  pub Holds-if :
      (P : A → Type κ) (b : Bool) (m n : Result A)
      → Holds P m
      → Holds P n
      → Holds P (if b then m else n)
  Holds-if P true m n h k = h
  Holds-if P false m n h k = k

  pub Holds-eq : (P : A → Type κ) (m : Result A) (a : A) → Holds P m → m ≡ ok a → P a
  Holds-eq P (ok b) a h e = let same : b ≡ a = cc in subst P same h
  Holds-eq P (err e) a h k = absurd (cc)

pub Holds-bind {ℓ κ μ} :
    {A : Type ℓ} {B : Type κ} (P : B → Type μ) (m : Result A) (f : A → Result B)
    → ((a : A) → m ≡ ok a → Holds P (f a))
    → Holds P (m >>= f)
Holds-bind P (ok a) f h = h a refl
Holds-bind P (err e) f h = tt

pub Result-cases {ℓ} :
    {A : Type ℓ} (m : Result A) → ((a : A) × (m ≡ ok a)) ⊎ ((text : String) × (m ≡ err text))
Result-cases (ok a) = inl (a, refl)
Result-cases (err text) = inr (text, refl)

-- When a chain succeeds.
pub IsOk-bind {ℓ κ} :
    {A : Type ℓ} {B : Type κ} (m : Result A) (f : A → Result B)
    → IsOk (m >>= f) ↔ ((a : A) × (m ≡ ok a) × IsOk (f a))
IsOk-bind (ok a) f = (λ h. (a, refl, h), λ h. let e : h.0 ≡ a = cc in subst (λ v. IsOk (f v)) e h.2)
IsOk-bind (err e) f = (λ h. absurd h, λ h. absurd (cc))

pub IsOk-then {ℓ κ} :
    {A : Type ℓ} {B : Type κ} (m : Result A) (n : Result B) → IsOk (m >> n) ↔ (IsOk m × IsOk n)
IsOk-then (ok a) n = (λ h. (tt, h), λ h. h.1)
IsOk-then (err e) n = (λ h. absurd h, λ h. h.0)

pub IsOk-bail : (b : Bool) (text : String) → IsOk (bail_if (not b) text) ↔ (b ≡ true)
unfolding bail_if
IsOk-bail true text = (λ h. refl, λ h. tt)
IsOk-bail false text = (λ h. absurd h, λ h. absurd (cc))

pub context-eq {ℓ} :
    {A : Type ℓ} (o : Option A) (text : String) (a : A) → (context o text ≡ ok a) ↔ (o ≡ some a)
context-eq none text a = (λ h. absurd (cc), λ h. absurd (cc))
context-eq (some b) text a = (λ h. cc, λ h. cc)

pub ok_of {ℓ} : {A : Type ℓ} (m : Result A) → IsOk m → (a : A) × (m ≡ ok a)
ok_of (ok a) h = (a, refl)
ok_of (err e) h = absurd h

pub IsOk-of_eq {ℓ} : {A : Type ℓ} {m : Result A} {a : A} → m ≡ ok a → IsOk m
IsOk-of_eq e = subst IsOk (sym e) tt

pub ok-injective {ℓ} : {A : Type ℓ} {a b : A} → ok a ≡ ok b → a ≡ b
ok-injective e = cc

pub IsOk-bail_if : (b : Bool) (text : String) → IsOk (bail_if b text) ↔ (b ≡ false)
unfolding bail_if
IsOk-bail_if true text = (λ h. absurd h, λ h. absurd (cc))
IsOk-bail_if false text = (λ h. refl, λ h. tt)
