-- ===== src/Base/Results.antt =====
-- The outcome of code that may panic or reach for memory that is not its own.
use mathlib.Core.Path.{◌≡◌, refl, ap}
use mathlib.Core.Option.{Option, none, some}
use mathlib.Core.Bool.{Bool, true, false}

-- `panicked` after a call of `panic`, `faulted` after a use of a null pointer or of memory beyond an
-- allocation.
pub data Result {ℓ} (A : Type ℓ) : Type ℓ where
  panicked faulted : Result A
  ok : A → Result A

infixl 5 ◌>>=◌ ◌>>◌
abbrev pub ◌>>=◌ {ℓ κ} : {A : Type ℓ} {B : Type κ} → Result A → (A → Result B) → Result B
panicked >>= next = panicked
faulted >>= next = faulted
ok a >>= next = next a

abbrev pub ◌>>◌ {ℓ} : {B : Type ℓ} → Result (Unit {0}) → Result B → Result B
first >> second = first >>= λ done. second

abbrev pub panic_if : Bool → Result (Unit {0})
panic_if true = panicked
panic_if false = ok tt

-- A read through a pointer that may be null or beyond the end.
abbrev pub or_fault {ℓ} : {A : Type ℓ} → Option A → Result A
or_fault none = faulted
or_fault (some a) = ok a

abbrev pub or_panic {ℓ} : {A : Type ℓ} → Option A → Result A
or_panic none = panicked
or_panic (some a) = ok a

-- What a chain that returns went through.
pub >>=-eq-ok {ℓ κ} :
    {A : Type ℓ} {B : Type κ} (first : Result A) (next : A → Result B) {b : B}
    → (first >>= next) ≡ ok b
    → (a : A) × (first ≡ ok a) × (next a ≡ ok b)
>>=-eq-ok panicked next h = cc
>>=-eq-ok faulted next h = cc
>>=-eq-ok (ok a) next h = (a, refl, h)

pub ok-injective {ℓ} : {A : Type ℓ} {a b : A} → ok a ≡ ok b → a ≡ b
ok-injective e = cc

-- A step that returns hands its value to the rest.
pub >>=-run {ℓ κ} :
    {A : Type ℓ} {B : Type κ} {first : Result A} {a : A} (next : A → Result B)
    → first ≡ ok a
    → (first >>= next) ≡ next a
>>=-run next e = ap (λ r. r >>= next) e

-- What holds of the value, where one is returned.
abbrev pub Returns {ℓ κ} : {A : Type ℓ} → (A → Type κ) → Result A → Type κ
Returns P panicked = Unit
Returns P faulted = Unit
Returns P (ok a) = P a

pub Returns-bind {ℓ κ μ} :
    {A : Type ℓ} {B : Type κ} (P : B → Type μ) (first : Result A) (next : A → Result B)
    → ((a : A) → first ≡ ok a → Returns P (next a))
    → Returns P (first >>= next)
Returns-bind P panicked next h = tt
Returns-bind P faulted next h = tt
Returns-bind P (ok a) next h = h a refl

pub Returns-ok {ℓ κ} :
    {A : Type ℓ} (P : A → Type κ) {run : Result A} {a : A} → Returns P run → run ≡ ok a → P a
Returns-ok P h e = rw e at h
