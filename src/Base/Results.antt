-- ===== src/Base/Results.antt =====
-- What a call of the program can end in: a value, or a fault that the C++ code leaves undefined or
-- that stops the process.
use mathlib.Core.Path.{◌≡◌, refl, sym, ap, ◌∙◌, subst}
use mathlib.Core.Bool.{Bool, true, false}
use mathlib.Core.Option.{Option, none, some}
use mathlib.Core.Logic.{◌⊎◌, inl, inr}
use native.Mathlib.Omega.{arith}

pub data Fault : Type 0 where
  -- a read through a pointer to freed memory, and through NULL
  use_after_free null_pointer : Fault
  -- `front()` of an empty list, an index outside an array, a read of an unset field
  empty_list out_of_bounds uninitialised : Fault
  -- a sum of `int`s that does not fit
  signed_overflow : Fault
  -- a failed `assert`, and `exit(1)`
  assertion exits : Fault

pub data Result {ℓ} (A : Type ℓ) : Type ℓ where
  ok : A → Result A
  fault : Fault → Result A

-- What follows a call: a fault ends everything.
module _ {ℓ κ} {A : Type ℓ} {B : Type κ} where
  infixl 5 ◌>>=◌
  abbrev pub ◌>>=◌ : Result A → (A → Result B) → Result B
  fault e >>= next = fault e
  ok a >>= next = next a

infixl 5 ◌>>◌
abbrev pub ◌>>◌ {ℓ} : {B : Type ℓ} → Result (Unit {0}) → Result B → Result B
check >> next = check >>= λ _. next

abbrev pub assert : Bool → Result (Unit {0})
assert true = ok tt
assert false = fault assertion

abbrev pub or_fault {ℓ} : {A : Type ℓ} → Option A → Fault → Result A
or_fault none e = fault e
or_fault (some a) e = ok a

abbrev pub is_ok {ℓ} : {A : Type ℓ} → Result A → Bool
is_ok (fault e) = false
is_ok (ok a) = true

pub Result-cases {ℓ} :
    {A : Type ℓ} (r : Result A) → ((a : A) × (r ≡ ok a)) ⊎ ((e : Fault) × (r ≡ fault e))
Result-cases (ok a) = inl (a, refl)
Result-cases (fault e) = inr (e, refl)

-- The result is a value, and it satisfies `P`.
abbrev pub Returns {ℓ} : {A : Type ℓ} → (A → Type 0) → Result A → Type 0
Returns P (ok a) = P a
Returns P (fault e) = ⊥

pub Returns-ok {ℓ} :
    {A : Type ℓ} (P : A → Type 0) (r : Result A) → Returns P r → (a : A) × (r ≡ ok a) × P a
Returns-ok P (ok a) h = (a, refl, h)
Returns-ok P (fault e) h = elim h [ ]

pub Returns-mono {ℓ} :
    {A : Type ℓ} (P Q : A → Type 0) (r : Result A)
    → ((a : A) → P a → Q a)
    → Returns P r
    → Returns Q r
Returns-mono P Q (ok a) f h = f a h
Returns-mono P Q (fault e) f h = elim h [ ]

pub >>=-Returns {ℓ κ} :
    {A : Type ℓ} {B : Type κ} (P : A → Type 0) (Q : B → Type 0) (m : Result A) (f : A → Result B)
    → Returns P m
    → ((a : A) → P a → Returns Q (f a))
    → Returns Q (m >>= f)
>>=-Returns P Q (ok a) f h k = k a h
>>=-Returns P Q (fault e) f h k = elim h [ ]

pub is_ok->>= {ℓ κ} :
    {A : Type ℓ} {B : Type κ} (m : Result A) (f : A → Result B)
    → is_ok m ≡ false
    → is_ok (m >>= f) ≡ false
is_ok->>= (ok a) f h = ground arith
is_ok->>= (fault e) f h = refl

-- If the result is a value, it satisfies `P`.
abbrev pub IfOk {ℓ} : {A : Type ℓ} → (A → Type 0) → Result A → Type 0
IfOk P (ok a) = P a
IfOk P (fault e) = Unit {0}

pub >>=-IfOk {ℓ κ} :
    {A : Type ℓ} {B : Type κ} (Q : B → Type 0) (m : Result A) (f : A → Result B)
    → ((a : A) → m ≡ ok a → IfOk Q (f a))
    → IfOk Q (m >>= f)
>>=-IfOk Q (ok a) f k = k a refl
>>=-IfOk Q (fault e) f k = tt

pub of_IfOk {ℓ} : {A : Type ℓ} (P : A → Type 0) (r : Result A) {a : A} → IfOk P r → r ≡ ok a → P a
of_IfOk P r h e = rw e at h

-- The value of a result that is known to be one.
abbrev pub get_ok {ℓ} : {A : Type ℓ} → A → Result A → A
get_ok a (ok b) = b
get_ok a (fault e) = a

pub of_ok {ℓ} :
    {A : Type ℓ} (P : A → Type 0) (r : Result A) (a : A)
    → (x : A) × (r ≡ ok x) × P x
    → r ≡ ok a
    → P a
of_ok P r a (x, e, h) found = subst P (ap (get_ok a) (sym e ∙ found)) h
