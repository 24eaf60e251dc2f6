-- ===== src/Base/Sets.antt =====
-- A set of numbers as a list without repetition, in the order of insertion.
use lars.Base.Tests.{◌==◌, ltb, if◌then◌else◌, Bool-cases}
use lars.Base.Lists.{remove}
use Prim.Native.Nat.{ℕ, ◌<◌}
use mathlib.Core.Path.{◌≡◌, refl, ap}
use mathlib.Core.Logic.{inl, inr}
use mathlib.Core.Bool.{Bool, true, false, ◌||◌}
use mathlib.Core.List.{List, [], ◌∷◌, ◌++◌}
use native.Mathlib.Omega.{arith}

unfoldable pub contains : ℕ → List ℕ → Bool
contains a [] = false
contains a (x ∷ xs) = (x == a) || contains a xs

unfoldable pub add : ℕ → List ℕ → List ℕ
add a xs = if contains a xs then xs else xs ++ a ∷ []

-- `std::set::insert`: in ascending order.
unfoldable pub insert_sorted : ℕ → List ℕ → List ℕ
insert_sorted a [] = a ∷ []
insert_sorted a (x ∷ xs) =
    let rest = insert_sorted a xs in
    if ltb a x then a ∷ x ∷ xs else if a == x then x ∷ xs else x ∷ rest

pub contains-insert_sorted :
    (a b : ℕ) (xs : List ℕ) → contains a (insert_sorted b xs) ≡ ((b == a) || contains a xs)
unfolding contains insert_sorted
contains-insert_sorted a b [] = refl
contains-insert_sorted a b (x ∷ xs) = ground (arith, contains-insert_sorted a b xs)

pub contains-append :
    (a : ℕ) (xs ys : List ℕ) → contains a (xs ++ ys) ≡ (contains a xs || contains a ys)
unfolding contains
contains-append a [] ys = refl
contains-append a (x ∷ xs) ys = ground (arith, contains-append a xs ys)

pub contains-add : (a b : ℕ) (xs : List ℕ) → contains a (add b xs) ≡ ((b == a) || contains a xs)
unfolding add contains
contains-add a b xs = elim (Bool-cases (contains b xs)) [
  | inl old ↦ elim (Bool-cases (b == a)) [
    | inl e ↦ let e' : b ≡ a = ground arith in ground (arith, ap (λ k. contains k xs) e')
    | inr n ↦ ground arith
  ]
  | inr new ↦ ground (arith, contains-append a xs (b ∷ []))
]

pub contains-remove :
    (a b : ℕ) (xs : List ℕ) → contains a (remove b xs) ≡ (if b == a then false else contains a xs)
unfolding remove contains
contains-remove a b [] = ground arith
contains-remove a b (x ∷ xs) = ground (arith, contains-remove a b xs)

-- In ascending order, above a bound.
abbrev pub Above : ℕ → List ℕ → Type 0
Above n [] = Unit {0}
Above n (x ∷ xs) = (n < x) × Above x xs

abbrev pub Ascending : List ℕ → Type 0
Ascending [] = Unit {0}
Ascending (x ∷ xs) = Above x xs

insert_sorted-Above : (n a : ℕ) (xs : List ℕ) → n < a → Above n xs → Above n (insert_sorted a xs)
unfolding insert_sorted
insert_sorted-Above n a [] h v = (h, tt)
insert_sorted-Above n a (x ∷ xs) h v = ground (arith, insert_sorted-Above x a xs)

pub insert_sorted-Ascending : (a : ℕ) (xs : List ℕ) → Ascending xs → Ascending (insert_sorted a xs)
unfolding insert_sorted
insert_sorted-Ascending a [] v = tt
insert_sorted-Ascending a (x ∷ xs) v = ground (arith, insert_sorted-Above x a xs)

pub lt_of_contains : (n a : ℕ) (xs : List ℕ) → Above n xs → contains a xs ≡ true → n < a
unfolding contains
lt_of_contains n a [] v h = ground arith
lt_of_contains n a (x ∷ xs) v h = ground (arith, lt_of_contains x a xs)

pub Ascending-tail : (x : ℕ) (xs : List ℕ) → Above x xs → Ascending xs
Ascending-tail x [] v = tt
Ascending-tail x (y ∷ xs) v = v.1
