-- ===== src/Base/Dict.antt =====
-- A map with number keys as an association list, in the order of insertion.
use lars.Base.Tests.{◌==◌, if◌then◌else◌, Bool-cases}
use lars.Base.Sets.{contains, add, contains-add}
use lars.Base.Options.{is_some, get_or}
use Prim.Native.Nat.{ℕ}
use mathlib.Core.Path.{◌≡◌, refl, ap}
use mathlib.Core.Logic.{inl, inr}
use mathlib.Core.Bool.{Bool, true, not, ◌&&◌, ◌||◌}
use mathlib.Core.List.{List, [], ◌∷◌}
use mathlib.Core.Option.{Option, none, some}
use native.Mathlib.Omega.{arith}

module _ {ℓ} (V : Type ℓ) where
  abbrev pub Dict : Type ℓ
  Dict = List (ℕ × V)

module _ {ℓ} {V : Type ℓ} where
  -- `m.find(key)`, with the value where there is an entry.
  unfoldable pub lookup : ℕ → Dict V → Option V
  lookup key [] = none
  lookup key ((a, old) ∷ rest) = if a == key then some old else lookup key rest

  -- `m.find(key) != m.end()`.
  abbrev pub has_key : ℕ → Dict V → Bool
  has_key key m = is_some (lookup key m)

  -- `m[key] = new`: a key that is not there yet comes last.
  unfoldable pub insert : ℕ → V → Dict V → Dict V
  insert key new [] = (key, new) ∷ []
  insert key new ((a, old) ∷ rest) =
      let more = insert key new rest in if a == key then (key, new) ∷ rest else (a, old) ∷ more

  abbrev pub keys : Dict V → List ℕ
  keys [] = []
  keys ((a, old) ∷ rest) = a ∷ keys rest

  -- `m.erase(key)`.
  unfoldable pub erase : ℕ → Dict V → Dict V
  erase key [] = []
  erase key ((a, old) ∷ rest) =
      let more = erase key rest in if a == key then more else (a, old) ∷ more

  pub lookup-erase :
      (key b : ℕ) (m : Dict V) → lookup b (erase key m) ≡ (if key == b then none else lookup b m)
  unfolding lookup erase
  lookup-erase key b [] = ground arith
  lookup-erase key b ((a, old) ∷ rest) = ground (arith, lookup-erase key b rest)

  pub lookup-insert :
      (key b : ℕ) (new : V) (m : Dict V)
      → lookup b (insert key new m) ≡ (if key == b then some new else lookup b m)
  unfolding lookup insert
  lookup-insert key b new [] = refl
  lookup-insert key b new ((a, old) ∷ rest) = ground (arith, lookup-insert key b new rest)

-- No key occurs twice.
module _ {ℓ} {V : Type ℓ} where
  abbrev pub distinct : Dict V → Bool
  distinct [] = true
  distinct ((a, old) ∷ rest) = not (has_key a rest) && distinct rest

  pub distinct-insert :
      (key : ℕ) (new : V) (m : Dict V) → distinct m ≡ true → distinct (insert key new m) ≡ true
  unfolding insert lookup
  distinct-insert key new [] d = refl
  distinct-insert key new ((a, old) ∷ rest) d = elim (Bool-cases (a == key)) [
    | inl same ↦ let e : a ≡ key = ground arith in ground (arith, ap (λ k. has_key k rest) e)
    | inr other ↦ ground (arith, distinct-insert key new rest, lookup-insert key a new rest)
  ]

-- A map to sets: `m[k]` where it is only read, and `m[k].insert(a)`.
abbrev pub set_at : ℕ → Dict (List ℕ) → List ℕ
set_at k m = get_or (lookup k m) []

unfoldable pub insert_at : ℕ → ℕ → Dict (List ℕ) → Dict (List ℕ)
insert_at k a m = insert k (add a (set_at k m)) m

pub contains-insert_at :
    (k a j b : ℕ) (m : Dict (List ℕ))
    → contains b (set_at j (insert_at k a m)) ≡ ((k == j) && (a == b) || contains b (set_at j m))
unfolding insert_at
contains-insert_at k a j b m = elim (Bool-cases (k == j)) [
  | inl same ↦
      let e : k ≡ j = ground arith in
      ground (
        arith,
        lookup-insert k j (add a (set_at k m)) m,
        contains-add b a (set_at k m),
        ap (λ i. contains b (set_at i m)) e,
      )
  | inr other ↦ ground (arith, lookup-insert k j (add a (set_at k m)) m)
]

pub lookup-insert_at :
    (g a k : ℕ) (m : Dict (List ℕ))
    → is_some (lookup k (insert_at g a m)) ≡ ((g == k) || is_some (lookup k m))
unfolding insert_at
lookup-insert_at g a k m = ground (arith, lookup-insert g k (add a (set_at g m)) m)
