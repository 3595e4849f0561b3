-- ===== src/Prelude/Sets.antt =====
-- Sets of numbers as lists: members, lists without repetition, and the pigeonhole principle.
use Prim.Native.Nat.{ℕ, suc, ◌+◌, ◌≤◌, ◌<◌}
use mathlib.Core.Path.{◌≡◌, refl, subst}
use mathlib.Core.Logic.{◌≢◌, ◌⊎◌, inl, inr}
use mathlib.Core.Bool.{true, false}
use mathlib.Core.List.{List, [], ◌∷◌, ◌++◌}
use native.Mathlib.Omega.{arith}
use native.Mathlib.Decide.{ℕ_discrete}
use miniraft_cpp.Prelude.Tests.{◌==◌, if◌then◌else◌, Bool-cases}
use miniraft_cpp.Prelude.Lists.{length, length-append, All, All-append, All-map}
use miniraft_cpp.Prelude.Dict.{contains, insert, remove}

-- No number occurs twice.
abbrev pub Distinct : List ℕ → Type 0
Distinct [] = Unit
Distinct (x ∷ xs) = (contains x xs ≡ false) × Distinct xs

pub contains-insert :
    (k j : ℕ) (xs : List ℕ) → contains j (insert k xs) ≡ (if k == j then true else contains j xs)
unfolding contains insert
contains-insert k j [] = ground arith
contains-insert k j (x ∷ xs) = ground (arith, contains-insert k j xs)

pub insert-Distinct : (k : ℕ) (xs : List ℕ) → Distinct xs → Distinct (insert k xs)
unfolding contains insert
insert-Distinct k [] h = (refl, tt)
insert-Distinct k (x ∷ xs) h = ground (arith, insert-Distinct k xs h.1, contains-insert k x xs)

pub insert-All : (P : ℕ → Type 0) (k : ℕ) (xs : List ℕ) → P k → All P xs → All P (insert k xs)
unfolding insert
insert-All P k [] p h = (p, tt)
insert-All P k (x ∷ xs) p h = elim (Bool-cases (x == k)) [
  | inl same ↦ rw (same, insert) h
  | inr other ↦ rw (other, insert) (h.0, insert-All P k xs p h.1)
]

-- A property of all members holds of one.
pub All-contains : (P : ℕ → Type 0) (k : ℕ) (xs : List ℕ) → All P xs → contains k xs ≡ true → P k
unfolding contains
All-contains P k [] h m = absurd (ground arith)
All-contains P k (x ∷ xs) h m = elim (ℕ_discrete x k) [
  | yes same ↦ subst P same h.0
  | no other ↦ All-contains P k xs h.1 (ground arith)
]

length-remove :
    (k : ℕ) (xs : List ℕ) → contains k xs ≡ true → suc (length (remove k xs)) ≡ length xs
unfolding contains remove
length-remove k [] h = absurd (ground arith)
length-remove k (x ∷ xs) h = ground (arith, length-remove k xs)

contains-remove :
    (k j : ℕ) (xs : List ℕ) → k ≢ j → contains j xs ≡ true → contains j (remove k xs) ≡ true
unfolding contains remove
contains-remove k j [] h m = absurd (ground arith)
contains-remove k j (x ∷ xs) h m = ground (arith, contains-remove k j xs)

abbrev pub Within : List ℕ → List ℕ → Type 0
Within xs ys = All (λ x. contains x ys ≡ true) xs

remove-Within :
    (k : ℕ) (xs ys : List ℕ) → contains k xs ≡ false → Within xs ys → Within xs (remove k ys)
unfolding contains
remove-Within k [] ys h w = tt
remove-Within k (x ∷ xs) ys h w =
    (contains-remove k x ys (ground arith) w.0, remove-Within k xs ys (ground arith) w.1)

-- A list without repetition is no longer than a list that has all its members.
pub length-le-Within : (xs ys : List ℕ) → Distinct xs → Within xs ys → length xs ≤ length ys
length-le-Within [] ys d w = omega arith
length-le-Within (x ∷ xs) ys d w = omega (
  arith,
  length-le-Within xs (remove x ys) d.1 (remove-Within x xs ys d.0 w.1),
  length-remove x ys w.0,
)

contains-append :
    (k : ℕ) (xs ys : List ℕ)
    → contains k xs ≡ false
    → contains k ys ≡ false
    → contains k (xs ++ ys) ≡ false
unfolding contains
contains-append k [] ys h m = m
contains-append k (x ∷ xs) ys h m = ground (arith, contains-append k xs ys)

-- Either the lists share a number, or together they have no repetition.
shared :
    (xs ys : List ℕ)
    → Distinct xs
    → Distinct ys
    → ((k : ℕ) × (contains k xs ≡ true) × (contains k ys ≡ true)) ⊎ Distinct (xs ++ ys)
unfolding contains
shared [] ys dx dy = inr dy
shared (x ∷ xs) ys dx dy = elim (Bool-cases (contains x ys)) [
  | inl both ↦ inl (x, ground arith, both)
  | inr not_both ↦ elim (shared xs ys dx.1 dy) [
    | inl (k, hx, hy) ↦ inl (k, ground arith, hy)
    | inr d ↦ inr (contains-append x xs ys dx.0 not_both, d)
  ]
]

-- Two majorities have a member in common.
pub common_member :
    (xs ys zs : List ℕ)
    → Distinct xs
    → Distinct ys
    → Within xs zs
    → Within ys zs
    → length zs < length xs + length ys
    → (k : ℕ) × (contains k xs ≡ true) × (contains k ys ≡ true)
common_member xs ys zs dx dy wx wy h = elim (shared xs ys dx dy) [
  | inl found ↦ found
  | inr d ↦ absurd (
      omega (
        arith,
        length-append xs ys,
        length-le-Within (xs ++ ys) zs d (All-append (λ x. contains x zs ≡ true) xs ys wx wy),
      ))
]

-- Every list has its own members.
pub Within-refl : (xs : List ℕ) → Within xs xs
unfolding contains
Within-refl [] = tt
Within-refl (x ∷ xs) = (
  ground arith,
  All-map (λ y. contains y xs ≡ true) (λ y. contains y (x ∷ xs) ≡ true) xs (λ y h. ground arith)
      (Within-refl xs),
)
