-- ===== src/Prelude/Dict.antt =====
-- `std::unordered_map` with numbers for keys: an association list, in the order of iteration.
use Prim.Native.Nat.{ℕ, ◌≤◌, ◌+◌}
use mathlib.Core.Path.{◌≡◌, refl}
use mathlib.Core.Bool.{Bool, false, ◌||◌}
use mathlib.Core.List.{List, [], ◌∷◌}
use mathlib.Core.Option.{Option, none, some}
use native.Mathlib.Omega.{arith}
use miniraft_cpp.Prelude.Tests.{◌==◌, if◌then◌else◌}
use miniraft_cpp.Prelude.Lists.{length}

abbrev pub Dict {ℓ} : Type ℓ → Type ℓ
Dict V = List (ℕ × V)

-- Whether a number is among the keys, or in a set.
unfoldable pub contains : ℕ → List ℕ → Bool
contains k [] = false
contains k (x ∷ xs) = x == k || contains k xs

-- `insert` of an `unordered_set`.
unfoldable pub insert : ℕ → List ℕ → List ℕ
insert k [] = k ∷ []
insert k (x ∷ xs) = if x == k then x ∷ xs else x ∷ insert k xs

-- `erase` of an `unordered_set`.
unfoldable pub remove : ℕ → List ℕ → List ℕ
remove k [] = []
remove k (x ∷ xs) = if x == k then xs else x ∷ remove k xs

module _ {ℓ} {V : Type ℓ} where
  unfoldable pub find? : ℕ → Dict V → Option V
  find? k [] = none
  find? k ((j, v) ∷ d) = if j == k then some v else find? k d

  -- What `d[k]` reads: `v` is the value that a missing key gets.
  unfoldable pub get_or : ℕ → V → Dict V → V
  get_or k v [] = v
  get_or k v ((j, w) ∷ d) = if j == k then w else get_or k v d

  -- `d[k] = v`
  unfoldable pub set : ℕ → V → Dict V → Dict V
  set k v [] = (k, v) ∷ []
  set k v ((j, w) ∷ d) = if j == k then (j, v) ∷ d else (j, w) ∷ set k v d

  -- What reading `d[k]` leaves behind, and `d.emplace(k, v)`: a missing key is added.
  unfoldable pub touch : ℕ → V → Dict V → Dict V
  touch k v [] = (k, v) ∷ []
  touch k v ((j, w) ∷ d) = if j == k then (j, w) ∷ d else (j, w) ∷ touch k v d

  unfoldable pub erase : ℕ → Dict V → Dict V
  erase k [] = []
  erase k ((j, w) ∷ d) = if j == k then d else (j, w) ∷ erase k d

  unfoldable pub values : Dict V → List V
  values [] = []
  values ((j, w) ∷ d) = w ∷ values d

  pub get_or-set :
      (k j : ℕ) (v w : V) (d : Dict V)
      → get_or j w (set k v d) ≡ (if k == j then v else get_or j w d)
  unfolding get_or set
  get_or-set k j v w [] = refl
  get_or-set k j v w ((i, u) ∷ d) = ground (arith, get_or-set k j v w d)

  pub find?-set :
      (k j : ℕ) (v : V) (d : Dict V) → find? j (set k v d) ≡ (if k == j then some v else find? j d)
  unfolding find? set
  find?-set k j v [] = refl
  find?-set k j v ((i, u) ∷ d) = ground (arith, find?-set k j v d)

  -- A new key that is erased again leaves nothing.
  pub erase-set : (k : ℕ) (v : V) (d : Dict V) → find? k d ≡ none → erase k (set k v d) ≡ d
  unfolding erase set find?
  erase-set k v [] h = ground arith
  erase-set k v ((i, u) ∷ d) h = ground (arith, erase-set k v d)

  -- Reading a key under its default changes no later reading.
  pub get_or-touch : (k j : ℕ) (v : V) (d : Dict V) → get_or j v (touch k v d) ≡ get_or j v d
  unfolding get_or touch
  get_or-touch k j v [] = ground arith
  get_or-touch k j v ((i, u) ∷ d) = ground (arith, get_or-touch k j v d)

pub length-insert : (k : ℕ) (xs : List ℕ) → length (insert k xs) ≤ length xs + 1
unfolding insert
length-insert k [] = omega arith
length-insert k (x ∷ xs) = ground (arith, length-insert k xs)
