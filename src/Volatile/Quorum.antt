-- ===== src/Volatile/Quorum.antt =====
-- The order statistic that CommitAdvance reads: how many servers have at least that index.
use miniraft_cpp.Prelude.{
  dec_lt, true, inl, inr, Bool-cases, leb→le, ℕ, zero, suc, ◌+◌, ◌-◌, ◌/◌, ◌≤◌, ◌<◌, ◌≡◌, refl,
  List, [], ◌∷◌, ◌++◌, arith, leb, if◌then◌else◌, length, length-append,
}
use miniraft_cpp.Volatile.{place, sort, pad, indices, element, quorum_index}

-- How many of the numbers are at least `m`.
unfoldable pub count_ge : ℕ → List ℕ → ℕ
count_ge m [] = 0
count_ge m (x ∷ xs) = (if leb m x then 1 else 0) + count_ge m xs

abbrev IsSorted : List ℕ → Type 0
IsSorted [] = Unit
IsSorted (x ∷ []) = Unit
IsSorted (x ∷ y ∷ xs) = (x ≤ y) × IsSorted (y ∷ xs)

place-IsSorted : (a : ℕ) (xs : List ℕ) → IsSorted xs → IsSorted (place a xs)
unfolding place
place-IsSorted a [] h = tt
place-IsSorted a (x ∷ []) h = ground arith
place-IsSorted a (x ∷ y ∷ xs) h = ground (arith, place-IsSorted a (y ∷ xs) h.1)

sort-IsSorted : (xs : List ℕ) → IsSorted (sort xs)
unfolding sort
sort-IsSorted [] = tt
sort-IsSorted (x ∷ xs) = place-IsSorted x (sort xs) (sort-IsSorted xs)

count_ge-place : (m a : ℕ) (xs : List ℕ) → count_ge m (place a xs) ≡ count_ge m (a ∷ xs)
unfolding place count_ge
count_ge-place m a [] = refl
count_ge-place m a (x ∷ xs) = ground (arith, count_ge-place m a xs)

count_ge-sort : (m : ℕ) (xs : List ℕ) → count_ge m (sort xs) ≡ count_ge m xs
unfolding sort count_ge
count_ge-sort m [] = refl
count_ge-sort m (x ∷ xs) = omega (arith, count_ge-place m x (sort xs), count_ge-sort m xs)

length-place : (a : ℕ) (xs : List ℕ) → length (place a xs) ≡ suc (length xs)
unfolding place
length-place a [] = refl
length-place a (x ∷ xs) = ground (arith, length-place a xs)

length-sort : (xs : List ℕ) → length (sort xs) ≡ length xs
unfolding sort
length-sort [] = refl
length-sort (x ∷ xs) = omega (arith, length-place x (sort xs), length-sort xs)

count_ge-append : (m : ℕ) (xs ys : List ℕ) → count_ge m (xs ++ ys) ≡ count_ge m xs + count_ge m ys
unfolding count_ge
count_ge-append m [] ys = omega arith
count_ge-append m (x ∷ xs) ys = omega (arith, count_ge-append m xs ys)

count_ge-le : (m : ℕ) (xs : List ℕ) → count_ge m xs ≤ length xs
unfolding count_ge
count_ge-le m [] = omega arith
count_ge-le m (x ∷ xs) = ground (arith, count_ge-le m xs)

-- All of a sorted list is at least its head.
count_ge_head :
    (m x : ℕ) (xs : List ℕ) → IsSorted (x ∷ xs) → m ≤ x → count_ge m (x ∷ xs) ≡ suc (length xs)
unfolding count_ge
count_ge_head m x [] h k = ground arith
count_ge_head m x (y ∷ xs) h k = ground (arith, count_ge_head m y xs h.1)

-- In a sorted list, all but `i` numbers are at least the one at place `i`.
count_ge-element :
    (i : ℕ) (xs : List ℕ) → IsSorted xs → i < length xs → length xs ≤ count_ge (element i xs) xs + i
unfolding count_ge
count_ge-element i [] h k = elim k [ ]
count_ge-element zero (x ∷ xs) h k = omega (arith, count_ge_head x x xs h)
count_ge-element (suc i) (x ∷ []) h k = absurd (omega arith)
count_ge-element (suc i) (x ∷ y ∷ xs) h k = ground (arith, count_ge-element i (y ∷ xs) h.1)

-- Conversely, a number that all but `i` reach is at most the one at place `i`.
le-element :
    (i m : ℕ) (xs : List ℕ)
    → IsSorted xs
    → length xs ≤ count_ge m xs + i
    → i < length xs
    → m ≤ element i xs
unfolding count_ge
le-element i m [] h c k = elim k [ ]
le-element zero m (x ∷ xs) h c k = ground (arith, count_ge-le m xs)
le-element (suc i) m (x ∷ []) h c k = absurd (omega arith)
le-element (suc i) m (x ∷ y ∷ xs) h c k =
    le-element i m (y ∷ xs) h.1 (fewer (leb→le m x)) (omega arith)
  where
    fewer : (leb m x ≡ true → m ≤ x) → length (y ∷ xs) ≤ count_ge m (y ∷ xs) + i
    fewer below = elim (Bool-cases (leb m x)) [
      | inl e ↦ omega (arith, below e, count_ge_head m y xs h.1)
      | inr e ↦ let out : ◌≡◌ {A = ℕ} (if leb m x then 1 else 0) 0 = rw e refl in omega (arith, out)
    ]

length-pad : (n : ℕ) (xs : List ℕ) → length (pad n xs) ≡ length xs + n
unfolding pad
length-pad zero xs = omega arith
length-pad (suc n) xs = omega (arith, length-pad n (xs ++ 0 ∷ []), length-append xs (0 ∷ []))

count_ge-pad : (m n : ℕ) (xs : List ℕ) → 0 < m → count_ge m (pad n xs) ≡ count_ge m xs
unfolding pad
count_ge-pad m zero xs h = refl
count_ge-pad m (suc n) xs h =
    omega (arith, count_ge-pad m n (xs ++ 0 ∷ []) h, count_ge-append m xs (0 ∷ []), zeros)
  where
    zeros : count_ge m (0 ∷ []) ≡ 0
    zeros = unfold count_ge in ground arith

module _ (nservers last : ℕ) (matches : List ℕ) (room : length matches + 1 ≤ nservers) where
  length-indices : length (indices nservers last matches) ≡ nservers
  unfolding indices
  length-indices = omega (
    arith,
    length-pad (nservers - (length matches + 1)) (matches ++ last ∷ []),
    length-append matches (last ∷ []),
  )

  -- The padding stands for servers that have acknowledged nothing.
  count_ge-indices :
      (m : ℕ) → 0 < m → count_ge m (indices nservers last matches) ≡ count_ge m (last ∷ matches)
  unfolding indices count_ge
  count_ge-indices m h = omega (
    arith,
    count_ge-pad m (nservers - (length matches + 1)) (matches ++ last ∷ []) h,
    count_ge-append m matches (last ∷ []),
  )

  abbrev sorted : List ℕ
  sorted = sort (indices nservers last matches)

  -- All but half of the servers, rounded down, have the entry at the index that CommitAdvance
  -- reads, if that is not 0. There is at most one acknowledgement for each follower.
  pub quorum_index_reached :
      0 < quorum_index nservers last matches
      → nservers ≤ count_ge (quorum_index nservers last matches) (last ∷ matches) + nservers / 2
  unfolding quorum_index
  quorum_index_reached h = omega (
    arith,
    count_ge-element (nservers / 2) sorted (sort-IsSorted (indices nservers last matches)),
    count_ge-sort (element (nservers / 2) sorted) (indices nservers last matches),
    count_ge-indices (element (nservers / 2) sorted) h,
    length-sort (indices nservers last matches),
    length-indices,
  )

  -- The index that CommitAdvance reads is at least every index that all but half of the servers,
  -- rounded down, have. There is at most one acknowledgement for each follower.
  pub quorum_index_largest :
      (m : ℕ)
      → nservers ≤ count_ge m (last ∷ matches) + nservers / 2
      → m ≤ quorum_index nservers last matches
  unfolding quorum_index
  quorum_index_largest zero h = omega arith
  quorum_index_largest (suc m) h =
      le-element (nservers / 2) (suc m) sorted (sort-IsSorted (indices nservers last matches))
        (omega (
          arith,
          count_ge-sort (suc m) (indices nservers last matches),
          count_ge-indices (suc m) (omega arith),
          length-sort (indices nservers last matches),
          length-indices,
        ))
        (omega (arith, length-sort (indices nservers last matches), length-indices))

-- Fewer servers have more.
pub count_ge-antitone : (m n : ℕ) (xs : List ℕ) → m ≤ n → count_ge n xs ≤ count_ge m xs
unfolding count_ge
count_ge-antitone m n [] h = omega arith
count_ge-antitone m n (x ∷ xs) h = ground (arith, count_ge-antitone m n xs h)

-- Every number of the list is at most `n`.
abbrev pub AllLe : ℕ → List ℕ → Type 0
AllLe n [] = Unit
AllLe n (x ∷ xs) = (x ≤ n) × AllLe n xs

count_ge_above : (m n : ℕ) (xs : List ℕ) → AllLe n xs → n < m → count_ge m xs ≡ 0
unfolding count_ge
count_ge_above m n [] a h = refl
count_ge_above m n (x ∷ xs) a h = ground (arith, count_ge_above m n xs a.1 h)

-- No index past the leader's log is read.
pub quorum_index-le-last :
    (nservers last : ℕ) (matches : List ℕ)
    → length matches + 1 ≤ nservers
    → AllLe last matches
    → quorum_index nservers last matches ≤ last
unfolding count_ge
quorum_index-le-last nservers last matches room a =
    elim (dec_lt last (quorum_index nservers last matches)) [
      | yes past ↦ absurd (
          omega (
            arith,
            quorum_index_reached nservers last matches room (omega arith),
            count_ge_above (quorum_index nservers last matches) last (last ∷ matches)
                (omega arith, a) past,
          ))
      | no within ↦ omega arith
    ]
