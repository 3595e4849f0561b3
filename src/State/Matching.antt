-- ===== src/State/Matching.antt =====
-- The log matching property of two logs, and what a replacement by a part of the one does to the
-- other.
use miniraft_cpp.Prelude.{
  length-take, ℕ_discrete, ◌⊎◌, take_all, get_elem?-take, ℕ, zero, suc, ◌+◌, ◌-◌, ◌≤◌, ◌<◌, ◌≡◌,
  refl, sym, ap, ◌∙◌, List, [], ◌∷◌, ◌++◌, some, arith, length, take, drop, get_elem?, Bool-cases,
  inl, inr, ◌==◌,
}
use miniraft_cpp.Messages.{LogEntry}
use miniraft_cpp.State.{term_or_zero}
use miniraft_cpp.State.Log.{term_at}
use miniraft_cpp.State.Replace.{merge, HaveTerms}

-- Entries of the same term at the same place have the same entries up to there.
abbrev pub LogMatching : List LogEntry → List LogEntry → Type 0
LogMatching xs ys =
    (i : ℕ) → 0 < term_at i xs → term_at i xs ≡ term_at i ys → take (suc i) xs ≡ take (suc i) ys

-- Entries of the same term at the same place are equal.
abbrev pub Agree : List LogEntry → List LogEntry → Type 0
Agree [] es = Unit
Agree (x ∷ xs) [] = Unit
Agree (x ∷ xs) (e ∷ es) = (x.term ≡ e.term → x ≡ e) × Agree xs es

-- What is taken over begins with the new entries.
take-merge : (xs es : List LogEntry) → Agree xs es → take (length es) (merge xs es) ≡ es
unfolding merge
take-merge [] es a = take_all (length es) es (omega arith)
take-merge (x ∷ xs) [] a = refl
take-merge (x ∷ xs) (e ∷ es) a = elim (Bool-cases (x.term == e.term)) [
  | inl same ↦
      rw (same, merge)
        (ap (λ y. y ∷ take (length es) (merge xs es)) (a.0 (ground arith))
          ∙ ap (◌∷◌ e) (take-merge xs es a.1))
  | inr differ ↦ rw (differ, merge) (ap (◌∷◌ e) (take_all (length es) es (omega arith)))
]

pub take-add :
    (m n k : ℕ) (xs : List LogEntry) → k ≡ m + n → take k xs ≡ take m xs ++ take n (drop m xs)
take-add zero n k xs e = let e' : k ≡ n = omega arith in rw e'
take-add (suc m) n zero xs e = absurd (omega arith)
take-add (suc m) zero (suc k) [] e = refl
take-add (suc m) (suc n) (suc k) [] e = refl
take-add (suc m) n (suc k) (x ∷ xs) e = ap (◌∷◌ x) (take-add m n k xs (omega arith))

get_elem?-drop :
    (m i k : ℕ) (xs : List LogEntry) → k ≡ m + i → get_elem? (drop m xs) i ≡ get_elem? xs k
get_elem?-drop zero i k xs e = let e' : k ≡ i = omega arith in rw e'
get_elem?-drop (suc m) i zero xs e = absurd (omega arith)
get_elem?-drop (suc m) i (suc k) [] e = refl
get_elem?-drop (suc m) i (suc k) (x ∷ xs) e = get_elem?-drop m i k xs (omega arith)

-- Entries that agree at each place.
Agree-pointwise :
    (xs es : List LogEntry)
    → ((i : ℕ) (x e : LogEntry)
        → get_elem? xs i ≡ some x
        → get_elem? es i ≡ some e
        → x.term ≡ e.term
        → x ≡ e)
    → Agree xs es
Agree-pointwise [] es h = tt
Agree-pointwise (x ∷ xs) [] h = tt
Agree-pointwise (x ∷ xs) (e ∷ es) h = (h 0 x e refl refl, Agree-pointwise xs es (λ i. h (suc i)))

pub take-append_add :
    (m n : ℕ) (xs ys : List LogEntry) → length xs ≡ m → take (m + n) (xs ++ ys) ≡ xs ++ take n ys
take-append_add zero n [] ys h = let e : 0 + n ≡ n = omega arith in rw e
take-append_add zero n (x ∷ xs) ys h = absurd (omega arith)
take-append_add (suc m) n [] ys h = absurd (omega arith)
take-append_add (suc m) n (x ∷ xs) ys h =
    let e : suc m + n ≡ suc (m + n) = omega arith in
    rw e (ap (◌∷◌ x) (take-append_add m n xs ys (omega arith)))

take-take-length : (n : ℕ) (xs : List LogEntry) → take (length (take n xs)) xs ≡ take n xs
take-take-length zero xs = refl
take-take-length (suc n) [] = refl
take-take-length (suc n) (x ∷ xs) = ap (◌∷◌ x) (take-take-length n xs)

-- A part of a log: `n` entries after the first `m`.
abbrev pub slice : ℕ → ℕ → List LogEntry → List LogEntry
slice m n xs = take n (drop m xs)

HaveTerms-at :
    (i : ℕ) (xs : List LogEntry) (x : LogEntry)
    → HaveTerms xs
    → get_elem? xs i ≡ some x
    → 0 < x.term
HaveTerms-at i [] x h e = absurd (ground arith)
HaveTerms-at zero (y ∷ xs) x h e = ground arith
HaveTerms-at (suc i) (y ∷ xs) x h e = HaveTerms-at i xs x h.1 e

get_elem?-take-some :
    (i n : ℕ) (xs : List LogEntry) (x : LogEntry)
    → get_elem? (take n xs) i ≡ some x
    → (i < n) × (get_elem? xs i ≡ some x)
get_elem?-take-some i zero xs x e = absurd (ground arith)
get_elem?-take-some i (suc n) [] x e = absurd (ground arith)
get_elem?-take-some zero (suc n) (y ∷ xs) x e = (omega arith, e)
get_elem?-take-some (suc i) (suc n) (y ∷ xs) x e =
    let (b, f) = get_elem?-take-some i n xs x e in (omega arith, f)

some_injective : {x y : LogEntry} → some x ≡ some y → x ≡ y
some_injective e = cc

-- The entry before place `prev` is of the same term in both logs, or there is none.
abbrev pub SamePrevious : List LogEntry → List LogEntry → ℕ → Type 0
SamePrevious leader follower prev =
    (prev ≡ 0)
    ⊎ ((0 < term_at (prev - 1) leader) × (term_at (prev - 1) leader ≡ term_at (prev - 1) follower))

module _ (leader follower : List LogEntry) (prev n : ℕ) (matching : LogMatching leader follower)
    (terms : HaveTerms leader) where
  -- What the follower has after `prev` agrees with the part that the leader sends.
  pub slice-Agree : Agree (drop prev follower) (slice prev n leader)
  slice-Agree = Agree-pointwise _ _ λ i x e at_x at_e same.
      let (below, at_e') = get_elem?-take-some i n (drop prev leader) e at_e in
      let x_at = sym (get_elem?-drop prev i (prev + i) follower refl) ∙ at_x in
      let e_at = sym (get_elem?-drop prev i (prev + i) leader refl) ∙ at_e' in
      let pos = HaveTerms-at (prev + i) leader e terms e_at in
      let eq =
        matching (prev + i) (omega (arith, ap term_or_zero e_at))
          (ap term_or_zero e_at ∙ sym same ∙ sym (ap term_or_zero x_at)) in
      some_injective (
        sym x_at
        ∙ sym (get_elem?-take (prev + i) (suc (prev + i)) follower (omega arith))
        ∙ ap (λ l. get_elem? l (prev + i)) (sym eq)
        ∙ get_elem?-take (prev + i) (suc (prev + i)) leader (omega arith)
        ∙ e_at)

  pub same_prefix : SamePrevious leader follower prev → take prev leader ≡ take prev follower
  same_prefix (inl none_before) = rw none_before
  same_prefix (inr (pos, same)) = elim (ℕ_discrete prev 0) [
    | yes none_before ↦ rw none_before
    | no some_before ↦
        let e : suc (prev - 1) ≡ prev = omega arith in rw (← e) (matching (prev - 1) pos same)
  ]

  -- After the replacement the follower has the leader's entries up to the end of the part.
  pub replaced-prefix :
      prev ≤ length follower
      → SamePrevious leader follower prev
      → take
          (prev + length (slice prev n leader))
          (take prev follower ++ merge (drop prev follower) (slice prev n leader))
        ≡ take (prev + length (slice prev n leader)) leader
  replaced-prefix within same =
      take-append_add prev (length part) (take prev follower) (merge (drop prev follower) part)
        (omega (arith, length-take prev follower))
      ∙ ap (◌++◌ (take prev follower)) (take-merge (drop prev follower) part slice-Agree)
      ∙ ap (λ l. l ++ part) (sym (same_prefix same))
      ∙ ap (◌++◌ (take prev leader)) (sym (take-take-length n (drop prev leader)))
      ∙ sym (take-add prev (length part) (prev + length part) leader refl)
    where
      part : List LogEntry
      part = slice prev n leader

pub slice-HaveTerms : (m n : ℕ) (xs : List LogEntry) → HaveTerms xs → HaveTerms (slice m n xs)
slice-HaveTerms m n [] h = none_left m n
  where
    none_left : (m n : ℕ) → HaveTerms (slice m n [])
    none_left zero zero = tt
    none_left zero (suc n) = tt
    none_left (suc m) zero = tt
    none_left (suc m) (suc n) = tt
slice-HaveTerms zero zero (x ∷ xs) h = tt
slice-HaveTerms zero (suc n) (x ∷ xs) h = (h.0, slice-HaveTerms zero n xs h.1)
slice-HaveTerms (suc m) n (x ∷ xs) h = slice-HaveTerms m n xs h.1

pub HaveTerms-term_at :
    (i : ℕ) (xs : List LogEntry) → HaveTerms xs → i < length xs → 0 < term_at i xs
HaveTerms-term_at i [] h b = elim b [ ]
HaveTerms-term_at zero (x ∷ xs) h b = h.0
HaveTerms-term_at (suc i) (x ∷ xs) h b = HaveTerms-term_at i xs h.1 (omega arith)
