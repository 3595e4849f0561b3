-- ===== src/Cluster/Logs/Merged.antt =====
-- A log that takes over a part of the log of a term stays coherent.
use miniraft_cpp.Prelude.{
  ℕ, zero, suc, ◌+◌, ◌-◌, ◌≤◌, ◌<◌, ◌≡◌, ◌⊎◌, refl, ap, sym, subst, ◌∙◌, inl, inr, List, [], ◌∷◌,
  ◌++◌, length, take, drop, arith, length-take, length-append, take-append_le, get_elem?,
  get_elem?-take, Bool-cases, ◌==◌, ℕ_discrete, dec_lt,
}
use miniraft_cpp.Messages.{LogEntry}
use miniraft_cpp.State.{term_or_zero}
use miniraft_cpp.State.Log.{term_at}
use miniraft_cpp.State.Replace.{merge, HaveTerms, term_at_below}
use miniraft_cpp.State.Matching.{
  LogMatching, Agree, SamePrevious, slice-Agree, same_prefix, take-append_add, take-add,
  HaveTerms-term_at,
}
use miniraft_cpp.Cluster.Logs.{History, IsCoherent, IsPart}

take-take : (n m : ℕ) (xs : List LogEntry) → n ≤ m → take n (take m xs) ≡ take n xs
take-take zero m xs h = refl
take-take (suc n) zero xs h = absurd (omega arith)
take-take (suc n) (suc m) [] h = refl
take-take (suc n) (suc m) (x ∷ xs) h = ap (◌∷◌ x) (take-take n m xs (omega arith))

-- What is taken over begins like the one list or like the other.
merge-prefix :
    (xs es : List LogEntry) (j : ℕ)
    → Agree xs es
    → j ≤ length (merge xs es)
    → (take j (merge xs es) ≡ take j xs) ⊎ ((take j (merge xs es) ≡ take j es) × (j ≤ length es))
unfolding merge
merge-prefix [] es j a h = inr (refl, h)
merge-prefix (x ∷ xs) [] j a h = inl refl
merge-prefix (x ∷ xs) (e ∷ es) zero a h = inl refl
merge-prefix (x ∷ xs) (e ∷ es) (suc j) a h = elim (Bool-cases (x.term == e.term)) [
  | inl same ↦
      let merged : merge (x ∷ xs) (e ∷ es) ≡ x ∷ merge xs es = rw same refl in
      let within : suc j ≤ suc (length (merge xs es)) = subst (λ l. suc j ≤ length l) merged h in
      let eq : x ≡ e = a.0 (ground arith) in
      elim (merge-prefix xs es j a.1 (omega (arith, within))) [
        | inl p ↦ inl (ap (take (suc j)) merged ∙ ap (◌∷◌ x) p)
        | inr p ↦ inr (
          ap (take (suc j)) merged ∙ ap (◌∷◌ x) p.0 ∙ ap (λ y. y ∷ take j es) eq,
          omega (arith, p.1),
        )
      ]
  | inr differ ↦
      let merged : merge (x ∷ xs) (e ∷ es) ≡ e ∷ es = rw differ refl in
      inr (ap (take (suc j)) merged, subst (λ l. suc j ≤ length l) merged h)
]

term_at-take :
    (i : ℕ) (xs ys : List LogEntry)
    → take (suc i) xs ≡ take (suc i) ys
    → term_at i xs ≡ term_at i ys
term_at-take i xs ys e = ap term_or_zero (
    sym (get_elem?-take i (suc i) xs (omega arith))
    ∙ ap (λ l. get_elem? l i) e
    ∙ get_elem?-take i (suc i) ys (omega arith))

-- A log that begins like a coherent one.
coherent_prefix :
    (hist : History) (xs ys : List LogEntry) (i : ℕ)
    → take (suc i) xs ≡ take (suc i) ys
    → i < length xs
    → IsCoherent hist ys
    → take (suc i) xs ≡ take (suc i) (hist (term_at i xs))
coherent_prefix hist xs ys i e h c =
    let within : i < length ys =
      omega (arith, ap length e, length-take (suc i) xs, length-take (suc i) ys) in
    e ∙ c i within ∙ ap (λ t. take (suc i) (hist t)) (sym (term_at-take i xs ys e))

HaveTerms-take : (n : ℕ) (xs : List LogEntry) → HaveTerms xs → HaveTerms (take n xs)
HaveTerms-take zero xs h = tt
HaveTerms-take (suc n) [] h = tt
HaveTerms-take (suc n) (x ∷ xs) h = (h.0, HaveTerms-take n xs h.1)

HaveTerms-drop : (n : ℕ) (xs : List LogEntry) → HaveTerms xs → HaveTerms (drop n xs)
HaveTerms-drop zero xs h = h
HaveTerms-drop (suc n) [] h = tt
HaveTerms-drop (suc n) (x ∷ xs) h = HaveTerms-drop n xs h.1

pub HaveTerms-append : (xs ys : List LogEntry) → HaveTerms xs → HaveTerms ys → HaveTerms (xs ++ ys)
HaveTerms-append [] ys h k = k
HaveTerms-append (x ∷ xs) ys h k = (h.0, HaveTerms-append xs ys h.1 k)

HaveTerms-merge : (xs es : List LogEntry) → HaveTerms xs → HaveTerms es → HaveTerms (merge xs es)
unfolding merge
HaveTerms-merge [] es h k = k
HaveTerms-merge (x ∷ xs) [] h k = h
HaveTerms-merge (x ∷ xs) (e ∷ es) h k = elim (Bool-cases (x.term == e.term)) [
  | inl same ↦ rw same (h.0, HaveTerms-merge xs es h.1 k.1)
  | inr differ ↦ rw differ k
]

-- Two coherent logs match.
pub IsCoherent-LogMatching :
    (hist : History) (xs ys : List LogEntry)
    → IsCoherent hist xs
    → IsCoherent hist ys
    → LogMatching xs ys
IsCoherent-LogMatching hist xs ys cx cy i pos same =
    cx i (term_at_below i xs pos)
    ∙ ap (λ t. take (suc i) (hist t)) same
    ∙ sym (cy i (term_at_below i ys (omega (arith, pos, same))))

module _ (hist : History) (t prev prev_term : ℕ) (es log : List LogEntry)
    (p : IsPart hist t prev prev_term es) (of_term : IsCoherent hist (hist t))
    (term_entries : HaveTerms (hist t)) (coherent : IsCoherent hist log) (entries : HaveTerms log)
    (within : prev ≤ length log)
    (previous : (prev ≡ 0) ⊎ (term_at (prev - 1) log ≡ prev_term)) where
  abbrev source : List LogEntry
  source = hist t

  abbrev taken : List LogEntry
  taken = take prev log ++ merge (drop prev log) es

  matching : LogMatching source log
  matching = IsCoherent-LogMatching hist source log of_term coherent

  agree : Agree (drop prev log) es
  agree =
      subst (Agree (drop prev log)) (sym p.part)
        (slice-Agree source log prev (length es) matching term_entries)

  same_previous : SamePrevious source log prev
  same_previous = elim (ℕ_discrete prev 0) [
    | yes none_before ↦ inl none_before
    | no some_before ↦ elim previous [
      | inl none_before ↦ inl none_before
      | inr here ↦ elim p.before [
        | inl none_before ↦ inl none_before
        | inr there ↦ inr (
          HaveTerms-term_at (prev - 1) source term_entries (omega (arith, p.inside)),
          sym there ∙ sym here,
        )
      ]
    ]
  ]

  front : take prev source ≡ take prev log
  front = same_prefix source log prev (length es) matching term_entries same_previous

  -- Every beginning of the new log is one of the old log or of the log of the term.
  taken_prefix :
      (i : ℕ)
      → i < length taken
      → (take (suc i) taken ≡ take (suc i) log) ⊎ (take (suc i) taken ≡ take (suc i) source)
  taken_prefix i h = elim (dec_lt i prev) [
    | yes early ↦ inl (
        take-append_le (suc i) (take prev log) (merge (drop prev log) es)
          (omega (arith, length-take prev log))
        ∙ take-take (suc i) prev log (omega arith))
    | no late ↦
        let j = suc i - prev in
        let size : length (take prev log) ≡ prev = omega (arith, length-take prev log) in
        let k : suc i ≡ prev + j = omega arith in
        let room : j ≤ length (merge (drop prev log) es) =
          omega (arith, h, length-append (take prev log) (merge (drop prev log) es), size) in
        let split : take (suc i) taken ≡ take prev log ++ take j (merge (drop prev log) es) =
          ap (λ n. take n taken) k
          ∙ take-append_add prev j (take prev log) (merge (drop prev log) es) size in
        elim (merge-prefix (drop prev log) es j agree room) [
          | inl old ↦
              inl (split ∙ ap (λ l. take prev log ++ l) old ∙ sym (take-add prev j (suc i) log k))
          | inr new ↦ inr (
              split
              ∙ ap (λ l. take prev log ++ l)
                  (new.0 ∙ ap (take j) p.part ∙ take-take j (length es) (drop prev source) new.1)
              ∙ ap (λ l. l ++ take j (drop prev source)) (sym front)
              ∙ sym (take-add prev j (suc i) source k))
        ]
  ]

  pub taken-IsCoherent : IsCoherent hist taken
  taken-IsCoherent i h = elim (taken_prefix i h) [
    | inl old ↦ coherent_prefix hist taken log i old h coherent
    | inr new ↦ coherent_prefix hist taken source i new h of_term
  ]

  pub es-HaveTerms : HaveTerms es
  es-HaveTerms =
      subst HaveTerms (sym p.part)
        (HaveTerms-take (length es) (drop prev source) (HaveTerms-drop prev source term_entries))

  pub taken-HaveTerms : HaveTerms taken
  taken-HaveTerms =
      HaveTerms-append (take prev log) (merge (drop prev log) es) (HaveTerms-take prev log entries)
        (HaveTerms-merge (drop prev log) es (HaveTerms-drop prev log entries) es-HaveTerms)
