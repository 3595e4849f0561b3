-- ===== src/State/Replace.antt =====
-- miniraft/raft.cpp, the loop of OnAppendEntries that replaces or appends log entries, and the
-- reference definition that it meets.
use mathlib.Core.List.{append_assoc}
use miniraft_cpp.Prelude.{
  length-take, length-append, drop_all, take-append-drop, ℕ_discrete, ◌≢◌, ap, sym, ◌∙◌, inl, inr,
  Bool-cases, ltb→lt, take_all, length-drop_last, take-drop_last, ℕ, zero, suc, ◌+◌, ◌≤◌, ◌<◌, ◌^◌,
  ◌≡◌, refl, List, [], ◌∷◌, ◌++◌, arith, ltb, ◌==◌, if◌then◌else◌, length, take, drop, add64, sub64,
  int64,
}
use miniraft_cpp.Messages.{LogEntry}
use miniraft_cpp.State.{State, IsValid, remove_last, append, log_term}
use miniraft_cpp.State.Log.{append-IsValid, remove_last-IsValid, term_at, log_term_at}

-- while (State->LastLogIndex > k) State->RemoveLast();
-- Each round shortens the log, so `last_log_index` rounds are enough.
unfoldable pub remove_above : ℕ → ℕ → State → State
remove_above zero k s = s
remove_above (suc fuel) k s =
    let rest = remove_above fuel k (remove_last s) in if ltb k s.last_log_index then rest else s

-- The body of the loop, after `index++`.
unfoldable pub put_entry : ℕ → LogEntry → State → State
put_entry index e s =
    if log_term (int64 index) s == e.term
    then s
    else append e (remove_above s.last_log_index (sub64 index 1) s)

-- The loop over the payload: the last `index`, and the state.
unfoldable pub put_entries : ℕ → List LogEntry → State → ℕ × State
put_entries index [] s = (index, s)
put_entries index (e ∷ es) s = put_entries (add64 index 1) es (put_entry (add64 index 1) e s)

-- What the loop is for: keep the entries that agree, and from the first conflict on take the new.
unfoldable pub merge : List LogEntry → List LogEntry → List LogEntry
merge [] es = es
merge (x ∷ xs) [] = x ∷ xs
merge (x ∷ xs) (e ∷ es) = if x.term == e.term then x ∷ merge xs es else e ∷ es

-- The entries of a request carry terms, and terms start from 1.
abbrev pub HaveTerms : List LogEntry → Type 0
HaveTerms [] = Unit
HaveTerms (e ∷ es) = (0 < e.term) × HaveTerms es

merge-nil : (xs : List LogEntry) → merge xs [] ≡ xs
unfolding merge
merge-nil [] = refl
merge-nil (x ∷ xs) = refl

-- With enough fuel the `while` loop ends by its test: the log is cut to `k` entries.
pub remove_above_lem :
    (fuel k : ℕ) (s : State)
    → IsValid s
    → s.last_log_index ≤ fuel
    → (remove_above fuel k s).log ≡ take k s.log
unfolding remove_above remove_last
remove_above_lem zero k s v h = sym (take_all k s.log (omega arith))
remove_above_lem (suc fuel) k s v h = elim (Bool-cases (ltb k s.last_log_index)) [
  | inl more ↦
      rw (more, remove_above)
        (remove_above_lem fuel k (remove_last s) (remove_last-IsValid s)
            (omega (arith, length-drop_last s.log))
          ∙ take-drop_last k s.log (omega (arith, ltb→lt k s.last_log_index)))
  | inr done ↦ rw (done, remove_above) (sym (take_all k s.log (ground arith)))
]

module _ (i : ℕ) (e : LogEntry) (s : State) (v : IsValid s) (b : suc i < 2 ^ 63) where
  -- An entry of the same term at the same place is kept, with all that follows it.
  put_entry_same : term_at i s.log ≡ e.term → put_entry (suc i) e s ≡ s
  unfolding put_entry
  put_entry_same h = let t = log_term_at i s v b in ground arith

  sub64-suc : sub64 (suc i) 1 ≡ i
  sub64-suc = omega arith

  -- Any other entry makes the log end with the new one at that place.
  put_entry_new : term_at i s.log ≢ e.term → (put_entry (suc i) e s).log ≡ take i s.log ++ e ∷ []
  unfolding put_entry append
  put_entry_new h = elim (Bool-cases (log_term (int64 (suc i)) s == e.term)) [
    | inl same ↦ absurd (h (ground (arith, log_term_at i s v b)))
    | inr other ↦
        rw (other, sub64-suc)
          (ap (λ l. l ++ e ∷ []) (remove_above_lem s.last_log_index i s v (omega arith)))
  ]

  put_entry-IsValid : IsValid (put_entry (suc i) e s)
  unfolding put_entry
  put_entry-IsValid =
      ground (arith, append-IsValid e (remove_above s.last_log_index (sub64 (suc i) 1) s))

-- One round of the reference definition, in the two cases.
merge_same :
    (i : ℕ) (e : LogEntry) (es xs : List LogEntry)
    → 0 < e.term
    → term_at i xs ≡ e.term
    → take i xs ++ merge (drop i xs) (e ∷ es) ≡ take (suc i) xs ++ merge (drop (suc i) xs) es
unfolding merge
merge_same i e es [] p h = absurd (omega arith)
merge_same zero e es (x ∷ xs) p h = ground arith
merge_same (suc i) e es (x ∷ xs) p h = ap (◌∷◌ x) (merge_same i e es xs p h)

merge_new :
    (i : ℕ) (e : LogEntry) (es xs : List LogEntry)
    → term_at i xs ≢ e.term
    → merge (drop i xs) (e ∷ es) ≡ e ∷ es
unfolding merge
merge_new zero e es [] h = refl
merge_new (suc i) e es [] h = refl
merge_new zero e es (x ∷ xs) h = ground arith
merge_new (suc i) e es (x ∷ xs) h = merge_new i e es xs h

pub term_at_below : (i : ℕ) (xs : List LogEntry) → 0 < term_at i xs → i < length xs
term_at_below i [] h = absurd (omega arith)
term_at_below zero (x ∷ xs) h = omega arith
term_at_below (suc i) (x ∷ xs) h = omega (arith, term_at_below i xs h)

-- What the loop leaves, from `index` on.
pub record Replaced (index : ℕ) (es : List LogEntry) (s : State) (r : ℕ × State) : Type 0 where
  pub at_end : r.0 ≡ index + length es
  pub merged : r.1.log ≡ take index s.log ++ merge (drop index s.log) es
  pub valid : IsValid r.1

-- A round at `i`, and then the rounds from `i + 1` on.
Replaced-step :
    (i : ℕ) (e : LogEntry) (es : List LogEntry) (s s₁ : State) (r : ℕ × State)
    → take (suc i) s₁.log ++ merge (drop (suc i) s₁.log) es
      ≡ take i s.log ++ merge (drop i s.log) (e ∷ es)
    → Replaced (suc i) es s₁ r
    → Replaced i (e ∷ es) s r
Replaced-step i e es s s₁ r h k = record {
  at_end = omega (arith, k.at_end);
  merged = k.merged ∙ h;
  valid = k.valid;
}

module _ (i : ℕ) (e : LogEntry) (s s₁ : State) (cut : s₁.log ≡ take i s.log ++ e ∷ []) where
  length_new : i ≤ length s.log → length s₁.log ≡ suc i
  length_new h =
      omega (arith, ap length cut, length-append (take i s.log) (e ∷ []), length-take i s.log)

  -- After a conflict the log ends at the new entry, and the rest of the payload follows.
  rest_new :
      (es : List LogEntry)
      → i ≤ length s.log
      → term_at i s.log ≢ e.term
      → take (suc i) s₁.log ++ merge (drop (suc i) s₁.log) es
        ≡ take i s.log ++ merge (drop i s.log) (e ∷ es)
  unfolding merge
  rest_new es h other =
      let n = length_new h in
      rw
        (
          take_all (suc i) s₁.log (omega arith),
          drop_all (suc i) s₁.log (omega arith),
          merge_new i e es s.log other,
          cut,
        )
        (append_assoc (take i s.log) (e ∷ []) es)

-- On a valid log that reaches up to the given index, and a payload whose entries have terms, the
-- loop of OnAppendEntries keeps the entries that agree with the payload and from the first conflict
-- on takes the payload instead; it ends at the last index of the payload and keeps the log valid.
-- The indices are below 2^63.
pub put_entries_lem :
    (i : ℕ) (es : List LogEntry) (s : State)
    → IsValid s
    → i ≤ length s.log
    → i + length es < 2 ^ 63
    → HaveTerms es
    → Replaced i es s (put_entries i es s)
unfolding put_entries
put_entries_lem i [] s v h b t = record {
  at_end = omega arith;
  merged = sym (ap (◌++◌ (take i s.log)) (merge-nil (drop i s.log)) ∙ take-append-drop i s.log);
  valid = v;
}
put_entries_lem i (e ∷ es) s v h b t =
    let below : suc i < 2 ^ 63 = omega arith in
    let next : add64 i 1 ≡ suc i = omega arith in
    let s₁ = put_entry (suc i) e s in
    let valid = put_entry-IsValid i e s v below in
    rw (next, put_entries)
      (elim (ℕ_discrete (term_at i s.log) e.term) [
        | yes same ↦
            let at = term_at_below i s.log (omega arith) in
            rw (put_entry_same i e s v below same) (
              Replaced-step i e es s s _ (sym (merge_same i e es s.log t.0 same))
                (put_entries_lem (suc i) es s v (omega arith) (omega arith) t.1))
        | no other ↦
            let cut = put_entry_new i e s v below other in
            Replaced-step i e es s s₁ _ (rest_new i e s s₁ cut es h other) (
              put_entries_lem (suc i) es s₁ valid (omega (arith, length_new i e s s₁ cut h))
                (omega arith) t.1)
      ])
