-- ===== src/State/Terms.antt =====
-- The operations on the log leave the term and the vote alone.
use miniraft_cpp.Prelude.{
  ℕ, zero, suc, ◌≡◌, refl, ◌∙◌, List, [], ◌∷◌, arith, ltb, Bool-cases, inl, inr, add64, sub64,
}
use miniraft_cpp.Messages.{LogEntry}
use miniraft_cpp.State.{State, remove_last, append}
use miniraft_cpp.State.Replace.{remove_above, put_entry, put_entries}

-- The fields that only elections change.
pub record SameBallot (s s' : State) : Type 0 where
  pub term : s'.current_term ≡ s.current_term
  pub voted : s'.voted_for ≡ s.voted_for

pub append-SameBallot : (e : LogEntry) (s : State) → SameBallot s (append e s)
unfolding append
append-SameBallot e s = record { term = refl; voted = refl }

remove_above-SameBallot : (fuel k : ℕ) (s : State) → SameBallot s (remove_above fuel k s)
unfolding remove_above remove_last
remove_above-SameBallot zero k s = record { term = refl; voted = refl }
remove_above-SameBallot (suc fuel) k s = elim (Bool-cases (ltb k s.last_log_index)) [
  | inl more ↦
      let rest = remove_above-SameBallot fuel k (remove_last s) in
      rw (more, remove_above) (record { term = rest.term; voted = rest.voted })
  | inr done ↦ rw (done, remove_above) (record { term = refl; voted = refl })
]

put_entry-SameBallot : (i : ℕ) (e : LogEntry) (s : State) → SameBallot s (put_entry i e s)
unfolding put_entry append
put_entry-SameBallot i e s = ground (arith, remove_above-SameBallot s.last_log_index (sub64 i 1) s)

pub put_entries-SameBallot :
    (i : ℕ) (es : List LogEntry) (s : State) → SameBallot s (put_entries i es s).1
unfolding put_entries
put_entries-SameBallot i [] s = record { term = refl; voted = refl }
put_entries-SameBallot i (e ∷ es) s =
    let here = put_entry-SameBallot (add64 i 1) e s in
    let rest = put_entries-SameBallot (add64 i 1) es (put_entry (add64 i 1) e s) in
    record { term = rest.term ∙ here.term; voted = rest.voted ∙ here.voted }
