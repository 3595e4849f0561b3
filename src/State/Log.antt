-- ===== src/State/Log.antt =====
-- Laws of the log in memory: what the operations do to the list of entries.
use miniraft_cpp.Prelude.{
  ℕ, suc, ◌<◌, ◌^◌, ◌≡◌, refl, ap, sym, ◌∙◌, List, [], ◌∷◌, arith, length, get_elem?, get_last?,
  get_last?-append, get_last?-cons, get_elem?-none, pos, int64, lt→ltb,
}
use miniraft_cpp.Messages.{LogEntry}
use miniraft_cpp.State.{
  State, IsValid, new_state, remove_last, append, settled_term, log_term, last_term, term_or_zero,
}

pub new_state-IsValid : (t v : ℕ) (log : List LogEntry) → IsValid (new_state t v log)
unfolding new_state
new_state-IsValid t v log = record { index_cached = refl; term_cached = refl }

pub remove_last-IsValid : (s : State) → IsValid (remove_last s)
unfolding remove_last
remove_last-IsValid s = record { index_cached = refl; term_cached = refl }

pub append-IsValid : (e : LogEntry) (s : State) → IsValid (append e s)
unfolding append
append-IsValid e s = record {
  index_cached = refl;
  term_cached = sym (ap term_or_zero (get_last?-append s.log e));
}

-- The term at a place of a list of entries.
abbrev pub term_at : ℕ → List LogEntry → ℕ
term_at i xs = term_or_zero (get_elem? xs i)

-- In a valid state, `LogTerm` of a positive index is the term of that entry, and 0 past the end.
pub log_term_at :
    (i : ℕ) (s : State) → IsValid s → suc i < 2 ^ 63 → log_term (int64 (suc i)) s ≡ term_at i s.log
unfolding log_term
log_term_at i s v h =
    rw (lt→ltb (suc i) (2 ^ 63) h) (ground (arith, get_elem?-none s.log i, v.index_cached))

pub log_term-zero : (s : State) → log_term (int64 0) s ≡ 0
unfolding log_term
log_term-zero s = refl

settled_last :
    (n : ℕ) (xs : List LogEntry) (s : State)
    → s.log ≡ xs
    → s.last_log_index ≡ n
    → n ≡ length xs
    → settled_term (pos n) s ≡ term_or_zero (get_last? xs)
unfolding settled_term
settled_last n [] s e k h = ground arith
settled_last n (x ∷ xs) s e k h = ground (arith, get_last?-cons x xs)

-- In a valid state whose last index is below 2^63, LogTerm() is the cached LastLogTerm.
pub last_term_lem :
    (s : State) → IsValid s → s.last_log_index < 2 ^ 63 → last_term s ≡ s.last_log_term
unfolding log_term
last_term_lem s v h =
    rw (lt→ltb s.last_log_index (2 ^ 63) h)
      (settled_last s.last_log_index s.log s refl refl v.index_cached ∙ sym v.term_cached)
