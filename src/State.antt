-- ===== src/State.antt =====
-- miniraft/state.h: the persistent fields, the log in memory (TState) and `LogTerm`.
pub mod Log
pub mod Replace
pub mod Terms
pub mod Matching
use miniraft_cpp.Prelude.{
  ℕ, zero, suc, ◌≡◌, ◌||◌, List, [], ◌∷◌, ◌++◌, Option, none, some, ltb, length, get_elem?,
  drop_last, get_last?, if◌then◌else◌, ℤ, pos, negsuc, int64,
}
use miniraft_cpp.Messages.{LogEntry}

-- TStateFields and TState::Log.
pub record State : Type 0 where
  pub current_term : ℕ
  pub voted_for : ℕ
  pub last_log_index : ℕ
  pub last_log_term : ℕ
  pub log : List LogEntry

-- The term of an entry that may be missing.
abbrev pub term_or_zero : Option LogEntry → ℕ
term_or_zero none = 0
term_or_zero (some e) = e.term

-- TState(currentTerm, votedFor, log)
unfoldable pub new_state : ℕ → ℕ → List LogEntry → State
new_state current_term voted_for log = record {
  current_term = current_term;
  voted_for = voted_for;
  last_log_index = length log;
  last_log_term = term_or_zero (get_last? log);
  log = log;
}

-- `pop_back` of an empty log is undefined; here it leaves the log empty.
unfoldable pub remove_last : State → State
remove_last s = record s {
  log = drop_last s.log;
  last_log_index = length (drop_last s.log);
  last_log_term = term_or_zero (get_last? (drop_last s.log));
}

unfoldable pub append : LogEntry → State → State
append e s = record s {
  log = s.log ++ e ∷ [];
  last_log_index = length (s.log ++ e ∷ []);
  last_log_term = e.term;
}

-- `Log[index - 1]`; `none` where the vector has no such entry.
unfoldable pub get : ℕ → State → Option LogEntry
get zero s = none
get (suc i) s = get_elem? s.log i

-- The second half of `LogTerm`, for an index that is settled.
unfoldable pub settled_term : ℤ → State → ℕ
unfolding get
settled_term (pos i) s = if ltb i 1 || ltb s.last_log_index i then 0 else term_or_zero (get i s)
settled_term (negsuc n) s = 0

-- IState::LogTerm(int64_t index): a negative index stands for the last one.
unfoldable pub log_term : ℤ → State → ℕ
unfolding settled_term
log_term (pos i) s = settled_term (pos i) s
log_term (negsuc n) s = settled_term (int64 s.last_log_index) s

-- LogTerm(), with its default argument.
abbrev pub last_term : State → ℕ
last_term s = log_term (negsuc 0) s

-- What the constructors and the operations keep: the cached fields are those of the log.
pub record IsValid (s : State) : Type 0 where
  pub index_cached : s.last_log_index ≡ length s.log
  pub term_cached : s.last_log_term ≡ term_or_zero (get_last? s.log)
