-- ===== src/Tests/Logs.antt =====
-- The log, its replacement, and the commit index.
use miniraft_cpp.Prelude.{ℕ, ◌+◌, ◌/◌, ◌≤◌, ◌<◌, ◌≡◌, refl, [], ◌∷◌, arith, int64}
use miniraft_cpp.Messages.{LogEntry}
use miniraft_cpp.State.{State, IsValid, log_term, last_term}
use miniraft_cpp.State.Log.{log_term_at, last_term_lem}
use miniraft_cpp.State.Replace.{Replaced, put_entries, put_entries_lem}
use miniraft_cpp.Volatile.{Volatile, new_volatile, commit_advance, quorum_index}
use miniraft_cpp.Volatile.Quorum.{count_ge, quorum_index_reached, quorum_index_largest}
use miniraft_cpp.Volatile.Commit.{
  IsCurrentFrom, acknowledged, commit_advance_quorum, commit_advance_reaches,
}
use miniraft_cpp.Tests.Run.{value}

abbrev pub entry : ℕ → ℕ → LogEntry
entry term byte = record { term = term; flags = 0; data_bytes = byte ∷ [] }

-- Three entries of terms 1, 1 and 2.
abbrev pub logged : State
logged = record {
  current_term = 2;
  voted_for = 0;
  last_log_index = 3;
  last_log_term = 2;
  log = entry 1 7 ∷ entry 1 8 ∷ entry 2 9 ∷ [];
}

pub logged-IsValid : IsValid logged
logged-IsValid = record { index_cached = refl; term_cached = refl }

-- The log takes entries of terms 1 and 3 after its first: the second agrees, the third is replaced.
put_entries_example :
    Replaced 1
      (entry 1 8 ∷ entry 3 10 ∷ [])
      logged
      (put_entries 1 (entry 1 8 ∷ entry 3 10 ∷ []) logged)
put_entries_example =
    put_entries_lem 1 (entry 1 8 ∷ entry 3 10 ∷ []) logged logged-IsValid (omega arith)
      (omega arith) (omega arith, (omega arith, tt))

log_term_at_example : log_term (int64 3) logged ≡ 2
log_term_at_example = log_term_at 2 logged logged-IsValid (omega arith)

last_term_example : last_term logged ≡ 2
last_term_example = last_term_lem logged logged-IsValid (omega arith)

-- A leader of five servers: two followers have acknowledged its log, and one its first entry.
abbrev leading : Volatile
leading = record new_volatile { match_index = (2, 3) ∷ (3, 3) ∷ (4, 1) ∷ [] }

quorum_index_reached_example : 5 ≤ count_ge 3 (3 ∷ 3 ∷ 3 ∷ 1 ∷ []) + 5 / 2
unfolding value count_ge
quorum_index_reached_example = quorum_index_reached 5 3 (3 ∷ 3 ∷ 1 ∷ []) (omega arith) (omega arith)

quorum_index_largest_example : 3 ≤ quorum_index 5 3 (3 ∷ 3 ∷ 1 ∷ [])
unfolding count_ge
quorum_index_largest_example =
    quorum_index_largest 5 3 (3 ∷ 3 ∷ 1 ∷ []) (omega arith) 3 (omega arith)

commit_advance_quorum_example :
    (5
      < 3 + count_ge (commit_advance 5 logged 0 leading).commit_index (acknowledged logged leading))
    × (log_term (int64 (commit_advance 5 logged 0 leading).commit_index) logged ≡ 2)
unfolding value
commit_advance_quorum_example = commit_advance_quorum 4 logged 0 leading (omega arith) (omega arith)

-- The third entry is the only one of the current term.
third_current : IsCurrentFrom 3 logged
unfolding value
third_current i low high = let e : i ≡ 3 = omega arith in rw e refl

commit_advance_reaches_example : 3 ≤ (commit_advance 5 logged 0 leading).commit_index
unfolding value count_ge
commit_advance_reaches_example =
    commit_advance_reaches 5 logged 0 leading 3 (omega arith)
      (omega arith, (omega arith, (omega arith, tt))) (omega arith) third_current (omega arith)
