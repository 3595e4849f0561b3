-- ===== src/Volatile/Commit.antt =====
-- miniraft/raft.cpp, CommitAdvance: what a commit promises, with the votes that an election needs.
use miniraft_cpp.Prelude.{ℕ, ◌+◌, ◌/◌, ◌≤◌, ◌<◌, ◌≡◌, List, ◌∷◌, arith, max, length, int64}
use miniraft_cpp.Prelude.Dict
use miniraft_cpp.State.{State, log_term}
use miniraft_cpp.Volatile.{Volatile, commit_advance, quorum_index}
use miniraft_cpp.Raft.{votes_needed}
use miniraft_cpp.Volatile.Quorum.{
  count_ge, AllLe, quorum_index_reached, quorum_index_largest, quorum_index-le-last,
}

-- What the leader and its followers have acknowledged.
abbrev pub acknowledged : State → Volatile → List ℕ
acknowledged s v = s.last_log_index ∷ Dict.values v.match_index

-- There is at most one acknowledgement for each follower.
abbrev pub HasRoom : ℕ → Volatile → Type 0
HasRoom nservers v = length (Dict.values v.match_index) + 1 ≤ nservers

commit_advance_cases :
    (nservers : ℕ) (s : State) (seqno : ℕ) (v : Volatile)
    → v.commit_index < (commit_advance nservers s seqno v).commit_index
    → (log_term (int64 (commit_advance nservers s seqno v).commit_index) s ≡ s.current_term)
      × ((commit_advance nservers s seqno v).commit_index
          ≡ quorum_index nservers s.last_log_index (Dict.values v.match_index))
unfolding commit_advance
commit_advance_cases nservers s seqno v h = ground arith

-- The commit index only ever moves to an entry of the current term that a quorum of the servers has
-- acknowledged: those servers and any that elect a leader are more than all, so that they have one
-- in common. There is at most one acknowledgement for each follower.
pub commit_advance_quorum :
    (npeers : ℕ) (s : State) (seqno : ℕ) (v : Volatile)
    → HasRoom (npeers + 1) v
    → v.commit_index < (commit_advance (npeers + 1) s seqno v).commit_index
    → (npeers + 1
        < votes_needed npeers
          + count_ge (commit_advance (npeers + 1) s seqno v).commit_index (acknowledged s v))
      × (log_term (int64 (commit_advance (npeers + 1) s seqno v).commit_index) s ≡ s.current_term)
unfolding votes_needed
commit_advance_quorum npeers s seqno v room h =
    let (t, q) = commit_advance_cases (npeers + 1) s seqno v h in
    (rw q (omega (arith, quorum_index_reached (npeers + 1) s.last_log_index _ room)), t)

-- The entries from `m` on are of the current term.
abbrev pub IsCurrentFrom : ℕ → State → Type 0
IsCurrentFrom m s = (i : ℕ) → m ≤ i → i ≤ s.last_log_index → log_term (int64 i) s ≡ s.current_term

module _ (nservers : ℕ) (s : State) (seqno : ℕ) (v : Volatile) (m : ℕ) where
  -- An index of the current term that all but half of the servers, rounded down, have acknowledged
  -- is committed. All later entries are of the current term too, there is at most one
  -- acknowledgement for each follower, and neither the commit index nor any follower is past the
  -- leader's log.
  pub commit_advance_reaches :
      HasRoom nservers v
      → AllLe s.last_log_index (Dict.values v.match_index)
      → v.commit_index ≤ s.last_log_index
      → IsCurrentFrom m s
      → nservers ≤ count_ge m (acknowledged s v) + nservers / 2
      → m ≤ (commit_advance nservers s seqno v).commit_index
  unfolding commit_advance
  commit_advance_reaches room le c cur h =
      let ms = Dict.values v.match_index in
      let q = quorum_index_largest nservers s.last_log_index ms room m h in
      let b = quorum_index-le-last nservers s.last_log_index ms room le in
      let t =
        cur (max v.commit_index (quorum_index nservers s.last_log_index ms)) (omega arith)
          (omega arith) in
      ground arith
