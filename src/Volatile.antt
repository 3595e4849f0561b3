-- ===== src/Volatile.antt =====
-- miniraft/raft.h and raft.cpp, TVolatileState: what a server keeps in memory, its setters, and the
-- advance of the commit index.
pub mod Quorum
pub mod Commit
use miniraft_cpp.Prelude.{
  ℕ, zero, suc, ◌+◌, ◌-◌, ◌/◌, ◌≡◌, List, [], ◌∷◌, ◌++◌, Bool, max, leb, ltb, ◌==◌, if◌then◌else◌,
  length, int64, through_int,
}
use miniraft_cpp.Prelude.Dict
use miniraft_cpp.Prelude.Dict.{Dict}
use miniraft_cpp.State.{State, log_term}

-- TVolatileState. `Indices` is scratch space that CommitAdvance clears first: a local here.
pub record Volatile : Type 0 where
  pub commit_index : ℕ
  pub commit_seqno : ℕ
  pub leader_id : ℕ
  pub next_index : Dict ℕ
  pub match_index : Dict ℕ
  pub votes : List ℕ
  pub heartbeat_due : Dict ℕ
  pub rpc_due : Dict ℕ
  pub batch_size : Dict ℕ
  pub back_off : Dict ℕ
  pub election_due : ℕ

abbrev pub new_volatile : Volatile
new_volatile = record {
  commit_index = 0;
  commit_seqno = 0;
  leader_id = 0;
  next_index = [];
  match_index = [];
  votes = [];
  heartbeat_due = [];
  rpc_due = [];
  batch_size = [];
  back_off = [];
  election_due = 0;
}

abbrev pub set_election_due : ℕ → Volatile → Volatile
set_election_due due v = record v { election_due = due }

unfoldable pub vote : ℕ → Volatile → Volatile
vote node_id v = record v { votes = Dict.insert node_id v.votes }

abbrev pub set_next_index : ℕ → ℕ → Volatile → Volatile
set_next_index id next_index v = record v { next_index = Dict.set id next_index v.next_index }

abbrev pub set_match_index : ℕ → ℕ → Volatile → Volatile
set_match_index id match_index v = record v { match_index = Dict.set id match_index v.match_index }

abbrev pub set_rpc_due : ℕ → ℕ → Volatile → Volatile
set_rpc_due id rpc_due v = record v { rpc_due = Dict.set id rpc_due v.rpc_due }

abbrev pub set_batch_size : ℕ → ℕ → Volatile → Volatile
set_batch_size id size v = record v { batch_size = Dict.set id size v.batch_size }

abbrev pub set_back_off : ℕ → ℕ → Volatile → Volatile
set_back_off id size v = record v { back_off = Dict.set id size v.back_off }

abbrev pub set_leader_id : ℕ → Volatile → Volatile
set_leader_id id v = record v { leader_id = id }

-- The parameter is an int.
abbrev pub set_commit_index : ℕ → Volatile → Volatile
set_commit_index index v = record v { commit_index = through_int index }

-- `std::sort`: the sorted permutation, which is unique for numbers.
unfoldable pub place : ℕ → List ℕ → List ℕ
place a [] = a ∷ []
place a (x ∷ xs) = if leb a x then a ∷ x ∷ xs else x ∷ place a xs

unfoldable pub sort : List ℕ → List ℕ
unfolding place
sort [] = []
sort (x ∷ xs) = place x (sort xs)

-- while (Indices.size() < nservers) Indices.push_back(0);
-- `missing` is the number of rounds.
unfoldable pub pad : ℕ → List ℕ → List ℕ
pad zero xs = xs
pad (suc missing) xs = pad missing (xs ++ 0 ∷ [])

-- `Indices` before the sort.
unfoldable pub indices : ℕ → ℕ → List ℕ → List ℕ
unfolding pad
indices nservers last matches = pad (nservers - (length matches + 1)) (matches ++ last ∷ [])

-- The element at a place of `Indices`; a place past the end is never read.
abbrev pub element : ℕ → List ℕ → ℕ
element i [] = 0
element zero (x ∷ xs) = x
element (suc i) (x ∷ xs) = element i xs

-- Indices[nservers / 2]
unfoldable pub quorum_index : ℕ → ℕ → List ℕ → ℕ
unfolding sort indices
quorum_index nservers last matches = element (nservers / 2) (sort (indices nservers last matches))

unfoldable pub commit_advance : ℕ → State → ℕ → Volatile → Volatile
commit_advance nservers s seqno v =
    let commit_index =
      max v.commit_index (quorum_index nservers s.last_log_index (Dict.values v.match_index)) in
    if log_term (int64 commit_index) s == s.current_term
    then record v { commit_seqno = max v.commit_seqno seqno; commit_index = commit_index }
    else v
