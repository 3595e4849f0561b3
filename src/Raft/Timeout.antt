-- ===== src/Raft/Timeout.antt =====
-- miniraft/raft.cpp: ProcessTimeout and the timeouts of each role, Append and ApproveRead.
use miniraft_cpp.Prelude.{
  ℕ, ◌+◌, ◌/◌, Bool, true, false, ◌&&◌, ◌||◌, leb, ◌==◌, if◌then◌else◌, List, [], ◌∷◌, length,
  add64, through_int, Result, ok, err, logic_error, ◌>>=◌,
}
use miniraft_cpp.Prelude.Dict
use miniraft_cpp.Messages.{LogEntry, stub_flag, election_timeout, rpc_timeout}
use miniraft_cpp.State.{append}
use miniraft_cpp.Volatile.{Volatile, new_volatile, commit_advance}
use miniraft_cpp.Raft.{
  Raft, Role, candidate, follower, leader, become, post, for_nodes, make_election,
}
use miniraft_cpp.Raft.Votes.{create_vote, time_max}
use miniraft_cpp.Raft.Entries.{create_append_entries}

-- TRaft::FollowerTimeout
unfoldable pub follower_timeout : ℕ → Raft → Raft
follower_timeout now r = if leb r.volatile.election_due now then become candidate r else r

-- The body of the loop of CandidateTimeout.
unfoldable pub ask_vote : ℕ → ℕ → Raft → Raft
ask_vote now id r =
    let due = Dict.get_or id 0 r.volatile.rpc_due in
    if leb due now
    then (let r' = record r {
      volatile = record (r.volatile) {
        rpc_due = Dict.set id (now + rpc_timeout) r.volatile.rpc_due;
      };
    } in
        post id (create_vote id r') r')
    else record r {
      volatile = record (r.volatile) { rpc_due = Dict.touch id 0 r.volatile.rpc_due };
    }

unfoldable pub ask_votes : ℕ → List ℕ → Raft → Raft
ask_votes now [] r = r
ask_votes now (id ∷ ids) r = ask_votes now ids (ask_vote now id r)

-- TRaft::CandidateTimeout
unfoldable pub candidate_timeout : ℕ → Raft → Raft
unfolding ask_votes
candidate_timeout now r = ask_votes now r.nodes r

-- The test in the loop of LeaderTimeout; its reads add missing keys, in the order of evaluation.
unfoldable pub is_due : ℕ → ℕ → Raft → Bool
is_due now id r =
    leb (Dict.get_or id 0 r.volatile.heartbeat_due) now
    || (leb (Dict.get_or id 0 r.volatile.next_index) r.state.last_log_index
        && leb (Dict.get_or id 0 r.volatile.rpc_due) now)

unfoldable pub after_test : ℕ → ℕ → Raft → Volatile
after_test now id r =
    let v = record (r.volatile) { heartbeat_due = Dict.touch id 0 r.volatile.heartbeat_due } in
    if leb (Dict.get_or id 0 r.volatile.heartbeat_due) now
    then v
    else (let v' = record v { next_index = Dict.touch id 0 v.next_index } in
        if leb (Dict.get_or id 0 r.volatile.next_index) r.state.last_log_index
        then record v' { rpc_due = Dict.touch id 0 v'.rpc_due }
        else v')

-- The due times that LeaderTimeout sets before it sends.
unfoldable pub mark_sent : ℕ → ℕ → Raft → Raft
unfolding after_test
mark_sent now id r =
    let v = after_test now id r in
    record r {
      volatile = record v {
        heartbeat_due = Dict.set id (now + election_timeout / 2) v.heartbeat_due;
        rpc_due = Dict.set id (now + rpc_timeout) v.rpc_due;
      };
    }

-- The body of the loop of LeaderTimeout.
unfoldable pub heartbeat : ℕ → ℕ → Raft → Result Raft
unfolding is_due
heartbeat now id r =
    if is_due now id r
    then create_append_entries id (mark_sent now id r) >>= (λ p. ok (post id p.1 p.0))
    else ok (record r { volatile = after_test now id r })

unfoldable pub heartbeats : ℕ → List ℕ → Raft → Result Raft
heartbeats now [] r = ok r
heartbeats now (id ∷ ids) r = heartbeat now id r >>= λ r'. heartbeats now ids r'

-- The end of LeaderTimeout: a server on its own commits what it has.
unfoldable pub commit_alone : Raft → Raft
commit_alone r =
    if r.nservers == 1
    then record r { volatile = commit_advance r.nservers r.state 0 r.volatile }
    else r

-- TRaft::LeaderTimeout
unfoldable pub leader_timeout : ℕ → Raft → Result Raft
unfolding commit_alone
leader_timeout now r = heartbeats now r.nodes r >>= λ r'. ok (commit_alone r')

-- The first part of ProcessTimeout: start an election of a new term.
unfoldable pub start_election : ℕ → Raft → Raft
start_election now r =
    let (due, seed) = make_election now r.seed in
    record r {
      volatile = record new_volatile {
        next_index = for_nodes r.nodes 1 [];
        election_due = due;
        commit_index = r.volatile.commit_index;
      };
      seed = seed;
      state = record (r.state) { voted_for = r.id; current_term = add64 r.state.current_term 1 };
      state_name = candidate;
    }

unfoldable pub is_follower : Role → Bool
is_follower follower = true
is_follower _ = false

unfoldable pub is_candidate : Role → Bool
is_candidate candidate = true
is_candidate _ = false

unfoldable pub maybe_start_election : ℕ → Raft → Raft
unfolding start_election is_candidate is_follower
maybe_start_election now r =
    if (is_candidate r.state_name || is_follower r.state_name) && leb r.volatile.election_due now
    then start_election now r
    else r

-- The entry that a new leader appends.
abbrev pub stub : ℕ → LogEntry
stub term = record { term = term; flags = stub_flag; data_bytes = [] }

-- What a candidate with enough votes does.
unfoldable pub become_leader : Raft → Raft
become_leader r = record r {
  volatile = record new_volatile {
    commit_index = r.volatile.commit_index;
    next_index = for_nodes r.nodes (add64 r.state.last_log_index 1) [];
    rpc_due = for_nodes r.nodes time_max [];
    election_due = time_max;
  };
  state_name = leader;
  state = append (stub r.state.current_term) r.state;
}

-- The second part of ProcessTimeout.
unfoldable pub count_votes : Raft → Raft
unfolding become_leader is_candidate
count_votes r =
    if is_candidate r.state_name && leb r.min_votes (length r.volatile.votes + 1)
    then become_leader r
    else r

unfoldable pub role_timeout : Role → ℕ → Raft → Result Raft
role_timeout Role.none now r = err logic_error
role_timeout candidate now r = ok (candidate_timeout now r)
role_timeout follower now r = ok (follower_timeout now r)
role_timeout leader now r = leader_timeout now r

-- TRaft::ProcessTimeout
unfoldable pub process_timeout : ℕ → Raft → Result Raft
process_timeout now r =
    let r' = count_votes (maybe_start_election now r) in role_timeout r'.state_name now r'

-- TRaft::Append: the index of the new entry, and the server.
unfoldable pub append_entry : LogEntry → Raft → ℕ × Raft
append_entry e r =
    let s = append (record e { term = r.state.current_term }) r.state in
    (s.last_log_index, record r { state = s })

unfoldable pub ask_all : List ℕ → Raft → Result Raft
ask_all [] r = ok r
ask_all (id ∷ ids) r = create_append_entries id r >>= λ p. ask_all ids (post id p.1 p.0)

-- TRaft::ApproveRead. `seqno` is an int there.
unfoldable pub approve_read : Raft → Result (ℕ × Raft)
unfolding ask_all
approve_read r = ask_all r.nodes r >>= λ r'. ok (through_int r.seqno, r')
