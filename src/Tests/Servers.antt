-- ===== src/Tests/Servers.antt =====
-- A leader and its follower, which has all but the last entry of the leader's log.
use miniraft_cpp.Prelude.{
  ℕ, zero, suc, ◌≤◌, ◌≡◌, ◌≢◌, refl, List, [], ◌∷◌, All, true, false, arith, take, ok, err,
  null_node, Returns, inr, min, length, ◌+◌, ◌<◌,
}
use miniraft_cpp.Prelude.Dict
use miniraft_cpp.Messages.{
  LogEntry, MessageEx, AppendEntriesRequest, RequestVoteRequest, append_entries_request,
  request_vote_request,
}
use miniraft_cpp.State.{IsValid}
use miniraft_cpp.State.Replace.{merge}
use miniraft_cpp.State.Matching.{LogMatching}
use miniraft_cpp.Volatile.{new_volatile}
use miniraft_cpp.Raft.{Raft, Role, follower, leader}
use miniraft_cpp.Raft.Entries.{
  create_append_entries, count_request, on_append_entries_request, on_append_entries_response,
  entries_reply,
}
use miniraft_cpp.Raft.Process.{process}
use miniraft_cpp.Raft.Timeout.{leader_timeout, process_timeout}
use miniraft_cpp.Raft.Sending.{IsReady, create_append_entries-slice}
use miniraft_cpp.Raft.Accepting.{
  on_append_entries_request_accepts, on_append_entries_request_refuses,
}
use miniraft_cpp.Raft.Replication.{replication}
use miniraft_cpp.Raft.Ready.{on_append_entries_response-IsReady}
use miniraft_cpp.Raft.Serving.{leader_timeout_returns}
use miniraft_cpp.Raft.Returning.{process_returns}
use miniraft_cpp.Raft.Ticking.{Ticks, process_timeout_returns}
use miniraft_cpp.Raft.Unknown.{process_unknown}
use miniraft_cpp.Tests.Run.{value}
use miniraft_cpp.Tests.Logs.{entry, logged, logged-IsValid}

-- Server 1 leads term 2 and has sent its first entry to 2.
abbrev pub leading : Raft
leading = record {
  id = 1;
  nodes = 2 ∷ 3 ∷ [];
  min_votes = 2;
  npeers = 2;
  nservers = 3;
  state = logged;
  volatile = record new_volatile {
    next_index = (2, 2) ∷ (3, 4) ∷ [];
    match_index = (2, 1) ∷ (3, 3) ∷ [];
    batch_size = (2, 1024) ∷ (3, 1024) ∷ [];
    commit_index = 1;
  };
  seqno = 5;
  state_name = leader;
  seed = 31337;
  outbox = [];
}

IsReady-for_two : IsReady 2 leading
unfolding Dict.get_or
IsReady-for_two = record {
  valid = logged-IsValid;
  first = omega arith;
  next = omega arith;
  small = omega arith;
  batch = omega arith;
}

IsReady-for_three : IsReady 3 leading
unfolding Dict.get_or
IsReady-for_three = record {
  valid = logged-IsValid;
  first = omega arith;
  next = omega arith;
  small = omega arith;
  batch = omega arith;
}

create_append_entries_example : Returns (create_append_entries 2 leading) (λ p.
    (es : List LogEntry) × (p.1
      ≡ append_entries_request
          (record { src = 1; dst = 2; term = 2; seqno = 5 })
          (record {
            prev_log_index = 1;
            prev_log_term = 1;
            leader_commit = min 1 (1 + length es);
            leader_id = 1;
            nentries = length es;
          })
          es)
    × ((2 < 2 → es ≡ []) × (2 ≤ 2 → es ≡ entry 1 8 ∷ entry 2 9 ∷ []))
    × (p.0.state ≡ logged))
unfolding value
create_append_entries_example = create_append_entries-slice 2 leading IsReady-for_two (omega arith)

-- Server 2 follows in term 2.
abbrev pub following : Raft
following = record {
  id = 2;
  nodes = 1 ∷ 3 ∷ [];
  min_votes = 2;
  npeers = 2;
  nservers = 3;
  state = record {
    current_term = 2;
    voted_for = 1;
    last_log_index = 2;
    last_log_term = 1;
    log = entry 1 7 ∷ entry 1 8 ∷ [];
  };
  volatile = new_volatile;
  seqno = 0;
  state_name = follower;
  seed = 31337;
  outbox = [];
}

abbrev from_leader : MessageEx
from_leader = record { src = 1; dst = 2; term = 2; seqno = 5 }

abbrev after : ℕ → ℕ → AppendEntriesRequest
after index term = record {
  prev_log_index = index;
  prev_log_term = term;
  leader_commit = 1;
  leader_id = 1;
  nentries = 2;
}

abbrev sent : List LogEntry
sent = entry 1 8 ∷ entry 2 9 ∷ []

following-IsValid : IsValid following.state
following-IsValid = record { index_cached = refl; term_cached = refl }

-- The follower's log is a part of the leader's.
logs_match : LogMatching logged.log following.state.log
logs_match zero p e = refl
logs_match (suc zero) p e = refl
logs_match (suc (suc i)) p e = absurd (ground arith)

on_append_entries_request_accepts_example :
    Returns (on_append_entries_request 9 from_leader (after 1 1) sent following) (λ r.
      (r.state.log ≡ entry 1 7 ∷ entry 1 8 ∷ entry 2 9 ∷ [])
      × (r.outbox ≡ (1, entries_reply following from_leader 3 true) ∷ [])
      × (r.state_name ≡ follower)
      × (r.volatile.leader_id ≡ 1)
      × (r.volatile.commit_index ≡ 1)
      × IsValid r.state)
unfolding value merge
on_append_entries_request_accepts_example =
    on_append_entries_request_accepts 9 from_leader (after 1 1) sent following refl refl
      following-IsValid refl (omega arith) (omega arith, (omega arith, tt)) (omega arith)

-- The follower's entry at 2 is of term 1.
on_append_entries_request_refuses_example :
    Returns (on_append_entries_request 9 from_leader (after 2 2) sent following) (λ r.
      (r.state ≡ following.state)
      × (r.outbox ≡ (1, entries_reply following from_leader 0 false) ∷ [])
      × (r.state_name ≡ follower)
      × (r.volatile.leader_id ≡ 1)
      × (r.volatile.commit_index ≡ 0))
unfolding value
on_append_entries_request_refuses_example =
    on_append_entries_request_refuses 9 from_leader (after 2 2) sent following refl refl
      following-IsValid (omega arith) (omega arith) (inr (omega arith)) (omega arith)

replication_example :
    (create_append_entries 2 leading
      ≡ ok (count_request 2 leading, append_entries_request from_leader (after 1 1) sent))
    × Returns
        (on_append_entries_request 9 from_leader (after 1 1) sent following)
        (λ f. take 3 f.state.log ≡ logged.log)
unfolding value
replication_example =
    replication 2 9 leading following IsReady-for_two refl refl following-IsValid logs_match
      (omega arith, (omega arith, (omega arith, tt))) refl (omega arith)

on_append_entries_response_example : IsReady 2 (
    on_append_entries_response
      (record { src = 2; dst = 1; term = 2; seqno = 5 })
      (record { match_index = 3; success = true })
      leading)
on_append_entries_response_example =
    on_append_entries_response-IsReady 2 (record { src = 2; dst = 1; term = 2; seqno = 5 })
      (record { match_index = 3; success = true }) leading (omega arith) IsReady-for_two

leader_timeout_returns_example : Returns (leader_timeout 9 leading) (λ r.
    (r.state ≡ logged)
    × (r.state_name ≡ leader)
    × (r.nodes ≡ 2 ∷ 3 ∷ [])
    × All (λ id. IsReady id r) r.nodes)
leader_timeout_returns_example =
    leader_timeout_returns 9 leading (IsReady-for_two, (IsReady-for_three, tt))

leading-Ticks : Ticks leading
leading-Ticks = record {
  role = λ e. cc;
  valid = logged-IsValid;
  ready = λ e. (IsReady-for_two, (IsReady-for_three, tt));
}

process_timeout_returns_example : Returns (process_timeout 9 leading) Ticks
process_timeout_returns_example = process_timeout_returns 9 leading (omega arith) leading-Ticks

abbrev ballot_request : RequestVoteRequest
ballot_request = record { last_log_index = 3; last_log_term = 2; candidate_id = 3 }

abbrev from_three : MessageEx
from_three = record { src = 3; dst = 1; term = 7; seqno = 0 }

process_returns_example :
    Returns
      (process 9 (request_vote_request from_three ballot_request) leading)
      (λ r. (r.state.current_term ≡ 7) × (r.nodes ≡ 2 ∷ 3 ∷ []) × (r.state_name ≢ Role.none))
unfolding value
process_returns_example =
    process_returns 9 (request_vote_request from_three ballot_request) leading (λ e. cc) refl

-- Server 4 is not in the configuration.
abbrev from_four : MessageEx
from_four = record { src = 4; dst = 1; term = 7; seqno = 0 }

process_unknown_example :
    process 9 (request_vote_request from_four ballot_request) leading ≡ err null_node
unfolding Dict.contains
process_unknown_example = process_unknown 9 from_four ballot_request leading (λ e. cc) refl
