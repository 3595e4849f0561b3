-- ===== src/Raft/Votes.antt =====
-- miniraft/raft.cpp: OnRequestVote for requests and for responses, and CreateVote.
use miniraft_cpp.Prelude.{
  ℕ, ◌^◌, ◌-◌, Bool, true, false, ◌&&◌, ◌||◌, ltb, leb, ◌==◌, if◌then◌else◌, Result, ok,
}
use miniraft_cpp.Messages.{
  Message, MessageEx, RequestVoteRequest, RequestVoteResponse, request_vote_request,
  request_vote_response,
}
use miniraft_cpp.State.{State, last_term}
use miniraft_cpp.Volatile.{vote, set_rpc_due}
use miniraft_cpp.Raft.{Raft, send, restart_election}

-- ITimeSource::Max, in nanoseconds.
abbrev pub time_max : ℕ
time_max = 2 ^ 63 - 1

-- Whether the candidate's log is at least as new as the server's own.
unfoldable pub is_up_to_date : RequestVoteRequest → State → Bool
is_up_to_date m s =
    ltb (last_term s) m.last_log_term
    || (m.last_log_term == last_term s && leb s.last_log_index m.last_log_index)

unfoldable pub accepts : RequestVoteRequest → State → Bool
unfolding is_up_to_date
accepts m s = (s.voted_for == 0 || s.voted_for == m.candidate_id) && is_up_to_date m s

abbrev pub vote_reply : Raft → MessageEx → Bool → Message
vote_reply r x granted =
    request_vote_response
      (record { src = r.id; dst = x.src; term = r.state.current_term; seqno = 0 })
      (record { vote_granted = granted })

-- What an accepted request changes.
unfoldable pub grant : ℕ → RequestVoteRequest → Raft → Raft
grant now m r =
    let r' = restart_election now r in
    record r' { state = record (r'.state) { voted_for = m.candidate_id } }

-- TRaft::OnRequestVote, for a request. A request of a later term is ignored (it does not occur:
-- Process has taken over its term).
unfoldable pub on_request_vote_request : ℕ → MessageEx → RequestVoteRequest → Raft → Result Raft
unfolding accepts grant
on_request_vote_request now x m r =
    if ltb x.term r.state.current_term
    then send x.src (vote_reply r x false) r
    else if x.term == r.state.current_term
    then (if accepts m r.state
        then send x.src (vote_reply r x true) (grant now m r)
        else send x.src (vote_reply r x false) r)
    else ok r

-- TRaft::OnRequestVote, for a response.
unfoldable pub on_request_vote_response : MessageEx → RequestVoteResponse → Raft → Raft
on_request_vote_response x m r =
    if m.vote_granted && x.term == r.state.current_term
    then record r { volatile = set_rpc_due x.src time_max (vote x.src r.volatile) }
    else r

-- TRaft::CreateVote
unfoldable pub create_vote : ℕ → Raft → Message
create_vote node_id r =
    request_vote_request
      (record { src = r.id; dst = node_id; term = r.state.current_term; seqno = 0 })
      (record {
        last_log_index = r.state.last_log_index;
        last_log_term = r.state.last_log_term;
        candidate_id = r.id;
      })
