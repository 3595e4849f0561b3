-- ===== src/Raft/Process.antt =====
-- miniraft/raft.cpp: Follower, Candidate and Leader, and TRaft::Process.
use miniraft_cpp.Prelude.{
  ℕ, ◌||◌, ltb, leb, ◌==◌, if◌then◌else◌, Option, none, some, Result, ok, err, logic_error,
}
use miniraft_cpp.Messages.{
  Message, MessageEx, request_vote_request, request_vote_response, append_entries_request,
  append_entries_response, is_ex,
}
use miniraft_cpp.Raft.{Raft, Role, candidate, follower, leader, restart_election}
use miniraft_cpp.Raft.Votes.{on_request_vote_request, on_request_vote_response, time_max}
use miniraft_cpp.Raft.Entries.{on_append_entries_request, on_append_entries_response}

-- TRaft::Follower: other messages are ignored.
unfoldable pub on_follower : ℕ → Message → Raft → Result Raft
on_follower now (request_vote_request x m) r = on_request_vote_request now x m r
on_follower now (append_entries_request x m es) r = on_append_entries_request now x m es r
on_follower now _ r = ok r

-- TRaft::Candidate
unfoldable pub on_candidate : ℕ → Message → Raft → Result Raft
on_candidate now (request_vote_response x m) r = ok (on_request_vote_response x m r)
on_candidate now (request_vote_request x m) r = on_request_vote_request now x m r
on_candidate now (append_entries_request x m es) r = on_append_entries_request now x m es r
on_candidate now _ r = ok r

-- TRaft::Leader
unfoldable pub on_leader : ℕ → Message → Raft → Result Raft
on_leader now (append_entries_response x m) r = ok (on_append_entries_response x m r)
on_leader now (request_vote_request x m) r = on_request_vote_request now x m r
on_leader now (append_entries_request x m es) r = on_append_entries_request now x m es r
on_leader now _ r = ok r

-- The header of a message for which IsEx holds. A message of type 2 to 5 that is no such struct
-- has none: `other` stands for the types that the library does not implement.
unfoldable pub header : Message → Option MessageEx
header (request_vote_request x m) = some x
header (request_vote_response x m) = some x
header (append_entries_request x m es) = some x
header (append_entries_response x m) = some x
header _ = none

-- The first part of TRaft::Process: a later term makes the server a follower of that term.
unfoldable pub take_term : ℕ → MessageEx → Raft → Raft
take_term now x r =
    if ltb r.state.current_term x.term
    then (let r' = record r {
      state = record (r.state) { current_term = x.term; voted_for = 0 };
      state_name = follower;
    } in
        if leb r.volatile.election_due now || r.volatile.election_due == time_max
        then restart_election now r'
        else r')
    else r

unfoldable pub take_header : ℕ → Message → Raft → Raft
unfolding header is_ex
take_header now m r =
    if is_ex m then elim (header m) [ none ↦ r | some x ↦ take_term now x r ] else r

unfoldable pub dispatch : Role → ℕ → Message → Raft → Result Raft
dispatch Role.none now m r = err logic_error
dispatch candidate now m r = on_candidate now m r
dispatch follower now m r = on_follower now m r
dispatch leader now m r = on_leader now m r

-- TRaft::Process
unfoldable pub process : ℕ → Message → Raft → Result Raft
unfolding take_header
process now m r = let r' = take_header now m r in dispatch r'.state_name now m r'
