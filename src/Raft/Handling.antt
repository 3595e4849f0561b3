-- ===== src/Raft/Handling.antt =====
-- miniraft/raft.cpp: what the handlers of messages leave as it is, where they return.
use miniraft_cpp.Prelude.{
  ℕ, ◌≤◌, ◌≡◌, ◌≢◌, refl, inl, inr, List, true, false, arith, ltb, ◌==◌, Bool-cases, Returns,
}
use miniraft_cpp.Prelude.Dict
use miniraft_cpp.Messages.{
  LogEntry, Message, MessageEx, RequestVoteRequest, RequestVoteResponse, AppendEntriesRequest,
  AppendEntriesResponse,
}
use miniraft_cpp.State.Terms.{put_entries-SameBallot}
use miniraft_cpp.Raft.{Raft, Role, send, restart_election}
use miniraft_cpp.Raft.Votes.{
  accepts, grant, vote_reply, on_request_vote_request, on_request_vote_response,
}
use miniraft_cpp.Raft.Entries.{
  entries_reply, take_entries, follow, on_append_entries_request, on_append_entries_response,
}
use miniraft_cpp.Raft.Accepting.{send_known, on_append_entries_request_present}

-- What every handler leaves, once the term is taken over.
pub record Handled (r r' : Raft) : Type 0 where
  pub term : r'.state.current_term ≡ r.state.current_term
  pub nodes : r'.nodes ≡ r.nodes
  pub role : r'.state_name ≢ Role.none

pub unmoved : (r : Raft) → r.state_name ≢ Role.none → Handled r r
unmoved r h = record { term = refl; nodes = refl; role = h }

send-Handled :
    (d : ℕ) (m : Message) (r r' : Raft)
    → Dict.contains d r'.nodes ≡ true
    → Handled r r'
    → Returns (send d m r') (Handled r)
send-Handled d m r r' known h =
    rw (send_known d m r' known) (record { term = h.term; nodes = h.nodes; role = h.role })

module _ (now : ℕ) (x : MessageEx) (r : Raft) where
  pub on_request_vote_request-Handled :
      (m : RequestVoteRequest)
      → Dict.contains x.src r.nodes ≡ true
      → r.state_name ≢ Role.none
      → Returns (on_request_vote_request now x m r) (Handled r)
  unfolding on_request_vote_request grant restart_election
  on_request_vote_request-Handled m known role =
      elim (Bool-cases (ltb x.term r.state.current_term)) [
        | inl late ↦ rw late (refused)
        | inr timely ↦ elim (Bool-cases (x.term == r.state.current_term)) [
          | inr future ↦ rw (timely, future) (unmoved r role)
          | inl present ↦ elim (Bool-cases (accepts m r.state)) [
            | inl granted ↦
                rw (timely, present, granted)
                  (send-Handled x.src (vote_reply r x true) r (grant now m r) known
                    (record { term = refl; nodes = refl; role = role }))
            | inr denied ↦ rw (timely, present, denied) refused
          ]
        ]
      ]
    where
      refused : Returns (send x.src (vote_reply r x false) r) (Handled r)
      refused = send-Handled x.src (vote_reply r x false) r r known (unmoved r role)

  follow-Handled :
      (m : AppendEntriesRequest) (es : List LogEntry)
      → Handled r (follow now m (take_entries m es r.volatile.commit_index r.state) r)
  unfolding follow take_entries restart_election
  follow-Handled m es =
      let b = put_entries-SameBallot m.prev_log_index es r.state in
      record { term = ground (arith, b); nodes = refl; role = λ e. cc }

  pub on_append_entries_request-Handled :
      (m : AppendEntriesRequest) (es : List LogEntry)
      → Dict.contains x.src r.nodes ≡ true
      → r.state_name ≢ Role.none
      → x.term ≤ r.state.current_term
      → Returns (on_append_entries_request now x m es r) (Handled r)
  unfolding on_append_entries_request
  on_append_entries_request-Handled m es known role le =
      elim (Bool-cases (ltb x.term r.state.current_term)) [
        | inl late ↦
            rw late (send-Handled x.src (entries_reply r x 0 false) r r known (unmoved r role))
        | inr timely ↦
            let out = take_entries m es r.volatile.commit_index r.state in
            let h = follow-Handled m es in
            rw (on_append_entries_request_present now x m es r (ground arith) known)
              (record { term = h.term; nodes = h.nodes; role = h.role })
      ]

pub on_request_vote_response-Handled :
    (x : MessageEx) (m : RequestVoteResponse) (r : Raft)
    → r.state_name ≢ Role.none
    → Handled r (on_request_vote_response x m r)
unfolding on_request_vote_response
on_request_vote_response-Handled x m r h = record {
  term = ground arith;
  nodes = ground arith;
  role = ground arith;
}

pub on_append_entries_response-Handled :
    (x : MessageEx) (m : AppendEntriesResponse) (r : Raft)
    → r.state_name ≢ Role.none
    → Handled r (on_append_entries_response x m r)
unfolding on_append_entries_response
on_append_entries_response-Handled x m r h = record {
  term = ground arith;
  nodes = ground arith;
  role = ground arith;
}
