-- ===== src/Raft/Unknown.antt =====
-- miniraft/raft.cpp: a request for a vote from a node that is not among Nodes.
use miniraft_cpp.Prelude.{
  ℕ, ◌≤◌, ◌≡◌, ◌≢◌, refl, ap, ◌∙◌, inl, inr, true, false, arith, ltb, ◌==◌, Bool-cases, err,
  null_node,
}
use miniraft_cpp.Prelude.Dict
use miniraft_cpp.Messages.{Message, MessageEx, RequestVoteRequest, request_vote_request}
use miniraft_cpp.Raft.{Raft, Role, candidate, follower, leader, send, restart_election}
use miniraft_cpp.Raft.Votes.{accepts, grant, vote_reply, on_request_vote_request}
use miniraft_cpp.Raft.Process.{
  header, take_header, on_follower, on_candidate, on_leader, dispatch, process,
}
use miniraft_cpp.Raft.Returning.{take_header-Raised}

send_unknown :
    (d : ℕ) (m : Message) (r : Raft) → Dict.contains d r.nodes ≡ false → send d m r ≡ err null_node
unfolding send
send_unknown d m r h = rw h refl

module _ (now : ℕ) (x : MessageEx) (m : RequestVoteRequest) where
  on_request_vote_request_unknown :
      (r : Raft)
      → x.term ≤ r.state.current_term
      → Dict.contains x.src r.nodes ≡ false
      → on_request_vote_request now x m r ≡ err null_node
  unfolding on_request_vote_request grant restart_election
  on_request_vote_request_unknown r le h = elim (Bool-cases (ltb x.term r.state.current_term)) [
    | inl late ↦ rw late (send_unknown x.src (vote_reply r x false) r h)
    | inr timely ↦
        let present : (x.term == r.state.current_term) ≡ true = ground arith in
        elim (Bool-cases (accepts m r.state)) [
          | inl granted ↦
              rw (timely, present, granted)
                (send_unknown x.src (vote_reply r x true) (grant now m r) h)
          | inr denied ↦
              rw (timely, present, denied) (send_unknown x.src (vote_reply r x false) r h)
        ]
  ]

  dispatch_unknown :
      (role : Role) (r : Raft)
      → role ≢ Role.none
      → x.term ≤ r.state.current_term
      → Dict.contains x.src r.nodes ≡ false
      → dispatch role now (request_vote_request x m) r ≡ err null_node
  unfolding dispatch on_follower on_candidate on_leader
  dispatch_unknown Role.none r n le h = absurd (n refl)
  dispatch_unknown follower r n le h = on_request_vote_request_unknown r le h
  dispatch_unknown candidate r n le h = on_request_vote_request_unknown r le h
  dispatch_unknown leader r n le h = on_request_vote_request_unknown r le h

  -- A request for a vote from a node that the server does not know makes Process use a null
  -- pointer, in every role and whatever the term of the request is.
  pub process_unknown :
      (r : Raft)
      → r.state_name ≢ Role.none
      → Dict.contains x.src r.nodes ≡ false
      → process now (request_vote_request x m) r ≡ err null_node
  unfolding process header
  process_unknown r role h =
      let r₁ = take_header now (request_vote_request x m) r in
      let a = take_header-Raised now (request_vote_request x m) r role in
      dispatch_unknown r₁.state_name r₁ a.role (omega (arith, a.raised))
        (ap (Dict.contains x.src) a.nodes ∙ h)
