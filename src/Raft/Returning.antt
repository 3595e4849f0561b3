-- ===== src/Raft/Returning.antt =====
-- miniraft/raft.cpp, TRaft::Process: that it returns.
use miniraft_cpp.Prelude.{
  ℕ, ◌≤◌, ◌≡◌, ◌≢◌, refl, sym, ap, ◌∙◌, true, arith, max, some, none, Returns, Returns_map,
}
use miniraft_cpp.Prelude.Dict
use miniraft_cpp.Messages.{
  Message, MessageEx, request_vote_request, request_vote_response, append_entries_request,
  append_entries_response, log_entry, command_request, command_response, other,
}
use miniraft_cpp.Raft.{Raft, Role, candidate, follower, leader, restart_election}
use miniraft_cpp.Raft.Process.{
  header, take_term, take_header, on_follower, on_candidate, on_leader, dispatch, process,
}
use miniraft_cpp.Raft.Handling.{
  Handled, unmoved, on_request_vote_request-Handled, on_append_entries_request-Handled,
  on_request_vote_response-Handled, on_append_entries_response-Handled,
}

-- The node that a message is from is one that the server knows, if the message has a header.
abbrev pub IsKnown : Message → Raft → Type 0
IsKnown m r = elim (header m) [ none ↦ Unit | some x ↦ Dict.contains x.src r.nodes ≡ true ]

-- The term in a message's header.
abbrev pub term_of : Message → ℕ
term_of m = elim (header m) [ none ↦ 0 | some x ↦ x.term ]

-- A message that no earlier term makes stale, from a known node.
follower_Handled :
    (now : ℕ) (m : Message) (r : Raft)
    → IsKnown m r
    → term_of m ≤ r.state.current_term
    → r.state_name ≢ Role.none
    → Returns (on_follower now m r) (Handled r)
unfolding on_follower header
follower_Handled now (request_vote_request x m) r k le h =
    on_request_vote_request-Handled now x r m k h
follower_Handled now (append_entries_request x m es) r k le h =
    on_append_entries_request-Handled now x r m es k h le
follower_Handled now m r k le h = unmoved r h

candidate_Handled :
    (now : ℕ) (m : Message) (r : Raft)
    → IsKnown m r
    → term_of m ≤ r.state.current_term
    → r.state_name ≢ Role.none
    → Returns (on_candidate now m r) (Handled r)
unfolding on_candidate header
candidate_Handled now (request_vote_response x m) r k le h =
    on_request_vote_response-Handled x m r h
candidate_Handled now (request_vote_request x m) r k le h =
    on_request_vote_request-Handled now x r m k h
candidate_Handled now (append_entries_request x m es) r k le h =
    on_append_entries_request-Handled now x r m es k h le
candidate_Handled now m r k le h = unmoved r h

leader_Handled :
    (now : ℕ) (m : Message) (r : Raft)
    → IsKnown m r
    → term_of m ≤ r.state.current_term
    → r.state_name ≢ Role.none
    → Returns (on_leader now m r) (Handled r)
unfolding on_leader header
leader_Handled now (append_entries_response x m) r k le h =
    on_append_entries_response-Handled x m r h
leader_Handled now (request_vote_request x m) r k le h =
    on_request_vote_request-Handled now x r m k h
leader_Handled now (append_entries_request x m es) r k le h =
    on_append_entries_request-Handled now x r m es k h le
leader_Handled now m r k le h = unmoved r h

dispatch-Handled :
    (role : Role) (now : ℕ) (m : Message) (r : Raft)
    → role ≡ r.state_name
    → IsKnown m r
    → term_of m ≤ r.state.current_term
    → r.state_name ≢ Role.none
    → Returns (dispatch role now m r) (Handled r)
unfolding dispatch
dispatch-Handled Role.none now m r e k le h = absurd (h (sym e))
dispatch-Handled follower now m r e k le h = follower_Handled now m r k le h
dispatch-Handled candidate now m r e k le h = candidate_Handled now m r k le h
dispatch-Handled leader now m r e k le h = leader_Handled now m r k le h

-- The server after the first part of Process.
pub record Raised (term : ℕ) (r r' : Raft) : Type 0 where
  pub raised : r'.state.current_term ≡ max r.state.current_term term
  pub nodes : r'.nodes ≡ r.nodes
  pub role : r'.state_name ≢ Role.none

take_term-Raised :
    (now : ℕ) (x : MessageEx) (r : Raft)
    → r.state_name ≢ Role.none
    → Raised x.term r (take_term now x r)
unfolding take_term restart_election
take_term-Raised now x r h = record {
  raised = ground arith;
  nodes = ground arith;
  role = ground arith;
}

pub take_header-Raised :
    (now : ℕ) (m : Message) (r : Raft)
    → r.state_name ≢ Role.none
    → Raised (term_of m) r (take_header now m r)
unfolding take_header header
take_header-Raised now (request_vote_request x m) r h = take_term-Raised now x r h
take_header-Raised now (request_vote_response x m) r h = take_term-Raised now x r h
take_header-Raised now (append_entries_request x m es) r h = take_term-Raised now x r h
take_header-Raised now (append_entries_response x m) r h = take_term-Raised now x r h
take_header-Raised now (other n) r h = record {
  raised = ground arith;
  nodes = ground arith;
  role = ground arith;
}
take_header-Raised now (log_entry e) r h = record { raised = omega arith; nodes = refl; role = h }
take_header-Raised now (command_request c) r h = record {
  raised = omega arith;
  nodes = refl;
  role = h;
}
take_header-Raised now (command_response c) r h = record {
  raised = omega arith;
  nodes = refl;
  role = h;
}

IsKnown-nodes : (m : Message) (r r' : Raft) → r'.nodes ≡ r.nodes → IsKnown m r → IsKnown m r'
unfolding header
IsKnown-nodes (request_vote_request x m) r r' e k = ap (Dict.contains x.src) e ∙ k
IsKnown-nodes (request_vote_response x m) r r' e k = ap (Dict.contains x.src) e ∙ k
IsKnown-nodes (append_entries_request x m es) r r' e k = ap (Dict.contains x.src) e ∙ k
IsKnown-nodes (append_entries_response x m) r r' e k = ap (Dict.contains x.src) e ∙ k
IsKnown-nodes m r r' e k = tt

-- Process returns, in every role and for every message from a node that the server knows: no
-- assertion fails and no null pointer is used. The server's term is then the larger of its own and
-- the message's, its nodes are the same, and it is still in one of the three roles.
pub process_returns :
    (now : ℕ) (m : Message) (r : Raft)
    → r.state_name ≢ Role.none
    → IsKnown m r
    → Returns (process now m r) (λ r'.
      (r'.state.current_term ≡ max r.state.current_term (term_of m))
      × (r'.nodes ≡ r.nodes)
      × (r'.state_name ≢ Role.none))
unfolding process
process_returns now m r role known =
    let a = take_header-Raised now m r role in
    let r₁ = take_header now m r in
    Returns_map (dispatch r₁.state_name now m r₁) (Handled r₁) _
      (dispatch-Handled r₁.state_name now m r₁ refl (IsKnown-nodes m r r₁ a.nodes known)
        (omega (arith, a.raised)) a.role)
      (λ r' b. (b.term ∙ a.raised, b.nodes ∙ a.nodes, b.role))
