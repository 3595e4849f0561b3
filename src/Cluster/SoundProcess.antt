-- ===== src/Cluster/SoundProcess.antt =====
-- TRaft::Process of miniraft/raft.cpp makes moves of an election, and no others.
use miniraft_cpp.Prelude.{ℕ, ◌≡◌, refl, subst, inl, inr, true, ltb, ltb→lt, arith, ok, Bool-cases}
use miniraft_cpp.Messages.{
  Message, MessageEx, request_vote_request, request_vote_response, append_entries_request,
  append_entries_response, other,
}
use miniraft_cpp.Raft.{Raft, Role, candidate, follower, leader, restart_election}
use miniraft_cpp.Raft.Process.{
  take_term, take_header, on_follower, on_candidate, on_leader, dispatch, process,
}
use miniraft_cpp.Cluster.Turn.{Turn, Shift, stay, adopt, Turns, done, more}
use miniraft_cpp.Cluster.Sound.{
  on_request_vote_request-Turn, on_request_vote_response-Turn, on_append_entries_response-Turn,
  on_append_entries_request-Turns,
}

module _ (Backer : ℕ → Type 0) where
  -- What the sender of a message is trusted for.
  abbrev pub Trusted : Raft → Message → Type 0
  Trusted r (request_vote_request x m) = m.candidate_id ≡ x.src
  Trusted r (request_vote_response x m) =
      m.vote_granted ≡ true → x.term ≡ r.state.current_term → Backer x.src
  Trusted r _ = Unit

  one : {r r' : Raft} → Turn Backer r r' → Turns Backer r r'
  one t = more done t

  ignored-Turns : {r r' : Raft} → ok r ≡ ok r' → Turns Backer r r'
  ignored-Turns {r} e = subst (Turns Backer r) (let e' = e in cc) done

  on_follower-Turns :
      (now : ℕ) (m : Message) (r : Raft) {r' : Raft}
      → Trusted r m
      → on_follower now m r ≡ ok r'
      → Turns Backer r r'
  unfolding on_follower
  on_follower-Turns now (request_vote_request x m) r t e =
      one (on_request_vote_request-Turn Backer now x m r t e)
  on_follower-Turns now (append_entries_request x m es) r t e =
      on_append_entries_request-Turns Backer now x m es r e
  on_follower-Turns now m r t e = ignored-Turns e

  on_candidate-Turns :
      (now : ℕ) (m : Message) (r : Raft) {r' : Raft}
      → Trusted r m
      → on_candidate now m r ≡ ok r'
      → Turns Backer r r'
  unfolding on_candidate
  on_candidate-Turns now (request_vote_response x m) r t e =
      subst (Turns Backer r) (let e' = e in cc) (one (on_request_vote_response-Turn Backer x m r t))
  on_candidate-Turns now (request_vote_request x m) r t e =
      one (on_request_vote_request-Turn Backer now x m r t e)
  on_candidate-Turns now (append_entries_request x m es) r t e =
      on_append_entries_request-Turns Backer now x m es r e
  on_candidate-Turns now m r t e = ignored-Turns e

  on_leader-Turns :
      (now : ℕ) (m : Message) (r : Raft) {r' : Raft}
      → Trusted r m
      → on_leader now m r ≡ ok r'
      → Turns Backer r r'
  unfolding on_leader
  on_leader-Turns now (append_entries_response x m) r t e =
      subst (Turns Backer r) (let e' = e in cc) (one (on_append_entries_response-Turn Backer x m r))
  on_leader-Turns now (request_vote_request x m) r t e =
      one (on_request_vote_request-Turn Backer now x m r t e)
  on_leader-Turns now (append_entries_request x m es) r t e =
      on_append_entries_request-Turns Backer now x m es r e
  on_leader-Turns now m r t e = ignored-Turns e

  dispatch-Turns :
      (role : Role) (now : ℕ) (m : Message) (r : Raft) {r' : Raft}
      → Trusted r m
      → dispatch role now m r ≡ ok r'
      → Turns Backer r r'
  unfolding dispatch
  dispatch-Turns Role.none now m r t e = absurd (ground arith)
  dispatch-Turns candidate now m r t e = on_candidate-Turns now m r t e
  dispatch-Turns follower now m r t e = on_follower-Turns now m r t e
  dispatch-Turns leader now m r t e = on_leader-Turns now m r t e

-- Process first takes over a later term, and then makes moves within that term.
take_term-Shift : (now : ℕ) (x : MessageEx) (r : Raft) → Shift r (take_term now x r)
unfolding take_term restart_election
take_term-Shift now x r = elim (Bool-cases (ltb r.state.current_term x.term)) [
  | inl later ↦
      rw (later, take_term)
        (adopt (ground arith) (ground (arith, ltb→lt r.state.current_term x.term later))
          (ground arith) (ground arith))
  | inr not_later ↦ rw (not_later, take_term) (stay refl)
]

pub take_header-Shift : (now : ℕ) (m : Message) (r : Raft) → Shift r (take_header now m r)
unfolding take_header
take_header-Shift now (request_vote_request x m) r = take_term-Shift now x r
take_header-Shift now (request_vote_response x m) r = take_term-Shift now x r
take_header-Shift now (append_entries_request x m es) r = take_term-Shift now x r
take_header-Shift now (append_entries_response x m) r = take_term-Shift now x r
take_header-Shift now (other n) r = stay (ground arith)
take_header-Shift now m r = stay refl

pub process-Turns :
    (Backer : ℕ → Type 0) (now : ℕ) (m : Message) (r : Raft) {r' : Raft}
    → Trusted Backer (take_header now m r) m
    → process now m r ≡ ok r'
    → Turns Backer (take_header now m r) r'
unfolding process
process-Turns Backer now m r t e =
    dispatch-Turns Backer (take_header now m r).state_name now m (take_header now m r) t e
