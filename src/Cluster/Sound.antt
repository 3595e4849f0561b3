-- ===== src/Cluster/Sound.antt =====
-- The handlers of miniraft/raft.cpp make moves of an election, and no others.
use miniraft_cpp.Prelude.{
  ℕ, ◌≡◌, refl, sym, subst, ◌∙◌, ◌⊎◌, inl, inr, List, [], ◌∷◌, true, false, ◌&&◌, ltb, ◌==◌, arith,
  ok, Bool-cases,
}
use mathlib.Core.List.{append-nil}
use miniraft_cpp.Prelude.Dict
use miniraft_cpp.Messages.{
  LogEntry, Message, MessageEx, RequestVoteRequest, RequestVoteResponse, AppendEntriesRequest,
  AppendEntriesResponse,
}
use miniraft_cpp.State.{State}
use miniraft_cpp.State.Terms.{put_entries-SameBallot}
use miniraft_cpp.Volatile.{vote, commit_advance}
use miniraft_cpp.Raft.{Raft, follower, send, post, restart_election}
use miniraft_cpp.Raft.Votes.{
  accepts, grant, on_request_vote_request, on_request_vote_response, vote_reply,
}
use miniraft_cpp.Raft.Entries.{
  on_append_entries_request, on_append_entries_response, follow, take_entries, entries_reply,
  Outcome, advance, retreat,
}
use miniraft_cpp.Cluster.Turn.{Turn, Same, IsQuiet, Turns, done, more}

-- Inversion of a send that does not crash.
pub send-ok :
    (d : ℕ) (m : Message) (r : Raft) {r' : Raft}
    → send d m r ≡ ok r'
    → (Dict.contains d r.nodes ≡ true) × (post d m r ≡ r')
unfolding send
send-ok d m r e = elim (Bool-cases (Dict.contains d r.nodes)) [
  | inl known ↦ let e' = rw (known, send) at e in (known, cc)
  | inr unknown ↦ let e' = rw (unknown, send) at e in cc
]

accepts-vote :
    (m : RequestVoteRequest) (s : State)
    → accepts m s ≡ true
    → (s.voted_for ≡ 0) ⊎ (s.voted_for ≡ m.candidate_id)
unfolding accepts
accepts-vote m s h = ground arith

module _ (Backer : ℕ → Type 0) where
  -- Nothing that an election looks at changes.
  pub calm :
      {r r' : Raft}
      → Same r r'
      → r'.state.current_term ≡ r.state.current_term
      → r'.state.voted_for ≡ r.state.voted_for
      → ((r'.state_name ≡ r.state_name) × (r'.volatile.votes ≡ r.volatile.votes))
        ⊎ (r'.state_name ≡ follower)
      → Turn Backer r r'
  calm {r} s t v role =
      Turn.idle [] s.id s.nodes s.min_votes t v role (s.outbox ∙ sym (append-nil r.outbox)) tt

  pub still : (r : Raft) → Turn Backer r r
  still r =
      calm (record { id = refl; nodes = refl; min_votes = refl; outbox = refl }) refl refl
        (inl (refl, refl))

  -- One more message, that carries no vote.
  pub post-Turn :
      (d : ℕ) (m : Message) (r : Raft)
      → Dict.contains d r.nodes ≡ true
      → IsQuiet r.id m
      → Turn Backer r (post d m r)
  post-Turn d m r known q =
      Turn.idle ((d, m) ∷ []) refl refl refl refl refl (inl (refl, refl)) refl ((known, q), tt)

  refuse-Turn :
      (x : MessageEx) (r : Raft) {r' : Raft}
      → send x.src (vote_reply r x false) r ≡ ok r'
      → Turn Backer r r'
  refuse-Turn x r e =
      let (known, sent) = send-ok x.src (vote_reply r x false) r e in
      subst (Turn Backer r) sent (post-Turn x.src (vote_reply r x false) r known refl)

  grant-Turn :
      (now : ℕ) (x : MessageEx) (m : RequestVoteRequest) (r : Raft) {r' : Raft}
      → m.candidate_id ≡ x.src
      → accepts m r.state ≡ true
      → send x.src (vote_reply r x true) (grant now m r) ≡ ok r'
      → Turn Backer r r'
  unfolding grant restart_election
  grant-Turn now x m r honest yes_vote e =
      let (known, sent) = send-ok x.src (vote_reply r x true) (grant now m r) e in
      subst (Turn Backer r) sent (
        Turn.grant x.src _ _ refl refl refl refl (rw honest at (accepts-vote m r.state yes_vote))
          honest refl refl refl refl refl known)

  pub on_request_vote_request-Turn :
      (now : ℕ) (x : MessageEx) (m : RequestVoteRequest) (r : Raft) {r' : Raft}
      → m.candidate_id ≡ x.src
      → on_request_vote_request now x m r ≡ ok r'
      → Turn Backer r r'
  unfolding on_request_vote_request
  on_request_vote_request-Turn now x m r {r'} honest e =
      elim (Bool-cases (ltb x.term r.state.current_term)) [
        | inl late ↦ refuse-Turn x r (rw (late, on_request_vote_request) at e)
        | inr timely ↦
            let e₁ = rw (timely, on_request_vote_request) at e in
            elim (Bool-cases (x.term == r.state.current_term)) [
              | inr future ↦ subst (Turn Backer r) (let e₂ = rw future at e₁ in cc) (still r)
              | inl present ↦
                  let e₂ = rw present at e₁ in
                  elim (Bool-cases (accepts m r.state)) [
                    | inl granted ↦ grant-Turn now x m r honest granted (rw granted at e₂)
                    | inr refused ↦ refuse-Turn x r (rw refused at e₂)
                  ]
            ]
      ]

  pub on_request_vote_response-Turn :
      (x : MessageEx) (m : RequestVoteResponse) (r : Raft)
      → (m.vote_granted ≡ true → x.term ≡ r.state.current_term → Backer x.src)
      → Turn Backer r (on_request_vote_response x m r)
  unfolding on_request_vote_response vote
  on_request_vote_response-Turn x m r trust =
      elim (Bool-cases (m.vote_granted && x.term == r.state.current_term)) [
        | inl counted ↦
            rw (counted, on_request_vote_response)
              (Turn.backed x.src
                (record { id = refl; nodes = refl; min_votes = refl; outbox = refl }) refl refl refl
                refl (trust (ground arith) (ground arith)))
        | inr ignored ↦ rw (ignored, on_request_vote_response) (still r)
      ]

  follow-Turn :
      (now : ℕ) (x : MessageEx) (m : AppendEntriesRequest) (es : List LogEntry) (r : Raft)
      → Turn Backer r (follow now m (take_entries m es r.volatile.commit_index r.state) r)
  unfolding follow take_entries restart_election
  follow-Turn now x m es r =
      let b = put_entries-SameBallot m.prev_log_index es r.state in
      calm (record { id = refl; nodes = refl; min_votes = refl; outbox = refl }) (ground (arith, b))
        (ground (arith, b)) (inr refl)

  pub on_append_entries_request-Turns :
      (now : ℕ) (x : MessageEx) (m : AppendEntriesRequest) (es : List LogEntry) (r : Raft)
      {r' : Raft}
      → on_append_entries_request now x m es r ≡ ok r'
      → Turns Backer r r'
  unfolding on_append_entries_request
  on_append_entries_request-Turns now x m es r {r'} e =
      elim (Bool-cases (ltb x.term r.state.current_term)) [
        | inl late ↦
            let (known, sent) =
              send-ok x.src (entries_reply r x 0 false) r
                (rw (late, on_append_entries_request) at e) in
            subst (Turns Backer r) sent
              (more done (post-Turn x.src (entries_reply r x 0 false) r known tt))
        | inr timely ↦
            let e₁ = rw (timely, on_append_entries_request) at e in
            elim (Bool-cases (x.term == r.state.current_term)) [
              | inr future ↦ let e₂ = rw future at e₁ in cc
              | inl present ↦ accepted (rw present at e₁)
            ]
      ]
    where
      out : Outcome
      out = take_entries m es r.volatile.commit_index r.state

      reply : Message
      reply = entries_reply r x out.match_index out.success

      accepted : send x.src reply (follow now m out r) ≡ ok r' → Turns Backer r r'
      accepted e₂ =
          let (known, sent) = send-ok x.src reply (follow now m out r) e₂ in
          subst (Turns Backer r) sent (
            more (more done (follow-Turn now x m es r))
              (post-Turn x.src reply (follow now m out r) known tt))

  pub on_append_entries_response-Turn :
      (x : MessageEx) (m : AppendEntriesResponse) (r : Raft)
      → Turn Backer r (on_append_entries_response x m r)
  unfolding on_append_entries_response advance retreat commit_advance
  on_append_entries_response-Turn x m r =
      calm (ground arith) (ground arith) (ground arith) (inl (ground arith, ground arith))
