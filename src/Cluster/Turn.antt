-- ===== src/Cluster/Turn.antt =====
-- What a step of a server can do to its vote, its role and what it has sent: the abstract moves of
-- an election, which the handlers are shown to make.
use miniraft_cpp.Prelude.{ℕ, ◌+◌, ◌≤◌, ◌<◌, ◌≡◌, ◌⊎◌, List, [], ◌∷◌, ◌++◌, true, false, length, All}
use miniraft_cpp.Prelude.Dict
use miniraft_cpp.Messages.{
  Message, MessageEx, RequestVoteResponse, request_vote_request, request_vote_response,
}
use miniraft_cpp.Raft.{Raft, candidate, follower, leader}

-- A message that carries no vote; a request for one names its sender as the candidate.
abbrev pub IsQuiet : ℕ → Message → Type 0
IsQuiet c (request_vote_response x m) = m.vote_granted ≡ false
IsQuiet c (request_vote_request x m) = (x.src ≡ c) × (m.candidate_id ≡ c)
IsQuiet c _ = Unit

abbrev pub Quiet : Raft → ℕ × Message → Type 0
Quiet r e = (Dict.contains e.0 r.nodes ≡ true) × IsQuiet r.id e.1

pub record Same (r r' : Raft) : Type 0 where
  pub id : r'.id ≡ r.id
  pub nodes : r'.nodes ≡ r.nodes
  pub min_votes : r'.min_votes ≡ r.min_votes
  pub outbox : r'.outbox ≡ r.outbox

-- A move within a term. `Backer v` says that `v` has voted for the server in this term.
pub data Turn (Backer : ℕ → Type 0) (r r' : Raft) : Type 0 where
  idle :
      (news : List (ℕ × Message))
      → r'.id ≡ r.id
      → r'.nodes ≡ r.nodes
      → r'.min_votes ≡ r.min_votes
      → r'.state.current_term ≡ r.state.current_term
      → r'.state.voted_for ≡ r.state.voted_for
      → ((r'.state_name ≡ r.state_name) × (r'.volatile.votes ≡ r.volatile.votes))
        ⊎ (r'.state_name ≡ follower)
      → r'.outbox ≡ r.outbox ++ news
      → All (Quiet r) news
      → Turn Backer r r'
  grant :
      (d : ℕ) (x : MessageEx) (m : RequestVoteResponse)
      → r'.id ≡ r.id
      → r'.nodes ≡ r.nodes
      → r'.min_votes ≡ r.min_votes
      → r'.state.current_term ≡ r.state.current_term
      → (r.state.voted_for ≡ 0) ⊎ (r.state.voted_for ≡ d)
      → r'.state.voted_for ≡ d
      → r'.state_name ≡ r.state_name
      → r'.volatile.votes ≡ r.volatile.votes
      → r'.outbox ≡ r.outbox ++ (d, request_vote_response x m) ∷ []
      → x.src ≡ r.id
      → x.term ≡ r.state.current_term
      → Dict.contains d r.nodes ≡ true
      → Turn Backer r r'
  backed :
      (v : ℕ)
      → Same r r'
      → r'.state.current_term ≡ r.state.current_term
      → r'.state.voted_for ≡ r.state.voted_for
      → r'.state_name ≡ r.state_name
      → r'.volatile.votes ≡ Dict.insert v r.volatile.votes
      → Backer v
      → Turn Backer r r'
  win :
      Same r r'
      → r'.state.current_term ≡ r.state.current_term
      → r'.state.voted_for ≡ r.state.voted_for
      → r.state_name ≡ candidate
      → r.min_votes ≤ length r.volatile.votes + 1
      → r'.state_name ≡ leader
      → Turn Backer r r'

-- A move to a later term, or none.
pub data Shift (r r' : Raft) : Type 0 where
  stay : r' ≡ r → Shift r r'
  adopt :
      Same r r'
      → r.state.current_term < r'.state.current_term
      → r'.state.voted_for ≡ 0
      → r'.state_name ≡ follower
      → Shift r r'
  campaign :
      Same r r'
      → r.state.current_term < r'.state.current_term
      → r'.state.voted_for ≡ r.id
      → r'.state_name ≡ candidate
      → r'.volatile.votes ≡ []
      → Shift r r'

-- Several moves within a term.
pub data Turns (Backer : ℕ → Type 0) (r : Raft) : Raft → Type 0 where
  done : Turns Backer r r
  more : {s t : Raft} → Turns Backer r s → Turn Backer s t → Turns Backer r t
