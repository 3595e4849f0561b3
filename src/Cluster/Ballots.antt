-- ===== src/Cluster/Ballots.antt =====
-- The invariant of elections: what votes stand behind a candidate, a leader and a message.
pub mod Kept
pub mod Quiet
pub mod Keep
pub mod Moves
use miniraft_cpp.Prelude.{ℕ, ◌+◌, ◌≤◌, ◌<◌, ◌≡◌, ◌≢◌, List, Bool, true, All, length}
use miniraft_cpp.Prelude.Dict
use miniraft_cpp.Prelude.Sets.{Distinct, Within}
use miniraft_cpp.Messages.{Message, request_vote_request, request_vote_response}
use miniraft_cpp.Raft.{Raft, candidate, leader, votes_needed}
use miniraft_cpp.Cluster.{System}

-- Votes that were given are never changed.
abbrev pub Kept : (ℕ → ℕ → ℕ) → (ℕ → ℕ → ℕ) → Type 0
Kept n n' = (v t : ℕ) → n v t ≢ 0 → n' v t ≡ n v t

-- Another server of the cluster that has voted for `c` in term `t`.
abbrev pub Backer : List ℕ → (ℕ → ℕ → ℕ) → ℕ → ℕ → ℕ → Type 0
Backer servers n c t v = (Dict.contains v servers ≡ true) × (v ≢ c) × (n v t ≡ c)

-- A majority of the servers has voted for `c` in term `t`.
pub record Won (servers : List ℕ) (n : ℕ → ℕ → ℕ) (c t : ℕ) : Type 0 where
  pub quorum : List ℕ
  pub distinct : Distinct quorum
  pub within : Within quorum servers
  pub voted : All (λ v. n v t ≡ c) quorum
  pub majority : length servers < length quorum + length quorum

-- What a message of `c` to `d` says about votes is true.
abbrev pub Vouched : (ℕ → ℕ → ℕ) → ℕ → ℕ → Message → Type 0
Vouched n c d (request_vote_response x m) = m.vote_granted ≡ true → (x.src ≡ c) × (n c x.term ≡ d)
Vouched n c d (request_vote_request x m) = (x.src ≡ c) × (m.candidate_id ≡ c)
Vouched n c d _ = Unit

abbrev pub Sent : (ℕ → ℕ → ℕ) → ℕ → ℕ × Message → Type 0
Sent n c e = (e.0 ≢ c) × (e.0 ≢ 0) × Vouched n c e.0 e.1

pub record NodeInv (servers : List ℕ) (n : ℕ → ℕ → ℕ) (c : ℕ) (r : Raft) : Type 0 where
  pub own : r.id ≡ c
  pub rule : r.min_votes ≡ votes_needed (length r.nodes)
  pub size : length servers ≤ length r.nodes + 1
  pub peers : All (λ d. (Dict.contains d servers ≡ true) × (d ≢ c)) r.nodes
  pub held : n c r.state.current_term ≡ r.state.voted_for
  pub ahead : (t : ℕ) → r.state.current_term < t → n c t ≡ 0
  pub own_vote : r.state_name ≡ candidate → r.state.voted_for ≡ c
  pub distinct : r.state_name ≡ candidate → Distinct r.volatile.votes
  pub backers :
      r.state_name ≡ candidate → All (Backer servers n c r.state.current_term) r.volatile.votes
  pub won : r.state_name ≡ leader → Won servers n c r.state.current_term
  pub sent : All (Sent n c) r.outbox

-- Every server of the system keeps the invariant.
abbrev pub ElectionInv : List ℕ → System → Type 0
ElectionInv servers s =
    (c : ℕ) → Dict.contains c servers ≡ true → NodeInv servers s.ballot c (s.node c)
