-- ===== src/Cluster/Ballots/Quiet.antt =====
-- The messages that carry no vote keep the invariant of elections.
use miniraft_cpp.Prelude.{ℕ, ◌≡◌, ◌≢◌, subst, ◌∙◌, List, true, false}
use miniraft_cpp.Prelude.Dict
use miniraft_cpp.Prelude.Sets.{All-contains}
use miniraft_cpp.Messages.{
  Message, request_vote_request, request_vote_response, log_entry, append_entries_request,
  append_entries_response, command_request, command_response, other,
}
use miniraft_cpp.Raft.{Raft}
use miniraft_cpp.Cluster.Turn.{Quiet, IsQuiet}
use miniraft_cpp.Cluster.Ballots.{Vouched, Sent, NodeInv}

module _ (servers : List ℕ) (c : ℕ) (none_zero : Dict.contains 0 servers ≡ false) where
  pub peer :
      (r : Raft) (n : ℕ → ℕ → ℕ) (d : ℕ)
      → NodeInv servers n c r
      → Dict.contains d r.nodes ≡ true
      → (d ≢ c) × (d ≢ 0)
  peer r n d v known =
      let (member, not_self) =
        All-contains (λ d. (Dict.contains d servers ≡ true) × (d ≢ c)) d r.nodes v.peers known in
      (
        not_self,
        λ zero_id. cc (none_zero, subst (λ d. Dict.contains d servers ≡ true) zero_id member),
      )

  Quiet-Vouched : (n : ℕ → ℕ → ℕ) (id d : ℕ) (m : Message) → id ≡ c → IsQuiet id m → Vouched n c d m
  Quiet-Vouched n id d (request_vote_response x m) e q = λ g. cc
  Quiet-Vouched n id d (request_vote_request x m) e q = (q.0 ∙ e, q.1 ∙ e)
  Quiet-Vouched n id d (log_entry l) e q = tt
  Quiet-Vouched n id d (append_entries_request x m es) e q = tt
  Quiet-Vouched n id d (append_entries_response x m) e q = tt
  Quiet-Vouched n id d (command_request m) e q = tt
  Quiet-Vouched n id d (command_response m) e q = tt
  Quiet-Vouched n id d (other k) e q = tt

  pub Quiet-Sent :
      (r : Raft) (n n' : ℕ → ℕ → ℕ) (e : ℕ × Message)
      → NodeInv servers n c r
      → Quiet r e
      → Sent n' c e
  Quiet-Sent r n n' e v q =
      let (a, z) = peer r n e.0 v q.0 in (a, z, Quiet-Vouched n' r.id e.0 e.1 v.own q.1)
