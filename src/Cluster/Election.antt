-- ===== src/Cluster/Election.antt =====
-- Election safety of miniraft/raft.cpp: in every run of a cluster, a term has at most one leader.
use miniraft_cpp.Prelude.{
  ℕ, ◌+◌, ◌≤◌, ◌≡◌, ◌≢◌, refl, List, true, false, All, subst, length, arith, sym, ap, ◌∙◌,
}
use miniraft_cpp.Prelude.Dict
use miniraft_cpp.Messages.{MessageEx, RequestVoteResponse, request_vote_response}
use miniraft_cpp.State.{State}
use miniraft_cpp.Raft.{leader, new_raft}
use miniraft_cpp.Cluster.{System, Reach, boot, SentTo}
use miniraft_cpp.Cluster.Ballots.{ElectionInv, Sent}
use miniraft_cpp.Cluster.Ballots.Kept.{Won-Kept}
use miniraft_cpp.Cluster.Safety.{Reach-Advanced, Won-unique, server_nonzero, All-middle}

-- The other servers of the cluster are the nodes of each server, and no server has the id 0.
pub record IsConfigured (servers : List ℕ) (peers : ℕ → List ℕ) : Type 0 where
  pub none_zero : Dict.contains 0 servers ≡ false
  pub complete : (c : ℕ) → Dict.contains c servers ≡ true → length servers ≤ length (peers c) + 1
  pub others :
      (c : ℕ)
      → Dict.contains c servers ≡ true
      → All (λ d. (Dict.contains d servers ≡ true) × (d ≢ c)) (peers c)

pub boot-ElectionInv :
    (servers : List ℕ) (states : ℕ → State) (peers : ℕ → List ℕ)
    → IsConfigured servers peers
    → ElectionInv servers (boot states peers)
unfolding boot new_raft
boot-ElectionInv servers states peers conf c member = record {
  own = refl;
  rule = refl;
  size = conf.complete c member;
  peers = conf.others c member;
  held = ground arith;
  ahead = λ t h. ground arith;
  own_vote = λ e. absurd (ground arith);
  distinct = λ e. tt;
  backers = λ e. tt;
  won = λ e. absurd (ground arith);
  sent = tt;
}

-- In a cluster where no server has the id 0 and the nodes of each server are the other servers,
-- started from any persistent states, two servers that are leaders in the same term are the same
-- server, also where one is a leader later than the other. Messages may be lost, delayed, reordered
-- and duplicated, and servers may crash and restart from what they have persisted.
pub election_safety :
    (servers : List ℕ) (states : ℕ → State) (peers : ℕ → List ℕ) (s t : System)
    → IsConfigured servers peers
    → Reach servers (boot states peers) s
    → Reach servers s t
    → (i j : ℕ) → Dict.contains i servers ≡ true
    → Dict.contains j servers ≡ true
    → (s.node i).state_name ≡ leader
    → (t.node j).state_name ≡ leader
    → (s.node i).state.current_term ≡ (t.node j).state.current_term
    → i ≡ j
election_safety servers states peers s t conf before after i j mi mj li lj same =
    let at_s =
      Reach-Advanced servers conf.none_zero before (boot-ElectionInv servers states peers conf) in
    let at_t = Reach-Advanced servers conf.none_zero after at_s.inv in
    let won_i =
      Won-Kept (server_nonzero servers conf.none_zero i mi) at_t.kept ((at_s.inv i mi).won li) in
    Won-unique servers conf.none_zero t.ballot i j (t.node j).state.current_term (rw same at won_i)
      ((at_t.inv j mj).won lj)

-- A reply that was sent and grants a vote names whom the server has voted for.
granted-ballot :
    (servers : List ℕ) (t : System) (i d : ℕ) (x : MessageEx) (m : RequestVoteResponse)
    → ElectionInv servers t
    → Dict.contains i servers ≡ true
    → SentTo d (request_vote_response x m) (t.node i).outbox
    → m.vote_granted ≡ true
    → t.ballot i x.term ≡ d
granted-ballot servers t i d x m inv mi (before, after, out) granted =
    let sent =
      All-middle (Sent t.ballot i) before after (d, request_vote_response x m)
        (subst (All (Sent t.ballot i)) out (inv i mi).sent) in
    (sent.2 granted).1

-- In a run of a cluster where no server has the id 0 and the nodes of each server are the other
-- servers, all the replies of a server that grant a vote in one term go to the same server,
-- whatever crashes and restarts lie between them, and the vote that the server has recorded in the
-- term is the one for that server.
pub vote_once :
    (servers : List ℕ) (states : ℕ → State) (peers : ℕ → List ℕ) (t : System)
    → IsConfigured servers peers
    → Reach servers (boot states peers) t
    → (i d e : ℕ) (x y : MessageEx) (m k : RequestVoteResponse) → Dict.contains i servers ≡ true
    → SentTo d (request_vote_response x m) (t.node i).outbox
    → SentTo e (request_vote_response y k) (t.node i).outbox
    → m.vote_granted ≡ true
    → k.vote_granted ≡ true
    → x.term ≡ y.term
    → (d ≡ e) × ((t.node i).state.current_term ≡ x.term → (t.node i).state.voted_for ≡ d)
vote_once servers states peers t conf run i d e x y m k mi first second gm gk same =
    let inv =
      (Reach-Advanced servers conf.none_zero run
        (boot-ElectionInv servers states peers conf)).inv in
    let to_d = granted-ballot servers t i d x m inv mi first gm in
    let to_e = granted-ballot servers t i e y k inv mi second gk in
    (
      sym to_d ∙ ap (t.ballot i) same ∙ to_e,
      λ present. sym (inv i mi).held ∙ ap (t.ballot i) present ∙ to_d,
    )
