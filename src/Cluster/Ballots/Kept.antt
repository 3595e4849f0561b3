-- ===== src/Cluster/Ballots/Kept.antt =====
-- Votes that are never changed: what rests on them stays true.
use miniraft_cpp.Prelude.{ℕ, ◌≡◌, ◌≢◌, ◌∙◌, List, All, All-map, arith}
use miniraft_cpp.Messages.{
  Message, request_vote_request, request_vote_response, log_entry, append_entries_request,
  append_entries_response, command_request, command_response, other,
}
use miniraft_cpp.Raft.{Raft}
use miniraft_cpp.Cluster.Ballots.{Kept, Backer, Won, Vouched, Sent, NodeInv}

pub Won-Kept :
    {servers : List ℕ} {n n' : ℕ → ℕ → ℕ} {c t : ℕ}
    → c ≢ 0
    → Kept n n'
    → Won servers n c t
    → Won servers n' c t
Won-Kept {n} {n'} {c} {t} nonzero k w = record {
  quorum = w.quorum;
  distinct = w.distinct;
  within = w.within;
  voted =
      All-map (λ v. n v t ≡ c) (λ v. n' v t ≡ c) w.quorum (λ v e. ground (arith, k v t)) w.voted;
  majority = w.majority;
}

pub Backer-kept :
    (servers : List ℕ) (n n' : ℕ → ℕ → ℕ) (c t : ℕ) (vs : List ℕ)
    → c ≢ 0
    → Kept n n'
    → All (Backer servers n c t) vs
    → All (Backer servers n' c t) vs
Backer-kept servers n n' c t vs nonzero k =
    All-map (Backer servers n c t) (Backer servers n' c t) vs
      (λ v b. (b.0, b.1, ground (arith, k v t, b.2)))

pub Vouched-Kept :
    (n n' : ℕ → ℕ → ℕ) (c d : ℕ) (m : Message)
    → d ≢ 0
    → Kept n n'
    → Vouched n c d m
    → Vouched n' c d m
Vouched-Kept n n' c d (request_vote_response x m) nonzero k v =
    λ g. let (s, b) = v g in (s, ground (arith, k c x.term))
Vouched-Kept n n' c d (request_vote_request x m) nonzero k v = v
Vouched-Kept n n' c d (log_entry e) nonzero k v = tt
Vouched-Kept n n' c d (append_entries_request x m es) nonzero k v = tt
Vouched-Kept n n' c d (append_entries_response x m) nonzero k v = tt
Vouched-Kept n n' c d (command_request m) nonzero k v = tt
Vouched-Kept n n' c d (command_response m) nonzero k v = tt
Vouched-Kept n n' c d (other i) nonzero k v = tt

pub Sent-kept :
    (n n' : ℕ → ℕ → ℕ) (c : ℕ) (out : List (ℕ × Message))
    → Kept n n'
    → All (Sent n c) out
    → All (Sent n' c) out
Sent-kept n n' c out k =
    All-map (Sent n c) (Sent n' c) out (λ e s. (s.0, s.1, Vouched-Kept n n' c e.0 e.1 s.1 k s.2))

-- The other servers are not affected.
pub NodeInv-Kept :
    {servers : List ℕ} {n n' : ℕ → ℕ → ℕ} {c : ℕ} {r : Raft}
    → c ≢ 0
    → Kept n n'
    → ((t : ℕ) → n' c t ≡ n c t)
    → NodeInv servers n c r
    → NodeInv servers n' c r
NodeInv-Kept {servers} {n} {n'} {c} {r} nonzero k same v = record {
  own = v.own;
  rule = v.rule;
  size = v.size;
  peers = v.peers;
  held = same r.state.current_term ∙ v.held;
  ahead = λ t h. same t ∙ v.ahead t h;
  own_vote = v.own_vote;
  distinct = v.distinct;
  backers =
      λ e. Backer-kept servers n n' c r.state.current_term r.volatile.votes nonzero k (v.backers e);
  won = λ e. Won-Kept nonzero k (v.won e);
  sent = Sent-kept n n' c r.outbox k v.sent;
}
