-- ===== src/Raft.antt =====
-- miniraft/raft.h and raft.cpp, TRaft: its state, its construction, the timer and the sending of
-- messages. The handlers are in the modules below.
pub mod Votes
pub mod Timer
pub mod Entries
pub mod Process
pub mod Timeout
pub mod Sending
pub mod Accepting
pub mod Replication
pub mod Ready
pub mod Serving
pub mod Handling
pub mod Returning
pub mod Ticking
pub mod Unknown
use miniraft_cpp.Prelude.{
  ℕ, zero, suc, ◌+◌, ◌-◌, ◌*◌, ◌/◌, ◌%◌, ◌^◌, ◌≡◌, List, [], ◌∷◌, ◌++◌, Bool, true, false, bit_xor,
  if◌then◌else◌, length, u32, Result, ok, err, null_node,
}
use miniraft_cpp.Prelude.Dict
use miniraft_cpp.Messages.{Message, millisecond}
use miniraft_cpp.State.{State}
use miniraft_cpp.Volatile.{Volatile, new_volatile}

-- EState
pub data Role : Type 0 where
  none candidate follower leader : Role

-- TRaft. `nodes` are the keys of Nodes in the order of iteration; `outbox` is what has been handed
-- to `INode::Send`, by destination, in order.
pub record Raft : Type 0 where
  pub id : ℕ
  pub nodes : List ℕ
  pub min_votes : ℕ
  pub npeers : ℕ
  pub nservers : ℕ
  pub state : State
  pub volatile : Volatile
  pub seqno : ℕ
  pub state_name : Role
  pub seed : ℕ
  pub outbox : List (ℕ × Message)

-- (nodes.size() + 2 + nodes.size() % 2) / 2
unfoldable pub votes_needed : ℕ → ℕ
votes_needed npeers = (npeers + 2 + npeers % 2) / 2

-- for (auto [id, _] : Nodes) m[id] = value;
unfoldable pub for_nodes : List ℕ → ℕ → Dict.Dict ℕ → Dict.Dict ℕ
for_nodes [] value m = m
for_nodes (id ∷ ids) value m = for_nodes ids value (Dict.set id value m)

-- TRaft::TRaft
unfoldable pub new_raft : State → ℕ → List ℕ → Raft
unfolding votes_needed
new_raft s node nodes = record {
  id = node;
  nodes = nodes;
  min_votes = votes_needed (length nodes);
  npeers = length nodes;
  nservers = length nodes + 1;
  state = s;
  volatile = record new_volatile { next_index = for_nodes nodes 1 [] };
  seqno = 0;
  state_name = follower;
  seed = 31337;
  outbox = [];
}

-- TRaft::Become
abbrev pub become : Role → Raft → Raft
become role r = record r { state_name = role }

-- `node->Send(message)` for a node at hand.
abbrev pub post : ℕ → Message → Raft → Raft
post id m r = record r { outbox = r.outbox ++ (id, m) ∷ [] }

-- `Nodes[dst]->Send(message)`: an unknown destination gives a null pointer.
unfoldable pub send : ℕ → Message → Raft → Result Raft
send dst m r = if Dict.contains dst r.nodes then ok (post dst m r) else err null_node

-- rand_: xorshift on 32 bits.
unfoldable pub rand : ℕ → ℕ
rand seed =
    let a = bit_xor seed (u32 (seed * 2 ^ 13)) in
    let b = bit_xor a (a / 2 ^ 17) in bit_xor b (u32 (b * 2 ^ 5))

abbrev pub uint_max : ℕ
uint_max = 2 ^ 32 - 1

-- (uint64_t)((1.0 + (double)draw / (double)UINT_MAX) * TTimeout::Election.count()), by the exact
-- quotient. It is at least 10⁻⁹ away from a whole number, or is one of 5000, 6000, ..., 10000,
-- and the rounding of doubles moves it over none of these.
unfoldable pub election_delay : ℕ → ℕ
election_delay draw = 5000 * (uint_max + draw) / uint_max

-- TRaft::MakeElection: the due time, and the next seed.
unfoldable pub make_election : ℕ → ℕ → ℕ × ℕ
unfolding rand election_delay
make_election now seed = (now + election_delay (rand seed) * millisecond, rand seed)

-- VolatileState->ElectionDue = MakeElection(now);
unfoldable pub restart_election : ℕ → Raft → Raft
restart_election now r =
    let (due, seed) = make_election now r.seed in
    record r { volatile = record (r.volatile) { election_due = due }; seed = seed }
