-- ===== src/Raft/Timer.antt =====
-- miniraft/raft.cpp, MakeElection: when an election is due.
use miniraft_cpp.Prelude.{ℕ, ◌+◌, ◌*◌, ◌/◌, ◌^◌, ◌≤◌, ◌<◌, arith, u32, bit_xor}
use miniraft_cpp.Prelude.Xor.{bit_xor_lt}
use miniraft_cpp.Messages.{election_timeout}
use miniraft_cpp.Raft.{rand, election_delay, make_election}

-- The generator stays within its 32 bits.
rand_lt : (seed : ℕ) → seed < 2 ^ 32 → rand seed < 2 ^ 32
unfolding rand
rand_lt seed h =
    let a = bit_xor seed (u32 (seed * 2 ^ 13)) in
    let ha = bit_xor_lt 32 seed (u32 (seed * 2 ^ 13)) h (omega arith) in
    let b = bit_xor a (a / 2 ^ 17) in
    let hb = bit_xor_lt 32 a (a / 2 ^ 17) ha (omega arith) in
    bit_xor_lt 32 b (u32 (b * 2 ^ 5)) hb (omega arith)

election_delay_bounds :
    (draw : ℕ) → draw < 2 ^ 32 → (5000 ≤ election_delay draw) × (election_delay draw ≤ 10000)
unfolding election_delay
election_delay_bounds draw h = (omega arith, omega arith)

-- An election is due not before one and not after two election timeouts from now, and the seed
-- stays within 32 bits.
pub make_election_window :
    (now seed : ℕ)
    → seed < 2 ^ 32
    → (now + election_timeout ≤ (make_election now seed).0)
      × ((make_election now seed).0 ≤ now + 2 * election_timeout)
      × ((make_election now seed).1 < 2 ^ 32)
unfolding make_election
make_election_window now seed h =
    let r = rand_lt seed h in
    let d = election_delay_bounds (rand seed) r in (omega (arith, d), omega (arith, d), r)
