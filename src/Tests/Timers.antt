-- ===== src/Tests/Timers.antt =====
-- The election timer, from the seed of a new server.
use miniraft_cpp.Prelude.{◌+◌, ◌*◌, ◌≤◌, ◌<◌, ◌^◌, arith}
use miniraft_cpp.Messages.{election_timeout}
use miniraft_cpp.Raft.{make_election}
use miniraft_cpp.Raft.Timer.{make_election_window}

make_election_window_example :
    (7 + election_timeout ≤ (make_election 7 31337).0)
    × ((make_election 7 31337).0 ≤ 7 + 2 * election_timeout)
    × ((make_election 7 31337).1 < 2 ^ 32)
make_election_window_example = make_election_window 7 31337 (omega arith)
