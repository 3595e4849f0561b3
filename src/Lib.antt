-- ===== src/Lib.antt =====
-- A model of MiniRaft-CPP, a Raft library in C++ (miniraft/), and theorems on it.
--
-- The program. A server (TRaft, miniraft/raft.h and raft.cpp) keeps a persistent state (IState,
-- miniraft/state.h) and a volatile one (TVolatileState). It is driven by messages (Process) and by the
-- clock (ProcessTimeout), and sends messages (miniraft/messages.h) to other servers. Clients' commands go
-- to a request processor (TRequestProcessor), which appends them to the server's log, applies what is
-- committed to a state machine (IRsm), and answers, or forwards them to the leader.
--
-- The files. Each function is a definition with the function's name in lower case.
-- - Messages: messages.h. A message is a constructor with its header and fields; the payload of a request
--   is its list of log entries.
-- - State: state.h, TState and LogTerm. State/Log has laws of the log, State/Replace the loop of
--   OnAppendEntries that replaces entries, State/Terms what leaves term and vote alone, State/Matching the
--   log matching of two logs.
-- - Disk: persist.cpp and persist.h, TDiskState on the contents of its three files. Disk/Fstream is the
--   std::fstream of the standard library; Disk/Layout, Disk/Entries, Disk/Lookup and Disk/Fields are about
--   what lies in the files, Disk/Stores, Disk/Append, Disk/Calls and Disk/Restart about the operations,
--   Disk/Refinement about all of them against TState, Disk/Shrunk and Disk/Lost about the limits of that.
-- - Volatile: TVolatileState. Volatile/Quorum is about the order statistic that CommitAdvance reads,
--   Volatile/Commit about what it commits.
-- - Raft: TRaft and its timer, which Raft/Timer is about. Raft/Votes and Raft/Entries have the handlers
--   and the messages of the two calls, Raft/Process and Raft/Timeout the two entry points with Append and ApproveRead. Raft/Sending,
--   Raft/Accepting and Raft/Replication are about the way of an entry from a leader to a follower,
--   Raft/Ready and Raft/Serving about what a leader knows of its followers, Raft/Handling, Raft/Returning,
--   Raft/Ticking and Raft/Unknown about the calls that return and those that do not.
-- - Cluster: servers that exchange messages, as a step relation. Cluster/Turn says what a call may do to
--   an election, the files Cluster/Sound* that the calls do no more, Cluster/Ballots and
--   Cluster/Safety have the invariant, Cluster/Election the safety of elections. Cluster/Logs has the
--   invariant of the logs, the files Cluster/Logs/* that the calls keep it, Cluster/Logs/Runs the runs
--   on which it holds, and Cluster/Logs/Agreement what follows.
-- - Rsm: IRsm as a record of operations. Rsm/Dummy has TDummyRsm, Rsm/Overread is about its Read. Rsm/Kv
--   has the key-value store of examples/kv.cpp with the bytes of its client's commands, Rsm/Kv/Commands what
--   these do.
-- - Processor: TRequestProcessor. Processor/Requests has what clients and other servers call,
--   Processor/Apply has ProcessCommitted and ProcessWaiting; the other files are about these.
-- - Server: the calls of miniraft/net/server.cpp for a message. Server/Alone and Server/Written are about a
--   server without nodes.
-- - Wire: messages as bytes, TMessageWriter and TMessageReader of miniraft/net/server.cpp. Wire/Structs has
--   the structs of messages.h, Wire/Sockets what the sockets are relied on for; Wire/Transfer, Wire/Fields,
--   Wire/Decoded and Wire/Exchange are about the way of a message from one server to another, Wire/Segments about a
--   connection that cuts it.
-- - Node: TNode of miniraft/net/server.cpp, its queue and its two coroutines, as a step relation. Node/Order
--   and Node/Drained are about the order of the messages and the end of a drain.
-- - Prelude has what all share, and Tests the runs on concrete inputs.
--
-- How it is modelled. A call takes the server and returns it, or a fault where the code fails an
-- assertion, uses a null pointer, reads out of bounds or throws. `outbox`, `replies` and `forwarded` are
-- what was handed to INode::Send. A map is an association list in the order of iteration; a read of a
-- missing key adds it. Numbers are natural numbers, with the wrap-around of 64 and 32 bits, and the
-- passage through int, written out where the code computes with them. Time is in nanoseconds and does not
-- overflow. Loops are structural; those that are not run on fuel: the one that shortens the log on the
-- length of the log, which each round reduces, and those that drain a queue on the length of the queue.
-- TMessageReader::Read runs on fuel for the depth of the payload, 2 for every message of the library.
--
-- What is assumed. The state of a server is TState, and it survives a crash as it is. What is written to
-- a file is what is read from it later, also by another process. A read of a socket gives the bytes that
-- have arrived, as many as it is asked for. std::sort gives the sorted
-- permutation. The double of MakeElection is taken exactly. pop_back of an empty vector, which the code
-- does not reach, leaves it empty. The payload of a request holds log entries. A server of a cluster
-- starts no election when its term counter would wrap. A message that is shorter than the struct of its
-- type is a fault, where the code would read past its end. LogTerm is 0 where LastLogIndex is past the
-- end of the log, which no valid state has.
--
-- What is not modelled: the accept loop and the debug output of the network server, the other examples,
-- files that cannot be opened, and a crash between two writes to the files. A machine is little-endian.
mod Prelude
pub mod Messages
pub mod State
pub mod Volatile
pub mod Raft
pub mod Cluster
pub mod Rsm
pub mod Processor
pub mod Server
pub mod Disk
pub mod Wire
pub mod Node
mod Tests
