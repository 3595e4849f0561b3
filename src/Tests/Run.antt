-- ===== src/Tests/Run.antt =====
-- What the tests evaluate with.
use miniraft_cpp.Prelude.{Result, ok, err}
use miniraft_cpp.Prelude.Dict
use miniraft_cpp.Messages
use miniraft_cpp.State
use miniraft_cpp.State.Replace
use miniraft_cpp.Volatile
use miniraft_cpp.Raft
use miniraft_cpp.Raft.Votes
use miniraft_cpp.Raft.Entries
use miniraft_cpp.Raft.Process
use miniraft_cpp.Raft.Timeout
use miniraft_cpp.Cluster

-- The value of a call that returns. To unfold it is to unfold all of the server.
unfoldable pub value {ℓ} : {A : Type ℓ} → A → Result A → A
unfolding Dict.contains Dict.insert Dict.get_or Dict.set Dict.touch Dict.values Messages.is_ex
    State.new_state State.append State.remove_last State.get State.log_term State.settled_term
    Replace.remove_above Replace.put_entry Replace.put_entries Volatile.commit_advance
    Volatile.quorum_index Volatile.vote Raft.new_raft Raft.send Raft.for_nodes Raft.votes_needed
    Raft.rand Raft.election_delay Raft.make_election Raft.restart_election
    Votes.on_request_vote_request Votes.on_request_vote_response Votes.create_vote
    Entries.on_append_entries_request Entries.on_append_entries_response Entries.payload
    Entries.prev_index Entries.last_index Entries.entries_request Entries.count_request
    Entries.create_append_entries Process.on_follower Process.on_candidate Process.on_leader
    Process.take_term Process.take_header Process.dispatch Process.process Timeout.follower_timeout
    Timeout.ask_vote Timeout.candidate_timeout Timeout.is_due Timeout.after_test Timeout.mark_sent
    Timeout.heartbeat Timeout.heartbeats Timeout.leader_timeout Timeout.start_election
    Timeout.maybe_start_election Timeout.become_leader Timeout.count_votes Timeout.role_timeout
    Timeout.process_timeout Timeout.append_entry Timeout.approve_read Cluster.boot Cluster.restarted
    Process.header Entries.matches_previous Entries.take_entries Entries.follow Entries.batch_end
value d (ok r) = r
value d (err e) = d
