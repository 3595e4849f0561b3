-- ===== src/Tests/Requests.antt =====
-- The request processor, over the state machine that keeps the log.
use miniraft_cpp.Prelude.{ℕ, ◌≡◌, refl, [], ◌∷◌, some, arith, ok, err, out_of_bounds, Returns}
use miniraft_cpp.Prelude.Dict
use miniraft_cpp.Messages
use miniraft_cpp.Messages.{LogEntry, CommandRequest, CommandResponse}
use miniraft_cpp.Volatile.{new_volatile}
use miniraft_cpp.Raft.{Raft}
use miniraft_cpp.Rsm.Dummy
use miniraft_cpp.Prelude.Bytes.{from_bytes}
use miniraft_cpp.Rsm.Dummy.{DummyRsm, dummy_rsm, empty_response, read}
use miniraft_cpp.Rsm.Overread.{read_overruns}
use miniraft_cpp.Processor.{Processor, Waiting, new_processor}
use miniraft_cpp.Processor.Requests.{forward, on_command_response, check_state_change}
use miniraft_cpp.Processor.Apply.{process_committed, process_waiting}
use miniraft_cpp.Processor.Committed.{write_all, process_committed-write_all}
use miniraft_cpp.Processor.Draining.{replies_to, process_waiting_back}
use miniraft_cpp.Processor.Cookies.{forward_response}
use miniraft_cpp.Processor.Leadership.{check_state_change_elected}
use miniraft_cpp.Tests.Run.{value}
use miniraft_cpp.Tests.Logs.{entry}
use miniraft_cpp.Tests.Election.{backed, elected}
use miniraft_cpp.Tests.Servers.{leading, following}

-- The machine that has applied two entries.
abbrev machine : DummyRsm
machine = record { log = entry 1 7 ∷ entry 1 8 ∷ []; last_applied_index = 2 }

-- A read of the entry at `i`.
abbrev read_of : ℕ → CommandRequest
read_of i = record { flags = 0; cookie = 0; data_bytes = i ∷ 0 ∷ 0 ∷ 0 ∷ 0 ∷ 0 ∷ 0 ∷ 0 ∷ [] }

read_overruns_example : read (read_of 2) 3 machine ≡ err out_of_bounds
unfolding from_bytes
read_overruns_example =
    read_overruns (read_of 2) 3 1 machine (entry 1 8) (omega arith) refl (omega arith) refl

-- The leader that has committed two entries, the second of them the stub of its election.
abbrev committing : Raft
committing = record leading {
  state = record (leading.state) {
    log = entry 1 7 ∷ record (entry 1 8) { flags = 1 } ∷ entry 2 9 ∷ [];
  };
  volatile = record (leading.volatile) { commit_index = 3 };
}

abbrev fresh : Processor DummyRsm
fresh = new_processor committing (record { log = []; last_applied_index = 0 }) (2 ∷ 3 ∷ [])

process_committed_example :
    process_committed dummy_rsm fresh
    ≡ ok (record fresh {
      rsm = record { log = entry 1 7 ∷ entry 2 9 ∷ []; last_applied_index = 3 };
      write_answers =
          record { index = 1; reply = empty_response 1 }
          ∷ record { index = 3; reply = empty_response 3 }
          ∷ [];
    })
unfolding value new_processor write_all Dummy.write
process_committed_example = process_committed-write_all dummy_rsm fresh (omega arith) (omega arith)

-- Two clients, 7 and 8, wait to read an entry that there is not.
abbrev reading : ℕ → Waiting
reading client = record { index = 2; seqno = 0; command = read_of 9; reply_to = some client }

abbrev crowded : Processor DummyRsm
crowded = record fresh { rsm = machine; waiting = reading 7 ∷ reading 8 ∷ [] }

process_waiting_back_example :
    process_waiting dummy_rsm crowded
    ≡ ok (record crowded {
      waiting = [];
      replies = (8, empty_response 2) ∷ (8, empty_response 2) ∷ [];
    })
unfolding value new_processor replies_to read from_bytes Dummy.entry_at Messages.is_write
process_waiting_back_example =
    process_waiting_back dummy_rsm crowded (reading 7 ∷ []) (reading 8) 8 (empty_response 2) refl
      refl (omega arith) refl refl refl

-- A follower of server 1.
abbrev led : Processor DummyRsm
led = record fresh {
  raft = record following { volatile = record new_volatile { leader_id = 1 } };
  nodes = 1 ∷ 3 ∷ [];
}

forward_response_example : Returns (forward (read_of 2) (some 7) led) (λ p.
    (p.forwarded ≡ (1, record (read_of 2) { cookie = 1 }) ∷ [])
    × ((on_command_response (record (empty_response 2) { cookie = 1 }) p).replies
        ≡ (7, record (empty_response 2) { cookie = 1 }) ∷ [])
    × ((on_command_response (record (empty_response 2) { cookie = 1 }) p).cookie_to_client ≡ []))
unfolding value Dict.find? new_processor
forward_response_example =
    forward_response (read_of 2) 7 led (record (empty_response 2) { cookie = 1 }) refl refl
      (omega arith) (omega arith) refl (omega arith) refl refl

-- A candidate to which client 7 has sent a request.
abbrev held_up : Processor DummyRsm
held_up = record fresh { raft = backed; nodes = 2 ∷ 3 ∷ []; waiting_state_change = reading 7 ∷ [] }

check_state_change_elected_example :
    check_state_change dummy_rsm (record held_up { raft = elected })
    ≡ ok (record held_up { raft = elected })
unfolding value new_processor elected
check_state_change_elected_example =
    check_state_change_elected dummy_rsm 3 held_up elected (λ e. cc) refl refl
