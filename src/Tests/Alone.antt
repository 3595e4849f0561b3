-- ===== src/Tests/Alone.antt =====
-- A key-value server on its own: client 7 sets a key.
use miniraft_cpp.Prelude.{◌≡◌, ◌++◌, [], ◌∷◌, refl, arith, Returns, none}
use miniraft_cpp.Messages
use miniraft_cpp.Messages.{CommandRequest, command_request}
use miniraft_cpp.Volatile.{new_volatile}
use miniraft_cpp.Raft.{Raft, leader}
use miniraft_cpp.Rsm.Dummy
use miniraft_cpp.Rsm.Dummy.{empty_response}
use miniraft_cpp.Rsm.Kv
use miniraft_cpp.Rsm.Kv.{Kv, kv_rsm, set_request, prepare, write}
use miniraft_cpp.Processor.{Processor}
use miniraft_cpp.Server.{inbound}
use miniraft_cpp.Server.Alone.{IsAlone, entered}
use miniraft_cpp.Server.Written.{IsIdle, inbound_write}
use miniraft_cpp.Tests.Logs.{logged, logged-IsValid}

abbrev single : Raft
single = record {
  id = 1;
  nodes = [];
  min_votes = 1;
  npeers = 0;
  nservers = 1;
  state = logged;
  volatile = record new_volatile { commit_index = 3 };
  seqno = 0;
  state_name = leader;
  seed = 31337;
  outbox = [];
}

abbrev serving : Processor Kv
serving = record {
  raft = single;
  rsm = record { h = []; last_applied_index = 3 };
  nodes = [];
  waiting = [];
  strong_waiting = [];
  waiting_state_change = [];
  write_answers = [];
  forward_cookie = 1;
  cookie_to_client = [];
  client_to_cookie = [];
  replies = [];
  forwarded = [];
}

single-IsAlone : IsAlone single
single-IsAlone = record {
  role = refl;
  nodes = refl;
  count = refl;
  followers = refl;
  valid = logged-IsValid;
  committed = refl;
  small = omega arith;
}

serving-IsIdle : IsIdle kv_rsm serving
serving-IsIdle = record {
  waiting = refl;
  strong_waiting = refl;
  waiting_state_change = refl;
  write_answers = refl;
  applied = refl;
}

abbrev command : CommandRequest
command = set_request (5 ∷ []) (6 ∷ [])

abbrev stored : Kv
stored = record { h = (5 ∷ [], 6 ∷ []) ∷ []; last_applied_index = 4 }

inbound_write_example : Returns (inbound kv_rsm 10 11 (command_request command) 7 serving) (λ q.
    (q.replies ≡ (7, empty_response 4) ∷ [])
    × (q.raft.state.log ≡ logged.log ++ entered (prepare command) single ∷ [])
    × (q.raft.volatile.commit_index ≡ 4)
    × (q.rsm ≡ stored)
    × (q.waiting ≡ [])
    × (q.write_answers ≡ []))
unfolding Kv.set_request Kv.uint16 Kv.prepare Kv.write Kv.apply Kv.kv_entry Kv.assign Dummy.copy
    Messages.is_write
inbound_write_example =
    inbound_write kv_rsm command 7 10 11 serving stored none single-IsAlone serving-IsIdle refl
      (omega arith) refl (λ i t. refl)
