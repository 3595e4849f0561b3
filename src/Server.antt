-- ===== src/Server.antt =====
-- miniraft/net/server.cpp: what the network server calls for a message from a connection, in that order,
-- and for the passing of time. The sockets and the coroutines are not modelled.
pub mod Alone
pub mod Written
use miniraft_cpp.Prelude.{ℕ, Option, some, Result, ok, ◌>>=◌}
use miniraft_cpp.Messages.{
  Message, CommandRequest, CommandResponse, command_request, command_response,
}
use miniraft_cpp.Raft.Process.{process}
use miniraft_cpp.Raft.Timeout.{process_timeout}
use miniraft_cpp.Rsm.{Rsm}
use miniraft_cpp.Processor.{Processor}
use miniraft_cpp.Processor.Requests.{
  on_command_request, on_command_response, check_state_change, clean_up,
}
use miniraft_cpp.Processor.Apply.{process_committed, process_waiting}

module _ (m : Rsm) where
  open m use {Machine}

  -- The dispatch of InboundConnection on the type of the message; `client` is the connection's node.
  unfoldable pub on_message : ℕ → Message → ℕ → Processor Machine → Result (Processor Machine)
  on_message now (command_request c) client p = on_command_request m c (some client) p
  on_message now (command_response c) client p = ok (on_command_response c p)
  on_message now mes client p = process now mes p.raft >>= λ r. ok (record p { raft = r })

  -- Raft->ProcessTimeout(TimeSource->Now());
  unfoldable pub tick : ℕ → Processor Machine → Result (Processor Machine)
  tick now p = process_timeout now p.raft >>= λ r. ok (record p { raft = r })

  -- What follows the dispatch. The nodes are drained after it.
  unfoldable pub settle : ℕ → Processor Machine → Result (Processor Machine)
  unfolding tick
  settle now p = do
    p₁ ← tick now p
    p₂ ← check_state_change m p₁
    p₃ ← process_committed m p₂
    process_waiting m p₃

  -- One round of the loop of TRaftServer::InboundConnection; the clock is read twice.
  unfoldable pub inbound : ℕ → ℕ → Message → ℕ → Processor Machine → Result (Processor Machine)
  unfolding on_message settle
  inbound now later mes client p = on_message now mes client p >>= settle later

  -- The end of TRaftServer::InboundConnection.
  unfoldable pub disconnected : ℕ → Processor Machine → Processor Machine
  disconnected client p = clean_up client p
