-- ===== src/Rsm.antt =====
-- miniraft/raft.h, IRsm: what the request processor needs of a replicated state machine.
pub mod Dummy
pub mod Overread
pub mod Kv
use miniraft_cpp.Prelude.{ℕ, Option, Result}
use miniraft_cpp.Messages.{LogEntry, CommandRequest, CommandResponse}

-- IRsm. `read` and `write` may change the machine and may crash.
pub record Rsm : Type 1 where
  pub Machine : Type 0
  pub last_applied : Machine → ℕ
  pub set_last_applied : ℕ → Machine → Machine
  pub read : CommandRequest → ℕ → Machine → Result (Machine × CommandResponse)
  pub write : LogEntry → ℕ → Machine → Result (Machine × Option CommandResponse)
  pub prepare : CommandRequest → LogEntry
