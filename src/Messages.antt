-- ===== src/Messages.antt =====
-- miniraft/messages.h: the message types, their headers and fields, and the tests on a message.
-- `Len` is not stored: it is the size of the struct and of the bytes in `Data`.
use miniraft_cpp.Prelude.{ℕ, ◌+◌, ◌/◌, ◌%◌, ◌*◌, Bool, ◌&&◌, List, leb, ◌==◌, length}

-- TLogEntry; `flags` is a combination of TLogEntry::EFlags.
pub record LogEntry : Type 0 where
  pub term : ℕ
  pub flags : ℕ
  pub data_bytes : List ℕ

-- TLogEntry::EStub
abbrev pub stub_flag : ℕ
stub_flag = 1

-- The fields that TMessageEx adds to TMessage.
pub record MessageEx : Type 0 where
  pub src : ℕ
  pub dst : ℕ
  pub term : ℕ
  pub seqno : ℕ

pub record RequestVoteRequest : Type 0 where
  pub last_log_index : ℕ
  pub last_log_term : ℕ
  pub candidate_id : ℕ

pub record RequestVoteResponse : Type 0 where
  pub vote_granted : Bool

pub record AppendEntriesRequest : Type 0 where
  pub prev_log_index : ℕ
  pub prev_log_term : ℕ
  pub leader_commit : ℕ
  pub leader_id : ℕ
  pub nentries : ℕ

pub record AppendEntriesResponse : Type 0 where
  pub match_index : ℕ
  pub success : Bool

pub record CommandRequest : Type 0 where
  pub flags : ℕ
  pub cookie : ℕ
  pub data_bytes : List ℕ

pub record CommandResponse : Type 0 where
  pub index : ℕ
  pub cookie : ℕ
  pub error_code : ℕ
  pub data_bytes : List ℕ

-- TMessageHolder<TMessage>: a message by its `Type`; an AppendEntries request carries its payload.
-- `other` is a message of a type that the library names and does not implement.
pub data Message : Type 0 where
  log_entry : LogEntry → Message
  request_vote_request : MessageEx → RequestVoteRequest → Message
  request_vote_response : MessageEx → RequestVoteResponse → Message
  append_entries_request : MessageEx → AppendEntriesRequest → List LogEntry → Message
  append_entries_response : MessageEx → AppendEntriesResponse → Message
  command_request : CommandRequest → Message
  command_response : CommandResponse → Message
  other : ℕ → Message

-- EMessageType
unfoldable pub message_type : Message → ℕ
message_type (log_entry e) = 1
message_type (request_vote_request x m) = 2
message_type (request_vote_response x m) = 3
message_type (append_entries_request x m es) = 4
message_type (append_entries_response x m) = 5
message_type (command_request m) = 8
message_type (command_response m) = 9
message_type (other t) = t

-- TMessageHolder::IsEx
unfoldable pub is_ex : Message → Bool
unfolding message_type
is_ex m = leb 2 (message_type m) && leb (message_type m) 5

-- The sizes that the static assertions of messages.h fix.
abbrev pub message_size : ℕ
message_size = 8

abbrev pub log_entry_size : ℕ
log_entry_size = 24

abbrev pub command_request_size : ℕ
command_request_size = 16

-- `Len` of a log entry.
abbrev pub log_entry_len : LogEntry → ℕ
log_entry_len e = log_entry_size + length e.data_bytes

-- `flags & TCommandRequest::EWrite`, and so for EStale and EConsistent.
unfoldable pub is_write : ℕ → Bool
is_write flags = flags % 2 == 1

unfoldable pub is_stale : ℕ → Bool
is_stale flags = flags / 2 % 2 == 1

unfoldable pub is_consistent : ℕ → Bool
is_consistent flags = flags / 4 % 2 == 1

-- TTimeout, in nanoseconds of the steady clock.
abbrev pub millisecond : ℕ
millisecond = 1000000

abbrev pub election_timeout : ℕ
election_timeout = 5000 * millisecond

abbrev pub rpc_timeout : ℕ
rpc_timeout = 10000 * millisecond
