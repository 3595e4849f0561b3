-- ===== src/Wire/Structs.antt =====
-- miniraft/messages.h: the messages as their structs lie in memory, on a little-endian machine.
use miniraft_cpp.Prelude.{
  ℕ, List, [], ◌∷◌, ◌++◌, Bool, true, false, not, ◌==◌, leb, if◌then◌else◌, length, take, drop,
  Result, ok, ◌>>=◌, ◌>>◌, guard, out_of_bounds,
}
use miniraft_cpp.Prelude.Bytes.{from_bytes, to_bytes}
use miniraft_cpp.Messages.{
  LogEntry, MessageEx, Message, log_entry, request_vote_request, request_vote_response,
  append_entries_request, append_entries_response, command_request, command_response, other,
  message_type,
}
use miniraft_cpp.Disk.{entry_of}
use miniraft_cpp.Disk.Entries.{value_bytes}
use miniraft_cpp.Wire.{Frame, Frames, frame, no_frames, more_frames}

-- A Boolean in a field of 32 bits.
abbrev pub from_bool : Bool → ℕ
from_bool true = 1
from_bool false = 0

-- The fields of TMessageEx after those of TMessage.
unfoldable pub ex_bytes : MessageEx → List ℕ → List ℕ
ex_bytes x rest =
    to_bytes 4 x.src ++ (to_bytes 4 x.dst ++ (to_bytes 8 x.term ++ (to_bytes 8 x.seqno ++ rest)))

-- Value of a message. `Padding` is 0.
unfoldable pub value_of : Message → List ℕ
value_of (log_entry e) = value_bytes e
value_of (request_vote_request x m) = ex_bytes x (
    to_bytes 8 m.last_log_index
    ++ (to_bytes 8 m.last_log_term ++ (to_bytes 4 m.candidate_id ++ to_bytes 4 0)))
value_of (request_vote_response x m) =
    ex_bytes x (to_bytes 4 (from_bool m.vote_granted) ++ to_bytes 4 0)
value_of (append_entries_request x m es) = ex_bytes x (
    to_bytes 8 m.prev_log_index
    ++ (to_bytes 8 m.prev_log_term
        ++ (to_bytes 8 m.leader_commit ++ (to_bytes 4 m.leader_id ++ to_bytes 4 m.nentries))))
value_of (append_entries_response x m) =
    ex_bytes x (to_bytes 8 m.match_index ++ (to_bytes 4 (from_bool m.success) ++ to_bytes 4 0))
value_of (command_request m) = to_bytes 4 m.flags ++ (to_bytes 4 m.cookie ++ m.data_bytes)
value_of (command_response m) =
    to_bytes 8 m.index ++ (to_bytes 4 m.cookie ++ (to_bytes 4 m.error_code ++ m.data_bytes))
value_of (other t) = []

-- The payload of a request: its entries, each a message without a payload.
unfoldable pub entry_frames : List LogEntry → Frames
entry_frames [] = no_frames
entry_frames (e ∷ es) = more_frames (frame 1 (value_bytes e) no_frames) (entry_frames es)

unfoldable pub payload_of : Message → Frames
payload_of (log_entry e) = no_frames
payload_of (request_vote_request x m) = no_frames
payload_of (request_vote_response x m) = no_frames
payload_of (append_entries_request x m es) = entry_frames es
payload_of (append_entries_response x m) = no_frames
payload_of (command_request m) = no_frames
payload_of (command_response m) = no_frames
payload_of (other t) = no_frames

unfoldable pub encode : Message → Frame
encode m = frame (message_type m) (value_of m) (payload_of m)

-- A field of `w` bytes, and the bytes after it.
unfoldable pub field : ℕ → List ℕ → ℕ × List ℕ
field w bytes = (from_bytes (take w bytes), drop w bytes)

unfoldable pub read_ex : List ℕ → MessageEx × List ℕ
read_ex value =
    let src = field 4 value in
    let dst = field 4 src.1 in
    let term = field 8 dst.1 in
    let seqno = field 8 term.1 in
    (record { src = src.0; dst = dst.0; term = term.0; seqno = seqno.0 }, seqno.1)

-- The casts of the payload of an AppendEntries request.
unfoldable pub entries_from : Frames → Result (List LogEntry)
entries_from no_frames = ok []
entries_from (more_frames (frame type value payload) fs) = do
  e ← entry_of value
  es ← entries_from fs
  ok (e ∷ es)

-- `Len` covers the struct.
abbrev pub sized : ℕ → List ℕ → Message → Result Message
sized size value m = guard (leb size (length value)) out_of_bounds >> ok m

unfoldable pub request_vote_request_of : List ℕ → Message
request_vote_request_of value =
    let x = read_ex value in
    let last_log_index = field 8 x.1 in
    let last_log_term = field 8 last_log_index.1 in
    let candidate_id = field 4 last_log_term.1 in
    request_vote_request x.0 (record {
      last_log_index = last_log_index.0;
      last_log_term = last_log_term.0;
      candidate_id = candidate_id.0;
    })

unfoldable pub request_vote_response_of : List ℕ → Message
request_vote_response_of value =
    let x = read_ex value in
    let granted = field 4 x.1 in
    request_vote_response x.0 (record { vote_granted = not (granted.0 == 0) })

unfoldable pub append_entries_request_of : List ℕ → List LogEntry → Message
append_entries_request_of value es =
    let x = read_ex value in
    let prev_log_index = field 8 x.1 in
    let prev_log_term = field 8 prev_log_index.1 in
    let leader_commit = field 8 prev_log_term.1 in
    let leader_id = field 4 leader_commit.1 in
    let nentries = field 4 leader_id.1 in
    append_entries_request x.0
      (record {
        prev_log_index = prev_log_index.0;
        prev_log_term = prev_log_term.0;
        leader_commit = leader_commit.0;
        leader_id = leader_id.0;
        nentries = nentries.0;
      })
      es

unfoldable pub append_entries_response_of : List ℕ → Message
append_entries_response_of value =
    let x = read_ex value in
    let match_index = field 8 x.1 in
    let success = field 4 match_index.1 in
    append_entries_response x.0
      (record { match_index = match_index.0; success = not (success.0 == 0) })

unfoldable pub command_request_of : List ℕ → Message
command_request_of value =
    let flags = field 4 value in
    let cookie = field 4 flags.1 in
    command_request (record { flags = flags.0; cookie = cookie.0; data_bytes = cookie.1 })

unfoldable pub command_response_of : List ℕ → Message
command_response_of value =
    let index = field 8 value in
    let cookie = field 4 index.1 in
    let error_code = field 4 cookie.1 in
    command_response (record {
      index = index.0;
      cookie = cookie.0;
      error_code = error_code.0;
      data_bytes = error_code.1;
    })

-- The cast of a message to the struct of its type, and the read of its fields.
unfoldable pub decode : Frame → Result Message
decode (frame type value payload) =
    if type == 1
    then (entry_of value >>= λ e. ok (log_entry e))
    else if type == 2
    then sized 48 value (request_vote_request_of value)
    else if type == 3
    then sized 32 value (request_vote_response_of value)
    else if type == 4
    then (entries_from payload >>= λ es. sized 56 value (append_entries_request_of value es))
    else if type == 5
    then sized 40 value (append_entries_response_of value)
    else if type == 8
    then sized 8 value (command_request_of value)
    else if type == 9
    then sized 16 value (command_response_of value)
    else ok (other type)
