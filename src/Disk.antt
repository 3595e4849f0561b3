-- ===== src/Disk.antt =====
-- miniraft/persist.cpp, TDiskState: the entries, their offsets and the fields in three files.
-- A log entry lies in the file the way its struct lies in memory, its header first.
pub mod Fstream
pub mod Layout
pub mod Entries
pub mod Lookup
pub mod Fields
pub mod Stores
pub mod Append
pub mod Calls
pub mod Restart
pub mod Refinement
pub mod Shrunk
pub mod Lost
use miniraft_cpp.Prelude.{
  ℕ, zero, suc, ◌+◌, ◌-◌, ◌*◌, ◌%◌, ◌^◌, ◌≡◌, ◌||◌, Bool, true, false, List, [], ◌∷◌, ◌++◌, Option,
  none, some, ltb, leb, ◌==◌, if◌then◌else◌, length, take, drop, ℤ, pos, negsuc, int64, u32, Result,
  ok, err, ◌>>=◌, ◌>>◌, guard, or_fail, assert_failed, null_message, out_of_bounds, runtime_error,
  aborted,
}
use miniraft_cpp.Prelude.Bytes.{from_bytes, to_bytes}
use miniraft_cpp.Messages.{LogEntry, message_size, log_entry_len}
use miniraft_cpp.Disk.Fstream.{Stream, open_stream, seek, read, write}

-- TDiskState, with its TStateFields.
pub record Disk : Type 0 where
  pub entries : Stream
  pub index : Stream
  pub state : Stream
  pub current_term : ℕ
  pub voted_for : ℕ
  pub last_log_index : ℕ
  pub last_log_term : ℕ

-- The struct of an entry, as bytes: TMessage, Term, Flags, Data.
unfoldable pub entry_bytes : LogEntry → List ℕ
entry_bytes e =
    to_bytes 4 1
    ++ to_bytes 4 (log_entry_len e)
    ++ to_bytes 8 e.term
    ++ to_bytes 8 e.flags
    ++ e.data_bytes

-- The fields of an entry, from the bytes that follow its TMessage.
unfoldable pub entry_of : List ℕ → Result LogEntry
entry_of value =
    if leb 16 (length value)
    then ok (record {
      term = from_bytes (take 8 value);
      flags = from_bytes (take 8 (drop 8 value));
      data_bytes = drop 16 value;
    })
    else err out_of_bounds

-- TDiskState::Read, then the cast to TLogEntry.
unfoldable pub read_entry : Stream → Result (Stream × LogEntry)
read_entry entries = do
  let first = read 4 entries
  type ← or_fail first.1 runtime_error
  let second = read 4 first.0
  len ← or_fail second.1 runtime_error
  guard (leb message_size (from_bytes len)) assert_failed
  let third = read (from_bytes len - message_size) second.0
  value ← or_fail third.1 runtime_error
  e ← entry_of value
  ok (third.0, e)

-- The part of TDiskState::Get that follows the read of the offset.
unfoldable pub get_at : Disk → Stream → Option (List ℕ) → Result (Disk × Option LogEntry)
get_at d index none = ok (record d { index = index }, none)
get_at d index (some offset) = do
  t ← read_entry (seek (from_bytes offset) d.entries)
  ok (record d { index = index; entries = t.0 }, some t.1)

-- TDiskState::Get: a negative index is below 1.
unfoldable pub get : ℤ → Disk → Result (Disk × Option LogEntry)
get (pos i) d =
    let slot = read 8 (seek ((i - 1) * 8 % 2 ^ 64) d.index) in
    if ltb d.last_log_index i || ltb i 1 then ok (d, none) else get_at d slot.0 slot.1
get (negsuc n) d = ok (d, none)

-- A write that must succeed.
unfoldable pub write_or_abort : List ℕ → Stream → Result Stream
write_or_abort block s = let t = write block s in guard t.good aborted >> ok t

-- TDiskState::Commit
unfoldable pub commit : Disk → Result Disk
commit d = do
  first ← write_or_abort (to_bytes 8 d.last_log_index) (seek 0 d.state)
  second ← write_or_abort (to_bytes 8 d.current_term) first
  third ← write_or_abort (to_bytes 4 d.voted_for) second
  ok (record d { state = third })

-- TDiskState::RemoveLast
unfoldable pub remove_last : Disk → Result Disk
remove_last d =
    if ltb 0 d.last_log_index
    then commit (record d { last_log_index = d.last_log_index - 1 })
    else ok d

-- tellg; -1 where the stream is bad.
unfoldable pub tell : Stream → ℕ
tell s = if s.good then s.position else 2 ^ 64 - 1

-- The offset of a new entry: where the stream stands after the last one was read, or 0.
unfoldable pub offset_after : Disk → Option LogEntry → ℕ
offset_after d none = 0
offset_after d (some e) = tell d.entries

-- The part of TDiskState::Append that follows the lookup of the last entry.
unfoldable pub append_at : ℕ → LogEntry → Disk → Result Disk
append_at offset e d = commit (record d {
  entries = write (entry_bytes e) d.entries;
  index = write (to_bytes 8 offset) (seek (d.last_log_index * 8 % 2 ^ 64) d.index);
  last_log_term = e.term;
  last_log_index = (d.last_log_index + 1) % 2 ^ 64;
})

-- TDiskState::Append
unfoldable pub append : LogEntry → Disk → Result Disk
append e d = do
  last ← get (int64 d.last_log_index) d
  append_at (offset_after last.0 last.1) e last.0

-- A field after a read into it that is not checked.
unfoldable pub field_or : ℕ → Option (List ℕ) → ℕ
field_or old none = old
field_or old (some bytes) = from_bytes bytes

-- The fields, from a state file of the right size.
unfoldable pub restore : Disk → Disk
restore d =
    let first = read 8 (seek 0 d.state) in
    let second = read 8 first.0 in
    let third = read 4 second.0 in
    record d {
      state = third.0;
      last_log_index = field_or d.last_log_index first.1;
      current_term = field_or d.current_term second.1;
      voted_for = field_or d.voted_for third.1;
    }

-- A TDiskState whose files are open, before its constructor's body.
unfoldable pub blank : List ℕ → List ℕ → List ℕ → Disk
blank entries index state = record {
  entries = open_stream entries;
  index = open_stream index;
  state = seek (length state) (open_stream state);
  current_term = 1;
  voted_for = 0;
  last_log_index = 0;
  last_log_term = 0;
}

-- `Get(LastLogIndex)->Term`, which reads an entry that must be there.
unfoldable pub last_entry_term : Disk × Option LogEntry → Result Disk
last_entry_term (d, none) = err null_message
last_entry_term (d, some e) = ok (record d { last_log_term = e.term })

-- The end of the constructor.
unfoldable pub reload_term : Disk → Result Disk
reload_term d =
    if ltb 0 d.last_log_index then get (int64 d.last_log_index) d >>= last_entry_term else ok d

-- TDiskState::TDiskState, on the contents of the three files; a file that is missing is empty.
unfoldable pub load : List ℕ → List ℕ → List ℕ → Result Disk
load entries index state =
    let d = blank entries index state in
    (if tell d.state == 20 then ok (restore d) else commit d) >>= reload_term
