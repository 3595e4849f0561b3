-- ===== src/Rsm/Dummy.antt =====
-- miniraft/raft.cpp, TDummyRsm: a state machine that keeps the log and reads one entry of it.
use miniraft_cpp.Prelude.{
  ℕ, zero, suc, ◌-◌, List, [], ◌∷◌, ◌++◌, Option, none, some, ltb, leb, if◌then◌else◌, length, take,
  get_elem?, ℤ, pos, negsuc, int64, Result, ok, err, out_of_bounds, ◌>>=◌,
}
use miniraft_cpp.Prelude.Bytes.{from_bytes}
use miniraft_cpp.Messages.{LogEntry, CommandRequest, CommandResponse, message_size, log_entry_len}
use miniraft_cpp.Rsm.{Rsm}

pub record DummyRsm : Type 0 where
  pub log : List LogEntry
  pub last_applied_index : ℕ

-- memcpy of `n` bytes from a buffer: past its end the read is out of bounds.
unfoldable pub copy : ℕ → List ℕ → Result (List ℕ)
copy n bytes = if leb n (length bytes) then ok (take n bytes) else err out_of_bounds

abbrev pub empty_response : ℕ → CommandResponse
empty_response index = record { index = index; cookie = 0; error_code = 0; data_bytes = [] }

-- The entry that a read index names.
unfoldable pub entry_at : ℤ → List LogEntry → Option LogEntry
entry_at (pos zero) log = none
entry_at (pos (suc i)) log = get_elem? log i
entry_at (negsuc n) log = none

-- The two branches of TDummyRsm::Read. The size that is copied is `Len - sizeof(TMessage)`.
unfoldable pub read_entry : ℕ → Option LogEntry → DummyRsm → Result (DummyRsm × CommandResponse)
read_entry index none d = ok (d, empty_response index)
read_entry index (some e) d = copy (log_entry_len e - message_size) e.data_bytes >>= λ data_bytes.
    ok (d, record (empty_response index) { data_bytes = data_bytes })

-- TDummyRsm::Read
unfoldable pub read : CommandRequest → ℕ → DummyRsm → Result (DummyRsm × CommandResponse)
unfolding copy read_entry
read m index d = do
  bytes ← copy 8 m.data_bytes
  read_entry index (entry_at (int64 (from_bytes bytes)) d.log) d

-- TDummyRsm::Write
unfoldable pub write : LogEntry → ℕ → DummyRsm → Result (DummyRsm × Option CommandResponse)
write e index d =
    if ltb d.last_applied_index index
    then ok (record { log = d.log ++ e ∷ []; last_applied_index = index }, none)
    else ok (d, none)

-- TDummyRsm::Prepare: a new entry has the default term, 1, and no flags.
unfoldable pub prepare : CommandRequest → LogEntry
prepare m = record { term = 1; flags = 0; data_bytes = m.data_bytes }

abbrev pub dummy_rsm : Rsm
dummy_rsm = record {
  Machine = DummyRsm;
  last_applied = λ d. d.last_applied_index;
  set_last_applied = λ i d. record d { last_applied_index = i };
  read = read;
  write = write;
  prepare = prepare;
}
