-- ===== src/Rsm/Overread.antt =====
-- miniraft/raft.cpp, TDummyRsm::Read: the size of the copy from a log entry.
use miniraft_cpp.Prelude.{
  ℕ, List, suc, ◌+◌, ◌-◌, ◌<◌, ◌≤◌, ◌^◌, ◌≡◌, refl, some, leb, le→leb, false, lt→ltb, arith, take,
  get_elem?, length, ok, err, out_of_bounds, int64,
}
use miniraft_cpp.Messages.{LogEntry, CommandRequest}
use miniraft_cpp.Prelude.Bytes.{from_bytes}
use miniraft_cpp.Rsm.Dummy.{DummyRsm, read, read_entry, copy, entry_at}

copied : (bytes : List ℕ) → 8 ≤ length bytes → copy 8 bytes ≡ ok (take 8 bytes)
unfolding copy
copied bytes h = rw (le→leb 8 (length bytes) h) refl

entry_named :
    (bytes : List ℕ) (i : ℕ) (d : DummyRsm) (e : LogEntry)
    → from_bytes bytes ≡ suc i
    → suc i < 2 ^ 63
    → get_elem? d.log i ≡ some e
    → entry_at (int64 (from_bytes bytes)) d.log ≡ some e
unfolding entry_at
entry_named bytes i d e named small at_i = rw (named, lt→ltb (suc i) (2 ^ 63) small) at_i

read_entry_overruns :
    (index : ℕ) (d : DummyRsm) (e : LogEntry) → read_entry index (some e) d ≡ err out_of_bounds
unfolding read_entry copy
read_entry_overruns index d e =
    let past : leb (24 + length e.data_bytes - 8) (length e.data_bytes) ≡ false = ground arith in
    rw past refl

-- A read of an index that the machine's log has always copies past the end of the entry's data. The
-- request has the 8 bytes of the index, and the index is below 2^63.
pub read_overruns :
    (c : CommandRequest) (index i : ℕ) (d : DummyRsm) (e : LogEntry)
    → 8 ≤ length c.data_bytes
    → from_bytes (take 8 c.data_bytes) ≡ suc i
    → suc i < 2 ^ 63
    → get_elem? d.log i ≡ some e
    → read c index d ≡ err out_of_bounds
unfolding read
read_overruns c index i d e long named small at_i =
    rw (copied c.data_bytes long, entry_named (take 8 c.data_bytes) i d e named small at_i)
      (read_entry_overruns index d e)
