-- ===== src/Disk/Lost.antt =====
-- miniraft/persist.cpp: the constructor of TDiskState on files that lost their ends. The code has
-- no validation (`TODO: read all an validate`).
use miniraft_cpp.Prelude.{
  ℕ, ◌-◌, ◌*◌, ◌%◌, ◌^◌, ◌≤◌, ◌<◌, ◌≡◌, refl, ap, sym, ◌∙◌, true, false, inl, inr, List, [], ◌++◌,
  length, drop_last, arith, ltb, ◌||◌, pos, int64, err, null_message, runtime_error,
}
use miniraft_cpp.Prelude.Bytes.{to_bytes, length-to_bytes, from_bytes-to_bytes, append_assoc}
use miniraft_cpp.Messages.{LogEntry}
use miniraft_cpp.State.{State}
use miniraft_cpp.Disk.{Disk, get, get_at, load, reload_term, last_entry_term, read_entry}
use miniraft_cpp.Disk.Fstream.{Stream}
use miniraft_cpp.Disk.Fstream.Blocks.{seek-stream, read-block, read-past}
use miniraft_cpp.Disk.Layout.{
  log_bytes, slots, slots-append_one, length-slots, length-log_bytes, FitsLog-bounds,
}
use miniraft_cpp.Disk.Stores.{Stores, last_split, int64_small}
use miniraft_cpp.Disk.Restart.{restored, load-restored}

module _ (d : Disk) (s : State) (st : Stores d s) (some_entry : 0 < length s.log) where
  fits64 : d.last_log_index * 8 < 2 ^ 64
  fits64 = omega (arith, st.holds.counted, length-log_bytes s.log, st.fits.1)

  -- The files, without their ends, as the constructor takes them.
  opened : (entries index : List ℕ) → Disk
  opened entries index = restored entries index d.last_log_index d.current_term d.voted_for

  load-opened :
      (entries index : List ℕ)
      → load entries index d.state.bytes ≡ reload_term (opened entries index)
  unfolding opened
  load-opened entries index =
      ap (load entries index) (ap Stream.bytes st.state_hold)
      ∙ load-restored entries index d.last_log_index d.current_term d.voted_for
          (omega (arith, fits64)) st.term_fits st.vote_fits

  -- Opening the files of a log that is not empty fails with a null entry when the index file has no
  -- slot for the last one, whatever else is in it.
  pub load-short_index :
      (entries index : List ℕ)
      → length index < length s.log * 8
      → load entries index d.state.bytes ≡ err null_message
  unfolding opened restored reload_term last_entry_term get get_at
  load-short_index entries index short =
      let n = d.last_log_index in
      let counted = st.holds.counted in
      let some_left : ltb 0 n ≡ true = ground (arith, counted) in
      let index_pos : int64 n ≡ pos n = int64_small n fits64 in
      let inside : (ltb n n || ltb n 1) ≡ false = ground (arith, counted) in
      let place : (n - 1) * 8 % 2 ^ 64 ≡ (n - 1) * 8 = omega (arith, fits64) in
      let cut = read-past index ((n - 1) * 8) 8 (omega (arith, counted)) (omega arith) in
      load-opened entries index
      ∙ rw (some_left, index_pos, inside, place, seek-stream ((n - 1) * 8) 0 index, cut) refl

  -- Opening the files of a log that is not empty throws when the entries file ends where the last
  -- entry would start, or before, whatever else is in it.
  pub load-short_entries :
      (entries : List ℕ)
      → length entries ≤ length (log_bytes (drop_last s.log))
      → load entries d.index.bytes d.state.bytes ≡ err runtime_error
  unfolding opened restored reload_term last_entry_term get get_at read_entry
  load-short_entries entries short =
      let n = d.last_log_index in
      let counted = st.holds.counted in
      let some_left : ltb 0 n ≡ true = ground (arith, counted) in
      let index_pos : int64 n ≡ pos n = int64_small n fits64 in
      let inside : (ltb n n || ltb n 1) ≡ false = ground (arith, counted) in
      let place : (n - 1) * 8 % 2 ^ 64 ≡ (n - 1) * 8 = omega (arith, fits64) in
      let index = slots 0 s.log ++ st.holds.index_rest in
      let xs = drop_last s.log in
      let offset = length (log_bytes xs) in
      let file = ap Stream.bytes st.holds.index_hold in
      elim (last_split s.log) [
        | inl nothing ↦ absurd (omega (arith, ap (length {A = LogEntry}) nothing, some_entry))
        | inr r ↦
            let bounds = FitsLog-bounds s.log xs [] r.0 r.1 st.fits in
            let split : index ≡ slots 0 xs ++ (to_bytes 8 offset ++ st.holds.index_rest) =
              ap (λ b. b ++ st.holds.index_rest) (ap (slots 0) r.1 ∙ slots-append_one xs r.0)
              ∙ append_assoc (slots 0 xs) (to_bytes 8 offset) st.holds.index_rest in
            let slot =
              read-block (slots 0 xs) (to_bytes 8 offset) st.holds.index_rest index ((n - 1) * 8) 8
                split (omega (arith, length-slots 0 xs, counted, bounds.1))
                (sym (length-to_bytes 8 offset)) in
            let cut = read-past entries offset 4 (omega (arith, short)) (omega arith) in
            ap (λ b. load entries b d.state.bytes) file
            ∙ load-opened entries index
            ∙ rw
                (
                  some_left,
                  index_pos,
                  inside,
                  place,
                  seek-stream ((n - 1) * 8) 0 index,
                  slot,
                  from_bytes-to_bytes 8 offset bounds.3,
                  seek-stream offset 0 entries,
                  cut,
                )
                refl
      ]
