-- ===== src/Disk/Shrunk.antt =====
-- miniraft/persist.cpp: a log that RemoveLast empties while the entries stream stands behind the
-- entry that was read.
use miniraft_cpp.Prelude.{
  ℕ, ◌+◌, ◌-◌, ◌≤◌, ◌≡◌, refl, ap, sym, subst, ◌∙◌, true, List, [], ◌∷◌, ◌++◌, Option, some, length,
  drop, arith, ltb, pos, int64, ok, Result, Returns, ◌>>=◌,
}
use miniraft_cpp.Prelude.Bytes.{to_bytes, length-to_bytes, append_assoc, append_nil}
use miniraft_cpp.Messages.{LogEntry, log_entry_len}
use miniraft_cpp.State.{State}
use miniraft_cpp.Disk.{Disk, entry_bytes, get, remove_last, append, append_at, offset_after}
use miniraft_cpp.Disk.Fstream.{write}
use miniraft_cpp.Disk.Fstream.Blocks.{stream, seek-stream, write-block}
use miniraft_cpp.Disk.Layout.{log_bytes, slots, FitsLog, length-entry_bytes}
use miniraft_cpp.Disk.Lookup.{Holds, after_read, get-Holds}
use miniraft_cpp.Disk.Fields.{field_bytes, length-field_bytes, commit-field_bytes}
use miniraft_cpp.Disk.Stores.{Stores, get_zero}

-- The calls of a follower whose only entry conflicts: it reads the entry, removes it, and appends
-- the leader's. Then the entry is looked up.
unfoldable pub replace_first : LogEntry → Disk → Result (Disk × Option LogEntry)
replace_first f d = do
  read_entry ← get (pos 1) d
  emptied ← remove_last read_entry.0
  appended ← append f emptied
  get (pos 1) appended

-- An append to an empty log, wherever the entries stream stands: the entry is written there, and
-- its slot says 0.
append-empty :
    (d : Disk) (f : LogEntry) (before er ib sb : List ℕ) (ip sp : ℕ)
    → d.entries ≡ stream (before ++ er) (length before)
    → d.index ≡ stream ib ip
    → d.state ≡ stream sb sp
    → length sb ≤ 20
    → d.last_log_index ≡ 0
    → append f d
      ≡ ok (record d {
        entries =
            stream
              (before ++ entry_bytes f ++ drop (length (entry_bytes f)) er)
              (length before + length (entry_bytes f));
        index = stream (to_bytes 8 0 ++ drop 8 ib) 8;
        state = stream (field_bytes 1 d.current_term d.voted_for) 20;
        last_log_term = f.term;
        last_log_index = 1;
      })
unfolding append append_at offset_after
append-empty d f before er ib sb ip sp he hi hs short none_left =
    let written : Disk = record d {
      entries =
          stream (before ++ entry_bytes f ++ drop (length (entry_bytes f)) er)
            (length before + length (entry_bytes f));
      index = stream (to_bytes 8 0 ++ drop 8 ib) 8;
      last_log_term = f.term;
      last_log_index = 1;
    } in
    let slot : write (to_bytes 8 0) (stream ib 0) ≡ stream (to_bytes 8 0 ++ drop 8 ib) 8 =
      write-block [] (to_bytes 8 0) ib ib 0 refl refl
      ∙ ap (λ w. stream (to_bytes 8 0 ++ drop w ib) (0 + w)) (length-to_bytes 8 0) in
    let looked_up = ap (λ n. get (int64 n) d) none_left ∙ get_zero d in
    rw looked_up (
      rw
        (
          none_left,
          he,
          hi,
          seek-stream 0 ip ib,
          slot,
          write-block before (entry_bytes f) er (before ++ er) (length before) refl refl,
        )
        (commit-field_bytes written sb sp hs short))

-- A disk with one entry, on which a follower replaces that entry by another: the lookup answers the
-- entry that was removed.
pub replace_first-stale :
    (d : Disk) (s : State) (e f : LogEntry)
    → Stores d s
    → s.log ≡ e ∷ []
    → Returns (replace_first f d) (λ r. r.1 ≡ some e)
unfolding replace_first remove_last log_bytes slots
replace_first-stale d s e f st one =
    let h = st.holds in
    let eb = entry_bytes e in
    let width = length-entry_bytes e in
    let first : Disk = after_read d s.log h [] e in
    let read_first = get-Holds d s.log [] [] e h one st.fits in
    let counted : d.last_log_index ≡ 1 = h.counted ∙ ap (length {A = LogEntry}) one in
    let some_left : ltb 0 d.last_log_index ≡ true = ground (arith, counted) in
    let short = length-field_bytes d.last_log_index d.current_term d.voted_for in
    let fewer : Disk = record first { last_log_index = d.last_log_index - 1 } in
    let saved =
      commit-field_bytes fewer (field_bytes d.last_log_index d.current_term d.voted_for)
        st.state_position st.state_hold (omega (arith, short)) in
    let fields = field_bytes (d.last_log_index - 1) d.current_term d.voted_for in
    let emptied : Disk = record fewer { state = stream fields 20 } in
    let only : log_bytes s.log ≡ eb = ap log_bytes one ∙ append_nil eb in
    let behind : emptied.entries ≡ stream (eb ++ h.entries_rest) (length eb) =
      ap (λ b. stream (b ++ h.entries_rest) (0 + log_entry_len e)) only
      ∙ ap (stream (eb ++ h.entries_rest)) (omega (arith, width)) in
    let index = slots 0 s.log ++ h.index_rest in
    let short_again = length-field_bytes (d.last_log_index - 1) d.current_term d.voted_for in
    let added =
      append-empty emptied f eb h.entries_rest index fields 8 20 behind refl refl
        (omega (arith, short_again)) (omega (arith, counted)) in
    let rest = drop (length (entry_bytes f)) h.entries_rest in
    let grown : Disk = record emptied {
      entries = stream (eb ++ entry_bytes f ++ rest) (length eb + length (entry_bytes f));
      index = stream (to_bytes 8 0 ++ drop 8 index) 8;
      state = stream (field_bytes 1 d.current_term d.voted_for) 20;
      last_log_term = f.term;
      last_log_index = 1;
    } in
    let holds : Holds grown (e ∷ []) = record {
      entries_rest = entry_bytes f ++ rest;
      entries_position = length eb + length (entry_bytes f);
      entries_hold =
          ap (λ b. stream b (length eb + length (entry_bytes f)))
            (append_assoc eb (entry_bytes f) rest
              ∙ ap (λ b. b ++ (entry_bytes f ++ rest)) (sym (append_nil eb)));
      index_rest = drop 8 index;
      index_position = 8;
      index_hold = ap (λ b. stream (b ++ drop 8 index) 8) (sym (append_nil (to_bytes 8 0)));
      counted = refl;
    } in
    let found = get-Holds grown (e ∷ []) [] [] e holds refl (subst FitsLog one st.fits) in
    rw read_first (rw some_left (rw saved (rw added (rw found refl))))
