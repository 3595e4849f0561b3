-- ===== src/Disk/Append.antt =====
-- miniraft/persist.cpp: TDiskState::Append writes the entry and its offset at the end of the log.
use miniraft_cpp.Prelude.{
  ℕ, suc, ◌+◌, ◌*◌, ◌%◌, ◌^◌, ◌≤◌, ◌<◌, ◌≡◌, refl, ap, sym, ◌∙◌, List, [], ◌∷◌, ◌++◌, Option, none,
  some, length, drop, drop_last, arith, length-append, pos, int64, ok, Returns, inl, inr,
}
use miniraft_cpp.Prelude.Bytes.{to_bytes, length-to_bytes}
use miniraft_cpp.Messages.{LogEntry, log_entry_len}
use miniraft_cpp.State
use miniraft_cpp.State.{State}
use miniraft_cpp.Disk.{Disk, entry_bytes, get, append, append_at, offset_after, tell}
use miniraft_cpp.Disk.Fstream.{write}
use miniraft_cpp.Disk.Fstream.Blocks.{stream, seek-stream, write-block}
use miniraft_cpp.Disk.Layout.{
  log_bytes, slots, FitsLog, log_bytes-append_one, slots-append_one, length-slots, FitsLog-bounds,
  length-entry_bytes,
}
use miniraft_cpp.Disk.Lookup.{after_read, get-Holds}
use miniraft_cpp.Disk.Stores.{Stores, last_split, Stores-after_read, get_zero, int64_small}
use miniraft_cpp.Disk.Fields.{field_bytes, length-field_bytes, commit-field_bytes}

-- The entries stream stands behind the last entry, as it does after that entry was read, or at the
-- start of a file without entries; then an append writes the entry where its slot says.
unfoldable appended : Disk → List LogEntry → LogEntry → List ℕ → List ℕ → Disk
appended d log e entries_rest index_rest = record d {
  entries =
      stream (log_bytes log ++ entry_bytes e ++ drop (length (entry_bytes e)) entries_rest)
        (length (log_bytes log) + length (entry_bytes e));
  index =
      stream (slots 0 log ++ to_bytes 8 (length (log_bytes log)) ++ drop 8 index_rest)
        (length log * 8 + 8);
  state = stream (field_bytes (suc (length log)) d.current_term d.voted_for) 20;
  last_log_term = e.term;
  last_log_index = suc (length log);
}

append_at-appended :
    (d : Disk) (log : List LogEntry) (e : LogEntry) (er ir sb : List ℕ) (ip sp : ℕ)
    → d.entries ≡ stream (log_bytes log ++ er) (length (log_bytes log))
    → d.index ≡ stream (slots 0 log ++ ir) ip
    → d.state ≡ stream sb sp
    → length sb ≤ 20
    → d.last_log_index ≡ length log
    → length log * 8 + 8 < 2 ^ 64
    → append_at (length (log_bytes log)) e d ≡ ok (appended d log e er ir)
unfolding append_at appended
append_at-appended d log e er ir sb ip sp he hi hs short counted many =
    let end = length (log_bytes log) in
    let offset = to_bytes 8 end in
    let place : length log * 8 % 2 ^ 64 ≡ length log * 8 = omega (arith, many) in
    let next : (length log + 1) % 2 ^ 64 ≡ suc (length log) = omega (arith, many) in
    let wide = length-to_bytes 8 end in
    let written : Disk = record d {
      entries =
          stream (log_bytes log ++ entry_bytes e ++ drop (length (entry_bytes e)) er)
            (end + length (entry_bytes e));
      index = stream (slots 0 log ++ offset ++ drop 8 ir) (length log * 8 + 8);
      last_log_term = e.term;
      last_log_index = suc (length log);
    } in
    let slot : write offset (stream (slots 0 log ++ ir) (length log * 8))
        ≡ stream (slots 0 log ++ offset ++ drop 8 ir) (length log * 8 + 8) =
      write-block (slots 0 log) offset ir (slots 0 log ++ ir) (length log * 8) refl
        (sym (length-slots 0 log))
      ∙ ap (λ w. stream (slots 0 log ++ offset ++ drop w ir) (length log * 8 + w)) wide in
    rw
      (
        he,
        hi,
        counted,
        place,
        next,
        seek-stream (length log * 8) ip (slots 0 log ++ ir),
        slot,
        write-block (log_bytes log) (entry_bytes e) er (log_bytes log ++ er) end refl refl,
      )
      (commit-field_bytes written sb sp hs short)

-- A disk whose streams stand where an append writes stands for the longer log afterwards.
Stores-appended :
    (d : Disk) (s : State) (e : LogEntry) (er ir : List ℕ)
    → FitsLog (s.log ++ e ∷ [])
    → d.current_term ≡ s.current_term
    → d.voted_for ≡ s.voted_for
    → d.current_term < 2 ^ 64
    → d.voted_for < 2 ^ 32
    → Stores (appended d s.log e er ir) (State.append e s)
unfolding appended State.append
Stores-appended d s e er ir fits t v ft fv =
    let width = length (entry_bytes e) in
    let last : length (s.log ++ e ∷ []) ≡ suc (length s.log) =
      omega (arith, length-append s.log (e ∷ [])) in
    record {
      holds = record {
        entries_rest = drop width er;
        entries_position = length (log_bytes s.log) + width;
        entries_hold =
            ap (λ b. stream (b ++ drop width er) (length (log_bytes s.log) + width))
              (sym (log_bytes-append_one s.log e));
        index_rest = drop 8 ir;
        index_position = length s.log * 8 + 8;
        index_hold =
            ap (λ b. stream (b ++ drop 8 ir) (length s.log * 8 + 8))
              (sym (slots-append_one s.log e));
        counted = sym last;
      };
      fits = fits;
      index_cached = refl;
      at_start = λ none_left. absurd (omega (arith, last, none_left));
      state_position = 20;
      state_hold = refl;
      term_kept = t;
      vote_kept = v;
      term_fits = ft;
      vote_fits = fv;
    }

-- What the lookup of the last entry in TDiskState::Append leaves: the offset of the new entry is
-- the end of the log, and the entries stream stands there.
record IsReady (d : Disk) (s : State) : Type 0 where
  found : Disk
  entry : Option LogEntry
  looked_up : get (int64 d.last_log_index) d ≡ ok (found, entry)
  offset : offset_after found entry ≡ length (log_bytes s.log)
  stores : Stores found s
  rest : List ℕ
  at_end : found.entries ≡ stream (log_bytes s.log ++ rest) (length (log_bytes s.log))

Stores-IsReady : (d : Disk) (s : State) → Stores d s → IsReady d s
unfolding offset_after tell log_bytes
Stores-IsReady d s st = elim (last_split s.log) [
  | inl nothing ↦
      let none_left = ap (length {A = LogEntry}) nothing in
      let no_bytes : 0 ≡ length (log_bytes s.log) = sym (ap (λ l. length (log_bytes l)) nothing) in
      record {
        found = d;
        entry = none;
        looked_up = ap (λ n. get (int64 n) d) (st.holds.counted ∙ none_left) ∙ get_zero d;
        offset = no_bytes;
        stores = st;
        rest = st.holds.entries_rest;
        at_end =
            st.holds.entries_hold
            ∙ ap (stream (log_bytes s.log ++ st.holds.entries_rest))
                (st.at_start none_left ∙ no_bytes);
      }
  | inr r ↦
      let xs = drop_last s.log in
      let bounds = FitsLog-bounds s.log xs [] r.0 r.1 st.fits in
      let end : length (log_bytes xs) + log_entry_len r.0 ≡ length (log_bytes s.log) = omega (
        arith,
        length-append (log_bytes xs) (entry_bytes r.0),
        length-entry_bytes r.0,
        ap length (ap log_bytes r.1 ∙ log_bytes-append_one xs r.0),
      ) in
      let index : int64 d.last_log_index ≡ pos (suc (length xs)) =
        ap int64 st.holds.counted
        ∙ int64_small (length s.log) bounds.2
        ∙ ap pos (omega (arith, bounds.1)) in
      record {
        found = after_read d s.log st.holds xs r.0;
        entry = some r.0;
        looked_up = ap (λ i. get i d) index ∙ get-Holds d s.log xs [] r.0 st.holds r.1 st.fits;
        offset = end;
        stores = Stores-after_read d s st xs [] r.0 r.1;
        rest = st.holds.entries_rest;
        at_end = ap (stream (log_bytes s.log ++ st.holds.entries_rest)) end;
      }
]

-- TDiskState::Append does what TState::Append does.
pub append-Stores :
    (e : LogEntry) (d : Disk) (s : State)
    → Stores d s
    → FitsLog (s.log ++ e ∷ [])
    → Returns (append e d) (λ t. Stores t (State.append e s) × (t.last_log_term ≡ e.term))
unfolding append appended
append-Stores e d s st fits =
    let r = Stores-IsReady d s st in
    let t = r.stores in
    let bounds = FitsLog-bounds (s.log ++ e ∷ []) s.log [] e refl fits in
    let short = length-field_bytes r.found.last_log_index r.found.current_term r.found.voted_for in
    let done =
      append_at-appended r.found s.log e r.rest t.holds.index_rest
        (field_bytes r.found.last_log_index r.found.current_term r.found.voted_for)
        t.holds.index_position t.state_position r.at_end t.holds.index_hold t.state_hold
        (omega (arith, short)) t.holds.counted (omega (arith, bounds)) in
    rw (r.looked_up, r.offset, done)
      (
        Stores-appended r.found s e r.rest t.holds.index_rest fits t.term_kept t.vote_kept
            t.term_fits t.vote_fits,
        refl,
      )
