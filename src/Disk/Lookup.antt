-- ===== src/Disk/Lookup.antt =====
-- miniraft/persist.cpp: what TDiskState::Get reads from files that hold a log.
use miniraft_cpp.Prelude.{
  ℕ, suc, ◌+◌, ◌-◌, ◌*◌, ◌%◌, ◌^◌, ◌≡◌, refl, ap, sym, ◌∙◌, ◌||◌, false, List, ◌∷◌, ◌++◌, some,
  length, arith, ltb, pos, ok,
}
use miniraft_cpp.Prelude.Bytes.{to_bytes, length-to_bytes, from_bytes-to_bytes}
use miniraft_cpp.Messages.{LogEntry, log_entry_len}
use miniraft_cpp.Disk.{Disk, entry_bytes, get, get_at}
use miniraft_cpp.Disk.Fstream.Blocks.{stream, seek-stream, read-block}
use miniraft_cpp.Disk.Layout.{
  log_bytes, slots, FitsLog, log_bytes-middle, slots-middle, length-slots, FitsLog-bounds,
}
use miniraft_cpp.Disk.Entries.{read_entry-entry_bytes}

-- The files of `d` hold `log`, and the streams are good.
pub record Holds (d : Disk) (log : List LogEntry) : Type 0 where
  pub entries_rest : List ℕ
  pub entries_position : ℕ
  pub entries_hold : d.entries ≡ stream (log_bytes log ++ entries_rest) entries_position
  pub index_rest : List ℕ
  pub index_position : ℕ
  pub index_hold : d.index ≡ stream (slots 0 log ++ index_rest) index_position
  pub counted : d.last_log_index ≡ length log

-- `d` after an entry was read: the streams stand behind it and behind its slot.
abbrev pub after_read :
    (d : Disk) (log : List LogEntry) → Holds d log → List LogEntry → LogEntry → Disk
after_read d log h xs e = record d {
  index = stream (slots 0 log ++ h.index_rest) (length xs * 8 + 8);
  entries = stream (log_bytes log ++ h.entries_rest) (length (log_bytes xs) + log_entry_len e);
}

-- `Get` of an entry of the log that the files hold.
pub get-Holds :
    (d : Disk) (log xs ys : List LogEntry) (e : LogEntry) (h : Holds d log)
    → log ≡ xs ++ e ∷ ys
    → FitsLog log
    → get (pos (suc (length xs))) d ≡ ok (after_read d log h xs e, some e)
unfolding get get_at
get-Holds d log xs ys e h split fits =
    let eb = log_bytes log ++ h.entries_rest in
    let ib = slots 0 log ++ h.index_rest in
    let offset = length (log_bytes xs) in
    let bounds = FitsLog-bounds log xs ys e split fits in
    let iafter = slots (offset + log_entry_len e) ys ++ h.index_rest in
    let eafter = log_bytes ys ++ h.entries_rest in
    let ibytes : ib ≡ slots 0 xs ++ (to_bytes 8 offset ++ iafter) =
      ap (λ l. slots 0 l ++ h.index_rest) split ∙ slots-middle xs ys e h.index_rest in
    let ebytes : eb ≡ log_bytes xs ++ (entry_bytes e ++ eafter) =
      ap (λ l. log_bytes l ++ h.entries_rest) split ∙ log_bytes-middle xs ys e h.entries_rest in
    let place : (suc (length xs) - 1) * 8 % 2 ^ 64 ≡ length xs * 8 = omega (arith, bounds) in
    let inside : (ltb (length log) (suc (length xs)) || ltb (suc (length xs)) 1) ≡ false =
      ground (arith, bounds.1) in
    rw
      (
        h.counted,
        inside,
        place,
        h.index_hold,
        seek-stream (length xs * 8) h.index_position ib,
        read-block (slots 0 xs) (to_bytes 8 offset) iafter ib (length xs * 8) 8 ibytes
            (sym (length-slots 0 xs)) (sym (length-to_bytes 8 offset)),
        h.entries_hold,
        from_bytes-to_bytes 8 offset bounds.3,
        seek-stream offset h.entries_position eb,
        read_entry-entry_bytes (log_bytes xs) eafter eb offset e bounds.0 ebytes refl,
      )
      refl
