-- ===== src/Disk/Entries.antt =====
-- miniraft/persist.cpp: TDiskState::Read gives back the entry that TDiskState::Write has written.
use miniraft_cpp.Prelude.{
  ℕ, ◌+◌, ◌-◌, ◌≤◌, ◌≡◌, refl, ap, sym, ◌∙◌, List, ◌++◌, length, take, drop, arith, length-append,
  le→leb, ok,
}
use miniraft_cpp.Prelude.Bytes.{
  to_bytes, length-to_bytes, from_bytes-to_bytes, append_assoc, take-length_append,
  drop-length_append,
}
use miniraft_cpp.Messages.{LogEntry, log_entry_len}
use miniraft_cpp.Disk.{entry_bytes, entry_of, read_entry}
use miniraft_cpp.Disk.Fstream.Blocks.{stream, read-block}
use miniraft_cpp.Disk.Layout.{FitsEntry}

-- What follows the TMessage of an entry.
abbrev pub value_bytes : LogEntry → List ℕ
value_bytes e = to_bytes 8 e.term ++ (to_bytes 8 e.flags ++ e.data_bytes)

-- A field of known width, cut from the front.
take_width : (w : ℕ) (xs ys : List ℕ) → w ≡ length xs → take w (xs ++ ys) ≡ xs
take_width w xs ys h = rw h (take-length_append xs ys)

drop_width : (w : ℕ) (xs ys : List ℕ) → w ≡ length xs → drop w (xs ++ ys) ≡ ys
drop_width w xs ys h = rw h (drop-length_append xs ys)

pub length-value_bytes : (e : LogEntry) → length (value_bytes e) ≡ log_entry_len e - 8
unfolding to_bytes
length-value_bytes e = omega arith

pub entry_of-value_bytes : (e : LogEntry) → FitsEntry e → entry_of (value_bytes e) ≡ ok e
unfolding entry_of
entry_of-value_bytes e fits =
    let t = to_bytes 8 e.term in
    let f = to_bytes 8 e.flags in
    let wt = sym (length-to_bytes 8 e.term) in
    let wf = sym (length-to_bytes 8 e.flags) in
    let wb : 16 ≡ length (t ++ f) = omega (arith, length-append t f) in
    let long : 16 ≤ length (value_bytes e) = omega (arith, length-value_bytes e) in
    let tail : drop 16 (value_bytes e) ≡ e.data_bytes =
      ap (drop 16) (sym (append_assoc t f e.data_bytes)) ∙ drop_width 16 (t ++ f) e.data_bytes wb in
    rw
      (
        le→leb 16 (length (value_bytes e)) long,
        take_width 8 t (f ++ e.data_bytes) wt,
        drop_width 8 t (f ++ e.data_bytes) wt,
        take_width 8 f e.data_bytes wf,
        tail,
        from_bytes-to_bytes 8 e.term fits.0,
        from_bytes-to_bytes 8 e.flags fits.1,
      )
      refl

-- The entry that stands at the position is read, and the position moves past it. Its numbers fit
-- the fields of the struct.
pub read_entry-entry_bytes :
    (before after bytes : List ℕ) (n : ℕ) (e : LogEntry)
    → FitsEntry e
    → bytes ≡ before ++ (entry_bytes e ++ after)
    → n ≡ length before
    → read_entry (stream bytes n) ≡ ok (stream bytes (n + log_entry_len e), e)
unfolding read_entry entry_bytes
read_entry-entry_bytes before after bytes n e fits b hn =
    let ty = to_bytes 4 1 in
    let len = to_bytes 4 (log_entry_len e) in
    let v = value_bytes e in
    let b1 : bytes ≡ before ++ (ty ++ (len ++ (v ++ after))) = rw b (simp append_assoc) in
    let b2 : bytes ≡ before ++ ty ++ (len ++ (v ++ after)) = rw b (simp append_assoc) in
    let b3 : bytes ≡ before ++ ty ++ len ++ (v ++ after) = rw b (simp append_assoc) in
    let w1 = length-to_bytes 4 1 in
    let w2 = length-to_bytes 4 (log_entry_len e) in
    let n2 : n + 4 ≡ length (before ++ ty) = omega (arith, length-append before ty) in
    let n3 : n + 4 + 4 ≡ length (before ++ ty ++ len) =
      omega (arith, length-append before ty, length-append (before ++ ty) len) in
    let end : n + 4 + 4 + (log_entry_len e - 8) ≡ n + log_entry_len e = omega arith in
    rw
      (
        read-block before ty (len ++ (v ++ after)) bytes n 4 b1 hn (sym w1),
        read-block (before ++ ty) len (v ++ after) bytes (n + 4) 4 b2 n2 (sym w2),
        from_bytes-to_bytes 4 (log_entry_len e) fits.2,
        le→leb 8 (log_entry_len e) (omega arith),
        read-block (before ++ ty ++ len) v after bytes (n + 4 + 4) (log_entry_len e - 8) b3 n3
            (sym (length-value_bytes e)),
        entry_of-value_bytes e fits,
        end,
      )
      refl
