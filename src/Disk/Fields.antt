-- ===== src/Disk/Fields.antt =====
-- miniraft/persist.cpp: the state file. TDiskState::Commit writes the fields, the constructor reads
-- them back.
use miniraft_cpp.Prelude.{
  ℕ, ◌+◌, ◌^◌, ◌≤◌, ◌<◌, ◌≡◌, refl, ap, sym, ◌∙◌, List, [], ◌++◌, length, drop, arith,
  length-append, length-drop, drop_all, ok,
}
use miniraft_cpp.Prelude.Bytes.{
  to_bytes, length-to_bytes, from_bytes-to_bytes, append_assoc, append_nil,
}
use miniraft_cpp.Disk.{Disk, commit, write_or_abort, restore, field_or}
use miniraft_cpp.Disk.Fstream.Blocks.{stream, seek-stream, read-block, write-block}

-- The contents of the state file for LastLogIndex, CurrentTerm and VotedFor.
abbrev pub field_bytes : ℕ → ℕ → ℕ → List ℕ
field_bytes last term vote = to_bytes 8 last ++ (to_bytes 8 term ++ to_bytes 4 vote)

pub length-field_bytes : (last term vote : ℕ) → length (field_bytes last term vote) ≡ 20
unfolding to_bytes
length-field_bytes last term vote = omega arith

write_or_abort-block :
    (before block rest bytes : List ℕ) (n : ℕ)
    → bytes ≡ before ++ rest
    → n ≡ length before
    → write_or_abort block (stream bytes n)
      ≡ ok (stream (before ++ block ++ drop (length block) rest) (n + length block))
unfolding write_or_abort
write_or_abort-block before block rest bytes n b h =
    rw (write-block before block rest bytes n b h) refl

-- `Commit` of a disk whose state file is not longer than the fields leaves the fields in it.
pub commit-field_bytes :
    (d : Disk) (bytes : List ℕ) (n : ℕ)
    → d.state ≡ stream bytes n
    → length bytes ≤ 20
    → commit d
      ≡ ok
          (record d { state = stream (field_bytes d.last_log_index d.current_term d.voted_for) 20 })
unfolding commit
commit-field_bytes d bytes n h short =
    let a = to_bytes 8 d.last_log_index in
    let b = to_bytes 8 d.current_term in
    let c = to_bytes 4 d.voted_for in
    let la = length-to_bytes 8 d.last_log_index in
    let lb = length-to_bytes 8 d.current_term in
    let lc = length-to_bytes 4 d.voted_for in
    let r1 = drop (length a) bytes in
    let r2 = drop (length b) r1 in
    let over : drop (length c) r2 ≡ [] =
      drop_all (length c) r2 (
        omega
          (arith, length-drop (length b) r1, length-drop (length a) bytes, la, lb, lc, short)) in
    let end : a ++ b ++ c ++ drop (length c) r2 ≡ a ++ (b ++ c) =
      rw over (append_nil (a ++ b ++ c) ∙ append_assoc a b c) in
    let stop : 0 + length a + length b + length c ≡ 20 = omega (arith, la, lb, lc) in
    rw
      (
        h,
        seek-stream 0 n bytes,
        write_or_abort-block [] a bytes bytes 0 refl refl,
        write_or_abort-block a b r1 (a ++ r1) (0 + length a) refl (omega arith),
        write_or_abort-block (a ++ b) c r2 (a ++ b ++ r2) (0 + length a + length b) refl
            (omega (arith, length-append a b)),
        end,
        stop,
      )
      refl

-- The constructor reads the fields that `Commit` has left.
pub restore-field_bytes :
    (d : Disk) (last term vote n : ℕ)
    → d.state ≡ stream (field_bytes last term vote) n
    → last < 2 ^ 64
    → term < 2 ^ 64
    → vote < 2 ^ 32
    → restore d ≡ record d {
      state = stream (field_bytes last term vote) 20;
      last_log_index = last;
      current_term = term;
      voted_for = vote;
    }
unfolding restore field_or
restore-field_bytes d last term vote n h ml mt mv =
    let a = to_bytes 8 last in
    let b = to_bytes 8 term in
    let c = to_bytes 4 vote in
    let all = field_bytes last term vote in
    let la = length-to_bytes 8 last in
    let lb = length-to_bytes 8 term in
    let lc = length-to_bytes 4 vote in
    let e2 : all ≡ a ++ (b ++ c) = refl in
    let e3 : all ≡ a ++ b ++ (c ++ []) =
      sym (ap (◌++◌ (a ++ b)) (append_nil c) ∙ append_assoc a b c) in
    let stop : 0 + 8 + 8 + 4 ≡ 20 = omega arith in
    rw
      (
        h,
        seek-stream 0 n all,
        read-block [] a (b ++ c) all 0 8 refl refl (sym la),
        read-block a b c all (0 + 8) 8 e2 (omega (arith, la)) (sym lb),
        read-block (a ++ b) c [] all (0 + 8 + 8) 4 e3 (omega (arith, la, lb, length-append a b))
            (sym lc),
        from_bytes-to_bytes 8 last ml,
        from_bytes-to_bytes 8 term mt,
        from_bytes-to_bytes 4 vote mv,
        stop,
      )
      refl
