-- ===== src/Disk/Restart.antt =====
-- miniraft/persist.cpp: the constructor of TDiskState on the files that another one has left.
use miniraft_cpp.Prelude.{
  ℕ, suc, ◌^◌, ◌<◌, ◌≡◌, refl, ap, sym, ◌∙◌, true, false, inl, inr, List, [], ◌++◌, length,
  drop_last, get_last?, get_last?-append, arith, ltb, ==_iff, ◌==◌, pos, int64, Result, Returns,
}
use miniraft_cpp.Messages.{LogEntry}
use miniraft_cpp.State.{State, term_or_zero}
use miniraft_cpp.Disk.{Disk, blank, load, reload_term, last_entry_term, tell}
use miniraft_cpp.Disk.Fstream.{Stream, open_stream, seek}
use miniraft_cpp.Disk.Fstream.Blocks.{stream}
use miniraft_cpp.Disk.Layout.{log_bytes, slots, FitsLog-bounds, length-log_bytes}
use miniraft_cpp.Disk.Lookup.{after_read, get-Holds}
use miniraft_cpp.Disk.Fields.{field_bytes, length-field_bytes, restore-field_bytes}
use miniraft_cpp.Disk.Stores.{
  Stores, last_split, Stores-after_read, Stores-last_log_term, int64_small,
}

-- The disk that the constructor makes of three files, before it looks at the last entry.
unfoldable pub restored : List ℕ → List ℕ → ℕ → ℕ → ℕ → Disk
restored entries index last term voted_for = record {
  entries = stream entries 0;
  index = stream index 0;
  state = stream (field_bytes last term voted_for) 20;
  current_term = term;
  voted_for = voted_for;
  last_log_index = last;
  last_log_term = 0;
}

pub load-restored :
    (entries index : List ℕ) (last term vote : ℕ)
    → last < 2 ^ 64
    → term < 2 ^ 64
    → vote < 2 ^ 32
    → load entries index (field_bytes last term vote)
      ≡ reload_term (restored entries index last term vote)
unfolding load blank open_stream seek tell restored
load-restored entries index last term vote fl ft fv =
    let fields = field_bytes last term vote in
    let whole = length-field_bytes last term vote in
    let size : (length fields == 20) ≡ true = (==_iff (length fields) 20).1 whole in
    let start : Disk = record {
      entries = stream entries 0;
      index = stream index 0;
      state = stream fields (length fields);
      current_term = 1;
      voted_for = 0;
      last_log_index = 0;
      last_log_term = 0;
    } in
    rw (size, restore-field_bytes start last term vote (length fields) refl fl ft fv) refl

-- The constructor's last step keeps the stored state, and sets LastLogTerm.
reload_term-Stores :
    (d : Disk) (s : State)
    → Stores d s
    → d.last_log_term ≡ 0
    → Returns (reload_term d) (λ t. Stores t s × (t.last_log_term ≡ term_or_zero (get_last? s.log)))
unfolding reload_term last_entry_term
reload_term-Stores d s st zero_term = elim (last_split s.log) [
  | inl nothing ↦
      let none_left = ap (length {A = LogEntry}) nothing in
      let idle : ltb 0 d.last_log_index ≡ false = ground (arith, st.holds.counted) in
      rw idle (st, zero_term ∙ sym (ap (λ l. term_or_zero (get_last? l)) nothing))
  | inr r ↦
      let xs = drop_last s.log in
      let bounds = FitsLog-bounds s.log xs [] r.0 r.1 st.fits in
      let some_left : ltb 0 d.last_log_index ≡ true = ground (arith, st.holds.counted, bounds.1) in
      let index : int64 d.last_log_index ≡ pos (suc (length xs)) =
        ap int64 st.holds.counted
        ∙ int64_small (length s.log) bounds.2
        ∙ ap pos (omega (arith, bounds.1)) in
      let found = get-Holds d s.log xs [] r.0 st.holds r.1 st.fits in
      let last : r.0.term ≡ term_or_zero (get_last? s.log) =
        sym (ap term_or_zero (ap get_last? r.1 ∙ get_last?-append xs r.0)) in
      rw (some_left, index, found)
        (
          Stores-last_log_term r.0.term (after_read d s.log st.holds xs r.0) s
              (Stores-after_read d s st xs [] r.0 r.1),
          last,
        )
]

-- A TDiskState that is opened on the files of another one.
unfoldable pub restart : Disk → Result Disk
restart d = load d.entries.bytes d.index.bytes d.state.bytes

-- The constructor, on the files that another disk has left, returns a disk that stands for the same
-- state, with the term of the last entry as LastLogTerm.
pub restart-Stores :
    (d : Disk) (s : State)
    → Stores d s
    → Returns (restart d) (λ t. Stores t s × (t.last_log_term ≡ term_or_zero (get_last? s.log)))
unfolding restart restored
restart-Stores d s st =
    let entries = log_bytes s.log ++ st.holds.entries_rest in
    let index = slots 0 s.log ++ st.holds.index_rest in
    let last = d.last_log_index in
    let small : last < 2 ^ 64 =
      omega (arith, st.holds.counted, length-log_bytes s.log, st.fits.1) in
    let opened = restored entries index last d.current_term d.voted_for in
    let there : Stores opened s = record {
      holds = record {
        entries_rest = st.holds.entries_rest;
        entries_position = 0;
        entries_hold = refl;
        index_rest = st.holds.index_rest;
        index_position = 0;
        index_hold = refl;
        counted = st.holds.counted;
      };
      fits = st.fits;
      index_cached = st.index_cached;
      at_start = λ none_left. refl;
      state_position = 20;
      state_hold = refl;
      term_kept = st.term_kept;
      vote_kept = st.vote_kept;
      term_fits = st.term_fits;
      vote_fits = st.vote_fits;
    } in
    let files : restart d ≡ reload_term opened =
      ap (λ b. load b d.index.bytes d.state.bytes) (ap Stream.bytes st.holds.entries_hold)
      ∙ ap (λ b. load entries b d.state.bytes) (ap Stream.bytes st.holds.index_hold)
      ∙ ap (load entries index) (ap Stream.bytes st.state_hold)
      ∙ load-restored entries index last d.current_term d.voted_for small st.term_fits
          st.vote_fits in
    rw files (reload_term-Stores opened s there refl)
