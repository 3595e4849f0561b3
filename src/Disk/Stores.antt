-- ===== src/Disk/Stores.antt =====
-- miniraft/persist.cpp: the files of TDiskState stand for the fields and the log of TState.
use miniraft_cpp.Prelude.{
  ℕ, ◌+◌, ◌*◌, ◌^◌, ◌<◌, ◌≡◌, refl, ap, List, [], ◌∷◌, ◌++◌, none, length, drop_last, arith, lt→ltb,
  pos, int64, ok, inl, inr, ◌⊎◌,
}
use miniraft_cpp.Messages.{LogEntry, log_entry_len}
use miniraft_cpp.State.{State}
use miniraft_cpp.Disk.{Disk, get}
use miniraft_cpp.Disk.Fstream.Blocks.{stream}
use miniraft_cpp.Disk.Layout.{log_bytes, FitsLog, FitsLog-bounds}
use miniraft_cpp.Disk.Lookup.{Holds, after_read}
use miniraft_cpp.Disk.Fields.{field_bytes}

-- The disk stands for the state: the files hold the log and the fields, and the stream of the
-- entries is at its start as long as there are none.
pub record Stores (d : Disk) (s : State) : Type 0 where
  pub holds : Holds d s.log
  pub fits : FitsLog s.log
  pub index_cached : s.last_log_index ≡ length s.log
  pub at_start : length s.log ≡ 0 → holds.entries_position ≡ 0
  pub state_position : ℕ
  pub state_hold :
      d.state ≡ stream (field_bytes d.last_log_index d.current_term d.voted_for) state_position
  pub term_kept : d.current_term ≡ s.current_term
  pub vote_kept : d.voted_for ≡ s.voted_for
  pub term_fits : d.current_term < 2 ^ 64
  pub vote_fits : d.voted_for < 2 ^ 32

-- A list that is not empty ends in an element.
pub last_split : {A : Type 0} (xs : List A) → (xs ≡ []) ⊎ ((y : A) × (xs ≡ drop_last xs ++ y ∷ []))
last_split [] = inl refl
last_split (x ∷ []) = inr (x, refl)
last_split {A} (x ∷ y ∷ xs) = elim (last_split (y ∷ xs)) [
  | inl e ↦ inr (y, absurd (omega (arith, ap (length {A = A}) e)))
  | inr r ↦ inr (r.0, ap (◌∷◌ x) r.1)
]

-- Reading an entry leaves the disk standing for the same state.
pub Stores-after_read :
    (d : Disk) (s : State) (st : Stores d s) (xs ys : List LogEntry) (e : LogEntry)
    → s.log ≡ xs ++ e ∷ ys
    → Stores (after_read d s.log st.holds xs e) s
Stores-after_read d s st xs ys e split = record {
  holds = record {
    entries_rest = st.holds.entries_rest;
    entries_position = length (log_bytes xs) + log_entry_len e;
    entries_hold = refl;
    index_rest = st.holds.index_rest;
    index_position = length xs * 8 + 8;
    index_hold = refl;
    counted = st.holds.counted;
  };
  fits = st.fits;
  index_cached = st.index_cached;
  at_start =
      λ none_left. absurd (omega (arith, FitsLog-bounds s.log xs ys e split st.fits, none_left));
  state_position = st.state_position;
  state_hold = st.state_hold;
  term_kept = st.term_kept;
  vote_kept = st.vote_kept;
  term_fits = st.term_fits;
  vote_fits = st.vote_fits;
}

-- LastLogTerm is not among the fields that the files keep.
pub Stores-last_log_term :
    (t : ℕ) (d : Disk) (s : State) → Stores d s → Stores (record d { last_log_term = t }) s
Stores-last_log_term t d s st = record {
  holds = record {
    entries_rest = st.holds.entries_rest;
    entries_position = st.holds.entries_position;
    entries_hold = st.holds.entries_hold;
    index_rest = st.holds.index_rest;
    index_position = st.holds.index_position;
    index_hold = st.holds.index_hold;
    counted = st.holds.counted;
  };
  fits = st.fits;
  index_cached = st.index_cached;
  at_start = st.at_start;
  state_position = st.state_position;
  state_hold = st.state_hold;
  term_kept = st.term_kept;
  vote_kept = st.vote_kept;
  term_fits = st.term_fits;
  vote_fits = st.vote_fits;
}

pub get_zero : (d : Disk) → get (pos 0) d ≡ ok (d, none)
unfolding get
get_zero d = ground arith

pub get_past : (i : ℕ) (d : Disk) → d.last_log_index < i → get (pos i) d ≡ ok (d, none)
unfolding get
get_past i d h = ground arith

pub int64_small : (n : ℕ) → n * 8 < 2 ^ 64 → int64 n ≡ pos n
int64_small n h = rw (lt→ltb n (2 ^ 63) (omega arith)) refl
