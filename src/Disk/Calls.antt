-- ===== src/Disk/Calls.antt =====
-- miniraft/persist.cpp: the other operations of TDiskState, and its constructor, on files that hold
-- a log.
use miniraft_cpp.Prelude.{
  ℕ, zero, suc, ◌-◌, ◌^◌, ◌≤◌, ◌<◌, ◌≡◌, refl, ap, sym, subst, ◌∙◌, true, inl, inr, List, [], ◌∷◌,
  ◌++◌, none, length, take, drop, drop_last, All, All-front, arith, length-append, length-take,
  length-drop_last, take_around, get_elem?-some, get_elem?-none, ltb, pos, ok, Result, Returns,
  dec_lt,
}
use miniraft_cpp.Prelude.Bytes.{to_bytes, append_assoc}
use miniraft_cpp.Messages.{LogEntry}
use miniraft_cpp.State
use miniraft_cpp.State.{State, term_or_zero}
use miniraft_cpp.Disk.{Disk, entry_bytes, get, commit, remove_last}
use miniraft_cpp.Disk.Fstream.Blocks.{stream}
use miniraft_cpp.Disk.Layout.{
  log_bytes, slots, FitsEntry, FitsLog, log_bytes-append_one, slots-append_one,
}
use miniraft_cpp.Disk.Lookup.{get-Holds}
use miniraft_cpp.Disk.Fields.{field_bytes, length-field_bytes, commit-field_bytes}
use miniraft_cpp.Disk.Stores.{Stores, last_split, Stores-after_read, get_zero, get_past}

-- TDiskState::Get answers what the log in memory has at the index, within its bounds and outside.
pub get-Stores :
    (i : ℕ) (d : Disk) (s : State)
    → Stores d s
    → Returns
        (get (pos i) d)
        (λ r. Stores r.0 s × (r.1 ≡ State.get i s) × (r.0.last_log_term ≡ d.last_log_term))
unfolding State.get
get-Stores zero d s st = rw (get_zero d) (st, refl, refl)
get-Stores (suc i) d s st = elim (dec_lt i (length s.log)) [
  | yes inside ↦
      let e = get_elem?-some s.log i inside in
      let xs = take i s.log in
      let ys = drop (suc i) s.log in
      let split = take_around i s.log e.0 e.1 in
      let place : suc (length xs) ≡ suc i = omega (arith, length-take i s.log) in
      let found =
        ap (λ n. get (pos n) d) (sym place) ∙ get-Holds d s.log xs ys e.0 st.holds split st.fits in
      rw found (Stores-after_read d s st xs ys e.0 split, sym e.1, refl)
  | no outside ↦
      let past : get (pos (suc i)) d ≡ ok (d, none) =
        get_past (suc i) d (omega (arith, st.holds.counted)) in
      rw past (st, sym (get_elem?-none s.log i (omega arith)), refl)
]

-- A log that loses its last entry still fits.
FitsLog-drop_last : (log : List LogEntry) → FitsLog log → FitsLog (drop_last log)
FitsLog-drop_last log fits = elim (last_split log) [
  | inl nothing ↦ subst (λ l. FitsLog (drop_last l)) (sym nothing) (subst FitsLog nothing fits)
  | inr r ↦
      let split = r.1 in
      let all = subst (All FitsEntry) split fits.0 in
      let size = ap length (ap log_bytes split ∙ log_bytes-append_one (drop_last log) r.0) in
      (
        All-front FitsEntry (drop_last log) (r.0 ∷ []) all,
        omega (arith, size, fits.1, length-append (log_bytes (drop_last log)) (entry_bytes r.0)),
      )
]

-- TDiskState::RemoveLast does what TState::RemoveLast does, unless the log has one entry only; it
-- leaves LastLogTerm as it is.
pub remove_last-Stores :
    (d : Disk) (s : State)
    → Stores d s
    → 2 ≤ length s.log
    → Returns
        (remove_last d)
        (λ t. Stores t (State.remove_last s) × (t.last_log_term ≡ d.last_log_term))
unfolding remove_last State.remove_last
remove_last-Stores d s st many = elim (last_split s.log) [
  | inl nothing ↦ absurd (omega (arith, ap (length {A = LogEntry}) nothing, many))
  | inr r ↦
      let xs = drop_last s.log in
      let less = length-drop_last s.log in
      let shorter : Disk = record d { last_log_index = d.last_log_index - 1 } in
      let short = length-field_bytes d.last_log_index d.current_term d.voted_for in
      let saved =
        commit-field_bytes shorter (field_bytes d.last_log_index d.current_term d.voted_for)
          st.state_position st.state_hold (omega (arith, short)) in
      let some_left : ltb 0 d.last_log_index ≡ true = ground (arith, st.holds.counted) in
      rw (some_left, saved)
        (
          (record {
            holds = record {
              entries_rest = entry_bytes r.0 ++ st.holds.entries_rest;
              entries_position = st.holds.entries_position;
              entries_hold =
                  st.holds.entries_hold
                  ∙ ap (λ b. stream b st.holds.entries_position)
                      (ap (λ b. b ++ st.holds.entries_rest)
                          (ap log_bytes r.1 ∙ log_bytes-append_one xs r.0)
                        ∙ append_assoc (log_bytes xs) (entry_bytes r.0) st.holds.entries_rest);
              index_rest = to_bytes 8 (length (log_bytes xs)) ++ st.holds.index_rest;
              index_position = st.holds.index_position;
              index_hold =
                  st.holds.index_hold
                  ∙ ap (λ b. stream b st.holds.index_position)
                      (ap (λ b. b ++ st.holds.index_rest)
                          (ap (slots 0) r.1 ∙ slots-append_one xs r.0)
                        ∙ append_assoc (slots 0 xs) (to_bytes 8 (length (log_bytes xs)))
                            st.holds.index_rest);
              counted = ap (λ n. n - 1) st.holds.counted ∙ sym less;
            };
            fits = FitsLog-drop_last s.log st.fits;
            index_cached = refl;
            at_start = λ none_left. absurd (omega (arith, less, none_left, many));
            state_position = 20;
            state_hold = refl;
            term_kept = st.term_kept;
            vote_kept = st.vote_kept;
            term_fits = st.term_fits;
            vote_fits = st.vote_fits;
          }),
          refl,
        )
]

-- Setting the term and the vote and saving them, as raft.cpp does.
unfoldable pub vote : ℕ → ℕ → Disk → Result Disk
vote term voted_for d = commit (record d { current_term = term; voted_for = voted_for })

pub vote-Stores :
    (term voted_for : ℕ) (d : Disk) (s : State)
    → Stores d s
    → term < 2 ^ 64
    → voted_for < 2 ^ 32
    → Returns (vote term voted_for d) (λ t.
      Stores t (record s { current_term = term; voted_for = voted_for })
      × (t.last_log_term ≡ d.last_log_term))
unfolding vote
vote-Stores term voted_for d s st ft fv =
    let short = length-field_bytes d.last_log_index d.current_term d.voted_for in
    let voted : Disk = record d { current_term = term; voted_for = voted_for } in
    let saved =
      commit-field_bytes voted (field_bytes d.last_log_index d.current_term d.voted_for)
        st.state_position st.state_hold (omega (arith, short)) in
    rw saved (
      record {
        holds = record {
          entries_rest = st.holds.entries_rest;
          entries_position = st.holds.entries_position;
          entries_hold = st.holds.entries_hold;
          index_rest = st.holds.index_rest;
          index_position = st.holds.index_position;
          index_hold = st.holds.index_hold;
          counted = st.holds.counted;
        };
        fits = st.fits;
        index_cached = st.index_cached;
        at_start = st.at_start;
        state_position = 20;
        state_hold = refl;
        term_kept = refl;
        vote_kept = refl;
        term_fits = ft;
        vote_fits = fv;
      },
      refl,
    )
