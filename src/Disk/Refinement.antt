-- ===== src/Disk/Refinement.antt =====
-- miniraft/persist.h and miniraft/state.h: TDiskState against TState, both behind IState, for every
-- sequence of calls and restarts.
use miniraft_cpp.Prelude.{
  ℕ, ◌≤◌, ◌<◌, ◌^◌, ◌≡◌, refl, ap, sym, ◌∙◌, List, [], ◌∷◌, ◌++◌, Option, none, length, get_last?,
  pos, ok, Result, Returns, Returns_bind, ◌>>=◌,
}
use miniraft_cpp.Messages.{LogEntry}
use miniraft_cpp.State
use miniraft_cpp.State.{State, term_or_zero}
use miniraft_cpp.Disk.{Disk, get, remove_last, append}
use miniraft_cpp.Disk.Layout.{FitsLog}
use miniraft_cpp.Disk.Stores.{Stores}
use miniraft_cpp.Disk.Append.{append-Stores}
use miniraft_cpp.Disk.Calls.{vote, get-Stores, remove_last-Stores, vote-Stores}
use miniraft_cpp.Disk.Restart.{restart, restart-Stores}

-- The calls of IState, a saved change of its fields, and a restart of the process.
pub data Call : Type 0 where
  append_entry : LogEntry → Call
  remove_entry : Call
  get_entry : ℕ → Call
  set_vote : ℕ → ℕ → Call
  reopen : Call

-- What a caller sees after a call: the entry it asked for, and the fields.
pub record Reply : Type 0 where
  pub entry : Option LogEntry
  pub last_log_index : ℕ
  pub last_log_term : ℕ
  pub current_term : ℕ
  pub voted_for : ℕ

abbrev pub without_entry : Disk → Result (Disk × Option LogEntry)
without_entry d = ok (d, none)

unfoldable pub disk_call : Call → Disk → Result (Disk × Option LogEntry)
disk_call (append_entry e) d = append e d >>= without_entry
disk_call remove_entry d = remove_last d >>= without_entry
disk_call (get_entry i) d = get (pos i) d
disk_call (set_vote term voted_for) d = vote term voted_for d >>= without_entry
disk_call reopen d = restart d >>= without_entry

unfoldable pub memory_call : Call → State → State × Option LogEntry
memory_call (append_entry e) s = (State.append e s, none)
memory_call remove_entry s = (State.remove_last s, none)
memory_call (get_entry i) s = (s, State.get i s)
memory_call (set_vote term voted_for) s =
    (record s { current_term = term; voted_for = voted_for }, none)
memory_call reopen s = (s, none)

unfoldable pub disk_reply : Disk → Option LogEntry → Reply
disk_reply d entry = record {
  entry = entry;
  last_log_index = d.last_log_index;
  last_log_term = d.last_log_term;
  current_term = d.current_term;
  voted_for = d.voted_for;
}

-- The term that a TDiskState has as LastLogTerm after a call: that of the entry that it appended,
-- which a removal leaves as it is, and after a restart that of the last entry of the log. TState has
-- the term of the last entry at all times.
unfoldable pub noted_term : Call → State → ℕ → ℕ
noted_term (append_entry e) s t = e.term
noted_term remove_entry s t = t
noted_term (get_entry i) s t = t
noted_term (set_vote term voted_for) s t = t
noted_term reopen s t = term_or_zero (get_last? s.log)

unfoldable pub memory_reply : State → ℕ → Option LogEntry → Reply
memory_reply s t entry = record {
  entry = entry;
  last_log_index = s.last_log_index;
  last_log_term = t;
  current_term = s.current_term;
  voted_for = s.voted_for;
}

unfoldable pub run_disk : List Call → Disk → Result (Disk × List Reply)
run_disk [] d = ok (d, [])
run_disk (c ∷ cs) d = do
  t ← disk_call c d
  rest ← run_disk cs t.0
  ok (rest.0, disk_reply t.0 t.1 ∷ rest.1)

-- The calls on the log in memory; `t` is the term that was noted last.
unfoldable pub run_memory : List Call → State → ℕ → State × List Reply
run_memory [] s t = (s, [])
run_memory (c ∷ cs) s t =
    let m = memory_call c s in
    let t' = noted_term c s t in
    let rest = run_memory cs m.0 t' in (rest.0, memory_reply m.0 t' m.1 ∷ rest.1)

-- What a call needs: numbers that fit their fields, a log that fits the files' offsets, and never
-- the removal of the only entry.
abbrev pub Permitted : Call → State → Type 0
Permitted (append_entry e) s = FitsLog (s.log ++ e ∷ [])
Permitted remove_entry s = 2 ≤ length s.log
Permitted (get_entry i) s = Unit
Permitted (set_vote term voted_for) s = (term < 2 ^ 64) × (voted_for < 2 ^ 32)
Permitted reopen s = Unit

unfoldable pub AllPermitted : List Call → State → Type 0
AllPermitted [] s = Unit
AllPermitted (c ∷ cs) s = Permitted c s × AllPermitted cs (memory_call c s).0

-- One call.
disk_call-memory_call :
    (c : Call) (d : Disk) (s : State)
    → Stores d s
    → Permitted c s
    → Returns (disk_call c d) (λ r.
      Stores r.0 (memory_call c s).0
      × (r.1 ≡ (memory_call c s).1)
      × (r.0.last_log_term ≡ noted_term c s d.last_log_term))
unfolding disk_call memory_call noted_term
disk_call-memory_call (append_entry e) d s st p =
    Returns_bind (append e d) without_entry _ _ (append-Stores e d s st p) (λ t h. (h.0, refl, h.1))
disk_call-memory_call remove_entry d s st p =
    Returns_bind (remove_last d) without_entry _ _ (remove_last-Stores d s st p)
      (λ t h. (h.0, refl, h.1))
disk_call-memory_call (get_entry i) d s st p = get-Stores i d s st
disk_call-memory_call (set_vote term voted_for) d s st p =
    Returns_bind (vote term voted_for d) without_entry _ _
      (vote-Stores term voted_for d s st p.0 p.1) (λ t h. (h.0, refl, h.1))
disk_call-memory_call reopen d s st p =
    Returns_bind (restart d) without_entry _ _ (restart-Stores d s st) (λ t h. (h.0, refl, h.1))

disk_reply-memory_reply :
    (d : Disk) (s : State) (t : ℕ) (o : Option LogEntry)
    → Stores d s
    → d.last_log_term ≡ t
    → disk_reply d o ≡ memory_reply s t o
unfolding disk_reply memory_reply
disk_reply-memory_reply d s t o st noted =
    let a = st.holds.counted ∙ sym st.index_cached in
    let b = st.term_kept in let c = st.vote_kept in cc

run_disk-noted :
    (cs : List Call) (d : Disk) (s : State) (t : ℕ)
    → Stores d s
    → d.last_log_term ≡ t
    → AllPermitted cs s
    → Returns
        (run_disk cs d)
        (λ r. Stores r.0 (run_memory cs s t).0 × (r.1 ≡ (run_memory cs s t).1))
unfolding run_disk run_memory AllPermitted
run_disk-noted [] d s t st noted p = (st, refl)
run_disk-noted (c ∷ cs) d s t st noted p =
    let m = memory_call c s in
    let t' = noted_term c s t in
    Returns_bind (disk_call c d) _ _ _ (disk_call-memory_call c d s st p.0) (λ x h.
      let now : x.0.last_log_term ≡ t' = h.2 ∙ ap (noted_term c s) noted in
      Returns_bind (run_disk cs x.0) _ _ _ (run_disk-noted cs x.0 m.0 t' h.0 now p.1) (λ r k. (
        k.0,
        let head : disk_reply x.0 x.1 ≡ memory_reply m.0 t' m.1 =
              ap (disk_reply x.0) h.1 ∙ disk_reply-memory_reply x.0 m.0 t' m.1 h.0 now in
            let tail = k.1 in cc,
      )))

-- Every sequence of appends, removals, lookups, saved votes and restarts on the files returns, and
-- gives the entries and the fields that the log in memory gives, which does not notice a restart;
-- but for LastLogTerm, which is the term of the entry that was appended last, also where that was
-- removed, or, after a restart, of the last entry of the log, and before either what the disk had
-- at the start. The disk stands for the memory at the start, the numbers fit their fields, the
-- offsets fit 64 bits, and no call removes the only entry.
pub run_disk-run_memory :
    (cs : List Call) (d : Disk) (s : State)
    → Stores d s
    → AllPermitted cs s
    → Returns (run_disk cs d) (λ r.
      Stores r.0 (run_memory cs s d.last_log_term).0 × (r.1 ≡ (run_memory cs s d.last_log_term).1))
run_disk-run_memory cs d s st p = run_disk-noted cs d s d.last_log_term st refl p
