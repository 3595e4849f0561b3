-- ===== src/Raft/Entries.antt =====
-- miniraft/raft.cpp: OnAppendEntries for requests and for responses, and CreateAppendEntries.
use miniraft_cpp.Prelude.{
  ℕ, zero, suc, ◌-◌, ◌*◌, Bool, true, false, ◌&&◌, ◌||◌, not, ltb, leb, ◌==◌, if◌then◌else◌, List,
  [], ◌∷◌, min, max, add64, sub64, u32, int64, Result, ok, out_of_bounds, null_message,
  assert_failed, guard, or_fail, ◌>>=◌, ◌>>◌,
}
use miniraft_cpp.Prelude.Dict
use miniraft_cpp.Messages.{
  LogEntry, Message, MessageEx, AppendEntriesRequest, AppendEntriesResponse, append_entries_request,
  append_entries_response,
}
use miniraft_cpp.State.{State, log_term, get}
use miniraft_cpp.State.Replace.{put_entries}
use miniraft_cpp.Volatile.{
  Volatile, set_leader_id, set_commit_index, set_match_index, set_next_index, set_rpc_due,
  set_batch_size, set_back_off, commit_advance,
}
use miniraft_cpp.Raft.{Raft, follower, become, send, restart_election}

-- The guard on the entry before the payload.
unfoldable pub matches_previous : AppendEntriesRequest → State → Bool
matches_previous m s =
    m.prev_log_index == 0
    || (leb m.prev_log_index s.last_log_index
        && log_term (int64 m.prev_log_index) s == m.prev_log_term)

abbrev pub entries_reply : Raft → MessageEx → ℕ → Bool → Message
entries_reply r x match_index success =
    append_entries_response
      (record { src = r.id; dst = x.src; term = r.state.current_term; seqno = x.seqno })
      (record { match_index = match_index; success = success })

-- What OnAppendEntries computes before it replies: matchIndex, commitIndex, success, the state.
pub record Outcome : Type 0 where
  pub match_index : ℕ
  pub commit_index : ℕ
  pub success : Bool
  pub state : State

unfoldable pub take_entries : AppendEntriesRequest → List LogEntry → ℕ → State → Outcome
unfolding matches_previous
take_entries m es commit s =
    let (index, s') = put_entries m.prev_log_index es s in
    if matches_previous m s
    then record {
      match_index = index;
      commit_index = max commit m.leader_commit;
      success = true;
      state = s';
    }
    else record { match_index = 0; commit_index = commit; success = false; state = s }

-- The calls on VolatileState that end OnAppendEntries, with MakeElection, and Become(FOLLOWER).
unfoldable pub follow : ℕ → AppendEntriesRequest → Outcome → Raft → Raft
follow now m out r =
    let r' = restart_election now r in
    become follower (record r' {
      state = out.state;
      volatile = set_commit_index out.commit_index (set_leader_id m.leader_id r'.volatile);
    })

-- TRaft::OnAppendEntries, for a request and its payload.
unfoldable pub on_append_entries_request :
    ℕ → MessageEx → AppendEntriesRequest → List LogEntry → Raft → Result Raft
unfolding take_entries follow
on_append_entries_request now x m es r =
    if ltb x.term r.state.current_term then send x.src (entries_reply r x 0 false) r else do
      guard (x.term == r.state.current_term) assert_failed
      let out = take_entries m es r.volatile.commit_index r.state
      send x.src (entries_reply r x out.match_index out.success) (follow now m out r)

-- The two branches of TRaft::OnAppendEntries, for a response.
unfoldable pub advance : ℕ → ℕ → MessageEx → State → Volatile → Volatile
advance nservers match_index x s v = commit_advance nservers s x.seqno (
    set_back_off x.src 1 (
      set_batch_size x.src 1024 (
        set_rpc_due x.src 0 (
          set_next_index x.src (add64 match_index 1)
            (set_match_index x.src (max (Dict.get_or x.src 0 v.match_index) match_index) v)))))

unfoldable pub retreat : MessageEx → Volatile → Volatile
retreat x v =
    let back_off = max (Dict.get_or x.src 0 v.back_off) 1 in
    let old = Dict.get_or x.src 0 v.next_index in
    let next_index = if ltb back_off old then old - back_off else 0 in
    set_back_off x.src (min 32768 (back_off * 2))
      (set_batch_size x.src 1 (set_rpc_due x.src 0 (set_next_index x.src (max 1 next_index) v)))

-- TRaft::OnAppendEntries, for a response.
unfoldable pub on_append_entries_response : MessageEx → AppendEntriesResponse → Raft → Raft
unfolding advance retreat
on_append_entries_response x m r =
    if not (x.term == r.state.current_term)
    then r
    else if m.success
    then record r { volatile = advance r.nservers m.match_index x r.state r.volatile }
    else record r { volatile = retreat x r.volatile }

-- for (auto i = prevIndex + 1; i <= lastIndex; i++) mes.Payload[j++] = State->Get(i);
-- by the number of rounds.
unfoldable pub payload : ℕ → ℕ → State → Result (List LogEntry)
payload zero i s = ok []
payload (suc n) i s = do e ← or_fail (get i s) out_of_bounds; es ← payload n (suc i) s; ok (e ∷ es)

-- The last index that a request carries.
unfoldable pub batch_end : ℕ → ℕ → ℕ → ℕ → ℕ → ℕ
batch_end prev_index batch_size match_index next_index last_log_index =
    if ltb (add64 match_index 1) next_index
    then prev_index
    else min (add64 prev_index batch_size) last_log_index

-- `prevIndex` and `lastIndex` of CreateAppendEntries.
unfoldable pub prev_index : ℕ → Volatile → ℕ
prev_index node_id v = sub64 (Dict.get_or node_id 0 v.next_index) 1

unfoldable pub last_index : ℕ → State → Volatile → ℕ
unfolding batch_end prev_index
last_index node_id s v =
    batch_end (prev_index node_id v) (max 1 (Dict.get_or node_id 0 v.batch_size))
      (Dict.get_or node_id 0 v.match_index) (Dict.get_or node_id 0 v.next_index) s.last_log_index

-- The message, with its payload.
unfoldable pub entries_request : ℕ → List LogEntry → Raft → Message
entries_request node_id es r =
    append_entries_request
      (record { src = r.id; dst = node_id; term = r.state.current_term; seqno = r.seqno })
      (record {
        prev_log_index = prev_index node_id r.volatile;
        prev_log_term = log_term (int64 (prev_index node_id r.volatile)) r.state;
        leader_commit = min r.volatile.commit_index (last_index node_id r.state r.volatile);
        leader_id = r.id;
        nentries = u32 (last_index node_id r.state r.volatile - prev_index node_id r.volatile);
      })
      es

-- What CreateAppendEntries changes: `Seqno++`, and the keys that its reads of the maps add.
unfoldable pub count_request : ℕ → Raft → Raft
count_request node_id r = record r {
  seqno = add64 r.seqno 1;
  volatile = record (r.volatile) {
    batch_size = Dict.touch node_id 0 r.volatile.batch_size;
    next_index = Dict.touch node_id 0 r.volatile.next_index;
    match_index = Dict.touch node_id 0 r.volatile.match_index;
  };
}

-- TRaft::CreateAppendEntries. Where `lastIndex - prevIndex` would wrap, the payload would be one of
-- empty holders, which the first use of a message dereferences.
unfoldable pub create_append_entries : ℕ → Raft → Result (Raft × Message)
create_append_entries node_id r =
    let prev = prev_index node_id r.volatile in
    let last = last_index node_id r.state r.volatile in
    do
      guard (leb prev last) null_message
      es ← payload (last - prev) (suc prev) r.state
      ok (count_request node_id r, entries_request node_id es r)
