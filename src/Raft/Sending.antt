-- ===== src/Raft/Sending.antt =====
-- What CreateAppendEntries sends.
use miniraft_cpp.Prelude.{
  ℕ, zero, suc, ◌+◌, ◌-◌, ◌^◌, ◌≤◌, ◌<◌, ◌≡◌, refl, max, arith, length, le→leb, ok, get_elem?-some,
  drop-suc, drop, min, int64, u32, sym, ap, ◌∙◌, List, [], ℕ_discrete, length-take, length-drop,
  Returns,
}
use miniraft_cpp.Prelude.Dict
use miniraft_cpp.Messages.{LogEntry, append_entries_request}
use miniraft_cpp.State.{State, IsValid, get, term_or_zero, log_term}
use miniraft_cpp.State.Log.{log_term_at, log_term-zero}
use miniraft_cpp.State.Matching.{slice}
use miniraft_cpp.Raft.{Raft}
use miniraft_cpp.Raft.Entries.{
  create_append_entries, payload, prev_index, last_index, batch_end, count_request, entries_request,
}

-- The payload is the part of the log that the loop runs over.
payload-slice :
    (n i : ℕ) (s : State) → i + n ≤ length s.log → payload n (suc i) s ≡ ok (slice i n s.log)
unfolding payload get
payload-slice zero i s h = refl
payload-slice (suc n) i s h =
    let (e, at) = get_elem?-some s.log i (omega arith) in
    let rest = payload-slice n (suc i) s (omega arith) in rw (at, rest, drop-suc i s.log e at)

-- What a leader knows of a follower: the next entry to send is in its log or right behind it.
pub record IsReady (id : ℕ) (r : Raft) : Type 0 where
  pub valid : IsValid r.state
  pub first : 1 ≤ Dict.get_or id 0 r.volatile.next_index
  pub next : Dict.get_or id 0 r.volatile.next_index ≤ r.state.last_log_index + 1
  pub small : r.state.last_log_index < 2 ^ 62
  pub batch : Dict.get_or id 0 r.volatile.batch_size < 2 ^ 31

module _ (id : ℕ) (r : Raft) (ready : IsReady id r) where
  abbrev count : ℕ
  count = last_index id r.state r.volatile - prev_index id r.volatile

  pub prev_index_lem : prev_index id r.volatile ≡ Dict.get_or id 0 r.volatile.next_index - 1
  unfolding prev_index
  prev_index_lem = omega (arith, ready.first, ready.next, ready.small)

  pub last_index_bounds :
      (prev_index id r.volatile ≤ last_index id r.state r.volatile)
      × (last_index id r.state r.volatile ≤ r.state.last_log_index)
      × (count ≤ max 1 (Dict.get_or id 0 r.volatile.batch_size))
  unfolding last_index batch_end
  last_index_bounds = (bound_low, bound_high, bound_batch)
    where
      p : prev_index id r.volatile ≡ Dict.get_or id 0 r.volatile.next_index - 1
      p = prev_index_lem

      bound_low : prev_index id r.volatile ≤ last_index id r.state r.volatile
      bound_low = ground (arith, p, ready.first, ready.next, ready.small, ready.batch)

      bound_high : last_index id r.state r.volatile ≤ r.state.last_log_index
      bound_high = ground (arith, p, ready.first, ready.next, ready.small, ready.batch)

      bound_batch : count ≤ max 1 (Dict.get_or id 0 r.volatile.batch_size)
      bound_batch = ground (arith, p, ready.first, ready.next, ready.small, ready.batch)

  -- The message carries the part of the log from `prev_index` to `last_index`.
  pub create_append_entries-count :
      (create_append_entries id r
        ≡ ok (
          count_request id r,
          entries_request id (slice (prev_index id r.volatile) count r.state.log) r,
        ))
      × (prev_index id r.volatile + count ≤ r.state.last_log_index)
      × (count ≤ max 1 (Dict.get_or id 0 r.volatile.batch_size))
  unfolding create_append_entries
  create_append_entries-count =
      let (low, high, batch) = last_index_bounds in
      let sent =
        payload-slice count (prev_index id r.volatile) r.state
          (omega (arith, low, high, ready.valid.index_cached)) in
      (rw (sent, le→leb _ _ low), omega (arith, low, high), batch)

  -- What the leader knows of the node: the next entry to send, the last one that it has
  -- acknowledged, and the entries of a batch.
  abbrev next : ℕ
  next = Dict.get_or id 0 r.volatile.next_index

  abbrev acknowledged : ℕ
  acknowledged = Dict.get_or id 0 r.volatile.match_index

  abbrev batch : ℕ
  batch = max 1 (Dict.get_or id 0 r.volatile.batch_size)

  -- The entries to send: none while the leader looks for the place where the logs agree, then a
  -- batch of those that the node lacks.
  abbrev pub WantsEntries : List LogEntry → Type 0
  WantsEntries es =
      ((acknowledged + 1 < next → es ≡ [])
        × (next ≤ acknowledged + 1
            → es ≡ slice (next - 1) (min batch (length r.state.log - (next - 1))) r.state.log))

  pub prev_log_term_lem :
      log_term (int64 (prev_index id r.volatile)) r.state ≡ term_or_zero (get (next - 1) r.state)
  unfolding get
  prev_log_term_lem = elim (ℕ_discrete next 1) [
    | yes first ↦
        let none_before : next - 1 ≡ 0 = omega arith in
        ap (λ i. log_term (int64 i) r.state) (prev_index_lem ∙ none_before)
        ∙ log_term-zero r.state
        ∙ ap (λ i. term_or_zero (get i r.state)) (sym none_before)
    | no later ↦
        let before : next - 1 ≡ suc (next - 2) = omega (arith, later, ready.first) in
        ap (λ i. log_term (int64 i) r.state) (prev_index_lem ∙ before)
        ∙ log_term_at (next - 2) r.state ready.valid
            (omega (arith, before, ready.next, ready.small))
        ∙ ap (λ i. term_or_zero (get i r.state)) (sym before)
  ]

  count-probing : acknowledged + 1 < next → count ≡ 0
  unfolding last_index batch_end
  count-probing probing = ground (arith, prev_index_lem, ready.next, ready.small)

  count-batch :
      next ≤ acknowledged + 1
      → acknowledged + 1 < 2 ^ 64
      → count ≡ min batch (length r.state.log - (next - 1))
  unfolding last_index batch_end
  count-batch settled small = ground (
    arith, prev_index_lem, ready.first, ready.next, ready.small, ready.batch,
    ready.valid.index_cached,
  )

  entries_request_lem :
      (es : List LogEntry)
      → length es ≡ count
      → entries_request id es r
        ≡ append_entries_request
            (record { src = r.id; dst = id; term = r.state.current_term; seqno = r.seqno })
            (record {
              prev_log_index = next - 1;
              prev_log_term = term_or_zero (get (next - 1) r.state);
              leader_commit = min r.volatile.commit_index (next - 1 + length es);
              leader_id = r.id;
              nentries = length es;
            })
            es
  unfolding entries_request
  entries_request_lem es size =
      let (low, high, bounded) = last_index_bounds in
      let end : last_index id r.state r.volatile ≡ next - 1 + length es =
        omega (arith, size, low, prev_index_lem) in
      let number : u32 count ≡ length es = omega (arith, size, bounded, ready.batch) in
      rw (prev_log_term_lem, number, end, prev_index_lem) refl

  -- A leader whose next index for a node is in its log or right behind it creates a message for the
  -- node. Its payload is empty where the node has not acknowledged the entry before the next one;
  -- otherwise it has the leader's entries from the next one on, a batch of them or as many as there
  -- are. Its fields name the entry before the payload, with that entry's term, and the number of
  -- entries; the commit index that it names is the leader's, or the end of the payload if that is
  -- less. The leader keeps its state. The state is valid, the log is shorter than 2^62, the batch
  -- is below 2^31, and the index after the acknowledged one fits 64 bits.
  pub create_append_entries-slice :
      acknowledged + 1 < 2 ^ 64
      → Returns (create_append_entries id r) (λ p.
        (es : List LogEntry) × (p.1
          ≡ append_entries_request
              (record { src = r.id; dst = id; term = r.state.current_term; seqno = r.seqno })
              (record {
                prev_log_index = next - 1;
                prev_log_term = term_or_zero (get (next - 1) r.state);
                leader_commit = min r.volatile.commit_index (next - 1 + length es);
                leader_id = r.id;
                nentries = length es;
              })
              es)
        × WantsEntries es
        × (p.0.state ≡ r.state))
  create_append_entries-slice small =
      let es = slice (prev_index id r.volatile) count r.state.log in
      let (low, high, bounded) = last_index_bounds in
      let size : length es ≡ count = omega (
        arith,
        length-take count (drop (prev_index id r.volatile) r.state.log),
        length-drop (prev_index id r.volatile) r.state.log,
        low,
        high,
        ready.valid.index_cached,
      ) in
      rw create_append_entries-count.0 (
        es,
        entries_request_lem es size,
        (
          λ probing.
              ap (λ n. slice (prev_index id r.volatile) n r.state.log) (count-probing probing),
          λ settled.
              ap (λ n. slice (prev_index id r.volatile) n r.state.log) (count-batch settled small)
              ∙ ap (λ k. slice k (min batch (length r.state.log - (next - 1))) r.state.log)
                  prev_index_lem,
        ),
        unfold count_request in refl,
      )
