-- ===== src/Raft/Serving.antt =====
-- miniraft/raft.cpp, LeaderTimeout: a leader that can make messages for its nodes returns, and still can.
use miniraft_cpp.Prelude.{
  ℕ, ◌≡◌, refl, ap, ◌∙◌, inl, inr, List, [], ◌∷◌, arith, All, All-map, Bool-cases, ok, Returns,
  Returns_bind, Returns_map,
}
use miniraft_cpp.Prelude.Dict
use miniraft_cpp.Volatile.{commit_advance}
use miniraft_cpp.Raft.{Raft}
use miniraft_cpp.Raft.Entries.{count_request}
use miniraft_cpp.Raft.Timeout.{
  is_due, after_test, mark_sent, heartbeat, heartbeats, leader_timeout, commit_alone,
}
use miniraft_cpp.Raft.Sending.{IsReady, create_append_entries-count}

-- What LeaderTimeout leaves as it is.
record Served (r r' : Raft) : Type 0 where
  state : r'.state ≡ r.state
  nodes : r'.nodes ≡ r.nodes
  role : r'.state_name ≡ r.state_name
  next : (id : ℕ) → Dict.get_or id 0 r'.volatile.next_index ≡ Dict.get_or id 0 r.volatile.next_index
  batch :
      (id : ℕ) → Dict.get_or id 0 r'.volatile.batch_size ≡ Dict.get_or id 0 r.volatile.batch_size

Served-trans : {r s t : Raft} → Served r s → Served s t → Served r t
Served-trans a b = record {
  state = b.state ∙ a.state;
  nodes = b.nodes ∙ a.nodes;
  role = b.role ∙ a.role;
  next = λ id. b.next id ∙ a.next id;
  batch = λ id. b.batch id ∙ a.batch id;
}

Served-IsReady : {id : ℕ} {r r' : Raft} → Served r r' → IsReady id r → IsReady id r'
Served-IsReady {id} {r} {r'} s h =
    let last : r'.state.last_log_index ≡ r.state.last_log_index =
      ap (λ t. t.last_log_index) s.state in
    record {
      valid = rw s.state h.valid;
      first = omega (arith, s.next id, h.first);
      next = omega (arith, s.next id, last, h.next);
      small = omega (arith, last, h.small);
      batch = omega (arith, s.batch id, h.batch);
    }

after_test-next :
    (now id j : ℕ) (r : Raft)
    → Dict.get_or j 0 (after_test now id r).next_index ≡ Dict.get_or j 0 r.volatile.next_index
unfolding after_test
after_test-next now id j r = ground (arith, Dict.get_or-touch id j 0 r.volatile.next_index)

after_test-batch :
    (now id : ℕ) (r : Raft) → (after_test now id r).batch_size ≡ r.volatile.batch_size
unfolding after_test
after_test-batch now id r = ground arith

mark_sent-Served : (now id : ℕ) (r : Raft) → Served r (mark_sent now id r)
unfolding mark_sent
mark_sent-Served now id r = record {
  state = refl;
  nodes = refl;
  role = refl;
  next = λ j. after_test-next now id j r;
  batch = λ j. ap (Dict.get_or j 0) (after_test-batch now id r);
}

count_request-Served : (id : ℕ) (r : Raft) → Served r (count_request id r)
unfolding count_request
count_request-Served id r = record {
  state = refl;
  nodes = refl;
  role = refl;
  next = λ j. Dict.get_or-touch id j 0 r.volatile.next_index;
  batch = λ j. Dict.get_or-touch id j 0 r.volatile.batch_size;
}

heartbeat-Served : (now id : ℕ) (r : Raft) → IsReady id r → Returns (heartbeat now id r) (Served r)
unfolding heartbeat
heartbeat-Served now id r ready = elim (Bool-cases (is_due now id r)) [
  | inl due ↦
      let marked = mark_sent-Served now id r in
      let sent =
        create_append_entries-count id (mark_sent now id r) (Served-IsReady marked ready) in
      let counted = count_request-Served id (mark_sent now id r) in
      rw (due, sent.0)
        (Served-trans marked (record {
          state = counted.state;
          nodes = counted.nodes;
          role = counted.role;
          next = counted.next;
          batch = counted.batch;
        }))
  | inr not_due ↦ rw not_due (record {
    state = refl;
    nodes = refl;
    role = refl;
    next = λ j. after_test-next now id j r;
    batch = λ j. ap (Dict.get_or j 0) (after_test-batch now id r);
  })
]

heartbeats-Served :
    (now : ℕ) (ids : List ℕ) (r : Raft)
    → All (λ id. IsReady id r) ids
    → Returns (heartbeats now ids r) (Served r)
unfolding heartbeats
heartbeats-Served now [] r ready = record {
  state = refl;
  nodes = refl;
  role = refl;
  next = λ j. refl;
  batch = λ j. refl;
}
heartbeats-Served now (id ∷ ids) r ready =
    Returns_bind (heartbeat now id r) (heartbeats now ids) (Served r) (Served r)
      (heartbeat-Served now id r ready.0)
      (λ s a.
        Returns_map (heartbeats now ids s) (Served s) (Served r)
          (heartbeats-Served now ids s
            (All-map (λ j. IsReady j r) (λ j. IsReady j s) ids (λ j. Served-IsReady a) ready.1))
          (λ t b. Served-trans a b))

commit_alone-Served : (r : Raft) → Served r (commit_alone r)
unfolding commit_alone commit_advance
commit_alone-Served r = record {
  state = ground arith;
  nodes = ground arith;
  role = ground arith;
  next = λ j. ground arith;
  batch = λ j. ground arith;
}

-- A leader that can make a message for each of its nodes returns from LeaderTimeout in its role,
-- with its log as it was, and can make messages for the same nodes again.
pub leader_timeout_returns :
    (now : ℕ) (r : Raft)
    → All (λ id. IsReady id r) r.nodes
    → Returns (leader_timeout now r) (λ r'.
      (r'.state ≡ r.state)
      × (r'.state_name ≡ r.state_name)
      × (r'.nodes ≡ r.nodes)
      × All (λ id. IsReady id r') r'.nodes)
unfolding leader_timeout
leader_timeout_returns now r ready =
    Returns_bind (heartbeats now r.nodes r) (λ s. ok (commit_alone s)) (Served r) _
      (heartbeats-Served now r.nodes r ready)
      (λ s a.
        let b = Served-trans a (commit_alone-Served s) in
        (
          b.state,
          b.role,
          b.nodes,
          rw b.nodes (
              All-map (λ j. IsReady j r) (λ j. IsReady j (commit_alone s)) r.nodes
                (λ j. Served-IsReady b) ready),
        ))
