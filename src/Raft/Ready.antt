-- ===== src/Raft/Ready.antt =====
-- miniraft/raft.cpp: what a leader knows of its followers, and that its operations keep it such that
-- CreateAppendEntries can make a message.
use miniraft_cpp.Prelude.{
  ℕ, ◌+◌, ◌-◌, ◌^◌, ◌≤◌, ◌<◌, ◌≡◌, refl, inl, inr, List, [], ◌∷◌, true, false, not, arith, max,
  if◌then◌else◌, ltb, ◌==◌, add64, Bool-cases, ℕ_discrete, length-append,
}
use miniraft_cpp.Prelude.Dict
use miniraft_cpp.Messages.{MessageEx, AppendEntriesResponse}
use miniraft_cpp.State.{State, IsValid, append}
use miniraft_cpp.State.Log.{append-IsValid}
use miniraft_cpp.Volatile.{Volatile, commit_advance}
use miniraft_cpp.Raft.{Raft, for_nodes}
use miniraft_cpp.Raft.Entries.{advance, retreat, on_append_entries_response}
use miniraft_cpp.Raft.Timeout.{become_leader}
use miniraft_cpp.Raft.Sending.{IsReady}

get_or-for_nodes :
    (k : ℕ) (ids : List ℕ) (v : ℕ) (d : Dict.Dict ℕ)
    → Dict.get_or k 0 (for_nodes ids v d) ≡ (if Dict.contains k ids then v else Dict.get_or k 0 d)
unfolding for_nodes Dict.contains
get_or-for_nodes k [] v d = refl
get_or-for_nodes k (id ∷ ids) v d =
    ground (arith, get_or-for_nodes k ids v (Dict.set id v d), Dict.get_or-set id k v 0 d)

-- A new leader can make a message for every node.
pub become_leader-IsReady :
    (id : ℕ) (r : Raft)
    → IsValid r.state
    → r.state.last_log_index + 1 < 2 ^ 62
    → Dict.contains id r.nodes ≡ true
    → IsReady id (become_leader r)
unfolding append Dict.get_or become_leader
become_leader-IsReady id r v small known =
    let next : Dict.get_or id 0 (for_nodes r.nodes (add64 r.state.last_log_index 1) [])
        ≡ r.state.last_log_index + 1 =
      ground (arith, get_or-for_nodes id r.nodes (add64 r.state.last_log_index 1) []) in
    let grown =
      length-append r.state.log
        (record { term = r.state.current_term; flags = 1; data_bytes = [] } ∷ []) in
    record {
      valid = append-IsValid _ r.state;
      first = omega (arith, next);
      next = omega (arith, next, grown, v.index_cached);
      small = omega (arith, grown, v.index_cached);
      batch = omega arith;
    }

-- What IsReady depends on.
abbrev pub Ready : ℕ → State → Volatile → Type 0
Ready id s v =
    (1 ≤ Dict.get_or id 0 v.next_index)
    × (Dict.get_or id 0 v.next_index ≤ s.last_log_index + 1)
    × (Dict.get_or id 0 v.batch_size < 2 ^ 31)

commit_advance-next :
    (n : ℕ) (s : State) (k : ℕ) (v : Volatile) → (commit_advance n s k v).next_index ≡ v.next_index
unfolding commit_advance
commit_advance-next n s k v = ground arith

commit_advance-batch :
    (n : ℕ) (s : State) (k : ℕ) (v : Volatile) → (commit_advance n s k v).batch_size ≡ v.batch_size
unfolding commit_advance
commit_advance-batch n s k v = ground arith

advance-Ready :
    (id n match : ℕ) (x : MessageEx) (s : State) (v : Volatile)
    → s.last_log_index < 2 ^ 62
    → match ≤ s.last_log_index
    → Ready id s v
    → Ready id s (advance n match x s v)
unfolding advance
advance-Ready id n match x s v small le h =
    rw (commit_advance-next, commit_advance-batch)
      (
        ground (arith, Dict.get_or-set x.src id (add64 match 1) 0 v.next_index),
        ground (arith, Dict.get_or-set x.src id (add64 match 1) 0 v.next_index),
        ground (arith, Dict.get_or-set x.src id 1024 0 v.batch_size),
      )

-- The next index after a refusal.
abbrev pub stepped : MessageEx → Volatile → ℕ
stepped x v =
    let back_off = max (Dict.get_or x.src 0 v.back_off) 1 in
    let old = Dict.get_or x.src 0 v.next_index in
    max 1 (if ltb back_off old then old - back_off else 0)

pub retreat-next :
    (id : ℕ) (x : MessageEx) (v : Volatile)
    → Dict.get_or id 0 (retreat x v).next_index
      ≡ (if x.src == id then stepped x v else Dict.get_or id 0 v.next_index)
unfolding retreat
retreat-next id x v = Dict.get_or-set x.src id (stepped x v) 0 v.next_index

retreat-batch :
    (id : ℕ) (x : MessageEx) (v : Volatile)
    → Dict.get_or id 0 (retreat x v).batch_size
      ≡ (if x.src == id then 1 else Dict.get_or id 0 v.batch_size)
unfolding retreat
retreat-batch id x v = Dict.get_or-set x.src id 1 0 v.batch_size

stepped-bounds :
    (x : MessageEx) (v : Volatile) (last : ℕ)
    → Dict.get_or x.src 0 v.next_index ≤ last + 1
    → (1 ≤ stepped x v) × (stepped x v ≤ last + 1)
stepped-bounds x v last h = (ground arith, ground arith)

retreat-Ready :
    (id : ℕ) (x : MessageEx) (s : State) (v : Volatile) → Ready id s v → Ready id s (retreat x v)
retreat-Ready id x s v h = elim (ℕ_discrete x.src id) [
  | yes same ↦
      let hit : (x.src == id) ≡ true = ground arith in
      let (low, high) = stepped-bounds x v s.last_log_index (rw same h.1) in
      let next : Dict.get_or id 0 (retreat x v).next_index ≡ stepped x v =
        ground (arith, retreat-next id x v) in
      (omega arith, omega arith, ground (arith, retreat-batch id x v))
  | no apart ↦
      let miss : (x.src == id) ≡ false = ground arith in
      rw (retreat-next id x v, retreat-batch id x v, miss) h
]

-- A response, of a follower that has acknowledged no more than the leader's log, leaves the server
-- able to make a message for any node for which it could make one.
pub on_append_entries_response-IsReady :
    (id : ℕ) (x : MessageEx) (m : AppendEntriesResponse) (r : Raft)
    → m.match_index ≤ r.state.last_log_index
    → IsReady id r
    → IsReady id (on_append_entries_response x m r)
unfolding on_append_entries_response
on_append_entries_response-IsReady id x m r le h =
    elim (Bool-cases (not (x.term == r.state.current_term))) [
      | inl stale ↦ rw (stale, on_append_entries_response) h
      | inr timely ↦ elim (Bool-cases m.success) [
        | inl success ↦
            rw (timely, success, on_append_entries_response)
              (with_volatile (
                advance-Ready id r.nservers m.match_index x r.state r.volatile h.small le
                  (h.first, h.next, h.batch)))
        | inr refused ↦
            rw (timely, refused, on_append_entries_response)
              (with_volatile (retreat-Ready id x r.state r.volatile (h.first, h.next, h.batch)))
      ]
    ]
  where
    with_volatile : {v : Volatile} → Ready id r.state v → IsReady id (record r { volatile = v })
    with_volatile k = record {
      valid = h.valid;
      first = k.0;
      next = k.1;
      small = h.small;
      batch = k.2;
    }
