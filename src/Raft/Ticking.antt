-- ===== src/Raft/Ticking.antt =====
-- miniraft/raft.cpp, TRaft::ProcessTimeout: that it returns.
use miniraft_cpp.Prelude.{
  ℕ, ◌+◌, ◌^◌, ◌<◌, ◌≡◌, ◌≢◌, refl, sym, ◌∙◌, inl, inr, List, [], ◌∷◌, true, arith, leb, length,
  ◌&&◌, ◌||◌, Bool-cases, Returns, Returns_map, All, All-map,
}
use miniraft_cpp.Prelude.Dict
use miniraft_cpp.Prelude.Sets.{Within-refl}
use miniraft_cpp.State.{IsValid}
use miniraft_cpp.State.Log.{append-IsValid}
use miniraft_cpp.Raft.{Raft, Role, candidate, follower, leader}
use miniraft_cpp.Raft.Timeout.{
  maybe_start_election, count_votes, become_leader, is_candidate, is_follower, role_timeout,
  process_timeout, ask_vote, ask_votes, candidate_timeout, follower_timeout,
}
use miniraft_cpp.Raft.Sending.{IsReady}
use miniraft_cpp.Raft.Ready.{become_leader-IsReady}
use miniraft_cpp.Raft.Serving.{leader_timeout_returns}

-- A leader can make a message for each of its nodes.
abbrev pub LeaderReady : Raft → Type 0
LeaderReady r = r.state_name ≡ leader → All (λ id. IsReady id r) r.nodes

-- What ProcessTimeout needs, and leaves.
pub record Ticks (r : Raft) : Type 0 where
  pub role : r.state_name ≢ Role.none
  pub valid : IsValid r.state
  pub ready : LeaderReady r

maybe_start_election-Ticks : (now : ℕ) (r : Raft) → Ticks r → Ticks (maybe_start_election now r)
unfolding maybe_start_election
maybe_start_election-Ticks now r t =
    elim (Bool-cases (
      (is_candidate r.state_name || is_follower r.state_name) && leb r.volatile.election_due now)) [
        | inl due ↦
            rw (due, maybe_start_election)
              (record {
                role = λ e. cc;
                valid = record {
                  index_cached = t.valid.index_cached;
                  term_cached = t.valid.term_cached;
                };
                ready = λ e. absurd cc;
              })
        | inr not_due ↦ rw (not_due, maybe_start_election) t
      ]

maybe_start_election-last :
    (now : ℕ) (r : Raft)
    → (maybe_start_election now r).state.last_log_index ≡ r.state.last_log_index
unfolding maybe_start_election
maybe_start_election-last now r = ground arith

count_votes-Ticks :
    (r : Raft) → r.state.last_log_index + 1 < 2 ^ 62 → Ticks r → Ticks (count_votes r)
unfolding count_votes
count_votes-Ticks r small t =
    elim (Bool-cases (is_candidate r.state_name && leb r.min_votes (length r.volatile.votes + 1))) [
      | inl enough ↦
          rw (enough, count_votes)
            (record {
              role = λ e. cc;
              valid = append-IsValid _ r.state;
              ready = λ e.
                  All-map (λ id. Dict.contains id r.nodes ≡ true)
                    (λ id. IsReady id (become_leader r)) r.nodes
                    (λ id k. become_leader-IsReady id r t.valid small k) (Within-refl r.nodes);
            })
      | inr few ↦ rw (few, count_votes) t
    ]

ask_votes-state : (now : ℕ) (ids : List ℕ) (r : Raft) → (ask_votes now ids r).state ≡ r.state
unfolding ask_votes ask_vote
ask_votes-state now [] r = refl
ask_votes-state now (id ∷ ids) r = ask_votes-state now ids (ask_vote now id r) ∙ ground arith

pub ask_votes-role :
    (now : ℕ) (ids : List ℕ) (r : Raft) → (ask_votes now ids r).state_name ≡ r.state_name
unfolding ask_votes ask_vote
ask_votes-role now [] r = refl
ask_votes-role now (id ∷ ids) r = ask_votes-role now ids (ask_vote now id r) ∙ ground arith

role_timeout-Ticks :
    (role : Role) (now : ℕ) (r : Raft)
    → r.state_name ≡ role
    → Ticks r
    → Returns (role_timeout role now r) Ticks
unfolding role_timeout candidate_timeout follower_timeout
role_timeout-Ticks Role.none now r e t = absurd (t.role e)
role_timeout-Ticks leader now r e t =
    Returns_map (role_timeout leader now r) _ Ticks (leader_timeout_returns now r (t.ready e))
      (λ r' h. record {
        role = λ n. t.role (sym h.1 ∙ n);
        valid = rw h.0 t.valid;
        ready = λ l. h.3;
      })
role_timeout-Ticks candidate now r e t = record {
  role = λ n. t.role (sym (ask_votes-role now r.nodes r) ∙ n);
  valid = rw (ask_votes-state now r.nodes r) t.valid;
  ready = λ l.
      absurd (let c : candidate ≡ leader = sym e ∙ sym (ask_votes-role now r.nodes r) ∙ l in cc);
}
role_timeout-Ticks follower now r e t = elim (Bool-cases (leb r.volatile.election_due now)) [
  | inl due ↦ rw due (record { role = λ n. cc; valid = t.valid; ready = λ l. absurd cc })
  | inr not_due ↦ rw not_due t
]

-- ProcessTimeout returns, in every role, and may be called again: the log is still valid, the
-- server is in one of the three roles, and if it is the leader, it can make a message for each of
-- its nodes. A server that is the leader when it is called can, and the log has room.
pub process_timeout_returns :
    (now : ℕ) (r : Raft)
    → r.state.last_log_index + 1 < 2 ^ 62
    → Ticks r
    → Returns (process_timeout now r) Ticks
unfolding process_timeout
process_timeout_returns now r small t =
    let a = maybe_start_election now r in
    role_timeout-Ticks (count_votes a).state_name now (count_votes a) refl (
      count_votes-Ticks a (omega (arith, maybe_start_election-last now r))
        (maybe_start_election-Ticks now r t))
