-- ===== src/Cluster/SoundTimeout.antt =====
-- The timeouts of miniraft/raft.cpp make moves of an election, and no others.
use miniraft_cpp.Prelude.{
  ℕ, ◌+◌, ◌^◌, ◌<◌, ◌≡◌, refl, sym, subst, inl, inr, List, [], ◌∷◌, true, false, ◌&&◌, ◌||◌, leb,
  length, All, arith, ok, Bool-cases, bind-ok, ok-injective,
}
use miniraft_cpp.Prelude.Dict
use miniraft_cpp.Prelude.Sets.{Within-refl}
use miniraft_cpp.Messages.{LogEntry}
use miniraft_cpp.State.{append}
use miniraft_cpp.Raft.{Raft, Role, candidate, follower, leader}
use miniraft_cpp.Raft.Votes.{create_vote}
use miniraft_cpp.Raft.Timeout.{
  ask_vote, ask_votes, candidate_timeout, follower_timeout, heartbeats, leader_timeout,
  maybe_start_election, count_votes, role_timeout, process_timeout, is_candidate, is_follower,
  append_entry,
}
use miniraft_cpp.Cluster.Turn.{Turn, Shift, stay, campaign, win, Turns, done, more}
use miniraft_cpp.Cluster.Sound.{calm, still, post-Turn}
use miniraft_cpp.Cluster.SoundSending.{trans, heartbeats-Turns, commit_alone-Turn}

-- ProcessTimeout first starts an election, or none.
pub maybe_start_election-Shift :
    (now : ℕ) (r : Raft) → r.state.current_term + 1 < 2 ^ 64 → Shift r (maybe_start_election now r)
unfolding maybe_start_election
maybe_start_election-Shift now r room =
    elim (Bool-cases (
      (is_candidate r.state_name || is_follower r.state_name) && leb r.volatile.election_due now)) [
        | inl due ↦
            rw (due, maybe_start_election)
              (campaign (record { id = refl; nodes = refl; min_votes = refl; outbox = refl })
                (omega arith) refl refl refl)
        | inr not_due ↦ rw (not_due, maybe_start_election) (stay refl)
      ]

pub is_candidate-eq : (role : Role) → is_candidate role ≡ true → role ≡ candidate
unfolding is_candidate
is_candidate-eq candidate h = refl
is_candidate-eq Role.none h = cc
is_candidate-eq follower h = cc
is_candidate-eq leader h = cc

module _ (Backer : ℕ → Type 0) where
  count_votes-Turn : (r : Raft) → Turn Backer r (count_votes r)
  unfolding count_votes append
  count_votes-Turn r =
      elim (Bool-cases
        (is_candidate r.state_name && leb r.min_votes (length r.volatile.votes + 1))) [
          | inl enough ↦
              rw (enough, count_votes)
                (win (record { id = refl; nodes = refl; min_votes = refl; outbox = refl }) refl refl
                  (is_candidate-eq r.state_name (ground arith)) (ground arith) refl)
          | inr few ↦ rw (few, count_votes) (still Backer r)
        ]

  -- A server that is still a follower by then is not due: FollowerTimeout does nothing.
  follower_timeout-idle :
      (now : ℕ) (r : Raft)
      → (count_votes (maybe_start_election now r)).state_name ≡ follower
      → leb (count_votes (maybe_start_election now r)).volatile.election_due now ≡ false
  unfolding count_votes maybe_start_election
  follower_timeout-idle now r h = ground arith

  pub append_entry-Turn : (e : LogEntry) (r : Raft) → Turn Backer r (append_entry e r).1
  unfolding append_entry append
  append_entry-Turn e r =
      calm Backer (record { id = refl; nodes = refl; min_votes = refl; outbox = refl }) refl refl
        (inl (refl, refl))

  ask_vote-Turns :
      (now id : ℕ) (r : Raft)
      → Dict.contains id r.nodes ≡ true
      → Turns Backer r (ask_vote now id r) × ((ask_vote now id r).nodes ≡ r.nodes)
  unfolding ask_vote create_vote
  ask_vote-Turns now id r known =
      elim (Bool-cases (leb (Dict.get_or id 0 r.volatile.rpc_due) now)) [
        | inl due ↦
            rw (due, ask_vote)
              (
                more
                    (more done (
                      calm Backer
                        (record { id = refl; nodes = refl; min_votes = refl; outbox = refl }) refl
                        refl (inl (refl, refl))))
                    (post-Turn Backer id _ _ known (refl, refl)),
                refl,
              )
        | inr not_due ↦
            rw (not_due, ask_vote)
              (
                more done (
                    calm Backer
                      (record { id = refl; nodes = refl; min_votes = refl; outbox = refl }) refl
                      refl (inl (refl, refl))),
                refl,
              )
      ]

  ask_votes-Turns :
      (now : ℕ) (ids : List ℕ) (r : Raft)
      → All (λ id. Dict.contains id r.nodes ≡ true) ids
      → Turns Backer r (ask_votes now ids r)
  unfolding ask_votes
  ask_votes-Turns now [] r known = done
  ask_votes-Turns now (id ∷ ids) r known =
      let (t, n) = ask_vote-Turns now id r known.0 in
      trans Backer t (
        ask_votes-Turns now ids (ask_vote now id r)
          (subst (λ ns. All (λ i. Dict.contains i ns ≡ true) ids) (sym n) known.1))

  role_timeout-Turns :
      (role : Role) (now : ℕ) (r : Raft) {r' : Raft}
      → (role ≡ follower → leb r.volatile.election_due now ≡ false)
      → role_timeout role now r ≡ ok r'
      → Turns Backer r r'
  unfolding role_timeout candidate_timeout follower_timeout leader_timeout
  role_timeout-Turns Role.none now r h e = absurd (ground arith)
  role_timeout-Turns candidate now r h e =
      subst (Turns Backer r) (ok-injective e) (ask_votes-Turns now r.nodes r (Within-refl r.nodes))
  role_timeout-Turns follower now r h e =
      subst (Turns Backer r) (ok-injective (rw (h refl) at e)) done
  role_timeout-Turns leader now r h e =
      let (s, e₁, e₂) = bind-ok (heartbeats now r.nodes r) _ e in
      subst (Turns Backer r) (ok-injective e₂) (
        more (heartbeats-Turns Backer now r.nodes r (Within-refl r.nodes) e₁)
          (commit_alone-Turn Backer s))

  -- ProcessTimeout may start an election, and then makes moves within the term.
  pub process_timeout-Turns :
      (now : ℕ) (r : Raft) {r' : Raft}
      → process_timeout now r ≡ ok r'
      → Turns Backer (maybe_start_election now r) r'
  unfolding process_timeout
  process_timeout-Turns now r e =
      let r₁ = maybe_start_election now r in
      trans Backer (more done (count_votes-Turn r₁)) (
        role_timeout-Turns (count_votes r₁).state_name now (count_votes r₁)
          (follower_timeout-idle now r) e)
