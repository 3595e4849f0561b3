-- ===== src/Processor/Leadership.antt =====
-- miniraft/raft.cpp: TRequestProcessor::CheckStateChange on a server that has become a leader.
use miniraft_cpp.Prelude.{
  ℕ, suc, ◌-◌, ◌≡◌, ◌≢◌, refl, sym, ap, ◌∙◌, inl, inr, List, [], ◌∷◌, true, leb, ok, Bool-cases,
  bind-ok, ok-injective, guard, null_message, arith,
}
use miniraft_cpp.Messages.{Message}
use miniraft_cpp.Volatile.{commit_advance}
use miniraft_cpp.Raft.{Raft, Role, candidate, follower, leader}
use miniraft_cpp.Raft.Entries.{
  create_append_entries, payload, prev_index, last_index, count_request,
}
use miniraft_cpp.Raft.Timeout.{
  after_test, is_due, mark_sent, heartbeat, heartbeats, leader_timeout, commit_alone,
  maybe_start_election, count_votes, follower_timeout, candidate_timeout, role_timeout,
  process_timeout,
}
use miniraft_cpp.Raft.Ticking.{ask_votes-role}
use miniraft_cpp.Rsm.{Rsm}
use miniraft_cpp.Processor.{Processor}
use miniraft_cpp.Processor.Requests.{waits_for_leader, check_state_change, is_empty}

-- What the sending of messages leaves as it is.
abbrev Leads : Raft → Raft → Type 0
Leads r r' = r'.volatile.leader_id ≡ r.volatile.leader_id

create_append_entries-Leads :
    (id : ℕ) (r : Raft) {p : Raft × Message} → create_append_entries id r ≡ ok p → Leads r p.0
unfolding create_append_entries count_request
create_append_entries-Leads id r e =
    let (_, _, e₁) =
      bind-ok
        (guard (leb (prev_index id r.volatile) (last_index id r.state r.volatile)) null_message) _
        e in
    let (es, _, e₂) =
      bind-ok
        (payload (last_index id r.state r.volatile - prev_index id r.volatile)
          (suc (prev_index id r.volatile)) r.state)
        _ e₁ in
    ap (λ p. p.0.volatile.leader_id) (sym (ok-injective e₂))

after_test-Leads : (now id : ℕ) (r : Raft) → (after_test now id r).leader_id ≡ r.volatile.leader_id
unfolding after_test
after_test-Leads now id r = ground arith

heartbeat-Leads : (now id : ℕ) (r : Raft) {r' : Raft} → heartbeat now id r ≡ ok r' → Leads r r'
unfolding heartbeat mark_sent
heartbeat-Leads now id r {r'} e = elim (Bool-cases (is_due now id r)) [
  | inl due ↦
      let (p, created, e₁) =
        bind-ok (create_append_entries id (mark_sent now id r)) _ (rw (due, heartbeat) at e) in
      ap (λ t. t.volatile.leader_id) (sym (ok-injective e₁))
      ∙ create_append_entries-Leads id (mark_sent now id r) created
      ∙ after_test-Leads now id r
  | inr not_due ↦
      ap (λ t. t.volatile.leader_id) (sym (ok-injective (rw (not_due, heartbeat) at e)))
      ∙ after_test-Leads now id r
]

heartbeats-Leads :
    (now : ℕ) (ids : List ℕ) (r : Raft) {r' : Raft} → heartbeats now ids r ≡ ok r' → Leads r r'
unfolding heartbeats
heartbeats-Leads now [] r e = ap (λ t. t.volatile.leader_id) (sym (ok-injective e))
heartbeats-Leads now (id ∷ ids) r e =
    let (s, first, rest) = bind-ok (heartbeat now id r) _ e in
    heartbeats-Leads now ids s rest ∙ heartbeat-Leads now id r first

commit_alone-Leads : (r : Raft) → Leads r (commit_alone r)
unfolding commit_alone commit_advance
commit_alone-Leads r = ground arith

leader_timeout-Leads : (now : ℕ) (r : Raft) {r' : Raft} → leader_timeout now r ≡ ok r' → Leads r r'
unfolding leader_timeout
leader_timeout-Leads now r e =
    let (s, sent, e₁) = bind-ok (heartbeats now r.nodes r) _ e in
    ap (λ t. t.volatile.leader_id) (sym (ok-injective e₁))
    ∙ commit_alone-Leads s
    ∙ heartbeats-Leads now r.nodes r sent

-- Only a server that starts its turn as a leader, or is elected in it, ends it as one.
role_timeout-Leads :
    (role : Role) (now : ℕ) (r : Raft) {r' : Raft}
    → r.state_name ≡ role
    → role_timeout role now r ≡ ok r'
    → r'.state_name ≡ leader
    → (r.state_name ≡ leader) × Leads r r'
unfolding role_timeout candidate_timeout follower_timeout
role_timeout-Leads Role.none now r h e l = absurd (cc)
role_timeout-Leads leader now r h e l = (h, leader_timeout-Leads now r e)
role_timeout-Leads candidate now r h e l = absurd (
    let c : candidate ≡ leader =
      sym h ∙ sym (ask_votes-role now r.nodes r) ∙ ap (λ t. t.state_name) (ok-injective e) ∙ l in
    cc)
role_timeout-Leads follower now r {r'} h e l = absurd (
    let c : (follower_timeout now r).state_name ≡ leader =
      ap (λ t. t.state_name) (ok-injective e) ∙ l in
    ground arith)

-- A server that is elected forgets the leader that it knew.
elected-leader :
    (now : ℕ) (r : Raft)
    → r.state_name ≢ leader
    → (count_votes (maybe_start_election now r)).state_name ≡ leader
    → (count_votes (maybe_start_election now r)).volatile.leader_id ≡ 0
unfolding count_votes maybe_start_election
elected-leader now r h e = ground arith

waits_for-nobody : (role : Role) → waits_for_leader role 0 ≡ true
unfolding waits_for_leader
waits_for-nobody candidate = refl
waits_for-nobody Role.none = refl
waits_for-nobody follower = refl
waits_for-nobody leader = refl

-- When a timeout makes a server the leader, the requests that waited for a leader go on waiting:
-- CheckStateChange does nothing.
pub check_state_change_elected :
    (m : Rsm) (now : ℕ) (p : Processor m.Machine) (r : Raft)
    → p.raft.state_name ≢ leader
    → process_timeout now p.raft ≡ ok r
    → r.state_name ≡ leader
    → check_state_change m (record p { raft = r }) ≡ ok (record p { raft = r })
unfolding check_state_change process_timeout
check_state_change_elected m now p r h e l =
    let c = count_votes (maybe_start_election now p.raft) in
    let (elected, leads) = role_timeout-Leads c.state_name now c refl e l in
    let none_known : r.volatile.leader_id ≡ 0 = leads ∙ elected-leader now p.raft h elected in
    elim (Bool-cases (is_empty p.waiting_state_change)) [
      | inl none_held ↦ rw none_held refl
      | inr held ↦ rw (held, none_known, waits_for-nobody r.state_name) refl
    ]
