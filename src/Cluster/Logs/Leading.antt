-- ===== src/Cluster/Logs/Leading.antt =====
-- A leader's calls keep its role, and its messages carry parts of the log of its term.
use miniraft_cpp.Prelude.{
  ℕ, ◌<◌, ◌^◌, ◌≡◌, refl, ap, sym, subst, ◌∙◌, inl, inr, List, [], ◌∷◌, length, arith, ok, bind-ok,
  ok-injective, Bool-cases,
}
use miniraft_cpp.Messages.{Message}
use miniraft_cpp.Raft.{Raft, leader, post}
use miniraft_cpp.Raft.Entries.{create_append_entries, count_request}
use miniraft_cpp.Raft.Timeout.{
  after_test, is_due, mark_sent, heartbeat, heartbeats, commit_alone, leader_timeout, ask_all,
  approve_read,
}
use miniraft_cpp.Cluster.Logs.{History, NodeLog}
use miniraft_cpp.Cluster.Logs.Kept.{NodeLog-LogSame, LogSame-volatile}
use miniraft_cpp.Cluster.Logs.Sent.{Leads, create_append_entries-made, post_created-Leads}

-- A leader's timeout leaves its role alone.
create_append_entries-name :
    (id : ℕ) (r : Raft) {p : Raft × Message}
    → create_append_entries id r ≡ ok p
    → p.0.state_name ≡ r.state_name
create_append_entries-name id r e =
    let (es, _, eq) = create_append_entries-made id r e in
    let same : (count_request id r).state_name ≡ r.state_name = unfold count_request in refl in
    ap (λ q. q.0.state_name) eq ∙ same

heartbeats-name :
    (now : ℕ) (ids : List ℕ) (r : Raft) {r' : Raft}
    → heartbeats now ids r ≡ ok r'
    → r'.state_name ≡ r.state_name
unfolding heartbeats heartbeat mark_sent
heartbeats-name now [] r e = ap (λ k. k.state_name) (sym (ok-injective e))
heartbeats-name now (id ∷ ids) r {r'} e =
    let (s, e₁, e₂) = bind-ok (heartbeat now id r) _ e in
    heartbeats-name now ids s e₂ ∙ elim (Bool-cases (is_due now id r)) [
      | inl due ↦
          let (p, created, e₃) =
            bind-ok (create_append_entries id (mark_sent now id r)) _ (rw (due, heartbeat) at e₁) in
          ap (λ k. k.state_name) (sym (ok-injective e₃))
          ∙ create_append_entries-name id (mark_sent now id r) created
      | inr not_due ↦ ap (λ k. k.state_name) (sym (ok-injective (rw (not_due, heartbeat) at e₁)))
    ]

pub leader_timeout-name :
    (now : ℕ) (r : Raft) {r' : Raft} → leader_timeout now r ≡ ok r' → r'.state_name ≡ r.state_name
unfolding leader_timeout commit_alone
leader_timeout-name now r e =
    let (s, e₁, e₂) = bind-ok (heartbeats now r.nodes r) _ e in
    let end : (commit_alone s).state_name ≡ s.state_name = ground arith in
    ap (λ k. k.state_name) (sym (ok-injective e₂)) ∙ end ∙ heartbeats-name now r.nodes r e₁

module _ (hist : History) where
  Leads-volatile :
      (r r' : Raft)
      → r'.state ≡ r.state
      → r'.state_name ≡ r.state_name
      → r'.outbox ≡ r.outbox
      → Leads hist r
      → Leads hist r'
  Leads-volatile r r' s n o l = record {
    node = NodeLog-LogSame hist r r' (LogSame-volatile r r' s n o) l.node;
    leads = n ∙ l.leads;
    small = omega (arith, ap (λ k. length k.log) s, l.small);
  }

  heartbeat-Leads :
      (now id : ℕ) (r : Raft) {r' : Raft}
      → Leads hist r
      → heartbeat now id r ≡ ok r'
      → Leads hist r'
  unfolding heartbeat mark_sent
  heartbeat-Leads now id r {r'} l e = elim (Bool-cases (is_due now id r)) [
    | inl due ↦
        let (p, created, e₁) =
          bind-ok (create_append_entries id (mark_sent now id r)) _ (rw (due, heartbeat) at e) in
        subst (Leads hist) (ok-injective e₁) (
          post_created-Leads hist id (mark_sent now id r)
            (Leads-volatile r (mark_sent now id r) refl refl refl l) created)
    | inr not_due ↦
        subst (Leads hist) (ok-injective (rw (not_due, heartbeat) at e))
          (Leads-volatile r (record r { volatile = after_test now id r }) refl refl refl l)
  ]

  heartbeats-Leads :
      (now : ℕ) (ids : List ℕ) (r : Raft) {r' : Raft}
      → Leads hist r
      → heartbeats now ids r ≡ ok r'
      → Leads hist r'
  unfolding heartbeats
  heartbeats-Leads now [] r l e = subst (Leads hist) (ok-injective e) l
  heartbeats-Leads now (id ∷ ids) r {r'} l e =
      let (s, e₁, e₂) = bind-ok (heartbeat now id r) _ e in
      heartbeats-Leads now ids s (heartbeat-Leads now id r l e₁) e₂

  commit_alone-Leads : (r : Raft) → Leads hist r → Leads hist (commit_alone r)
  unfolding commit_alone
  commit_alone-Leads r l =
      Leads-volatile r (commit_alone r) (ground arith) (ground arith) (ground arith) l

  pub leader_timeout-NodeLog :
      (now : ℕ) (r : Raft) {r' : Raft}
      → NodeLog hist r
      → r.state_name ≡ leader
      → length r.state.log < 2 ^ 62
      → leader_timeout now r ≡ ok r'
      → NodeLog hist r'
  unfolding leader_timeout
  leader_timeout-NodeLog now r n leads small e =
      let (s, e₁, e₂) = bind-ok (heartbeats now r.nodes r) _ e in
      let start : Leads hist r = record { node = n; leads = leads; small = small } in
      subst (NodeLog hist) (ok-injective e₂)
        (commit_alone-Leads s (heartbeats-Leads now r.nodes r start e₁)).node

  ask_all-Leads :
      (ids : List ℕ) (r : Raft) {r' : Raft} → Leads hist r → ask_all ids r ≡ ok r' → Leads hist r'
  unfolding ask_all
  ask_all-Leads [] r l e = subst (Leads hist) (ok-injective e) l
  ask_all-Leads (id ∷ ids) r {r'} l e =
      let (p, created, e₁) = bind-ok (create_append_entries id r) _ e in
      ask_all-Leads ids (post id p.1 p.0) (post_created-Leads hist id r l created) e₁

  pub approve_read-NodeLog :
      (r : Raft) {n : ℕ} {r' : Raft}
      → NodeLog hist r
      → r.state_name ≡ leader
      → length r.state.log < 2 ^ 62
      → approve_read r ≡ ok (n, r')
      → NodeLog hist r'
  unfolding approve_read
  approve_read-NodeLog r n leads small e =
      let (s, e₁, e₂) = bind-ok (ask_all r.nodes r) _ e in
      let start : Leads hist r = record { node = n; leads = leads; small = small } in
      subst (NodeLog hist) (ap (λ q. q.1) (ok-injective e₂)) (ask_all-Leads r.nodes r start e₁).node
