-- ===== src/Cluster/Logs/Timeouts.antt =====
-- ProcessTimeout on logs that agree with the history: a server that wins an election starts the log of
-- its term.
use miniraft_cpp.Prelude.{
  ℕ, ◌+◌, ◌≤◌, ◌<◌, ◌^◌, ◌≡◌, ◌≢◌, ◌⊎◌, refl, ap, sym, subst, ◌∙◌, inl, inr, List, [], ◌∷◌, ◌++◌,
  true, false, length, leb, ◌&&◌, arith, ok, Bool-cases, ok-injective, length-append,
}
use mathlib.Core.List.{append-nil}
use miniraft_cpp.Prelude.Dict
use miniraft_cpp.Messages.{LogEntry}
use miniraft_cpp.State
use miniraft_cpp.State.Log.{append-IsValid}
use miniraft_cpp.Raft.{Raft, Role, candidate, follower, leader}
use miniraft_cpp.Raft.Timeout.{
  maybe_start_election, count_votes, become_leader, stub, role_timeout, process_timeout,
  candidate_timeout, follower_timeout, is_candidate, leader_timeout,
}
use miniraft_cpp.Cluster.{System, put}
use miniraft_cpp.Cluster.Turn.{stay, adopt, campaign}
use miniraft_cpp.Cluster.Ballots.{Won, ElectionInv}
use miniraft_cpp.Cluster.Ballots.Kept.{Won-Kept}
use miniraft_cpp.Cluster.SoundTimeout.{maybe_start_election-Shift, is_candidate-eq}
use miniraft_cpp.Cluster.SoundTimeout.{process_timeout-Turns}
use miniraft_cpp.Cluster.Safety.{server_nonzero, Won-unique, update_self, Advanced}
use miniraft_cpp.Cluster.Logs.{History, NodeLog, LogInv, Extends}
use miniraft_cpp.Cluster.Logs.Extended.{Extends-refl}
use miniraft_cpp.Cluster.Logs.Kept.{NodeLog-LogSame}
use miniraft_cpp.Cluster.Logs.Campaigns.{ask_votes-NodeLog, maybe_start_election-LogSame}
use miniraft_cpp.Cluster.Logs.Leading.{leader_timeout-NodeLog, leader_timeout-name}
use miniraft_cpp.Cluster.Logs.Grown.{with_log, NodeLog-longer, grown-Extends}
use miniraft_cpp.Cluster.Logs.Steady.{Turns-Steady, Turns-term}
use miniraft_cpp.Cluster.Logs.Steps.{put-same, put-grown}

-- The timeouts of a server in its role.
module _ (hist : History) (now : ℕ) (r : Raft) (small : length r.state.log < 2 ^ 62) where
  follower_timeout-NodeLog : NodeLog hist r → NodeLog hist (follower_timeout now r)
  unfolding follower_timeout
  follower_timeout-NodeLog n = elim (Bool-cases (leb r.volatile.election_due now)) [
    | inl due ↦ rw due (
        NodeLog-LogSame hist r _
          (record {
            log = refl;
            index = refl;
            last = refl;
            term = omega arith;
            role = λ h. absurd cc;
            news = [];
            outbox = sym (append-nil r.outbox);
            quiet = tt;
          })
          n)
    | inr not_due ↦ rw not_due n
  ]

  role_timeout-NodeLog :
      (role : Role) {r' : Raft}
      → r.state_name ≡ role
      → NodeLog hist r
      → role_timeout role now r ≡ ok r'
      → NodeLog hist r'
  unfolding role_timeout candidate_timeout
  role_timeout-NodeLog Role.none h n e = absurd (ground arith)
  role_timeout-NodeLog candidate h n e =
      subst (NodeLog hist) (ok-injective e) (ask_votes-NodeLog hist now r.nodes r n)
  role_timeout-NodeLog follower h n e =
      subst (NodeLog hist) (ok-injective e) (follower_timeout-NodeLog n)
  role_timeout-NodeLog leader h n e = leader_timeout-NodeLog hist now r n h small e

-- A server that wins has the log of its term from then on.
become_leader-NodeLog :
    (hist : History) (r : Raft)
    → NodeLog hist r
    → hist r.state.current_term ≡ []
    → NodeLog
        (with_log r.state.current_term (r.state.log ++ stub r.state.current_term ∷ []) hist)
        (become_leader r)
unfolding become_leader State.append
become_leader-NodeLog hist r n nothing =
    NodeLog-longer hist r.state.log (stub r.state.current_term) n.coherent n.terms n.positive
      (inl nothing) r (become_leader r) n refl refl
      (append-IsValid (stub r.state.current_term) r.state) refl refl

module _ (servers : List ℕ) (none_zero : Dict.contains 0 servers ≡ false) (s : System) where
  -- Before a server wins a term, the term has no log.
  not_led :
      (hist : History) (c now : ℕ) (t : System)
      → LogInv servers hist s
      → Dict.contains c servers ≡ true
      → Advanced servers none_zero s t
      → (s.node c).state.current_term + 1 < 2 ^ 64
      → (maybe_start_election now (s.node c)).state_name ≡ candidate
      → Won servers t.ballot c (maybe_start_election now (s.node c)).state.current_term
      → hist (maybe_start_election now (s.node c)).state.current_term ≡ []
  not_led hist c now t v mc adv room role won =
      let r = s.node c in
      let term = (maybe_start_election now r).state.current_term in
      elim (empty_or_not (hist term)) [
        | inl nothing ↦ nothing
        | inr some_log ↦ absurd (
            let l = v.led term some_log in
            let was =
              Won-Kept (server_nonzero servers none_zero l.server l.member) adv.kept l.won in
            let same : l.server ≡ c =
              Won-unique servers none_zero t.ballot l.server c term was won in
            let reached : term ≤ r.state.current_term =
              subst (λ d. term ≤ (s.node d).state.current_term) same l.reached in
            let elected : term ≡ r.state.current_term → r.state_name ≢ candidate =
              subst (λ d. term ≡ (s.node d).state.current_term → (s.node d).state_name ≢ candidate)
                same l.elected in
            elim (maybe_start_election-Shift now r room) [
              | stay e ↦
                  elected (ap (λ k. k.state.current_term) e) (ap (λ k. k.state_name) (sym e) ∙ role)
              | adopt same later x y ↦ omega (arith, later, reached)
              | campaign same later x y z ↦ omega (arith, later, reached)
            ])
      ]
    where
      empty_or_not : (xs : List LogEntry) → (xs ≡ []) ⊎ (xs ≢ [])
      empty_or_not [] = inl refl
      empty_or_not (x ∷ xs) = inr (λ e. cc)

  -- The step, without and with a win.
  pub timeout-LogInv :
      (hist : History) (c now : ℕ) (r' : Raft)
      → LogInv servers hist s
      → Dict.contains c servers ≡ true
      → ElectionInv servers s
      → Advanced servers none_zero s (put c r' s)
      → (s.node c).state.current_term + 1 < 2 ^ 64
      → length (s.node c).state.log + 1 < 2 ^ 62
      → process_timeout now (s.node c) ≡ ok r'
      → (hist' : History) × Extends hist hist' × LogInv servers hist' (put c r' s)
  unfolding process_timeout count_votes role_timeout leader_timeout
  timeout-LogInv hist c now r' v mc election adv room space e =
      let r = s.node c in
      let r₁ = maybe_start_election now r in
      let same = maybe_start_election-LogSame now r room in
      let n₁ = NodeLog-LogSame hist r r₁ same (v.nodes c mc) in
      let moves = process_timeout-Turns (λ d. Unit) now r e in
      let steady = Turns-Steady (λ d. Unit) (maybe_start_election-Shift now r room) moves in
      let small₁ : length r₁.state.log + 1 < 2 ^ 62 = omega (arith, ap length same.log, space) in
      elim (Bool-cases
        (is_candidate r₁.state_name && leb r₁.min_votes (length r₁.volatile.votes + 1))) [
          | inr few ↦
              let idle : count_votes r₁ ≡ r₁ = rw few refl in
              let e₁ : role_timeout r₁.state_name now r₁ ≡ ok r' =
                subst (λ k. role_timeout k.state_name now k ≡ ok r') idle e in
              (
                hist,
                Extends-refl hist,
                put-same servers none_zero s c r' hist v adv.kept steady (
                    role_timeout-NodeLog hist now r₁ (omega (arith, small₁)) r₁.state_name refl n₁
                      e₁),
              )
          | inl enough ↦
              let term = r₁.state.current_term in
              let r₂ = become_leader r₁ in
              let wins : count_votes r₁ ≡ r₂ = rw enough refl in
              let e₂ : role_timeout leader now r₂ ≡ ok r' =
                subst (λ k. role_timeout k.state_name now k ≡ ok r') wins e in
              let leads : r'.state_name ≡ leader = leader_timeout-name now r₂ e₂ in
              let level : r'.state.current_term ≡ term = Turns-term (λ d. Unit) moves in
              let here = update_self c r' s.node in
              let won : Won servers (put c r' s).ballot c term =
                subst (Won servers (put c r' s).ballot c)
                  (ap (λ k. k.state.current_term) here ∙ level)
                  ((adv.inv c mc).won (ap (λ k. k.state_name) here ∙ leads)) in
              let role = is_candidate-eq r₁.state_name (ground arith) in
              let nothing = not_led hist c now (put c r' s) v mc adv room role won in
              let hist' = with_log term (r₁.state.log ++ stub term ∷ []) hist in
              let n₂ = become_leader-NodeLog hist r₁ n₁ nothing in
              let longer : length r₂.state.log < 2 ^ 62 =
                unfold become_leader State.append in
                omega (arith, length-append r₁.state.log (stub term ∷ []), small₁) in
              (
                hist',
                grown-Extends hist r₁.state.log (stub term) n₁.coherent n₁.terms n₁.positive
                    (inl nothing),
                put-grown servers none_zero s c r₁ r' (stub term) hist v mc election adv steady n₁
                    (inl nothing) n₁.positive leads level
                    (leader_timeout-NodeLog hist' now r₂ n₂ refl longer e₂),
              )
        ]
