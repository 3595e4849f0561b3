-- ===== src/Cluster/Logs/Steps.antt =====
-- Every step of a cluster in which only leaders take commands keeps the logs coherent.
use miniraft_cpp.Prelude.{
  ℕ, ◌+◌, ◌<◌, ◌^◌, ◌≡◌, ◌≢◌, ◌⊎◌, ap, sym, subst, ◌∙◌, inl, inr, List, [], ◌∷◌, ◌++◌, true, false,
  length, arith, ℕ_discrete,
}
use miniraft_cpp.Prelude.Dict
use miniraft_cpp.Messages.{LogEntry}
use miniraft_cpp.State.Replace.{HaveTerms}
use miniraft_cpp.Raft.{Raft, leader}
use miniraft_cpp.Cluster.{System, Step, client_write, client_read, put, update}
use miniraft_cpp.Cluster.Ballots.{Kept, Won, ElectionInv}
use miniraft_cpp.Cluster.Ballots.Kept.{Won-Kept}
use miniraft_cpp.Cluster.Safety.{server_nonzero, Won-unique, update_self, update_other, Advanced}
use miniraft_cpp.Cluster.Logs.{History, IsCoherent, NodeLog, IsLed, LogInv}
use miniraft_cpp.Cluster.Logs.Grown.{
  with_log, with_log_other, grown-IsCoherent, grown-HaveTerms, NodeLog-grown,
}
use miniraft_cpp.Cluster.Logs.Steady.{Steady, IsLed-put}

-- A step in which a server takes a command only while it leads, as the request processor sees to.
abbrev pub IsOrdered : {servers : List ℕ} {s t : System} → Step servers s t → Type 0
IsOrdered {s = s} (client_write c e mc) = (s.node c).state_name ≡ leader
IsOrdered {s = s} (client_read c mc e) = (s.node c).state_name ≡ leader
IsOrdered _ = Unit

-- The logs have room for another entry.
abbrev pub HasRoom : List ℕ → System → Type 0
HasRoom servers s =
    (c : ℕ) → Dict.contains c servers ≡ true → length (s.node c).state.log + 1 < 2 ^ 62

module _ (servers : List ℕ) (none_zero : Dict.contains 0 servers ≡ false) (s : System) where
  -- One server moves; the history may grow.
  put-LogInv :
      (c : ℕ) (r' : Raft) (hist hist' : History)
      → LogInv servers hist s
      → Kept s.ballot (put c r' s).ballot
      → Steady (s.node c) r'
      → NodeLog hist' r'
      → ((d : ℕ) → Dict.contains d servers ≡ true → c ≢ d → NodeLog hist' (s.node d))
      → ((t : ℕ) → IsCoherent hist' (hist' t))
      → ((t : ℕ) → HaveTerms (hist' t))
      → ((t : ℕ) → hist' t ≢ [] → (hist t ≢ []) ⊎ IsLed servers (put c r' s) t)
      → LogInv servers hist' (put c r' s)
  put-LogInv c r' hist hist' v kept steady own others logs terms led = record {
    nodes = λ d md. elim (ℕ_discrete c d) [
      | yes same ↦
          subst (NodeLog hist') (sym (ap (update c r' s.node) (sym same) ∙ update_self c r' s.node))
            own
      | no apart ↦
          subst (NodeLog hist') (sym (update_other c d r' s.node apart)) (others d md apart)
    ];
    logs = logs;
    log_terms = terms;
    led = λ t some_log. elim (led t some_log) [
      | inl had ↦
          IsLed-put servers s c r' t kept steady (server_nonzero servers none_zero) (v.led t had)
      | inr new ↦ new
    ];
  }

  -- The history stays as it is.
  pub put-same :
      (c : ℕ) (r' : Raft) (hist : History)
      → LogInv servers hist s
      → Kept s.ballot (put c r' s).ballot
      → Steady (s.node c) r'
      → NodeLog hist r'
      → LogInv servers hist (put c r' s)
  put-same c r' hist v kept steady own =
      put-LogInv c r' hist hist v kept steady own (λ d md apart. v.nodes d md) v.logs v.log_terms
        (λ t h. inl h)

  -- A leader of a term is the server that has the votes of the term.
  leader_unique : (n : ℕ → ℕ → ℕ) (c d t : ℕ) → Won servers n c t → Won servers n d t → c ≢ d → ⊥
  leader_unique n c d t wc wd apart = apart (Won-unique servers none_zero n c d t wc wd)

  -- A leader's log has a new entry of its term.
  pub put-grown :
      (c : ℕ) (r r' : Raft) (e : LogEntry) (hist : History)
      → LogInv servers hist s
      → Dict.contains c servers ≡ true
      → ElectionInv servers s
      → Advanced servers none_zero s (put c r' s)
      → Steady (s.node c) r'
      → NodeLog hist r
      → (hist e.term ≡ []) ⊎ (hist e.term ≡ r.state.log)
      → 0 < e.term
      → r'.state_name ≡ leader
      → r'.state.current_term ≡ e.term
      → NodeLog (with_log e.term (r.state.log ++ e ∷ []) hist) r'
      → LogInv servers (with_log e.term (r.state.log ++ e ∷ []) hist) (put c r' s)
  put-grown c r r' e hist v mc election adv steady n own positive leads level node =
      let xs = r.state.log in
      let hist' = with_log e.term (xs ++ e ∷ []) hist in
      let here = update_self c r' s.node in
      let won : Won servers (put c r' s).ballot c e.term =
        subst (Won servers (put c r' s).ballot c) (ap (λ k. k.state.current_term) here ∙ level)
          ((adv.inv c mc).won (ap (λ k. k.state_name) here ∙ leads)) in
      put-LogInv c r' hist hist' v adv.kept steady node
        (λ d md apart.
          NodeLog-grown hist xs e n.coherent n.terms positive own (s.node d)
            (λ other same.
              leader_unique (put c r' s).ballot c d e.term won
                (Won-Kept (server_nonzero servers none_zero d md) adv.kept
                  (subst (Won servers s.ballot d) same ((election d md).won other)))
                apart)
            (v.nodes d md))
        (grown-IsCoherent hist xs e n.coherent n.terms positive own v.logs)
        (grown-HaveTerms hist xs e n.coherent n.terms positive own v.log_terms)
        (λ t some_log. elim (ℕ_discrete e.term t) [
          | no apart ↦ inl (λ h. some_log (with_log_other e.term t (xs ++ e ∷ []) hist apart ∙ h))
          | yes same ↦ inr (record {
            server = c;
            member = mc;
            won = subst (Won servers (put c r' s).ballot c) same won;
            reached = omega (arith, same, level, ap (λ k. k.state.current_term) here);
            elected = λ t h. let l = ap (λ k. k.state_name) here in absurd cc;
          })
        ])
