-- ===== src/Cluster/Logs/Steady.antt =====
-- A server's term never falls, and within a term it does not become a candidate again; so a term keeps
-- the leader that it had.
use miniraft_cpp.Prelude.{
  ℕ, ◌≤◌, ◌≡◌, ◌≢◌, refl, ap, sym, ◌∙◌, inl, inr, List, true, arith, ℕ_discrete,
}
use miniraft_cpp.Prelude.Dict
use miniraft_cpp.Raft.{Raft, candidate}
use miniraft_cpp.Cluster.{System, put, update}
use miniraft_cpp.Cluster.Turn.{
  Turn, Turns, Shift, idle, grant, backed, win, stay, adopt, campaign, done, more,
}
use miniraft_cpp.Cluster.Ballots.{Kept}
use miniraft_cpp.Cluster.Ballots.Kept.{Won-Kept}
use miniraft_cpp.Cluster.Safety.{update_self, update_other}
use miniraft_cpp.Cluster.Logs.{IsLed}

pub record Steady (r r' : Raft) : Type 0 where
  pub risen : r.state.current_term ≤ r'.state.current_term
  pub candidacy :
      r'.state.current_term ≡ r.state.current_term
      → r'.state_name ≡ candidate
      → r.state_name ≡ candidate

module _ (B : ℕ → Type 0) where
  Turn-term : {r r' : Raft} → Turn B r r' → r'.state.current_term ≡ r.state.current_term
  Turn-term (idle news i n m t v role o q) = t
  Turn-term (grant d x m i n w t v v' s u o src y known) = t
  Turn-term (backed v same t w s u b) = t
  Turn-term (win same t v c enough l) = t

  Turn-candidate :
      {r r' : Raft} → Turn B r r' → r'.state_name ≡ candidate → r.state_name ≡ candidate
  Turn-candidate (idle news i n m t v (inl role) o q) h = sym role.0 ∙ h
  Turn-candidate (idle news i n m t v (inr role) o q) h = absurd cc
  Turn-candidate (grant d x m i n w t v v' s u o src y known) h = sym s ∙ h
  Turn-candidate (backed v same t w s u b) h = sym s ∙ h
  Turn-candidate (win same t v c enough l) h = c

  pub Turns-term : {r r' : Raft} → Turns B r r' → r'.state.current_term ≡ r.state.current_term
  Turns-term done = refl
  Turns-term (more a b) = Turn-term b ∙ Turns-term a

  Turns-candidate :
      {r r' : Raft} → Turns B r r' → r'.state_name ≡ candidate → r.state_name ≡ candidate
  Turns-candidate done h = h
  Turns-candidate (more a b) h = Turns-candidate a (Turn-candidate b h)

  pub Turns-Steady : {r r₁ r' : Raft} → Shift r r₁ → Turns B r₁ r' → Steady r r'
  Turns-Steady {r} {r₁} {r'} (stay e) turns = record {
    risen = omega (arith, Turns-term turns, ap (λ k. k.state.current_term) e);
    candidacy = λ t h. ap (λ k. k.state_name) (sym e) ∙ Turns-candidate turns h;
  }
  Turns-Steady {r} {r₁} {r'} (adopt same later v f) turns = record {
    risen = omega (arith, Turns-term turns, later);
    candidacy = λ t h. absurd (omega (arith, t, Turns-term turns, later));
  }
  Turns-Steady {r} {r₁} {r'} (campaign same later v c e) turns = record {
    risen = omega (arith, Turns-term turns, later);
    candidacy = λ t h. absurd (omega (arith, t, Turns-term turns, later));
  }

-- What is led stays led.
pub IsLed-put :
    (servers : List ℕ) (s : System) (c : ℕ) (r' : Raft) (t : ℕ)
    → Kept s.ballot (put c r' s).ballot
    → Steady (s.node c) r'
    → ((d : ℕ) → Dict.contains d servers ≡ true → d ≢ 0)
    → IsLed servers s t
    → IsLed servers (put c r' s) t
IsLed-put servers s c r' t kept steady nonzero l = elim (ℕ_discrete c l.server) [
  | yes same ↦
      let here : (put c r' s).node l.server ≡ r' =
        ap (update c r' s.node) (sym same) ∙ update_self c r' s.node in
      let old : s.node c ≡ s.node l.server = ap s.node same in
      let reached : t ≤ (s.node c).state.current_term =
        omega (arith, l.reached, ap (λ k. k.state.current_term) old) in
      record {
        server = l.server;
        member = l.member;
        won = Won-Kept (nonzero l.server l.member) kept l.won;
        reached = omega (arith, reached, steady.risen, ap (λ k. k.state.current_term) here);
        elected = λ e h.
            let level : r'.state.current_term ≡ (s.node c).state.current_term =
              omega (arith, e, reached, steady.risen, ap (λ k. k.state.current_term) here) in
            let was = steady.candidacy level (ap (λ k. k.state_name) (sym here) ∙ h) in
            l.elected
              (omega (
                arith,
                e,
                level,
                ap (λ k. k.state.current_term) here,
                ap (λ k. k.state.current_term) old,
              ))
              (ap (λ k. k.state_name) (sym old) ∙ was);
      }
  | no apart ↦
      let there : (put c r' s).node l.server ≡ s.node l.server =
        update_other c l.server r' s.node apart in
      record {
        server = l.server;
        member = l.member;
        won = Won-Kept (nonzero l.server l.member) kept l.won;
        reached = omega (arith, l.reached, ap (λ k. k.state.current_term) there);
        elected = λ e h.
            l.elected (e ∙ ap (λ k. k.state.current_term) there)
              (ap (λ k. k.state_name) (sym there) ∙ h);
      }
]
