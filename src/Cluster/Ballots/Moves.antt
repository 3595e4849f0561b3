-- ===== src/Cluster/Ballots/Moves.antt =====
-- Moves in sequence, and moves to a later term, keep the invariant of elections.
use miniraft_cpp.Prelude.{
  ℕ, ◌+◌, ◌≤◌, ◌<◌, ◌≡◌, ◌≢◌, refl, sym, subst, ap, ◌∙◌, ◌⊎◌, inr, List, [], true, false, All,
  length, arith,
}
use miniraft_cpp.Prelude.Dict
use miniraft_cpp.Prelude.Sets.{Distinct}
use miniraft_cpp.Raft.{Raft, candidate, leader, votes_needed}
use miniraft_cpp.Cluster.{note_ballot}
use miniraft_cpp.Cluster.Turn.{
  Turn, Shift, Same, idle, grant, backed, win, stay, adopt, campaign, Turns, done, more,
}
use miniraft_cpp.Cluster.Ballots.{Kept, Backer, Sent, NodeInv}
use miniraft_cpp.Cluster.Ballots.Kept.{Sent-kept, NodeInv-Kept}
use miniraft_cpp.Cluster.Ballots.Keep.{now-Kept, Turn-NodeInv}

pub Kept-trans : {n n' n'' : ℕ → ℕ → ℕ} → Kept n n' → Kept n' n'' → Kept n n''
Kept-trans a b v t h = ground (arith, a v t, b v t)

-- What a move within a term does to the term and the vote.
record SameTerm (r r' : Raft) : Type 0 where
  term : r'.state.current_term ≡ r.state.current_term
  vote : (r.state.voted_for ≡ 0) ⊎ (r'.state.voted_for ≡ r.state.voted_for)

Turn-SameTerm : {B : ℕ → Type 0} {r r' : Raft} → Turn B r r' → SameTerm r r'
Turn-SameTerm (idle news i n m t vote role out quiet) = record { term = t; vote = inr vote }
Turn-SameTerm (grant d x m i n mv t free vote role votes out src term known) = record {
  term = t;
  vote = ground arith;
}
Turn-SameTerm (backed d same t vote role votes backs) = record { term = t; vote = inr vote }
Turn-SameTerm (win same t vote cand enough lead) = record { term = t; vote = inr vote }

module _ (servers : List ℕ) (b : ℕ → ℕ → ℕ) (c : ℕ) (nonzero : c ≢ 0)
    (none_zero : Dict.contains 0 servers ≡ false) (member : Dict.contains c servers ≡ true) where
  pub record Reached (r r' : Raft) : Type 0 where
    pub inv : NodeInv servers (note_ballot c r' b) c r'
    pub term : r'.state.current_term ≡ r.state.current_term
    pub kept : Kept (note_ballot c r b) (note_ballot c r' b)

  pub Turns-Reached :
      {r r' : Raft}
      → NodeInv servers (note_ballot c r b) c r
      → Turns (Backer servers b c r.state.current_term) r r'
      → Reached r r'
  Turns-Reached v done = record { inv = v; term = refl; kept = λ u t h. refl }
  Turns-Reached {r} v (more {s} {t} ts turn) =
      let before = Turns-Reached v ts in
      let same = Turn-SameTerm turn in
      record {
        inv =
            Turn-NodeInv servers b c nonzero none_zero s t before.inv member
              (subst (λ e. Turn (Backer servers b c e) s t) (sym before.term) turn);
        term = same.term ∙ before.term;
        kept =
            Kept-trans before.kept (now-Kept servers b c nonzero none_zero s t same.term same.vote);
      }

  -- A new term: no vote of the server in it was recorded before.
  later-Kept :
      (r r' : Raft)
      → NodeInv servers b c r
      → r.state.current_term < r'.state.current_term
      → Kept b (note_ballot c r' b)
  later-Kept r r' v later u t h = ground (arith, v.ahead t)

  later-NodeInv :
      (r r' : Raft)
      → NodeInv servers b c r
      → Same r r'
      → r.state.current_term < r'.state.current_term
      → (r'.state_name ≡ candidate → (r'.state.voted_for ≡ c) × (r'.volatile.votes ≡ []))
      → r'.state_name ≢ leader
      → NodeInv servers (note_ballot c r' b) c r'
  later-NodeInv r r' v s later cand not_leader = record {
    own = s.id ∙ v.own;
    rule = s.min_votes ∙ v.rule ∙ ap (λ ns. votes_needed (length ns)) (sym s.nodes);
    size = subst (λ ns. length servers ≤ length ns + 1) (sym s.nodes) v.size;
    peers =
        subst (λ ns. All (λ d. (Dict.contains d servers ≡ true) × (d ≢ c)) ns) (sym s.nodes)
          v.peers;
    held = ground arith;
    ahead = λ t h. ground (arith, v.ahead t);
    own_vote = λ e. (cand e).0;
    distinct = λ e. subst Distinct (sym (cand e).1) tt;
    backers = λ e.
        subst (All (Backer servers (note_ballot c r' b) c r'.state.current_term)) (sym (cand e).1)
          tt;
    won = λ e. absurd (not_leader e);
    sent =
        subst (All (Sent (note_ballot c r' b) c)) (sym s.outbox)
          (Sent-kept b (note_ballot c r' b) c r.outbox (later-Kept r r' v later) v.sent);
  }

  pub record Shifted (r : Raft) : Type 0 where
    pub inv : NodeInv servers (note_ballot c r b) c r
    pub kept : Kept b (note_ballot c r b)

  pub Shift-Shifted : {r r' : Raft} → NodeInv servers b c r → Shift r r' → Shifted r'
  Shift-Shifted {r} v (stay e) = subst Shifted (sym e) (record {
    inv = NodeInv-Kept nonzero (λ u t h. ground (arith, v.held)) (λ t. ground (arith, v.held)) v;
    kept = λ u t h. ground (arith, v.held);
  })
  Shift-Shifted {r} {r'} v (adopt s later vote f) = record {
    inv = later-NodeInv r r' v s later (λ e. absurd (ground arith)) (λ e. ground arith);
    kept = later-Kept r r' v later;
  }
  Shift-Shifted {r} {r'} v (campaign s later vote cand votes) = record {
    inv = later-NodeInv r r' v s later (λ e. (vote ∙ v.own, votes)) (λ e. ground arith);
    kept = later-Kept r r' v later;
  }
