-- ===== src/Cluster/Ballots/Keep.antt =====
-- The moves of an election keep its invariant.
use miniraft_cpp.Prelude.{
  ℕ, ◌+◌, ◌≤◌, ◌≡◌, ◌≢◌, refl, sym, subst, ap, ◌∙◌, ◌⊎◌, inl, inr, List, [], ◌∷◌, ◌++◌, true, false,
  All, All-append, All-map, length, arith,
}
use mathlib.Core.List.{append-nil}
use miniraft_cpp.Prelude.Dict
use miniraft_cpp.Prelude.Sets.{Distinct, insert-Distinct, insert-All}
use miniraft_cpp.Messages.{Message}
use miniraft_cpp.Raft.{Raft, candidate, follower, leader, votes_needed}
use miniraft_cpp.Cluster.{note_ballot}
use miniraft_cpp.Cluster.Turn.{Turn, Quiet, idle, grant, backed, win}
use miniraft_cpp.Cluster.Ballots.{Kept, Backer, Won, Sent, NodeInv}
use miniraft_cpp.Cluster.Ballots.Quiet.{peer, Quiet-Sent}
use miniraft_cpp.Cluster.Ballots.Kept.{Won-Kept, Backer-kept, Sent-kept}

module _ (servers : List ℕ) (b : ℕ → ℕ → ℕ) (c : ℕ) (nonzero : c ≢ 0)
    (none_zero : Dict.contains 0 servers ≡ false) where
  -- The ballots when `c` is in state `r`.
  abbrev pub now : Raft → ℕ → ℕ → ℕ
  now r = note_ballot c r b

  pub now_held : (r : Raft) → now r c r.state.current_term ≡ r.state.voted_for
  now_held r = ground arith

  -- A vote that is there stays: the term is the same, and the vote was free or is the same.
  pub now-Kept :
      (r r' : Raft)
      → r'.state.current_term ≡ r.state.current_term
      → (r.state.voted_for ≡ 0) ⊎ (r'.state.voted_for ≡ r.state.voted_for)
      → Kept (now r) (now r')
  now-Kept r r' t v w u h = ground arith

  -- What no move within a term changes.
  record Base (r r' : Raft) : Type 0 where
    id : r'.id ≡ r.id
    nodes : r'.nodes ≡ r.nodes
    min_votes : r'.min_votes ≡ r.min_votes
    term : r'.state.current_term ≡ r.state.current_term
    vote : (r.state.voted_for ≡ 0) ⊎ (r'.state.voted_for ≡ r.state.voted_for)

  base :
      {r r' : Raft}
      → r'.id ≡ r.id
      → r'.nodes ≡ r.nodes
      → r'.min_votes ≡ r.min_votes
      → r'.state.current_term ≡ r.state.current_term
      → (r.state.voted_for ≡ 0) ⊎ (r'.state.voted_for ≡ r.state.voted_for)
      → Base r r'
  base i n m t v = record { id = i; nodes = n; min_votes = m; term = t; vote = v }

  abbrev Candidacy : Raft → Type 0
  Candidacy r =
      (r.state_name ≡ candidate)
      → (r.state.voted_for ≡ c)
        × Distinct r.volatile.votes
        × All (Backer servers (now r) c r.state.current_term) r.volatile.votes

  -- The fields that the kinds of move share.
  rebuild :
      (r r' : Raft)
      → NodeInv servers (now r) c r
      → Base r r'
      → Candidacy r'
      → (r'.state_name ≡ leader → Won servers (now r') c r'.state.current_term)
      → All (Sent (now r') c) r'.outbox
      → NodeInv servers (now r') c r'
  rebuild r r' v s cand won sent = record {
    own = s.id ∙ v.own;
    rule = s.min_votes ∙ v.rule ∙ ap (λ ns. votes_needed (length ns)) (sym s.nodes);
    size = subst (λ ns. length servers ≤ length ns + 1) (sym s.nodes) v.size;
    peers =
        subst (λ ns. All (λ d. (Dict.contains d servers ≡ true) × (d ≢ c)) ns) (sym s.nodes)
          v.peers;
    held = now_held r';
    ahead = λ t h. ground (arith, v.ahead t, s.term);
    own_vote = λ e. (cand e).0;
    distinct = λ e. (cand e).1;
    backers = λ e. (cand e).2;
    won = won;
    sent = sent;
  }

  module _ (r r' : Raft) (v : NodeInv servers (now r) c r) (s : Base r r') where
    kept : Kept (now r) (now r')
    kept = now-Kept r r' s.term s.vote

    -- A candidate or leader that remains one keeps its votes.
    same-Candidacy :
        r'.state.voted_for ≡ r.state.voted_for
        → r'.state_name ≡ r.state_name
        → r'.volatile.votes ≡ r.volatile.votes
        → Candidacy r'
    same-Candidacy voted role votes e =
        let was = sym role ∙ e in
        (
          voted ∙ v.own_vote was,
          subst Distinct (sym votes) (v.distinct was),
          subst (All (Backer servers (now r') c r'.state.current_term)) (sym votes) (
              Backer-kept servers (now r) (now r') c _ r.volatile.votes nonzero kept (
                subst (λ t. All (Backer servers (now r) c t) r.volatile.votes) (sym s.term)
                  (v.backers was))),
        )

    same-Won :
        r'.state_name ≡ r.state_name
        → r'.state_name ≡ leader
        → Won servers (now r') c r'.state.current_term
    same-Won role e =
        subst (Won servers (now r') c) (sym s.term) (Won-Kept nonzero kept (v.won (sym role ∙ e)))

    sent_more :
        (news : List (ℕ × Message))
        → r'.outbox ≡ r.outbox ++ news
        → All (Sent (now r') c) news
        → All (Sent (now r') c) r'.outbox
    sent_more news out h = subst (All (Sent (now r') c)) (sym out) (
        All-append (Sent (now r') c) r.outbox news
          (Sent-kept (now r) (now r') c r.outbox kept v.sent) h)

  -- A vote for `c` itself and those of its backers are a majority.
  votes_distinct :
      (n : ℕ → ℕ → ℕ) (t : ℕ) (vs : List ℕ)
      → All (Backer servers n c t) vs
      → Dict.contains c vs ≡ false
  unfolding Dict.contains
  votes_distinct n t [] b = refl
  votes_distinct n t (v ∷ vs) b = ground (arith, votes_distinct n t vs b.1, b.0.1)

  win-Won :
      (r r' : Raft)
      → NodeInv servers (now r) c r
      → Base r r'
      → r'.state.voted_for ≡ r.state.voted_for
      → r.state_name ≡ candidate
      → r.min_votes ≤ length r.volatile.votes + 1
      → Dict.contains c servers ≡ true
      → Won servers (now r') c r'.state.current_term
  unfolding votes_needed
  win-Won r r' v s vote cand enough member = record {
    quorum = c ∷ r.volatile.votes;
    distinct =
        (votes_distinct (now r) r.state.current_term r.volatile.votes backing, v.distinct cand);
    within = (
      member,
      All-map (Backer servers (now r) c r.state.current_term) (λ d. Dict.contains d servers ≡ true)
          r.volatile.votes (λ d h. h.0) backing,
    );
    voted = (
      now_held r' ∙ vote ∙ v.own_vote cand,
      All-map (Backer servers (now r) c r.state.current_term)
          (λ d. now r' d r'.state.current_term ≡ c) r.volatile.votes
          (λ d h. ground (arith, s.term, h.1, h.2)) backing,
    );
    majority = omega (arith, v.size, v.rule);
  }
    where
      backing : All (Backer servers (now r) c r.state.current_term) r.volatile.votes
      backing = v.backers cand

  module _ (r r' : Raft) (v : NodeInv servers (now r) c r)
      (member : Dict.contains c servers ≡ true) where
    -- The votes behind a server that is none of candidate and leader need no proof.
    no-Candidacy : r'.state_name ≡ follower → Candidacy r'
    no-Candidacy f e = absurd (ground arith)

    no-Won :
        r'.state_name ≡ follower
        → r'.state_name ≡ leader
        → Won servers (now r') c r'.state.current_term
    no-Won f e = absurd (ground arith)

    grant-Candidacy :
        (d : ℕ)
        → (r.state.voted_for ≡ 0) ⊎ (r.state.voted_for ≡ d)
        → d ≢ c
        → r'.state_name ≡ r.state_name
        → Candidacy r'
    grant-Candidacy d free not_self role e =
        let own = v.own_vote (sym role ∙ e) in absurd (ground arith)

    backed-Candidacy :
        Base r r'
        → (d : ℕ) → r'.state.voted_for ≡ r.state.voted_for
        → r'.state_name ≡ r.state_name
        → r'.volatile.votes ≡ Dict.insert d r.volatile.votes
        → Backer servers b c r.state.current_term d
        → Candidacy r'
    backed-Candidacy s d vote role votes backs e =
        let was = sym role ∙ e in
        let old =
          subst (λ t. All (Backer servers (now r') c t) r.volatile.votes) (sym s.term)
            (Backer-kept servers (now r) (now r') c r.state.current_term r.volatile.votes nonzero
              (kept r r' v s) (v.backers was)) in
        (
          vote ∙ v.own_vote was,
          subst Distinct (sym votes) (insert-Distinct d r.volatile.votes (v.distinct was)),
          subst (All (Backer servers (now r') c r'.state.current_term)) (sym votes) (
              insert-All (Backer servers (now r') c r'.state.current_term) d r.volatile.votes
                (backs.0, backs.1, ground (arith, s.term, backs.1, backs.2)) old),
        )

    -- A move within a term keeps the invariant.
    pub Turn-NodeInv :
        Turn (Backer servers b c r.state.current_term) r r' → NodeInv servers (now r') c r'
    Turn-NodeInv (idle news i n m t vote (inl (role, votes)) out quiet) =
        let s : Base r r' = base i n m t (inr vote) in
        rebuild r r' v s (same-Candidacy r r' v s vote role votes) (same-Won r r' v s role) (
          sent_more r r' v s news out (
            All-map (Quiet r) (Sent (now r') c) news
              (λ e q. Quiet-Sent servers c none_zero r (now r) (now r') e v q) quiet))
    Turn-NodeInv (idle news i n m t vote (inr f) out quiet) =
        let s : Base r r' = base i n m t (inr vote) in
        rebuild r r' v s (no-Candidacy f) (no-Won f) (
          sent_more r r' v s news out (
            All-map (Quiet r) (Sent (now r') c) news
              (λ e q. Quiet-Sent servers c none_zero r (now r) (now r') e v q) quiet))
    Turn-NodeInv (grant d x m i n mv t free vote role votes out src term known) =
        let (not_self, not_zero) = peer servers c none_zero r (now r) d v known in
        let s : Base r r' = base i n mv t (ground arith) in
        rebuild r r' v s (grant-Candidacy d free not_self role) (same-Won r r' v s role) (
          sent_more r r' v s _ out
            ((not_self, not_zero, λ g. (src ∙ v.own, ground (arith, term, t, vote))), tt))
    Turn-NodeInv (backed d same t vote role votes backs) =
        let s : Base r r' = base same.id same.nodes same.min_votes t (inr vote) in
        rebuild r r' v s (backed-Candidacy s d vote role votes backs) (same-Won r r' v s role)
          (sent_more r r' v s [] (same.outbox ∙ sym (append-nil r.outbox)) tt)
    Turn-NodeInv (win same t vote cand enough lead) =
        let s : Base r r' = base same.id same.nodes same.min_votes t (inr vote) in
        rebuild r r' v s (λ e. absurd (ground arith))
          (λ e. win-Won r r' v s vote cand enough member)
          (sent_more r r' v s [] (same.outbox ∙ sym (append-nil r.outbox)) tt)
