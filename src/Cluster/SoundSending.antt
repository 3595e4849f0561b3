-- ===== src/Cluster/SoundSending.antt =====
-- The messages that the timeouts of miniraft/raft.cpp send, and ApproveRead, are no moves of an election.
use miniraft_cpp.Prelude.{
  ℕ, suc, ◌-◌, ◌≡◌, refl, sym, subst, ap, ◌∙◌, inl, inr, List, [], ◌∷◌, true, leb, All, arith, ok,
  Bool-cases, bind-ok, ok-injective, guard, null_message, ◌>>=◌,
}
use miniraft_cpp.Prelude.Dict
use miniraft_cpp.Prelude.Sets.{Within-refl}
use miniraft_cpp.Messages.{Message, LogEntry}
use miniraft_cpp.Volatile.{commit_advance}
use miniraft_cpp.Raft.{Raft, post}
use miniraft_cpp.Raft.Entries.{
  create_append_entries, payload, prev_index, last_index, count_request, entries_request,
}
use miniraft_cpp.Raft.Timeout.{
  after_test, is_due, mark_sent, heartbeat, heartbeats, commit_alone, ask_all, approve_read,
}
use miniraft_cpp.Cluster.Turn.{Turn, IsQuiet, Turns, done, more}
use miniraft_cpp.Cluster.Sound.{calm, post-Turn}

module _ (Backer : ℕ → Type 0) where
  -- What a created message leaves behind.
  record Created (r : Raft) (p : Raft × Message) : Type 0 where
    turn : Turn Backer r p.0
    nodes : p.0.nodes ≡ r.nodes
    quiet : IsQuiet p.0.id p.1

  create_append_entries-Turn :
      (id : ℕ) (r : Raft) {p : Raft × Message} → create_append_entries id r ≡ ok p → Created r p
  unfolding create_append_entries
  create_append_entries-Turn id r e =
      let (_, _, e₁) =
        bind-ok
          (guard (leb (prev_index id r.volatile) (last_index id r.state r.volatile)) null_message) _
          e in
      let (es, _, e₂) =
        bind-ok
          (payload (last_index id r.state r.volatile - prev_index id r.volatile)
            (suc (prev_index id r.volatile)) r.state)
          _ e₁ in
      subst (Created r) (ok-injective e₂) (made es)
    where
      made : (es : List LogEntry) → Created r (count_request id r, entries_request id es r)
      made es =
          unfold count_request entries_request in
          record {
            turn =
                calm Backer (record { id = refl; nodes = refl; min_votes = refl; outbox = refl })
                  refl refl (inl (refl, refl));
            nodes = refl;
            quiet = tt;
          }

  pub trans : {r s t : Raft} → Turns Backer r s → Turns Backer s t → Turns Backer r t
  trans a done = a
  trans a (more b c) = more (trans a b) c

  -- A message is created and handed to a node that the server knows.
  post_created :
      (id : ℕ) (r : Raft) {r' : Raft}
      → Dict.contains id r.nodes ≡ true
      → (create_append_entries id r >>= (λ p. ok (post id p.1 p.0))) ≡ ok r'
      → Turns Backer r r' × (r'.nodes ≡ r.nodes)
  post_created id r {r'} known e =
      let (p, created, e₁) = bind-ok (create_append_entries id r) _ e in
      let c = create_append_entries-Turn id r created in
      subst (λ t. Turns Backer r t × (t.nodes ≡ r.nodes)) (ok-injective e₁)
        (
          more (more done c.turn)
              (post-Turn Backer id p.1 p.0 (ap (Dict.contains id) c.nodes ∙ known) c.quiet),
          c.nodes,
        )

  after_test-votes : (now id : ℕ) (r : Raft) → (after_test now id r).votes ≡ r.volatile.votes
  unfolding after_test
  after_test-votes now id r = ground arith

  heartbeat-Turns :
      (now id : ℕ) (r : Raft) {r' : Raft}
      → Dict.contains id r.nodes ≡ true
      → heartbeat now id r ≡ ok r'
      → Turns Backer r r' × (r'.nodes ≡ r.nodes)
  unfolding heartbeat mark_sent
  heartbeat-Turns now id r {r'} known e = elim (Bool-cases (is_due now id r)) [
    | inl due ↦
        let (t, n) = post_created id (mark_sent now id r) known (rw (due, heartbeat) at e) in
        (
          trans
              (more done (
                calm Backer (record { id = refl; nodes = refl; min_votes = refl; outbox = refl })
                  refl refl (inl (refl, after_test-votes now id r))))
              t,
          n,
        )
    | inr not_due ↦
        subst (λ t. Turns Backer r t × (t.nodes ≡ r.nodes))
          (ok-injective (rw (not_due, heartbeat) at e))
          (
            more done (
                calm Backer (record { id = refl; nodes = refl; min_votes = refl; outbox = refl })
                  refl refl (inl (refl, after_test-votes now id r))),
            refl,
          )
  ]

  pub heartbeats-Turns :
      (now : ℕ) (ids : List ℕ) (r : Raft) {r' : Raft}
      → All (λ id. Dict.contains id r.nodes ≡ true) ids
      → heartbeats now ids r ≡ ok r'
      → Turns Backer r r'
  unfolding heartbeats
  heartbeats-Turns now [] r known e = subst (Turns Backer r) (ok-injective e) done
  heartbeats-Turns now (id ∷ ids) r {r'} known e =
      let (s, e₁, e₂) = bind-ok (heartbeat now id r) _ e in
      let (t, n) = heartbeat-Turns now id r known.0 e₁ in
      trans t (
        heartbeats-Turns now ids s
          (subst (λ ns. All (λ i. Dict.contains i ns ≡ true) ids) (sym n) known.1) e₂)

  pub commit_alone-Turn : (r : Raft) → Turn Backer r (commit_alone r)
  unfolding commit_alone commit_advance
  commit_alone-Turn r =
      calm Backer (ground arith) (ground arith) (ground arith) (inl (ground arith, ground arith))

  ask_all-Turns :
      (ids : List ℕ) (r : Raft) {r' : Raft}
      → All (λ id. Dict.contains id r.nodes ≡ true) ids
      → ask_all ids r ≡ ok r'
      → Turns Backer r r'
  unfolding ask_all
  ask_all-Turns [] r known e = subst (Turns Backer r) (ok-injective e) done
  ask_all-Turns (id ∷ ids) r {r'} known e =
      let (p, created, e₁) = bind-ok (create_append_entries id r) _ e in
      let c = create_append_entries-Turn id r created in
      let posted = post-Turn Backer id p.1 p.0 (ap (Dict.contains id) c.nodes ∙ known.0) c.quiet in
      trans (more (more done c.turn) posted) (
        ask_all-Turns ids (post id p.1 p.0)
          (subst (λ ns. All (λ i. Dict.contains i ns ≡ true) ids) (sym c.nodes) known.1) e₁)

  pub approve_read-Turns :
      (r : Raft) {n : ℕ} {r' : Raft} → approve_read r ≡ ok (n, r') → Turns Backer r r'
  unfolding approve_read
  approve_read-Turns r e =
      let (s, e₁, e₂) = bind-ok (ask_all r.nodes r) _ e in
      subst (Turns Backer r) (ap (λ q. q.1) (ok-injective e₂))
        (ask_all-Turns r.nodes r (Within-refl r.nodes) e₁)
