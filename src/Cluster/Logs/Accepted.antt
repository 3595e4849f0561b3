-- ===== src/Cluster/Logs/Accepted.antt =====
-- OnAppendEntries on a request that is carried: what the server takes over keeps its log coherent.
use miniraft_cpp.Prelude.{
  ℕ, suc, ◌-◌, ◌≤◌, ◌<◌, ◌^◌, ◌≡◌, ◌⊎◌, ap, sym, subst, ◌∙◌, inl, inr, List, [], true, false,
  length, ltb, ◌==◌, arith, int64, ok, Bool-cases, ℕ_discrete,
}
use miniraft_cpp.Messages.{
  LogEntry, Message, MessageEx, AppendEntriesRequest, append_entries_request,
}
use miniraft_cpp.State.{State, IsValid, log_term}
use miniraft_cpp.State.Log.{term_at, log_term_at}
use miniraft_cpp.State.Replace.{HaveTerms, put_entries, put_entries_lem}
use miniraft_cpp.State.Terms.{put_entries-SameBallot}
use miniraft_cpp.Raft.{Raft, send, post, restart_election}
use miniraft_cpp.Raft.Entries.{
  on_append_entries_request, take_entries, follow, matches_previous, entries_reply, Outcome,
}
use miniraft_cpp.Cluster.Sound.{send-ok}
use miniraft_cpp.Cluster.Logs.{History, IsCoherent, IsPart, Carried, NodeLog}
use miniraft_cpp.Cluster.Logs.Merged.{taken-IsCoherent, taken-HaveTerms, es-HaveTerms}
use miniraft_cpp.Cluster.Logs.Kept.{NodeLog-LogSame, LogSame-post}

-- A log that the history agrees with.
record IsGood (hist : History) (s : State) : Type 0 where
  valid : IsValid s
  coherent : IsCoherent hist s.log
  terms : HaveTerms s.log

module _ (hist : History) (t : ℕ) (of_term : IsCoherent hist (hist t))
    (entries : HaveTerms (hist t)) where
  -- The previous entry, by the code's test.
  previous :
      (m : AppendEntriesRequest) (s : State)
      → IsValid s
      → length s.log < 2 ^ 62
      → matches_previous m s ≡ true
      → (m.prev_log_index ≤ length s.log)
        × ((m.prev_log_index ≡ 0) ⊎ (term_at (m.prev_log_index - 1) s.log ≡ m.prev_log_term))
  unfolding matches_previous
  previous m s v small h = elim (ℕ_discrete m.prev_log_index 0) [
    | yes none_before ↦ (omega (arith, none_before), inl none_before)
    | no some_before ↦
        let e : suc (m.prev_log_index - 1) ≡ m.prev_log_index = omega arith in
        let within : m.prev_log_index ≤ length s.log = ground (arith, v.index_cached) in
        let found = log_term_at (m.prev_log_index - 1) s v (omega (arith, within, small)) in
        let tested : log_term (int64 m.prev_log_index) s ≡ m.prev_log_term = ground arith in
        (within, inr (sym found ∙ ap (λ k. log_term (int64 k) s) e ∙ tested))
  ]

  take_entries-IsGood :
      (m : AppendEntriesRequest) (es : List LogEntry) (commit : ℕ) (s : State)
      → IsGood hist s
      → length s.log < 2 ^ 62
      → (es ≡ []) ⊎ IsPart hist t m.prev_log_index m.prev_log_term es
      → IsGood hist (take_entries m es commit s).state
  unfolding take_entries
  take_entries-IsGood m es commit s g small (inl nothing) =
      elim (Bool-cases (matches_previous m s)) [
        | inl matched ↦ rw (nothing, matched) (unfold put_entries in g)
        | inr refused ↦ rw refused g
      ]
  take_entries-IsGood m es commit s g small (inr p) = elim (Bool-cases (matches_previous m s)) [
    | inl matched ↦
        let before = previous m s g.valid small matched in
        let terms =
          es-HaveTerms hist t m.prev_log_index m.prev_log_term es s.log p of_term entries g.coherent
            g.terms before.0 before.1 in
        let k = put_entries_lem m.prev_log_index es s g.valid before.0 p.small terms in
        rw matched (record {
          valid = k.valid;
          coherent = subst (IsCoherent hist) (sym k.merged) (
              taken-IsCoherent hist t m.prev_log_index m.prev_log_term es s.log p of_term entries
                g.coherent g.terms before.0 before.1);
          terms = subst HaveTerms (sym k.merged) (
              taken-HaveTerms hist t m.prev_log_index m.prev_log_term es s.log p of_term entries
                g.coherent g.terms before.0 before.1);
        })
    | inr refused ↦ rw refused g
  ]

take_entries-term :
    (m : AppendEntriesRequest) (es : List LogEntry) (commit : ℕ) (s : State)
    → (take_entries m es commit s).state.current_term ≡ s.current_term
unfolding take_entries
take_entries-term m es commit s =
    let b = put_entries-SameBallot m.prev_log_index es s in ground (arith, b)

module _ (hist : History) (logs : (t : ℕ) → IsCoherent hist (hist t))
    (log_terms : (t : ℕ) → HaveTerms (hist t)) (now : ℕ) (r : Raft)
    (small : length r.state.log < 2 ^ 62) where
  follow-NodeLog :
      (x : MessageEx) (m : AppendEntriesRequest) (es : List LogEntry)
      → NodeLog hist r
      → Carried hist (r.id, append_entries_request x m es)
      → NodeLog hist (follow now m (take_entries m es r.volatile.commit_index r.state) r)
  unfolding follow restart_election
  follow-NodeLog x m es n c =
      let start : IsGood hist r.state = record {
        valid = n.valid;
        coherent = n.coherent;
        terms = n.terms;
      } in
      let g =
        take_entries-IsGood hist x.term (logs x.term) (log_terms x.term) m es
          r.volatile.commit_index r.state start small c in
      record {
        valid = g.valid;
        coherent = g.coherent;
        terms = g.terms;
        positive =
            omega (arith, n.positive, take_entries-term m es r.volatile.commit_index r.state);
        leads = λ e. absurd cc;
        sent = n.sent;
      }

  pub on_append_entries_request-NodeLog :
      (x : MessageEx) (m : AppendEntriesRequest) (es : List LogEntry) {r' : Raft}
      → NodeLog hist r
      → Carried hist (r.id, append_entries_request x m es)
      → on_append_entries_request now x m es r ≡ ok r'
      → NodeLog hist r'
  unfolding on_append_entries_request
  on_append_entries_request-NodeLog x m es {r'} n c e =
      elim (Bool-cases (ltb x.term r.state.current_term)) [
        | inl late ↦
            let (known, sent) =
              send-ok x.src (entries_reply r x 0 false) r
                (rw (late, on_append_entries_request) at e) in
            subst (NodeLog hist) sent (
              NodeLog-LogSame hist r (post x.src (entries_reply r x 0 false) r)
                (LogSame-post x.src (entries_reply r x 0 false) r tt) n)
        | inr timely ↦
            let e₁ = rw (timely, on_append_entries_request) at e in
            elim (Bool-cases (x.term == r.state.current_term)) [
              | inr future ↦ let e₂ = rw future at e₁ in cc
              | inl present ↦ accepted (rw present at e₁)
            ]
      ]
    where
      out : Outcome
      out = take_entries m es r.volatile.commit_index r.state

      reply : Message
      reply = entries_reply r x out.match_index out.success

      accepted : send x.src reply (follow now m out r) ≡ ok r' → NodeLog hist r'
      accepted e₂ =
          let (known, sent) = send-ok x.src reply (follow now m out r) e₂ in
          subst (NodeLog hist) sent (
            NodeLog-LogSame hist (follow now m out r) (post x.src reply (follow now m out r))
              (LogSame-post x.src reply (follow now m out r) tt) (follow-NodeLog x m es n c))
