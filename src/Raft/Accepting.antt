-- ===== src/Raft/Accepting.antt =====
-- What OnAppendEntries makes of a request.
use miniraft_cpp.Prelude.{
  ℕ, suc, ◌+◌, ◌-◌, ◌^◌, ◌≤◌, ◌<◌, ◌≡◌, ◌≢◌, ◌⊎◌, inl, inr, int64, sym, ◌∙◌, refl, ap, List, [],
  ◌∷◌, ◌++◌, true, false, max, arith, length, take, drop, ltb, lt→ltb, ◌%◌, ◌==◌, through_int, ok,
  Returns,
}
use miniraft_cpp.Prelude.Dict
use miniraft_cpp.Messages.{LogEntry, Message, MessageEx, AppendEntriesRequest}
use miniraft_cpp.State.{IsValid, log_term}
use miniraft_cpp.State.Log.{term_at, log_term_at}
use miniraft_cpp.State.Replace.{merge, HaveTerms, put_entries, put_entries_lem}
use miniraft_cpp.Raft.{Raft, follower, send, post, restart_election}
use miniraft_cpp.Raft.Entries.{
  on_append_entries_request, take_entries, follow, matches_previous, entries_reply, Outcome,
}

through_int_small : (c : ℕ) → c < 2 ^ 31 → through_int c ≡ c
through_int_small c h = let low : c % 2 ^ 32 ≡ c = omega arith in rw (low, lt→ltb c (2 ^ 31) h)

pub send_known :
    (d : ℕ) (m : Message) (r : Raft) → Dict.contains d r.nodes ≡ true → send d m r ≡ ok (post d m r)
unfolding send
send_known d m r known = rw known

module _ (now : ℕ) (x : MessageEx) (m : AppendEntriesRequest) (es : List LogEntry) (r : Raft) where
  -- The state of the server after a request of its own term, and its reply.
  abbrev outcome : Outcome
  outcome = take_entries m es r.volatile.commit_index r.state

  pub on_append_entries_request_present :
      x.term ≡ r.state.current_term
      → Dict.contains x.src r.nodes ≡ true
      → on_append_entries_request now x m es r
        ≡ ok (
            post x.src
              (entries_reply r x outcome.match_index outcome.success)
              (follow now m outcome r))
  unfolding on_append_entries_request follow restart_election
  on_append_entries_request_present same known =
      let timely : ltb x.term r.state.current_term ≡ false = ground arith in
      let present : (x.term == r.state.current_term) ≡ true = ground arith in
      rw (timely, present)
        (send_known x.src (entries_reply r x outcome.match_index outcome.success)
          (follow now m outcome r) known)

  -- The guard on the previous entry keeps the loop within the log.
  pub matches_previous-within :
      matches_previous m r.state ≡ true → m.prev_log_index ≤ r.state.last_log_index
  unfolding matches_previous
  matches_previous-within h = ground arith

  outcome_accepted :
      matches_previous m r.state ≡ true
      → outcome ≡ record {
        match_index = (put_entries m.prev_log_index es r.state).0;
        commit_index = max r.volatile.commit_index m.leader_commit;
        success = true;
        state = (put_entries m.prev_log_index es r.state).1;
      }
  unfolding take_entries
  outcome_accepted prev = rw prev

  outcome_refused :
      matches_previous m r.state ≡ false
      → outcome ≡ record {
        match_index = 0;
        commit_index = r.volatile.commit_index;
        success = false;
        state = r.state;
      }
  unfolding take_entries
  outcome_refused prev = rw prev

  -- A request of the server's term from a known node whose previous entry matches is accepted: the
  -- log keeps what agrees and takes the rest from the request, the reply names the last new entry,
  -- and the server follows the sender and commits what the sender has committed. The state is valid
  -- and stays so, the indices are below 2^63, the commit index fits an int, and the entries have
  -- terms.
  pub on_append_entries_request_accepts :
      x.term ≡ r.state.current_term
      → Dict.contains x.src r.nodes ≡ true
      → IsValid r.state
      → matches_previous m r.state ≡ true
      → m.prev_log_index + length es < 2 ^ 63
      → HaveTerms es
      → max r.volatile.commit_index m.leader_commit < 2 ^ 31
      → Returns (on_append_entries_request now x m es r) (λ r'.
        (r'.state.log
          ≡ take m.prev_log_index r.state.log ++ merge (drop m.prev_log_index r.state.log) es)
        × (r'.outbox
            ≡ r.outbox ++ (x.src, entries_reply r x (m.prev_log_index + length es) true) ∷ [])
        × (r'.state_name ≡ follower)
        × (r'.volatile.leader_id ≡ m.leader_id)
        × (r'.volatile.commit_index ≡ max r.volatile.commit_index m.leader_commit)
        × IsValid r'.state)
  unfolding restart_election
  on_append_entries_request_accepts same known v prev room terms small =
      let within = matches_previous-within prev in
      let k =
        put_entries_lem m.prev_log_index es r.state v (omega (arith, v.index_cached)) room terms in
      rw (on_append_entries_request_present same known, outcome_accepted prev)
        (unfold follow in
          (
            k.merged,
            ap (λ i. r.outbox ++ (x.src, entries_reply r x i true) ∷ []) k.at_end,
            refl,
            refl,
            through_int_small (max r.volatile.commit_index m.leader_commit) small,
            k.valid,
          ))

  -- The server's log does not reach up to the entry before the payload, or has another term there.
  abbrev pub LacksPrevious : Type 0
  LacksPrevious =
      (length r.state.log < m.prev_log_index)
      ⊎ (term_at (m.prev_log_index - 1) r.state.log ≢ m.prev_log_term)

  matches_previous-LacksPrevious :
      IsValid r.state
      → 0 < m.prev_log_index
      → m.prev_log_index < 2 ^ 63
      → LacksPrevious
      → matches_previous m r.state ≡ false
  unfolding matches_previous
  matches_previous-LacksPrevious v some_previous small lacks =
      let i = m.prev_log_index - 1 in
      let index : suc i ≡ m.prev_log_index = omega (arith, some_previous) in
      let term : log_term (int64 m.prev_log_index) r.state ≡ term_at i r.state.log =
        ap (λ k. log_term (int64 k) r.state) (sym index)
        ∙ log_term_at i r.state v (omega (arith, index, small)) in
      let counted = v.index_cached in
      elim lacks [
        | inl beyond ↦ ground arith
        | inr differs ↦
            let other : (log_term (int64 m.prev_log_index) r.state == m.prev_log_term) ≡ false =
              rw term (ground arith) in
            let first : (m.prev_log_index == 0) ≡ false = ground arith in
            rw (first, other) (ground arith)
      ]

  -- A request of the server's term from a known node is refused where the log is too short to have
  -- the entry before the payload, or has another term there: the log, the term, the vote and the
  -- commit index stay, the reply says so, and the server follows the sender. The state is valid,
  -- the request names an entry before its payload, at an index below 2^63, and the commit index
  -- fits an int.
  pub on_append_entries_request_refuses :
      x.term ≡ r.state.current_term
      → Dict.contains x.src r.nodes ≡ true
      → IsValid r.state
      → 0 < m.prev_log_index
      → m.prev_log_index < 2 ^ 63
      → LacksPrevious
      → r.volatile.commit_index < 2 ^ 31
      → Returns (on_append_entries_request now x m es r) (λ r'.
        (r'.state ≡ r.state)
        × (r'.outbox ≡ r.outbox ++ (x.src, entries_reply r x 0 false) ∷ [])
        × (r'.state_name ≡ follower)
        × (r'.volatile.leader_id ≡ m.leader_id)
        × (r'.volatile.commit_index ≡ r.volatile.commit_index))
  unfolding restart_election
  on_append_entries_request_refuses same known v some_previous at_most lacks small =
      let prev = matches_previous-LacksPrevious v some_previous at_most lacks in
      rw (on_append_entries_request_present same known, outcome_refused prev)
        (unfold follow in (refl, refl, refl, refl, through_int_small r.volatile.commit_index small))
