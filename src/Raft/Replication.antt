-- ===== src/Raft/Replication.antt =====
-- Replication: a follower that accepts what its leader has created has the leader's log up to there.
use miniraft_cpp.Prelude.{
  ℕ, zero, suc, ◌+◌, ◌-◌, ◌^◌, ◌≤◌, ◌<◌, ◌≡◌, refl, sym, ap, ◌∙◌, ◌⊎◌, inl, inr, List, true, max,
  min, arith, length, length-take, take, drop, int64, u32, ok, Returns, Returns_map, ◌≢◌,
}
use miniraft_cpp.Prelude.Dict
use miniraft_cpp.Messages.{LogEntry, MessageEx, AppendEntriesRequest, append_entries_request}
use miniraft_cpp.State.{State, IsValid, log_term}
use miniraft_cpp.State.Log.{term_at, log_term_at}
use miniraft_cpp.State.Replace.{HaveTerms}
use miniraft_cpp.State.Matching.{
  LogMatching, slice, replaced-prefix, slice-HaveTerms, HaveTerms-term_at, SamePrevious,
}
use miniraft_cpp.Raft.{Raft}
use miniraft_cpp.Raft.Entries.{
  create_append_entries, prev_index, last_index, count_request, entries_request,
  on_append_entries_request, matches_previous,
}
use miniraft_cpp.Raft.Sending.{IsReady, create_append_entries-count, last_index_bounds}
use miniraft_cpp.Raft.Accepting.{on_append_entries_request_accepts, matches_previous-within}

previous_term :
    (m : AppendEntriesRequest) (s : State)
    → matches_previous m s ≡ true
    → m.prev_log_index ≢ 0
    → log_term (int64 m.prev_log_index) s ≡ m.prev_log_term
unfolding matches_previous
previous_term m s h nonzero = ground arith

module _ (id now : ℕ) (l f : Raft) (ready : IsReady id l) where
  abbrev prev : ℕ
  prev = prev_index id l.volatile

  abbrev part : List LogEntry
  part = slice prev (last_index id l.state l.volatile - prev) l.state.log

  abbrev head : MessageEx
  head = record { src = l.id; dst = id; term = l.state.current_term; seqno = l.seqno }

  abbrev body : AppendEntriesRequest
  body = record {
    prev_log_index = prev;
    prev_log_term = log_term (int64 prev) l.state;
    leader_commit = min l.volatile.commit_index (last_index id l.state l.volatile);
    leader_id = l.id;
    nentries = u32 (last_index id l.state l.volatile - prev);
  }

  created :
      create_append_entries id l ≡ ok (count_request id l, append_entries_request head body part)
  unfolding entries_request
  created = (create_append_entries-count id l ready).0

  same_previous :
      (p : ℕ)
      → prev ≡ suc p
      → IsValid f.state
      → HaveTerms l.state.log
      → matches_previous body f.state ≡ true
      → (0 < term_at p l.state.log) × (term_at p l.state.log ≡ term_at p f.state.log)
  same_previous p e v terms prev_ok =
      let bounds = last_index_bounds id l ready in
      let at_l = log_term_at p l.state ready.valid (omega (arith, ready.small)) in
      let at_f = log_term_at p f.state v (omega (arith, ready.small)) in
      (
        HaveTerms-term_at p l.state.log terms (omega (arith, ready.valid.index_cached)),
        sym at_l
            ∙ sym (ap (λ i. log_term (int64 i) l.state) e)
            ∙ sym (previous_term body f.state prev_ok (omega (arith, e)))
            ∙ ap (λ i. log_term (int64 i) f.state) e
            ∙ at_f,
      )

  same_before :
      IsValid f.state
      → HaveTerms l.state.log
      → matches_previous body f.state ≡ true
      → SamePrevious l.state.log f.state.log prev
  same_before v terms prev_ok = go prev refl
    where
      go :
          (k : ℕ)
          → prev ≡ k
          → (prev ≡ 0)
            ⊎ ((0 < term_at (prev - 1) l.state.log)
                × (term_at (prev - 1) l.state.log ≡ term_at (prev - 1) f.state.log))
      go zero e = inl e
      go (suc p) e =
          let e' : prev - 1 ≡ p = omega (arith, e) in
          inr (rw e' (same_previous p e v terms prev_ok))

  -- A leader whose next index for a follower is in its log or right behind it creates a message,
  -- and a follower of its term that knows it, whose log matches the leader's (log matching) and
  -- whose entry before the message matches, then has the leader's log up to the last entry of the
  -- message. The states are valid, the leader's log is shorter than 2^62, its entries have terms,
  -- its batches are below 2^31, and the commit indices fit an int.
  pub replication :
      f.state.current_term ≡ l.state.current_term
      → Dict.contains l.id f.nodes ≡ true
      → IsValid f.state
      → LogMatching l.state.log f.state.log
      → HaveTerms l.state.log
      → matches_previous body f.state ≡ true
      → max f.volatile.commit_index body.leader_commit < 2 ^ 31
      → (create_append_entries id l
          ≡ ok (count_request id l, append_entries_request head body part))
        × Returns
            (on_append_entries_request now head body part f)
            (λ f'. take (prev + length part) f'.state.log ≡ take (prev + length part) l.state.log)
  replication same known v matching terms prev_ok small = (
    created,
    Returns_map (on_append_entries_request now head body part f) _ _
        (on_append_entries_request_accepts now head body part f (sym same) known v prev_ok room
          (slice-HaveTerms prev _ l.state.log terms) small)
        (λ f' h.
          ap (take (prev + length part)) h.0
          ∙ replaced-prefix l.state.log f.state.log prev _ matching terms within
              (same_before v terms prev_ok)),
  )
    where
      room : prev + length part < 2 ^ 63
      room =
          let bounds = last_index_bounds id l ready in
          omega (
            arith,
            bounds,
            ready.small,
            length-take (last_index id l.state l.volatile - prev) (drop prev l.state.log),
          )

      within : prev ≤ length f.state.log
      within = omega (arith, matches_previous-within now head body part f prev_ok, v.index_cached)
