-- ===== src/Cluster/Logs/Sent.antt =====
-- The requests that a leader makes carry parts of the log of its term.
use miniraft_cpp.Prelude.{
  ℕ, zero, suc, ◌+◌, ◌-◌, ◌≤◌, ◌<◌, ◌^◌, ◌≡◌, ◌⊎◌, refl, ap, sym, subst, ◌∙◌, inl, inr, List, [],
  ◌∷◌, All-append, length, take, leb, arith, int64, ok, bind-ok, ok-injective, guard, null_message,
  or_fail, out_of_bounds, some, none, Option, get_elem?, drop-suc, ℕ_discrete,
}
use miniraft_cpp.Messages.{LogEntry, Message}
use miniraft_cpp.State.{State, get, log_term}
use miniraft_cpp.State.Log.{term_at, log_term_at}
use miniraft_cpp.State.Matching.{slice}
use miniraft_cpp.Raft.{Raft, leader, post}
use miniraft_cpp.Raft.Entries.{
  create_append_entries, payload, prev_index, last_index, count_request, entries_request,
}
use miniraft_cpp.Cluster.Logs.{History, Carried, NodeLog}
use miniraft_cpp.Cluster.Logs.Kept.{NodeLog-LogSame, LogSame-volatile}

or_fail-ok : (o : Option LogEntry) (e : LogEntry) → or_fail o out_of_bounds ≡ ok e → o ≡ some e
or_fail-ok none e h = cc
or_fail-ok (some a) e h = cc

found-within : (xs : List LogEntry) (i : ℕ) (e : LogEntry) → get_elem? xs i ≡ some e → i < length xs
found-within [] i e h = cc
found-within (x ∷ xs) zero e h = omega arith
found-within (x ∷ xs) (suc i) e h = omega (arith, found-within xs i e h)

-- What the payload's loop collects, if it does not crash.
payload-part :
    (n i : ℕ) (s : State) (es : List LogEntry)
    → payload n (suc i) s ≡ ok es
    → (es ≡ slice i n s.log) × (length es ≡ n) × ((n ≡ 0) ⊎ (i + n ≤ length s.log))
unfolding payload get
payload-part zero i s es h = (sym (ok-injective h), ap length (sym (ok-injective h)), inl refl)
payload-part (suc n) i s es h =
    let (e, found, h₁) = bind-ok (or_fail (get_elem? s.log i) out_of_bounds) _ h in
    let (rest, more, h₂) = bind-ok (payload n (suc (suc i)) s) _ h₁ in
    let there = or_fail-ok (get_elem? s.log i) e found in
    let within = found-within s.log i e there in
    let r = payload-part n (suc i) s rest more in
    let whole = sym (ok-injective h₂) in
    (
      whole ∙ ap (◌∷◌ e) r.0 ∙ ap (take (suc n)) (sym (drop-suc i s.log e there)),
      ap length whole ∙ ap suc r.1,
      inr (elim r.2 [ inl last ↦ omega (arith, within, last) | inr long ↦ omega (arith, long) ]),
    )

-- What CreateAppendEntries returns, if it does not crash.
pub create_append_entries-made :
    (id : ℕ) (r : Raft) {p : Raft × Message}
    → create_append_entries id r ≡ ok p
    → (es : List LogEntry) × (payload
          (last_index id r.state r.volatile - prev_index id r.volatile)
          (suc (prev_index id r.volatile))
          r.state
        ≡ ok es)
      × (p ≡ (count_request id r, entries_request id es r))
unfolding create_append_entries
create_append_entries-made id r e =
    let (_, _, e₁) =
      bind-ok
        (guard (leb (prev_index id r.volatile) (last_index id r.state r.volatile)) null_message) _
        e in
    let n = last_index id r.state r.volatile - prev_index id r.volatile in
    let (es, collected, e₂) = bind-ok (payload n (suc (prev_index id r.volatile)) r.state) _ e₁ in
    (es, collected, sym (ok-injective e₂))

module _ (hist : History) where
  -- The message of a leader is carried.
  entries_request-Carried :
      (id : ℕ) (r : Raft) (es : List LogEntry) (n : ℕ)
      → NodeLog hist r
      → r.state_name ≡ leader
      → length r.state.log < 2 ^ 62
      → payload n (suc (prev_index id r.volatile)) r.state ≡ ok es
      → Carried hist (id, entries_request id es r)
  unfolding entries_request
  entries_request-Carried id r es n node leads small collected =
      let prev = prev_index id r.volatile in
      let p = payload-part n prev r.state es collected in
      let own = node.leads leads in
      elim p.2 [
        | inl nothing ↦ inl (p.0 ∙ ap (λ k. slice prev k r.state.log) nothing)
        | inr within ↦ inr (record {
          part =
              p.0
              ∙ ap (λ k. slice prev k r.state.log) (sym p.1)
              ∙ ap (slice prev (length es)) (sym own);
          inside = omega (arith, within, p.1, ap length own);
          before = elim (ℕ_discrete prev 0) [
            | yes none_before ↦ inl none_before
            | no some_before ↦
                let e : suc (prev - 1) ≡ prev = omega arith in
                inr (
                  ap (λ k. log_term (int64 k) r.state) (sym e)
                  ∙ log_term_at (prev - 1) r.state node.valid (omega (arith, within, small))
                  ∙ ap (term_at (prev - 1)) (sym own))
          ];
          small = omega (arith, within, p.1, small);
        })
      ]

  -- What a leader keeps while it makes requests.
  pub record Leads (r : Raft) : Type 0 where
    pub node : NodeLog hist r
    pub leads : r.state_name ≡ leader
    pub small : length r.state.log < 2 ^ 62

  count_request-NodeLog : (id : ℕ) (r : Raft) → NodeLog hist r → NodeLog hist (count_request id r)
  unfolding count_request
  count_request-NodeLog id r n =
      NodeLog-LogSame hist r (count_request id r)
        (LogSame-volatile r (count_request id r) refl refl refl) n

  post-NodeLog :
      (id : ℕ) (m : Message) (r : Raft)
      → NodeLog hist r
      → Carried hist (id, m)
      → NodeLog hist (post id m r)
  post-NodeLog id m r n c = record {
    valid = record { index_cached = n.valid.index_cached; term_cached = n.valid.term_cached };
    coherent = n.coherent;
    terms = n.terms;
    positive = n.positive;
    leads = n.leads;
    sent = All-append (Carried hist) r.outbox ((id, m) ∷ []) n.sent (c, tt);
  }

  pub post_created-Leads :
      (id : ℕ) (r : Raft) {p : Raft × Message}
      → Leads r
      → create_append_entries id r ≡ ok p
      → Leads (post id p.1 p.0)
  post_created-Leads id r l e =
      let (es, collected, eq) = create_append_entries-made id r e in
      let made : Leads (post id (entries_request id es r) (count_request id r)) =
        unfold count_request in
        record {
          node =
              post-NodeLog id (entries_request id es r) (count_request id r)
                (count_request-NodeLog id r l.node)
                (entries_request-Carried id r es
                  (last_index id r.state r.volatile - prev_index id r.volatile) l.node l.leads
                  l.small collected);
          leads = l.leads;
          small = l.small;
        } in
      subst (λ q. Leads (post id q.1 q.0)) (sym eq) made
