-- ===== src/Cluster/Logs/Kept.antt =====
-- The handlers of miniraft/raft.cpp that leave the log alone and send no entries.
use miniraft_cpp.Prelude.{
  ℕ, ◌≤◌, ◌≡◌, refl, ap, sym, subst, ◌∙◌, List, [], ◌∷◌, ◌++◌, true, false, All, All-append,
  get_last?, inl, inr, ltb, ◌==◌, arith, ok, Bool-cases, length,
}
use mathlib.Core.List.{append-nil}
use miniraft_cpp.Messages.{
  Message, MessageEx, RequestVoteRequest, RequestVoteResponse, AppendEntriesResponse, log_entry,
  request_vote_request, request_vote_response, append_entries_request, append_entries_response,
  command_request, command_response, other,
}
use miniraft_cpp.State.{term_or_zero}
use miniraft_cpp.Raft.{Raft, leader, send, post, restart_election}
use miniraft_cpp.Raft.Votes.{
  on_request_vote_request, on_request_vote_response, vote_reply, grant, accepts,
}
use miniraft_cpp.Raft.Entries.{on_append_entries_response}
use miniraft_cpp.Cluster.Sound.{send-ok}
use miniraft_cpp.Cluster.Logs.{History, IsCoherent, Carried, NodeLog}
use miniraft_cpp.State.Replace.{HaveTerms}

-- A message without entries.
abbrev pub NoEntries : ℕ × Message → Type 0
NoEntries (d, append_entries_request x m es) = ⊥
NoEntries _ = Unit

pub record LogSame (r r' : Raft) : Type 0 where
  pub log : r'.state.log ≡ r.state.log
  pub index : r'.state.last_log_index ≡ r.state.last_log_index
  pub last : r'.state.last_log_term ≡ r.state.last_log_term
  pub term : r.state.current_term ≤ r'.state.current_term
  pub role :
      r'.state_name ≡ leader
      → (r.state_name ≡ leader) × (r'.state.current_term ≡ r.state.current_term)
  pub news : List (ℕ × Message)
  pub outbox : r'.outbox ≡ r.outbox ++ news
  pub quiet : All NoEntries news

NoEntries-Carried : (hist : History) (e : ℕ × Message) → NoEntries e → Carried hist e
NoEntries-Carried hist (d, append_entries_request x m es) h = absurd h
NoEntries-Carried hist (d, log_entry e) h = tt
NoEntries-Carried hist (d, request_vote_request x m) h = tt
NoEntries-Carried hist (d, request_vote_response x m) h = tt
NoEntries-Carried hist (d, append_entries_response x m) h = tt
NoEntries-Carried hist (d, command_request m) h = tt
NoEntries-Carried hist (d, command_response m) h = tt
NoEntries-Carried hist (d, other t) h = tt

quiet-Carried :
    (hist : History) (news : List (ℕ × Message)) → All NoEntries news → All (Carried hist) news
quiet-Carried hist [] h = tt
quiet-Carried hist (e ∷ es) h = (NoEntries-Carried hist e h.0, quiet-Carried hist es h.1)

-- A call that leaves the log alone leaves the agreement with the history.
pub NodeLog-LogSame :
    (hist : History) (r r' : Raft) → LogSame r r' → NodeLog hist r → NodeLog hist r'
NodeLog-LogSame hist r r' same n = record {
  valid = record {
    index_cached = same.index ∙ n.valid.index_cached ∙ ap length (sym same.log);
    term_cached =
        same.last ∙ n.valid.term_cached ∙ ap (λ l. term_or_zero (get_last? l)) (sym same.log);
  };
  coherent = subst (IsCoherent hist) (sym same.log) n.coherent;
  terms = subst HaveTerms (sym same.log) n.terms;
  positive = omega (arith, n.positive, same.term);
  leads = λ leads. let h = same.role leads in ap hist h.1 ∙ n.leads h.0 ∙ sym same.log;
  sent = subst (All (Carried hist)) (sym same.outbox) (
      All-append (Carried hist) r.outbox same.news n.sent
        (quiet-Carried hist same.news same.quiet));
}

-- Nothing that this is about changes.
pub LogSame-refl : (r : Raft) → LogSame r r
LogSame-refl r = record {
  log = refl;
  index = refl;
  last = refl;
  term = omega arith;
  role = λ h. (h, refl);
  news = [];
  outbox = sym (append-nil r.outbox);
  quiet = tt;
}

pub LogSame-post : (d : ℕ) (m : Message) (r : Raft) → NoEntries (d, m) → LogSame r (post d m r)
LogSame-post d m r h = record {
  log = refl;
  index = refl;
  last = refl;
  term = omega arith;
  role = λ h. (h, refl);
  news = (d, m) ∷ [];
  outbox = refl;
  quiet = (h, tt);
}

module _ (now : ℕ) (x : MessageEx) (m : RequestVoteRequest) (r : Raft) {r' : Raft} where
  refuse-LogSame : send x.src (vote_reply r x false) r ≡ ok r' → LogSame r r'
  refuse-LogSame e =
      let (known, sent) = send-ok x.src (vote_reply r x false) r e in
      subst (LogSame r) sent (LogSame-post x.src (vote_reply r x false) r tt)

  grant-LogSame : send x.src (vote_reply r x true) (grant now m r) ≡ ok r' → LogSame r r'
  unfolding grant restart_election
  grant-LogSame e =
      let (known, sent) = send-ok x.src (vote_reply r x true) (grant now m r) e in
      subst (LogSame r) sent (record {
        log = refl;
        index = refl;
        last = refl;
        term = omega arith;
        role = λ h. (h, refl);
        news = (x.src, vote_reply r x true) ∷ [];
        outbox = refl;
        quiet = (tt, tt);
      })

  pub on_request_vote_request-LogSame : on_request_vote_request now x m r ≡ ok r' → LogSame r r'
  unfolding on_request_vote_request
  on_request_vote_request-LogSame e = elim (Bool-cases (ltb x.term r.state.current_term)) [
    | inl late ↦ refuse-LogSame (rw (late, on_request_vote_request) at e)
    | inr timely ↦
        let e₁ = rw (timely, on_request_vote_request) at e in
        elim (Bool-cases (x.term == r.state.current_term)) [
          | inr future ↦ subst (LogSame r) (let e₂ = rw future at e₁ in cc) (LogSame-refl r)
          | inl present ↦
              let e₂ = rw present at e₁ in
              elim (Bool-cases (accepts m r.state)) [
                | inl granted ↦ grant-LogSame (rw granted at e₂)
                | inr refused ↦ refuse-LogSame (rw refused at e₂)
              ]
        ]
  ]

-- A call that changes the volatile state only.
pub LogSame-volatile :
    (r r' : Raft)
    → r'.state ≡ r.state
    → r'.state_name ≡ r.state_name
    → r'.outbox ≡ r.outbox
    → LogSame r r'
LogSame-volatile r r' s n o = record {
  log = ap (λ s. s.log) s;
  index = ap (λ s. s.last_log_index) s;
  last = ap (λ s. s.last_log_term) s;
  term = omega (arith, ap (λ s. s.current_term) s);
  role = λ h. (sym n ∙ h, ap (λ s. s.current_term) s);
  news = [];
  outbox = o ∙ sym (append-nil r.outbox);
  quiet = tt;
}

pub on_request_vote_response-LogSame :
    (x : MessageEx) (m : RequestVoteResponse) (r : Raft)
    → LogSame r (on_request_vote_response x m r)
unfolding on_request_vote_response
on_request_vote_response-LogSame x m r =
    LogSame-volatile r (on_request_vote_response x m r) (ground arith) (ground arith) (ground arith)

pub on_append_entries_response-LogSame :
    (x : MessageEx) (m : AppendEntriesResponse) (r : Raft)
    → LogSame r (on_append_entries_response x m r)
unfolding on_append_entries_response
on_append_entries_response-LogSame x m r =
    LogSame-volatile r (on_append_entries_response x m r) (ground arith) (ground arith)
      (ground arith)
