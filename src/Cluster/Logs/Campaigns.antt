-- ===== src/Cluster/Logs/Campaigns.antt =====
-- The calls of miniraft/raft.cpp that change the term, ask for votes or start the server again.
use miniraft_cpp.Prelude.{
  ℕ, ◌+◌, ◌≤◌, ◌<◌, ◌^◌, ◌≡◌, refl, sym, subst, ◌∙◌, List, [], ◌∷◌, ltb, leb, ◌&&◌, ◌||◌, inl, inr,
  ltb→lt, arith, Bool-cases,
}
use mathlib.Core.List.{append-nil}
use miniraft_cpp.Prelude.Dict
use miniraft_cpp.Messages.{
  Message, MessageEx, request_vote_request, request_vote_response, append_entries_request,
  append_entries_response, other,
}
use miniraft_cpp.Raft.{Raft, leader, restart_election, new_raft}
use miniraft_cpp.Raft.Votes.{create_vote}
use miniraft_cpp.Raft.Process.{take_term, take_header}
use miniraft_cpp.Raft.Timeout.{maybe_start_election, ask_vote, ask_votes, is_candidate, is_follower}
use miniraft_cpp.Cluster.{restarted}
use miniraft_cpp.Cluster.Logs.{History, NodeLog}
use miniraft_cpp.Cluster.Logs.Kept.{LogSame, NodeLog-LogSame, LogSame-refl}

-- A server that is no leader afterwards, and has sent nothing.
LogSame-lower :
    (r r' : Raft)
    → r'.state.log ≡ r.state.log
    → r'.state.last_log_index ≡ r.state.last_log_index
    → r'.state.last_log_term ≡ r.state.last_log_term
    → r.state.current_term ≤ r'.state.current_term
    → (r'.state_name ≡ leader → ⊥)
    → r'.outbox ≡ r.outbox
    → LogSame r r'
LogSame-lower r r' l i t h n o = record {
  log = l;
  index = i;
  last = t;
  term = h;
  role = λ e. absurd (n e);
  news = [];
  outbox = o ∙ sym (append-nil r.outbox);
  quiet = tt;
}

take_term-LogSame : (now : ℕ) (x : MessageEx) (r : Raft) → LogSame r (take_term now x r)
unfolding take_term restart_election
take_term-LogSame now x r = elim (Bool-cases (ltb r.state.current_term x.term)) [
  | inl later ↦
      let up = ltb→lt r.state.current_term x.term later in
      rw (later, take_term)
        (LogSame-lower r _ (ground arith) (ground arith) (ground arith) (ground (arith, up))
          (λ e. ground arith) (ground arith))
  | inr not_later ↦ rw (not_later, take_term) (LogSame-refl r)
]

pub take_header-LogSame : (now : ℕ) (m : Message) (r : Raft) → LogSame r (take_header now m r)
unfolding take_header
take_header-LogSame now (request_vote_request x m) r = take_term-LogSame now x r
take_header-LogSame now (request_vote_response x m) r = take_term-LogSame now x r
take_header-LogSame now (append_entries_request x m es) r = take_term-LogSame now x r
take_header-LogSame now (append_entries_response x m) r = take_term-LogSame now x r
take_header-LogSame now (other n) r = subst (LogSame r) (ground arith) (LogSame-refl r)
take_header-LogSame now m r = LogSame-refl r

pub maybe_start_election-LogSame :
    (now : ℕ) (r : Raft)
    → r.state.current_term + 1 < 2 ^ 64
    → LogSame r (maybe_start_election now r)
unfolding maybe_start_election
maybe_start_election-LogSame now r room =
    elim (Bool-cases (
      (is_candidate r.state_name || is_follower r.state_name) && leb r.volatile.election_due now)) [
        | inl due ↦
            rw (due, maybe_start_election)
              (LogSame-lower r _ refl refl refl (omega (arith, room)) (λ e. cc) refl)
        | inr not_due ↦ rw (not_due, maybe_start_election) (LogSame-refl r)
      ]

pub restarted-LogSame : (r : Raft) → LogSame r (restarted r)
unfolding restarted new_raft
restarted-LogSame r = LogSame-lower r (restarted r) refl refl refl (omega arith) (λ e. cc) refl

module _ (hist : History) where
  ask_vote-NodeLog : (now id : ℕ) (r : Raft) → NodeLog hist r → NodeLog hist (ask_vote now id r)
  unfolding ask_vote create_vote
  ask_vote-NodeLog now id r n = elim (Bool-cases (leb (Dict.get_or id 0 r.volatile.rpc_due) now)) [
    | inl due ↦
        rw (due, ask_vote)
          (NodeLog-LogSame hist r _
            (record {
              log = refl;
              index = refl;
              last = refl;
              term = omega arith;
              role = λ h. (h, refl);
              news = _ ∷ [];
              outbox = refl;
              quiet = (tt, tt);
            })
            n)
    | inr not_due ↦
        rw (not_due, ask_vote)
          (NodeLog-LogSame hist r _
            (record {
              log = refl;
              index = refl;
              last = refl;
              term = omega arith;
              role = λ h. (h, refl);
              news = [];
              outbox = sym (append-nil r.outbox);
              quiet = tt;
            })
            n)
  ]

  pub ask_votes-NodeLog :
      (now : ℕ) (ids : List ℕ) (r : Raft) → NodeLog hist r → NodeLog hist (ask_votes now ids r)
  unfolding ask_votes
  ask_votes-NodeLog now [] r n = n
  ask_votes-NodeLog now (id ∷ ids) r n =
      ask_votes-NodeLog now ids (ask_vote now id r) (ask_vote-NodeLog now id r n)
