-- ===== src/Server/Alone.antt =====
-- A server on its own, from the connection of a client to the answer: miniraft/net/server.cpp over
-- miniraft/raft.cpp.
use miniraft_cpp.Prelude.{
  ℕ, suc, ◌+◌, ◌^◌, ◌≤◌, ◌<◌, ◌≡◌, refl, ap, ◌∙◌, List, [], ◌∷◌, ◌++◌, some, true, arith, max, ◌==◌,
  length, length-append, int64, ok, get_elem?,
}
use miniraft_cpp.Prelude.Dict
use miniraft_cpp.Messages.{LogEntry}
use miniraft_cpp.State.{State, IsValid, append, log_term}
use miniraft_cpp.State.Log.{log_term_at, append-IsValid, term_at}
use miniraft_cpp.Volatile.{Volatile, commit_advance, quorum_index, sort, place, indices, pad}
use miniraft_cpp.Raft.{Raft, leader}
use miniraft_cpp.Raft.Timeout.{
  append_entry, process_timeout, maybe_start_election, count_votes, is_candidate, is_follower,
  role_timeout, leader_timeout, heartbeats, commit_alone,
}

-- A server with no other, that leads and has committed all of its log.
pub record IsAlone (r : Raft) : Type 0 where
  pub role : r.state_name ≡ leader
  pub nodes : r.nodes ≡ []
  pub count : r.nservers ≡ 1
  pub followers : r.volatile.match_index ≡ []
  pub valid : IsValid r.state
  pub committed : r.volatile.commit_index ≡ r.state.last_log_index
  pub small : r.state.last_log_index + 1 < 2 ^ 63

-- The server after a client's command.
abbrev pub appended : LogEntry → Raft → Raft
appended e r = (append_entry e r).1

pub last_index_appended :
    (e : LogEntry) (r : Raft)
    → IsValid r.state
    → (appended e r).state.last_log_index ≡ r.state.last_log_index + 1
unfolding append_entry append
last_index_appended e r v = omega (
  arith,
  v.index_cached,
  length-append r.state.log (record e { term = r.state.current_term } ∷ []),
)

-- Its own acknowledgement is a quorum.
quorum_index_alone : (last : ℕ) → quorum_index 1 last [] ≡ last
unfolding quorum_index sort place indices pad
quorum_index_alone last = refl

get_elem?-append_length :
    (xs : List LogEntry) (e : LogEntry) → get_elem? (xs ++ e ∷ []) (length xs) ≡ some e
get_elem?-append_length [] e = refl
get_elem?-append_length (x ∷ xs) e = get_elem?-append_length xs e

-- The entry as it stands in the log.
abbrev pub entered : LogEntry → Raft → LogEntry
entered e r = record e { term = r.state.current_term }

-- The server once its log is committed.
abbrev pub committed_alone : Raft → Raft
committed_alone r = record r {
  volatile = record (r.volatile) {
    commit_seqno = max r.volatile.commit_seqno 0;
    commit_index = r.state.last_log_index;
  };
}

appended_term :
    (e : LogEntry) (r : Raft)
    → IsValid r.state
    → r.state.last_log_index + 1 < 2 ^ 63
    → log_term (int64 (appended e r).state.last_log_index) (appended e r).state
      ≡ (appended e r).state.current_term
unfolding append_entry
appended_term e r v small =
    let s = append (entered e r) r.state in
    let n : s.last_log_index ≡ suc (length r.state.log) =
      omega (arith, last_index_appended e r v, v.index_cached) in
    ap (λ i. log_term (int64 i) s) n
    ∙ log_term_at (length r.state.log) s (append-IsValid (entered e r) r.state)
        (omega (arith, v.index_cached))
    ∙ term
  where
    term :
        term_at (length r.state.log) (append (entered e r) r.state).log
        ≡ (append (entered e r) r.state).current_term
    term = unfold append in (rw (get_elem?-append_length r.state.log (entered e r)) refl)

commit_advance-alone :
    (s : State) (v : Volatile)
    → v.match_index ≡ []
    → v.commit_index ≤ s.last_log_index
    → log_term (int64 s.last_log_index) s ≡ s.current_term
    → commit_advance 1 s 0 v
      ≡ record v { commit_seqno = max v.commit_seqno 0; commit_index = s.last_log_index }
unfolding commit_advance Dict.values
commit_advance-alone s v none_other le t =
    let top : max v.commit_index s.last_log_index ≡ s.last_log_index = omega arith in
    let present : (s.current_term == s.current_term) ≡ true = ground arith in
    rw (none_other, quorum_index_alone s.last_log_index, top, t, present) refl

commit_alone-one :
    (a : Raft)
    → a.nservers ≡ 1
    → a.volatile.match_index ≡ []
    → a.volatile.commit_index ≤ a.state.last_log_index
    → log_term (int64 a.state.last_log_index) a.state ≡ a.state.current_term
    → commit_alone a ≡ committed_alone a
unfolding commit_alone
commit_alone-one a count none_other le t =
    let one : (a.nservers == 1) ≡ true = ground (arith, count) in
    rw one (
      ap (λ n. record a { volatile = commit_advance n a.state 0 a.volatile }) count
      ∙ ap (λ v. record a { volatile = v })
          (commit_advance-alone a.state a.volatile none_other le t))

-- A leader without nodes sends nothing.
process_timeout-leader :
    (now : ℕ) (a : Raft)
    → a.state_name ≡ leader
    → a.nodes ≡ []
    → process_timeout now a ≡ ok (commit_alone a)
unfolding process_timeout leader_timeout heartbeats role_timeout
process_timeout-leader now a role nodes = rw (started, counted, role) (rw nodes refl)
  where
    started : maybe_start_election now a ≡ a
    started = unfold maybe_start_election is_candidate is_follower in (rw role refl)

    counted : count_votes a ≡ a
    counted = unfold count_votes is_candidate in (rw role refl)

module _ (e : LogEntry) (r : Raft) (h : IsAlone r) where
  -- ProcessTimeout commits the new entry.
  pub process_timeout-appended :
      (now : ℕ) → process_timeout now (appended e r) ≡ ok (committed_alone (appended e r))
  unfolding append_entry
  process_timeout-appended now =
      process_timeout-leader now (appended e r) h.role h.nodes
      ∙ ap ok (
          commit_alone-one (appended e r) h.count h.followers
            (omega (arith, h.committed, last_index_appended e r h.valid))
            (appended_term e r h.valid h.small))
