-- ===== src/Cluster/Logs.antt =====
-- The logs of a cluster, for the log matching property of Raft: each term has one log, that of its
-- leader, and every log agrees with those of the terms of its entries.
pub mod Extended
pub mod Merged
pub mod Kept
pub mod Campaigns
pub mod Sent
pub mod Leading
pub mod Accepted
pub mod Followed
pub mod Grown
pub mod Steady
pub mod Steps
pub mod Timeouts
pub mod Runs
pub mod Agreement
use miniraft_cpp.Prelude.{
  ℕ, suc, ◌+◌, ◌-◌, ◌≤◌, ◌<◌, ◌^◌, ◌≡◌, ◌≢◌, ◌⊎◌, List, [], ◌++◌, All, true, length, take,
}
use miniraft_cpp.Prelude.Dict
use miniraft_cpp.Messages.{LogEntry, Message, append_entries_request}
use miniraft_cpp.State.{IsValid}
use miniraft_cpp.State.Log.{term_at}
use miniraft_cpp.State.Replace.{HaveTerms}
use miniraft_cpp.State.Matching.{slice}
use miniraft_cpp.Raft.{Raft, leader, candidate}
use miniraft_cpp.Cluster.{System}
use miniraft_cpp.Cluster.Ballots.{Won}

-- The log of each term: that of its leader, as long as it has grown in the term.
abbrev pub History : Type 0
History = ℕ → List LogEntry

-- Up to each of its entries, a log is that of the entry's term.
abbrev pub IsCoherent : History → List LogEntry → Type 0
IsCoherent hist xs = (i : ℕ) → i < length xs → take (suc i) xs ≡ take (suc i) (hist (term_at i xs))

-- The entries of a request are a part of the log of its term, and so is the entry before them.
pub record IsPart (hist : History) (t prev prev_term : ℕ) (es : List LogEntry) : Type 0 where
  pub part : es ≡ slice prev (length es) (hist t)
  pub inside : prev + length es ≤ length (hist t)
  pub before : (prev ≡ 0) ⊎ (prev_term ≡ term_at (prev - 1) (hist t))
  pub small : prev + length es < 2 ^ 63

abbrev pub Carried : History → ℕ × Message → Type 0
Carried hist (d, append_entries_request x m es) =
    (es ≡ []) ⊎ IsPart hist x.term m.prev_log_index m.prev_log_term es
Carried hist _ = Unit

-- A server whose log and messages agree with the history; a leader has the log of its term.
pub record NodeLog (hist : History) (r : Raft) : Type 0 where
  pub valid : IsValid r.state
  pub coherent : IsCoherent hist r.state.log
  pub terms : HaveTerms r.state.log
  pub positive : 0 < r.state.current_term
  pub leads : r.state_name ≡ leader → hist r.state.current_term ≡ r.state.log
  pub sent : All (Carried hist) r.outbox

-- A term that has a log has a leader: a server that was elected in it, and is no candidate any more.
pub record IsLed (servers : List ℕ) (s : System) (t : ℕ) : Type 0 where
  pub server : ℕ
  pub member : Dict.contains server servers ≡ true
  pub won : Won servers s.ballot server t
  pub reached : t ≤ (s.node server).state.current_term
  pub elected : t ≡ (s.node server).state.current_term → (s.node server).state_name ≢ candidate

pub record LogInv (servers : List ℕ) (hist : History) (s : System) : Type 0 where
  pub nodes : (c : ℕ) → Dict.contains c servers ≡ true → NodeLog hist (s.node c)
  pub logs : (t : ℕ) → IsCoherent hist (hist t)
  pub log_terms : (t : ℕ) → HaveTerms (hist t)
  pub led : (t : ℕ) → hist t ≢ [] → IsLed servers s t

-- Logs of terms only grow.
abbrev pub Extends : History → History → Type 0
Extends hist hist' = (t : ℕ) → (rest : List LogEntry) × (hist' t ≡ hist t ++ rest)
