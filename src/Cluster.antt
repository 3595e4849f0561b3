-- ===== src/Cluster.antt =====
-- A cluster of servers that exchange messages: the setting in which miniraft/raft.cpp runs. Each
-- step is one call of the server's public methods at one node.
pub mod Turn
pub mod Sound
pub mod SoundProcess
pub mod SoundSending
pub mod SoundTimeout
pub mod Ballots
pub mod Safety
pub mod Election
pub mod Logs
use miniraft_cpp.Prelude.{
  ℕ, ◌+◌, ◌-◌, ◌^◌, ◌<◌, ◌≡◌, Bool, true, ◌&&◌, List, [], ◌∷◌, ◌++◌, ◌==◌, if◌then◌else◌, Result,
  ok,
}
use miniraft_cpp.Prelude.Dict
use miniraft_cpp.Messages.{LogEntry, Message}
use miniraft_cpp.State.{State}
use miniraft_cpp.Raft.{Raft, new_raft}
use miniraft_cpp.Raft.Process.{process}
use miniraft_cpp.Raft.Timeout.{process_timeout, append_entry, approve_read}

-- The servers by their ids, and, for the statements only, whom each server has voted for in each
-- term (0 for nobody).
pub record System : Type 0 where
  pub node : ℕ → Raft
  pub ballot : ℕ → ℕ → ℕ

abbrev pub update {ℓ} : {A : Type ℓ} → ℕ → A → (ℕ → A) → ℕ → A
update i a f j = if i == j then a else f j

-- The vote that server `c` has given in its present term is recorded.
abbrev pub note_ballot : ℕ → Raft → (ℕ → ℕ → ℕ) → ℕ → ℕ → ℕ
note_ballot c r ballot v t =
    if c == v && r.state.current_term == t then r.state.voted_for else ballot v t

abbrev pub put : ℕ → Raft → System → System
put c r s = record { node = update c r s.node; ballot = note_ballot c r s.ballot }

-- The message `m` to `d` is among those sent.
abbrev pub SentTo : ℕ → Message → List (ℕ × Message) → Type 0
SentTo d m out =
    (before : List (ℕ × Message)) × (after : List (ℕ × Message)) × (out ≡ before ++ (d, m) ∷ after)

-- A server that starts again from its persistent state; what it has sent stays sent.
unfoldable pub restarted : Raft → Raft
restarted r = record (new_raft r.state r.id r.nodes) { outbox = r.outbox }

-- The steps of a cluster of the given servers. A message that was sent may arrive at any time, any
-- number of times, or never. A crashed server restarts with what it has persisted. A server whose
-- term counter would wrap starts no election.
pub data Step (servers : List ℕ) (s : System) : System → Type 0 where
  deliver :
      (i c now : ℕ) (m : Message) {r : Raft}
      → Dict.contains i servers ≡ true
      → Dict.contains c servers ≡ true
      → SentTo c m (s.node i).outbox
      → process now m (s.node c) ≡ ok r
      → Step servers s (put c r s)
  timeout :
      (c now : ℕ) {r : Raft}
      → Dict.contains c servers ≡ true
      → (s.node c).state.current_term + 1 < 2 ^ 64
      → process_timeout now (s.node c) ≡ ok r
      → Step servers s (put c r s)
  client_write :
      (c : ℕ) (e : LogEntry)
      → Dict.contains c servers ≡ true
      → Step servers s (put c (append_entry e (s.node c)).1 s)
  client_read :
      (c : ℕ) {n : ℕ} {r : Raft}
      → Dict.contains c servers ≡ true
      → approve_read (s.node c) ≡ ok (n, r)
      → Step servers s (put c r s)
  restart :
      (c : ℕ) → Dict.contains c servers ≡ true → Step servers s (put c (restarted (s.node c)) s)

pub data Reach (servers : List ℕ) (s : System) : System → Type 0 where
  here : Reach servers s s
  next : {t u : System} → Reach servers s t → Step servers t u → Reach servers s u

-- Servers that start, or start again, from any persistent states.
unfoldable pub boot : (ℕ → State) → (ℕ → List ℕ) → System
boot states peers = record {
  node = λ c. new_raft (states c) c (peers c);
  ballot = λ v t. if (states v).current_term == t then (states v).voted_for else 0;
}
