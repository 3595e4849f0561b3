-- ===== src/Tests/Election.antt =====
-- An election of three servers: server 1 asks 2, which grants, and becomes the leader of term 2.
use miniraft_cpp.Prelude.{
  ℕ, take, ◌+◌, ◌<◌, ◌^◌, length, ◌≡◌, ◌≢◌, refl, sym, subst, ℕ_discrete, All, List, [], ◌∷◌, true,
  arith, ◌==◌, if◌then◌else◌,
}
use miniraft_cpp.Prelude.Dict
use miniraft_cpp.Messages.{
  Message, request_vote_request, request_vote_response, append_entries_request, LogEntry,
}
use miniraft_cpp.State.{State, new_state, append}
use miniraft_cpp.State.Matching.{LogMatching}
use miniraft_cpp.Raft.{Raft}
use miniraft_cpp.Raft.Process.{process}
use miniraft_cpp.Raft.Timeout.{process_timeout, append_entry}
use miniraft_cpp.Cluster.{System, Reach, here, next, boot, put, deliver, timeout, client_write}
use miniraft_cpp.Tests.Run.{value}
use miniraft_cpp.Cluster.Election.{IsConfigured, election_safety, vote_once}
use miniraft_cpp.Cluster.Logs.Steps.{HasRoom}
use miniraft_cpp.Cluster.Logs.Runs.{OrderedReach, here, next}
use miniraft_cpp.Cluster.Logs.Agreement.{IsFresh, log_matching, leader_append_only}

abbrev servers : List ℕ
servers = 1 ∷ 2 ∷ 3 ∷ []

abbrev peers : ℕ → List ℕ
peers c = if c == 1 then 2 ∷ 3 ∷ [] else if c == 2 then 1 ∷ 3 ∷ [] else 1 ∷ 2 ∷ []

empty_state : State
unfolding new_state
empty_state = new_state 1 0 []

abbrev initial : System
initial = boot (λ _. empty_state) peers

asked : Raft
unfolding value empty_state
asked = value (initial.node 1) (process_timeout 0 (initial.node 1))

abbrev started : System
started = put 1 asked initial

abbrev request : Message
request =
    request_vote_request (record { src = 1; dst = 2; term = 2; seqno = 0 })
      (record { last_log_index = 0; last_log_term = 0; candidate_id = 1 })

granted : Raft
unfolding value asked
granted = value (started.node 2) (process 1 request (started.node 2))

abbrev voted : System
voted = put 2 granted started

abbrev reply : Message
reply =
    request_vote_response (record { src = 2; dst = 1; term = 2; seqno = 0 })
      (record { vote_granted = true })

unfoldable pub backed : Raft
unfolding value granted
backed = value (voted.node 1) (process 2 reply (voted.node 1))

abbrev counted : System
counted = put 1 backed voted

unfoldable pub elected : Raft
unfolding value backed
elected = value (counted.node 1) (process_timeout 3 (counted.node 1))

abbrev led : System
led = put 1 elected counted

run_voted : Reach servers initial voted
unfolding value granted
run_voted =
    next (next here (timeout 1 0 {r = asked} refl (omega arith) refl))
      (deliver 1 2 1 request {r = granted} refl refl ([], _, refl) refl)

run_led : Reach servers voted led
unfolding value elected
run_led =
    next (next here (deliver 2 1 2 reply {r = backed} refl refl ([], _, refl) refl))
      (timeout 1 3 {r = elected} refl (omega arith) refl)

Reach-trans : {s t u : System} → Reach servers s t → Reach servers t u → Reach servers s u
Reach-trans a here = a
Reach-trans a (next b step) = next (Reach-trans a b) step

-- What holds of each of the three servers.
each_server : (P : ℕ → Type 0) → P 1 → P 2 → P 3 → (c : ℕ) → Dict.contains c servers ≡ true → P c
unfolding Dict.contains
each_server P h k l c m = elim (ℕ_discrete c 1) [
  | yes e ↦ subst P (sym e) h
  | no not_first ↦ elim (ℕ_discrete c 2) [
    | yes e ↦ subst P (sym e) k
    | no neither ↦ let e : c ≡ 3 = ground arith in subst P (sym e) l
  ]
]

peers_apart :
    (c : ℕ)
    → Dict.contains c servers ≡ true
    → All (λ d. (Dict.contains d servers ≡ true) × (d ≢ c)) (peers c)
unfolding Dict.contains
peers_apart =
    each_server (λ c. All (λ d. (Dict.contains d servers ≡ true) × (d ≢ c)) (peers c))
      ((refl, omega arith), ((refl, omega arith), tt))
      ((refl, omega arith), ((refl, omega arith), tt))
      ((refl, omega arith), ((refl, omega arith), tt))

three_servers : IsConfigured servers peers
unfolding value
three_servers = record { none_zero = refl; complete = λ c m. ground arith; others = peers_apart }

election_safety_example : ◌≡◌ {A = ℕ} 1 1
unfolding value elected
election_safety_example =
    election_safety servers (λ _. empty_state) peers led led three_servers
      (Reach-trans run_voted run_led) here 1 1 refl refl refl refl refl

-- The request arrives a second time, and server 2 grants its vote again.
granted_again : Raft
unfolding value granted
granted_again = value (voted.node 2) (process 2 request (voted.node 2))

abbrev voted_again : System
voted_again = put 2 granted_again voted

run_again : Reach servers initial voted_again
unfolding value granted_again
run_again = next run_voted (deliver 1 2 2 request {r = granted_again} refl refl ([], _, refl) refl)

vote_once_example :
    ◌≡◌ {A = ℕ} 1 1
    × ((voted_again.node 2).state.current_term ≡ 2 → (voted_again.node 2).state.voted_for ≡ 1)
unfolding value granted_again Dict.contains
vote_once_example =
    vote_once servers (λ _. empty_state) peers voted_again three_servers run_again 2 1 1
      (record { src = 2; dst = 1; term = 2; seqno = 0 })
      (record { src = 2; dst = 1; term = 2; seqno = 0 }) (record { vote_granted = true })
      (record { vote_granted = true }) refl ([], reply_again ∷ [], refl)
      (reply_again ∷ [], [], refl) refl refl refl
  where
    reply_again : ℕ × Message
    reply_again = (1, reply)

-- The leader sends the first entry of its term to server 2, which takes it.
abbrev first_entry : LogEntry
first_entry = record { term = 2; flags = 1; data_bytes = [] }

abbrev first_request : Message
first_request =
    append_entries_request (record { src = 1; dst = 2; term = 2; seqno = 0 })
      (record {
        prev_log_index = 0;
        prev_log_term = 0;
        leader_commit = 0;
        leader_id = 1;
        nentries = 1;
      })
      (first_entry ∷ [])

unfoldable followed : Raft
unfolding value elected
followed = value (led.node 2) (process 4 first_request (led.node 2))

abbrev shared : System
shared = put 2 followed led

-- There is room in the logs of the three servers.
room :
    (s : System)
    → length (s.node 1).state.log + 1 < 2 ^ 62
    → length (s.node 2).state.log + 1 < 2 ^ 62
    → length (s.node 3).state.log + 1 < 2 ^ 62
    → HasRoom servers s
room s = each_server (λ c. length (s.node c).state.log + 1 < 2 ^ 62)

ordered_voted : OrderedReach servers initial voted
unfolding value granted
ordered_voted =
    next
      (next here (timeout 1 0 {r = asked} refl (omega arith) refl) tt
        (room initial (omega arith) (omega arith) (omega arith)))
      (deliver 1 2 1 request {r = granted} refl refl ([], _, refl) refl) tt
      (room started (omega arith) (omega arith) (omega arith))

ordered_led : OrderedReach servers initial led
unfolding value elected
ordered_led =
    next
      (next ordered_voted (deliver 2 1 2 reply {r = backed} refl refl ([], _, refl) refl) tt
        (room voted (omega arith) (omega arith) (omega arith)))
      (timeout 1 3 {r = elected} refl (omega arith) refl) tt
      (room counted (omega arith) (omega arith) (omega arith))

ordered_shared : OrderedReach servers initial shared
unfolding value followed
ordered_shared =
    next ordered_led
      (deliver 1 2 4 first_request {r = followed} refl refl (_ ∷ _ ∷ [], _, refl) refl) tt
      (room led (omega arith) (omega arith) (omega arith))

-- The leader takes a command.
abbrev command : LogEntry
command = record { term = 0; flags = 0; data_bytes = 9 ∷ [] }

abbrev asked_again : System
asked_again = put 1 (append_entry command elected).1 led

ordered_command : OrderedReach servers led asked_again
unfolding value elected
ordered_command =
    next here (client_write 1 command refl) refl
      (room led (omega arith) (omega arith) (omega arith))

empty_state-IsFresh : IsFresh (λ _. empty_state)
unfolding empty_state
empty_state-IsFresh = record {
  valid = λ c. record { index_cached = refl; term_cached = refl };
  unlogged = λ c. refl;
  positive = λ c. omega arith;
}

log_matching_example : LogMatching (shared.node 1).state.log (shared.node 2).state.log
unfolding Dict.contains
log_matching_example =
    log_matching servers (λ _. empty_state) peers shared three_servers empty_state-IsFresh
      ordered_shared 1 2 refl refl

leader_append_only_example : take 1 (asked_again.node 1).state.log ≡ (led.node 1).state.log
unfolding value elected append_entry append
leader_append_only_example =
    leader_append_only servers (λ _. empty_state) peers led asked_again three_servers
      empty_state-IsFresh ordered_led ordered_command 1 1 refl refl refl refl refl
