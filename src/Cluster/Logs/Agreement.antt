-- ===== src/Cluster/Logs/Agreement.antt =====
-- Log matching and the append-only logs of leaders, of miniraft/raft.cpp: a cluster that starts with
-- empty logs, and whose leaders alone take commands.
use miniraft_cpp.Prelude.{
  ℕ, take, ◌∙◌, ◌<◌, ◌≡◌, refl, sym, ap, subst, List, [], ◌++◌, true, arith, length,
}
use miniraft_cpp.Prelude.Dict
use miniraft_cpp.State.{State, IsValid}
use miniraft_cpp.State.Replace.{HaveTerms}
use miniraft_cpp.State.Matching.{LogMatching}
use miniraft_cpp.Raft.{new_raft, leader}
use miniraft_cpp.Cluster.{System, boot}
use miniraft_cpp.Cluster.Election.{IsConfigured, boot-ElectionInv}
use miniraft_cpp.Cluster.Logs.{LogInv}
use miniraft_cpp.Cluster.Logs.Merged.{IsCoherent-LogMatching}
use miniraft_cpp.Prelude.Bytes.{take-length_append}
use miniraft_cpp.Cluster.Logs.Runs.{OrderedReach, Matched, OrderedReach-Matched}

-- Persistent states in which nothing has been logged yet.
pub record IsFresh (states : ℕ → State) : Type 0 where
  pub valid : (c : ℕ) → IsValid (states c)
  pub unlogged : (c : ℕ) → (states c).log ≡ []
  pub positive : (c : ℕ) → 0 < (states c).current_term

boot-LogInv :
    (servers : List ℕ) (states : ℕ → State) (peers : ℕ → List ℕ)
    → IsFresh states
    → LogInv servers (λ t. []) (boot states peers)
unfolding boot new_raft
boot-LogInv servers states peers f = record {
  nodes = λ c member. record {
    valid = f.valid c;
    coherent = λ i h. absurd (omega (arith, h, ap length (f.unlogged c)));
    terms = subst HaveTerms (sym (f.unlogged c)) tt;
    positive = f.positive c;
    leads = λ e. absurd (ground arith);
    sent = tt;
  };
  logs = λ t i h. absurd (omega (arith, h));
  log_terms = λ t. tt;
  led = λ t h. absurd (h refl);
}

boot-Matched :
    (servers : List ℕ) (states : ℕ → State) (peers : ℕ → List ℕ) (conf : IsConfigured servers peers)
    → IsFresh states
    → Matched servers conf.none_zero (boot states peers)
boot-Matched servers states peers conf fresh = record {
  election = boot-ElectionInv servers states peers conf;
  hist = λ t. [];
  logs = boot-LogInv servers states peers fresh;
}

-- In a run of a cluster where no server has the id 0 and the nodes of each server are the other
-- servers, which starts with empty logs and terms above 0, in which only leaders take commands and
-- reads, and logs stay below 2^62 entries: if the logs of two servers have entries of the same
-- term, not 0, at the same place, the logs are the same up to and with that place. Messages may be
-- lost, delayed, reordered and duplicated, and servers may crash and restart from what they have
-- persisted.
pub log_matching :
    (servers : List ℕ) (states : ℕ → State) (peers : ℕ → List ℕ) (s : System)
    → IsConfigured servers peers
    → IsFresh states
    → OrderedReach servers (boot states peers) s
    → (i j : ℕ) → Dict.contains i servers ≡ true
    → Dict.contains j servers ≡ true
    → LogMatching (s.node i).state.log (s.node j).state.log
log_matching servers states peers s conf fresh run i j mi mj =
    let start = boot-Matched servers states peers conf fresh in
    let (m, _) = OrderedReach-Matched servers conf.none_zero run start in
    IsCoherent-LogMatching m.hist (s.node i).state.log (s.node j).state.log
      (m.logs.nodes i mi).coherent (m.logs.nodes j mj).coherent

-- In a run of a cluster where no server has the id 0 and the nodes of each server are the other
-- servers, which starts with empty logs and terms above 0, in which only leaders take commands and
-- reads, and logs stay below 2^62 entries: the log of a leader begins with every log that a leader
-- of its term has had before. Messages may be lost, delayed, reordered and duplicated, and servers
-- may crash and restart from what they have persisted.
pub leader_append_only :
    (servers : List ℕ) (states : ℕ → State) (peers : ℕ → List ℕ) (s t : System)
    → IsConfigured servers peers
    → IsFresh states
    → OrderedReach servers (boot states peers) s
    → OrderedReach servers s t
    → (i j : ℕ) → Dict.contains i servers ≡ true
    → Dict.contains j servers ≡ true
    → (s.node i).state_name ≡ leader
    → (t.node j).state_name ≡ leader
    → (s.node i).state.current_term ≡ (t.node j).state.current_term
    → take (length (s.node i).state.log) (t.node j).state.log ≡ (s.node i).state.log
leader_append_only servers states peers s t conf fresh before after i j mi mj li lj same =
    let start = boot-Matched servers states peers conf fresh in
    let (m, _) = OrderedReach-Matched servers conf.none_zero before start in
    let (m', longer) = OrderedReach-Matched servers conf.none_zero after m in
    let (rest, grown) = longer (t.node j).state.current_term in
    let old : m.hist (t.node j).state.current_term ≡ (s.node i).state.log =
      ap m.hist (sym same) ∙ (m.logs.nodes i mi).leads li in
    let whole : (t.node j).state.log ≡ (s.node i).state.log ++ rest =
      sym ((m'.logs.nodes j mj).leads lj) ∙ grown ∙ ap (λ l. l ++ rest) old in
    ap (take (length (s.node i).state.log)) whole ∙ take-length_append (s.node i).state.log rest
