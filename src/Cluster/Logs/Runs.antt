-- ===== src/Cluster/Logs/Runs.antt =====
-- Runs of a cluster whose leaders alone take commands: its logs keep agreeing with a history.
use miniraft_cpp.Prelude.{
  ℕ, ◌+◌, ◌<◌, ◌^◌, ◌≡◌, refl, subst, inr, List, [], ◌∷◌, ◌++◌, true, false, All, arith, ok, length,
}
use miniraft_cpp.Prelude.Dict
use miniraft_cpp.Messages.{LogEntry, Message}
use miniraft_cpp.State
use miniraft_cpp.State.{State, IsValid}
use miniraft_cpp.State.Log.{append-IsValid}
use miniraft_cpp.Raft.{Raft, leader}
use miniraft_cpp.Raft.Process.{take_header, process}
use miniraft_cpp.Raft.Timeout.{append_entry}
use miniraft_cpp.Cluster.{
  System, Step, deliver, timeout, client_write, client_read, restart, put, restarted, SentTo,
}
use miniraft_cpp.Cluster.Turn.{stay, done, more}
use miniraft_cpp.Cluster.Ballots.{Sent, ElectionInv, Backer}
use miniraft_cpp.Cluster.SoundProcess.{take_header-Shift, process-Turns}
use miniraft_cpp.Cluster.SoundTimeout.{append_entry-Turn}
use miniraft_cpp.Cluster.SoundSending.{approve_read-Turns}
use miniraft_cpp.Cluster.Safety.{
  Step-Advanced, All-middle, restarted-Turn, Vouched-Trusted, Advanced,
}
use miniraft_cpp.Cluster.Logs.{History, Carried, NodeLog, LogInv, Extends}
use miniraft_cpp.Cluster.Logs.Extended.{Extends-refl, Extends-trans}
use miniraft_cpp.Cluster.Logs.Kept.{NodeLog-LogSame}
use miniraft_cpp.Cluster.Logs.Campaigns.{restarted-LogSame}
use miniraft_cpp.Cluster.Logs.Leading.{approve_read-NodeLog}
use miniraft_cpp.Cluster.Logs.Followed.{process-NodeLog}
use miniraft_cpp.Cluster.Logs.Grown.{with_log, NodeLog-longer, grown-Extends}
use miniraft_cpp.Cluster.Logs.Steady.{Turns-Steady}
use miniraft_cpp.Cluster.Logs.Steps.{IsOrdered, HasRoom, put-same, put-grown}
use miniraft_cpp.Cluster.Logs.Timeouts.{timeout-LogInv}

-- Runs in which only leaders take commands, and in which the logs have room.
pub data OrderedReach (servers : List ℕ) (s : System) : System → Type 0 where
  here : OrderedReach servers s s
  next :
      {t u : System}
      → OrderedReach servers s t
      → (step : Step servers t u) → IsOrdered step
      → HasRoom servers t
      → OrderedReach servers s u

module _ (servers : List ℕ) (none_zero : Dict.contains 0 servers ≡ false) where
  append_entry-NodeLog :
      (hist : History) (e : LogEntry) (r : Raft)
      → NodeLog hist r
      → r.state_name ≡ leader
      → NodeLog
          (with_log r.state.current_term
            (r.state.log ++ record e { term = r.state.current_term } ∷ [])
            hist)
          (append_entry e r).1
  unfolding append_entry State.append
  append_entry-NodeLog hist e r n leads =
      NodeLog-longer hist r.state.log (record e { term = r.state.current_term }) n.coherent n.terms
        n.positive (inr (n.leads leads)) r (append_entry e r).1 n refl refl
        (append-IsValid (record e { term = r.state.current_term }) r.state) refl refl

  module _ (hist : History) (s : System) (v : LogInv servers hist s)
      (election : ElectionInv servers s) where
    deliver-LogInv :
        (i c now : ℕ) (m : Message) {r : Raft}
        → Dict.contains i servers ≡ true
        → Dict.contains c servers ≡ true
        → SentTo c m (s.node i).outbox
        → process now m (s.node c) ≡ ok r
        → Advanced servers none_zero s (put c r s)
        → length (s.node c).state.log + 1 < 2 ^ 62
        → LogInv servers hist (put c r s)
    deliver-LogInv i c now m {r} mi mc (before, after, out) e adv room =
        let carried =
          All-middle (Carried hist) before after (c, m)
            (subst (All (Carried hist)) out (v.nodes i mi).sent) in
        let sent =
          All-middle (Sent s.ballot i) before after (c, m)
            (subst (All (Sent s.ballot i)) out (election i mi).sent) in
        let r₁ = take_header now m (s.node c) in
        let B = Backer servers s.ballot c r₁.state.current_term in
        put-same servers none_zero s c r hist v adv.kept
          (Turns-Steady B (take_header-Shift now m (s.node c)) (
            process-Turns B now m (s.node c)
              (Vouched-Trusted servers none_zero s.ballot i c m r₁ mi sent.0 sent.2) e))
          (process-NodeLog hist v.logs v.log_terms now c m (s.node c) (omega (arith, room))
            (v.nodes c mc) carried e)

    write-LogInv :
        (c : ℕ) (e : LogEntry)
        → Dict.contains c servers ≡ true
        → (s.node c).state_name ≡ leader
        → Advanced servers none_zero s (put c (append_entry e (s.node c)).1 s)
        → (hist' : History) × Extends hist hist'
          × LogInv servers hist' (put c (append_entry e (s.node c)).1 s)
    unfolding append_entry State.append
    write-LogInv c e mc leads adv =
        let r = s.node c in
        let n = v.nodes c mc in
        let e' : LogEntry = record e { term = r.state.current_term } in
        (
          with_log r.state.current_term (r.state.log ++ e' ∷ []) hist,
          grown-Extends hist r.state.log e' n.coherent n.terms n.positive (inr (n.leads leads)),
          put-grown servers none_zero s c r (append_entry e r).1 e' hist v mc election adv
              (Turns-Steady (λ d. Unit) (stay refl) (more done (append_entry-Turn _ e r))) n
              (inr (n.leads leads)) n.positive leads refl (append_entry-NodeLog hist e r n leads),
        )

    -- A step keeps the invariant of the logs, for a history that may have grown.
    Step-LogInv :
        {t : System} (step : Step servers s t)
        → IsOrdered step
        → HasRoom servers s
        → Advanced servers none_zero s t
        → (hist' : History) × Extends hist hist' × LogInv servers hist' t
    Step-LogInv (deliver i c now m mi mc sent e) o room adv =
        (hist, Extends-refl hist, deliver-LogInv i c now m mi mc sent e adv (room c mc))
    Step-LogInv (timeout c now {r} mc small e) o room adv =
        timeout-LogInv servers none_zero s hist c now r v mc election adv small (room c mc) e
    Step-LogInv (client_write c e mc) o room adv = write-LogInv c e mc o adv
    Step-LogInv (client_read c {n} {r} mc e) o room adv =
        let small : length (s.node c).state.log < 2 ^ 62 = omega (arith, room c mc) in
        (
          hist,
          Extends-refl hist,
          put-same servers none_zero s c r hist v adv.kept
              (Turns-Steady (λ d. Unit) (stay refl) (approve_read-Turns _ (s.node c) e))
              (approve_read-NodeLog hist (s.node c) (v.nodes c mc) o small e),
        )
    Step-LogInv (restart c mc) o room adv = (
      hist,
      Extends-refl hist,
      put-same servers none_zero s c (restarted (s.node c)) hist v adv.kept
          (Turns-Steady (λ d. Unit) (stay refl)
            (more done (restarted-Turn servers none_zero _ s.ballot c (s.node c) (election c mc))))
          (NodeLog-LogSame hist (s.node c) (restarted (s.node c)) (restarted-LogSame (s.node c))
            (v.nodes c mc)),
    )

  -- The two invariants of a system.
  pub record Matched (s : System) : Type 0 where
    pub election : ElectionInv servers s
    pub hist : History
    pub logs : LogInv servers hist s

  -- A run keeps them, and the logs of the terms only grow.
  pub OrderedReach-Matched :
      {s t : System}
      → OrderedReach servers s t
      → (m : Matched s) → (m' : Matched t) × Extends m.hist m'.hist
  OrderedReach-Matched here m = (m, Extends-refl m.hist)
  OrderedReach-Matched (next {t} run step o room) m =
      let (k, before) = OrderedReach-Matched run m in
      let adv = Step-Advanced servers none_zero step k.election in
      let (hist, after, logs) = Step-LogInv k.hist t k.logs k.election step o room adv in
      (
        record { election = adv.inv; hist = hist; logs = logs },
        Extends-trans m.hist k.hist hist before after,
      )
