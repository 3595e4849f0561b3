-- ===== src/Cluster/Safety.antt =====
-- Every step of the cluster keeps the invariant of elections.
use miniraft_cpp.Prelude.{
  ℕ, ◌≡◌, ◌≢◌, refl, sym, subst, ap, ◌∙◌, inr, List, [], ◌∷◌, ◌++◌, true, false, All, arith,
  ℕ_discrete,
}
use mathlib.Core.List.{append-nil}
use miniraft_cpp.Prelude.Dict
use miniraft_cpp.Prelude.Sets.{All-contains, common_member}
use miniraft_cpp.Messages.{
  Message, log_entry, request_vote_request, request_vote_response, append_entries_request,
  append_entries_response, command_request, command_response, other,
}
use miniraft_cpp.Raft.{Raft, new_raft}
use miniraft_cpp.Raft.Process.{take_header}
use miniraft_cpp.Cluster.{
  System, Step, Reach, deliver, timeout, client_write, client_read, restart, here, next, put,
  update, note_ballot, restarted,
}
use miniraft_cpp.Cluster.Turn.{Turns, done, more, Turn, Shift, stay, idle}
use miniraft_cpp.Cluster.SoundProcess.{Trusted, take_header-Shift, process-Turns}
use miniraft_cpp.Cluster.SoundTimeout.{
  maybe_start_election-Shift, process_timeout-Turns, append_entry-Turn,
}
use miniraft_cpp.Cluster.SoundSending.{approve_read-Turns}
use miniraft_cpp.Cluster.Ballots.{Kept, Backer, Won, Vouched, Sent, NodeInv, ElectionInv}
use miniraft_cpp.Cluster.Ballots.Kept.{NodeInv-Kept}
use miniraft_cpp.Cluster.Ballots.Moves.{Kept-trans, Turns-Reached, Shift-Shifted}

pub All-middle :
    {A : Type 0} (P : A → Type 0) (before after : List A) (a : A)
    → All P (before ++ a ∷ after)
    → P a
All-middle P [] after a h = h.0
All-middle P (x ∷ xs) after a h = All-middle P xs after a h.1

pub update_self : (c : ℕ) (r : Raft) (f : ℕ → Raft) → update c r f c ≡ r
update_self c r f = ground arith

pub update_other : (c d : ℕ) (r : Raft) (f : ℕ → Raft) → c ≢ d → update c r f d ≡ f d
update_other c d r f h = ground arith

module _ (servers : List ℕ) (none_zero : Dict.contains 0 servers ≡ false) where
  pub server_nonzero : (c : ℕ) → Dict.contains c servers ≡ true → c ≢ 0
  server_nonzero c member e = cc (none_zero, subst (λ d. Dict.contains d servers ≡ true) e member)

  -- What the sender vouched for is what the receiver trusts.
  pub Vouched-Trusted :
      (b : ℕ → ℕ → ℕ) (i c : ℕ) (m : Message) (r : Raft)
      → Dict.contains i servers ≡ true
      → c ≢ i
      → Vouched b i c m
      → Trusted (Backer servers b c r.state.current_term) r m
  Vouched-Trusted b i c (request_vote_request x m) r member apart v = v.1 ∙ sym v.0
  Vouched-Trusted b i c (request_vote_response x m) r member apart v = λ g t.
      let (src, voted) = v g in
      subst (Backer servers b c r.state.current_term) (sym src)
        (member, ground arith, ap (b i) (sym t) ∙ voted)
  Vouched-Trusted b i c (log_entry e) r member apart v = tt
  Vouched-Trusted b i c (append_entries_request x m es) r member apart v = tt
  Vouched-Trusted b i c (append_entries_response x m) r member apart v = tt
  Vouched-Trusted b i c (command_request m) r member apart v = tt
  Vouched-Trusted b i c (command_response m) r member apart v = tt
  Vouched-Trusted b i c (other k) r member apart v = tt

  -- A step of one server that keeps its invariant keeps that of the system.
  pub record Advanced (s t : System) : Type 0 where
    pub inv : ElectionInv servers t
    pub kept : Kept s.ballot t.ballot

  advance_node :
      (s : System) (c : ℕ) (r : Raft)
      → ElectionInv servers s
      → Dict.contains c servers ≡ true
      → NodeInv servers (note_ballot c r s.ballot) c r
      → Kept s.ballot (note_ballot c r s.ballot)
      → Advanced s (put c r s)
  advance_node s c r v member inv kept = record {
    inv = λ d md. elim (ℕ_discrete c d) [
      | yes same ↦
          subst (λ d. NodeInv servers (note_ballot c r s.ballot) d (update c r s.node d)) same
            (subst (NodeInv servers (note_ballot c r s.ballot) c) (sym (update_self c r s.node))
              inv)
      | no apart ↦
          subst (NodeInv servers (note_ballot c r s.ballot) d)
            (sym (update_other c d r s.node apart))
            (NodeInv-Kept (server_nonzero d md) kept (λ t. ground arith) (v d md))
    ];
    kept = kept;
  }

  -- A shift to a later term, or none, and then moves within that term.
  advance_moves :
      (s : System) (c : ℕ) {r₁ r : Raft}
      → ElectionInv servers s
      → Dict.contains c servers ≡ true
      → Shift (s.node c) r₁
      → Turns (Backer servers s.ballot c r₁.state.current_term) r₁ r
      → Advanced s (put c r s)
  advance_moves s c {r₁} {r} v member shift turns =
      let nonzero = server_nonzero c member in
      let a = Shift-Shifted servers s.ballot c nonzero none_zero member (v c member) shift in
      let b = Turns-Reached servers s.ballot c nonzero none_zero member a.inv turns in
      advance_node s c r v member b.inv (Kept-trans a.kept b.kept)

  pub restarted-Turn :
      (B : ℕ → Type 0) (n : ℕ → ℕ → ℕ) (c : ℕ) (r : Raft)
      → NodeInv servers n c r
      → Turn B r (restarted r)
  unfolding restarted new_raft
  restarted-Turn B n c r v =
      idle [] refl refl (sym v.rule) refl refl (inr refl) (sym (append-nil r.outbox)) tt

  -- Every step of the cluster keeps the invariant, and every vote that was given.
  pub Step-Advanced : {s t : System} → Step servers s t → ElectionInv servers s → Advanced s t
  Step-Advanced {s} (deliver i c now m {r} mi mc (before, after, out) e) v =
      let sender = v i mi in
      let sent =
        All-middle (Sent s.ballot i) before after (c, m)
          (subst (All (Sent s.ballot i)) out sender.sent) in
      let r₁ = take_header now m (s.node c) in
      advance_moves s c v mc (take_header-Shift now m (s.node c)) (
        process-Turns (Backer servers s.ballot c r₁.state.current_term) now m (s.node c)
          (Vouched-Trusted s.ballot i c m r₁ mi sent.0 sent.2) e)
  Step-Advanced {s} (timeout c now mc room e) v =
      advance_moves s c v mc (maybe_start_election-Shift now (s.node c) room)
        (process_timeout-Turns _ now (s.node c) e)
  Step-Advanced {s} (client_write c e mc) v =
      advance_moves s c v mc (stay refl) (more done (append_entry-Turn _ e (s.node c)))
  Step-Advanced {s} (client_read c mc e) v =
      advance_moves s c v mc (stay refl) (approve_read-Turns _ (s.node c) e)
  Step-Advanced {s} (restart c mc) v =
      advance_moves s c v mc (stay refl)
        (more done (restarted-Turn _ s.ballot c (s.node c) (v c mc)))

  pub Reach-Advanced : {s t : System} → Reach servers s t → ElectionInv servers s → Advanced s t
  Reach-Advanced here v = record { inv = v; kept = λ u t h. refl }
  Reach-Advanced (next run step) v =
      let a = Reach-Advanced run v in
      let b = Step-Advanced step a.inv in record { inv = b.inv; kept = Kept-trans a.kept b.kept }

  -- Two majorities of one term voted for the same server.
  pub Won-unique : (n : ℕ → ℕ → ℕ) (i j t : ℕ) → Won servers n i t → Won servers n j t → i ≡ j
  Won-unique n i j t wi wj =
      let (v, vi, vj) =
        common_member wi.quorum wj.quorum servers wi.distinct wj.distinct wi.within wj.within
          (omega (arith, wi.majority, wj.majority)) in
      sym (All-contains (λ u. n u t ≡ i) v wi.quorum wi.voted vi)
      ∙ All-contains (λ u. n u t ≡ j) v wj.quorum wj.voted vj
