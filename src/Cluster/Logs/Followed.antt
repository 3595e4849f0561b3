-- ===== src/Cluster/Logs/Followed.antt =====
-- Process on a message that is carried, in every role.
use miniraft_cpp.Prelude.{ℕ, ◌<◌, ◌^◌, ◌≡◌, ap, subst, length, arith, ok, ok-injective}
use miniraft_cpp.Messages.{
  Message, request_vote_request, request_vote_response, append_entries_request,
  append_entries_response,
}
use miniraft_cpp.State.Replace.{HaveTerms}
use miniraft_cpp.Raft.{Raft, Role, follower, candidate, leader}
use miniraft_cpp.Raft.Votes.{on_request_vote_response}
use miniraft_cpp.Raft.Entries.{on_append_entries_response}
use miniraft_cpp.Raft.Process.{take_header, on_follower, on_candidate, on_leader, dispatch, process}
use miniraft_cpp.Cluster.Logs.{History, IsCoherent, Carried, NodeLog}
use miniraft_cpp.Cluster.Logs.Kept.{
  NodeLog-LogSame, on_request_vote_request-LogSame, on_request_vote_response-LogSame,
  on_append_entries_response-LogSame,
}
use miniraft_cpp.Cluster.Logs.Campaigns.{take_header-LogSame}
use miniraft_cpp.Cluster.Logs.Accepted.{on_append_entries_request-NodeLog}

module _ (hist : History) (logs : (t : ℕ) → IsCoherent hist (hist t))
    (log_terms : (t : ℕ) → HaveTerms (hist t)) (now : ℕ) (r : Raft)
    (small : length r.state.log < 2 ^ 62) where
  ignored-NodeLog : {r' : Raft} → NodeLog hist r → ok r ≡ ok r' → NodeLog hist r'
  ignored-NodeLog n e = subst (NodeLog hist) (ok-injective e) n

  on_follower-NodeLog :
      (d : ℕ) (m : Message) {r' : Raft}
      → NodeLog hist r
      → Carried hist (d, m)
      → on_follower now m r ≡ ok r'
      → NodeLog hist r'
  unfolding on_follower
  on_follower-NodeLog d (request_vote_request x m) {r'} n c e =
      NodeLog-LogSame hist r r' (on_request_vote_request-LogSame now x m r e) n
  on_follower-NodeLog d (append_entries_request x m es) n c e =
      on_append_entries_request-NodeLog hist logs log_terms now r small x m es n c e
  on_follower-NodeLog d m n c e = ignored-NodeLog n e

  on_candidate-NodeLog :
      (d : ℕ) (m : Message) {r' : Raft}
      → NodeLog hist r
      → Carried hist (d, m)
      → on_candidate now m r ≡ ok r'
      → NodeLog hist r'
  unfolding on_candidate
  on_candidate-NodeLog d (request_vote_response x m) n c e = subst (NodeLog hist) (ok-injective e) (
      NodeLog-LogSame hist r (on_request_vote_response x m r)
        (on_request_vote_response-LogSame x m r) n)
  on_candidate-NodeLog d (request_vote_request x m) {r'} n c e =
      NodeLog-LogSame hist r r' (on_request_vote_request-LogSame now x m r e) n
  on_candidate-NodeLog d (append_entries_request x m es) n c e =
      on_append_entries_request-NodeLog hist logs log_terms now r small x m es n c e
  on_candidate-NodeLog d m n c e = ignored-NodeLog n e

  on_leader-NodeLog :
      (d : ℕ) (m : Message) {r' : Raft}
      → NodeLog hist r
      → Carried hist (d, m)
      → on_leader now m r ≡ ok r'
      → NodeLog hist r'
  unfolding on_leader
  on_leader-NodeLog d (append_entries_response x m) n c e = subst (NodeLog hist) (ok-injective e) (
      NodeLog-LogSame hist r (on_append_entries_response x m r)
        (on_append_entries_response-LogSame x m r) n)
  on_leader-NodeLog d (request_vote_request x m) {r'} n c e =
      NodeLog-LogSame hist r r' (on_request_vote_request-LogSame now x m r e) n
  on_leader-NodeLog d (append_entries_request x m es) n c e =
      on_append_entries_request-NodeLog hist logs log_terms now r small x m es n c e
  on_leader-NodeLog d m n c e = ignored-NodeLog n e

  dispatch-NodeLog :
      (role : Role) (d : ℕ) (m : Message) {r' : Raft}
      → NodeLog hist r
      → Carried hist (d, m)
      → dispatch role now m r ≡ ok r'
      → NodeLog hist r'
  unfolding dispatch
  dispatch-NodeLog Role.none d m n c e = absurd (ground arith)
  dispatch-NodeLog candidate d m n c e = on_candidate-NodeLog d m n c e
  dispatch-NodeLog follower d m n c e = on_follower-NodeLog d m n c e
  dispatch-NodeLog leader d m n c e = on_leader-NodeLog d m n c e

-- Process on a message that is carried.
pub process-NodeLog :
    (hist : History)
    → ((t : ℕ) → IsCoherent hist (hist t))
    → ((t : ℕ) → HaveTerms (hist t))
    → (now d : ℕ) (m : Message) (r : Raft) {r' : Raft} → length r.state.log < 2 ^ 62
    → NodeLog hist r
    → Carried hist (d, m)
    → process now m r ≡ ok r'
    → NodeLog hist r'
unfolding process
process-NodeLog hist logs log_terms now d m r small n c e =
    let r₁ = take_header now m r in
    let same = take_header-LogSame now m r in
    dispatch-NodeLog hist logs log_terms now r₁ (omega (arith, ap length same.log, small))
      r₁.state_name d m (NodeLog-LogSame hist r r₁ same n) c e
