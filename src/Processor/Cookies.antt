-- ===== src/Processor/Cookies.antt =====
-- miniraft/raft.cpp: the cookies of Forward and OnCommandResponse.
use miniraft_cpp.Prelude.{
  ℕ, ◌+◌, ◌==◌, u32, false, ap, ◌≤◌, ◌≡◌, ◌≢◌, refl, List, [], ◌∷◌, ◌++◌, some, none, true, arith,
  max, ok, Returns,
}
use miniraft_cpp.Prelude.Dict
use miniraft_cpp.Messages.{CommandRequest, CommandResponse}
use miniraft_cpp.Raft.{follower}
use miniraft_cpp.Processor.{Processor}
use miniraft_cpp.Processor.Requests.{
  forward, forward_as, forward_to_leader, waits_for_leader, on_command_response,
}

module _ {M : Type 0} (c : CommandRequest) (client : ℕ) (p : Processor M) where
  abbrev cookies : List ℕ
  cookies = Dict.insert p.forward_cookie (Dict.get_or client [] p.client_to_cookie)

  abbrev sent_on : Processor M
  sent_on = record p {
    forwarded =
        p.forwarded
        ++ (p.raft.volatile.leader_id, record c { cookie = max 1 p.forward_cookie }) ∷ [];
    cookie_to_client = Dict.set p.forward_cookie client p.cookie_to_client;
    client_to_cookie = Dict.set client cookies p.client_to_cookie;
    forward_cookie = u32 (p.forward_cookie + 1);
  }

  forward_sends :
      c.cookie ≡ 0
      → p.raft.state_name ≡ follower
      → p.raft.volatile.leader_id ≢ 0
      → p.raft.volatile.leader_id ≢ p.raft.id
      → Dict.contains p.raft.volatile.leader_id p.nodes ≡ true
      → forward c (some client) p ≡ ok sent_on
  unfolding forward forward_as forward_to_leader waits_for_leader
  forward_sends fresh role known apart reachable =
      let l : (p.raft.volatile.leader_id == 0) ≡ false = ground arith in
      let a : (p.raft.volatile.leader_id == p.raft.id) ≡ false = ground arith in
      rw (fresh, role, l, a, reachable) refl

  response_answered :
      (reply : CommandResponse)
      → 1 ≤ p.forward_cookie
      → Dict.find? p.forward_cookie p.cookie_to_client ≡ none
      → reply.cookie ≡ p.forward_cookie
      → (sent_on.forwarded
          ≡ p.forwarded ++ (p.raft.volatile.leader_id, record c { cookie = p.forward_cookie }) ∷ [])
        × ((on_command_response reply sent_on).replies ≡ p.replies ++ (client, reply) ∷ [])
        × ((on_command_response reply sent_on).cookie_to_client ≡ p.cookie_to_client)
  unfolding on_command_response
  response_answered reply nonzero free same =
      let big : max 1 p.forward_cookie ≡ p.forward_cookie = omega arith in
      let found : Dict.find? reply.cookie (Dict.set p.forward_cookie client p.cookie_to_client)
          ≡ some client =
        ground (arith, Dict.find?-set p.forward_cookie reply.cookie client p.cookie_to_client) in
      (
        ap (λ k. p.forwarded ++ (p.raft.volatile.leader_id, record c { cookie = k }) ∷ []) big,
        rw (found, on_command_response) refl,
        rw (found, on_command_response)
            (rw same (Dict.erase-set p.forward_cookie client p.cookie_to_client free)),
      )

  -- A follower forwards a new command to its leader, a node that it knows, under a cookie that is
  -- free and not 0, and when a response with that cookie arrives, the client of the command gets
  -- it, and the cookie is free again.
  pub forward_response :
      (reply : CommandResponse)
      → c.cookie ≡ 0
      → p.raft.state_name ≡ follower
      → p.raft.volatile.leader_id ≢ 0
      → p.raft.volatile.leader_id ≢ p.raft.id
      → Dict.contains p.raft.volatile.leader_id p.nodes ≡ true
      → 1 ≤ p.forward_cookie
      → Dict.find? p.forward_cookie p.cookie_to_client ≡ none
      → reply.cookie ≡ p.forward_cookie
      → Returns (forward c (some client) p) (λ p'.
        (p'.forwarded
          ≡ p.forwarded ++ (p.raft.volatile.leader_id, record c { cookie = p.forward_cookie }) ∷ [])
        × ((on_command_response reply p').replies ≡ p.replies ++ (client, reply) ∷ [])
        × ((on_command_response reply p').cookie_to_client ≡ p.cookie_to_client))
  forward_response reply fresh role known apart reachable nonzero free same =
      rw (forward_sends fresh role known apart reachable)
        (response_answered reply nonzero free same)
