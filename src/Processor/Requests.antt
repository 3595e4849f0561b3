-- ===== src/Processor/Requests.antt =====
-- miniraft/raft.cpp: requests from clients, forwarding and its replies, CheckStateChange, CleanUp.
use miniraft_cpp.Prelude.{
  ℕ, ◌+◌, List, [], ◌∷◌, ◌++◌, Option, none, some, Bool, true, false, leb, ◌&&◌, ◌||◌, not, ◌==◌,
  max, u32, get_last?, if◌then◌else◌, Result, ok, err, null_node, assert_failed, guard, ◌>>=◌, ◌>>◌,
}
use miniraft_cpp.Prelude.Dict
use miniraft_cpp.Messages.{CommandRequest, CommandResponse, is_write, is_stale, is_consistent}
use miniraft_cpp.Raft.{Role, candidate, follower, leader}
use miniraft_cpp.Raft.Timeout.{append_entry, approve_read}
use miniraft_cpp.Rsm.{Rsm}
use miniraft_cpp.Processor.{Processor, Waiting, answer}

unfoldable pub waits_for_leader : Role → ℕ → Bool
waits_for_leader candidate leader_id = true
waits_for_leader _ leader_id = leader_id == 0

-- The assertions on the order of a queue: its newest entry waits for no more than this one.
unfoldable pub in_order : List Waiting → ℕ → ℕ → Bool
in_order queue index seqno = elim (get_last? queue) [
  | none ↦ true
  | some w ↦ leb w.index index && leb w.seqno seqno
]

-- The assertion on Waiting looks at the index alone.
unfoldable pub index_in_order : List Waiting → ℕ → Bool
index_in_order queue index = elim (get_last? queue) [ none ↦ true | some w ↦ leb w.index index ]

unfoldable pub is_leader : Role → Bool
is_leader leader = true
is_leader _ = false

-- What is left of a client's cookies; a client with none is forgotten.
unfoldable pub put_cookies : ℕ → List ℕ → Dict.Dict (List ℕ) → Dict.Dict (List ℕ)
put_cookies client [] d = Dict.erase client d
put_cookies client (x ∷ xs) d = Dict.set client (x ∷ xs) d

module _ {M : Type 0} where
  -- The part of Forward that sends a follower's command on to its leader.
  unfoldable pub forward_to_leader : CommandRequest → ℕ → Processor M → Result (Processor M)
  forward_to_leader c client p =
      let leader_id = p.raft.volatile.leader_id in
      let cookie = p.forward_cookie in
      do
        guard (not (leader_id == p.raft.id)) assert_failed
        guard (Dict.contains leader_id p.nodes) null_node
        ok (record p {
          forwarded = p.forwarded ++ (leader_id, record c { cookie = max 1 cookie }) ∷ [];
          cookie_to_client = Dict.set cookie client p.cookie_to_client;
          client_to_cookie =
              Dict.set client (Dict.insert cookie (Dict.get_or client [] p.client_to_cookie))
                p.client_to_cookie;
          forward_cookie = u32 (cookie + 1);
        })

  unfoldable pub forward_as : Role → CommandRequest → ℕ → Processor M → Result (Processor M)
  forward_as follower c client p = forward_to_leader c client p
  forward_as _ c client p = err assert_failed

  -- TRequestProcessor::Forward
  unfoldable pub forward : CommandRequest → Option ℕ → Processor M → Result (Processor M)
  unfolding forward_as forward_to_leader waits_for_leader
  forward c none p = ok p
  forward c (some client) p =
      if not (c.cookie == 0)
      then answer (some client)
          (record { index = 0; cookie = c.cookie; error_code = 1; data_bytes = [] }) p
      else if waits_for_leader p.raft.state_name p.raft.volatile.leader_id
      then ok (record p {
        waiting_state_change =
            p.waiting_state_change
            ++ record { index = 0; seqno = 0; command = c; reply_to = some client } ∷ [];
      })
      else forward_as p.raft.state_name c client p

  -- TRequestProcessor::OnReadRequest
  unfoldable pub on_read_request : CommandRequest → Option ℕ → Processor M → Result (Processor M)
  unfolding in_order index_in_order
  on_read_request c reply_to p = do
    guard (not (is_write c.flags)) assert_failed
    if is_stale c.flags || (not (is_consistent c.flags) && is_leader p.raft.state_name)
        then (do
          guard (index_in_order p.waiting p.raft.state.last_log_index) assert_failed
          ok (record p {
            waiting =
                p.waiting
                ++ record {
                  index = p.raft.state.last_log_index;
                  seqno = 0;
                  command = c;
                  reply_to = reply_to;
                }
                  ∷ [];
          }))
        else if not (is_leader p.raft.state_name)
        then forward c reply_to p
        else approve_read p.raft >>= λ sr. (do
          guard (in_order p.strong_waiting sr.1.state.last_log_index sr.0) assert_failed
          ok (record p {
            raft = sr.1;
            strong_waiting =
                p.strong_waiting
                ++ record {
                  index = sr.1.state.last_log_index;
                  seqno = sr.0;
                  command = c;
                  reply_to = reply_to;
                }
                  ∷ [];
          }))

  -- The queue after a write whose client waits for `index`.
  unfoldable pub await_write : ℕ → CommandRequest → Option ℕ → Processor M → Result (Processor M)
  await_write index c none p = ok p
  await_write index c (some client) p = do
    guard (index_in_order p.waiting index) assert_failed
    ok (record p {
      waiting =
          p.waiting
          ++ record { index = index; seqno = 0; command = c; reply_to = some client } ∷ [];
    })

-- TRequestProcessor::OnCommandResponse, for the reply to a forwarded command.
unfoldable pub on_command_response : {M : Type 0} → CommandResponse → Processor M → Processor M
unfolding put_cookies
on_command_response c p = elim (Dict.find? c.cookie p.cookie_to_client) [
  | none ↦ p
  | some client ↦
      let cookies = Dict.remove c.cookie (Dict.get_or client [] p.client_to_cookie) in
      record p {
        replies = p.replies ++ (client, c) ∷ [];
        client_to_cookie = put_cookies client cookies p.client_to_cookie;
        cookie_to_client = Dict.erase c.cookie p.cookie_to_client;
      }
]

unfoldable pub erase_all : List ℕ → Dict.Dict ℕ → Dict.Dict ℕ
erase_all [] d = d
erase_all (k ∷ ks) d = erase_all ks (Dict.erase k d)

-- TRequestProcessor::CleanUp
unfoldable pub clean_up : {M : Type 0} → ℕ → Processor M → Processor M
unfolding erase_all
clean_up client p = elim (Dict.find? client p.client_to_cookie) [
  | none ↦ p
  | some cookies ↦ record p {
    cookie_to_client = erase_all cookies p.cookie_to_client;
    client_to_cookie = Dict.erase client p.client_to_cookie;
  }
]

unfoldable pub is_empty : List Waiting → Bool
is_empty [] = true
is_empty (w ∷ ws) = false

module _ (m : Rsm) where
  open m use {Machine, prepare}

  -- TRequestProcessor::OnWriteRequest
  unfoldable pub on_write_request :
      CommandRequest → Option ℕ → Processor Machine → Result (Processor Machine)
  unfolding await_write index_in_order
  on_write_request c reply_to p = do
    guard (is_write c.flags) assert_failed
    if is_leader p.raft.state_name
        then (let (index, r) = append_entry (prepare c) p.raft in
            await_write index c reply_to (record p { raft = r }))
        else forward c reply_to p

  -- TRequestProcessor::OnCommandRequest
  unfoldable pub on_command_request :
      CommandRequest → Option ℕ → Processor Machine → Result (Processor Machine)
  on_command_request c reply_to p =
      if is_write c.flags then on_write_request c reply_to p else on_read_request c reply_to p

  unfoldable pub apply_waiting : List Waiting → Processor Machine → Result (Processor Machine)
  apply_waiting [] p = ok p
  apply_waiting (w ∷ ws) p = on_command_request w.command w.reply_to p >>= λ p'. apply_waiting ws p'

  -- TRequestProcessor::CheckStateChange
  unfoldable pub check_state_change : Processor Machine → Result (Processor Machine)
  unfolding apply_waiting waits_for_leader is_empty
  check_state_change p =
      if is_empty p.waiting_state_change
      then ok p
      else if waits_for_leader p.raft.state_name p.raft.volatile.leader_id
      then ok p
      else apply_waiting p.waiting_state_change (record p { waiting_state_change = [] })
