-- ===== src/Processor.antt =====
-- miniraft/raft.h and raft.cpp, TRequestProcessor: clients' requests, what waits for the log, and
-- what is forwarded to the leader. The state machine is a parameter.
pub mod Requests
pub mod Apply
pub mod Committed
pub mod Answering
pub mod Draining
pub mod Cookies
pub mod Leadership
use miniraft_cpp.Prelude.{
  ℕ, ◌≡◌, List, [], ◌∷◌, ◌++◌, Option, none, some, Bool, true, leb, ◌||◌, Result, ok, err,
  null_node, if◌then◌else◌,
}
use miniraft_cpp.Prelude.Dict
use miniraft_cpp.Prelude.Dict.{Dict}
use miniraft_cpp.Messages.{CommandRequest, CommandResponse}
use miniraft_cpp.Raft.{Raft}

-- TWaiting. A client is a number, and `none` is a null pointer.
pub record Waiting : Type 0 where
  pub index : ℕ
  pub seqno : ℕ
  pub command : CommandRequest
  pub reply_to : Option ℕ

-- TAnswer
pub record Answer : Type 0 where
  pub index : ℕ
  pub reply : CommandResponse

-- TRequestProcessor, with the server and the state machine that it points to. A queue has its
-- front first. `replies` is what clients were sent, `forwarded` what nodes were sent.
pub record Processor (Machine : Type 0) : Type 0 where
  pub raft : Raft
  pub rsm : Machine
  pub nodes : List ℕ
  pub waiting : List Waiting
  pub strong_waiting : List Waiting
  pub waiting_state_change : List Waiting
  pub write_answers : List Answer
  pub forward_cookie : ℕ
  pub cookie_to_client : Dict ℕ
  pub client_to_cookie : Dict (List ℕ)
  pub replies : List (ℕ × CommandResponse)
  pub forwarded : List (ℕ × CommandRequest)

-- TRequestProcessor::TRequestProcessor
unfoldable pub new_processor : {M : Type 0} → Raft → M → List ℕ → Processor M
new_processor r m nodes = record {
  raft = r;
  rsm = m;
  nodes = nodes;
  waiting = [];
  strong_waiting = [];
  waiting_state_change = [];
  write_answers = [];
  forward_cookie = 1;
  cookie_to_client = [];
  client_to_cookie = [];
  replies = [];
  forwarded = [];
}

-- `w.ReplyTo->Send(reply)`
unfoldable pub answer :
    {M : Type 0} → Option ℕ → CommandResponse → Processor M → Result (Processor M)
answer none reply p = err null_node
answer (some client) reply p = ok (record p { replies = p.replies ++ (client, reply) ∷ [] })
