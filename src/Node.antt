-- ===== src/Node.antt =====
-- miniraft/net/server.h and server.cpp, TNode: the queue of messages to another server or to a client.
-- The coroutines DoDrain and DoConnect run until they wait, for a write or for the connection; what
-- ends the wait is a step of its own.
pub mod Order
pub mod Drained
use miniraft_cpp.Prelude.{ℕ, Bool, true, false, not, ◌&&◌, List, [], ◌∷◌, ◌++◌, if◌then◌else◌, ◌≡◌}
use miniraft_cpp.Messages.{Message}

-- TNode. `sending` is `tosend` of DoDrain from the message on that is being written; the two Booleans
-- `draining` and `connecting` say that the coroutines are there and not done. `written` is what has been
-- written to the socket.
pub record Node : Type 0 where
  pub has_address : Bool
  pub connected : Bool
  pub connecting : Bool
  pub draining : Bool
  pub messages : List Message
  pub sending : List Message
  pub written : List Message

-- A node for a server, which it connects to.
unfoldable pub outbound : Node
outbound = record {
  has_address = true;
  connected = false;
  connecting = false;
  draining = false;
  messages = [];
  sending = [];
  written = [];
}

-- A node for a connection that was accepted.
unfoldable pub accepted : Node
accepted = record outbound { has_address = false; connected = true }

-- TNode::Send
unfoldable pub send : Message → Node → Node
send m n = record n { messages = n.messages ++ m ∷ [] }

-- TNode::Connect, and DoConnect up to its wait for the socket.
unfoldable pub connect : Node → Node
connect n =
    if n.has_address && not n.connecting
    then record n { connected = false; connecting = true }
    else n

-- DoConnect after the socket is connected.
unfoldable pub finish_connect : Node → Node
finish_connect n = record n { connected = true; connecting = false }

-- The test of DoDrain's loop: the whole queue is taken, or the coroutine ends.
unfoldable pub take_queue : List Message → Node → Node
take_queue [] n = record n { draining = false; sending = [] }
take_queue (m ∷ ms) n = record n { draining = true; sending = m ∷ ms; messages = [] }

-- TNode::Drain, and DoDrain up to its first wait for a write.
unfoldable pub drain : Node → Node
drain n = if n.connected then (if n.draining then n else take_queue n.messages n) else connect n

-- DoDrain after a write: the next message of `tosend`, or the loop's test again.
unfoldable pub next_message : List Message → Node → Node
next_message [] n = take_queue n.messages n
next_message (m ∷ ms) n = record n { sending = m ∷ ms }

unfoldable pub finish_write : List Message → Node → Node
finish_write [] n = n
finish_write (m ∷ ms) n = next_message ms (record n { written = n.written ++ m ∷ [] })

-- DoDrain after a write that fails: `tosend` is dropped, and the node connects again.
unfoldable pub fail_write : Node → Node
fail_write n = connect (record n { draining = false; sending = [] })

-- One step of a node. A write ends, well or not, when there is one.
pub data Step : Node → Node → Type 0 where
  sends : {n : Node} → (m : Message) → Step n (send m n)
  drains : {n : Node} → Step n (drain n)
  connects : {n : Node} → n.connecting ≡ true → Step n (finish_connect n)
  writes : {n : Node} → n.draining ≡ true → Step n (finish_write n.sending n)
  fails : {n : Node} → n.draining ≡ true → Step n (fail_write n)

-- The messages that a step is asked to send.
unfoldable pub sent_by : {n k : Node} → Step n k → List Message
sent_by (sends m) = m ∷ []
sent_by drains = []
sent_by (connects h) = []
sent_by (writes h) = []
sent_by (fails h) = []

-- A run, with the messages that were sent in it.
pub data Run : Node → List Message → Node → Type 0 where
  start : {n : Node} → Run n [] n
  step :
      {n k l : Node} {ms : List Message} → Run n ms k → (s : Step k l) → Run n (ms ++ sent_by s) l
