-- ===== src/Tests/Queues.antt =====
-- miniraft/net/server.cpp: a node that connects, sends three messages, and loses a write.
use miniraft_cpp.Prelude.{◌+◌, ◌≡◌, refl, true, false, List, [], ◌∷◌, ◌++◌, length}
use miniraft_cpp.Messages.{Message, other}
use miniraft_cpp.Node
use miniraft_cpp.Node.{
  Node, outbound, send, drain, finish_connect, finish_write, fail_write, Run, start, step, sends,
  drains, connects, writes, fails,
}
use miniraft_cpp.Node.Order.{Sublist, IsFresh, written_in_order}
use miniraft_cpp.Node.Drained.{finish_writes, drain_writes_all}

outbound-IsFresh : IsFresh outbound
unfolding outbound
outbound-IsFresh = record {
  none_written = refl;
  none_sending = refl;
  none_waiting = refl;
  not_draining = refl;
}

abbrev sent_messages : List Message
sent_messages = other 6 ∷ other 7 ∷ other 6 ∷ []

-- Connected, with one message written and two waiting.
abbrev last_node : Node
last_node = record {
  has_address = true;
  connected = true;
  connecting = false;
  draining = true;
  messages = other 6 ∷ [];
  sending = other 7 ∷ [];
  written = other 6 ∷ [];
}

outbound-Run : Run outbound sent_messages last_node
unfolding outbound send drain finish_connect finish_write Node.next_message Node.take_queue
    Node.connect Node.sent_by
outbound-Run =
    step
      (step
        (step
          (step (step (step (step start (sends (other 6))) drains) (connects refl))
            (sends (other 7)))
          drains)
        (writes refl))
      (sends (other 6))

written_in_order_example :
    Sublist (last_node.written ++ (last_node.sending ++ last_node.messages)) sent_messages
written_in_order_example =
    written_in_order outbound last_node sent_messages outbound-IsFresh outbound-Run

drain_writes_all_example :
    finish_writes (length last_node.sending + length last_node.messages) (drain last_node)
    ≡ record last_node {
      draining = false;
      messages = [];
      sending = [];
      written = last_node.written ++ (last_node.sending ++ last_node.messages);
    }
drain_writes_all_example =
    drain_writes_all outbound last_node sent_messages outbound-IsFresh outbound-Run refl
