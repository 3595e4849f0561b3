-- ===== src/Node/Drained.antt =====
-- miniraft/net/server.cpp, TNode::Drain: if the writes end well, all that was sent is written.
use miniraft_cpp.Prelude.{
  ℕ, zero, suc, ◌+◌, ◌<◌, ◌≡◌, refl, ap, sym, ◌∙◌, Bool, true, false, List, [], ◌∷◌, ◌++◌, length,
  arith,
}
use miniraft_cpp.Prelude.Bytes.{append_assoc, append_nil}
use miniraft_cpp.Messages.{Message}
use miniraft_cpp.Node.{Node, take_queue, drain, next_message, finish_write, Run}
use miniraft_cpp.Node.Order.{IsIdle, IsFresh, Run-IsIdle}

-- `c` writes that end well.
unfoldable pub finish_writes : ℕ → Node → Node
finish_writes zero n = n
finish_writes (suc c) n = finish_writes c (finish_write n.sending n)

finish_writes_add :
    (a b : ℕ) (n : Node) → finish_writes (a + b) n ≡ finish_writes b (finish_writes a n)
unfolding finish_writes
finish_writes_add zero b n = ap (λ c. finish_writes c n) (let e : 0 + b ≡ b = omega arith in e)
finish_writes_add (suc a) b n =
    ap (λ c. finish_writes c n) (let e : suc a + b ≡ suc (a + b) = omega arith in e)
    ∙ finish_writes_add a b (finish_write n.sending n)

module _ (has_address connected connecting : Bool) where
  node : Bool → List Message → List Message → List Message → Node
  node draining messages sending written = record {
    has_address = has_address;
    connected = connected;
    connecting = connecting;
    draining = draining;
    messages = messages;
    sending = sending;
    written = written;
  }

  -- All that is being written, up to the next look at the queue.
  write_sending :
      (m : Message) (ms q w : List Message)
      → finish_writes (length (m ∷ ms)) (node true q (m ∷ ms) w)
        ≡ take_queue q (node true q [] (w ++ m ∷ ms))
  unfolding node finish_writes finish_write next_message take_queue
  write_sending m [] [] w = refl
  write_sending m [] (x ∷ q) w = refl
  write_sending m (k ∷ ms) q w =
      write_sending k ms q (w ++ m ∷ [])
      ∙ ap (λ l. take_queue q (node true q [] l)) (append_assoc w (m ∷ []) (k ∷ ms))

  -- The queue, once it is taken.
  write_queue :
      (d : Bool) (q w : List Message)
      → finish_writes (length q) (take_queue q (node d q [] w)) ≡ node false [] [] (w ++ q)
  unfolding node finish_writes take_queue
  write_queue d [] w = ap (node false [] []) (sym (append_nil w))
  write_queue d (x ∷ q) w = write_sending x q [] w

  write_all :
      (s q w : List Message)
      → 0 < length s
      → finish_writes (length s + length q) (node true q s w) ≡ node false [] [] (w ++ (s ++ q))
  write_all [] q w h = absurd (omega (arith, h))
  write_all (m ∷ ms) q w h =
      finish_writes_add (length (m ∷ ms)) (length q) (node true q (m ∷ ms) w)
      ∙ ap (finish_writes (length q)) (write_sending m ms q w)
      ∙ write_queue true q (w ++ m ∷ ms)
      ∙ ap (node false [] []) (append_assoc w (m ∷ ms) q)

drained :
    (a c g d : Bool) (q s w : List Message)
    → c ≡ true
    → IsIdle (node a c g d q s w)
    → finish_writes (length s + length q) (drain (node a c g d q s w))
      ≡ node a c g false [] [] (w ++ (s ++ q))
unfolding node drain
drained a false g d q s w up idle = absurd cc
drained a true g true q s w up idle = write_all a true g s q w (idle.1 refl)
drained a true g false q [] w up idle =
    ap (λ c. finish_writes c (take_queue q (node a true g false q [] w)))
      (let e : 0 + length q ≡ length q = omega arith in e)
    ∙ write_queue a true g false q w
drained a true g false q (x ∷ s) w up idle = absurd (let e = idle.0 refl in cc)

-- After any run of a node from its start, if it is connected, is drained, and the writes that
-- follow end well, as many as there are messages that are not written, then all messages are
-- written, in order, after those that were, and the drainer is done.
pub drain_writes_all :
    (n k : Node) (ms : List Message)
    → IsFresh n
    → Run n ms k
    → k.connected ≡ true
    → finish_writes (length k.sending + length k.messages) (drain k) ≡ record k {
      draining = false;
      messages = [];
      sending = [];
      written = k.written ++ (k.sending ++ k.messages);
    }
unfolding node
drain_writes_all n k ms f r up =
    drained k.has_address k.connected k.connecting k.draining k.messages k.sending k.written up
      (Run-IsIdle n k ms f r)
