-- ===== src/Node/Order.antt =====
-- miniraft/net/server.cpp, TNode: messages are written in the order in which they were sent, and none
-- twice.
use miniraft_cpp.Prelude.{
  ◌≡◌, ◌<◌, length, arith, refl, ap, sym, subst, ◌∙◌, Bool, true, false, not, ◌&&◌, List, [], ◌∷◌,
  ◌++◌, if◌then◌else◌,
}
use miniraft_cpp.Prelude.Bytes.{append_assoc, append_nil}
use miniraft_cpp.Messages.{Message}
use miniraft_cpp.Node.{
  Node, send, connect, finish_connect, take_queue, drain, next_message, finish_write, fail_write,
  Step, sends, drains, connects, writes, fails, sent_by, Run, start, step,
}

-- `xs` is `ys` with some elements left out.
pub data Sublist : List Message → List Message → Type 0 where
  done : Sublist [] []
  keep : {xs ys : List Message} → (x : Message) → Sublist xs ys → Sublist (x ∷ xs) (x ∷ ys)
  skip : {xs ys : List Message} → (x : Message) → Sublist xs ys → Sublist xs (x ∷ ys)

Sublist_refl : (xs : List Message) → Sublist xs xs
Sublist_refl [] = done
Sublist_refl (x ∷ xs) = keep x (Sublist_refl xs)

Sublist_nil : (xs : List Message) → Sublist [] xs
Sublist_nil [] = done
Sublist_nil (x ∷ xs) = skip x (Sublist_nil xs)

Sublist-append :
    {xs ys us vs : List Message} → Sublist xs ys → Sublist us vs → Sublist (xs ++ us) (ys ++ vs)
Sublist-append done b = b
Sublist-append (keep x a) b = keep x (Sublist-append a b)
Sublist-append (skip x a) b = skip x (Sublist-append a b)

Sublist_trans : {xs ys zs : List Message} → Sublist xs ys → Sublist ys zs → Sublist xs zs
Sublist_trans a done = a
Sublist_trans (keep x a) (keep y b) = keep y (Sublist_trans a b)
Sublist_trans (skip x a) (keep y b) = skip y (Sublist_trans a b)
Sublist_trans a (skip x b) = skip x (Sublist_trans a b)

-- All that a node has: what is written, what is being written, what waits.
abbrev pub all_messages : Node → List Message
all_messages n = n.written ++ (n.sending ++ n.messages)

-- A node whose drainer is not running is not sending, and one whose drainer waits for a write is.
abbrev pub IsIdle : Node → Type 0
IsIdle n = (n.draining ≡ false → n.sending ≡ []) × (n.draining ≡ true → 0 < length n.sending)

-- What a step that keeps the node's order does.
record Keeps (n k : Node) (ms : List Message) : Type 0 where
  idle : IsIdle k
  order : Sublist (all_messages k) (all_messages n ++ ms)

same_order :
    (n k : Node) → all_messages k ≡ all_messages n → Sublist (all_messages k) (all_messages n ++ [])
same_order n k e =
    subst (λ l. Sublist (all_messages k) l) (e ∙ sym (append_nil (all_messages n)))
      (Sublist_refl (all_messages k))

-- Both branches of a test.
if-Keeps :
    (b : Bool) (n k l : Node) {ms : List Message}
    → (b ≡ true → Keeps n k ms)
    → (b ≡ false → Keeps n l ms)
    → Keeps n (if b then k else l) ms
if-Keeps true n k l x y = x refl
if-Keeps false n k l x y = y refl

stays : (n : Node) → IsIdle n → Keeps n n []
stays n idle = record { idle = idle; order = same_order n n refl }

connect-Keeps : (n : Node) → IsIdle n → Keeps n (connect n) []
unfolding connect
connect-Keeps n idle =
    if-Keeps (n.has_address && not n.connecting) n
      (record n { connected = false; connecting = true }) n
      (λ e. record { idle = idle; order = same_order n n refl }) (λ e. stays n idle)

take_queue-IsIdle : (q : List Message) (n : Node) → IsIdle (take_queue q n)
unfolding take_queue
take_queue-IsIdle [] n = (λ h. refl, λ h. absurd cc)
take_queue-IsIdle (m ∷ ms) n = (λ h. absurd cc, λ h. omega arith)

-- Taking the queue moves it into what is being written.
all_messages-take_queue :
    (q : List Message) (n : Node)
    → n.messages ≡ q
    → all_messages (take_queue q n) ≡ n.written ++ n.messages
unfolding take_queue
all_messages-take_queue [] n e = refl
all_messages-take_queue (m ∷ ms) n e = ap (λ l. n.written ++ l) (append_nil (m ∷ ms) ∙ sym e)

take_queue-Keeps : (n : Node) → n.sending ≡ [] → Keeps n (take_queue n.messages n) []
take_queue-Keeps n nothing = record {
  idle = take_queue-IsIdle n.messages n;
  order = same_order n (take_queue n.messages n) (
      all_messages-take_queue n.messages n refl
      ∙ ap (λ l. n.written ++ (l ++ n.messages)) (sym nothing));
}

drain-Keeps : (n : Node) → IsIdle n → Keeps n (drain n) []
unfolding drain
drain-Keeps n idle =
    if-Keeps n.connected n (if n.draining then n else take_queue n.messages n) (connect n)
      (λ up.
        if-Keeps n.draining n n (take_queue n.messages n) (λ busy. stays n idle)
          (λ free. take_queue-Keeps n (idle.0 free)))
      (λ down. connect-Keeps n idle)

-- What is written moves from the front of what is being written.
all_messages-finish_write :
    (s : List Message) (n : Node) → n.sending ≡ s → all_messages (finish_write s n) ≡ all_messages n
unfolding finish_write next_message
all_messages-finish_write [] n e = refl
all_messages-finish_write (m ∷ []) n e =
    all_messages-take_queue n.messages (record n { written = n.written ++ m ∷ [] }) refl
    ∙ append_assoc n.written (m ∷ []) n.messages
    ∙ ap (λ l. n.written ++ (l ++ n.messages)) (sym e)
all_messages-finish_write (m ∷ k ∷ ms) n e =
    append_assoc n.written (m ∷ []) (k ∷ ms ++ n.messages)
    ∙ ap (λ l. n.written ++ (l ++ n.messages)) (sym e)

finish_write-IsIdle :
    (s : List Message) (n : Node) → n.draining ≡ true → IsIdle n → IsIdle (finish_write s n)
unfolding finish_write next_message
finish_write-IsIdle [] n busy idle = idle
finish_write-IsIdle (m ∷ []) n busy idle =
    take_queue-IsIdle n.messages (record n { written = n.written ++ m ∷ [] })
finish_write-IsIdle (m ∷ k ∷ ms) n busy idle = (λ h. absurd cc, λ h. omega arith)

finish_write-Keeps :
    (n : Node) → n.draining ≡ true → IsIdle n → Keeps n (finish_write n.sending n) []
finish_write-Keeps n busy idle = record {
  idle = finish_write-IsIdle n.sending n busy idle;
  order = same_order n (finish_write n.sending n) (all_messages-finish_write n.sending n refl);
}

fail_write-Keeps : (n : Node) → Keeps n (fail_write n) []
unfolding fail_write
fail_write-Keeps n =
    let dropped : Node = record n { draining = false; sending = [] } in
    let next = connect-Keeps dropped (λ h. refl, λ h. absurd cc) in
    record {
      idle = next.idle;
      order = Sublist_trans next.order (
          Sublist-append
            (Sublist-append (Sublist_refl n.written)
              (Sublist-append (Sublist_nil n.sending) (Sublist_refl n.messages)))
            done);
    }

send-Keeps : (m : Message) (n : Node) → IsIdle n → Keeps n (send m n) (m ∷ [])
unfolding send
send-Keeps m n idle = record {
  idle = idle;
  order =
      subst (λ l. Sublist (n.written ++ (n.sending ++ (n.messages ++ m ∷ []))) l)
        (sym (
          append_assoc n.written (n.sending ++ n.messages) (m ∷ [])
          ∙ ap (λ l. n.written ++ l) (append_assoc n.sending n.messages (m ∷ []))))
        (Sublist_refl (n.written ++ (n.sending ++ (n.messages ++ m ∷ []))));
}

step-Keeps : (n k : Node) (s : Step n k) → IsIdle n → Keeps n k (sent_by s)
unfolding sent_by finish_connect
step-Keeps n k (sends m) idle = send-Keeps m n idle
step-Keeps n k drains idle = drain-Keeps n idle
step-Keeps n k (connects h) idle = record { idle = idle; order = same_order n n refl }
step-Keeps n k (writes h) idle = finish_write-Keeps n h idle
step-Keeps n k (fails h) idle = fail_write-Keeps n

Run-Keeps : (n k : Node) (ms : List Message) → Run n ms k → IsIdle n → Keeps n k ms
Run-Keeps n k ms start idle = stays n idle
Run-Keeps n k ms (step {k = j} {ms = js} r s) idle =
    let before = Run-Keeps n j js r idle in
    let after = step-Keeps j k s before.idle in
    record {
      idle = after.idle;
      order =
          subst (λ l. Sublist (all_messages k) l) (append_assoc (all_messages n) js (sent_by s))
            (Sublist_trans after.order (Sublist-append before.order (Sublist_refl (sent_by s))));
    }

-- A node at its start.
pub record IsFresh (n : Node) : Type 0 where
  pub none_written : n.written ≡ []
  pub none_sending : n.sending ≡ []
  pub none_waiting : n.messages ≡ []
  pub not_draining : n.draining ≡ false

IsFresh-IsIdle : (n : Node) → IsFresh n → IsIdle n
IsFresh-IsIdle n f = (λ h. f.none_sending, λ h. absurd (let e = f.not_draining in cc))

-- The drainer of a node waits for a write exactly when there is one, after any run.
pub Run-IsIdle : (n k : Node) (ms : List Message) → IsFresh n → Run n ms k → IsIdle k
Run-IsIdle n k ms f r = (Run-Keeps n k ms r (IsFresh-IsIdle n f)).idle

-- In a run of a node from its start, whatever the writes and the connections do, what has been
-- written, what is being written and what waits are messages that were sent, in the order in which
-- they were sent, each at most once.
pub written_in_order :
    (n k : Node) (ms : List Message)
    → IsFresh n
    → Run n ms k
    → Sublist (k.written ++ (k.sending ++ k.messages)) ms
written_in_order n k ms f r =
    subst (λ l. Sublist (all_messages k) (l ++ ms))
      (ap (λ l. l ++ (n.sending ++ n.messages)) f.none_written
        ∙ ap (λ l. l ++ n.messages) f.none_sending
        ∙ f.none_waiting)
      (Run-Keeps n k ms r (IsFresh-IsIdle n f)).order
