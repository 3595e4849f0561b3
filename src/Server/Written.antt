-- ===== src/Server/Written.antt =====
-- A client's write to a server on its own, from the connection to the answer: miniraft/net/server.cpp over
-- miniraft/raft.cpp.
use miniraft_cpp.Prelude.{
  ℕ, suc, ◌-◌, ◌≡◌, ◌≢◌, refl, sym, ap, ◌∙◌, List, [], ◌∷◌, ◌++◌, Option, some, true, false, arith,
  ◌==◌, length, take, drop, length-append, ok, Returns,
}
use miniraft_cpp.Messages.{
  LogEntry, CommandRequest, CommandResponse, command_request, is_write, stub_flag,
}
use miniraft_cpp.State.{append}
use miniraft_cpp.State.Matching.{slice}
use miniraft_cpp.Raft.Timeout.{append_entry}
use miniraft_cpp.Rsm.{Rsm}
use miniraft_cpp.Processor.{Processor, Waiting}
use miniraft_cpp.Processor.Requests.{
  on_command_request, on_write_request, await_write, index_in_order, is_leader,
}
use miniraft_cpp.Processor.Apply.{process_committed, default_answer}
use miniraft_cpp.Processor.Committed.{write_all, process_committed-write_all}
use miniraft_cpp.Processor.Answering.{process_waiting-write, check_state_change-none}
use miniraft_cpp.Server.{on_message, tick, settle, inbound}
use miniraft_cpp.Server.Alone.{
  IsAlone, appended, entered, committed_alone, last_index_appended, process_timeout-appended,
}

slice-append :
    (xs : List LogEntry) (e : LogEntry) (m n : ℕ)
    → m ≡ length xs
    → n ≡ 1
    → slice m n (xs ++ e ∷ []) ≡ e ∷ []
slice-append xs e m n hm hn = rw (hm, hn) (go xs)
  where
    go : (ys : List LogEntry) → take 1 (drop (length ys) (ys ++ e ∷ [])) ≡ e ∷ []
    go [] = refl
    go (y ∷ ys) = go ys

module _ (m : Rsm) where
  open m use {Machine, last_applied, set_last_applied, write, prepare}

  -- A processor that has nothing to do.
  pub record IsIdle (p : Processor Machine) : Type 0 where
    pub waiting : p.waiting ≡ []
    pub strong_waiting : p.strong_waiting ≡ []
    pub waiting_state_change : p.waiting_state_change ≡ []
    pub write_answers : p.write_answers ≡ []
    pub applied : last_applied p.rsm ≡ p.raft.state.last_log_index

  module _ (c : CommandRequest) (client : ℕ) (p : Processor Machine) (alone : IsAlone p.raft)
      (idle : IsIdle p) (writes : is_write c.flags ≡ true) where
    abbrev entry : LogEntry
    entry = prepare c

    abbrev queued : Waiting
    queued = record {
      index = (appended entry p.raft).state.last_log_index;
      seqno = 0;
      command = c;
      reply_to = some client;
    }

    abbrev received : Processor Machine
    received = record p { raft = appended entry p.raft; waiting = queued ∷ [] }

    on_message-write : (now : ℕ) → on_message m now (command_request c) client p ≡ ok received
    unfolding on_message on_command_request on_write_request await_write is_leader index_in_order
        append_entry
    on_message-write now = rw (writes, alone.role, idle.waiting) refl

    abbrev ticked : Processor Machine
    ticked = record received { raft = committed_alone (appended entry p.raft) }

    tick-received : (later : ℕ) → tick m later received ≡ ok ticked
    unfolding tick
    tick-received later = rw (process_timeout-appended entry p.raft alone later) refl

    abbrev next : ℕ
    next = suc (last_applied p.rsm)

    next-lem : (appended entry p.raft).state.last_log_index ≡ next
    next-lem = omega (arith, last_index_appended entry p.raft alone.valid, idle.applied)

    log_appended : (appended entry p.raft).state.log ≡ p.raft.state.log ++ entered entry p.raft ∷ []
    unfolding append_entry append
    log_appended = refl

    new_part :
        slice
          (last_applied p.rsm)
          ((appended entry p.raft).state.last_log_index - last_applied p.rsm)
          (appended entry p.raft).state.log
        ≡ entered entry p.raft ∷ []
    new_part = rw log_appended (
        slice-append p.raft.state.log (entered entry p.raft) (last_applied p.rsm)
          ((appended entry p.raft).state.last_log_index - last_applied p.rsm)
          (omega (arith, idle.applied, alone.valid.index_cached)) (omega (arith, next-lem)))

    module _ (s : Machine) (reply : Option CommandResponse) (command : entry.flags ≢ stub_flag)
        (written : write (entered entry p.raft) next p.rsm ≡ ok (s, reply)) where
      abbrev applied : Processor Machine
      applied = record ticked {
        rsm = set_last_applied (appended entry p.raft).state.last_log_index s;
        write_answers = record { index = next; reply = default_answer m next reply } ∷ [];
      }

      write_one :
          write_all m next (entered entry p.raft ∷ []) p.rsm
          ≡ ok (s, record { index = next; reply = default_answer m next reply } ∷ [])
      unfolding write_all
      write_one =
          let not_stub : (entry.flags == stub_flag) ≡ false = ground arith in
          rw not_stub (rw written refl)

      process_committed-ticked : process_committed m ticked ≡ ok applied
      process_committed-ticked =
          process_committed-write_all m ticked (omega (arith, next-lem)) (
            omega (
              arith,
              next-lem,
              idle.applied,
              alone.valid.index_cached,
              ap length log_appended,
              length-append p.raft.state.log (entered entry p.raft ∷ []),
            ))
          ∙ rw (new_part, write_one)
              (ap
                (λ as_. ok (record applied {
                  write_answers =
                      as_ ++ record { index = next; reply = default_answer m next reply } ∷ [];
                }))
                idle.write_answers)

-- A server that leads alone, has committed and applied its log and has nothing to do, answers a
-- client's write in the same round of the connection's loop, with the machine's reply and the
-- command's cookie: the log and the machine have the command, and nothing waits. The machine's
-- write returns, its entry is no stub, and the machine keeps the index that it is given.
pub inbound_write :
    (m : Rsm) (c : CommandRequest) (client now later : ℕ) (p : Processor m.Machine) (s : m.Machine)
    (reply : Option CommandResponse)
    → IsAlone p.raft
    → IsIdle m p
    → is_write c.flags ≡ true
    → (m.prepare c).flags ≢ stub_flag
    → m.write (entered (m.prepare c) p.raft) (suc (m.last_applied p.rsm)) p.rsm ≡ ok (s, reply)
    → ((i : ℕ) (t : m.Machine) → m.last_applied (m.set_last_applied i t) ≡ i)
    → Returns (inbound m now later (command_request c) client p) (λ q.
      (q.replies
        ≡ p.replies
          ++ (
            client,
            record (default_answer m (suc (m.last_applied p.rsm)) reply) { cookie = c.cookie },
          )
            ∷ [])
      × (q.raft.state.log ≡ p.raft.state.log ++ entered (m.prepare c) p.raft ∷ [])
      × (q.raft.volatile.commit_index ≡ suc (m.last_applied p.rsm))
      × (q.rsm ≡ m.set_last_applied (suc (m.last_applied p.rsm)) s)
      × (q.waiting ≡ [])
      × (q.write_answers ≡ []))
unfolding inbound settle
inbound_write m c client now later p s reply alone idle writes command written law =
    let at = next-lem m c client p alone idle writes in
    let finished =
      process_waiting-write m (applied m c client p alone idle writes s reply command written)
        (queued m c client p alone idle writes)
        (record {
          index = suc (m.last_applied p.rsm);
          reply = default_answer m (suc (m.last_applied p.rsm)) reply;
        })
        client refl idle.strong_waiting refl (sym at)
        (omega (arith, law (appended (m.prepare c) p.raft).state.last_log_index s)) refl writes in
    rw
      (
        on_message-write m c client p alone idle writes now,
        tick-received m c client p alone idle writes later,
        check_state_change-none m (ticked m c client p alone idle writes) idle.waiting_state_change,
        process_committed-ticked m c client p alone idle writes s reply command written,
        finished,
      )
      (
        refl,
        log_appended m c client p alone idle writes,
        at,
        ap (λ i. m.set_last_applied i s) at,
        refl,
        refl,
      )
