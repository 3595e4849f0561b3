-- ===== src/Processor/Apply.antt =====
-- miniraft/raft.cpp: ProcessCommitted and ProcessWaiting.
use miniraft_cpp.Prelude.{
  ℕ, zero, suc, ◌-◌, List, [], ◌∷◌, ◌++◌, Option, none, some, ltb, leb, ◌&&◌, not, ◌==◌, get_last?,
  length, drop, if◌then◌else◌, Result, ok, err, assert_failed, out_of_bounds, guard, or_fail, ◌>>=◌,
  ◌>>◌,
}
use miniraft_cpp.Messages.{CommandResponse, stub_flag, is_write}
use miniraft_cpp.State.{get}
use miniraft_cpp.Rsm.{Rsm}
use miniraft_cpp.Processor.{Processor, Waiting, Answer, answer}

-- while (!WriteAnswers.empty() && WriteAnswers.front().Index < index) WriteAnswers.pop();
unfoldable pub drop_answers : ℕ → List Answer → List Answer
drop_answers index [] = []
drop_answers index (a ∷ as_) = if ltb a.index index then drop_answers index as_ else a ∷ as_

-- The front of WriteAnswers, by the assertions the answer to the command at `index`.
unfoldable pub take_answer : ℕ → List Answer → Result (CommandResponse × List Answer)
take_answer index [] = err assert_failed
take_answer index (a ∷ as_) = guard (a.index == index) assert_failed >> ok (a.reply, as_)

-- Waiting.back(), if the loop of ProcessWaiting goes on.
unfoldable pub ready : ℕ → List Waiting → Option Waiting
ready last_applied queue = elim (get_last? queue) [
  | none ↦ none
  | some w ↦ if leb w.index last_applied then some w else none
]

-- The same for StrongWaiting, which also waits for the commit sequence number.
unfoldable pub strong_ready : ℕ → ℕ → List Waiting → Option Waiting
strong_ready last_applied seqno queue = elim (get_last? queue) [
  | none ↦ none
  | some w ↦ if leb w.index last_applied && leb w.seqno seqno then some w else none
]

module _ (m : Rsm) where
  open m use {Machine, last_applied, set_last_applied, read, write}

  abbrev pub default_answer : ℕ → Option CommandResponse → CommandResponse
  default_answer i none = record { index = i; cookie = 0; error_code = 0; data_bytes = [] }
  default_answer i (some reply) = reply

  -- The body of the loop of ProcessCommitted.
  unfoldable pub apply_entry : ℕ → Processor Machine → Result (Processor Machine)
  apply_entry i p = do
    e ← or_fail (get i p.raft.state) out_of_bounds
    if e.flags == stub_flag
        then ok p
        else write e i p.rsm >>= λ wr. ok (record p {
          rsm = wr.0;
          write_answers =
              p.write_answers ++ record { index = i; reply = default_answer i wr.1 } ∷ [];
        })

  unfoldable pub apply_entries : ℕ → ℕ → Processor Machine → Result (Processor Machine)
  apply_entries zero i p = ok p
  apply_entries (suc n) i p = apply_entry i p >>= λ p'. apply_entries n (suc i) p'

  -- TRequestProcessor::ProcessCommitted
  unfoldable pub process_committed : Processor Machine → Result (Processor Machine)
  unfolding apply_entries
  process_committed p =
      let commit_index = p.raft.volatile.commit_index in
      apply_entries (commit_index - last_applied p.rsm) (suc (last_applied p.rsm)) p >>= λ p'.
      ok (record p' { rsm = set_last_applied commit_index p'.rsm })

  -- What the loop of ProcessWaiting does with `w`, after the pop.
  unfoldable pub answer_waiting : Waiting → Processor Machine → Result (Processor Machine)
  unfolding drop_answers take_answer
  answer_waiting w p =
      if is_write w.command.flags
      then take_answer w.index (drop_answers w.index p.write_answers) >>= (λ ra.
        answer w.reply_to (record (ra.0) { cookie = w.command.cookie })
          (record p { write_answers = ra.1 }))
      else read w.command w.index p.rsm >>= (λ mr.
        answer w.reply_to (record (mr.1) { cookie = w.command.cookie }) (record p { rsm = mr.0 }))

  -- The loop over Waiting. Each round pops one, so the length of the queue is enough fuel.
  -- It looks at the back of the queue and pops the front.
  unfoldable pub drain_waiting : ℕ → ℕ → Processor Machine → Result (Processor Machine)
  unfolding ready answer_waiting
  drain_waiting zero last p = ok p
  drain_waiting (suc fuel) last p = elim (ready last p.waiting) [
    | none ↦ ok p
    | some w ↦ answer_waiting w (record p { waiting = drop 1 p.waiting }) >>= λ p'.
        drain_waiting fuel last p'
  ]

  unfoldable pub answer_strong : Waiting → Processor Machine → Result (Processor Machine)
  answer_strong w p = do
    guard (not (is_write w.command.flags)) assert_failed
    mr ← read w.command w.index p.rsm
    answer w.reply_to (record (mr.1) { cookie = w.command.cookie }) (record p { rsm = mr.0 })

  unfoldable pub drain_strong : ℕ → ℕ → ℕ → Processor Machine → Result (Processor Machine)
  unfolding strong_ready answer_strong
  drain_strong zero last seqno p = ok p
  drain_strong (suc fuel) last seqno p = elim (strong_ready last seqno p.strong_waiting) [
    | none ↦ ok p
    | some w ↦ answer_strong w (record p { strong_waiting = drop 1 p.strong_waiting }) >>= λ p'.
        drain_strong fuel last seqno p'
  ]

  -- TRequestProcessor::ProcessWaiting
  unfoldable pub process_waiting : Processor Machine → Result (Processor Machine)
  unfolding drain_waiting drain_strong
  process_waiting p =
      let last = last_applied p.rsm in
      drain_waiting (length p.waiting) last p
      >>= (λ p'. drain_strong (length p'.strong_waiting) last p'.raft.volatile.commit_seqno p')
