-- ===== src/Processor/Answering.antt =====
-- miniraft/raft.cpp, ProcessWaiting and CheckStateChange, where one write waits and nothing else does.
use miniraft_cpp.Prelude.{
  ℕ, ◌≤◌, ◌≡◌, refl, ap, [], ◌∷◌, ◌++◌, some, true, false, arith, ltb, le→leb, ◌==◌, ok,
}
use miniraft_cpp.Messages.{is_write}
use miniraft_cpp.Rsm.{Rsm}
use miniraft_cpp.Processor.{Processor, Waiting, Answer, answer}
use miniraft_cpp.Processor.Requests.{check_state_change, is_empty}
use miniraft_cpp.Processor.Apply.{
  process_waiting, drain_waiting, drain_strong, answer_waiting, ready, drop_answers, take_answer,
}

module _ (m : Rsm) where
  open m use {Machine, last_applied}

  -- The answer of a write that waits is the front of WriteAnswers.
  answer_waiting-write :
      (p : Processor Machine) (w : Waiting) (a : Answer) (client : ℕ)
      → p.write_answers ≡ a ∷ []
      → a.index ≡ w.index
      → w.reply_to ≡ some client
      → is_write w.command.flags ≡ true
      → answer_waiting m w p
        ≡ ok (record p {
          write_answers = [];
          replies = p.replies ++ (client, record (a.reply) { cookie = w.command.cookie }) ∷ [];
        })
  unfolding answer_waiting drop_answers take_answer answer
  answer_waiting-write p w a client wa i to wr =
      let kept : ltb a.index w.index ≡ false = ground arith in
      let same : (a.index == w.index) ≡ true = ground arith in
      rw (wr, wa) (rw kept (rw same (rw to refl)))

  ready_one : (w : Waiting) (last : ℕ) → w.index ≤ last → ready last (w ∷ []) ≡ some w
  unfolding ready
  ready_one w last h = rw (le→leb w.index last h) refl

  -- The only command that waits is a write, and its answer is the only one.
  pub process_waiting-write :
      (p : Processor Machine) (w : Waiting) (a : Answer) (client : ℕ)
      → p.waiting ≡ w ∷ []
      → p.strong_waiting ≡ []
      → p.write_answers ≡ a ∷ []
      → a.index ≡ w.index
      → w.index ≤ last_applied p.rsm
      → w.reply_to ≡ some client
      → is_write w.command.flags ≡ true
      → process_waiting m p
        ≡ ok (record p {
          waiting = [];
          write_answers = [];
          replies = p.replies ++ (client, record (a.reply) { cookie = w.command.cookie }) ∷ [];
        })
  unfolding process_waiting drain_waiting drain_strong
  process_waiting-write p w a client q s wa i le to wr =
      let answered = answer_waiting-write (record p { waiting = [] }) w a client wa i to wr in
      rw (q, ready_one w (last_applied p.rsm) le, drain_waiting) (rw answered (rw s refl))

  pub check_state_change-none :
      (p : Processor Machine) → p.waiting_state_change ≡ [] → check_state_change m p ≡ ok p
  unfolding check_state_change is_empty
  check_state_change-none p none_held =
      let empty : is_empty p.waiting_state_change ≡ true = ap is_empty none_held in rw empty refl
