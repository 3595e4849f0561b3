-- ===== src/Processor/Draining.antt =====
-- miniraft/raft.cpp, ProcessWaiting: what the loop over Waiting does with reads. It takes the command
-- at the back of the queue and removes the one at the front.
use miniraft_cpp.Prelude.{
  ℕ, zero, suc, ◌≤◌, ◌≡◌, refl, ap, ◌∙◌, List, [], ◌∷◌, ◌++◌, some, false, le→leb, arith,
  get_last?-append, length, ok, drop, length-append,
}
use mathlib.Core.List.{append_assoc}
use miniraft_cpp.Messages.{CommandResponse, is_write}
use miniraft_cpp.Rsm.{Rsm}
use miniraft_cpp.Processor.{Processor, Waiting, answer}
use miniraft_cpp.Processor.Apply.{
  ready, answer_waiting, drain_waiting, drain_strong, process_waiting,
}

-- `n` times the same reply to the same client.
unfoldable pub replies_to : ℕ → ℕ → CommandResponse → List (ℕ × CommandResponse)
replies_to zero client c = []
replies_to (suc n) client c = (client, c) ∷ replies_to n client c

module _ (m : Rsm) (w : Waiting) (client : ℕ) (reply : CommandResponse) (last : ℕ) where
  open m use {Machine, read}

  abbrev cookied : CommandResponse
  cookied = record reply { cookie = w.command.cookie }

  -- One round: the read at the back is answered.
  answer_read :
      (p : Processor Machine)
      → w.reply_to ≡ some client
      → is_write w.command.flags ≡ false
      → read w.command w.index p.rsm ≡ ok (p.rsm, reply)
      → answer_waiting m w p ≡ ok (record p { replies = p.replies ++ (client, cookied) ∷ [] })
  unfolding answer_waiting answer
  answer_read p to r e = rw (r, e, to) refl

  ready_back : (ws : List Waiting) → w.index ≤ last → ready last (ws ++ w ∷ []) ≡ some w
  unfolding ready
  ready_back ws h = rw (get_last?-append ws w, le→leb w.index last h, ready)

  -- The processor with that queue, and after it.
  abbrev queued : List Waiting → Processor Machine → Processor Machine
  queued ws p = record p { waiting = ws ++ w ∷ [] }

  abbrev drained : ℕ → Processor Machine → Processor Machine
  drained n p = record p { waiting = []; replies = p.replies ++ replies_to n client cookied }

  after_round :
      (fuel : ℕ) (ws : List Waiting) (p : Processor Machine)
      → w.index ≤ last
      → w.reply_to ≡ some client
      → is_write w.command.flags ≡ false
      → read w.command w.index p.rsm ≡ ok (p.rsm, reply)
      → drain_waiting m (suc fuel) last (queued ws p)
        ≡ drain_waiting m fuel last (record p {
          waiting = drop 1 (ws ++ w ∷ []);
          replies = p.replies ++ (client, cookied) ∷ [];
        })
  unfolding drain_waiting
  after_round fuel ws p h to r e =
      rw
        (
          ready_back ws h,
          drain_waiting,
          answer_read (record p { waiting = drop 1 (ws ++ w ∷ []) }) to r e,
        )
        refl

  drain_reads :
      (ws : List Waiting) (p : Processor Machine)
      → w.index ≤ last
      → w.reply_to ≡ some client
      → is_write w.command.flags ≡ false
      → read w.command w.index p.rsm ≡ ok (p.rsm, reply)
      → drain_waiting m (suc (length ws)) last (queued ws p) ≡ ok (drained (suc (length ws)) p)
  unfolding drain_waiting replies_to
  drain_reads [] p h to r e = after_round zero [] p h to r e
  drain_reads (x ∷ ws) p h to r e =
      after_round (suc (length ws)) (x ∷ ws) p h to r e
      ∙ drain_reads ws (record p { replies = p.replies ++ (client, cookied) ∷ [] }) h to r e
      ∙ ap (λ out. ok (record p { waiting = []; replies = out }))
          (append_assoc p.replies ((client, cookied) ∷ [])
            (replies_to (suc (length ws)) client cookied))

-- When a read is at the back of Waiting and is ready, ProcessWaiting answers every command of the
-- queue, whoever sent it, with that read's reply to that read's client; the clients of the other
-- commands get no reply. The machine's read leaves the machine as it is, and no consistent read
-- waits.
pub process_waiting_back :
    (m : Rsm) (p : Processor m.Machine) (ws : List Waiting) (w : Waiting) (client : ℕ)
    (reply : CommandResponse)
    → p.waiting ≡ ws ++ w ∷ []
    → p.strong_waiting ≡ []
    → w.index ≤ m.last_applied p.rsm
    → w.reply_to ≡ some client
    → is_write w.command.flags ≡ false
    → m.read w.command w.index p.rsm ≡ ok (p.rsm, reply)
    → process_waiting m p
      ≡ ok (record p {
        waiting = [];
        replies =
            p.replies
            ++ replies_to (suc (length ws)) client (record reply { cookie = w.command.cookie });
      })
unfolding process_waiting drain_strong
process_waiting_back m p ws w client reply q s h to r e =
    let n : length (ws ++ w ∷ []) ≡ suc (length ws) = omega (arith, length-append ws (w ∷ [])) in
    let all = drain_reads m w client reply (m.last_applied p.rsm) ws p h to r e in
    rw (q, n, all, s) refl
