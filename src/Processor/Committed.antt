-- ===== src/Processor/Committed.antt =====
-- miniraft/raft.cpp, ProcessCommitted, and the writes that it is for: the committed entries that the
-- machine has not applied, in the order of the log.
use mathlib.Core.List.{append_assoc, append-nil}
use miniraft_cpp.Prelude.{
  ℕ, zero, suc, ◌+◌, ◌-◌, ◌≤◌, ◌≡◌, refl, sym, ap, ◌∙◌, inl, inr, List, [], ◌∷◌, ◌++◌, Option,
  Bool-cases, ◌==◌, length, get_elem?-some, drop-suc, arith, if◌then◌else◌, Result, ok, err, ◌>>=◌,
}
use miniraft_cpp.Messages.{LogEntry, CommandResponse, stub_flag}
use miniraft_cpp.State.{get}
use miniraft_cpp.State.Matching.{slice}
use miniraft_cpp.Rsm.{Rsm}
use miniraft_cpp.Processor.{Processor, Answer}
use miniraft_cpp.Processor.Apply.{apply_entry, apply_entries, process_committed, default_answer}

module _ (m : Rsm) where
  open m use {Machine, last_applied, set_last_applied, write}

  abbrev answer_to : ℕ → Option CommandResponse → Answer
  answer_to i reply = record { index = i; reply = default_answer m i reply }

  -- The entries, the first at index `i`, written one after the other; stubs are left out.
  unfoldable pub write_all : ℕ → List LogEntry → Machine → Result (Machine × List Answer)
  write_all i [] s = ok (s, [])
  write_all i (e ∷ es) s =
      if e.flags == stub_flag
      then write_all (suc i) es s
      else write e i s >>= λ w. (write_all (suc i) es w.0 >>= λ r. ok (r.0, answer_to i w.1 ∷ r.1))

  abbrev wrote : Processor Machine → Machine × List Answer → Processor Machine
  wrote p r = record p { rsm = r.0; write_answers = p.write_answers ++ r.1 }

  wrote_after :
      (p : Processor Machine) (s : Machine) (a : Answer) (x : Result (Machine × List Answer))
      → (x
          >>= (λ r. ok (wrote (record p { rsm = s; write_answers = p.write_answers ++ a ∷ [] }) r)))
        ≡ ((x >>= λ r. ok (r.0, a ∷ r.1)) >>= λ r. ok (wrote p r))
  wrote_after p s a (ok r) =
      ap (λ as_. ok (record p { rsm = r.0; write_answers = as_ }))
        (append_assoc p.write_answers (a ∷ []) r.1)
  wrote_after p s a (err e) = refl

  -- The end of a round that writes, by what the write returns.
  write_round :
      (i : ℕ) (es : List LogEntry) (p : Processor Machine)
      (x : Result (Machine × Option CommandResponse))
      (go : Processor Machine → Result (Processor Machine))
      → ((s : Machine) (a : Answer)
          → go (record p { rsm = s; write_answers = p.write_answers ++ a ∷ [] }) ≡ (
              write_all (suc i) es s >>= (λ r.
                ok (wrote (record p { rsm = s; write_answers = p.write_answers ++ a ∷ [] }) r))))
      → ((x >>= λ wr.
            ok (record p { rsm = wr.0; write_answers = p.write_answers ++ answer_to i wr.1 ∷ [] }))
          >>= go)
        ≡ ((x >>= λ w. (write_all (suc i) es w.0 >>= λ r. ok (r.0, answer_to i w.1 ∷ r.1))) >>= λ r.
            ok (wrote p r))
  write_round i es p (err e) go h = refl
  write_round i es p (ok w) go h =
      h w.0 (answer_to i w.1) ∙ wrote_after p w.0 (answer_to i w.1) (write_all (suc i) es w.0)

  apply_entries-write_all :
      (n j : ℕ) (p : Processor Machine)
      → j + n ≤ length p.raft.state.log
      → apply_entries m n (suc j) p
        ≡ (write_all (suc j) (slice j n p.raft.state.log) p.rsm >>= λ r. ok (wrote p r))
  unfolding apply_entries apply_entry get write_all
  apply_entries-write_all zero j p h =
      ap (λ as_. ok (record p { write_answers = as_ })) (sym (append-nil p.write_answers))
  apply_entries-write_all (suc n) j p h =
      let (e, at) = get_elem?-some p.raft.state.log j (omega arith) in
      elim (Bool-cases (e.flags == stub_flag)) [
        | inl stub ↦
            rw (drop-suc j p.raft.state.log e at, at, stub)
              (apply_entries-write_all n (suc j) p (omega arith))
        | inr command ↦
            rw (drop-suc j p.raft.state.log e at, at, command)
              (write_round (suc j) (slice (suc j) n p.raft.state.log) p (write e (suc j) p.rsm)
                (apply_entries m n (suc (suc j)))
                (λ s a. apply_entries-write_all n (suc j) _ (omega arith)))
      ]

  -- ProcessCommitted writes the committed entries that the machine has not applied, each once, in
  -- the order of the log and with its index, stubs left out, and the answers queue up in that
  -- order; it fails only where a write fails. The log has all the entries that are committed, and
  -- the machine has applied no others.
  pub process_committed-write_all :
      (p : Processor Machine)
      → last_applied p.rsm ≤ p.raft.volatile.commit_index
      → p.raft.volatile.commit_index ≤ length p.raft.state.log
      → process_committed m p ≡ (
          write_all
            (suc (last_applied p.rsm))
            (slice
              (last_applied p.rsm)
              (p.raft.volatile.commit_index - last_applied p.rsm)
              p.raft.state.log)
            p.rsm
          >>= λ r. ok (record p {
            rsm = set_last_applied p.raft.volatile.commit_index r.0;
            write_answers = p.write_answers ++ r.1;
          }))
  unfolding process_committed
  process_committed-write_all p above within =
      let start = last_applied p.rsm in
      let n = p.raft.volatile.commit_index - start in
      rw (apply_entries-write_all n start p (omega arith))
        (finish (write_all (suc start) (slice start n p.raft.state.log) p.rsm))
    where
      finish :
          (x : Result (Machine × List Answer))
          → ((x >>= λ r. ok (wrote p r)) >>= λ p'.
              ok (record p' { rsm = set_last_applied p.raft.volatile.commit_index p'.rsm }))
            ≡ (x >>= λ r. ok (record p {
              rsm = set_last_applied p.raft.volatile.commit_index r.0;
              write_answers = p.write_answers ++ r.1;
            }))
      finish (ok r) = refl
      finish (err e) = refl
