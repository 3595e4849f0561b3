-- ===== src/Cluster/Logs/Extended.antt =====
-- What agrees with a history agrees with one that extends it.
use miniraft_cpp.Prelude.{
  ℕ, zero, suc, ◌+◌, ◌-◌, ◌≤◌, ◌<◌, ◌≡◌, refl, ap, sym, ◌∙◌, inl, inr, List, [], ◌∷◌, ◌++◌, All,
  All-map, ℕ_discrete, length, take, arith, length-take, length-append, take-append_le,
}
use miniraft_cpp.Prelude.Bytes.{append_nil, append_assoc}
use miniraft_cpp.Messages.{
  LogEntry, Message, log_entry, request_vote_request, request_vote_response, append_entries_request,
  append_entries_response, command_request, command_response, other,
}
use miniraft_cpp.State.Log.{term_at}
use miniraft_cpp.State.Matching.{slice}
use miniraft_cpp.Cluster.Logs.{History, IsCoherent, IsPart, Carried, Extends}

pub term_at-append :
    (i : ℕ) (xs ys : List LogEntry) → i < length xs → term_at i (xs ++ ys) ≡ term_at i xs
term_at-append i [] ys h = absurd (omega (arith, h))
term_at-append zero (x ∷ xs) ys h = refl
term_at-append (suc i) (x ∷ xs) ys h = term_at-append i xs ys (omega arith)

slice-append :
    (m n : ℕ) (xs ys : List LogEntry) → m + n ≤ length xs → slice m n (xs ++ ys) ≡ slice m n xs
slice-append zero n xs ys h = take-append_le n xs ys (omega arith)
slice-append (suc m) zero [] ys h = absurd (omega (arith, h))
slice-append (suc m) (suc n) [] ys h = absurd (omega (arith, h))
slice-append (suc m) n (x ∷ xs) ys h = slice-append m n xs ys (omega arith)

-- A coherent log is no longer than the logs that it agrees with.
pub IsCoherent-within :
    (hist : History) (xs : List LogEntry) (i : ℕ)
    → IsCoherent hist xs
    → i < length xs
    → i < length (hist (term_at i xs))
IsCoherent-within hist xs i c h =
    omega
      (arith, ap length (c i h), length-take (suc i) xs, length-take (suc i) (hist (term_at i xs)))

module _ (hist hist' : History) (grown : Extends hist hist') where
  pub IsCoherent-Extends : (xs : List LogEntry) → IsCoherent hist xs → IsCoherent hist' xs
  IsCoherent-Extends xs c i h =
      let t = term_at i xs in
      let within = IsCoherent-within hist xs i c h in
      c i h
      ∙ sym (take-append_le (suc i) (hist t) (grown t).0 (omega arith))
      ∙ ap (take (suc i)) (sym (grown t).1)

  IsPart-Extends :
      (t prev prev_term : ℕ) (es : List LogEntry)
      → IsPart hist t prev prev_term es
      → IsPart hist' t prev prev_term es
  IsPart-Extends t prev prev_term es p = record {
    part =
        p.part
        ∙ sym (slice-append prev (length es) (hist t) (grown t).0 p.inside)
        ∙ ap (slice prev (length es)) (sym (grown t).1);
    inside = omega (arith, p.inside, ap length (grown t).1, length-append (hist t) (grown t).0);
    before = elim (ℕ_discrete prev 0) [
      | yes none_before ↦ inl none_before
      | no some_before ↦ elim p.before [
        | inl none_before ↦ inl none_before
        | inr same ↦ inr (
            same
            ∙ sym (term_at-append (prev - 1) (hist t) (grown t).0 (omega (arith, p.inside)))
            ∙ ap (term_at (prev - 1)) (sym (grown t).1))
      ]
    ];
    small = p.small;
  }

  Carried-Extends : (e : ℕ × Message) → Carried hist e → Carried hist' e
  Carried-Extends (d, append_entries_request x m es) (inl nothing) = inl nothing
  Carried-Extends (d, append_entries_request x m es) (inr p) =
      inr (IsPart-Extends x.term m.prev_log_index m.prev_log_term es p)
  Carried-Extends (d, log_entry e) h = tt
  Carried-Extends (d, request_vote_request x m) h = tt
  Carried-Extends (d, request_vote_response x m) h = tt
  Carried-Extends (d, append_entries_response x m) h = tt
  Carried-Extends (d, command_request m) h = tt
  Carried-Extends (d, command_response m) h = tt
  Carried-Extends (d, other t) h = tt

  pub sent-Extends : (out : List (ℕ × Message)) → All (Carried hist) out → All (Carried hist') out
  sent-Extends out h = All-map (Carried hist) (Carried hist') out Carried-Extends h

pub Extends-refl : (hist : History) → Extends hist hist
Extends-refl hist t = ([], sym (append_nil (hist t)))

pub Extends-trans : (a b c : History) → Extends a b → Extends b c → Extends a c
Extends-trans a b c h k t =
    let (xs, e) = h t in
    let (ys, d) = k t in (xs ++ ys, d ∙ ap (λ l. l ++ ys) e ∙ append_assoc (a t) xs ys)
