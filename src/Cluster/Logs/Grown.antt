-- ===== src/Cluster/Logs/Grown.antt =====
-- A history in which the log of one term has a new entry.
use miniraft_cpp.Prelude.{
  ℕ, suc, true, ◌<◌, ◌≡◌, ◌≢◌, ◌⊎◌, refl, ap, sym, subst, ◌∙◌, inl, inr, List, [], ◌∷◌, ◌++◌, All,
  length, take, arith, length-append, take-append_le, get_elem?-append, ◌==◌, if◌then◌else◌, ==_iff,
  ℕ_discrete, dec_lt,
}
use miniraft_cpp.Prelude.Bytes.{append_nil}
use miniraft_cpp.Messages.{LogEntry}
use miniraft_cpp.State.{IsValid, term_or_zero}
use miniraft_cpp.State.Log.{term_at}
use miniraft_cpp.State.Replace.{HaveTerms}
use miniraft_cpp.Raft.{Raft, leader}
use miniraft_cpp.Cluster.Logs.{History, IsCoherent, Carried, NodeLog, Extends}
use miniraft_cpp.Cluster.Logs.Extended.{IsCoherent-Extends, sent-Extends, term_at-append}
use miniraft_cpp.Cluster.Logs.Merged.{HaveTerms-append}

-- The log of term `t` becomes `xs`.
unfoldable pub with_log : ℕ → List LogEntry → History → History
with_log t xs hist u = if t == u then xs else hist u

pub with_log_self : (t : ℕ) (xs : List LogEntry) (hist : History) → with_log t xs hist t ≡ xs
unfolding with_log
with_log_self t xs hist = let e : (t == t) ≡ true = (==_iff t t).1 refl in rw e refl

pub with_log_other :
    (t u : ℕ) (xs : List LogEntry) (hist : History) → t ≢ u → with_log t xs hist u ≡ hist u
unfolding with_log
with_log_other t u xs hist h = ground arith

module _ (hist : History) (xs : List LogEntry) (e : LogEntry) (coherent : IsCoherent hist xs)
    (entries : HaveTerms xs) (positive : 0 < e.term)
    (own : (hist e.term ≡ []) ⊎ (hist e.term ≡ xs)) where
  abbrev longer : List LogEntry
  longer = xs ++ e ∷ []

  abbrev grown : History
  grown = with_log e.term longer hist

  pub grown-Extends : Extends hist grown
  grown-Extends u = elim (ℕ_discrete e.term u) [
    | yes same ↦
        let self : grown u ≡ longer = ap grown (sym same) ∙ with_log_self e.term longer hist in
        elim own [
          | inl nothing ↦
              (longer, self ∙ sym (ap (λ l. l ++ longer) (ap hist (sym same) ∙ nothing)))
          | inr had ↦ (e ∷ [], self ∙ sym (ap (λ l. l ++ e ∷ []) (ap hist (sym same) ∙ had)))
        ]
    | no apart ↦ ([], with_log_other e.term u longer hist apart ∙ sym (append_nil (hist u)))
  ]

  last_term_at : term_at (length xs) longer ≡ e.term
  last_term_at = ap term_or_zero (get_elem?-append xs [] e)

  pub longer-IsCoherent : IsCoherent grown longer
  longer-IsCoherent i h = elim (dec_lt i (length xs)) [
    | yes early ↦
        take-append_le (suc i) xs (e ∷ []) (omega arith)
        ∙ IsCoherent-Extends hist grown grown-Extends xs coherent i early
        ∙ ap (λ t. take (suc i) (grown t)) (sym (term_at-append i xs (e ∷ []) early))
    | no late ↦
        let last : i ≡ length xs = omega (arith, h, length-append xs (e ∷ [])) in
        ap (take (suc i)) (sym (with_log_self e.term longer hist))
        ∙ ap (λ t. take (suc i) (grown t)) (sym (ap (λ k. term_at k longer) last ∙ last_term_at))
  ]

  pub longer-HaveTerms : HaveTerms longer
  longer-HaveTerms = HaveTerms-append xs (e ∷ []) entries (positive, tt)

  pub grown-IsCoherent : ((t : ℕ) → IsCoherent hist (hist t)) → (t : ℕ) → IsCoherent grown (grown t)
  grown-IsCoherent logs t = elim (ℕ_discrete e.term t) [
    | yes same ↦
        subst (IsCoherent grown) (sym (ap grown (sym same) ∙ with_log_self e.term longer hist))
          longer-IsCoherent
    | no apart ↦
        subst (IsCoherent grown) (sym (with_log_other e.term t longer hist apart))
          (IsCoherent-Extends hist grown grown-Extends (hist t) (logs t))
  ]

  pub grown-HaveTerms : ((t : ℕ) → HaveTerms (hist t)) → (t : ℕ) → HaveTerms (grown t)
  grown-HaveTerms terms t = elim (ℕ_discrete e.term t) [
    | yes same ↦
        subst HaveTerms (sym (ap grown (sym same) ∙ with_log_self e.term longer hist))
          longer-HaveTerms
    | no apart ↦ subst HaveTerms (sym (with_log_other e.term t longer hist apart)) (terms t)
  ]

  -- A server that is no leader of the term.
  pub NodeLog-grown :
      (r : Raft)
      → (r.state_name ≡ leader → r.state.current_term ≢ e.term)
      → NodeLog hist r
      → NodeLog grown r
  NodeLog-grown r other_term n = record {
    valid = n.valid;
    coherent = IsCoherent-Extends hist grown grown-Extends r.state.log n.coherent;
    terms = n.terms;
    positive = n.positive;
    leads = λ leads.
        with_log_other e.term r.state.current_term longer hist (λ same. other_term leads (sym same))
        ∙ n.leads leads;
    sent = sent-Extends hist grown grown-Extends r.outbox n.sent;
  }

  -- The server whose log has the new entry.
  pub NodeLog-longer :
      (r r' : Raft)
      → NodeLog hist r
      → r.state.log ≡ xs
      → r'.state.log ≡ longer
      → IsValid r'.state
      → r'.state.current_term ≡ e.term
      → r'.outbox ≡ r.outbox
      → NodeLog grown r'
  NodeLog-longer r r' n l l' v t o = record {
    valid = v;
    coherent = subst (IsCoherent grown) (sym l') longer-IsCoherent;
    terms = subst HaveTerms (sym l') longer-HaveTerms;
    positive = omega (arith, t, positive);
    leads = λ leads. ap grown t ∙ with_log_self e.term longer hist ∙ sym l';
    sent =
        subst (All (Carried grown)) (sym o) (sent-Extends hist grown grown-Extends r.outbox n.sent);
  }
