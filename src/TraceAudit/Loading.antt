-- ===== src/TraceAudit/Loading.antt =====
-- load_steps of app/agent/trace_audit.py after record_trace of app/agent/trace.py: the rows come back as the steps.
use paper_trading_agent.Base.{
  ℕ, ◌+◌, ◌≤◌, ◌≡◌, refl, ap, sym, ◌∙◌, inl, inr, Bool, true, List, [], ◌∷◌, ◌++◌, map, ◌==◌,
  ==_iff, select, select-append, All, ok, ok_injective, arith,
}
use paper_trading_agent.Numbers.Sorting.{IsSorted, sorted_of_IsSorted}
use paper_trading_agent.Trace.{Step, TraceRecorder, TraceRow, stored, record_trace}
use paper_trading_agent.Trace.Numbering.{NumberedFrom}
use paper_trading_agent.Trace.Writing.{row_of, record_trace_lem}
use paper_trading_agent.TraceAudit.{earlier_step, load_steps}

abbrev pub is_of : ℕ → TraceRow → Bool
is_of d row = row.decision_id == d

select-rows : (d : ℕ) (ss : List Step) → select (is_of d) (map (row_of d) ss) ≡ map (row_of d) ss
select-rows d [] = refl
select-rows d (s ∷ ss) =
    rw ((==_iff d d).1 refl) (ap (λ rows. row_of d s ∷ rows) (select-rows d ss))

traced-rows :
    (d : ℕ) (ss : List Step)
    → map (λ (row : TraceRow). row.traced) (map (row_of d) ss) ≡ map stored ss
traced-rows d [] = refl
traced-rows d (s ∷ ss) = ap (λ ts. stored s ∷ ts) (traced-rows d ss)

later_steps :
    (m n : ℕ) (ss : List Step)
    → m ≤ n
    → NumberedFrom n ss
    → (s : Step) → s.step ≡ m
    → All (λ t. earlier_step s t ≡ true) (map stored ss)
later_steps m n [] h k s e = tt
later_steps m n (t ∷ ts) h (k, ks) s e =
    (ground arith, later_steps m (n + 1) ts (omega arith) ks s e)

IsSorted-stored :
    (n : ℕ) (ss : List Step) → NumberedFrom n ss → IsSorted earlier_step (map stored ss)
IsSorted-stored n [] h = tt
IsSorted-stored n (s ∷ ss) (h, hs) =
    (later_steps n (n + 1) ss (omega arith) hs (stored s) h, IsSorted-stored (n + 1) ss hs)

-- What record_trace wrote of numbered steps is read back, in order.
pub load_steps-record_trace :
    (d : ℕ) (r : TraceRecorder) (table : List TraceRow) {table' : List TraceRow} {n : ℕ}
    → NumberedFrom 0 r.steps
    → select (is_of d) table ≡ []
    → record_trace d r table ≡ ok (table', n)
    → load_steps table' d ≡ map stored r.steps
unfolding load_steps
load_steps-record_trace d r table {table'} numbered fresh done =
    elim (record_trace_lem d r table numbered) [
      | inr (inr (s, first, raised)) ↦ cc
      | inr (inl (clean, taken, raised)) ↦ cc
      | inl (clean, free, wrote) ↦
          (let whole : table' ≡ table ++ map (row_of d) r.steps =
              ap (λ p. p.0) (ok_injective (sym done ∙ wrote)) in
            rw whole (
              rw (select-append (is_of d) table (map (row_of d) r.steps)) (
                rw fresh (
                  rw (select-rows d r.steps) (
                    rw (traced-rows d r.steps) (
                      sorted_of_IsSorted earlier_step (map stored r.steps)
                        (IsSorted-stored 0 r.steps numbered)))))))
    ]
