-- ===== src/ExplainRecorded/Once/Tables.antt =====
-- scripts/explain_recorded.py: rows without repetition, and what an insertion into risk_explanations keeps.
use paper_trading_agent.Base.{
  ℕ, ◌≤◌, ◌≡◌, refl, subst, ◌⊎◌, inl, inr, Bool, false, not, ◌&&◌, ◌||◌, ◌==◌, Bool-cases, List, [],
  ◌∷◌, ◌++◌, select, count_if, count_if-append, All, All-selected, arith,
}
use paper_trading_agent.Numbers.Sorting.{count_if-sorted, All-sorted}
use paper_trading_agent.Explainer.Node.{RiskExplanation}
use paper_trading_agent.ExplainRecorded.{
  RecordedDecision, is_explained, earlier, has_trigger, decisions_of,
}
use paper_trading_agent.ExplainRecorded.Sample.{Subsequence, done, skip, keep}

abbrev pub Table : Type 0
Table = List (ℕ × RiskExplanation)

abbrev pub is_row : ℕ → RecordedDecision → Bool
is_row id row = row.decision_id == id

-- No decision stands twice among rows, or has two explanations.
abbrev pub NoRepeat : List RecordedDecision → Type 0
NoRepeat rows = (id : ℕ) → count_if (is_row id) rows ≤ 1

abbrev pub explanations_of : ℕ → Table → ℕ
explanations_of id table = count_if (λ (entry : ℕ × RiskExplanation). entry.0 == id) table

abbrev pub ExplainedOnce : Table → Type 0
ExplainedOnce table = (id : ℕ) → explanations_of id table ≤ 1

abbrev pub IsNew : Table → RecordedDecision → Type 0
IsNew table row = is_explained row.decision_id table ≡ false

pub is_explained-append :
    (id : ℕ) (s t : Table) → is_explained id (s ++ t) ≡ (is_explained id s || is_explained id t)
is_explained-append id [] t = refl
is_explained-append id ((i, e) ∷ s) t = ground (arith, is_explained-append id s t)

pub none_of :
    (id : ℕ) (table : Table) → is_explained id table ≡ false → explanations_of id table ≡ 0
none_of id [] h = refl
none_of id ((i, e) ∷ table) h = ground (arith, none_of id table)

-- At most one explanation is added, for this decision.
abbrev pub Adds : ℕ → Table → Table → Type 0
Adds id t t' = (t' ≡ t) ⊎ ((e : RiskExplanation) × (t' ≡ t ++ (id, e) ∷ []))

pub Adds-once :
    (id : ℕ) (t t' : Table)
    → is_explained id t ≡ false
    → ExplainedOnce t
    → Adds id t t'
    → ExplainedOnce t'
Adds-once id t t' new once (inl same) i = rw same (once i)
Adds-once id t t' new once (inr (e, added)) i = rw added (
    rw (count_if-append (λ (entry : ℕ × RiskExplanation). entry.0 == i) t ((id, e) ∷ []))
      (elim (Bool-cases (id == i)) [
        | inl here ↦
            (let same : id ≡ i = ground arith in
              ground (arith, none_of i t (subst (λ x. is_explained x t ≡ false) same new)))
        | inr there ↦ rw there (omega (arith, once i))
      ]))

pub Adds-IsNew :
    (row : RecordedDecision) (id : ℕ) (t t' : Table)
    → (row.decision_id == id) ≡ false
    → Adds id t t'
    → IsNew t row
    → IsNew t' row
Adds-IsNew row id t t' other (inl same) new = rw same new
Adds-IsNew row id t t' other (inr (e, added)) new =
    rw added (rw (is_explained-append row.decision_id t ((id, e) ∷ [])) (ground arith))

module _ (p : RecordedDecision → Bool) where
  pub Subsequence-count :
      {xs ys : List RecordedDecision} → Subsequence xs ys → count_if p xs ≤ count_if p ys
  Subsequence-count done = omega arith
  Subsequence-count (skip {y = y} s) = omega (arith, Subsequence-count s)
  Subsequence-count (keep {y = y} s) = omega (arith, Subsequence-count s)

  pub select-count :
      (q : RecordedDecision → Bool) (xs : List RecordedDecision)
      → count_if p (select q xs) ≤ count_if p xs
  select-count q [] = omega arith
  select-count q (x ∷ xs) = elim (Bool-cases (q x)) [
    | inl e ↦ rw e (omega (arith, select-count q xs))
    | inr e ↦ rw e (omega (arith, select-count q xs))
  ]

pub Subsequence-All :
    (P : RecordedDecision → Type 0) {xs ys : List RecordedDecision}
    → Subsequence xs ys
    → All P ys
    → All P xs
Subsequence-All P done h = tt
Subsequence-All P (skip s) (h, hs) = Subsequence-All P s hs
Subsequence-All P (keep s) (h, hs) = (h, Subsequence-All P s hs)

-- The rows of DECISIONS are new, and none is there twice if none is in what the joins give.
pub decisions_of-IsNew :
    (joined : List RecordedDecision) (table : Table) → All (IsNew table) (decisions_of joined table)
unfolding decisions_of
decisions_of-IsNew joined table =
    All-sorted earlier (IsNew table) _ (All-selected (IsNew table) _ joined (λ row h. ground arith))

pub decisions_of-NoRepeat :
    (joined : List RecordedDecision) (table : Table)
    → NoRepeat joined
    → NoRepeat (decisions_of joined table)
unfolding decisions_of
decisions_of-NoRepeat joined table h id =
    let wanted : RecordedDecision → Bool = λ (row : RecordedDecision).
      has_trigger row.risk_flags && not (is_explained row.decision_id table) in
    rw (count_if-sorted earlier (is_row id) (select wanted joined))
      (omega (arith, select-count (is_row id) wanted joined, h id))

pub none_left :
    (id : ℕ) (rows : List RecordedDecision)
    → count_if (is_row id) rows ≤ 0
    → All (λ (r : RecordedDecision). (r.decision_id == id) ≡ false) rows
none_left id [] h = tt
none_left id (r ∷ rows) h = elim (Bool-cases (r.decision_id == id)) [
  | inl e ↦ absurd (ground arith)
  | inr e ↦ (e, none_left id rows (ground arith))
]

-- The other rows have other ids.
pub others_differ :
    (row : RecordedDecision) (rows : List RecordedDecision)
    → NoRepeat (row ∷ rows)
    → All (λ (r : RecordedDecision). (r.decision_id == row.decision_id) ≡ false) rows
others_differ row rows h = none_left row.decision_id rows (ground (arith, h row.decision_id))

pub All-IsNew :
    (id : ℕ) (t t' : Table) (rows : List RecordedDecision)
    → All (λ (r : RecordedDecision). (r.decision_id == id) ≡ false) rows
    → Adds id t t'
    → All (IsNew t) rows
    → All (IsNew t') rows
All-IsNew id t t' [] far adds h = tt
All-IsNew id t t' (r ∷ rows) (f, far) adds (h, hs) =
    (Adds-IsNew r id t t' f adds h, All-IsNew id t t' rows far adds hs)

pub NoRepeat-rest :
    (row : RecordedDecision) (rows : List RecordedDecision) → NoRepeat (row ∷ rows) → NoRepeat rows
NoRepeat-rest row rows h id = omega (arith, h id)
