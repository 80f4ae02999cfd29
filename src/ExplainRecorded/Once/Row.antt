-- ===== src/ExplainRecorded/Once/Row.antt =====
-- scripts/explain_recorded.py: one call of the explainer, and the insertion after it.
use paper_trading_agent.Base.{
  ℕ, ◌+◌, ◌≡◌, ◌≢◌, refl, subst, inl, inr, Bool, true, false, if◌then◌else◌, Bool-cases, Option,
  Option-cases, none, some, List, [], ◌∷◌, map, take, count_if, Text, ltb, Result, Result-cases, ok,
  err, or_raise, OnEnd,
}
use paper_trading_agent.RiskMath.{simple_returns}
use paper_trading_agent.Explainer.Node.{TailDay, RiskExplanation}
use paper_trading_agent.Llm.{Usage, usage_cost_usd}
use paper_trading_agent.Trace.{TraceRecorder, record_trace}
use paper_trading_agent.DataSources.{PriceBar}
use paper_trading_agent.ExplainRecorded.{
  RecordedDecision, RecordedState, Invoked, ScriptRun, Stop, cap_reached, raised, duplicate,
  state_of, is_veto, has_scale, is_explained, record_explanation, check_cap, final_quantity,
  tail_at, store_explanation, explain_row, var_tail_for, var_tail_at,
}
use paper_trading_agent.ExplainRecorded.Once.Tables.{IsNew, Adds}

-- A run does not stop for the constraint.
abbrev pub NotDuplicate : Stop → Type 0
NotDuplicate stop = stop ≢ raised duplicate

-- Calls that know nothing of the constraint.
abbrev pub Passes : {A : Type 0} → Result Stop A → Type 0
Passes r = OnEnd NotDuplicate (λ x. Unit {0}) r

pub or_raise-Passes :
    {A : Type 0} (x : Option A) (stop : Stop) → NotDuplicate stop → Passes (or_raise x stop)
or_raise-Passes none stop h = h
or_raise-Passes (some a) stop h = tt

module _ (ny_day : ℕ → ℕ) (iso : ℕ → Text) where
  pub var_tail_at-end :
      (bars : List PriceBar) (as_of : ℕ) → Passes (var_tail_at ny_day iso bars as_of)
  unfolding var_tail_at
  var_tail_at-end bars as_of =
      elim (Option-cases (
        simple_returns (
          take
            (count_if (λ d. ltb d (ny_day as_of)) (map (λ (b : PriceBar). ny_day b.timestamp) bars))
            (map (λ (b : PriceBar). b.close) bars)))) [
              | inl e ↦ rw e (λ same. cc)
              | inr (returns, e) ↦ rw e tt
            ]

  pub var_tail_for-end :
      (bars : List PriceBar) (rows : List RecordedDecision)
      → Passes (var_tail_for ny_day iso bars rows)
  unfolding var_tail_for
  var_tail_for-end bars [] = tt
  var_tail_for-end bars (row ∷ rows) = elim (Result-cases (var_tail_at ny_day iso bars row.as_of)) [
    | inr (x, e) ↦ rw e (subst Passes e (var_tail_at-end bars row.as_of))
    | inl (tail, e) ↦ rw e (elim (Result-cases (var_tail_for ny_day iso bars rows)) [
      | inr (x, f) ↦ rw f (subst Passes f (var_tail_for-end bars rows))
      | inl (tails, f) ↦ rw f tt
    ])
  ]

module _ (cap : ℕ) (traced : Bool) (invoke : RecordedState → Usage → Option Invoked) where
  -- A call for a row that is new.
  abbrev pub AddsTo : ℕ → ScriptRun → ScriptRun → Type 0
  AddsTo id st st' = Adds id st.explanations st'.explanations

  pub cap_test-end :
      (st : ScriptRun) (over : Bool) → Passes (if over then err cap_reached else ok (tt {0}))
  cap_test-end st true = λ same. cc
  cap_test-end st false = tt

  pub check_cap-end : (st : ScriptRun) → Passes (check_cap cap st)
  unfolding check_cap
  check_cap-end st = elim (Result-cases (usage_cost_usd st.usage)) [
    | inl (spent, e) ↦ rw e (cap_test-end st _)
    | inr (x, e) ↦ rw e (λ same. cc)
  ]

  pub final_quantity-end : (row : RecordedDecision) → Passes (final_quantity row)
  unfolding final_quantity
  final_quantity-end row = elim (Bool-cases (is_veto row.risk_opinion)) [
    | inl vetoed ↦ rw vetoed tt
    | inr other ↦ rw other (elim (Bool-cases (has_scale row.risk_flags)) [
      | inl scales ↦ rw scales (elim (Option-cases row.var_max_qty) [
        | inl unknown ↦ rw unknown (λ same. cc)
        | inr (allowed, known) ↦ rw known tt
      ])
      | inr plain ↦ rw plain tt
    ])
  ]

  pub store_explanation-end :
      (id : ℕ) (e : Option RiskExplanation) (recorder : TraceRecorder) (st : ScriptRun)
      → is_explained id st.explanations ≡ false
      → OnEnd NotDuplicate (AddsTo id st) (store_explanation cap traced invoke id e recorder st)
  unfolding store_explanation record_explanation
  store_explanation-end id none recorder st new = inl refl
  store_explanation-end id (some e) recorder st new = rw new (elim (Bool-cases traced) [
    | inl with_trace ↦ rw with_trace (elim (Result-cases (record_trace id recorder st.traces)) [
      | inl (written, w) ↦ rw w (inr (e, refl))
      | inr (x, w) ↦ rw w (λ same. cc)
    ])
    | inr untraced ↦ rw untraced (inr (e, refl))
  ])

  pub explain_row-end :
      (tails : List (ℕ × List TailDay)) (row : RecordedDecision) (st : ScriptRun)
      → IsNew st.explanations row
      → OnEnd NotDuplicate (AddsTo row.decision_id st) (explain_row cap traced invoke tails row st)
  unfolding explain_row
  explain_row-end tails row st new = elim (Result-cases (check_cap cap st)) [
    | inr (x, e) ↦ rw e (subst Passes e (check_cap-end st))
    | inl (u, e) ↦ rw e (elim (Option-cases (tail_at row.decision_id tails)) [
      | inl missing ↦ rw missing (λ same. cc)
      | inr (tail, found) ↦ rw found (elim (Result-cases (final_quantity row)) [
        | inr (x, f) ↦ rw f (subst Passes f (final_quantity-end row))
        | inl (quantity, f) ↦
            rw f
              (elim (Option-cases
                (invoke (state_of cap traced invoke row tail quantity) st.usage)) [
                  | inl failed ↦ rw failed (λ same. cc)
                  | inr (out, g) ↦ rw g (
                      store_explanation-end row.decision_id out.explanation out.recorder
                        (record st { done = st.done + 1; usage = out.usage }) new)
                ])
      ])
    ])
  ]
