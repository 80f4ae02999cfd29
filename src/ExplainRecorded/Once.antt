-- ===== src/ExplainRecorded/Once.antt =====
-- scripts/explain_recorded.py: no decision is explained twice, so that UNIQUE (decision_id) of risk_explanations
-- never stops a run.
pub mod Tables
mod Row
use paper_trading_agent.Base.{
  ℕ, zero, suc, ◌+◌, ◌≤◌, ◌≡◌, ◌≢◌, refl, sym, ◌∙◌, ap, subst, ◌⊎◌, inl, inr, Bool, true, false,
  not, ◌&&◌, ◌||◌, ◌==◌, if◌then◌else◌, Bool-cases, Option, Option-cases, none, some, List, [], ◌∷◌,
  ◌++◌, map, take, select, count_if, count_if-append, All, All-selected, Text, ℤ, ltb, ◌*◌, Result,
  Result-cases, ok, err, or_raise, OnEnd, OnEnd->>=, ◌>>=◌, arith,
}
use mathlib.Core.Option.{some-injective}
use paper_trading_agent.Numbers.Sorting.{sorted, count_if-sorted, All-sorted}
use paper_trading_agent.State.{Symbol}
use paper_trading_agent.RiskMath.{simple_returns}
use paper_trading_agent.Explainer.Node.{TailDay, RiskExplanation}
use paper_trading_agent.Llm.{Usage, LlmError, usage_cost_usd}
use paper_trading_agent.Trace.{TraceRecorder, TraceError, TraceRow, record_trace}
use paper_trading_agent.DataSources.{PriceBar}
use paper_trading_agent.ExplainRecorded.{
  RecordedDecision, RecordedState, Invoked, ScriptRun, Stop, cap_reached, raised, duplicate,
  no_tail, no_var_max, node_raised, state_of, is_veto, has_scale, is_explained, earlier,
  has_trigger, decisions_of, record_explanation, check_cap, final_quantity, tail_at,
  store_explanation, explain_row, explain_rows, evenly_spaced, var_tail_for, explain_picked,
  bars_for, var_tail_at, explain_backtest, explain_backtests, lift_llm, lift_trace,
}
use paper_trading_agent.ExplainRecorded.Sample.{Subsequence, done, skip, keep, evenly_spaced_lem}
use paper_trading_agent.ExplainRecorded.Once.Tables.{
  Table, is_row, NoRepeat, explanations_of, ExplainedOnce, IsNew, is_explained-append, none_of,
  Adds, Adds-once, Adds-IsNew, Subsequence-count, select-count, Subsequence-All, decisions_of-IsNew,
  decisions_of-NoRepeat, none_left, others_differ, All-IsNew, NoRepeat-rest,
}
use paper_trading_agent.ExplainRecorded.Once.Row.{
  NotDuplicate, Passes, or_raise-Passes, var_tail_at-end, var_tail_for-end, AddsTo, cap_test-end,
  check_cap-end, final_quantity-end, store_explanation-end, explain_row-end,
}

module _ (cap : ℕ) (traced : Bool) (invoke : RecordedState → Usage → Option Invoked) where
  -- The rows of one backtest.
  abbrev RowsEnd : ScriptRun × Option Stop → Type 0
  RowsEnd end = (end.1 ≢ some (raised duplicate)) × ExplainedOnce end.0.explanations

  stopped :
      (st : ScriptRun) (stop : Stop)
      → NotDuplicate stop
      → ExplainedOnce st.explanations
      → RowsEnd (st, some stop)
  stopped st stop h once = ((λ e. h (some-injective _ _ e)), once)

  explain_rows-next :
      (tails : List (ℕ × List TailDay)) (row : RecordedDecision) (rows : List RecordedDecision)
      (st : ScriptRun) {st' : ScriptRun}
      → explain_row cap traced invoke tails row st ≡ ok st'
      → explain_rows cap traced invoke tails (row ∷ rows) st
        ≡ explain_rows cap traced invoke tails rows st'
  unfolding explain_rows
  explain_rows-next tails row rows st e = ground arith

  explain_rows-stop :
      (tails : List (ℕ × List TailDay)) (row : RecordedDecision) (rows : List RecordedDecision)
      (st : ScriptRun) {stop : Stop}
      → explain_row cap traced invoke tails row st ≡ err stop
      → explain_rows cap traced invoke tails (row ∷ rows) st ≡ (st, some stop)
  unfolding explain_rows
  explain_rows-stop tails row rows st e = ground arith

  explain_rows-end :
      (tails : List (ℕ × List TailDay)) (rows : List RecordedDecision) (st : ScriptRun)
      → NoRepeat rows
      → All (IsNew st.explanations) rows
      → ExplainedOnce st.explanations
      → RowsEnd (explain_rows cap traced invoke tails rows st)
  unfolding explain_rows
  explain_rows-end tails [] st distinct new once = ((λ e. cc), once)
  explain_rows-end tails (row ∷ rows) st distinct (n, new) once =
      let Q : Result Stop ScriptRun → Type 0 =
        OnEnd NotDuplicate (AddsTo cap traced invoke row.decision_id st) in
      elim (Result-cases (explain_row cap traced invoke tails row st)) [
        | inr (stop, e) ↦
            subst RowsEnd (sym (explain_rows-stop tails row rows st e))
              (stopped st stop (subst Q e (explain_row-end cap traced invoke tails row st n)) once)
        | inl (st', e) ↦
            (let adds : AddsTo cap traced invoke row.decision_id st st' =
                subst Q e (explain_row-end cap traced invoke tails row st n) in
              subst RowsEnd (sym (explain_rows-next tails row rows st e)) (
                explain_rows-end tails rows st' (NoRepeat-rest row rows distinct)
                  (All-IsNew row.decision_id st.explanations st'.explanations rows
                    (others_differ row rows distinct) adds new)
                  (Adds-once row.decision_id st.explanations st'.explanations n once adds)))
      ]

  module _ (ny_day : ℕ → ℕ) (iso : ℕ → Text) (joined : ℕ → List RecordedDecision)
      (get_recent_bars : Symbol → ℕ → ℕ → List PriceBar) (per_backtest : ℕ)
      (joined_once : (id : ℕ) → NoRepeat (joined id)) where
    picked_end :
        (picked : List RecordedDecision) (st : ScriptRun)
        → NoRepeat picked
        → All (IsNew st.explanations) picked
        → ExplainedOnce st.explanations
        → RowsEnd (
            explain_picked cap traced invoke ny_day iso joined get_recent_bars per_backtest
              (some picked)
              st)
    picked_end [] st distinct new once = ((λ e. cc), once)
    picked_end (row ∷ rows) st distinct new once =
        elim (Result-cases (
          var_tail_for ny_day iso
            (bars_for cap traced invoke ny_day iso joined get_recent_bars per_backtest row rows)
            (row ∷ rows))) [
              | inr (stop, e) ↦ rw e (
                  stopped st stop
                    (subst Passes e (
                      var_tail_for-end ny_day iso
                        (bars_for cap traced invoke ny_day iso joined get_recent_bars per_backtest
                          row rows)
                        (row ∷ rows)))
                    once)
              | inl (tails, e) ↦ rw e (explain_rows-end tails (row ∷ rows) st distinct new once)
            ]

    explain_backtest-end :
        (id : ℕ) (st : ScriptRun)
        → ExplainedOnce st.explanations
        → RowsEnd (
            explain_backtest cap traced invoke ny_day iso joined get_recent_bars per_backtest id st)
    unfolding explain_backtest
    explain_backtest-end id st once =
        let rows = decisions_of (joined id) st.explanations in
        let (picked, e, part, _) = evenly_spaced_lem rows per_backtest in
        let new = Subsequence-All _ part (decisions_of-IsNew (joined id) st.explanations) in
        let distinct : NoRepeat picked = λ i. omega (
          arith,
          Subsequence-count (is_row i) part,
          decisions_of-NoRepeat (joined id) st.explanations (joined_once id) i,
        ) in
        rw e (picked_end picked st distinct new once)

    abbrev a_backtest : ℕ → ScriptRun → ScriptRun × Option Stop
    a_backtest = explain_backtest cap traced invoke ny_day iso joined get_recent_bars per_backtest

    abbrev backtests : List ℕ → ScriptRun → ScriptRun × Option Stop
    backtests = explain_backtests cap traced invoke ny_day iso joined get_recent_bars per_backtest

    explain_backtests-next :
        (id : ℕ) (ids : List ℕ) (st : ScriptRun)
        → (a_backtest id st).1 ≡ none
        → backtests (id ∷ ids) st ≡ backtests ids (a_backtest id st).0
    unfolding explain_backtests
    explain_backtests-next id ids st e = ground arith

    explain_backtests-stop :
        (id : ℕ) (ids : List ℕ) (st : ScriptRun) {stop : Stop}
        → (a_backtest id st).1 ≡ some stop
        → backtests (id ∷ ids) st ≡ ((a_backtest id st).0, some stop)
    unfolding explain_backtests
    explain_backtests-stop id ids st e = ground arith

    -- Where the joins give no decision of a backtest twice, and no decision has two explanations at the
    -- start, none has two at the end, and the run does not stop for UNIQUE (decision_id) of
    -- risk_explanations, also when a backtest is named more than once. It may stop for another exception,
    -- with --trace also for UNIQUE (decision_id, step) of trace_steps.
    pub explain_backtests_once :
        (ids : List ℕ) (st : ScriptRun)
        → ExplainedOnce st.explanations
        → let end =
            explain_backtests cap traced invoke ny_day iso joined get_recent_bars per_backtest ids
              st in
          (end.1 ≢ some (raised duplicate)) × ExplainedOnce end.0.explanations
    unfolding explain_backtests
    explain_backtests_once [] st once = ((λ e. cc), once)
    explain_backtests_once (id ∷ ids) st once =
        let (first, once') = explain_backtest-end id st once in
        elim (Option-cases (a_backtest id st).1) [
          | inl e ↦
              subst RowsEnd (sym (explain_backtests-next id ids st e))
                (explain_backtests_once ids _ once')
          | inr (stop, e) ↦
              subst RowsEnd (sym (explain_backtests-stop id ids st e)) ((λ f. first (e ∙ f)), once')
        ]
